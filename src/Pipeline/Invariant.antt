-- ===== src/Pipeline/Invariant.antt =====
-- The invariant of the two threads, and that every step keeps it: the received nodes are those that
-- `intdata` shows (`past`) and those that the queue still holds (`pending`).
use psw_afdx.Base.{
  ℕ, ◌+◌, ◌≤◌, ◌≡◌, none, some, Option, List, [], ◌∷◌, ◌++◌, map, arith, length, Option-cases, inl,
  inr,
}
use psw_afdx.IntData.{IntData, initial_intdata}
use psw_afdx.Elaboration.{elaborate}
use psw_afdx.Queue.{NqNode, Queue, IsValid, count}
use psw_afdx.Pipeline.{
  NetPc, receiving, signalling, ElabPc, woken, holding, disposing, null_read, out_of_bounds, World,
}
use psw_afdx.Pipeline.Stored.{reserved, stored, IsLast}

-- The elaboration of nodes one after the other.
abbrev pub elaborate_all : IntData → List NqNode → Option IntData
elaborate_all d [] = some d
elaborate_all d (n ∷ ns) = elim (elaborate d n.packet n.last_update) [
  | none ↦ none
  | some d' ↦ elaborate_all d' ns
]

pub elaborate_all-snoc :
    (ns : List NqNode) (n : NqNode) (d d' : IntData)
    → elaborate_all d ns ≡ some d'
    → elaborate_all d (ns ++ (n ∷ [])) ≡ elaborate d' n.packet n.last_update
elaborate_all-snoc [] n d d' e = ground arith
elaborate_all-snoc (m ∷ ns) n d d' e = elim (Option-cases (elaborate d m.packet m.last_update)) [
  | inl fails ↦ cc
  | inr (d1, e1) ↦
      rw (elaborate_all, e1) (elaborate_all-snoc ns n d1 d' (rw (elaborate_all, e1) at e))
]

-- A round of the elaboration thread under way.
abbrev pub active : ElabPc → ℕ
active woken = 1
active (holding i) = 1
active disposing = 1
active _ = 0

-- A node that the semaphore no longer counts and the queue still holds.
abbrev pub uncounted : ElabPc → ℕ
uncounted (holding i) = 1
uncounted disposing = 1
uncounted out_of_bounds = 1
uncounted _ = 0

-- A wake-up that the network thread is about to send.
abbrev pub signals : NetPc → ℕ
signals signalling = 1
signals _ = 0

abbrev pub NetState : NetPc → Queue → Type 0
NetState (receiving i) q = IsLast i q
NetState _ q = Unit

-- What `intdata` shows: the elaboration of `past`, and from `store` on of the first pending node.
abbrev pub ElabState : ElabPc → ℕ → IntData → List NqNode → List NqNode → Type 0
ElabState (holding i) o d past pending = (i ≡ o) × (elaborate_all initial_intdata past ≡ some d)
ElabState disposing o d past pending =
    (n : NqNode) × (rest : List NqNode) × (pending ≡ n ∷ rest)
    × (elaborate_all initial_intdata (past ++ (n ∷ [])) ≡ some d)
ElabState null_read o d past pending = ⊥
ElabState out_of_bounds o d past pending =
    (n : NqNode) × (rest : List NqNode) × (pending ≡ n ∷ rest)
    × (elaborate_all initial_intdata past ≡ some d)
    × (elaborate d n.packet n.last_update ≡ none)
ElabState _ o d past pending = elaborate_all initial_intdata past ≡ some d

pub record Inv (w : World) (past pending : List NqNode) : Type 0 where
  pub valid : IsValid w.queue
  pub split : w.received ≡ past ++ pending
  pub held : stored w.queue (reserved w.net) ≡ map some pending
  pub room : active w.elab + signals w.net ≤ length pending
  pub sem : count w.queue ≤ w.queue.nr_nodes + uncounted w.elab
  pub net : NetState w.net w.queue
  pub elab : ElabState w.elab w.queue.out_ptr w.intdata past pending
