-- ===== src/Pipeline/Safety.antt =====
-- What holds of the network thread and the elaboration thread in every order of their steps.
use psw_afdx.Base.{
  ℕ, ◌-◌, ◌<◌, ◌≡◌, ◌≢◌, refl, ap, subst, some, List, [], ◌∷◌, ◌++◌, map, arith, length, get_elem?,
  get_elem?-eq_some, Option-cases, inl, inr, ◌⊎◌, All,
}
use psw_afdx.Protocol.{AreBytes, identifier, packet_type_engine, byte_at}
use psw_afdx.IntData.{IntData, initial_intdata, nr_engines}
use psw_afdx.IntData
use psw_afdx.Elaboration.{elaborate}
use psw_afdx.Elaboration.Bounds.{initial-IsValid, elaborate-eq-none, elaborate-IsValid}
use psw_afdx.Queue.{NqNode, size_queue, next_nqnode_out}
use psw_afdx.Pipeline.{
  receiving, ElabPc, idle, waiting, woken, holding, disposing, null_read, out_of_bounds, World,
  ElabStep, sleep, take, store, overrun, dispose, Reach,
}
use psw_afdx.Pipeline.Stored.{reserved, stored, IsLast}
use psw_afdx.Pipeline.Invariant.{elaborate_all, active, NetState, ElabState}
use psw_afdx.Pipeline.Moves.{pending-count}
use psw_afdx.Pipeline.Kept.{woken_out, Reach-Holds}

-- A step of the elaboration thread, or what keeps it from one.
abbrev pub Progress : World → Type 0
Progress w = (w.elab ≡ waiting) ⊎ (w.elab ≡ out_of_bounds) ⊎ ((v : World) × ElabStep w v)

module _ (nodes : List NqNode) (w : World) (full_size : length nodes ≡ size_queue)
    (r : Reach nodes w) where
  -- Whatever the order of the steps from a start with 100 nodes, the received nodes fall into an
  -- older part and a newer part: the queue holds the newer part, in order and without the
  -- reserved node, and while the elaboration thread is in its wait, `intdata` is the initial one
  -- after the elaboration of the older part.
  pub received_lem :
      (past : List NqNode) × (pending : List NqNode) × (w.received ≡ past ++ pending)
      × (stored w.queue (reserved w.net) ≡ map some pending)
      × (w.elab ≡ waiting → elaborate_all initial_intdata past ≡ some w.intdata)
  received_lem =
      let (past, pending, inv) = Reach-Holds nodes full_size r in
      (
        past,
        pending,
        inv.split,
        inv.held,
        λ e. subst (λ x. ElabState x w.queue.out_ptr w.intdata past pending) e inv.elab,
      )

  -- Whatever the order of the steps from a start with 100 nodes, an elaboration thread that a
  -- signal has woken up neither blocks in `next_nqnode_out` nor gets NULL: it gets the oldest
  -- node.
  pub woken-next_nqnode_out :
      w.elab ≡ woken
      → next_nqnode_out w.queue
        ≡ some (some w.queue.out_ptr, record w.queue { nr_nodes = w.queue.nr_nodes - 1 })
  woken-next_nqnode_out = woken_out w (Reach-Holds nodes full_size r)

  -- Whatever the order of the steps from a start with 100 nodes, the elaboration thread never
  -- reads through NULL.
  pub elab-neq_null_read : w.elab ≢ null_read
  elab-neq_null_read e =
      let (past, pending, inv) = Reach-Holds nodes full_size r in
      subst (λ x. ElabState x w.queue.out_ptr w.intdata past pending) e inv.elab

  -- Whatever the order of the steps from a start with 100 nodes, the node that the network thread
  -- fills, outside the mutex, is not the one that the elaboration thread reads, outside the
  -- mutex.
  pub receiving-neq_holding : (i j : ℕ) → w.net ≡ receiving i → w.elab ≡ holding j → i ≢ j
  receiving-neq_holding i j net elab =
      let (past, pending, inv) = Reach-Holds nodes full_size r in
      let s = subst (λ x. ElabState x w.queue.out_ptr w.intdata past pending) elab inv.elab in
      let last : IsLast i w.queue = subst (λ x. NetState x w.queue) net inv.net in
      let a1 : active w.elab ≡ 1 = ap active elab in
      let r1 : reserved w.net ≡ 1 = ap reserved net in
      let counted = pending-count w past pending inv in
      λ same. omega (arith, s.0, last.0, last.1, inv.room, inv.valid.in_range, inv.valid.out_range)

  -- Whatever the order of the steps from a start with 100 nodes, the elaboration thread can take
  -- a step unless it is in its wait or has written out of bounds.
  pub elab-Progress : Progress w
  elab-Progress = go w.elab refl
    where
      moves : (v : World) → ElabStep w v → Progress w
      moves v s = inr (inr (v, s))

      reads :
          (i : ℕ) (n : NqNode)
          → w.elab ≡ holding i
          → get_elem? w.queue.nodes i ≡ some n
          → Progress w
      reads i n e at = elim (Option-cases (elaborate w.intdata n.packet n.last_update)) [
        | inl fails ↦ moves _ (overrun i n e at fails)
        | inr (d, ok) ↦ moves _ (store i n d e at ok)
      ]

      go : (e : ElabPc) → w.elab ≡ e → Progress w
      go idle e = moves _ (sleep e)
      go waiting e = inl e
      go woken e =
          let out = woken_out w (Reach-Holds nodes full_size r) e in
          moves _ (take w.queue.out_ptr _ e out)
      go (holding i) e = elim (Option-cases (get_elem? w.queue.nodes i)) [
        | inl missing ↦
            let (past, pending, inv) = Reach-Holds nodes full_size r in
            let s = subst (λ x. ElabState x w.queue.out_ptr w.intdata past pending) e inv.elab in
            let there =
              get_elem?-eq_some w.queue.nodes i
                (omega (arith, s.0, inv.valid.storage, inv.valid.out_range)) in
            absurd cc
        | inr (n, at) ↦ reads i n e at
      ]
      go disposing e = moves _ (dispose e)
      go null_read e = absurd (elab-neq_null_read e)
      go out_of_bounds e = inr (inl e)

-- A packet whose engine number, if it has one, is that of an engine.
abbrev pub IsSound : NqNode → Type 0
IsSound n =
    AreBytes n.packet × (identifier n.packet ≡ packet_type_engine → byte_at n.packet 1 < nr_engines)

All-append : (P : NqNode → Type 0) (xs ys : List NqNode) → All P (xs ++ ys) → All P xs × All P ys
All-append P [] ys h = (tt, h)
All-append P (x ∷ xs) ys h = let (l, m) = All-append P xs ys h.1 in ((h.0, l), m)

elaborate_all-IsValid :
    (ns : List NqNode) (d d' : IntData)
    → All IsSound ns
    → IntData.IsValid d
    → elaborate_all d ns ≡ some d'
    → IntData.IsValid d'
elaborate_all-IsValid [] d d' h v e =
    let same : d ≡ d' = cc in subst (λ o. IntData.IsValid o) same v
elaborate_all-IsValid (n ∷ ns) d d' h v e =
    elim (Option-cases (elaborate d n.packet n.last_update)) [
      | inl fails ↦ absurd (let f = rw (elaborate_all, fails) at e in cc)
      | inr (d1, e1) ↦
          elaborate_all-IsValid ns d1 d' h.1
            (elaborate-IsValid d d1 n.packet n.last_update v h.0.0 e1) (rw (elaborate_all, e1) at e)
    ]

-- Whatever the order of the steps from a start with 100 nodes, if every engine packet received so
-- far has an engine number below `NR_ENGINES`, then the elaboration thread has not written out of
-- bounds.
pub elab-neq_out_of_bounds :
    (nodes : List NqNode) (w : World)
    → length nodes ≡ size_queue
    → Reach nodes w
    → All IsSound w.received
    → w.elab ≢ out_of_bounds
elab-neq_out_of_bounds nodes w full_size r sound e =
    let (past, pending, inv) = Reach-Holds nodes full_size r in
    let s : ElabState out_of_bounds w.queue.out_ptr w.intdata past pending =
      subst (λ x. ElabState x w.queue.out_ptr w.intdata past pending) e inv.elab in
    let (n, rest, is, all, fails) = s in
    let (before, after) = All-append IsSound past pending (rw inv.split at sound) in
    let this : All IsSound (n ∷ rest) = rw is at after in
    let v = elaborate_all-IsValid past initial_intdata w.intdata before initial-IsValid all in
    let bad = (elaborate-eq-none w.intdata n.packet n.last_update v).0 fails in
    omega (arith, this.0.1 bad.0, bad.1)
