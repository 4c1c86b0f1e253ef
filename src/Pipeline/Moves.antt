-- ===== src/Pipeline/Moves.antt =====
-- How the parts of the invariant change when the queue or a thread's position does.
use psw_afdx.Base.{
  ℕ, suc, ◌+◌, ◌-◌, ◌%◌, ◌<◌, ◌≤◌, ◌≡◌, refl, ◌∙◌, sym, ap, none, some, List, [], ◌∷◌, ◌++◌, map,
  arith, length, get_elem?, inl, inr, ◌==◌, Bool-cases, ◌≢◌,
}
use psw_afdx.IntData.{IntData}
use psw_afdx.Queue.{
  NqNode, Queue, IsValid, count, size_queue, sem_post, next_nqnode_in, next_nqnode_out,
  dispose_last_nqnode,
}
use psw_afdx.Queue.Window.{length-window, window}
use psw_afdx.Pipeline.{
  NetPc, reserving, receiving, signalling, ElabPc, idle, waiting, woken, holding, disposing,
  null_read, out_of_bounds, World, wake,
}
use psw_afdx.Pipeline.Stored.{reserved, stored}
use psw_afdx.Pipeline.Invariant.{active, uncounted, NetState, ElabState, Inv}

-- The received nodes of a world fall into those `intdata` shows and those the queue holds.
abbrev pub Holds : World → Type 0
Holds w = (past : List NqNode) × (pending : List NqNode) × Inv w past pending

pub length-snoc : (ns : List NqNode) (n : NqNode) → length (ns ++ (n ∷ [])) ≡ length ns + 1
length-snoc [] n = refl
length-snoc (m ∷ ns) n = ground (arith, length-snoc ns n)

pub length-map : (ns : List NqNode) → length (map some ns) ≡ length ns
length-map [] = refl
length-map (n ∷ ns) = ap suc (length-map ns)

pub map-snoc :
    (ns : List NqNode) (n : NqNode) → map some (ns ++ (n ∷ [])) ≡ map some ns ++ (some n ∷ [])
map-snoc [] n = refl
map-snoc (m ∷ ns) n = ap (λ x. some m ∷ x) (map-snoc ns n)

-- As many nodes are pending as the queue counts without the reserved one.
pub pending-count :
    (w : World) (past pending : List NqNode)
    → Inv w past pending
    → count w.queue - reserved w.net ≡ length pending
pending-count w past pending inv =
    sym (length-window w.queue.nodes w.queue.out_ptr (count w.queue - reserved w.net))
    ∙ ap length inv.held
    ∙ length-map pending

-- What the elaboration thread has stays so when a node comes in.
pub ElabState-snoc :
    (e : ElabPc) (o : ℕ) (d : IntData) (past pending : List NqNode) (n : NqNode)
    → ElabState e o d past pending
    → ElabState e o d past (pending ++ (n ∷ []))
ElabState-snoc idle o d past pending n s = s
ElabState-snoc waiting o d past pending n s = s
ElabState-snoc woken o d past pending n s = s
ElabState-snoc (holding i) o d past pending n s = s
ElabState-snoc disposing o d past pending n (m, rest, e, s) =
    (m, rest ++ (n ∷ []), ap (λ x. x ++ (n ∷ [])) e, s)
ElabState-snoc null_read o d past pending n s = s
ElabState-snoc out_of_bounds o d past pending n (m, rest, e, s, fails) =
    (m, rest ++ (n ∷ []), ap (λ x. x ++ (n ∷ [])) e, s, fails)

pub ElabState-wake :
    (e : ElabPc) (o : ℕ) (d : IntData) (past pending : List NqNode)
    → ElabState e o d past pending
    → ElabState (wake e) o d past pending
ElabState-wake idle o d past pending s = s
ElabState-wake waiting o d past pending s = s
ElabState-wake woken o d past pending s = s
ElabState-wake (holding i) o d past pending s = s
ElabState-wake disposing o d past pending s = s
ElabState-wake null_read o d past pending s = s
ElabState-wake out_of_bounds o d past pending s = s

pub active-wake : (e : ElabPc) → active (wake e) ≤ active e + 1
active-wake idle = ground arith
active-wake waiting = ground arith
active-wake woken = ground arith
active-wake (holding i) = ground arith
active-wake disposing = ground arith
active-wake null_read = ground arith
active-wake out_of_bounds = ground arith

pub uncounted-wake : (e : ElabPc) → uncounted (wake e) ≡ uncounted e
uncounted-wake idle = refl
uncounted-wake waiting = refl
uncounted-wake woken = refl
uncounted-wake (holding i) = refl
uncounted-wake disposing = refl
uncounted-wake null_read = refl
uncounted-wake out_of_bounds = refl

-- What the semaphore, the bounds and the oldest node are after `next_nqnode_in`.
pub in_lem :
    (q : Queue)
    → IsValid q
    → (u : ℕ) → count q ≤ q.nr_nodes + u
    → u ≤ 1
    → IsValid (next_nqnode_in q).1
      × ((next_nqnode_in q).1.out_ptr ≡ q.out_ptr)
      × (count (next_nqnode_in q).1 ≤ (next_nqnode_in q).1.nr_nodes + u)
      × ((next_nqnode_in q).0 ≡ none → (r : ℕ) → stored (next_nqnode_in q).1 r ≡ stored q r)
unfolding next_nqnode_in sem_post
in_lem q v u sem le = elim (Bool-cases ((q.in_ptr + 1) % size_queue == q.out_ptr)) [
  | inl is ↦ rw is (
    record { storage = v.storage; in_range = v.in_range; out_range = v.out_range },
    refl,
    ground arith,
    λ _ _. refl,
  )
  | inr room ↦
      let at : (q.in_ptr + 1) % size_queue ≢ q.out_ptr = ground arith in
      rw room (
        record { storage = v.storage; in_range = omega arith; out_range = v.out_range },
        refl,
        ground arith,
        λ e r. absurd cc,
      )
]

pub uncounted-le : (e : ElabPc) → uncounted e ≤ 1
uncounted-le idle = ground arith
uncounted-le waiting = ground arith
uncounted-le woken = ground arith
uncounted-le (holding i) = ground arith
uncounted-le disposing = ground arith
uncounted-le null_read = ground arith
uncounted-le out_of_bounds = ground arith

-- With a node in the queue and the semaphore up, `next_nqnode_out` returns the oldest node.
pub out_lem :
    (q : Queue)
    → IsValid q
    → 0 < count q
    → 0 < q.nr_nodes
    → next_nqnode_out q ≡ some (some q.out_ptr, record q { nr_nodes = q.nr_nodes - 1 })
unfolding next_nqnode_out
out_lem q v some_node up = ground arith

-- The oldest node is the first one pending.
pub head_lem :
    (q : Queue) (r : ℕ) (pending : List NqNode) (n : NqNode)
    → IsValid q
    → stored q r ≡ map some pending
    → 0 < count q - r
    → get_elem? q.nodes q.out_ptr ≡ some n
    → (rest : List NqNode) × (pending ≡ n ∷ rest)
head_lem q r [] n v held more at =
    absurd (omega (arith, length-window q.nodes q.out_ptr (count q - r), ap length held))
head_lem q r (m ∷ pending) n v held more at =
    let here : count q - r ≡ suc (count q - r - 1) = omega arith in
    let o : q.out_ptr % 100 ≡ q.out_ptr = omega arith in
    (pending, cc (rw (here, window, o) at held))

pub NetState-out :
    (q : Queue) (net : NetPc)
    → IsValid q
    → NetState net q
    → reserved net < count q
    → NetState net (record q { out_ptr = (q.out_ptr + 1) % size_queue })
NetState-out q reserving v s more = tt
NetState-out q (receiving i) v s more = (s.0, s.1, omega (arith, s.2))
NetState-out q signalling v s more = tt

pub NetState-sem :
    (q : Queue) (net : NetPc) (n : ℕ) → NetState net q → NetState net (record q { nr_nodes = n })
NetState-sem q reserving n s = tt
NetState-sem q (receiving i) n s = s
NetState-sem q signalling n s = tt

-- What stays so when the oldest node is disposed of.
pub dispose_kept :
    (q : Queue) (net : NetPc)
    → IsValid q
    → NetState net q
    → reserved net < count q
    → IsValid (dispose_last_nqnode q)
      × NetState net (dispose_last_nqnode q)
      × ((dispose_last_nqnode q).nr_nodes ≡ q.nr_nodes)
unfolding dispose_last_nqnode
dispose_kept q net v s more = elim (Bool-cases (q.out_ptr == q.in_ptr)) [
  | inl same ↦ absurd (ground arith)
  | inr other ↦ rw other (
    record { storage = v.storage; in_range = v.in_range; out_range = omega arith },
    NetState-out q net v s more,
    refl,
  )
]
