-- ===== src/Queue/Fifo.antt =====
-- The circular queue of src/queue.c as a first-in first-out queue.
use psw_afdx.Base.{
  ℕ, suc, ◌+◌, ◌-◌, ◌%◌, ◌<◌, ◌≡◌, refl, ◌≢◌, ◌↔◌, OnSome, List, [], ◌∷◌, ◌++◌, arith, length,
  get_elem?, Option, none, some, set, get_elem?-set, length-set, Bool-cases, inl, inr, ◌==◌, ==_iff,
}
use mathlib.Core.Option
use mathlib.Core.List.{head?}
use psw_afdx.Queue.{
  NqNode, Queue, IsValid, count, size_queue, next_nqnode_in, next_nqnode_out, dispose_last_nqnode,
  fill,
}
use psw_afdx.Queue.Window.{window, window-snoc, window-set}

-- The nodes in the queue, oldest first.
abbrev pub contents : Queue → List (Option NqNode)
contents q = window q.nodes q.out_ptr (count q)

pub next_nqnode_in-IsValid : (q : Queue) → IsValid q → IsValid (next_nqnode_in q).1
unfolding next_nqnode_in
next_nqnode_in-IsValid q v = ground arith

pub dispose_last_nqnode-IsValid : (q : Queue) → IsValid q → IsValid (dispose_last_nqnode q)
unfolding dispose_last_nqnode
dispose_last_nqnode-IsValid q v = ground arith

pub fill-IsValid : (q : Queue) (i : ℕ) (n : NqNode) → IsValid q → IsValid (fill q i n)
fill-IsValid q i n v = ground (arith, length-set q.nodes i n)

-- `next_nqnode_in` finds the queue full exactly if it holds 99 nodes, one less than `SIZE_QUEUE`.
pub next_nqnode_in_full : (q : Queue) → IsValid q → ((next_nqnode_in q).0 ≡ none) ↔ (count q ≡ 99)
unfolding next_nqnode_in
next_nqnode_in_full q v = (λ e. ground arith, λ e. ground arith)

-- The same on the indices alone: a write at `i` and a step of `i`.
window-step :
    (xs : List NqNode) (i o : ℕ) (n : NqNode)
    → length xs ≡ size_queue
    → i < size_queue
    → o < size_queue
    → (i + 1) % size_queue ≢ o
    → window (set xs i n) o (((i + 1) % size_queue + size_queue - o) % size_queue)
      ≡ window xs o ((i + size_queue - o) % size_queue) ++ (some n ∷ [])
window-step xs i o n e hi ho ne =
    let k = (i + size_queue - o) % size_queue in
    let at : (o + k) % size_queue ≡ i = omega arith in
    let at' : (o + k + 0) % size_queue ≡ i = omega arith in
    let grown : ((i + 1) % size_queue + size_queue - o) % size_queue ≡ suc k = omega arith in
    let same : window (set xs i n) o k ≡ window xs o k =
      rw at' at (window-set xs n 0 k o e (omega arith)) in
    ground
      (arith, grown, window-snoc (set xs i n) k o, same, at, get_elem?-set xs i i n (omega arith))

-- When `next_nqnode_in` returns a node and the caller has stored a packet there, the queue holds the
-- nodes that it held, in their order, and then the new one.
pub next_nqnode_in-fill :
    (q : Queue) (i : ℕ) (n : NqNode)
    → IsValid q
    → (next_nqnode_in q).0 ≡ some i
    → contents (fill (next_nqnode_in q).1 i n) ≡ contents q ++ (some n ∷ [])
unfolding next_nqnode_in
next_nqnode_in-fill q i n v e = elim (Bool-cases ((q.in_ptr + 1) % size_queue == q.out_ptr)) [
  | inl full ↦ ground arith
  | inr room ↦
      let same : q.in_ptr ≡ i = ground arith in
      rw (← same, room)
        (window-step q.nodes q.in_ptr q.out_ptr n v.storage v.in_range v.out_range (ground arith))
]

head-contents-empty : (q : Queue) → IsValid q → q.out_ptr ≡ q.in_ptr → head? (contents q) ≡ none
head-contents-empty q v e = let none_left : count q ≡ 0 = omega arith in rw none_left

head-contents :
    (q : Queue)
    → IsValid q
    → q.out_ptr ≢ q.in_ptr
    → head? (contents q) ≡ some (get_elem? q.nodes q.out_ptr)
head-contents q v ne =
    let n = count q - 1 in
    let more : count q ≡ suc n = omega arith in
    let at : q.out_ptr % size_queue ≡ q.out_ptr = omega arith in rw (more, at)

-- `next_nqnode_out` leaves the nodes in the queue, and what it returns is the oldest of them, or NULL
-- if there is none; it blocks exactly while the semaphore is 0.
pub next_nqnode_out-head :
    (q : Queue)
    → IsValid q
    → ((next_nqnode_out q ≡ none) ↔ (q.nr_nodes ≡ 0))
      × OnSome
          (λ (r : Option ℕ × Queue).
            (contents r.1 ≡ contents q) × (head? (contents q) ≡ Option.map (get_elem? q.nodes) r.0))
          (next_nqnode_out q)
unfolding next_nqnode_out
next_nqnode_out-head q v = (
  (λ h. ground arith, λ h. ground arith),
  elim (Bool-cases (q.nr_nodes == 0)) [
    | inl blocked ↦ rw blocked tt
    | inr posted ↦ elim (Bool-cases (q.out_ptr == q.in_ptr)) [
      | inl same ↦
          rw (posted, same) (refl, head-contents-empty q v ((==_iff q.out_ptr q.in_ptr).0 same))
      | inr more ↦ rw (posted, more) (refl, head-contents q v (ground arith))
    ]
  ],
)
