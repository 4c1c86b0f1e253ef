-- ===== src/Pipeline/Stored.antt =====
-- The nodes that hold a packet: those of the queue less the one that the network thread has reserved
-- and not yet filled.
use mathlib.Core.List.{tail}
use psw_afdx.Base.{
  ℕ, suc, ◌+◌, ◌-◌, ◌%◌, ◌<◌, ◌≡◌, ◌≢◌, ap, some, Option, List, [], ◌∷◌, ◌++◌, arith, set,
  get_elem?-set, Bool-cases, inl, inr, ◌==◌,
}
use psw_afdx.Queue.{
  NqNode, Queue, IsValid, count, size_queue, next_nqnode_in, dispose_last_nqnode, fill,
}
use psw_afdx.Queue.Window.{window, window-congr, window-snoc, window-set}
use psw_afdx.Pipeline.{NetPc, receiving}

abbrev pub reserved : NetPc → ℕ
reserved (receiving i) = 1
reserved _ = 0

abbrev pub stored : Queue → ℕ → List (Option NqNode)
stored q r = window q.nodes q.out_ptr (count q - r)

-- The reserved node is the last one of the queue.
abbrev pub IsLast : ℕ → Queue → Type 0
IsLast i q = (i < size_queue) × ((i + 1) % size_queue ≡ q.in_ptr) × (0 < count q)

pub reserve_lem :
    (q : Queue) (i : ℕ)
    → IsValid q
    → (next_nqnode_in q).0 ≡ some i
    → (count (next_nqnode_in q).1 ≡ count q + 1)
      × IsLast i (next_nqnode_in q).1
      × (stored (next_nqnode_in q).1 1 ≡ stored q 0)
unfolding next_nqnode_in
reserve_lem q i v e = elim (Bool-cases ((q.in_ptr + 1) % size_queue == q.out_ptr)) [
  | inl full ↦ ground arith
  | inr room ↦
      let at : q.in_ptr ≡ i = ground arith in
      let nptr = (q.in_ptr + 1) % size_queue in
      let ne : nptr ≢ q.out_ptr = ground arith in
      let more : (nptr + size_queue - q.out_ptr) % size_queue ≡ count q + 1 = omega arith in
      rw (← at, room) (more, omega arith, ap (window q.nodes q.out_ptr) (omega arith))
]

pub fill_lem :
    (q : Queue) (i : ℕ) (n : NqNode)
    → IsValid q
    → IsLast i q
    → stored (fill q i n) 0 ≡ stored q 1 ++ (some n ∷ [])
fill_lem q i n v last =
    let k = count q - 1 in
    let o = q.out_ptr in
    let at : (o + k) % size_queue ≡ i = omega arith in
    let at' : (o + k + 0) % size_queue ≡ i = omega arith in
    let grown : count q - 0 ≡ suc k = omega arith in
    let same : window (set q.nodes i n) o k ≡ window q.nodes o k =
      rw at' at (window-set q.nodes n 0 k o v.storage (omega arith)) in
    let written = get_elem?-set q.nodes i i n (omega arith) in
    ground (arith, grown, window-snoc (set q.nodes i n) k o, same, at, written)

pub dispose_lem :
    (q : Queue) (r : ℕ)
    → IsValid q
    → r < count q
    → (count (dispose_last_nqnode q) ≡ count q - 1)
      × (stored (dispose_last_nqnode q) r ≡ tail (stored q r))
unfolding dispose_last_nqnode
dispose_lem q r v more = elim (Bool-cases (q.out_ptr == q.in_ptr)) [
  | inl same ↦ ground arith
  | inr other ↦
      let ne : q.out_ptr ≢ q.in_ptr = ground arith in
      let o' = (q.out_ptr + 1) % size_queue in
      let k = count q - r - 1 in
      let less : (q.in_ptr + size_queue - o') % size_queue ≡ count q - 1 = omega arith in
      let here : count q - r ≡ suc k = omega arith in
      let there : (q.in_ptr + size_queue - o') % size_queue - r ≡ k = omega arith in
      rw (other, here, there) (less, window-congr q.nodes k o' (q.out_ptr + 1) (omega arith))
]
