-- ===== src/Sched/Args.antt =====
-- Which argument the task at an address has, in the queue of src/scheduler.c as a list.
use psw_afdx.Base.{
  ℕ, ◌≤◌, ◌≡◌, ◌≢◌, refl, true, false, Option, none, some, [], ◌∷◌, ◌==◌, ==_iff, if◌then◌else◌,
  arith, length, Bool-cases, inl, inr, All,
}
use psw_afdx.Sched.Heap.{Ptr, null, Node, Memory}
use psw_afdx.Sched.Links.{Entry, node_of, Items, first_or, has, Chain}
use psw_afdx.Sched.Order.{insert, erase, IsSorted, NotBefore}

abbrev pub arg_of : Items → Ptr → Option ℕ
arg_of [] h = none
arg_of ((p, e) ∷ xs) h = if h == p then some e.arg else arg_of xs h

pub arg_of-has : (xs : Items) (h : Ptr) (a : ℕ) → arg_of xs h ≡ some a → has h xs ≡ true
arg_of-has [] h a e = absurd cc
arg_of-has ((p, e) ∷ xs) h a is = ground (arith, arg_of-has xs h a)

pub arg_of-not_has : (xs : Items) (h : Ptr) → has h xs ≡ false → arg_of xs h ≡ none
arg_of-not_has [] h out = refl
arg_of-not_has ((p, e) ∷ xs) h out = ground (arith, arg_of-not_has xs h)

-- The node of a task holds its argument.
pub arg_of-load :
    (memory : Memory) (before after : Ptr) (xs : Items) (h : Ptr) (a : ℕ)
    → Chain memory before after xs
    → arg_of xs h ≡ some a
    → (n : Node) × (h ≢ null) × (memory h ≡ some n) × (n.arg ≡ a)
arg_of-load memory before after [] h a c e = absurd cc
arg_of-load memory before after ((p, x) ∷ xs) h a c e = elim (Bool-cases (h == p)) [
  | inl here ↦
      let same : h ≡ p = (==_iff h p).0 here in
      (node_of x before (first_or xs after), rw same c.0, rw same c.2, ground arith)
  | inr there ↦ arg_of-load memory p after xs h a c.3 (rw there at e)
]

pub arg_of-insert :
    (p h : Ptr) (e : Entry) (xs : Items)
    → has p xs ≡ false
    → arg_of (insert (p, e) xs) h ≡ (if h == p then some e.arg else arg_of xs h)
unfolding insert
arg_of-insert p h e [] out = refl
arg_of-insert p h e ((q, f) ∷ xs) out = ground (arith, arg_of-insert p h e xs (ground arith))

pub arg_of-erase :
    (memory : Memory) (before after : Ptr) (p h : Ptr) (xs : Items)
    → Chain memory before after xs
    → arg_of (erase p xs) h ≡ (if h == p then none else arg_of xs h)
unfolding erase
arg_of-erase memory before after p h [] c = ground arith
arg_of-erase memory before after p h ((q, f) ∷ xs) c = elim (Bool-cases (p == q)) [
  | inl here ↦
      let same : p ≡ q = (==_iff p q).0 here in rw here (ground (arith, arg_of-not_has xs q c.1))
  | inr there ↦ rw there (ground (arith, arg_of-erase memory q after p h xs c.3))
]

All-erase : (P : Ptr × Entry → Type 0) (p : Ptr) (xs : Items) → All P xs → All P (erase p xs)
unfolding erase
All-erase P p [] all = tt
All-erase P p ((q, f) ∷ xs) all = elim (Bool-cases (p == q)) [
  | inl here ↦ rw here all.1
  | inr there ↦ rw there (all.0, All-erase P p xs all.1)
]

pub erase-IsSorted : (p : Ptr) (xs : Items) → IsSorted xs → IsSorted (erase p xs)
unfolding erase
erase-IsSorted p [] s = tt
erase-IsSorted p ((q, f) ∷ xs) s = elim (Bool-cases (p == q)) [
  | inl here ↦ rw here s.1
  | inr there ↦ rw there (All-erase (NotBefore f.next_time) p xs s.0, erase-IsSorted p xs s.1)
]

pub length-erase : (p : Ptr) (xs : Items) → length (erase p xs) ≤ length xs
unfolding erase
length-erase p [] = omega arith
length-erase p ((q, f) ∷ xs) = ground (arith, length-erase p xs)
