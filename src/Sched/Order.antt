-- ===== src/Sched/Order.antt =====
-- What src/scheduler.c promises of its queue: the tasks in the order of their times, and those of
-- one time in the order in which they came.
use mathlib.Core.List.{Perm}
use mathlib.Core.List.Perm
use psw_afdx.Base.{
  ◌≡◌, refl, true, false, Bool-cases, inl, inr, [], ◌∷◌, ◌++◌, ◌==◌, if◌then◌else◌, arith, All,
  length, suc, map,
}
use psw_afdx.Sched.Time.{Timespec, tm_ge}
use psw_afdx.Sched.Links.{Entry, Items}
use psw_afdx.Sched.Heap.{Ptr}

-- The new task goes behind every task that it is not earlier than.
unfoldable pub insert : Ptr × Entry → Items → Items
insert x [] = x ∷ []
insert (p, e) ((q, f) ∷ xs) =
    if tm_ge e.next_time f.next_time then (q, f) ∷ insert (p, e) xs else (p, e) ∷ (q, f) ∷ xs

pub insert-nil : (x : Ptr × Entry) → insert x [] ≡ x ∷ []
unfolding insert
insert-nil x = refl

module _ (p q : Ptr) (e f : Entry) (xs : Items) where
  pub insert-later :
      tm_ge e.next_time f.next_time ≡ true → insert (p, e) ((q, f) ∷ xs) ≡ (q, f) ∷ insert (p, e) xs
  unfolding insert
  insert-later h = rw h

  pub insert-sooner :
      tm_ge e.next_time f.next_time ≡ false → insert (p, e) ((q, f) ∷ xs) ≡ (p, e) ∷ (q, f) ∷ xs
  unfolding insert
  insert-sooner h = rw h

unfoldable pub erase : Ptr → Items → Items
erase p [] = []
erase p ((q, f) ∷ xs) = if p == q then xs else (q, f) ∷ erase p xs

-- Not earlier, and later, than a time.
abbrev pub NotBefore : Timespec → Ptr × Entry → Type 0
NotBefore t x = tm_ge x.1.next_time t ≡ true

abbrev pub NotAfter : Timespec → Ptr × Entry → Type 0
NotAfter t x = tm_ge t x.1.next_time ≡ true

abbrev pub After : Timespec → Ptr × Entry → Type 0
After t x = tm_ge t x.1.next_time ≡ false

abbrev pub IsSorted : Items → Type 0
IsSorted [] = Unit
IsSorted (x ∷ xs) = All (NotBefore x.1.next_time) xs × IsSorted xs

tm_ge_trans : (a b c : Timespec) → tm_ge a b ≡ true → tm_ge b c ≡ true → tm_ge a c ≡ true
unfolding tm_ge
tm_ge_trans a b c h k = ground arith

tm_ge_total : (a b : Timespec) → tm_ge a b ≡ false → tm_ge b a ≡ true
unfolding tm_ge
tm_ge_total a b h = ground arith

After-trans : (a b c : Timespec) → tm_ge a b ≡ false → tm_ge c b ≡ true → tm_ge a c ≡ false
unfolding tm_ge
After-trans a b c h k = ground arith

All-NotBefore_trans :
    (a b : Timespec) (xs : Items) → tm_ge b a ≡ true → All (NotBefore b) xs → All (NotBefore a) xs
All-NotBefore_trans a b [] h all = tt
All-NotBefore_trans a b (x ∷ xs) h all =
    (tm_ge_trans x.1.next_time b a all.0 h, All-NotBefore_trans a b xs h all.1)

pub All-After :
    (a b : Timespec) (xs : Items) → tm_ge a b ≡ false → All (NotBefore b) xs → All (After a) xs
All-After a b [] h all = tt
All-After a b (x ∷ xs) h all = (After-trans a b x.1.next_time h all.0, All-After a b xs h all.1)

-- A property of a task and of all in a queue holds of all in the queue with the task.
pub All-insert_lem :
    (P : Ptr × Entry → Type 0) (x : Ptr × Entry) (xs : Items) → P x → All P xs → All P (insert x xs)
unfolding insert
All-insert_lem P x [] h all = (h, tt)
All-insert_lem P (p, e) ((q, f) ∷ xs) h all = elim (Bool-cases (tm_ge e.next_time f.next_time)) [
  | inl later ↦ rw later (all.0, All-insert_lem P (p, e) xs h all.1)
  | inr sooner ↦ rw sooner (h, all)
]

-- An insertion keeps the order of the times.
pub insert-IsSorted : (x : Ptr × Entry) (xs : Items) → IsSorted xs → IsSorted (insert x xs)
unfolding insert
insert-IsSorted x [] s = (tt, tt)
insert-IsSorted (p, e) ((q, f) ∷ xs) s = elim (Bool-cases (tm_ge e.next_time f.next_time)) [
  | inl later ↦
      rw later
        (All-insert_lem (NotBefore f.next_time) (p, e) xs later s.0, insert-IsSorted (p, e) xs s.1)
  | inr sooner ↦
      let le = tm_ge_total e.next_time f.next_time sooner in
      rw sooner ((le, All-NotBefore_trans e.next_time f.next_time xs le s.0), s)
]

pub insert-perm : (x : Ptr × Entry) (xs : Items) → Perm (insert x xs) (x ∷ xs)
unfolding insert
insert-perm x [] = Perm.refl (x ∷ [])
insert-perm (p, e) ((q, f) ∷ xs) = elim (Bool-cases (tm_ge e.next_time f.next_time)) [
  | inl later ↦
      rw later (Perm.trans (Perm.cons (q, f) (insert-perm (p, e) xs)) (Perm.swap (p, e) (q, f) xs))
  | inr sooner ↦ rw sooner (Perm.refl ((p, e) ∷ (q, f) ∷ xs))
]

pub map-insert-perm :
    (g : Ptr × Entry → Ptr × Entry) (x : Ptr × Entry) (xs : Items)
    → Perm (map g (insert x xs)) (g x ∷ map g xs)
unfolding insert
map-insert-perm g x [] = Perm.refl (g x ∷ [])
map-insert-perm g (p, e) ((q, f) ∷ xs) = elim (Bool-cases (tm_ge e.next_time f.next_time)) [
  | inl later ↦ rw later (
      Perm.trans (Perm.cons (g (q, f)) (map-insert-perm g (p, e) xs))
        (Perm.swap (g (p, e)) (g (q, f)) (map g xs)))
  | inr sooner ↦ rw sooner (Perm.refl (g (p, e) ∷ g (q, f) ∷ map g xs))
]

pub length-insert : (x : Ptr × Entry) (xs : Items) → length (insert x xs) ≡ suc (length xs)
unfolding insert
length-insert x [] = refl
length-insert (p, e) ((q, f) ∷ xs) = ground (arith, length-insert (p, e) xs)

-- Where an insertion puts a task: behind the tasks that are not later, before the later ones.
pub record Placed (x : Ptr × Entry) (xs : Items) : Type 0 where
  pub ys : Items
  pub zs : Items
  pub whole : xs ≡ ys ++ zs
  pub result : insert x xs ≡ ys ++ (x ∷ zs)
  pub not_after : All (NotAfter x.1.next_time) ys
  pub after : All (After x.1.next_time) zs

pub insert-Placed : (x : Ptr × Entry) (xs : Items) → IsSorted xs → Placed x xs
unfolding insert
insert-Placed x [] s = record {
  ys = [];
  zs = [];
  whole = refl;
  result = refl;
  not_after = tt;
  after = tt;
}
insert-Placed (p, e) ((q, f) ∷ xs) s = elim (Bool-cases (tm_ge e.next_time f.next_time)) [
  | inl later ↦
      let r = insert-Placed (p, e) xs s.1 in
      record {
        ys = (q, f) ∷ r.ys;
        zs = r.zs;
        whole = cc r.whole;
        result = rw later (cc r.result);
        not_after = (later, r.not_after);
        after = r.after;
      }
  | inr sooner ↦ record {
    ys = [];
    zs = (q, f) ∷ xs;
    whole = refl;
    result = rw sooner;
    not_after = tt;
    after = (sooner, All-After e.next_time f.next_time xs sooner s.0);
  }
]
