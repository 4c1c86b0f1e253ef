-- ===== src/Sched/Links.antt =====
-- The doubly linked list of src/scheduler.c as a list of its entries.
use psw_afdx.Base.{
  ℕ, ◌≡◌, ◌≢◌, refl, ◌∙◌, Bool, true, false, ◌||◌, Option, none, some, List, [], ◌∷◌, ◌++◌, ◌==◌,
  ==_iff, arith, ap, Bool-cases, inl, inr,
}
use psw_afdx.Sched.Time.{Timespec}
use psw_afdx.Sched.Heap.{Ptr, null, Node, Memory, Sched, write, write_ne}

-- A node less its links.
pub record Entry : Type 0 where
  pub interval : Timespec
  pub next_time : Timespec
  pub action : ℕ
  pub arg : ℕ

abbrev pub node_of : Entry → Ptr → Ptr → Node
node_of e p q = record {
  interval = e.interval;
  next_time = e.next_time;
  action = e.action;
  arg = e.arg;
  prev = p;
  next = q;
}

-- The addresses and entries of a list, in order.
abbrev pub Items : Type 0
Items = List (Ptr × Entry)

abbrev pub has : Ptr → Items → Bool
has a [] = false
has a ((p, _) ∷ xs) = (a == p) || has a xs

abbrev pub first_or : Items → Ptr → Ptr
first_or [] d = d
first_or ((p, _) ∷ xs) d = p

abbrev pub last_or : Items → Ptr → Ptr
last_or [] d = d
last_or ((p, _) ∷ xs) d = last_or xs p

-- In the memory, the nodes of `xs` lie between a node `before` and a node `after`, at distinct
-- addresses, and each points at its two neighbours.
abbrev pub Chain : Memory → Ptr → Ptr → Items → Type 0
Chain h before after [] = Unit
Chain h before after ((p, e) ∷ xs) =
    (p ≢ null)
    × (has p xs ≡ false)
    × (h p ≡ some (node_of e before (first_or xs after)))
    × Chain h p after xs

-- The list that starts at `first` and ends at `last` holds the entries `xs`.
pub record IsQueue (s : Sched) (xs : Items) : Type 0 where
  pub first : s.first ≡ first_or xs null
  pub last : s.last ≡ last_or xs null
  pub chain : Chain s.memory null null xs

-- Nothing but the nodes of `xs` changes.
abbrev pub SameOutside : Items → Memory → Memory → Type 0
SameOutside xs h g = (a : Ptr) → has a xs ≡ false → g a ≡ h a

pub has-append : (a : Ptr) (xs ys : Items) → has a (xs ++ ys) ≡ (has a xs || has a ys)
has-append a [] ys = refl
has-append a (x ∷ xs) ys = ground (arith, has-append a xs ys)

pub has-append_out :
    (a : Ptr) (xs ys : Items) → has a (xs ++ ys) ≡ false → (has a xs ≡ false) × (has a ys ≡ false)
has-append_out a xs ys h = ground (arith, has-append a xs ys)

pub apart_sym :
    (ys zs : Items)
    → ((a : Ptr) → has a ys ≡ true → has a zs ≡ false)
    → (a : Ptr) → has a zs ≡ true
    → has a ys ≡ false
apart_sym ys zs apart a i = ground (arith, apart a)

pub not_has-cons : (a p : Ptr) (xs : Items) → ((a == p) || has a xs) ≡ false → has a xs ≡ false
not_has-cons a p xs o = ground arith

pub ne_of_not_has : (a p : Ptr) (xs : Items) → ((a == p) || has a xs) ≡ false → a ≢ p
ne_of_not_has a p xs o = ground arith

has-cons_apart :
    (a p : Ptr) (xs ys : Items)
    → has p ys ≡ false
    → (has a xs ≡ true → has a ys ≡ false)
    → ((a == p) || has a xs) ≡ true
    → has a ys ≡ false
has-cons_apart a p xs ys out apart i = ground arith

has-cons : (a p : Ptr) (xs : Items) → has a xs ≡ true → ((a == p) || has a xs) ≡ true
has-cons a p xs i = ground arith

pub ne_of_has : (p q : Ptr) (xs : Items) → has p xs ≡ false → has q xs ≡ true → p ≢ q
ne_of_has p q xs out i e = cc (ap (λ a. has a xs) e)

pub not_null : (p : Ptr) → p ≢ null → (p == null) ≡ false
not_null p ne = ground arith

pub is_null : (p : Ptr) → p ≡ null → (p == null) ≡ true
is_null p e = ground arith

pub first_or-append :
    (xs ys : Items) (d : Ptr) → first_or (xs ++ ys) d ≡ first_or xs (first_or ys d)
first_or-append [] ys d = refl
first_or-append (x ∷ xs) ys d = refl

pub last_or-append : (xs ys : Items) (d : Ptr) → last_or (xs ++ ys) d ≡ last_or ys (last_or xs d)
last_or-append [] ys d = refl
last_or-append ((p, _) ∷ xs) ys d = last_or-append xs ys p

module _ (h : Memory) where
  pub Chain-frame :
      (g : Memory) (before after : Ptr) (xs : Items)
      → Chain h before after xs
      → ((a : Ptr) → has a xs ≡ true → g a ≡ h a)
      → Chain g before after xs
  Chain-frame g before after [] c same = tt
  Chain-frame g before after ((p, e) ∷ xs) c same = (
    c.0,
    c.1,
    same p (ground arith) ∙ c.2,
    Chain-frame g p after xs c.3 (λ a i. same a (ground arith)),
  )

  pub Chain-write :
      (p : Ptr) (n : Option Node) (before after : Ptr) (xs : Items)
      → Chain h before after xs
      → has p xs ≡ false
      → Chain (write h p n) before after xs
  unfolding write
  Chain-write p n before after xs c out =
      Chain-frame (write h p n) before after xs c (λ a i. ground arith)

  pub Chain-append :
      (before after : Ptr) (xs ys : Items)
      → Chain h before (first_or ys after) xs
      → Chain h (last_or xs before) after ys
      → ((a : Ptr) → has a xs ≡ true → has a ys ≡ false)
      → Chain h before after (xs ++ ys)
  Chain-append before after [] ys c d apart = d
  Chain-append before after ((p, e) ∷ xs) ys c d apart = (
    c.0,
    ground (arith, has-append p xs ys, apart p),
    rw (first_or-append xs ys after) c.2,
    Chain-append p after xs ys c.3 d (λ a i. apart a (ground arith)),
  )

  pub Chain-split :
      (before after : Ptr) (xs ys : Items)
      → Chain h before after (xs ++ ys)
      → Chain h before (first_or ys after) xs
        × Chain h (last_or xs before) after ys
        × ((a : Ptr) → has a xs ≡ true → has a ys ≡ false)
  Chain-split before after [] ys c = (tt, c, λ a i. cc)
  Chain-split before after ((p, e) ∷ xs) ys c =
      let (left, right, apart) = Chain-split p after xs ys c.3 in
      let head = rw (first_or-append xs ys after) at c.2 in
      let (out, out') = has-append_out p xs ys c.1 in
      ((c.0, out, head, left), right, λ a i. has-cons_apart a p xs ys out' (apart a) i)

  -- A node of a chain is in the memory.
  pub Chain-load :
      (before after : Ptr) (xs : Items) (p : Ptr)
      → Chain h before after xs
      → has p xs ≡ true
      → (n : Node) × (p ≢ null) × (h p ≡ some n)
  Chain-load before after [] p c i = cc
  Chain-load before after ((q, f) ∷ xs) p c i = elim (Bool-cases (p == q)) [
    | inl here ↦
        let e : p ≡ q = (==_iff p q).0 here in
        (node_of f before (first_or xs after), rw e c.0, rw e c.2)
    | inr there ↦ Chain-load q after xs p c.3 (rw there at i)
  ]

  pub not_has_of_none :
      (before after : Ptr) (xs : Items) (p : Ptr)
      → Chain h before after xs
      → h p ≡ none
      → has p xs ≡ false
  not_has_of_none before after xs p c unused = elim (Bool-cases (has p xs)) [
    | inl i ↦ let (n, ne, at) = Chain-load before after xs p c i in cc
    | inr o ↦ o
  ]

  -- The last node of a chain can be made to point elsewhere.
  pub Chain-relink :
      (before after q : Ptr) (x : Ptr × Entry) (xs : Items)
      → Chain h before after (x ∷ xs)
      → let p = last_or (x ∷ xs) before in
        (n : Node) × (p ≢ null)
        × (h p ≡ some n)
        × (has p (x ∷ xs) ≡ true)
        × Chain (write h p (some (record n { next = q }))) before q (x ∷ xs)
  unfolding write
  Chain-relink before after q (p, e) [] c =
      (node_of e before after, c.0, c.2, ground arith, (c.0, refl, ground arith, tt))
  Chain-relink before after q (p, e) (y ∷ ys) c =
      let (n, ne, at, i, d) = Chain-relink p after q y ys c.3 in
      let l = last_or (y ∷ ys) p in
      let other = ne_of_has p l (y ∷ ys) c.1 i in
      (n, ne, at, has-cons l p (y ∷ ys) i, (c.0, c.1, write_ne h l p _ other ∙ c.2, d))
