-- ===== src/Sched/Remove.antt =====
-- `remove_node`, `unschedule` and `pop` of src/scheduler.c take a node out of the list.
use psw_afdx.Base.{
  ◌≡◌, refl, sym, ◌∙◌, true, false, none, some, [], ◌∷◌, ◌++◌, ◌==◌, ==_iff, arith, ap, Bool-cases,
  inl, inr,
}
use psw_afdx.Sched.Heap.{
  Ptr, null, Node, Memory, Sched, write, write_self, write_ne, load_lem, free,
}
use psw_afdx.Sched.{remove_node, unschedule, pop}
use psw_afdx.Sched.Relink.{chain_next_lem, chain_prev_lem}
use psw_afdx.Sched.Links.{
  Entry, node_of, Items, has, first_or, last_or, Chain, IsQueue, SameOutside, Chain-write,
  Chain-frame, Chain-append, Chain-split, Chain-load, not_null, is_null, ne_of_has, last_or-append,
  first_or-append, has-append_out, not_has-cons,
}
use psw_afdx.Sched.Order.{erase}

-- A node that is in a list lies between two parts of it.
record Within (p : Ptr) (xs : Items) : Type 0 where
  ys : Items
  zs : Items
  e : Entry
  whole : xs ≡ ys ++ ((p, e) ∷ zs)
  erased : erase p xs ≡ ys ++ zs

has-Within : (p : Ptr) (xs : Items) → has p xs ≡ true → Within p xs
unfolding erase
has-Within p [] i = cc
has-Within p ((q, f) ∷ xs) i = elim (Bool-cases (p == q)) [
  | inl here ↦ record { ys = []; zs = xs; e = f; whole = ground arith; erased = rw here }
  | inr there ↦
      let w = has-Within p xs (ground arith) in
      record {
        ys = (q, f) ∷ w.ys;
        zs = w.zs;
        e = w.e;
        whole = ap (λ r. (q, f) ∷ r) w.whole;
        erased = rw there (ap (λ r. (q, f) ∷ r) w.erased);
      }
]

self-not_has :
    (p : Ptr) (e : Entry) (ys zs : Items)
    → ((a : Ptr) → has a ys ≡ true → has a ((p, e) ∷ zs) ≡ false)
    → has p ys ≡ false
self-not_has p e ys zs apart = ground (arith, apart p)

remove_node_split :
    (s : Sched) (p : Ptr) (e : Entry) (ys zs : Items)
    → IsQueue s (ys ++ ((p, e) ∷ zs))
    → (t : Sched) × (remove_node p s ≡ some (tt, t))
      × IsQueue t (ys ++ zs)
      × SameOutside (ys ++ zs) s.memory t.memory
unfolding remove_node
remove_node_split s p e ys zs v =
    let (left, right, apart) = Chain-split s.memory null null ys ((p, e) ∷ zs) v.chain in
    let prev = last_or ys null in
    let next = first_or zs null in
    let n : Node = node_of e prev next in
    let out = self-not_has p e ys zs apart in
    let apart' : (a : Ptr) → has a ys ≡ true → has a zs ≡ false =
      λ a i. not_has-cons a p zs (apart a i) in
    let (t, et, first_t, last_t, left_t, same_t) =
      chain_next_lem s ys p next (v.first ∙ first_or-append ys ((p, e) ∷ zs) null) left in
    let at_t = same_t p out ∙ right.2 in
    let right_t =
      Chain-frame s.memory t.memory p null zs right.3
        (λ a i. same_t a (ground (arith, apart' a))) in
    let last : t.last ≡ last_or zs p = last_t ∙ v.last ∙ last_or-append ys ((p, e) ∷ zs) null in
    let (u, eu, last_u, first_u, right_u, same_u) = chain_prev_lem t zs p prev last right_t in
    let left_u = Chain-frame t.memory u.memory null next ys left_t (λ a i. same_u a (apart' a i)) in
    (
      u,
      rw (load_lem s p n right.0 right.2, et, load_lem t p n right.0 at_t) eu,
      record {
        first = first_u ∙ first_t ∙ sym (first_or-append ys zs null);
        last = last_u ∙ sym (last_or-append ys zs null);
        chain = Chain-append u.memory null null ys zs left_u right_u apart';
      },
      λ a o. let (oy, oz) = has-append_out a ys zs o in same_u a oz ∙ same_t a oy,
    )

-- `remove_node` on a node of the queue takes it out, and writes only to the other nodes.
pub remove_node_lem :
    (s : Sched) (p : Ptr) (xs : Items)
    → IsQueue s xs
    → has p xs ≡ true
    → (t : Sched) × (remove_node p s ≡ some (tt, t))
      × IsQueue t (erase p xs)
      × SameOutside (erase p xs) s.memory t.memory
remove_node_lem s p xs v i =
    let w = has-Within p xs i in rw w.erased (remove_node_split s p w.e w.ys w.zs (rw w.whole at v))

-- `pop` on an empty queue returns NULL and changes nothing.
pub pop-nil : (s : Sched) → IsQueue s [] → pop s ≡ some (null, s)
unfolding pop
pop-nil s v = rw (is_null s.first v.first)

-- `pop` returns the first node and takes it out; it writes only to the other nodes.
pub pop-cons :
    (s : Sched) (p : Ptr) (e : Entry) (xs : Items)
    → IsQueue s ((p, e) ∷ xs)
    → (t : Sched) × (pop s ≡ some (p, t)) × IsQueue t xs × SameOutside xs s.memory t.memory
unfolding pop
pop-cons s p e xs v =
    let n : Node = node_of e null (first_or xs null) in
    let s' : Sched = record s { first = first_or xs null } in
    let (t, et, last_t, first_t, chain_t, same_t) = chain_prev_lem s' xs p null v.last v.chain.3 in
    (
      t,
      rw (
        v.first,
        not_null p v.chain.0,
        load_lem (record s { first = p }) p n v.chain.0 v.chain.2,
        et,
      ),
      record { first = first_t; last = last_t; chain = chain_t },
      same_t,
    )

not_has-erase_self :
    (h : Memory) (before after p : Ptr) (xs : Items)
    → Chain h before after xs
    → has p (erase p xs) ≡ false
unfolding erase
not_has-erase_self h before after p [] c = refl
not_has-erase_self h before after p ((q, f) ∷ xs) c = elim (Bool-cases (p == q)) [
  | inl here ↦ rw (here, (==_iff p q).0 here) c.1
  | inr there ↦ rw (there, there) (not_has-erase_self h q after p xs c.3)
]

not_has-erase : (a p : Ptr) (xs : Items) → has a xs ≡ false → has a (erase p xs) ≡ false
unfolding erase
not_has-erase a p [] o = refl
not_has-erase a p ((q, f) ∷ xs) o = ground (arith, not_has-erase a p xs)

-- `unschedule` on a node of the queue takes it out and frees it, and writes only to the nodes of the
-- queue: the handler points at no node then.
pub unschedule_lem :
    (s : Sched) (p : Ptr) (xs : Items)
    → IsQueue s xs
    → has p xs ≡ true
    → (t : Sched) × (unschedule p s ≡ some (tt, t))
      × IsQueue t (erase p xs)
      × (t.memory p ≡ none)
      × ((a : Ptr) → has a xs ≡ false → t.memory a ≡ s.memory a)
unfolding unschedule free
unschedule_lem s p xs v i =
    let (t, et, is, same) = remove_node_lem s p xs v i in
    let (n, ne, at) = Chain-load s.memory null null xs p v.chain i in
    let out = not_has-erase_self s.memory null null p xs v.chain in
    (
      record t { memory = write t.memory p none },
      rw (et, load_lem t p n ne (same p out ∙ at)),
      record {
        first = is.first;
        last = is.last;
        chain = Chain-write t.memory p none null null (erase p xs) is.chain out;
      },
      write_self t.memory p none,
      λ a o. write_ne t.memory p a none (ne_of_has a p xs o i) ∙ same a (not_has-erase a p xs o),
    )
