-- ===== src/Sched/Insert.antt =====
-- `insert_node` of src/scheduler.c puts a node where the specification says.
use mathlib.Core.List.{append_assoc}
use psw_afdx.Base.{
  ℕ, zero, suc, ◌<◌, ◌≡◌, ◌≢◌, refl, sym, ◌∙◌, false, some, [], ◌∷◌, ◌++◌, arith, ap, length,
  Bool-cases, inl, inr,
}
use psw_afdx.Sched.Time.{tm_ge}
use psw_afdx.Sched.Heap.{Ptr, null, Sched, load_lem}
use psw_afdx.Sched.{insert_loop, insert_node}
use psw_afdx.Sched.Links.{
  Entry, node_of, Items, has, first_or, last_or, IsQueue, SameOutside, Chain-append, not_null,
  last_or-append, first_or-append, has-append,
}
use psw_afdx.Sched.Order.{insert, insert-nil, insert-later, insert-sooner}
use psw_afdx.Sched.Place.{Split, Inserted, apart-snoc, link_before_lem, link_last_lem}

module _ (s : Sched) (p : Ptr) (e : Entry) where
  Split-advance :
      (ys zs : Items) (q : Ptr) (f : Entry)
      → Split s p e ys ((q, f) ∷ zs)
      → Split s p e (ys ++ ((q, f) ∷ [])) zs
  Split-advance ys zs q f v =
      let x : Items = (q, f) ∷ [] in
      let end = last_or-append ys x null in
      record {
        first = v.first ∙ sym (first_or-append ys x (first_or zs null));
        last = rw end v.last;
        left =
            Chain-append s.memory null (first_or zs null) ys x v.left
              (v.right.0, refl, v.right.2, tt) (λ a i. ground (arith, v.apart a i));
        right = rw end v.right.3;
        apart = λ a i. apart-snoc a q f ys zs (v.apart a) v.right.1 i;
        ne_null = v.ne_null;
        before = v.before;
        after = v.after;
        at = v.at;
        not_left = ground (arith, has-append p ys x, v.not_left, v.not_right);
        not_right = ground (arith, v.not_right);
      }

  insert_loop_lem :
      (k : ℕ) (ys zs : Items)
      → Split s p e ys zs
      → length zs < k
      → Inserted s p e ys zs
          (insert (p, e) zs)
          (insert_loop k e.next_time p (last_or ys null) (first_or zs null) s)
  unfolding insert_loop
  insert_loop_lem zero ys zs v fuel = absurd (omega arith)
  insert_loop_lem (suc k) ys [] v fuel = rw insert-nil (link_last_lem s p e ys v)
  insert_loop_lem (suc k) ys ((q, f) ∷ zs) v fuel =
      rw (not_null q v.right.0, load_lem s q _ v.right.0 v.right.2)
        (elim (Bool-cases (tm_ge e.next_time f.next_time)) [
          | inl later ↦
              let x : Items = (q, f) ∷ [] in
              let (t, et, is, same) =
                insert_loop_lem k (ys ++ x) zs (Split-advance ys zs q f v) (omega arith) in
              rw (later, insert-later p q e f zs later)
                (
                  t,
                  rw (last_or-append ys x null) at et,
                  rw (append_assoc ys x (insert (p, e) zs)) at is,
                  λ a o. same a (rw (append_assoc ys x zs) o),
                )
          | inr sooner ↦
              rw (sooner, insert-sooner p q e f zs sooner) (link_before_lem s p e ys zs q f v)
        ])

-- Given more rounds than there are nodes, `insert_node` on a node outside of the queue ends, with
-- the queue of the specification, and writes only to the nodes of the queue and the new one.
pub insert_node_lem :
    (fuel : ℕ) (s : Sched) (xs : Items) (p : Ptr) (e : Entry) (before after : Ptr)
    → IsQueue s xs
    → p ≢ null
    → s.memory p ≡ some (node_of e before after)
    → has p xs ≡ false
    → length xs < fuel
    → (t : Sched) × (insert_node fuel p s ≡ some (tt, t))
      × IsQueue t (insert (p, e) xs)
      × SameOutside ((p, e) ∷ xs) s.memory t.memory
unfolding insert_node
insert_node_lem fuel s xs p e before after v ne at out enough =
    let split : Split s p e [] xs = record {
      first = v.first;
      last = v.last;
      left = tt;
      right = v.chain;
      apart = λ a i. cc;
      ne_null = ne;
      before = before;
      after = after;
      at = at;
      not_left = refl;
      not_right = out;
    } in
    let (t, et, is, same) = insert_loop_lem s p e fuel [] xs split enough in
    (
      t,
      rw (load_lem s p (node_of e before after) ne at)
          (ap (λ a. insert_loop fuel e.next_time p null a s) v.first ∙ et),
      is,
      same,
    )
