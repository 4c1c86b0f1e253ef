-- ===== src/Sched/Place.antt =====
-- The two ways in which `insert_node` of src/scheduler.c links a node: before another one, and at the
-- end.
use psw_afdx.Base.{
  ◌≡◌, ◌≢◌, refl, sym, ◌∙◌, true, false, ◌||◌, Option, some, [], ◌∷◌, ◌++◌, ◌==◌, arith, ap,
}
use psw_afdx.Sched.Heap.{
  Ptr, null, Node, Sched, write, write_self, write_ne, modify_lem, set_prev, set_next, Cmd, ◌>>◌,
  then_lem,
}
use psw_afdx.Sched.{chain_next, chain_prev, link_before, link_last}
use psw_afdx.Sched.Relink.{chain_next_lem, chain_prev_lem}
use psw_afdx.Sched.Links.{
  Entry, node_of, Items, has, first_or, last_or, Chain, IsQueue, SameOutside, Chain-write,
  Chain-frame, Chain-append, Chain-relink, not_null, is_null, ne_of_has, last_or-append,
  first_or-append, has-append, apart_sym,
}

-- A list that the loop of `insert_node` has split in two, and a node outside of it.
pub record Split (s : Sched) (p : Ptr) (e : Entry) (ys zs : Items) : Type 0 where
  pub first : s.first ≡ first_or ys (first_or zs null)
  pub last : s.last ≡ last_or zs (last_or ys null)
  pub left : Chain s.memory null (first_or zs null) ys
  pub right : Chain s.memory (last_or ys null) null zs
  pub apart : (a : Ptr) → has a ys ≡ true → has a zs ≡ false
  pub ne_null : p ≢ null
  pub before : Ptr
  pub after : Ptr
  pub at : s.memory p ≡ some (node_of e before after)
  pub not_left : has p ys ≡ false
  pub not_right : has p zs ≡ false

-- A run that ends with the queue `ys ++ out`, and writes only to the nodes of the two lists and of
-- the new entry.
abbrev pub Inserted :
    Sched → Ptr → Entry → Items → Items → Items → Option (Unit {0} × Sched) → Type 0
Inserted s p e ys zs out r =
    (t : Sched) × (r ≡ some (tt, t))
    × IsQueue t (ys ++ out)
    × SameOutside ((p, e) ∷ (ys ++ zs)) s.memory t.memory

-- A node between two lists makes one list of them.
splice :
    (u : Sched) (p : Ptr) (e : Entry) (ys zs : Items)
    → u.first ≡ first_or ys p
    → u.last ≡ last_or zs p
    → Chain u.memory null p ys
    → Chain u.memory (last_or ys null) null ((p, e) ∷ zs)
    → has p ys ≡ false
    → ((a : Ptr) → has a ys ≡ true → has a zs ≡ false)
    → IsQueue u (ys ++ ((p, e) ∷ zs))
splice u p e ys zs first last left right out apart = record {
  first = first ∙ sym (first_or-append ys ((p, e) ∷ zs) null);
  last = last ∙ sym (last_or-append ys ((p, e) ∷ zs) null);
  chain =
      Chain-append u.memory null null ys ((p, e) ∷ zs) left right (λ a i. not_in a i (apart a i));
}
  where
    not_in : (a : Ptr) → has a ys ≡ true → has a zs ≡ false → ((a == p) || has a zs) ≡ false
    not_in a i o = let ne = ne_of_has p a ys out i in ground arith

pub apart-snoc :
    (a q : Ptr) (f : Entry) (ys zs : Items)
    → (has a ys ≡ true → ((a == q) || has a zs) ≡ false)
    → has q zs ≡ false
    → has a (ys ++ ((q, f) ∷ [])) ≡ true
    → has a zs ≡ false
apart-snoc a q f ys zs apart out i = ground (arith, has-append a ys ((q, f) ∷ []))

-- What lies outside of a list and a node lies outside of each of the three.
outside :
    (a p : Ptr) (e : Entry) (ys zs : Items)
    → has a ((p, e) ∷ (ys ++ zs)) ≡ false
    → (a ≢ p) × (has a ys ≡ false) × (has a zs ≡ false)
outside a p e ys zs o =
    (ground arith, ground (arith, has-append a ys zs), ground (arith, has-append a ys zs))

-- Two writes to one node.
record Rewritten (s : Sched) (p : Ptr) (n : Node) (t : Sched) : Type 0 where
  first : t.first ≡ s.first
  last : t.last ≡ s.last
  at : t.memory p ≡ some n
  same : (a : Ptr) → a ≢ p → t.memory a ≡ s.memory a

module _ (s : Sched) (p : Ptr) (e : Entry) (b a : Ptr) where
  set_links_lem :
      (b' a' : Ptr)
      → p ≢ null
      → s.memory p ≡ some (node_of e b a)
      → (t : Sched) × ((k : Cmd (Unit {0})) → (set_prev p b' >> (set_next p a' >> k)) s ≡ k t)
        × Rewritten s p (node_of e b' a') t
  set_links_lem b' a' ne at =
      let m = write s.memory p (some (node_of e b' a)) in
      let mid = record s { memory = m } in
      (
        record s { memory = write m p (some (node_of e b' a')) },
        λ k.
            then_lem (set_prev p b') (set_next p a' >> k) s mid
              (modify_lem s p (node_of e b a) _ ne at)
            ∙ then_lem (set_next p a') k mid _
                (modify_lem mid p (node_of e b' a) _ ne (write_self _ p _)),
        record {
          first = refl;
          last = refl;
          at = write_self m p _;
          same = λ c o. write_ne m p c _ o ∙ write_ne s.memory p c _ o;
        },
      )

module _ (s : Sched) (p : Ptr) (e : Entry) (ys zs : Items) (q : Ptr) (f : Entry) where
  pub link_before_lem :
      Split s p e ys ((q, f) ∷ zs)
      → Inserted s p e ys ((q, f) ∷ zs) ((p, e) ∷ (q, f) ∷ zs) (link_before p (last_or ys null) q s)
  unfolding link_before chain_prev
  link_before_lem v =
      let prev = last_or ys null in
      let right = (q, f) ∷ zs in
      let (t, et, r) = set_links_lem s p e v.before v.after prev q v.ne_null v.at in
      let right_t =
        Chain-frame s.memory t.memory prev null right v.right
          (λ a i. r.same a (λ h. ne_of_has p a right v.not_right i (sym h))) in
      let (u, eu, last, first, right_u, same_u) =
        chain_prev_lem t right prev p (r.last ∙ v.last) right_t in
      let left_u =
        Chain-frame s.memory u.memory null q ys v.left
          (λ a i. same_u a (v.apart a i) ∙ r.same a (λ h. ne_of_has p a ys v.not_left i (sym h))) in
      let (w, ew, first_w, last_w, left_w, same_w) =
        chain_next_lem u ys q p (first ∙ r.first ∙ v.first) left_u in
      let at_w = same_w p v.not_left ∙ same_u p v.not_right ∙ r.at in
      let right_w =
        Chain-frame u.memory w.memory p null right right_u
          (λ a i. same_w a (apart_sym ys right v.apart a i)) in
      (
        w,
        et (set_prev q p >> chain_next prev p)
            ∙ then_lem (set_prev q p) (chain_next prev p) t u (rw (not_null q v.right.0) at eu)
            ∙ ew,
        splice w p e ys right first_w (last_w ∙ last) left_w (v.ne_null, v.not_right, at_w, right_w)
            v.not_left v.apart,
        λ a o.
            let (ne, oy, oz) = outside a p e ys right o in same_w a oy ∙ same_u a oz ∙ r.same a ne,
      )

module _ (s : Sched) (p : Ptr) (e : Entry) where
  link_last_nil : Split s p e [] [] → Inserted s p e [] [] ((p, e) ∷ []) (link_last p s)
  unfolding link_last
  link_last_nil v =
      let n : Node = node_of e s.last v.after in
      let m = write s.memory p (some n) in
      let t : Sched = record s { memory = m; last = p } in
      let m' = write m p (some (node_of e s.last null)) in
      (
        record { memory = m'; first = p; last = p },
        rw (
          modify_lem s p (node_of e v.before v.after) _ v.ne_null v.at,
          is_null s.last v.last,
          modify_lem t p n _ v.ne_null (write_self s.memory p _),
          is_null s.first v.first,
        ),
        record {
          first = refl;
          last = refl;
          chain =
              (v.ne_null, refl, write_self m p _ ∙ ap (λ l. some (node_of e l null)) v.last, tt);
        },
        λ a o.
            let (ne, oy, oz) = outside a p e [] [] o in
            write_ne m p a _ ne ∙ write_ne s.memory p a _ ne,
      )

  link_last_cons :
      (y : Ptr × Entry) (ys : Items)
      → Split s p e (y ∷ ys) []
      → Inserted s p e (y ∷ ys) [] ((p, e) ∷ []) (link_last p s)
  unfolding link_last chain_next
  link_last_cons y ys v =
      let n : Node = node_of e s.last v.after in
      let t : Sched = record s { memory = write s.memory p (some n) } in
      let left = Chain-write s.memory p (some n) null null (y ∷ ys) v.left v.not_left in
      let (end, end_ne, end_at, end_in, moved) = Chain-relink t.memory null null p y ys left in
      let ne : s.last ≢ null = λ h. end_ne (sym v.last ∙ h) in
      let (u, eu, first_u, last_u, left_u, same_u) =
        chain_next_lem t (y ∷ ys) null p v.first left in
      let el : chain_next s.last p t ≡ some (tt, u) = ap (λ a. chain_next a p t) v.last ∙ eu in
      let at_u = same_u p v.not_left ∙ write_self s.memory p _ in
      let n' : Node = node_of e s.last null in
      let w : Sched = record u { memory = write u.memory p (some n'); last = p } in
      let at_w = write_self u.memory p _ ∙ ap (λ l. some (node_of e l null)) v.last in
      (
        w,
        rw (
          modify_lem s p (node_of e v.before v.after) _ v.ne_null v.at,
          not_null s.last ne,
          rw (not_null s.last ne) at el,
          modify_lem (record u { last = p }) p n _ v.ne_null at_u,
          not_null u.first (λ h. v.left.0 (sym first_u ∙ h)),
        ),
        splice w p e (y ∷ ys) [] first_u refl
            (Chain-write u.memory p (some n') null p (y ∷ ys) left_u v.not_left)
            (v.ne_null, refl, at_w, tt) v.not_left (λ a i. refl),
        λ a o.
            let (ne_a, oy, oz) = outside a p e (y ∷ ys) [] o in
            write_ne u.memory p a _ ne_a ∙ same_u a oy ∙ write_ne s.memory p a _ ne_a,
      )

  pub link_last_lem :
      (ys : Items) → Split s p e ys [] → Inserted s p e ys [] ((p, e) ∷ []) (link_last p s)
  link_last_lem [] v = link_last_nil v
  link_last_lem (y ∷ ys) v = link_last_cons y ys v
