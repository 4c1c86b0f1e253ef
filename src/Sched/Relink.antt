-- ===== src/Sched/Relink.antt =====
-- `chain_next` and `chain_prev` of src/scheduler.c on a list of nodes.
use psw_afdx.Base.{◌≡◌, refl, some, [], ◌∷◌, arith}
use psw_afdx.Sched.Heap.{Ptr, null, Sched, write, load, modify, write_ne, modify_lem}
use psw_afdx.Sched.{chain_next, chain_prev}
use psw_afdx.Sched.Links.{
  Items, node_of, first_or, last_or, Chain, SameOutside, Chain-write, Chain-relink, not_null,
  ne_of_has,
}

-- `chain_next` behind the nodes `xs`: the last of them, or `first`, points at `q`.
pub chain_next_lem :
    (s : Sched) (xs : Items) (after q : Ptr)
    → s.first ≡ first_or xs after
    → Chain s.memory null after xs
    → (t : Sched) × (chain_next (last_or xs null) q s ≡ some (tt, t))
      × (t.first ≡ first_or xs q)
      × (t.last ≡ s.last)
      × Chain t.memory null q xs
      × SameOutside xs s.memory t.memory
unfolding chain_next
chain_next_lem s [] after q first c = (record s { first = q }, refl, refl, refl, tt, λ a o. refl)
chain_next_lem s (x ∷ xs) after q first c =
    let (n, ne, at, i, d) = Chain-relink s.memory null after q x xs c in
    let p = last_or (x ∷ xs) null in
    (
      record s { memory = write s.memory p (some (record n { next = q })) },
      rw (not_null p ne) (modify_lem s p n _ ne at),
      first,
      refl,
      d,
      λ a o. write_ne s.memory p a _ (ne_of_has a p (x ∷ xs) o i),
    )

-- `chain_prev` before the nodes `xs`: the first of them, or `last`, points back at `q`.
pub chain_prev_lem :
    (s : Sched) (xs : Items) (before q : Ptr)
    → s.last ≡ last_or xs before
    → Chain s.memory before null xs
    → (t : Sched) × (chain_prev (first_or xs null) q s ≡ some (tt, t))
      × (t.last ≡ last_or xs q)
      × (t.first ≡ s.first)
      × Chain t.memory q null xs
      × SameOutside xs s.memory t.memory
unfolding chain_prev modify load write
chain_prev_lem s [] before q last c = (record s { last = q }, refl, refl, refl, tt, λ a o. refl)
chain_prev_lem s ((p, e) ∷ xs) before q last c =
    let n = node_of e q (first_or xs null) in
    (
      record s { memory = write s.memory p (some n) },
      ground arith,
      last,
      refl,
      (c.0, c.1, ground arith, Chain-write s.memory p (some n) p null xs c.3 c.1),
      λ a o. ground arith,
    )
