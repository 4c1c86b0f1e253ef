-- ===== src/Registration/Unique.antt =====
-- No two nodes of src/registration.c have one address, as long as `malloc` gives only unused memory.
use psw_afdx.Base.{
  ℕ, ◌≡◌, ◌≢◌, refl, sym, ap, ◌∙◌, ◌==◌, true, Bool-cases, Option-cases, none, some, List, [], ◌∷◌,
  ◌++◌, arith, inl, inr, subst,
}
use psw_afdx.Registration.{
  QueryNode, App, has_app, add_query, take_query, unlink_query, unlink_app, find_query, find_node,
}
use psw_afdx.Registration.Nodes.{
  nodes, Distinct, Distinct-delete, task_of-insert, task_of, add_query-nodes, unlink_query-nodes,
  unlink_app-nodes,
}

-- No two nodes have one address.
abbrev pub Unique : List QueryNode → Type 0
Unique [] = Unit
Unique (q ∷ qs) = (find_query qs q.addr ≡ none) × Unique qs

pub find_query-append :
    (xs ys : List QueryNode) (n : ℕ)
    → find_query (xs ++ ys) n ≡ none
    → (find_query xs n ≡ none) × (find_query ys n ≡ none)
find_query-append [] ys n e = (refl, e)
find_query-append (x ∷ xs) ys n e = ground (arith, find_query-append xs ys n (ground arith))

find_query-insert :
    (xs ys : List QueryNode) (q : QueryNode) (n : ℕ)
    → q.addr ≢ n
    → find_query (xs ++ (q ∷ ys)) n ≡ find_query (xs ++ ys) n
find_query-insert [] ys q n ne = ground arith
find_query-insert (x ∷ xs) ys q n ne = ground (arith, find_query-insert xs ys q n ne)

Unique-insert :
    (xs ys : List QueryNode) (q : QueryNode)
    → find_query (xs ++ ys) q.addr ≡ none
    → Unique (xs ++ ys)
    → Unique (xs ++ (q ∷ ys))
Unique-insert [] ys q new u = (new, u)
Unique-insert (x ∷ xs) ys q new u =
    let other : q.addr ≢ x.addr = ground arith in
    let rest : find_query (xs ++ ys) q.addr ≡ none = ground arith in
    (find_query-insert xs ys q x.addr other ∙ u.0, Unique-insert xs ys q rest u.1)

find_query-delete :
    (xs ys : List QueryNode) (q : QueryNode) (n : ℕ)
    → find_query (xs ++ (q ∷ ys)) n ≡ none
    → find_query (xs ++ ys) n ≡ none
find_query-delete [] ys q n e = ground arith
find_query-delete (x ∷ xs) ys q n e = ground (arith, find_query-delete xs ys q n (ground arith))

Unique-delete :
    (xs ys : List QueryNode) (q : QueryNode) → Unique (xs ++ (q ∷ ys)) → Unique (xs ++ ys)
Unique-delete [] ys q u = u.1
Unique-delete (x ∷ xs) ys q u = (find_query-delete xs ys q x.addr u.0, Unique-delete xs ys q u.1)

Unique-delete_all : (xs qs ys : List QueryNode) → Unique (xs ++ (qs ++ ys)) → Unique (xs ++ ys)
Unique-delete_all xs [] ys u = u
Unique-delete_all xs (q ∷ qs) ys u = Unique-delete_all xs qs ys (Unique-delete xs (qs ++ ys) q u)

find_query-none :
    (xs ys : List QueryNode) (n : ℕ)
    → find_query xs n ≡ none
    → find_query ys n ≡ none
    → find_query (xs ++ ys) n ≡ none
find_query-none [] ys n here there = there
find_query-none (x ∷ xs) ys n here there =
    ground (arith, find_query-none xs ys n (ground arith) there)

pub find_query-nodes :
    (apps : List App) (n : ℕ) → find_node apps n ≡ none → find_query (nodes apps) n ≡ none
find_query-nodes [] n e = refl
find_query-nodes (a ∷ apps) n e = elim (Option-cases (find_query a.queries n)) [
  | inl other ↦
      find_query-none a.queries (nodes apps) n other
        (find_query-nodes apps n (rw (find_node, other) at e))
  | inr (q, found) ↦ absurd (let e' = rw (find_node, found) at e in cc)
]

-- Each operation keeps the addresses apart, if the memory for a new node is not in use.
pub add_query-Unique :
    (apps : List App) (fd : ℕ) (q : QueryNode)
    → has_app apps fd ≡ true
    → find_query (nodes apps) q.addr ≡ none
    → Unique (nodes apps)
    → Unique (nodes (add_query apps fd q))
add_query-Unique apps fd q has new u =
    let (xs, ys, before, after) = add_query-nodes apps fd q has in
    subst (λ x. Unique x) (sym after)
      (Unique-insert xs ys q (rw before at new) (subst (λ x. Unique x) before u))

take_query-missing :
    (qs : List QueryNode) (req_id : ℕ)
    → (take_query qs req_id).0 ≡ none
    → (take_query qs req_id).1 ≡ qs
take_query-missing [] req_id e = refl
take_query-missing (q ∷ qs) req_id e = ground (arith, take_query-missing qs req_id (ground arith))

unlink_query-missing :
    (apps : List App) (fd req_id : ℕ)
    → (unlink_query apps fd req_id).0 ≡ none
    → nodes (unlink_query apps fd req_id).1 ≡ nodes apps
unlink_query-missing [] fd req_id e = refl
unlink_query-missing (a ∷ apps) fd req_id e = elim (Bool-cases (a.fd == fd)) [
  | inl here ↦
      rw here (ap (λ x. x ++ nodes apps) (take_query-missing a.queries req_id (rw here at e)))
  | inr there ↦
      rw there (ap (λ x. a.queries ++ x) (unlink_query-missing apps fd req_id (rw there at e)))
]

pub unlink_query-Unique :
    (apps : List App) (fd req_id : ℕ)
    → Unique (nodes apps)
    → Unique (nodes (unlink_query apps fd req_id).1)
unlink_query-Unique apps fd req_id u = elim (Option-cases (unlink_query apps fd req_id).0) [
  | inl missing ↦ subst (λ x. Unique x) (sym (unlink_query-missing apps fd req_id missing)) u
  | inr (q, found) ↦
      let (xs, ys, before, after) = unlink_query-nodes apps fd req_id q found in
      subst (λ x. Unique x) (sym after) (Unique-delete xs ys q (subst (λ x. Unique x) before u))
]

unlink_app-missing :
    (apps : List App) (fd : ℕ) → (unlink_app apps fd).0 ≡ none → (unlink_app apps fd).1 ≡ apps
unlink_app-missing [] fd e = refl
unlink_app-missing (a ∷ apps) fd e = ground (arith, unlink_app-missing apps fd (ground arith))

pub unlink_app-Unique :
    (apps : List App) (fd : ℕ) → Unique (nodes apps) → Unique (nodes (unlink_app apps fd).1)
unlink_app-Unique apps fd u = elim (Option-cases (unlink_app apps fd).0) [
  | inl missing ↦ subst (λ x. Unique (nodes x)) (sym (unlink_app-missing apps fd missing)) u
  | inr (a, found) ↦
      let (xs, ys, before, after) = unlink_app-nodes apps fd a found in
      subst (λ x. Unique x) (sym after)
        (Unique-delete_all xs a.queries ys (subst (λ x. Unique x) before u))
]

-- Without its node, an address is none of the registry's.
find_query-deleted :
    (xs ys : List QueryNode) (q : QueryNode)
    → Unique (xs ++ (q ∷ ys))
    → find_query (xs ++ ys) q.addr ≡ none
find_query-deleted [] ys q u = u.0
find_query-deleted (x ∷ xs) ys q u =
    let rest = find_query-deleted xs ys q u.1 in
    let there = find_query-append xs (q ∷ ys) x.addr u.0 in ground (arith, there.1)

find_node-none :
    (apps : List App) (n : ℕ) → find_query (nodes apps) n ≡ none → find_node apps n ≡ none
find_node-none [] n e = refl
find_node-none (a ∷ apps) n e =
    let (here, there) = find_query-append a.queries (nodes apps) n e in
    rw (find_node, here) (find_node-none apps n there)

pub unlink_query-freed :
    (apps : List App) (fd req_id : ℕ) (q : QueryNode)
    → Unique (nodes apps)
    → (unlink_query apps fd req_id).0 ≡ some q
    → find_node (unlink_query apps fd req_id).1 q.addr ≡ none
unlink_query-freed apps fd req_id q u found =
    let (xs, ys, before, after) = unlink_query-nodes apps fd req_id q found in
    find_node-none (unlink_query apps fd req_id).1 q.addr (
      ap (λ x. find_query x q.addr) after
      ∙ find_query-deleted xs ys q (subst (λ x. Unique x) before u))

-- The task of a node that is in the registry carries its address.
pub unlink_query-task :
    (apps : List App) (fd req_id : ℕ) (q : QueryNode)
    → Distinct (nodes apps)
    → (unlink_query apps fd req_id).0 ≡ some q
    → task_of (nodes apps) q.handler ≡ some q.addr
unlink_query-task apps fd req_id q d found =
    let (xs, ys, before, after) = unlink_query-nodes apps fd req_id q found in
    let (rest, gone) = Distinct-delete xs ys q (subst (λ x. Distinct x) before d) in
    ap (λ x. task_of x q.handler) before ∙ task_of-insert xs ys q q.handler gone ∙ ground arith
