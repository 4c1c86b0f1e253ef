-- ===== src/Registration/Nodes.antt =====
-- The nodes of all applications of src/registration.c as one list, and what a node more or less
-- changes in the tasks that stand for them.
use mathlib.Core.List.{append_assoc}
use psw_afdx.Base.{
  ℕ, ◌≡◌, ◌≢◌, refl, sym, ap, ◌∙◌, ◌==◌, if◌then◌else◌, true, Bool-cases, Option-cases, Option,
  none, some, List, [], ◌∷◌, ◌++◌, arith, inl, inr, is_some,
}
use psw_afdx.Registration.{
  QueryNode, App, has_app, add_query, take_query, unlink_query, unlink_app, find_query, find_node,
}

abbrev pub nodes : List App → List QueryNode
nodes [] = []
nodes (a ∷ apps) = a.queries ++ nodes apps

-- The address of the first node with the handler.
abbrev pub task_of : List QueryNode → ℕ → Option ℕ
task_of [] k = none
task_of (q ∷ qs) k = if k == q.handler then some q.addr else task_of qs k

abbrev pub Distinct : List QueryNode → Type 0
Distinct [] = Unit
Distinct (q ∷ qs) = (task_of qs q.handler ≡ none) × Distinct qs

pub task_of-insert :
    (xs ys : List QueryNode) (q : QueryNode) (k : ℕ)
    → task_of (xs ++ ys) q.handler ≡ none
    → task_of (xs ++ (q ∷ ys)) k ≡ (if k == q.handler then some q.addr else task_of (xs ++ ys) k)
task_of-insert [] ys q k new = refl
task_of-insert (x ∷ xs) ys q k new =
    let other : q.handler ≢ x.handler = ground arith in
    let rest : task_of (xs ++ ys) q.handler ≡ none = ground arith in
    ground (arith, task_of-insert xs ys q k rest)

pub Distinct-insert :
    (xs ys : List QueryNode) (q : QueryNode)
    → task_of (xs ++ ys) q.handler ≡ none
    → Distinct (xs ++ ys)
    → Distinct (xs ++ (q ∷ ys))
Distinct-insert [] ys q new d = (new, d)
Distinct-insert (x ∷ xs) ys q new d =
    let other : q.handler ≢ x.handler = ground arith in
    let rest : task_of (xs ++ ys) q.handler ≡ none = ground arith in
    (ground (arith, task_of-insert xs ys q x.handler rest, d.0), Distinct-insert xs ys q rest d.1)

-- A node of a list without double handlers is the one of its handler, and without it there is none.
pub Distinct-delete :
    (xs ys : List QueryNode) (q : QueryNode)
    → Distinct (xs ++ (q ∷ ys))
    → Distinct (xs ++ ys) × (task_of (xs ++ ys) q.handler ≡ none)
Distinct-delete [] ys q d = (d.1, d.0)
Distinct-delete (x ∷ xs) ys q d =
    let (rest, gone) = Distinct-delete xs ys q d.1 in
    let here = task_of-insert xs ys q x.handler gone in
    let other : x.handler ≢ q.handler = ground (arith, here, d.0) in
    ((ground (arith, here, d.0), rest), ground (arith, gone))

-- Where a new node goes.
pub add_query-nodes :
    (apps : List App) (fd : ℕ) (q : QueryNode)
    → has_app apps fd ≡ true
    → (xs : List QueryNode) × (ys : List QueryNode) × (nodes apps ≡ xs ++ ys)
      × (nodes (add_query apps fd q) ≡ xs ++ (q ∷ ys))
add_query-nodes [] fd q has = absurd cc
add_query-nodes (a ∷ apps) fd q has = elim (Bool-cases (a.fd == fd)) [
  | inl here ↦ ([], nodes (a ∷ apps), refl, rw here refl)
  | inr there ↦
      let (xs, ys, before, after) = add_query-nodes apps fd q (rw there at has) in
      (
        a.queries ++ xs,
        ys,
        ap (λ x. a.queries ++ x) before ∙ sym (append_assoc a.queries xs ys),
        rw there (ap (λ x. a.queries ++ x) after ∙ sym (append_assoc a.queries xs (q ∷ ys))),
      )
]

-- Which node `take_query` and `unlink_query` take out, if any.
pub take_query-nodes :
    (qs : List QueryNode) (req_id : ℕ) (q : QueryNode)
    → (take_query qs req_id).0 ≡ some q
    → (xs : List QueryNode) × (ys : List QueryNode) × (qs ≡ xs ++ (q ∷ ys))
      × ((take_query qs req_id).1 ≡ xs ++ ys)
take_query-nodes [] req_id q e = absurd cc
take_query-nodes (x ∷ qs) req_id q e = elim (Bool-cases (x.query.req_id == req_id)) [
  | inl here ↦
      let same : x ≡ q = (let e' = rw here at e in cc) in
      ([], qs, ap (λ y. y ∷ qs) same, rw here refl)
  | inr there ↦
      let (xs, ys, before, after) = take_query-nodes qs req_id q (rw there at e) in
      (x ∷ xs, ys, ap (λ y. x ∷ y) before, rw there (ap (λ y. x ∷ y) after))
]

pub unlink_query-nodes :
    (apps : List App) (fd req_id : ℕ) (q : QueryNode)
    → (unlink_query apps fd req_id).0 ≡ some q
    → (xs : List QueryNode) × (ys : List QueryNode) × (nodes apps ≡ xs ++ (q ∷ ys))
      × (nodes (unlink_query apps fd req_id).1 ≡ xs ++ ys)
unlink_query-nodes [] fd req_id q e = absurd cc
unlink_query-nodes (a ∷ apps) fd req_id q e = elim (Bool-cases (a.fd == fd)) [
  | inl here ↦
      let (xs, ys, before, after) = take_query-nodes a.queries req_id q (rw here at e) in
      (
        xs,
        ys ++ nodes apps,
        ap (λ y. y ++ nodes apps) before ∙ append_assoc xs (q ∷ ys) (nodes apps),
        rw here (ap (λ y. y ++ nodes apps) after ∙ append_assoc xs ys (nodes apps)),
      )
  | inr there ↦
      let (xs, ys, before, after) = unlink_query-nodes apps fd req_id q (rw there at e) in
      (
        a.queries ++ xs,
        ys,
        ap (λ y. a.queries ++ y) before ∙ sym (append_assoc a.queries xs (q ∷ ys)),
        rw there (ap (λ y. a.queries ++ y) after ∙ sym (append_assoc a.queries xs ys)),
      )
]

pub unlink_app-nodes :
    (apps : List App) (fd : ℕ) (a : App)
    → (unlink_app apps fd).0 ≡ some a
    → (xs : List QueryNode) × (ys : List QueryNode) × (nodes apps ≡ xs ++ (a.queries ++ ys))
      × (nodes (unlink_app apps fd).1 ≡ xs ++ ys)
unlink_app-nodes [] fd a e = absurd cc
unlink_app-nodes (b ∷ apps) fd a e = elim (Bool-cases (b.fd == fd)) [
  | inl here ↦
      let same : b ≡ a = (let e' = rw here at e in cc) in
      ([], nodes apps, ap (λ y. y.queries ++ nodes apps) same, rw here refl)
  | inr there ↦
      let (xs, ys, before, after) = unlink_app-nodes apps fd a (rw there at e) in
      (
        b.queries ++ xs,
        ys,
        ap (λ y. b.queries ++ y) before ∙ sym (append_assoc b.queries xs (a.queries ++ ys)),
        rw there (ap (λ y. b.queries ++ y) after ∙ sym (append_assoc b.queries xs ys)),
      )
]

-- The node of a task is live.
pub task_of-live :
    (qs : List QueryNode) (k n : ℕ) → task_of qs k ≡ some n → is_some (find_query qs n) ≡ true
task_of-live [] k n e = absurd cc
task_of-live (q ∷ qs) k n e = elim (Bool-cases (q.addr == n)) [
  | inl here ↦ rw here refl
  | inr other ↦ rw other (task_of-live qs k n (ground arith))
]

pub task_of-append :
    (xs ys : List QueryNode) (k : ℕ)
    → task_of (xs ++ ys) k ≡ (if is_some (task_of xs k) then task_of xs k else task_of ys k)
task_of-append [] ys k = refl
task_of-append (x ∷ xs) ys k = ground (arith, task_of-append xs ys k)

pub nodes-live :
    (apps : List App) (k n : ℕ)
    → task_of (nodes apps) k ≡ some n
    → is_some (find_node apps n) ≡ true
nodes-live [] k n e = absurd cc
nodes-live (a ∷ apps) k n e = elim (Option-cases (find_query a.queries n)) [
  | inr (q, found) ↦ rw (find_node, found) refl
  | inl none_here ↦
      let not_here : task_of a.queries k ≢ some n =
        λ at. (let l = task_of-live a.queries k n at in cc) in
      rw (find_node, none_here)
        (nodes-live apps k n (ground (arith, task_of-append a.queries (nodes apps) k)))
]
