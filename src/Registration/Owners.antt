-- ===== src/Registration/Owners.antt =====
-- Whose query a task of src/registration.c answers: that of the registration that got its handler, as
-- long as no two nodes have one address.
use psw_afdx.Base.{
  ℕ, ◌≡◌, ◌≢◌, refl, sym, ◌∙◌, ◌==◌, if◌then◌else◌, true, Bool-cases, Option-cases, Option, none,
  some, List, [], ◌∷◌, ◌++◌, arith, inl, inr, is_some,
}
use psw_afdx.Protocol.{AppQuery}
use psw_afdx.Registration.{QueryNode, App, find_query, find_node}
use psw_afdx.Registration.Nodes.{nodes, task_of, task_of-append, task_of-live}
use psw_afdx.Registration.Unique.{Unique, find_query-append}

-- The query that was registered with a handler, and the descriptor of its client.
abbrev pub handler_query : List QueryNode → ℕ → Option AppQuery
handler_query [] h = none
handler_query (q ∷ qs) h = if h == q.handler then some q.query else handler_query qs h

abbrev pub query_of : List App → ℕ → Option (ℕ × AppQuery)
query_of [] h = none
query_of (a ∷ apps) h = elim (handler_query a.queries h) [
  | none ↦ query_of apps h
  | some q ↦ some (a.fd, q)
]

-- In one list, and in the lists of all applications: the live node that a task carries is the one
-- with the task's handler.
find_query-handler :
    (qs : List QueryNode) (h n : ℕ)
    → Unique qs
    → task_of qs h ≡ some n
    → find_query qs n ≡ handler_query qs h
find_query-handler [] h n u e = absurd cc
find_query-handler (q ∷ qs) h n u e = elim (Bool-cases (h == q.handler)) [
  | inl here ↦ ground arith
  | inr other ↦
      let rest : task_of qs h ≡ some n = rw other at e in
      let apart : q.addr ≢ n = λ same.
        (let live = task_of-live qs h n rest in
          let gone : find_query qs n ≡ none = rw same at u.0 in cc) in
      ground (arith, find_query-handler qs h n u.1 rest)
]

handler_query-none : (qs : List QueryNode) (h : ℕ) → task_of qs h ≡ none → handler_query qs h ≡ none
handler_query-none [] h e = refl
handler_query-none (q ∷ qs) h e = ground (arith, handler_query-none qs h)

Unique-rest : (xs ys : List QueryNode) → Unique (xs ++ ys) → Unique ys
Unique-rest [] ys u = u
Unique-rest (x ∷ xs) ys u = Unique-rest xs ys u.1

Unique-first : (xs ys : List QueryNode) → Unique (xs ++ ys) → Unique xs
Unique-first [] ys u = tt
Unique-first (x ∷ xs) ys u = ((find_query-append xs ys x.addr u.0).0, Unique-first xs ys u.1)

not_before :
    (xs ys : List QueryNode) (n : ℕ)
    → Unique (xs ++ ys)
    → is_some (find_query ys n) ≡ true
    → find_query xs n ≡ none
not_before [] ys n u live = refl
not_before (x ∷ xs) ys n u live =
    let apart : x.addr ≢ n = λ same.
      (let gone = (find_query-append xs ys x.addr u.0).1 in
        let gone' : find_query ys n ≡ none = rw same at gone in cc) in
    ground (arith, not_before xs ys n u.1 live)

pub find_node-query_of :
    (apps : List App) (h n : ℕ)
    → Unique (nodes apps)
    → task_of (nodes apps) h ≡ some n
    → find_node apps n ≡ query_of apps h
find_node-query_of [] h n u e = absurd cc
find_node-query_of (a ∷ apps) h n u e = elim (Option-cases (task_of a.queries h)) [
  | inl none_here ↦
      let rest : task_of (nodes apps) h ≡ some n =
        ground (arith, task_of-append a.queries (nodes apps) h) in
      let live = task_of-live (nodes apps) h n rest in
      let other = not_before a.queries (nodes apps) n u live in
      let no_query = handler_query-none a.queries h none_here in
      rw (find_node, query_of, other, no_query)
        (find_node-query_of apps h n (Unique-rest a.queries (nodes apps) u) rest)
  | inr (n1, is) ↦
      let same : n1 ≡ n = ground (arith, task_of-append a.queries (nodes apps) h) in
      let at : task_of a.queries h ≡ some n = rw same at is in
      let here = find_query-handler a.queries h n (Unique-first a.queries (nodes apps) u) at in
      let live = task_of-live a.queries h n at in
      elim (Option-cases (find_query a.queries n)) [
        | inl gone ↦ absurd cc
        | inr (q, found) ↦
            let of_h : handler_query a.queries h ≡ some q = sym here ∙ found in
            rw (find_node, query_of, found, of_h) refl
      ]
]
