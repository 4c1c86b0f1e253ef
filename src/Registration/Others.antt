-- ===== src/Registration/Others.antt =====
-- What the operations of src/registration.c for one client do to the tasks of the others: nothing.
use psw_afdx.Base.{
  ℕ, ◌≡◌, ◌≢◌, refl, sym, ap, ◌∙◌, subst, ◌==◌, Bool, true, Bool-cases, Option-cases, Option, none,
  some, List, [], ◌∷◌, ◌++◌, arith, inl, inr, bind-eq_some, is_some,
}
use psw_afdx.Protocol.{AppQuery}
use psw_afdx.Registration.{
  Scheduler, QueryNode, App, Registry, find_app, take_query, unlink_query, unlink_app,
  register_query, unregister_query, unregister_application, unschedule_all,
}
use psw_afdx.Registration.Nodes.{nodes, task_of, task_of-append}
use psw_afdx.Registration.Owners.{handler_query, query_of}
use psw_afdx.Registration.Kept.{IsConsistent, unregister_query_lem, unregister_application_lem}

task_of-none : (qs : List QueryNode) (h : ℕ) → handler_query qs h ≡ none → task_of qs h ≡ none
task_of-none [] h e = refl
task_of-none (q ∷ qs) h e = ground (arith, task_of-none qs h)

take_query-none :
    (qs : List QueryNode) (req_id h : ℕ)
    → task_of qs h ≡ none
    → task_of (take_query qs req_id).1 h ≡ none
take_query-none [] req_id h e = refl
take_query-none (q ∷ qs) req_id h e = ground (arith, take_query-none qs req_id h (ground arith))

-- The tasks of the applications, from those of the first one and those of the rest.
task_of-first :
    (xs xs' ys : List QueryNode) (h : ℕ)
    → task_of xs h ≡ none
    → task_of xs' h ≡ none
    → task_of (xs' ++ ys) h ≡ task_of (xs ++ ys) h
task_of-first xs xs' ys h e e' = ground (arith, task_of-append xs ys h, task_of-append xs' ys h)

task_of-rest :
    (xs ys ys' : List QueryNode) (h : ℕ)
    → task_of ys' h ≡ task_of ys h
    → task_of (xs ++ ys') h ≡ task_of (xs ++ ys) h
task_of-rest xs ys ys' h e = ground (arith, task_of-append xs ys h, task_of-append xs ys' h)

-- The owner of a handler has another descriptor.
abbrev pub OfOther : List App → ℕ → ℕ → Type 0
OfOther apps fd h = (g : ℕ) × (q : AppQuery) × (query_of apps h ≡ some (g, q)) × (fd ≢ g)

OfOther-first :
    (a : App) (apps : List App) (fd h : ℕ)
    → a.fd ≡ fd
    → OfOther (a ∷ apps) fd h
    → handler_query a.queries h ≡ none
OfOther-first a apps fd h here (g, q, of_g, other) =
    elim (Option-cases (handler_query a.queries h)) [
      | inl missing ↦ missing
      | inr (q', found) ↦
          let e = rw (query_of, found) at of_g in
          let same : a.fd ≡ g = cc in absurd (other (sym here ∙ same))
    ]

task_of-some :
    (qs : List QueryNode) (h : ℕ) (q : AppQuery)
    → handler_query qs h ≡ some q
    → is_some (task_of qs h) ≡ true
task_of-some [] h q e = absurd cc
task_of-some (x ∷ qs) h q e = ground (arith, task_of-some qs h q)

-- A change of the applications behind the first one that leaves the tasks of the others alone.
later_apps :
    (a : App) (apps apps' : List App) (fd h : ℕ)
    → (OfOther apps fd h → task_of (nodes apps') h ≡ task_of (nodes apps) h)
    → OfOther (a ∷ apps) fd h
    → task_of (a.queries ++ nodes apps') h ≡ task_of (a.queries ++ nodes apps) h
later_apps a apps apps' fd h same (g, q, of_g, ne) =
    elim (Option-cases (handler_query a.queries h)) [
      | inl missing ↦
          task_of-rest a.queries (nodes apps) (nodes apps') h
            (same (g, q, rw (query_of, missing) at of_g, ne))
      | inr (q', found) ↦
          let there = task_of-some a.queries h q' found in
          ground (
            arith,
            task_of-append a.queries (nodes apps) h,
            task_of-append a.queries (nodes apps') h,
          )
    ]

unlink_query-task_of :
    (apps : List App) (fd req_id h : ℕ)
    → OfOther apps fd h
    → task_of (nodes (unlink_query apps fd req_id).1) h ≡ task_of (nodes apps) h
unlink_query-task_of [] fd req_id h other = refl
unlink_query-task_of (a ∷ apps) fd req_id h other = elim (Bool-cases (a.fd == fd)) [
  | inl here ↦
      let missing = task_of-none a.queries h (OfOther-first a apps fd h (ground arith) other) in
      rw here (
        task_of-first a.queries (take_query a.queries req_id).1 (nodes apps) h missing
          (take_query-none a.queries req_id h missing))
  | inr there ↦ rw there (
      later_apps a apps (unlink_query apps fd req_id).1 fd h (unlink_query-task_of apps fd req_id h)
        other)
]

unlink_app-task_of :
    (apps : List App) (fd h : ℕ)
    → OfOther apps fd h
    → task_of (nodes (unlink_app apps fd).1) h ≡ task_of (nodes apps) h
unlink_app-task_of [] fd h other = refl
unlink_app-task_of (a ∷ apps) fd h other = elim (Bool-cases (a.fd == fd)) [
  | inl here ↦
      let missing = task_of-none a.queries h (OfOther-first a apps fd h (ground arith) other) in
      rw here (sym (ground (arith, task_of-append a.queries (nodes apps) h)))
  | inr there ↦
      rw there (later_apps a apps (unlink_app apps fd).1 fd h (unlink_app-task_of apps fd h) other)
]

unlink_app-query_of :
    (apps : List App) (fd h : ℕ)
    → OfOther apps fd h
    → query_of (unlink_app apps fd).1 h ≡ query_of apps h
unlink_app-query_of [] fd h other = refl
unlink_app-query_of (a ∷ apps) fd h other = elim (Bool-cases (a.fd == fd)) [
  | inl here ↦ rw (query_of, here, OfOther-first a apps fd h (ground arith) other) refl
  | inr there ↦ elim (Option-cases (handler_query a.queries h)) [
    | inl missing ↦
        let (g, q, of_g, ne) = other in
        rw (query_of, there, missing)
          (unlink_app-query_of apps fd h (g, q, rw (query_of, missing) at of_g, ne))
    | inr (q, found) ↦ rw (query_of, there, found) refl
  ]
]

-- A task that the new one does not replace.
module _ {S : Type 0} (scheduler : Scheduler S) where
  pub register_query-task :
      (r r' : Registry S) (fd interval : ℕ) (query : AppQuery) (app_memory : Bool) (node : Option ℕ)
      (h n : ℕ)
      → IsConsistent scheduler r
      → scheduler.task r.sched h ≡ some n
      → register_query scheduler r fd query interval app_memory node ≡ some r'
      → scheduler.task r'.sched h ≡ some n
  unfolding register_query
  register_query-task r r' fd interval query app_memory node h n v at e =
      let (apps, e1, rest1) = bind-eq_some (find_app r.apps fd app_memory) _ r' e in
      let (addr, e2, rest2) = bind-eq_some node _ r' rest1 in
      let ((new, s'), e3, rest3) =
        bind-eq_some (scheduler.schedule r.sched addr interval) _ r' rest2 in
      let (_, unused, tasks) = scheduler.schedule-task r.sched s' addr interval new v.0.valid e3 in
      let other : h ≢ new = λ same. (let at' = rw same at at in cc) in
      let is : s' ≡ r'.sched = cc in ap (λ x. scheduler.task x h) (sym is) ∙ tasks h ∙ ground arith

  pub unregister_query-task :
      (r r' : Registry S) (fd req_id h : ℕ)
      → IsConsistent scheduler r
      → OfOther r.apps fd h
      → unregister_query scheduler r fd req_id ≡ some r'
      → scheduler.task r'.sched h ≡ scheduler.task r.sched h
  unfolding unregister_query
  unregister_query-task r r' fd req_id h v other e =
      let (r1, is1, v1, _) = unregister_query_lem scheduler r fd req_id v in
      let same : r1 ≡ r' = cc in
      let kept : task_of (nodes r'.apps) h ≡ task_of (nodes r.apps) h =
        elim (Option-cases (unlink_query r.apps fd req_id).0) [
          | inl missing ↦
              let is : r ≡ r' = (let e' = rw (unregister_query, missing) at e in cc) in
              ap (λ x. task_of (nodes x.apps) h) (sym is)
          | inr (q, found) ↦
              let e' = rw (unregister_query, found) at e in
              let (s', _, last) = bind-eq_some (scheduler.unschedule r.sched q.handler) _ r' e' in
              let is : (unlink_query r.apps fd req_id).1 ≡ r'.apps = cc in
              ap (λ x. task_of (nodes x) h) (sym is) ∙ unlink_query-task_of r.apps fd req_id h other
        ] in
      (subst (λ x. IsConsistent scheduler x) same v1).0.tasks h ∙ kept ∙ sym (v.0.tasks h)

  pub unregister_application-task :
      (r r' : Registry S) (fd h : ℕ)
      → IsConsistent scheduler r
      → OfOther r.apps fd h
      → unregister_application scheduler r fd ≡ some r'
      → (IsConsistent scheduler r')
        × (scheduler.task r'.sched h ≡ scheduler.task r.sched h)
        × OfOther r'.apps fd h
  unfolding unregister_application
  unregister_application-task r r' fd h v other e =
      let (r1, is1, v1, _) = unregister_application_lem scheduler r fd v in
      let same : r1 ≡ r' = cc in
      let v' = subst (λ x. IsConsistent scheduler x) same v1 in
      let (tasks, queries) = kept in
      let (g, q, of_g, ne) = other in
      (v', v'.0.tasks h ∙ tasks ∙ sym (v.0.tasks h), (g, q, queries ∙ of_g, ne))
    where
      kept :
          (task_of (nodes r'.apps) h ≡ task_of (nodes r.apps) h)
          × (query_of r'.apps h ≡ query_of r.apps h)
      kept = elim (Option-cases (unlink_app r.apps fd).0) [
        | inl missing ↦
            let is : r ≡ r' = (let e' = rw (unregister_application, missing) at e in cc) in
            (ap (λ x. task_of (nodes x.apps) h) (sym is), ap (λ x. query_of x.apps h) (sym is))
        | inr (a, found) ↦
            let e' = rw (unregister_application, found) at e in
            let (s', _, last) = bind-eq_some (unschedule_all scheduler r.sched a.queries) _ r' e' in
            let is : (unlink_app r.apps fd).1 ≡ r'.apps = cc in
            (
              ap (λ x. task_of (nodes x) h) (sym is) ∙ unlink_app-task_of r.apps fd h other,
              ap (λ x. query_of x h) (sym is) ∙ unlink_app-query_of r.apps fd h other,
            )
      ]
