-- ===== src/Registration/Addresses.antt =====
-- What each operation of src/registration.c does to the addresses of the nodes.
use psw_afdx.Base.{
  ℕ, ◌≡◌, sym, ap, ◌∙◌, subst, Bool, true, Bool-cases, Option-cases, Option, none, some, List, [],
  ◌∷◌, arith, inl, inr, bind-eq_some,
}
use psw_afdx.Protocol.{AppQuery}
use psw_afdx.Registration.{
  Scheduler, QueryNode, App, Registry, find_app, has_app, add_query, find_query, find_node,
  unlink_query, unlink_app, register_query, unregister_query, unregister_application,
  unschedule_all,
}
use psw_afdx.Registration.Nodes.{nodes}
use psw_afdx.Registration.Unique.{
  Unique, add_query-Unique, unlink_query-Unique, unlink_app-Unique, find_query-nodes,
}

known :
    (apps apps' : List App) (fd : ℕ) (app_memory : Bool)
    → find_app apps fd app_memory ≡ some apps'
    → (has_app apps' fd ≡ true) × (nodes apps' ≡ nodes apps)
known apps apps' fd app_memory e = elim (Bool-cases (has_app apps fd)) [
  | inl here ↦
      let same : apps ≡ apps' = (let e' = rw here at e in cc) in
      (ap (λ x. has_app x fd) (sym same) ∙ here, ap nodes (sym same))
  | inr missing ↦ elim (Bool-cases app_memory) [
    | inl memory ↦
        let same : (record { fd = fd; queries = [] } ∷ apps) ≡ apps' =
          (let e' = rw (missing, memory) at e in cc) in
        (ap (λ x. has_app x fd) (sym same) ∙ ground arith, ap nodes (sym same))
    | inr exhausted ↦ absurd (let e' = rw (missing, exhausted) at e in cc)
  ]
]

module _ {S : Type 0} (scheduler : Scheduler S) where
  pub register_query-Unique :
      (r r' : Registry S) (fd interval : ℕ) (query : AppQuery) (app_memory : Bool) (node : Option ℕ)
      → ((n : ℕ) → node ≡ some n → find_node r.apps n ≡ none)
      → Unique (nodes r.apps)
      → register_query scheduler r fd query interval app_memory node ≡ some r'
      → Unique (nodes r'.apps)
  unfolding register_query
  register_query-Unique r r' fd interval query app_memory node new u e =
      let (apps, e1, rest1) = bind-eq_some (find_app r.apps fd app_memory) _ r' e in
      let (addr, e2, rest2) = bind-eq_some node _ r' rest1 in
      let ((h, s'), e3, rest3) =
        bind-eq_some (scheduler.schedule r.sched addr interval) _ r' rest2 in
      let (has, same) = known r.apps apps fd app_memory e1 in
      let q : QueryNode = record { addr = addr; query = query; handler = h } in
      let is : record { apps = add_query apps fd q; sched = s' } ≡ r' = cc in
      subst (λ x. Unique (nodes x.apps)) is
        (add_query-Unique apps fd q has
          (ap (λ x. find_query x addr) same ∙ find_query-nodes r.apps addr (new addr e2))
          (subst (λ x. Unique x) (sym same) u))

  pub unregister_query-Unique :
      (r r' : Registry S) (fd req_id : ℕ)
      → Unique (nodes r.apps)
      → unregister_query scheduler r fd req_id ≡ some r'
      → Unique (nodes r'.apps)
  unfolding unregister_query
  unregister_query-Unique r r' fd req_id u e =
      elim (Option-cases (unlink_query r.apps fd req_id).0) [
        | inl missing ↦
            let is : r ≡ r' = (let e' = rw (unregister_query, missing) at e in cc) in
            subst (λ x. Unique (nodes x.apps)) is u
        | inr (q, found) ↦
            let e' = rw (unregister_query, found) at e in
            let (s', _, last) = bind-eq_some (scheduler.unschedule r.sched q.handler) _ r' e' in
            let is : record { apps = (unlink_query r.apps fd req_id).1; sched = s' } ≡ r' = cc in
            subst (λ x. Unique (nodes x.apps)) is (unlink_query-Unique r.apps fd req_id u)
      ]

  pub unregister_application-Unique :
      (r r' : Registry S) (fd : ℕ)
      → Unique (nodes r.apps)
      → unregister_application scheduler r fd ≡ some r'
      → Unique (nodes r'.apps)
  unfolding unregister_application
  unregister_application-Unique r r' fd u e = elim (Option-cases (unlink_app r.apps fd).0) [
    | inl missing ↦
        let is : r ≡ r' = (let e' = rw (unregister_application, missing) at e in cc) in
        subst (λ x. Unique (nodes x.apps)) is u
    | inr (a, found) ↦
        let e' = rw (unregister_application, found) at e in
        let (s', _, last) = bind-eq_some (unschedule_all scheduler r.sched a.queries) _ r' e' in
        let is : record { apps = (unlink_app r.apps fd).1; sched = s' } ≡ r' = cc in
        subst (λ x. Unique (nodes x.apps)) is (unlink_app-Unique r.apps fd u)
  ]
