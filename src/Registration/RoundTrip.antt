-- ===== src/Registration/RoundTrip.antt =====
-- What `unregister_query` of src/registration.c leaves of the list of applications.
use psw_afdx.Base.{ℕ, ◌≡◌, refl, sym, ap, ◌∙◌, Bool, true, Option-cases, some, List, inl, inr}
use psw_afdx.Protocol.{AppQuery}
use psw_afdx.Registration.{
  Scheduler, QueryNode, App, Registry, has_app, add_query, unlink_query, register_query,
  unregister_query,
}
use psw_afdx.Registration.Nodes.{nodes, task_of}
use psw_afdx.Registration.Apps.{unlink_query-add_query}
use psw_afdx.Registration.Kept.{IsConsistent, register_query_lem, unregister_query_lem}

module _ {S : Type 0} (scheduler : Scheduler S) where
  -- Which list of applications `unregister_query` leaves when it takes a node out.
  pub unregister_query-apps :
      (r r' : Registry S) (fd req_id : ℕ) (q : QueryNode) (apps : List App)
      → unlink_query r.apps fd req_id ≡ (some q, apps)
      → unregister_query scheduler r fd req_id ≡ some r'
      → r'.apps ≡ apps
  unfolding unregister_query
  unregister_query-apps r r' fd req_id q apps unlinked is =
      elim (Option-cases (scheduler.unschedule r.sched q.handler)) [
        | inl bad ↦ absurd (let no = rw (unregister_query, unlinked, bad) at is in cc)
        | inr (s, ok) ↦
            let so = rw (unregister_query, unlinked, ok) at is in
            let same : record { apps = apps; sched = s } ≡ r' = cc in sym (ap (λ x. x.apps) same)
      ]

  -- In a consistent registry and with memory, for an application that has registered before:
  -- `unregister_query` with the request id of a query that has just been registered restores the
  -- list of applications and the tasks.
  pub register_query-unregister_query :
      (r : Registry S) (s' : S) (fd interval addr h : ℕ) (query : AppQuery) (app_memory : Bool)
      → IsConsistent scheduler r
      → has_app r.apps fd ≡ true
      → scheduler.schedule r.sched addr interval ≡ some (h, s')
      → (r' : Registry S) × (r'' : Registry S) × (register_query scheduler r fd query interval
            app_memory
            (some addr)
          ≡ some r')
        × (unregister_query scheduler r' fd query.req_id ≡ some r'')
        × (r''.apps ≡ r.apps)
        × ((k : ℕ) → scheduler.task r''.sched k ≡ scheduler.task r.sched k)
  unfolding register_query unregister_query
  register_query-unregister_query r s' fd interval addr h query app_memory v known e =
      let q : QueryNode = record { addr = addr; query = query; handler = h } in
      let there =
        register_query_lem scheduler r s' fd interval addr h query app_memory v (rw known refl) e in
      let (r1, is1, v1, _, _, _) = there in
      let r' : Registry S = record { apps = add_query r.apps fd q; sched = s' } in
      let is : register_query scheduler r fd query interval app_memory (some addr) ≡ some r' =
        rw (register_query, known, e) refl in
      let same : r1 ≡ r' = cc in
      let (r'', is2, v2, _) = unregister_query_lem scheduler r' fd query.req_id (rw same at v1) in
      let back : r''.apps ≡ r.apps =
        unregister_query-apps r' r'' fd query.req_id q r.apps
          (unlink_query-add_query r.apps fd q known) is2 in
      (
        r',
        r'',
        is,
        is2,
        back,
        λ k. v2.0.tasks k ∙ ap (λ x. task_of (nodes x) k) back ∙ sym (v.0.tasks k),
      )
