-- ===== src/Registration/Kept.antt =====
-- The tasks of the scheduler are those of the registered queries, through every operation of
-- src/registration.c.
use psw_afdx.Base.{
  ==_iff, ℕ, ◌≡◌, refl, sym, ◌∙◌, ◌==◌, if◌then◌else◌, Bool, true, false, Bool-cases, Option-cases,
  none, some, List, [], ◌∷◌, ◌++◌, arith, inl, inr, subst,
}
use psw_afdx.Protocol.{AppQuery}
use psw_afdx.Registration.{
  Scheduler, QueryNode, App, Registry, has_app, add_query, unlink_query, unlink_app, find_node,
  register_query, unregister_query, unregister_application, unschedule_all, serve_scheduler_query,
}
use psw_afdx.Registration.Nodes.{
  nodes, task_of, Distinct, task_of-insert, Distinct-insert, Distinct-delete, add_query-nodes,
  unlink_query-nodes, unlink_app-nodes, nodes-live,
}
use psw_afdx.Registration.Apps.{
  has_app-add_query, has_app-unlink_query, has_app-unlink_app-exact, Apart, add_query-Apart,
  unlink_query-Apart, unlink_app-none, unlink_app-Apart,
}

known_app :
    (apps : List App) (fd k : ℕ)
    → has_app apps fd ≡ true
    → has_app apps k ≡ (if fd == k then true else has_app apps k)
known_app apps fd k known = ground (arith, ==_iff fd k)

missing_app :
    (apps : List App) (fd k : ℕ)
    → has_app apps fd ≡ false
    → has_app apps k ≡ (if fd == k then false else has_app apps k)
missing_app apps fd k missing = ground arith

module _ {S : Type 0} (scheduler : Scheduler S) where
  -- The tasks of a scheduler are those of the nodes, each with a handler of its own.
  pub record Serves (sched : S) (qs : List QueryNode) : Type 0 where
    pub valid : scheduler.IsValid sched
    pub tasks : (k : ℕ) → scheduler.task sched k ≡ task_of qs k
    pub distinct : Distinct qs

  -- The tasks are those of the registered queries, and no two applications share a descriptor.
  abbrev pub IsConsistent : Registry S → Type 0
  IsConsistent r = Serves r.sched (nodes r.apps) × Apart r.apps

  schedule-Serves :
      (s s' : S) (xs ys : List QueryNode) (q : QueryNode) (interval : ℕ)
      → Serves s (xs ++ ys)
      → scheduler.schedule s q.addr interval ≡ some (q.handler, s')
      → Serves s' (xs ++ (q ∷ ys))
  schedule-Serves s s' xs ys q interval v e =
      let (valid, new, tasks) = scheduler.schedule-task s s' q.addr interval q.handler v.valid e in
      let fresh : task_of (xs ++ ys) q.handler ≡ none = sym (v.tasks q.handler) ∙ new in
      record {
        valid = valid;
        tasks = λ k. ground (arith, tasks k, v.tasks k, task_of-insert xs ys q k fresh);
        distinct = Distinct-insert xs ys q fresh v.distinct;
      }

  unschedule-Serves :
      (s : S) (xs ys : List QueryNode) (q : QueryNode)
      → Serves s (xs ++ (q ∷ ys))
      → (s' : S) × (scheduler.unschedule s q.handler ≡ some s') × Serves s' (xs ++ ys)
  unschedule-Serves s xs ys q v =
      let (distinct, gone) = Distinct-delete xs ys q v.distinct in
      let at : scheduler.task s q.handler ≡ some q.addr =
        ground (arith, v.tasks q.handler, task_of-insert xs ys q q.handler gone) in
      let (s', is, valid, tasks) = scheduler.unschedule-task s q.addr q.handler v.valid at in
      (
        s',
        is,
        record {
          valid = valid;
          tasks = λ k. ground (arith, tasks k, v.tasks k, task_of-insert xs ys q k gone, gone);
          distinct = distinct;
        },
      )

  unschedule_all-Serves :
      (s : S) (xs qs ys : List QueryNode)
      → Serves s (xs ++ (qs ++ ys))
      → (s' : S) × (unschedule_all scheduler s qs ≡ some s') × Serves s' (xs ++ ys)
  unschedule_all-Serves s xs [] ys v = (s, refl, v)
  unschedule_all-Serves s xs (q ∷ qs) ys v =
      let (s1, is1, v1) = unschedule-Serves s xs (qs ++ ys) q v in
      let (s2, is2, v2) = unschedule_all-Serves s1 xs qs ys v1 in (s2, rw is1 is2, v2)

  -- In a consistent registry, a task of the scheduler finds its node: it has not been freed.
  pub serve_scheduler_query-live :
      (r : Registry S) (h node : ℕ)
      → IsConsistent r
      → scheduler.task r.sched h ≡ some node
      → (fd : ℕ) × (query : AppQuery) × (serve_scheduler_query r.apps node ≡ some (fd, query))
  unfolding serve_scheduler_query
  serve_scheduler_query-live r h node v e = elim (Option-cases (find_node r.apps node)) [
    | inl freed ↦ let live = nodes-live r.apps h node (sym (v.0.tasks h) ∙ e) in absurd cc
    | inr ((fd, query), is) ↦ (fd, query, is)
  ]

  -- In a consistent registry and with memory for what is new, `register_query` has a result, which
  -- is consistent: the applications are those from before and the one with the descriptor, and
  -- there is one more task than before, that of the new node.
  pub register_query_lem :
      (r : Registry S) (s' : S) (fd interval addr h : ℕ) (query : AppQuery) (app_memory : Bool)
      → IsConsistent r
      → (if has_app r.apps fd then true else app_memory) ≡ true
      → scheduler.schedule r.sched addr interval ≡ some (h, s')
      → (r' : Registry S) × (register_query scheduler r fd query interval app_memory (some addr)
          ≡ some r')
        × IsConsistent r'
        × ((k : ℕ) → has_app r'.apps k ≡ (if fd == k then true else has_app r.apps k))
        × (scheduler.task r.sched h ≡ none)
        × ((k : ℕ)
            → scheduler.task r'.sched k ≡ (if k == h then some addr else scheduler.task r.sched k))
  unfolding register_query
  register_query_lem r s' fd interval addr h query app_memory v memory e =
      let (_, new, tasks) = scheduler.schedule-task r.sched s' addr interval h v.0.valid e in
      elim (Bool-cases (has_app r.apps fd)) [
        | inl known ↦ (
          _,
          rw (register_query, known, e) refl,
          added r.apps refl v.1 known,
          λ k. has_app-add_query r.apps fd k _ ∙ known_app r.apps fd k known,
          new,
          tasks,
        )
        | inr unknown ↦
            let ok : app_memory ≡ true = rw unknown at memory in
            let apps : List App = record { fd = fd; queries = [] } ∷ r.apps in
            (
              _,
              rw (register_query, unknown, ok, e) refl,
              added apps refl (unknown, v.1) (ground arith),
              λ k. has_app-add_query apps fd k _,
              new,
              tasks,
            )
      ]
    where
      added :
          (apps : List App)
          → nodes apps ≡ nodes r.apps
          → Apart apps
          → has_app apps fd ≡ true
          → IsConsistent (record {
            apps = add_query apps fd (record { addr = addr; query = query; handler = h });
            sched = s';
          })
      added apps same apart has =
          let q : QueryNode = record { addr = addr; query = query; handler = h } in
          let (xs, ys, before, after) = add_query-nodes apps fd q has in
          let v' : Serves r.sched (xs ++ ys) =
            subst (λ x. Serves r.sched x) (sym same ∙ before) v.0 in
          let kept = schedule-Serves r.sched s' xs ys q interval v' e in
          (subst (λ x. Serves s' x) (sym after) kept, add_query-Apart apps fd q apart)

  -- In a consistent registry, `unregister_query` has a result, whatever the descriptor and the
  -- request id are: it never gives the scheduler a handler that the scheduler does not have. The
  -- result is consistent, with the applications from before.
  pub unregister_query_lem :
      (r : Registry S) (fd req_id : ℕ)
      → IsConsistent r
      → (r' : Registry S) × (unregister_query scheduler r fd req_id ≡ some r')
        × IsConsistent r'
        × ((k : ℕ) → has_app r'.apps k ≡ has_app r.apps k)
  unfolding unregister_query
  unregister_query_lem r fd req_id v = elim (Option-cases (unlink_query r.apps fd req_id).0) [
    | inl missing ↦ (r, rw (unregister_query, missing) refl, v, λ k. refl)
    | inr (q, found) ↦
        let (xs, ys, before, after) = unlink_query-nodes r.apps fd req_id q found in
        let (s', is, v') = unschedule-Serves r.sched xs ys q (rw before at v.0) in
        (
          _,
          rw (unregister_query, found, is) refl,
          (subst (λ x. Serves s' x) (sym after) v', unlink_query-Apart r.apps fd req_id v.1),
          λ k. has_app-unlink_query r.apps fd req_id k,
        )
  ]

  -- In a consistent registry, `unregister_application` has a result, whatever the descriptor is: it
  -- never gives the scheduler a handler that the scheduler does not have. The result is consistent,
  -- with the applications from before without the one with the descriptor.
  pub unregister_application_lem :
      (r : Registry S) (fd : ℕ)
      → IsConsistent r
      → (r' : Registry S) × (unregister_application scheduler r fd ≡ some r')
        × IsConsistent r'
        × ((k : ℕ) → has_app r'.apps k ≡ (if fd == k then false else has_app r.apps k))
  unfolding unregister_application
  unregister_application_lem r fd v = elim (Option-cases (unlink_app r.apps fd).0) [
    | inl missing ↦ (
      r,
      rw (unregister_application, missing) refl,
      v,
      λ k. missing_app r.apps fd k (unlink_app-none r.apps fd missing),
    )
    | inr (a, found) ↦
        let (xs, ys, before, after) = unlink_app-nodes r.apps fd a found in
        let (s', is, v') = unschedule_all-Serves r.sched xs a.queries ys (rw before at v.0) in
        (
          _,
          rw (unregister_application, found, is) refl,
          (subst (λ x. Serves s' x) (sym after) v', (unlink_app-Apart r.apps fd v.1).0),
          λ k. has_app-unlink_app-exact r.apps fd k v.1,
        )
  ]
