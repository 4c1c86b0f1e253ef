-- ===== src/Daemon/Steps.antt =====
-- The daemon at run time: rounds of the loop of src/application_manager.c and calls of the thread of
-- src/scheduler.c, in any order, over src/registration.c. Between the rescheduling of a task and its
-- call there is no other step; Daemon.Race is about that moment.
use psw_afdx.Base.{
  ℕ, ◌≡◌, ◌≢◌, refl, ◌∙◌, true, Option-cases, subst, none, some, List, [], ◌∷◌, arith, inl, inr,
  ◌⊎◌,
}
use psw_afdx.Protocol.{AppQuery}
use psw_afdx.IntData.{IntData, initial_intdata}
use psw_afdx.Sched.Time.{Timespec}
use psw_afdx.Sched.Heap.{Ptr, null, Node, Memory, Sched}
use psw_afdx.Sched.{dispatch}
use psw_afdx.Daemon.Picks.{dispatch-cases}
use psw_afdx.Registration.{App, find_query, find_node, has_app, Registry, serve_scheduler_query}
use psw_afdx.Registration.Kept.{IsConsistent, serve_scheduler_query-live}
use psw_afdx.Manager.{Manager, Round, application_manager, start_manager}
use psw_afdx.Manager.Clients.{IsOk, IsOk-data}
use psw_afdx.Manager.Kept.{application_manager-IsOk}
use psw_afdx.Daemon.{Machine, task_arg}
use psw_afdx.Daemon.Link.{Queued, linked}

pub find_node-has_app :
    (apps : List App) (node fd : ℕ) (query : AppQuery)
    → find_node apps node ≡ some (fd, query)
    → has_app apps fd ≡ true
find_node-has_app [] node fd query e = cc
find_node-has_app (a ∷ apps) node fd query e = elim (Option-cases (find_query a.queries node)) [
  | inl other ↦
      let rest = find_node-has_app apps node fd query (rw (find_node, other) at e) in ground arith
  | inr (q, found) ↦ let e' = rw (find_node, found) at e in ground arith
]

module _ (malloc : Sched → Ptr) (junk : Node) (clock : Sched → Timespec) (action : ℕ)
    (fresh : (s : Sched) → malloc s ≢ null → s.memory (malloc s) ≡ none) (am_sockfd : ℕ) where
  -- `manage`: a round in which `select` reports only descriptors that it was given. `call`: a round
  -- of the inner loop of `scheduler_run` at some time.
  pub data Step (m : Manager Machine) : Manager Machine → Type 0 where
    manage :
        (intdata : IntData) (e : Round) (m' : Manager Machine)
        → ((k : ℕ) → e.rfds k ≡ true → m.managed_fds k ≡ true)
        → application_manager (linked malloc junk clock action fresh) am_sockfd intdata m e
          ≡ some m'
        → Step m m'
    call :
        (now : Timespec) (act arg : ℕ) (t : Sched)
        → dispatch m.registry.sched.bound now m.registry.sched.sched ≡ some (some (act, arg), t)
        → Step m (record m {
          registry = record m.registry { sched = record m.registry.sched { sched = t } };
        })

  -- The daemon before the first round of both threads.
  abbrev pub start_daemon : Memory → Manager Machine
  start_daemon memory =
      start_manager
        (record {
          apps = [];
          sched = record {
            sched = record { memory = memory; first = null; last = null };
            bound = 0;
          };
        })
        am_sockfd

  pub data Reach (memory : Memory) : Manager Machine → Type 0 where
    start : Reach memory (start_daemon memory)
    next : {m m' : Manager Machine} → Reach memory m → Step m m' → Reach memory m'

  pub same_tasks-IsConsistent :
      (r : Registry Machine) (t : Sched)
      → IsConsistent (linked malloc junk clock action fresh) r
      → Queued (record r.sched { sched = t })
      → ((k : Ptr) → task_arg (record r.sched { sched = t }) k ≡ task_arg r.sched k)
      → IsConsistent
          (linked malloc junk clock action fresh)
          (record r { sched = record r.sched { sched = t } })
  same_tasks-IsConsistent r t v queued same =
      (record { valid = queued; tasks = λ k. same k ∙ v.0.tasks k; distinct = v.0.distinct }, v.1)

  abbrev pub IsSound : Manager Machine → Type 0
  IsSound m = IsOk (linked malloc junk clock action fresh) am_sockfd initial_intdata m

  pub start-IsSound : (memory : Memory) → IsSound (start_daemon memory)
  start-IsSound memory = record {
    consistent = (
      record {
        valid = record {
          items = [];
          queue = record { first = refl; last = refl; chain = tt };
          sorted = tt;
          bounded = omega arith;
        };
        tasks = λ k. refl;
        distinct = tt;
      },
      tt,
    );
    watched = λ k on. ground arith;
    listening = ground arith;
    clients = λ k on. cc;
  }

  Step-IsSound : (m m' : Manager Machine) → IsSound m → Step m m' → IsSound m'
  Step-IsSound m m' ok (manage intdata e _ reported is) =
      let scheduler = linked malloc junk clock action fresh in
      let here = IsOk-data scheduler am_sockfd initial_intdata intdata m ok in
      IsOk-data scheduler am_sockfd intdata initial_intdata m'
        (application_manager-IsOk scheduler am_sockfd intdata m m' e here reported is)
  Step-IsSound m m' ok (call now act arg t is) =
      elim (dispatch-cases m.registry.sched now ok.consistent.0.valid) [
        | inl idle ↦ absurd cc
        | inr (act1, h, t1, called, is1) ↦
            let same : t1 ≡ t = cc in
            record {
              consistent =
                  subst
                    (λ u.
                      IsConsistent (linked malloc junk clock action fresh)
                        (record m.registry { sched = record m.registry.sched { sched = u } }))
                    same
                    (same_tasks-IsConsistent m.registry t1 ok.consistent called.queued
                      called.same_tasks);
              watched = ok.watched;
              listening = ok.listening;
              clients = ok.clients;
            }
      ]

  Reach-IsSound : (memory : Memory) {m : Manager Machine} → Reach memory m → IsSound m
  Reach-IsSound memory start = start-IsSound memory
  Reach-IsSound memory (next {m} {m'} r s) = Step-IsSound m m' (Reach-IsSound memory r) s

  -- If `malloc` gives only unused memory and each action runs before any other step, then after
  -- any rounds of the application manager and calls of the scheduler, in any order from the start
  -- of the daemon, the next round of the inner loop of `scheduler_run` reads no bad pointer: it
  -- finds no task that is due, and changes nothing, or it calls with the node of a registered
  -- query, whose answer goes to a descriptor that the application manager watches.
  pub Reach-dispatch :
      (memory : Memory) (m : Manager Machine) (now : Timespec)
      → Reach memory m
      → let machine = m.registry.sched in
        (dispatch machine.bound now machine.sched ≡ some (none, machine.sched))
        ⊎ ((act : ℕ) × (node : ℕ) × (t : Sched) × (fd : ℕ) × (query : AppQuery) × (dispatch
                machine.bound now machine.sched
              ≡ some (some (act, node), t))
            × (serve_scheduler_query m.registry.apps node ≡ some (fd, query))
            × (m.managed_fds fd ≡ true))
  unfolding serve_scheduler_query
  Reach-dispatch memory m now r =
      let ok = Reach-IsSound memory r in
      elim (dispatch-cases m.registry.sched now ok.consistent.0.valid) [
        | inl idle ↦ inl idle
        | inr (act, h, t, called, is) ↦
            let (fd, query, live) =
              serve_scheduler_query-live (linked malloc junk clock action fresh) m.registry h
                called.arg ok.consistent called.from_task in
            inr (
              act,
              called.arg,
              t,
              fd,
              query,
              is,
              live,
              ok.clients fd (find_node-has_app m.registry.apps called.arg fd query live),
            )
      ]
