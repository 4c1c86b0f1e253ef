-- ===== src/Daemon/Threads/Safe.antt =====
-- What every step of the thread of src/scheduler.c keeps in a state of the daemon, and what its calls
-- find.
use psw_afdx.Base.{ℕ, ◌≡◌, ◌≢◌, sym, ◌∙◌, true, none, some, List, [], ◌∷◌, ◌++◌, ℤ}
use psw_afdx.Protocol.{AppQuery, AppReply}
use psw_afdx.Serve.{Served, undefined, exited, sent}
use psw_afdx.Sched.Time.{Timespec}
use psw_afdx.Sched.Heap.{Ptr, null, Node, Sched, Cmd}
use psw_afdx.Registration.{serve_scheduler_query}
use psw_afdx.Registration.Nodes.{nodes}
use psw_afdx.Registration.Unique.{Unique}
use psw_afdx.Registration.Owners.{query_of, find_node-query_of}
use psw_afdx.Registration.Kept.{serve_scheduler_query-live}
use psw_afdx.Daemon.{Machine, task_arg}
use psw_afdx.Daemon.Link.{linked}
use psw_afdx.Daemon.Picks.{read_call-task}
use psw_afdx.Daemon.Steps.{IsSound, same_tasks-IsConsistent, find_node-has_app}
use psw_afdx.Daemon.Threads.{
  Pc, entering, sleeping, calling, serving, returning, ended, overread, bad_read, System,
  enter_round, resume_round, in_section, after_serve, thread_step,
}
use psw_afdx.Daemon.Threads.Sections.{IsCall, Section, enter_round-Section, resume_round-Section}

module _ (malloc : Sched → Ptr) (junk : Node) (clock : Sched → Timespec) (action : ℕ)
    (fresh : (s : Sched) → malloc s ≢ null → s.memory (malloc s) ≡ none) (am_sockfd : ℕ) where
  -- The registrations and the scheduler fit, no two nodes have one address, and the call that is
  -- under way is one of a task.
  pub record IsSafe (v : System) : Type 0 where
    pub sound : IsSound malloc junk clock action fresh am_sockfd v.manager
    pub unique : Unique (nodes v.manager.registry.apps)
    pub call : IsCall v.manager.registry.sched v.pc

  -- A change of the program counter, and of what has been sent.
  moved :
      (v : System) (pc : Pc) (replies : List (ℕ × AppReply))
      → IsSafe v
      → IsCall v.manager.registry.sched pc
      → IsSafe (record v { manager = record v.manager { replies = replies }; pc = pc })
  moved v pc replies ok call = record {
    sound = record {
      consistent = ok.sound.consistent;
      watched = ok.sound.watched;
      listening = ok.sound.listening;
      clients = ok.sound.clients;
    };
    unique = ok.unique;
    call = call;
  }

  in_section-IsSafe :
      (v : System) (section : ℕ → Cmd Pc)
      → IsSafe v
      → let m = v.manager.registry.sched in
        Section m (section m.bound m.sched) → IsSafe (in_section section v)
  in_section-IsSafe v section ok s =
      rw (in_section, s.is)
        record {
          sound = record {
            consistent =
                same_tasks-IsConsistent malloc junk clock action fresh am_sockfd v.manager.registry
                  s.sched ok.sound.consistent s.queued s.same_tasks;
            watched = ok.sound.watched;
            listening = ok.sound.listening;
            clients = ok.sound.clients;
          };
          unique = ok.unique;
          call = s.call;
        }

  -- A task finds the node of the registration that got its handler.
  pub task-owner :
      (v : System) (h : Ptr) (arg : ℕ)
      → IsSafe v
      → task_arg v.manager.registry.sched h ≡ some arg
      → (fd : ℕ) × (query : AppQuery) × (serve_scheduler_query v.manager.registry.apps arg
          ≡ some (fd, query))
        × (query_of v.manager.registry.apps h ≡ some (fd, query))
        × (v.manager.managed_fds fd ≡ true)
  unfolding serve_scheduler_query
  task-owner v h arg ok at =
      let r = v.manager.registry in
      let (fd, query, live) =
        serve_scheduler_query-live (linked malloc junk clock action fresh) r h arg
          ok.sound.consistent at in
      let owner =
        find_node-query_of r.apps h arg ok.unique (sym (ok.sound.consistent.0.tasks h) ∙ at) in
      (
        fd,
        query,
        live,
        sym owner ∙ live,
        ok.sound.clients fd (find_node-has_app r.apps arg fd query live),
      )

  after_serve-IsSafe :
      (v : System) (now : Timespec) (s : Served) → IsSafe v → IsSafe (after_serve v now s)
  after_serve-IsSafe v now undefined ok = moved v overread v.manager.replies ok tt
  after_serve-IsSafe v now (exited to r) ok = moved v ended v.manager.replies ok tt
  after_serve-IsSafe v now (sent to r) ok =
      moved v (returning now) (v.manager.replies ++ ((to, r) ∷ [])) ok tt

  pub thread_step-IsSafe :
      (v : System) (now : Timespec) (stack : AppReply) (data_sent : ℤ)
      → IsSafe v
      → IsSafe (thread_step now stack data_sent v)
  unfolding thread_step
  thread_step-IsSafe v later stack data_sent ok = go v.pc ok
    where
      m : Machine
      m = v.manager.registry.sched

      go :
          (pc : Pc)
          → IsSafe (record v { pc = pc })
          → IsSafe (thread_step later stack data_sent (record v { pc = pc }))
      go entering ok =
          in_section-IsSafe _ (λ fuel. enter_round fuel later) ok
            (enter_round-Section m later ok.sound.consistent.0.valid)
      go (sleeping rest) ok =
          in_section-IsSafe _ (λ fuel. enter_round fuel later) ok
            (enter_round-Section m later ok.sound.consistent.0.valid)
      go (calling now h) ok =
          let (arg, at) = ok.call in
          let (act, is) = read_call-task m h arg ok.sound.consistent.0.valid at in
          rw (thread_step, is) (moved _ (serving now h arg) v.manager.replies ok at)
      go (serving now h arg) ok =
          let (fd, query, live, _, _) = task-owner _ h arg ok ok.call in
          rw (thread_step, live) (after_serve-IsSafe _ now _ ok)
      go (returning now) ok =
          in_section-IsSafe _ (λ fuel. resume_round fuel now later) ok
            (resume_round-Section m now later ok.sound.consistent.0.valid)
      go ended ok = ok
      go overread ok = ok
      go bad_read ok = ok
