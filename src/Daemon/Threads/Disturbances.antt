-- ===== src/Daemon/Threads/Disturbances.antt =====
-- Which visits of src/application_manager.c can take away the task that the thread of
-- src/scheduler.c calls.
use psw_afdx.Base.{ℕ, ◌≡◌, ◌≢◌, sym, ap, ◌∙◌, none, some, inl, inr, ◌⊎◌}
use psw_afdx.Protocol.{AppQuery, AppMsg, msg_type_unregister}
use psw_afdx.Sched.Time.{Timespec}
use psw_afdx.Sched.Heap.{Ptr, null, Node, Memory, Sched}
use psw_afdx.Registration.{Scheduler, Registry}
use psw_afdx.Registration.Owners.{query_of}
use psw_afdx.Registration.Others.{register_query-task}
use psw_afdx.Manager.{message, Answers, Manager, handle_client, drop_client}
use psw_afdx.Manager.Edits.{
  closes, process-cases, handle_client-Edit, drop_client-registry, accept_client-registry,
  Edit-task,
}
use psw_afdx.Daemon.{Machine, task_arg}
use psw_afdx.Daemon.Link.{linked}
use psw_afdx.Daemon.Threads.{
  Pc, calling, serving, System, task_called, Quiet, ManagerStep, accepts, visits, drops, Reach,
}
use psw_afdx.Daemon.Threads.Sections.{IsCall}
use psw_afdx.Daemon.Threads.Safe.{IsSafe, task-owner}
use psw_afdx.Daemon.Threads.Safety.{Reach-IsSafe}

-- The visit is one of another client than that of the query that is called, or brings a message other
-- than `AFDX_MSG_TYPE_UNREGISTER`.
abbrev pub Spares : System → ℕ → Answers → Type 0
Spares v fd a =
    (h : Ptr) (g : ℕ) (q : AppQuery)
    → task_called v.pc ≡ some h
    → query_of v.manager.registry.apps h ≡ some (g, q)
    → (fd ≢ g) ⊎ ((msg : AppMsg) × (a.read ≡ message msg) × (msg.msg_type ≢ msg_type_unregister))

called_task :
    (m : Machine) (pc : Pc) (h : Ptr)
    → IsCall m pc
    → task_called pc ≡ some h
    → (arg : ℕ) × (task_arg m h ≡ some arg)
called_task m (calling now k) h (arg, at) is = let same : k ≡ h = cc in (arg, rw same at at)
called_task m (serving now k arg) h at is = let same : k ≡ h = cc in (arg, rw same at at)
called_task m _ h at is = absurd cc

module _ (malloc : Sched → Ptr) (junk : Node) (clock : Sched → Timespec) (action : ℕ)
    (fresh : (s : Sched) → malloc s ≢ null → s.memory (malloc s) ≡ none) (am_sockfd : ℕ) where
  handle_client-Quiet :
      (v : System) (fd : ℕ) (a : Answers) (m' : Manager Machine)
      → IsSafe malloc junk clock action fresh am_sockfd v
      → Spares v fd a
      → handle_client (linked malloc junk clock action fresh) am_sockfd v.intdata v.manager fd a
        ≡ some m'
      → Quiet v.pc v.manager m'
  unfolding handle_client
  handle_client-Quiet v fd a m' ok spares is h of_pc =
      let (arg, at) = called_task v.manager.registry.sched v.pc h ok.call of_pc in
      let (g, q, _, owner, _) = task-owner malloc junk clock action fresh am_sockfd v h arg ok at in
      elim (spares h g q of_pc owner) [
        | inl other ↦
            Edit-task scheduler am_sockfd v.intdata r m'.registry fd a.node h arg
              ok.sound.consistent at (g, q, owner, other)
              (handle_client-Edit scheduler am_sockfd v.intdata v.manager m' fd a is)
            ∙ sym at
        | inr (msg, brings, mild) ↦
            elim (process-cases scheduler am_sockfd v.intdata v.manager m' fd msg a
              (rw (handle_client, brings) at is)) [
                | inl same ↦ ap (λ x. task_arg x.sched h) same
                | inr (inl new) ↦
                    register_query-task scheduler r m'.registry fd msg.ms_to_update msg.query
                      a.app_memory a.node h arg ok.sound.consistent at new
                    ∙ sym at
                | inr (inr (unregister, _)) ↦ absurd (mild unregister)
              ]
      ]
    where
      scheduler : Scheduler Machine
      scheduler = linked malloc junk clock action fresh

      r : Registry Machine
      r = v.manager.registry

  -- A step of `application_manager` that is none of that client, but for a message as above.
  abbrev pub SparesCall :
      (v : System) {m' : Manager Machine}
      → ManagerStep malloc junk clock action fresh am_sockfd v.intdata v.manager m'
      → Type 0
  SparesCall v (accepts e c _ is) = Unit
  SparesCall v (visits fd a _ on other is) = Spares v fd a
  SparesCall v (drops fd _ other is) =
      (h : Ptr) (g : ℕ) (q : AppQuery)
      → task_called v.pc ≡ some h
      → query_of v.manager.registry.apps h ≡ some (g, q)
      → fd ≢ g

  drop_client-Quiet :
      (v : System) (fd : ℕ) (m' : Manager Machine)
      → IsSafe malloc junk clock action fresh am_sockfd v
      → ((h : Ptr) (g : ℕ) (q : AppQuery)
          → task_called v.pc ≡ some h
          → query_of v.manager.registry.apps h ≡ some (g, q)
          → fd ≢ g)
      → drop_client (linked malloc junk clock action fresh) am_sockfd v.intdata v.manager fd
        ≡ some m'
      → Quiet v.pc v.manager m'
  drop_client-Quiet v fd m' ok spares is h of_pc =
      let scheduler = linked malloc junk clock action fresh in
      let (arg, at) = called_task v.manager.registry.sched v.pc h ok.call of_pc in
      let (g, q, _, owner, _) = task-owner malloc junk clock action fresh am_sockfd v h arg ok at in
      let closed =
        closes m'.registry
          (drop_client-registry scheduler am_sockfd v.intdata v.manager m' fd is) in
      Edit-task scheduler am_sockfd v.intdata v.manager.registry m'.registry fd none h arg
        ok.sound.consistent at (g, q, owner, spares h g q of_pc owner) closed
      ∙ sym at

  -- After any steps of the threads, in which `malloc` gives only unused memory and no task was taken away
  -- while it was called, the only steps of `application_manager` that can take away the task that is
  -- called now are those of the client that registered its query: no `accept` does, no visit to a
  -- descriptor of another client, no visit with a message that is not an `AFDX_MSG_TYPE_UNREGISTER`, and no
  -- removal of another client.
  pub Reach-Quiet :
      (memory : Memory) (v : System) (m' : Manager Machine)
      → Reach malloc junk clock action fresh am_sockfd memory v
      → (s : ManagerStep malloc junk clock action fresh am_sockfd v.intdata v.manager m')
      → SparesCall v s
      → Quiet v.pc v.manager m'
  Reach-Quiet memory v m' r s spares = go s spares
    where
      ok : IsSafe malloc junk clock action fresh am_sockfd v
      ok = Reach-IsSafe malloc junk clock action fresh am_sockfd memory r

      go :
          (s : ManagerStep malloc junk clock action fresh am_sockfd v.intdata v.manager m')
          → SparesCall v s
          → Quiet v.pc v.manager m'
      go (accepts e c _ is) spares = λ h of_pc.
          ap (λ x. task_arg x.sched h)
            (accept_client-registry (linked malloc junk clock action fresh) am_sockfd v.intdata
              v.manager m' e c is)
      go (visits fd a _ on other is) spares = handle_client-Quiet v fd a m' ok spares is
      go (drops fd _ other is) spares = drop_client-Quiet v fd m' ok spares is
