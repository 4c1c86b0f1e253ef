-- ===== src/Daemon/Threads/Removal.antt =====
-- A client of src/application_manager.c that unregisters the query whose task the thread of
-- src/scheduler.c calls.
use psw_afdx.Base.{ℕ, ◌≡◌, ◌≢◌, refl, sym, ap, ◌∙◌, none, some, ℤ, arith}
use psw_afdx.Protocol.{AppMsg, AppReply, msg_type_unregister}
use psw_afdx.Sched.Time.{Timespec}
use psw_afdx.Sched.Heap.{Ptr, null, Node, Memory, Sched, load}
use psw_afdx.Sched.{read_call}
use psw_afdx.Sched.Args.{arg_of-has}
use psw_afdx.Sched.Remove.{unschedule_lem}
use psw_afdx.Registration.{
  QueryNode, Registry, unlink_query, find_node, unregister_query, serve_scheduler_query,
}
use psw_afdx.Registration.Unique.{unlink_query-freed, unlink_query-task}
use psw_afdx.Manager.{message, Answers, Manager, process, handle_client}
use psw_afdx.Daemon.{Machine, task_arg, unschedule}
use psw_afdx.Daemon.Link.{linked, task_arg_lem}
use psw_afdx.Daemon.Threads.{
  Pc, calling, serving, bad_read, System, task_called, Reach, thread_step,
}
use psw_afdx.Daemon.Threads.Sections.{IsCall}
use psw_afdx.Daemon.Threads.Safe.{IsSafe}
use psw_afdx.Daemon.Threads.Safety.{Reach-IsSafe}

read_call-freed : (s : Sched) (k : Ptr) → s.memory k ≡ none → read_call k s ≡ none
unfolding read_call load
read_call-freed s k e = ground (arith, e)

module _ (malloc : Sched → Ptr) (junk : Node) (clock : Sched → Timespec) (action : ℕ)
    (fresh : (s : Sched) → malloc s ≢ null → s.memory (malloc s) ≡ none) (am_sockfd : ℕ) where
  -- What `unregister_query` frees.
  unregister_query-frees :
      (v : System) (fd req_id : ℕ) (q : QueryNode)
      → IsSafe malloc junk clock action fresh am_sockfd v
      → (unlink_query v.manager.registry.apps fd req_id).0 ≡ some q
      → (r' : Registry Machine) × (unregister_query
            (linked malloc junk clock action fresh)
            v.manager.registry
            fd
            req_id
          ≡ some r')
        × (r'.sched.sched.memory q.handler ≡ none)
        × (find_node r'.apps q.addr ≡ none)
        × (task_arg v.manager.registry.sched q.handler ≡ some q.addr)
  unfolding unregister_query unschedule
  unregister_query-frees v fd req_id q ok found =
      let r = v.manager.registry in
      let serves = ok.sound.consistent.0 in
      let at : task_arg r.sched q.handler ≡ some q.addr =
        serves.tasks q.handler ∙ unlink_query-task r.apps fd req_id q serves.distinct found in
      let listed =
        arg_of-has serves.valid.items q.handler q.addr
          (sym (task_arg_lem r.sched serves.valid q.handler) ∙ at) in
      let (u, eu, _, gone, _) =
        unschedule_lem r.sched.sched q.handler serves.valid.items serves.valid.queue listed in
      let r' : Registry Machine = record {
        apps = (unlink_query r.apps fd req_id).1;
        sched = record r.sched { sched = u };
      } in
      (
        r',
        rw (unregister_query, found, unschedule, eu) refl,
        gone,
        unlink_query-freed r.apps fd req_id q ok.unique found,
        at,
      )

  read_freed :
      (v : System) (h : Ptr) (m' : Manager Machine) (later : Timespec) (stack : AppReply)
      (data_sent : ℤ) (arg : ℕ)
      → task_called v.pc ≡ some h
      → IsCall v.manager.registry.sched v.pc
      → task_arg v.manager.registry.sched h ≡ some arg
      → m'.registry.sched.sched.memory h ≡ none
      → find_node m'.registry.apps arg ≡ none
      → (thread_step later stack data_sent (record v { manager = m' })).pc ≡ bad_read
  unfolding thread_step serve_scheduler_query
  read_freed v h m' later stack data_sent arg of_pc call at freed gone = go v.pc of_pc call
    where
      go :
          (pc : Pc)
          → task_called pc ≡ some h
          → IsCall v.manager.registry.sched pc
          → (thread_step later stack data_sent (record v { manager = m'; pc = pc })).pc ≡ bad_read
      go (calling now k) is call =
          let same : k ≡ h = cc in
          rw (thread_step, read_call-freed m'.registry.sched.sched k (rw same freed)) refl
      go (serving now k n) is call =
          let same : k ≡ h = cc in
          let same' : n ≡ arg = (let at' = rw same at call in cc) in
          rw
            (
              thread_step,
              serve_scheduler_query,
              ap (λ x. find_node m'.registry.apps x) same' ∙ gone,
            )
            refl
      go _ is call = absurd cc

  -- If, after any steps of the threads in which `malloc` gives only unused memory and no task was taken
  -- away while it was called, the thread of the scheduler has picked a task or is in its call, and the
  -- client unregisters the query of that task before the thread has read the node, then
  -- `application_manager` goes on, and the next step of the thread, whatever the system calls give, is a
  -- read through a pointer to freed memory.
  pub unregister-thread_step :
      (memory : Memory) (v : System) (fd : ℕ) (a : Answers) (msg : AppMsg) (q : QueryNode)
      → Reach malloc junk clock action fresh am_sockfd memory v
      → a.read ≡ message msg
      → msg.msg_type ≡ msg_type_unregister
      → (unlink_query v.manager.registry.apps fd msg.query.req_id).0 ≡ some q
      → task_called v.pc ≡ some q.handler
      → (m' : Manager Machine) × (handle_client
            (linked malloc junk clock action fresh)
            am_sockfd
            v.intdata
            v.manager
            fd
            a
          ≡ some m')
        × ((later : Timespec) (stack : AppReply) (data_sent : ℤ)
            → (thread_step later stack data_sent (record v { manager = m' })).pc ≡ bad_read)
  unfolding handle_client process
  unregister-thread_step memory v fd a msg q r brings unregister found of_pc =
      let ok = Reach-IsSafe malloc junk clock action fresh am_sockfd memory r in
      let (r', is, freed, gone, at) = unregister_query-frees v fd msg.query.req_id q ok found in
      let m' : Manager Machine = record v.manager { registry = r' } in
      (
        m',
        rw (handle_client, brings, process, unregister, is) refl,
        λ later stack data_sent.
            read_freed v q.handler m' later stack data_sent q.addr of_pc ok.call at freed gone,
      )
