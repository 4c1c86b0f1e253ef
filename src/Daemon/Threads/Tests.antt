-- ===== src/Daemon/Threads/Tests.antt =====
-- A run of the threads: a client connects and registers a query, and its task is called.
use psw_afdx.Base.{◌≡◌, refl, some, [], ◌∷◌, ◌++◌, arith, inr, pos, ℤ}
use psw_afdx.Protocol.{AppReply}
use psw_afdx.IntData.{initial_intdata}
use psw_afdx.Serve
use psw_afdx.Sched
use psw_afdx.Sched.Time
use psw_afdx.Sched.Time.{Timespec, tm_ge}
use psw_afdx.Sched.Heap.{null, Node, Memory, Sched, load}
use psw_afdx.Sched.Heap
use psw_afdx.Registration.{register_query}
use psw_afdx.Registration.Counting.{altitude}
use psw_afdx.Manager.{Manager, application_manager, accept_client, handle_client, process}
use psw_afdx.Daemon.{Machine, schedule}
use psw_afdx.Daemon.Link.{linked}
use psw_afdx.Daemon.Threads.{
  serving, bad_read, System, Quiet, accepts, visits, runs, manages, Reach, start, next, thread_step,
  start_system,
}
use psw_afdx.Daemon.Threads.Sample.{
  at_second, blank, one_node, one_node_fresh, nothing_stored, old_stack, sends, connects, no_call,
}
use psw_afdx.Daemon.Threads.Disturbances.{Reach-Quiet}
use psw_afdx.Daemon.Threads.Removal.{unregister-thread_step}
use psw_afdx.Daemon.Threads.Rounds.{ManagerRun, Reach-application_manager}

abbrev Running : Type 0
Running =
    (v : System) × Reach one_node blank (λ s. at_second 7) 40 one_node_fresh 3 nothing_stored v

abbrev connected : Running
unfolding accept_client
connected = (
  _,
  next start refl
      (manages _ (accepts connects (pos 0) _ refl) tt (λ h of_pc. absurd (no_call h of_pc))),
)

abbrev registered : Running
unfolding connected accept_client handle_client process register_query schedule Sched.schedule
    Heap.malloc load Heap.write Heap.modify
registered = (
  _,
  next connected.1 refl (
      manages _ (visits 4 (sends 2) _ refl (omega arith) refl) (λ n of_node. refl)
        (λ h of_pc. absurd (no_call h of_pc))),
)

-- The thread picks the task, and reads its node.
abbrev picked : Running
unfolding registered thread_step
picked = (_, next registered.1 refl (runs (at_second 9) old_stack (pos 12)))

abbrev called : Running
unfolding picked thread_step Sched.pick tm_ge Time.tm_incr Time.of_ms
called = (_, next picked.1 refl (runs (at_second 9) old_stack (pos 12)))

called_pc : called.0.pc ≡ serving (at_second 9) 500 1000
unfolding called Sched.pick tm_ge Time.tm_incr Time.of_ms thread_step Sched.read_call
called_pc = refl

-- The client asks for its data once more while the thread is in its call.
abbrev asked : Manager Machine
asked = record called.0.manager {
  replies = called.0.manager.replies ++ ((4, record old_stack { req_id = altitude.req_id }) ∷ []);
}

Reach-Quiet_example : Quiet called.0.pc called.0.manager asked
unfolding called Sched.pick tm_ge Time.tm_incr Time.of_ms thread_step Sched.read_call handle_client
    process Serve.serve_query
Reach-Quiet_example =
    Reach-Quiet one_node blank (λ s. at_second 7) 40 one_node_fresh 3 nothing_stored called.0 asked
      called.1 (visits 4 (sends 1) asked refl (omega arith) refl)
      (λ h g q of_pc owner. inr (_, refl, omega arith))

unregister-thread_step_example :
    (m' : Manager Machine) × (handle_client
        (linked one_node blank (λ s. at_second 7) 40 one_node_fresh)
        3
        called.0.intdata
        called.0.manager
        4
        (sends 3)
      ≡ some m')
    × ((later : Timespec) (stack : AppReply) (data_sent : ℤ)
        → (thread_step later stack data_sent (record called.0 { manager = m' })).pc ≡ bad_read)
unfolding called Sched.pick tm_ge Time.tm_incr Time.of_ms thread_step Sched.read_call
unregister-thread_step_example =
    unregister-thread_step one_node blank (λ s. at_second 7) 40 one_node_fresh 3 nothing_stored
      called.0 4 (sends 3) (record { msg_type = 3; ms_to_update = 500; query = altitude })
      (record { addr = 1000; query = altitude; handler = 500 }) called.1 refl refl refl refl

-- The first round of `application_manager`.
abbrev after_connects : Manager Machine
after_connects = connected.0.manager

Reach-application_manager_example :
    ManagerRun one_node blank
      (λ s. at_second 7)
      40
      one_node_fresh
      3
      initial_intdata
      (start_system one_node blank (λ s. at_second 7) 40 one_node_fresh 3 nothing_stored).manager
      after_connects
unfolding application_manager accept_client
Reach-application_manager_example =
    Reach-application_manager one_node blank (λ s. at_second 7) 40 one_node_fresh 3 nothing_stored
      (start_system one_node blank (λ s. at_second 7) 40 one_node_fresh 3 nothing_stored) connects
      after_connects start (λ k on. ground arith) refl
