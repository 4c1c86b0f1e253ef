-- ===== src/Afdx/Tests.antt =====
-- A run of the whole daemon: a datagram comes in and is stored, and a client connects and registers a
-- query for the altitude.
use psw_afdx.Base.{ℕ, zero, suc, ◌≡◌, ◌≤◌, refl, some, List, [], ◌∷◌, ◌++◌, arith, pos, inl, length}
use psw_afdx.Protocol.{data_id_of, attitude_altitude}
use psw_afdx.IntData.{initial_intdata}
use psw_afdx.Elaboration.{elaborate}
use psw_afdx.Network.{receive_node}
use psw_afdx.Queue.{
  NqNode, next_nqnode_in, next_nqnode_out, dispose_last_nqnode, init_queue, sem_post,
}
use psw_afdx.Pipeline
use psw_afdx.Pipeline.{reserve, receive, signal, sleep, take, store, dispose, waiting}
use psw_afdx.Pipeline.Stored.{reserved, stored}
use psw_afdx.Serve.Values.{Value, value_of, put_value}
use psw_afdx.Sched
use psw_afdx.Sched.Time
use psw_afdx.Sched.Time.{tm_ge}
use psw_afdx.Sched.Heap
use psw_afdx.Sched.Links.{Entry}
use psw_afdx.Registration.{register_query}
use psw_afdx.Registration.Counting.{altitude}
use psw_afdx.Manager.{accept_client, handle_client, process}
use psw_afdx.Daemon.{schedule}
use psw_afdx.Daemon.Threads
use psw_afdx.Daemon.Threads.{accepts, visits}
use psw_afdx.Daemon.Threads.Sample.{
  at_second, blank, one_node, one_node_fresh, nothing_stored, old_stack, sends, connects, no_call,
}
use psw_afdx.Afdx.{Afdx, served, schedule_step, receives, stores, manages, Reach, start, next}
use psw_afdx.Afdx.Parts.{Reach-parts}
use psw_afdx.Afdx.Reports.{last_report}
use psw_afdx.Afdx.Answers.{Reach-answers}

-- An altitude of 200.
abbrev datagram : List ℕ
datagram = 1 ∷ 0 ∷ 0 ∷ 200 ∷ 0 ∷ 0 ∷ 0 ∷ 0 ∷ 0 ∷ 0 ∷ 0 ∷ 0 ∷ 0 ∷ 0 ∷ 0 ∷ []

abbrev unused : NqNode
unused = record { source = []; packet = datagram; last_update = 0 }

abbrev copies : ℕ → NqNode → List NqNode
copies zero n = []
copies (suc k) n = n ∷ copies k n

abbrev storage : List NqNode
storage = copies 100 unused

abbrev Running : Type 0
Running =
    (a : Afdx) × Reach one_node blank (λ s. at_second 7) 40 one_node_fresh 3 storage nothing_stored
      a

abbrev received : Running
unfolding next_nqnode_in init_queue
received = (
  _,
  next
      (next
        (next (next start refl refl (stores (sleep refl))) refl refl
          (receives (reserve 0 refl refl)))
        refl refl (receives (receive 0 unused datagram [] 7 (omega arith) refl refl)))
      refl refl (receives (signal refl)),
)

abbrev taken : Running
unfolding received next_nqnode_in init_queue next_nqnode_out sem_post
taken = (_, next received.1 refl refl (stores (take 0 _ refl refl)))

abbrev stored_packet : Running
unfolding taken elaborate receive_node
stored_packet = (_, next taken.1 refl refl (stores (store 0 _ _ refl refl refl)))

abbrev at_rest : Running
unfolding stored_packet dispose_last_nqnode
at_rest = (
  _,
  next (next stored_packet.1 refl refl (stores (dispose refl))) refl refl (stores (sleep refl)),
)

abbrev connected : Running
unfolding at_rest accept_client
connected = (
  _,
  next at_rest.1 refl refl
      (manages _ (accepts connects (pos 0) _ refl) tt (λ h of_pc. absurd (no_call h of_pc))),
)

abbrev registered : Running
unfolding connected accept_client handle_client process register_query schedule Sched.schedule
    Heap.malloc Heap.load Heap.write Heap.modify
registered = (
  _,
  next connected.1 refl refl (
      manages _ (visits 4 (sends 2) _ refl (omega arith) refl) (λ n of_node. refl)
        (λ h of_pc. absurd (no_call h of_pc))),
)

abbrev task : Entry
task = record {
  interval = record { tv_sec = 0; tv_nsec = 500000000 };
  next_time = record { tv_sec = 7; tv_nsec = 500000000 };
  action = 40;
  arg = 1000;
}

registered_parts :
    Pipeline.Reach storage registered.0.world
    × Threads.Reach one_node blank
        (λ s. at_second 7)
        40
        one_node_fresh
        3
        nothing_stored
        (served registered.0)
registered_parts =
    Reach-parts one_node blank (λ s. at_second 7) 40 one_node_fresh 3 storage nothing_stored
      registered.0 registered.1

Reach-answers_example :
    (told : List NqNode) × (untold : List NqNode) × (registered.0.world.received ≡ told ++ untold)
    × (length untold ≤ length (stored registered.0.world.queue (reserved registered.0.world.net)))
    × (v : Value) × (last_report told 0 attitude_altitude
          (value_of initial_intdata 0 attitude_altitude)
        ≡ some v)
    × ((schedule_step (at_second 9) old_stack (pos 12) (
          schedule_step
            (at_second 9)
            old_stack
            (pos 12)
            (schedule_step (at_second 9) old_stack (pos 12) registered.0))).manager.replies
        ≡ registered.0.manager.replies ++ ((4, put_value (record old_stack { req_id = 5 }) v) ∷ []))
unfolding registered Time.of_ms Time.tm_incr tm_ge data_id_of
Reach-answers_example =
    Reach-answers one_node blank (λ s. at_second 7) 40 one_node_fresh 3 storage nothing_stored
      registered.0 (at_second 9) (at_second 9) (at_second 9) old_stack old_stack old_stack (pos 12)
      (pos 12) (pos 12) 500 task [] 4 altitude attitude_altitude refl registered.1 refl (inl refl)
      (record { first = refl; last = refl; chain = (omega arith, refl, refl, tt) }) refl refl refl
      (λ engine. omega arith) refl
