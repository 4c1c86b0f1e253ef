-- ===== src/Daemon/Tests.antt =====
-- The daemon of src/registration.c and src/scheduler.c with one query, and a round of the scheduler.
use psw_afdx.Base.{ℕ, ◌≡◌, ◌≢◌, refl, none, some, List, [], ◌∷◌, ◌==◌, if◌then◌else◌, arith, All}
use psw_afdx.Protocol.{AppQuery}
use psw_afdx.Sched.Time.{Timespec}
use psw_afdx.Sched.Heap.{Ptr, null, Node, Sched}
use psw_afdx.Sched.{run_due}
use psw_afdx.Sched.Links.{Entry, node_of}
use psw_afdx.Sched.Time.{to_nsec, tm_ge}
use psw_afdx.Sched.Due.{due}
use psw_afdx.Registration.{Registry, serve_scheduler_query}
use psw_afdx.Registration.Nodes.{nodes, task_of}
use psw_afdx.Registration.Kept.{IsConsistent}
use psw_afdx.Registration.Counting.{altitude}
use psw_afdx.Daemon.{Machine, task_arg}
use psw_afdx.Daemon.Link.{Queued, linked}
use psw_afdx.Daemon.Calls.{run_due-live}

-- Memory that has run out.
abbrev exhausted : Sched → Ptr
exhausted s = null

abbrev at_second : ℕ → Timespec
at_second n = record { tv_sec = n; tv_nsec = 0 }

abbrev entry : Entry
entry = record { interval = at_second 2; next_time = at_second 7; action = 40; arg = 1000 }

abbrev one_task : Machine
one_task = record {
  sched = record {
    memory = λ p. if p == 500 then some (node_of entry null null) else none;
    first = 500;
    last = 500;
  };
  bound = 1;
}

abbrev one_task-Queued : Queued one_task
one_task-Queued = record {
  items = (500, entry) ∷ [];
  queue = record { first = refl; last = refl; chain = (omega arith, refl, refl, tt) };
  sorted = (tt, tt);
  bounded = omega arith;
}

exhausted_fresh : (s : Sched) → exhausted s ≢ null → s.memory (exhausted s) ≡ none
exhausted_fresh s ne = absurd (ne refl)

abbrev daemon : Registry Machine
daemon = record {
  apps =
      record { fd = 4; queries = record { addr = 1000; query = altitude; handler = 500 } ∷ [] }
      ∷ [];
  sched = one_task;
}

abbrev blank : Node
blank = node_of entry null null

daemon-tasks : (k : Ptr) → task_arg one_task k ≡ task_of (nodes daemon.apps) k
daemon-tasks k = ground arith

abbrev daemon-IsConsistent :
    IsConsistent (linked exhausted blank (λ s. at_second 9) 40 exhausted_fresh) daemon
daemon-IsConsistent =
    (record { valid = one_task-Queued; tasks = daemon-tasks; distinct = (refl, tt) }, (refl, tt))

run_due-live_example :
    (calls : List (ℕ × ℕ)) × (t : Sched) × (run_due 2 1 (at_second 9) one_task.sched
      ≡ some (some calls, t))
    × All
        (λ call.
          (fd : ℕ) × (query : AppQuery) × (serve_scheduler_query daemon.apps call.1
            ≡ some (fd, query)))
        calls
    × IsConsistent
        (linked exhausted blank (λ s. at_second 9) 40 exhausted_fresh)
        (record daemon { sched = record one_task { sched = t } })
unfolding due to_nsec tm_ge
run_due-live_example =
    run_due-live exhausted blank (λ s. at_second 9) 40 exhausted_fresh daemon (at_second 9) 2
      daemon-IsConsistent (omega arith) (omega arith) (omega arith)
