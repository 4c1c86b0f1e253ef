-- ===== src/Sched/Tests.antt =====
-- Runs of src/scheduler.c, and its theorems at concrete queues.
use psw_afdx.Base.{
  ℕ, ◌+◌, ◌*◌, ◌≡◌, refl, ◌↔◌, Bool, true, false, none, some, [], ◌∷◌, ◌++◌, arith, All,
}
use psw_afdx.Sched.Time.{Timespec, tm_ge, tm_incr, to_nsec, IsNormal}
use psw_afdx.Sched.Heap.{Ptr, null, Sched, write}
use psw_afdx.Sched.{
  insert_node, schedule, schedule_ts, unschedule, following, run_due, scheduler_round, Rest,
}
use psw_afdx.Sched.Links.{Entry, node_of, Items, IsQueue, SameOutside, first_or, has}
use psw_afdx.Sched.Order.{insert, erase, NotAfter, After, IsSorted}
use psw_afdx.Sched.Fifo.{insert_node-fifo}
use psw_afdx.Sched.Remove.{unschedule_lem}
use psw_afdx.Sched.Schedule.{new_entry, schedule_ts_lem}
use psw_afdx.Sched.Interval.{schedule-to_nsec}
use psw_afdx.Sched.Due.{IsTimed, due, due_calls, Settled, run_due_lem}
use psw_afdx.Sched.Livelock.{run_due-livelock}
use psw_afdx.Sched.Round.{Rests, scheduler_round_lem}

abbrev at : ℕ → Timespec
at t = record { tv_sec = t; tv_nsec = 0 }

-- A task with the address of its data, its interval and its time in seconds.
abbrev task : ℕ → ℕ → ℕ → Entry
task a i t = record { interval = at i; next_time = at t; action = 1000; arg = a }

-- Nodes 10, 20 and 30, due at 3, 5 and 9, and node 40, which is in no list.
abbrev tasks : Items
tasks = (10, task 1 2 3) ∷ (20, task 2 7 5) ∷ (30, task 3 1 9) ∷ []

abbrev three : Sched
three = record {
  memory =
      write
        (write
          (write (write (λ _. none) 10 (some (node_of (task 1 2 3) null 20))) 20
            (some (node_of (task 2 7 5) 10 30)))
          30 (some (node_of (task 3 1 9) 20 null)))
        40 (some (node_of (task 4 1 5) 7 7));
  first = 10;
  last = 30;
}

three-IsQueue : IsQueue three tasks
unfolding write
three-IsQueue = ground arith

tasks-IsSorted : IsSorted tasks
unfolding tm_ge
tasks-IsSorted = ground arith

tasks-IsTimed : All IsTimed tasks
unfolding to_nsec
tasks-IsTimed = omega arith

-- At second 6 the first two run; the first has missed its time at second 5 and waits from now on.
calls_at_6 : due_calls (at 6) tasks ≡ (1000, 1) ∷ (1000, 2) ∷ []
unfolding due_calls tm_ge
calls_at_6 = refl

reschedules : (following (at 6) (at 3) (at 2) ≡ at 8) × (following (at 6) (at 5) (at 7) ≡ at 12)
unfolding following tm_ge tm_incr
reschedules = (refl, refl)

-- The task of node 40 goes behind that of node 20, which is due at the same time.
insert-40 :
    insert (40, task 4 1 5) tasks
    ≡ (10, task 1 2 3) ∷ (20, task 2 7 5) ∷ (40, task 4 1 5) ∷ (30, task 3 1 9) ∷ []
unfolding insert tm_ge
insert-40 = refl

insert_node-fifo_example :
    (t : Sched) × (ys : Items) × (zs : Items) × (tasks ≡ ys ++ zs)
    × (insert_node 4 40 three ≡ some (tt, t))
    × IsQueue t (ys ++ ((40, task 4 1 5) ∷ zs))
    × All (NotAfter (at 5)) ys
    × All (After (at 5)) zs
    × IsSorted (ys ++ ((40, task 4 1 5) ∷ zs))
unfolding write
insert_node-fifo_example =
    insert_node-fifo 4 three tasks 40 (task 4 1 5) 7 7 three-IsQueue tasks-IsSorted (omega arith)
      refl refl (omega arith)

unschedule_lem_example :
    (t : Sched) × (unschedule 20 three ≡ some (tt, t))
    × IsQueue t (erase 20 tasks)
    × (t.memory 20 ≡ none)
    × ((a : Ptr) → has a tasks ≡ false → t.memory a ≡ three.memory a)
unschedule_lem_example = unschedule_lem three 20 tasks three-IsQueue refl

schedule_ts_lem_example :
    let e = new_entry (at 1) 1000 5 (at 1) in
    (t : Sched) × (signalled : Bool) × (schedule_ts 4 50
        (node_of (task 0 0 0) 1 2)
        (at 1)
        1000
        5
        (at 1)
        three
      ≡ some (some (50, signalled), t))
    × ((signalled ≡ true) ↔ (first_or (insert (50, e) tasks) null ≡ 50))
    × IsQueue t (insert (50, e) tasks)
    × SameOutside ((50, e) ∷ tasks) three.memory t.memory
unfolding write
schedule_ts_lem_example =
    schedule_ts_lem 4 50 (node_of (task 0 0 0) 1 2) (at 1) 1000 5 (at 1) three tasks three-IsQueue
      (omega arith) refl (omega arith)

run_due_lem_example :
    (t : Sched) × (run_due 4 3 (at 6) three ≡ some (some (due_calls (at 6) tasks), t))
    × Settled (at 6) tasks t
unfolding due tm_ge
run_due_lem_example =
    run_due_lem 4 3 (at 6) three tasks (omega arith) three-IsQueue tasks-IsSorted tasks-IsTimed
      (omega arith) (omega arith)

scheduler_round_lem_example :
    (t : Sched) × (r : Rest) × (scheduler_round 4 3 (at 6) three
      ≡ some (some (due_calls (at 6) tasks, r), t))
    × (done : Settled (at 6) tasks t) × Rests (due_calls (at 6) tasks) done.ys r
unfolding due tm_ge
scheduler_round_lem_example =
    scheduler_round_lem 4 3 (at 6) three tasks (omega arith) three-IsQueue tasks-IsSorted
      tasks-IsTimed (omega arith) (omega arith)

-- A client that registered a query with an interval of 0 milliseconds.
abbrev restless_tasks : Items
restless_tasks = (10, task 1 0 3) ∷ []

abbrev one : Sched
one = record {
  memory = write (λ _. none) 10 (some (node_of (task 1 0 3) null null));
  first = 10;
  last = 10;
}

one-IsQueue : IsQueue one restless_tasks
unfolding write
one-IsQueue = ground arith

run_due-livelock_example : (t : Sched) × (run_due 1000 1 (at 6) one ≡ some (none, t))
unfolding tm_ge
run_due-livelock_example =
    run_due-livelock 1000 1 (at 6) one restless_tasks (omega arith) one-IsQueue (tt, tt)
      (omega arith) (omega arith) (omega arith)

-- An interval of 1750 milliseconds at second 1.
schedule-to_nsec_example :
    (e : Entry) × (signalled : Bool) × (t : Sched) × (schedule 4 50
        (node_of (task 0 0 0) 1 2)
        (at 1)
        1000
        5
        1750
        three
      ≡ some (some (50, signalled), t))
    × IsQueue t (insert (50, e) tasks)
    × (e.action ≡ 1000)
    × (e.arg ≡ 5)
    × (to_nsec e.interval ≡ 1750 * 1_000_000)
    × (to_nsec e.next_time ≡ to_nsec (at 1) + 1750 * 1_000_000)
    × IsNormal e.interval
    × IsNormal e.next_time
unfolding write
schedule-to_nsec_example =
    schedule-to_nsec 4 50 (node_of (task 0 0 0) 1 2) (at 1) 1000 5 1750 three tasks three-IsQueue
      (omega arith) refl (omega arith)
