-- ===== src/Sched/Interval.antt =====
-- The time at which a task that `schedule` of src/scheduler.c makes is due.
use psw_afdx.Base.{ℕ, ◌+◌, ◌*◌, ◌<◌, ◌≡◌, ◌≢◌, refl, ap, ◌∙◌, Bool, none, some, length}
use psw_afdx.Sched.Time.{Timespec, of_ms, to_nsec, IsNormal, tm_incr-to_nsec, of_ms-to_nsec}
use psw_afdx.Sched.Heap.{Ptr, null, Node, Sched}
use psw_afdx.Sched.{schedule}
use psw_afdx.Sched.Links.{Entry, Items, IsQueue}
use psw_afdx.Sched.Order.{insert}
use psw_afdx.Sched.Schedule.{new_entry, schedule_ts_lem}

-- With memory, and given more rounds than there are tasks, `schedule` puts a task into the queue that has
-- the given action and argument. Counted in nanoseconds, its interval is that of the milliseconds
-- that are given, and it is due this long after the time that the clock shows; both are normal times.
pub schedule-to_nsec :
    (fuel : ℕ) (fresh : Ptr) (junk : Node) (now : Timespec) (action arg ms : ℕ) (s : Sched)
    (xs : Items)
    → IsQueue s xs
    → fresh ≢ null
    → s.memory fresh ≡ none
    → length xs < fuel
    → (e : Entry) × (signalled : Bool) × (t : Sched) × (schedule fuel fresh junk now action arg ms s
        ≡ some (some (fresh, signalled), t))
      × IsQueue t (insert (fresh, e) xs)
      × (e.action ≡ action)
      × (e.arg ≡ arg)
      × (to_nsec e.interval ≡ ms * 1_000_000)
      × (to_nsec e.next_time ≡ to_nsec now + ms * 1_000_000)
      × IsNormal e.interval
      × IsNormal e.next_time
unfolding schedule
schedule-to_nsec fuel fresh junk now action arg ms s xs v ne unused enough =
    let (t, signalled, is, _, queue, _) =
      schedule_ts_lem fuel fresh junk now action arg (of_ms ms) s xs v ne unused enough in
    let (every, every_normal) = of_ms-to_nsec ms in
    let (due, due_normal) = tm_incr-to_nsec now (of_ms ms) in
    (
      new_entry now action arg (of_ms ms),
      signalled,
      t,
      is,
      queue,
      refl,
      refl,
      every,
      due ∙ ap (λ x. to_nsec now + x) every,
      every_normal,
      due_normal,
    )
