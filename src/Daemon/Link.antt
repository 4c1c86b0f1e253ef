-- ===== src/Daemon/Link.antt =====
-- src/scheduler.c keeps what src/registration.c expects of a scheduler.
use psw_afdx.Base.{
  ℕ, ◌+◌, ◌≤◌, ◌≡◌, ◌≢◌, refl, sym, ap, subst, ◌∙◌, none, some, ◌==◌, ==_iff, if◌then◌else◌, arith,
  length, Bool-cases, inl, inr,
}
use psw_afdx.Sched.Time.{Timespec, of_ms}
use psw_afdx.Sched.Heap.{Ptr, null, Node, Sched}
use psw_afdx.Sched
use psw_afdx.Sched.Links.{Items, IsQueue, not_has_of_none}
use psw_afdx.Sched.Order.{insert, erase, IsSorted, insert-IsSorted, length-insert}
use psw_afdx.Sched.Schedule.{new_entry, schedule_ts_lem}
use psw_afdx.Sched.Remove.{unschedule_lem}
use psw_afdx.Registration.{Scheduler}
use psw_afdx.Daemon.{Machine, task_arg, schedule, unschedule}
use psw_afdx.Daemon.Tasks.{find_arg-arg_of}
use psw_afdx.Sched.Args.{
  arg_of, arg_of-has, arg_of-not_has, arg_of-insert, arg_of-erase, erase-IsSorted, length-erase,
}

-- The scheduler's list is sound, and in the order of the times.
pub record Queued (m : Machine) : Type 0 where
  pub items : Items
  pub queue : IsQueue m.sched items
  pub sorted : IsSorted items
  pub bounded : length items ≤ m.bound

pub task_arg_lem : (m : Machine) (v : Queued m) (h : Ptr) → task_arg m h ≡ arg_of v.items h
task_arg_lem m v h = rw v.queue.first (
    find_arg-arg_of (m.bound + 1) m.sched.memory null v.items h v.queue.chain
      (omega (arith, v.bounded)))

module _ (malloc : Sched → Ptr) (junk : Node) (clock : Sched → Timespec) (action : ℕ)
    (fresh : (s : Sched) → malloc s ≢ null → s.memory (malloc s) ≡ none) where
  -- With memory, `schedule` has a result: the handler is the new node, and its task is the one more.
  pub schedule_lem :
      (m : Machine) (node interval : ℕ)
      → Queued m
      → malloc m.sched ≢ null
      → let h = malloc m.sched in
        (m' : Machine) × (schedule malloc junk clock action m node interval ≡ some (h, m'))
        × Queued m'
        × (task_arg m h ≡ none)
        × ((k : ℕ) → task_arg m' k ≡ (if k == h then some node else task_arg m k))
  unfolding schedule Sched.schedule
  schedule_lem m node interval v ne =
      let s = m.sched in
      let h = malloc s in
      let e = new_entry (clock s) action node (of_ms interval) in
      let unused = fresh s ne in
      let (t, signalled, et, _, queue, _) =
        schedule_ts_lem (m.bound + 1) h junk (clock s) action node (of_ms interval) s v.items
          v.queue ne unused (omega (arith, v.bounded)) in
      let out = not_has_of_none s.memory null null v.items h v.queue.chain unused in
      let m' : Machine = record { sched = t; bound = m.bound + 1 } in
      let v' : Queued m' = record {
        items = insert (h, e) v.items;
        queue = queue;
        sorted = insert-IsSorted (h, e) v.items v.sorted;
        bounded = omega (arith, v.bounded, length-insert (h, e) v.items);
      } in
      (
        m',
        rw (schedule, et) refl,
        v',
        task_arg_lem m v h ∙ arg_of-not_has v.items h out,
        λ k.
            task_arg_lem m' v' k
            ∙ arg_of-insert h k e v.items out
            ∙ ap (λ x. if k == h then some node else x) (sym (task_arg_lem m v k)),
      )

  no_memory :
      (m : Machine) (node interval : ℕ)
      → malloc m.sched ≡ null
      → schedule malloc junk clock action m node interval ≡ none
  unfolding schedule Sched.schedule
  no_memory m node interval e = rw (schedule, e) refl

  pub schedule-task :
      (m m' : Machine) (node interval h : ℕ)
      → Queued m
      → schedule malloc junk clock action m node interval ≡ some (h, m')
      → Queued m'
        × (task_arg m h ≡ none)
        × ((k : ℕ) → task_arg m' k ≡ (if k == h then some node else task_arg m k))
  schedule-task m m' node interval h v is = elim (Bool-cases (malloc m.sched == null)) [
    | inl empty ↦
        let none_left = no_memory m node interval ((==_iff (malloc m.sched) null).0 empty) in
        absurd cc
    | inr given ↦
        let ne : malloc m.sched ≢ null = ground arith in
        let (m1, is1, v1, new, tasks) = schedule_lem m node interval v ne in
        let at : malloc m.sched ≡ h = cc in
        let same : m1 ≡ m' = cc in
        let new' : task_arg m h ≡ none = rw at at new in
        let tasks' : (k : ℕ) → task_arg m' k ≡ (if k == h then some node else task_arg m k) =
          λ k. rw (at, same) at (tasks k) in
        (subst (λ x. Queued x) same v1, new', tasks')
  ]

pub unschedule-task :
    (m : Machine) (node h : ℕ)
    → Queued m
    → task_arg m h ≡ some node
    → (m' : Machine) × (unschedule m h ≡ some m')
      × Queued m'
      × ((k : ℕ) → task_arg m' k ≡ (if k == h then none else task_arg m k))
unfolding unschedule
unschedule-task m node h v at =
    let has_it = arg_of-has v.items h node (sym (task_arg_lem m v h) ∙ at) in
    let (t, et, queue, _, _) = unschedule_lem m.sched h v.items v.queue has_it in
    let m' : Machine = record m { sched = t } in
    let v' : Queued m' = record {
      items = erase h v.items;
      queue = queue;
      sorted = erase-IsSorted h v.items v.sorted;
      bounded = omega (arith, v.bounded, length-erase h v.items);
    } in
    (
      m',
      rw (unschedule, et) refl,
      v',
      λ k.
          task_arg_lem m' v' k
          ∙ arg_of-erase m.sched.memory null null h k v.items v.queue.chain
          ∙ ap (λ x. if k == h then none else x) (sym (task_arg_lem m v k)),
    )

-- The scheduler of src/scheduler.c, for the registration.
abbrev pub linked :
    (malloc : Sched → Ptr)
    → Node
    → (Sched → Timespec)
    → ℕ
    → ((s : Sched) → malloc s ≢ null → s.memory (malloc s) ≡ none)
    → Scheduler Machine
linked malloc junk clock action fresh = record {
  schedule = schedule malloc junk clock action;
  unschedule = unschedule;
  IsValid = Queued;
  task = task_arg;
  schedule-task = schedule-task malloc junk clock action fresh;
  unschedule-task = unschedule-task;
}
