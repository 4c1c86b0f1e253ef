-- ===== src/Daemon/Picks.antt =====
-- What the thread of src/scheduler.c does to the tasks of the daemon between a lock of
-- `scheduler_mutex` and the unlock before a call.
use psw_afdx.Base.{
  ℕ, ◌≤◌, ◌≡◌, refl, sym, ◌∙◌, Bool-cases, none, some, [], ◌∷◌, arith, inl, inr, ◌⊎◌, length,
}
use psw_afdx.Sched.Time.{Timespec, tm_ge}
use psw_afdx.Sched.Heap.{Ptr, null, Sched, load_lem}
use psw_afdx.Sched.{pick, read_call, dispatch}
use psw_afdx.Sched.Links.{Items, IsQueue}
use psw_afdx.Sched.Order.{insert, IsSorted, insert-IsSorted, length-insert}
use psw_afdx.Sched.Dispatch.{again, pick-nil, pick-early, pick-due}
use psw_afdx.Sched.Args.{arg_of, arg_of-load, arg_of-insert}
use psw_afdx.Daemon.{Machine, task_arg}
use psw_afdx.Daemon.Link.{Queued, task_arg_lem}

-- The task at `handler` is picked: it is one of the tasks, and they all keep their arguments.
pub record Picked (m m' : Machine) (handler : Ptr) : Type 0 where
  pub queued : Queued m'
  pub arg : ℕ
  pub from_task : task_arg m handler ≡ some arg
  pub same_tasks : (k : Ptr) → task_arg m' k ≡ task_arg m k

pub pick-cases :
    (m : Machine) (now : Timespec)
    → Queued m
    → (pick m.bound now m.sched ≡ some (none, m.sched))
      ⊎ ((h : Ptr) × (t : Sched) × (pick m.bound now m.sched ≡ some (some h, t))
          × Picked m (record m { sched = t }) h)
pick-cases m now v = cases v.items v.queue v.sorted v.bounded (task_arg_lem m v)
  where
    cases :
        (xs : Items)
        → IsQueue m.sched xs
        → IsSorted xs
        → length xs ≤ m.bound
        → ((k : Ptr) → task_arg m k ≡ arg_of xs k)
        → (pick m.bound now m.sched ≡ some (none, m.sched))
          ⊎ ((h : Ptr) × (t : Sched) × (pick m.bound now m.sched ≡ some (some h, t))
              × Picked m (record m { sched = t }) h)
    cases [] queue sorted few tasks = inl (pick-nil m.bound now m.sched queue)
    cases ((p, e) ∷ xs) queue sorted few tasks = elim (Bool-cases (tm_ge now e.next_time)) [
      | inr early ↦ inl (pick-early m.bound now m.sched p e xs queue early)
      | inl is_due ↦
          let (t, et, is, _) =
            pick-due m.bound now m.sched p e xs queue is_due (omega (arith, few)) in
          let m' : Machine = record m { sched = t } in
          let v' : Queued m' = record {
            items = insert (p, again now e) xs;
            queue = is;
            sorted = insert-IsSorted (p, again now e) xs sorted.1;
            bounded = omega (arith, few, length-insert (p, again now e) xs);
          } in
          inr (
            p,
            t,
            et,
            record {
              queued = v';
              arg = e.arg;
              from_task = tasks p ∙ ground arith;
              same_tasks = λ k.
                  task_arg_lem m' v' k
                  ∙ arg_of-insert p k (again now e) xs queue.chain.1
                  ∙ sym (tasks k);
            },
          )
    ]

-- What the thread reads of the node of a task.
pub read_call-task :
    (m : Machine) (h : Ptr) (arg : ℕ)
    → Queued m
    → task_arg m h ≡ some arg
    → (action : ℕ) × (read_call h m.sched ≡ some ((action, arg), m.sched))
unfolding read_call
read_call-task m h arg v at =
    let in_list : arg_of v.items h ≡ some arg = sym (task_arg_lem m v h) ∙ at in
    let (n, ne, there, same) =
      arg_of-load m.sched.memory null null v.items h arg v.queue.chain in_list in
    (n.action, rw (load_lem m.sched h n ne there, same) refl)

-- Without another thread in between, the call is that of the task that is picked.
pub dispatch-cases :
    (m : Machine) (now : Timespec)
    → Queued m
    → (dispatch m.bound now m.sched ≡ some (none, m.sched))
      ⊎ ((action : ℕ) × (h : Ptr) × (t : Sched) × (called : Picked m (record m { sched = t }) h)
          × (dispatch m.bound now m.sched ≡ some (some (action, called.arg), t)))
unfolding dispatch
dispatch-cases m now v = elim (pick-cases m now v) [
  | inl idle ↦ inl (rw idle refl)
  | inr (h, t, is, picked) ↦
      let at = picked.same_tasks h ∙ picked.from_task in
      let (action, read) = read_call-task (record m { sched = t }) h picked.arg picked.queued at in
      inr (action, h, t, picked, rw (is, read) refl)
]
