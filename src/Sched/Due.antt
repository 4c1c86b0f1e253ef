-- ===== src/Sched/Due.antt =====
-- The loops of `scheduler_run` in src/scheduler.c: which tasks run, that the inner loop ends if
-- every interval is positive and does not if a due task has none, and how long the thread sleeps.
use mathlib.Core.List.{Perm}
use mathlib.Core.List.Perm
use psw_afdx.Base.{
  ℕ, zero, suc, ◌+◌, ◌<◌, ◌≤◌, ◌≡◌, refl, ◌∙◌, true, false, some, List, [], ◌∷◌, arith, length,
  Bool-cases, inl, inr, ap, leb, map, if◌then◌else◌, All,
}
use psw_afdx.Sched.Time.{
  Timespec, tm_ge, tm_incr, IsNormal, to_nsec, tm_ge-to_nsec, tm_incr-to_nsec,
}
use psw_afdx.Sched.Heap.{Ptr, Sched}
use psw_afdx.Sched.{following, run_due}
use psw_afdx.Sched.Links.{Entry, Items, IsQueue}
use psw_afdx.Sched.Order.{
  insert, insert-nil, insert-later, insert-sooner, map-insert-perm, length-insert, All-insert_lem,
  All-After, After, IsSorted, insert-IsSorted,
}
use psw_afdx.Sched.Args.{arg_of, arg_of-insert}
use psw_afdx.Sched.Dispatch.{again, dispatch-nil, dispatch-early, dispatch-due}

-- The tasks have normal times, and positive intervals.
abbrev pub IsTimed : Ptr × Entry → Type 0
IsTimed x = IsNormal x.1.next_time × IsNormal x.1.interval × (0 < to_nsec x.1.interval)

-- A rescheduled task is due after now; it is due one interval after its last time, or, if that has
-- gone by, one interval from now.
pub following_lem :
    (now t i : Timespec)
    → IsNormal now
    → IsNormal t
    → 0 < to_nsec i
    → (to_nsec now < to_nsec (following now t i))
      × IsNormal (following now t i)
      × (to_nsec (following now t i) ≡ (
          if leb (to_nsec t + to_nsec i) (to_nsec now)
          then to_nsec now + to_nsec i
          else to_nsec t + to_nsec i))
unfolding following
following_lem now t i hn ht hi =
    let (step, normal) = tm_incr-to_nsec t i in
    let (step', normal') = tm_incr-to_nsec now i in
    let test = tm_ge-to_nsec now (tm_incr t i) hn normal in
    (ground arith, ground arith, ground arith)

-- The number of tasks of a queue that are due.
unfoldable pub due : Timespec → Items → ℕ
due now [] = 0
due now ((p, e) ∷ xs) = (if tm_ge now e.next_time then 1 else 0) + due now xs

due-insert :
    (now : Timespec) (p : Ptr) (e : Entry) (xs : Items)
    → due now (insert (p, e) xs) ≡ due now ((p, e) ∷ xs)
unfolding due
due-insert now p e [] = rw insert-nil
due-insert now p e ((q, f) ∷ xs) = elim (Bool-cases (tm_ge e.next_time f.next_time)) [
  | inl later ↦ rw (insert-later p q e f xs later) (omega (arith, due-insert now p e xs))
  | inr sooner ↦ rw (insert-sooner p q e f xs sooner)
]

-- The calls of the due tasks, in the order of the queue.
unfoldable pub due_calls : Timespec → Items → List (ℕ × ℕ)
due_calls now [] = []
due_calls now ((p, e) ∷ xs) =
    if tm_ge now e.next_time then (e.action, e.arg) ∷ due_calls now xs else due_calls now xs

-- A task after it has run, if it was due.
unfoldable pub renew : Timespec → Ptr × Entry → Ptr × Entry
renew now (p, e) = if tm_ge now e.next_time then (p, again now e) else (p, e)

due_calls-insert :
    (now : Timespec) (p : Ptr) (e : Entry) (xs : Items)
    → tm_ge now e.next_time ≡ false
    → due_calls now (insert (p, e) xs) ≡ due_calls now xs
unfolding due_calls
due_calls-insert now p e [] h = rw (insert-nil, h)
due_calls-insert now p e ((q, f) ∷ xs) h = elim (Bool-cases (tm_ge e.next_time f.next_time)) [
  | inl later ↦ rw (insert-later p q e f xs later) (ground (arith, due_calls-insert now p e xs h))
  | inr sooner ↦ rw (insert-sooner p q e f xs sooner) (rw h)
]

-- With no due task there is nothing to call and nothing to change.
none_due :
    (now : Timespec) (xs : Items)
    → All (After now) xs
    → (due_calls now xs ≡ []) × (map (renew now) xs ≡ xs) × (due now xs ≡ 0)
unfolding due_calls renew due
none_due now [] all = (refl, refl, refl)
none_due now ((p, e) ∷ xs) (h, all) =
    let (calls, same, count) = none_due now xs all in
    (rw h calls, rw h (ap (λ r. (p, e) ∷ r) same), rw h (omega (arith, count)))

-- The queue in which the inner loop leaves the scheduler: the tasks are the same, each that was due
-- at its next time, they are in order, and none is due.
pub record Settled (now : Timespec) (xs : Items) (t : Sched) : Type 0 where
  pub ys : Items
  pub queue : IsQueue t ys
  pub sorted : IsSorted ys
  pub timed : All IsTimed ys
  pub same_tasks : Perm ys (map (renew now) xs)
  pub quiet : due now ys ≡ 0
  pub same_length : length ys ≡ length xs
  pub same_args : (k : Ptr) → arg_of ys k ≡ arg_of xs k

settled :
    (now : Timespec) (s : Sched) (xs : Items)
    → IsQueue s xs
    → IsSorted xs
    → All IsTimed xs
    → All (After now) xs
    → (due_calls now xs ≡ []) × Settled now xs s
settled now s xs v sorted timed all =
    let (calls, same, count) = none_due now xs all in
    (
      calls,
      record {
        ys = xs;
        queue = v;
        sorted = sorted;
        timed = timed;
        same_tasks = rw same (Perm.refl xs);
        quiet = count;
        same_length = refl;
        same_args = λ k. refl;
      },
    )

again-After :
    (now : Timespec) (p : Ptr) (e : Entry)
    → IsNormal now
    → IsTimed (p, e)
    → (tm_ge now (again now e).next_time ≡ false) × IsTimed (p, again now e)
again-After now p e hn (ht, hi, positive) =
    let (later, normal, value) = following_lem now e.next_time e.interval hn ht positive in
    let test = tm_ge-to_nsec now (again now e).next_time hn normal in
    (ground arith, (normal, hi, positive))

module _ (now : Timespec) (p : Ptr) (e : Entry) (xs : Items) (is_due : tm_ge now e.next_time ≡ true)
    (after : tm_ge now (again now e).next_time ≡ false) where
  due_calls-due :
      due_calls now ((p, e) ∷ xs) ≡ (e.action, e.arg) ∷ due_calls now (insert (p, again now e) xs)
  unfolding due_calls
  due_calls-due = rw (is_due, due_calls-insert now p (again now e) xs after)

  due-due : due now ((p, e) ∷ xs) ≡ suc (due now (insert (p, again now e) xs))
  unfolding due
  due-due = rw (is_due, due-insert now p (again now e) xs, after) (omega arith)

  renew-due : Perm (map (renew now) (insert (p, again now e) xs)) (map (renew now) ((p, e) ∷ xs))
  unfolding renew
  renew-due =
      let same : renew now (p, again now e) ≡ renew now (p, e) = rw (is_due, after) in
      rw (← same) (map-insert-perm (renew now) (p, again now e) xs)

-- Where the times are normal and every interval is positive, the inner loop ends after as many
-- rounds as there are due tasks: it has called each of them once, in the order of the queue, and
-- each is back in the queue at its next time.
pub run_due_lem :
    (rounds fuel : ℕ) (now : Timespec) (s : Sched) (xs : Items)
    → IsNormal now
    → IsQueue s xs
    → IsSorted xs
    → All IsTimed xs
    → length xs ≤ fuel
    → due now xs < rounds
    → (t : Sched) × (run_due rounds fuel now s ≡ some (some (due_calls now xs), t))
      × Settled now xs t
unfolding run_due
run_due_lem zero fuel now s xs hn v sorted timed enough few = absurd (omega arith)
run_due_lem (suc rounds) fuel now s [] hn v sorted timed enough few =
    let (calls, done) = settled now s [] v sorted timed tt in
    (s, rw (dispatch-nil fuel now s v, calls), done)
run_due_lem (suc rounds) fuel now s ((p, e) ∷ xs) hn v sorted timed enough few =
    elim (Bool-cases (tm_ge now e.next_time)) [
      | inl is_due ↦
          let (t, et, is, same) = dispatch-due fuel now s p e xs v is_due (omega arith) in
          let (after, timed') = again-After now p e hn timed.0 in
          let x : Ptr × Entry = (p, again now e) in
          let (u, eu, done) =
            run_due_lem rounds fuel now t (insert x xs) hn is (insert-IsSorted x xs sorted.1)
              (All-insert_lem IsTimed x xs timed' timed.1) (omega (arith, length-insert x xs))
              (omega (arith, due-due now p e xs is_due after)) in
          (
            u,
            rw (et, eu, due_calls-due now p e xs is_due after),
            record {
              ys = done.ys;
              queue = done.queue;
              sorted = done.sorted;
              timed = done.timed;
              same_tasks = Perm.trans done.same_tasks (renew-due now p e xs is_due after);
              quiet = done.quiet;
              same_length = done.same_length ∙ length-insert x xs;
              same_args = λ k. done.same_args k ∙ arg_of-insert p k (again now e) xs v.chain.1;
            },
          )
      | inr early ↦
          let all : All (After now) ((p, e) ∷ xs) =
            (early, All-After now e.next_time xs early sorted.0) in
          let (calls, done) = settled now s ((p, e) ∷ xs) v sorted timed all in
          (s, rw (dispatch-early fuel now s p e xs v early, calls), done)
    ]
