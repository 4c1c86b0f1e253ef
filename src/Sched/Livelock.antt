-- ===== src/Sched/Livelock.antt =====
-- A task without an interval and the inner loop of `scheduler_run` in src/scheduler.c: the loop
-- compares the tasks with a time that it read before it began.
use psw_afdx.Base.{
  ℕ, zero, suc, ◌+◌, ◌<◌, ◌≤◌, ◌≡◌, refl, true, ◌&&◌, none, some, [], ◌∷◌, ◌==◌, arith, length,
  Bool-cases, inl, inr, if◌then◌else◌, Bool, All,
}
use psw_afdx.Sched.Time.{
  Timespec, tm_ge, tm_incr, IsNormal, to_nsec, tm_ge-to_nsec, tm_incr-to_nsec,
}
use psw_afdx.Sched.Heap.{Ptr, Sched}
use psw_afdx.Sched.{following, run_due}
use psw_afdx.Sched.Links.{Entry, Items, IsQueue}
use psw_afdx.Sched.Order.{
  insert, insert-nil, insert-later, insert-sooner, length-insert, All-insert_lem, After, All-After,
  IsSorted, insert-IsSorted,
}
use psw_afdx.Sched.Dispatch.{again, dispatch-due}

-- A due task that asks to run without any pause.
abbrev pub is_restless : Timespec → Entry → Bool
is_restless now e = (e.interval.tv_sec == 0) && (e.interval.tv_nsec == 0) && tm_ge now e.next_time

-- The number of such tasks.
abbrev pub restless : Timespec → Items → ℕ
restless now [] = 0
restless now ((p, e) ∷ xs) = (if is_restless now e then 1 else 0) + restless now xs

restless-insert :
    (now : Timespec) (p : Ptr) (e : Entry) (xs : Items)
    → restless now (insert (p, e) xs) ≡ restless now ((p, e) ∷ xs)
restless-insert now p e [] = rw insert-nil
restless-insert now p e ((q, f) ∷ xs) = elim (Bool-cases (tm_ge e.next_time f.next_time)) [
  | inl later ↦ rw (insert-later p q e f xs later) (omega (arith, restless-insert now p e xs))
  | inr sooner ↦ rw (insert-sooner p q e f xs sooner)
]

-- The time of a task is normal.
abbrev pub HasNormalTime : Ptr × Entry → Type 0
HasNormalTime x = IsNormal x.1.next_time

no_pause : (now : Timespec) (e : Entry) → is_restless now e ≡ true → to_nsec e.interval ≡ 0
unfolding to_nsec
no_pause now e h = ground arith

is_due_of_restless :
    (now : Timespec) (e : Entry) → is_restless now e ≡ true → tm_ge now e.next_time ≡ true
is_due_of_restless now e h = ground arith

is_restless_of :
    (now t i : Timespec) (z n d : Bool)
    → z && n && d ≡ true
    → tm_ge now t ≡ true
    → z && n && tm_ge now t ≡ true
is_restless_of now t i z n d h k = ground arith

following_due :
    (now t i : Timespec)
    → IsNormal now
    → IsNormal t
    → to_nsec i ≡ 0
    → tm_ge now t ≡ true
    → tm_ge now (following now t i) ≡ true
unfolding following
following_due now t i hn ht zero_pause h =
    let (step, normal) = tm_incr-to_nsec t i in
    let (step', normal') = tm_incr-to_nsec now i in
    let test = tm_ge-to_nsec now (tm_incr t i) hn normal in
    let test' = tm_ge-to_nsec now (tm_incr now i) hn normal' in
    let due = tm_ge-to_nsec now t hn ht in ground arith

-- A restless task is restless again when it is back in the queue.
is_restless-again :
    (now : Timespec) (e : Entry)
    → IsNormal now
    → IsNormal e.next_time
    → is_restless now e ≡ true
    → is_restless now (again now e) ≡ true
is_restless-again now e hn ht h =
    is_restless_of now (again now e).next_time e.interval (e.interval.tv_sec == 0)
      (e.interval.tv_nsec == 0) (tm_ge now e.next_time) h
      (following_due now e.next_time e.interval hn ht (no_pause now e h)
        (is_due_of_restless now e h))

following-IsNormal : (now t i : Timespec) → IsNormal (following now t i)
unfolding following
following-IsNormal now t i = ground (arith, tm_incr-to_nsec t i, tm_incr-to_nsec now i)

restless-After : (now : Timespec) (xs : Items) → All (After now) xs → restless now xs ≡ 0
restless-After now [] all = refl
restless-After now ((p, e) ∷ xs) (h, all) = ground (arith, restless-After now xs all)

restless-cons :
    (now : Timespec) (p : Ptr) (e : Entry) (xs : Items)
    → IsNormal now
    → IsNormal e.next_time
    → 0 < restless now ((p, e) ∷ xs)
    → 0 < restless now (insert (p, again now e) xs)
restless-cons now p e xs hn ht h =
    rw (restless-insert now p (again now e) xs) (elim (Bool-cases (is_restless now e)) [
      | inl it ↦ rw (is_restless-again now e hn ht it) (omega arith)
      | inr other ↦ omega (arith, rw other at h)
    ])

-- If some due task has an interval of zero, the inner loop of the scheduler thread never ends: it
-- uses up any number of rounds.
pub run_due-livelock :
    (rounds fuel : ℕ) (now : Timespec) (s : Sched) (xs : Items)
    → IsNormal now
    → IsQueue s xs
    → IsSorted xs
    → All HasNormalTime xs
    → length xs ≤ fuel
    → 0 < restless now xs
    → (t : Sched) × (run_due rounds fuel now s ≡ some (none, t))
unfolding run_due
run_due-livelock zero fuel now s xs hn v sorted normal enough h = (s, refl)
run_due-livelock (suc rounds) fuel now s [] hn v sorted normal enough h = absurd (omega arith)
run_due-livelock (suc rounds) fuel now s ((p, e) ∷ xs) hn v sorted normal enough h =
    elim (Bool-cases (tm_ge now e.next_time)) [
      | inl is_due ↦
          let (t, et, is, same) = dispatch-due fuel now s p e xs v is_due (omega arith) in
          let x : Ptr × Entry = (p, again now e) in
          let (u, eu) =
            run_due-livelock rounds fuel now t (insert x xs) hn is (insert-IsSorted x xs sorted.1)
              (All-insert_lem HasNormalTime x xs (following-IsNormal now e.next_time e.interval)
                normal.1)
              (omega (arith, length-insert x xs)) (restless-cons now p e xs hn normal.0 h) in
          (u, rw (et, eu))
      | inr early ↦
          let all : All (After now) ((p, e) ∷ xs) =
            (early, All-After now e.next_time xs early sorted.0) in
          absurd (omega (arith, restless-After now ((p, e) ∷ xs) all))
    ]
