-- ===== src/Sched/Round.antt =====
-- One round of the outer loop of `scheduler_run` in src/scheduler.c.
use psw_afdx.Base.{ℕ, ◌<◌, ◌≤◌, ◌≡◌, refl, sym, ◌∙◌, ap, some, List, [], ◌∷◌, length, All}
use psw_afdx.Sched.Time.{Timespec, IsNormal}
use psw_afdx.Sched.Heap.{null, Sched, load_lem}
use psw_afdx.Sched.{Rest, again, wait_until, wait, rest_after, scheduler_round}
use psw_afdx.Sched.Links.{node_of, first_or, Items, IsQueue, is_null, not_null}
use psw_afdx.Sched.Order.{NotBefore, IsSorted}
use psw_afdx.Sched.Due.{IsTimed, due, due_calls, Settled, run_due_lem}

-- How long the thread may rest, with the queue `ys`: until a time that no task comes before, or, if
-- there is no task, until it is woken.
abbrev pub Rests : List (ℕ × ℕ) → Items → Rest → Type 0
Rests (call ∷ calls) ys r = r ≡ again
Rests [] [] r = r ≡ wait
Rests [] (y ∷ ys) r = (r ≡ wait_until y.1.next_time) × All (NotBefore y.1.next_time) ys

rest_after_lem :
    (calls : List (ℕ × ℕ)) (s : Sched) (ys : Items)
    → IsQueue s ys
    → IsSorted ys
    → (r : Rest) × (rest_after calls s ≡ some (r, s)) × Rests calls ys r
rest_after_lem (call ∷ calls) s ys v sorted = (again, refl, refl)
rest_after_lem [] s [] v sorted = (wait, rw (is_null s.first v.first), refl)
rest_after_lem [] s ((p, e) ∷ ys) v sorted =
    let ne = λ (h : s.first ≡ null). v.chain.0 (sym v.first ∙ h) in
    let at = ap s.memory v.first ∙ v.chain.2 in
    (
      wait_until e.next_time,
      rw (not_null s.first ne, load_lem s s.first (node_of e null (first_or ys null)) ne at),
      (refl, sorted.0),
    )

-- Where the times are normal and every interval is positive, a round of the scheduler thread calls
-- each due task once, in the order of the queue, and puts it back at its next time. It sleeps only
-- if no task was due, and then until a time that no task comes before, or, if there is no task,
-- until it is woken.
pub scheduler_round_lem :
    (rounds fuel : ℕ) (now : Timespec) (s : Sched) (xs : Items)
    → IsNormal now
    → IsQueue s xs
    → IsSorted xs
    → All IsTimed xs
    → length xs ≤ fuel
    → due now xs < rounds
    → (t : Sched) × (r : Rest) × (scheduler_round rounds fuel now s
        ≡ some (some (due_calls now xs, r), t))
      × (done : Settled now xs t) × Rests (due_calls now xs) done.ys r
unfolding scheduler_round
scheduler_round_lem rounds fuel now s xs hn v sorted timed enough few =
    let (t, et, done) = run_due_lem rounds fuel now s xs hn v sorted timed enough few in
    let (r, er, rests) = rest_after_lem (due_calls now xs) t done.ys done.queue done.sorted in
    (t, r, rw (et, er), done, rests)
