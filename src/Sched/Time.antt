-- ===== src/Sched/Time.antt =====
-- The times of src/scheduler.c. A `timespec_t` holds no negative number here: the clock shows none,
-- and the only caller of `schedule` passes a `uint16_t`.
use psw_afdx.Base.{
  ℕ, ◌+◌, ◌*◌, ◌/◌, ◌%◌, ◌<◌, ◌≡◌, Bool, true, false, ltb, leb, if◌then◌else◌, arith,
}

pub record Timespec : Type 0 where
  pub tv_sec : ℕ
  pub tv_nsec : ℕ

abbrev pub nsec_per_sec : ℕ
nsec_per_sec = 1_000_000_000

-- The macro `tm_ge`.
unfoldable pub tm_ge : Timespec → Timespec → Bool
tm_ge a b =
    if ltb b.tv_sec a.tv_sec
    then true
    else if ltb a.tv_sec b.tv_sec
    then false
    else leb b.tv_nsec a.tv_nsec

-- The macro `tm_incr`.
unfoldable pub tm_incr : Timespec → Timespec → Timespec
tm_incr v i =
    let nsecs = v.tv_nsec + i.tv_nsec in
    record { tv_sec = v.tv_sec + (i.tv_sec + nsecs / nsec_per_sec); tv_nsec = nsecs % nsec_per_sec }

-- The conversion in `schedule`.
unfoldable pub of_ms : ℕ → Timespec
of_ms interval = record { tv_sec = interval / 1000; tv_nsec = interval % 1000 * 1_000_000 }

abbrev pub IsNormal : Timespec → Type 0
IsNormal t = t.tv_nsec < nsec_per_sec

-- A time as a number of nanoseconds.
unfoldable pub to_nsec : Timespec → ℕ
to_nsec t = t.tv_sec * nsec_per_sec + t.tv_nsec

-- `tm_ge` is the order of the times as numbers of nanoseconds.
pub tm_ge-to_nsec :
    (a b : Timespec) → IsNormal a → IsNormal b → tm_ge a b ≡ leb (to_nsec b) (to_nsec a)
unfolding tm_ge to_nsec
tm_ge-to_nsec a b ha hb = ground arith

-- `tm_incr` adds numbers of nanoseconds, and its result is a normal time.
pub tm_incr-to_nsec :
    (v i : Timespec) → (to_nsec (tm_incr v i) ≡ to_nsec v + to_nsec i) × IsNormal (tm_incr v i)
unfolding tm_incr to_nsec
tm_incr-to_nsec v i = omega arith

-- `schedule` turns its milliseconds into a normal time of as many million nanoseconds.
pub of_ms-to_nsec : (n : ℕ) → (to_nsec (of_ms n) ≡ n * 1_000_000) × IsNormal (of_ms n)
unfolding of_ms to_nsec
of_ms-to_nsec n = omega arith
