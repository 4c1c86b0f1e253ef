-- ===== src/Sched.antt =====
-- src/scheduler.c: the queue of timed tasks, a doubly linked list on the heap. The statics `first`
-- and `last` and the heap are the state; each function that the caller runs under
-- `scheduler_mutex` is a command on it.
pub mod Time
pub mod Heap
pub mod Links
pub mod Relink
pub mod Place
pub mod Order
pub mod Args
pub mod Insert
pub mod Remove
pub mod Schedule
pub mod Interval
pub mod Dispatch
pub mod Due
pub mod Livelock
pub mod Round
pub mod Fifo
mod Tests
use psw_afdx.Base.{
  ℕ, zero, suc, ◌+◌, ◌≡◌, Bool, true, false, not, Option, none, some, List, [], ◌∷◌, ◌==◌,
  if◌then◌else◌,
}
use mathlib.Core.Option
use psw_afdx.Sched.Time.{Timespec, tm_ge, tm_incr, of_ms}
use psw_afdx.Sched.Heap.{
  Ptr, null, Node, Sched, Cmd, pure, ◌>>=◌, ◌>>◌, fail, get_first, get_last, set_first, set_last,
  load, malloc, free, set_prev, set_next, set_next_time,
}

-- `if (prev) prev->next = q; else first = q;`
unfoldable pub chain_next : Ptr → Ptr → Cmd (Unit {0})
chain_next prev q = if prev == null then set_first q else set_next prev q

-- `if (next) next->prev = q; else last = q;`
unfoldable pub chain_prev : Ptr → Ptr → Cmd (Unit {0})
chain_prev next q = if next == null then set_last q else set_prev next q

-- The `else` branch of the loop of `insert_node`: the new node goes before `next_node`.
unfoldable pub link_before : (node prev_node next_node : Ptr) → Cmd (Unit {0})
unfolding chain_next
link_before node prev_node next_node = do
  set_prev node prev_node
  set_next node next_node
  set_prev next_node node
  chain_next prev_node node

-- The `if` behind the loop: the new node goes to the end.
unfoldable pub link_last : (node : Ptr) → Cmd (Unit {0})
link_last node = do
  end ← get_last
  set_prev node end
  if end == null then pure tt else set_next end node
  set_last node
  set_next node null
  start ← get_first
  if start == null then set_first node else pure tt

-- The loop of `insert_node`, with a bound on its rounds.
unfoldable pub insert_loop : ℕ → Timespec → (node prev_node next_node : Ptr) → Cmd (Unit {0})
unfolding link_last link_before
insert_loop zero stime node prev_node next_node = fail
insert_loop (suc k) stime node prev_node next_node =
    if next_node == null then link_last node else do
      n ← load next_node
      if tm_ge stime n.next_time
          then insert_loop k stime node next_node n.next
          else link_before node prev_node next_node

unfoldable pub insert_node : ℕ → Ptr → Cmd (Unit {0})
unfolding insert_loop
insert_node fuel node = do
  n ← load node
  start ← get_first
  insert_loop fuel n.next_time node null start

unfoldable pub remove_node : Ptr → Cmd (Unit {0})
unfolding chain_next chain_prev
remove_node node = do
  n ← load node
  chain_next n.prev n.next
  n ← load node
  chain_prev n.next n.prev

-- The first node, or NULL.
unfoldable pub pop : Cmd Ptr
unfolding chain_prev
pop = do
  node ← get_first
  if node == null
      then pure null
      else do n ← load node; set_first n.next; chain_prev n.next null; pure node

-- `schedule_ts` with what the C library gives it: `fresh` is the result of `malloc`, with `junk` in
-- the new memory, and `now` is what the clock shows. The result is the node and whether the
-- condition is signalled, or `none` if there is no memory and the process exits.
unfoldable pub schedule_ts :
    ℕ
    → (fresh : Ptr) → (junk : Node) → (now : Timespec) → (action arg : ℕ) → (interval : Timespec)
    → Cmd (Option (Ptr × Bool))
unfolding insert_node
schedule_ts fuel fresh junk now action arg interval = if fresh == null then pure none else do
  malloc fresh (record junk {
    action = action;
    arg = arg;
    interval = interval;
    next_time = tm_incr now interval;
  })
  cur_first ← get_first
  insert_node fuel fresh
  new_first ← get_first
  pure (some (fresh, not (new_first == cur_first)))

-- `schedule`, with the interval in milliseconds.
unfoldable pub schedule :
    ℕ
    → (fresh : Ptr) → (junk : Node) → (now : Timespec) → (action arg interval : ℕ)
    → Cmd (Option (Ptr × Bool))
unfolding schedule_ts
schedule fuel fresh junk now action arg interval =
    schedule_ts fuel fresh junk now action arg (of_ms interval)

unfoldable pub unschedule : Ptr → Cmd (Unit {0})
unfolding remove_node
unschedule handler = do remove_node handler; free handler

-- When a task that ran at `now` runs next: one interval after its time, or, if that is not after
-- `now`, one interval after `now`.
unfoldable pub following : (now next_time interval : Timespec) → Timespec
following now next_time interval =
    let t = tm_incr next_time interval in if tm_ge now t then tm_incr now interval else t

-- The body of the inner loop of `scheduler_run` up to `pthread_mutex_unlock`: the first task goes back
-- into the queue at its next time. The result is its node.
unfoldable pub reschedule : ℕ → (now : Timespec) → Cmd Ptr
unfolding pop insert_node following
reschedule fuel now = do
  node ← pop
  n ← load node
  set_next_time node (following now n.next_time n.interval)
  insert_node fuel node
  pure node

-- The test of that loop, and the body up to there. `none`: the loop ends.
unfoldable pub pick : ℕ → (now : Timespec) → Cmd (Option Ptr)
unfolding reschedule
pick fuel now = do
  qfirst ← get_first
  if qfirst == null then pure none else do
    q ← load qfirst
    if tm_ge now q.next_time then (do node ← reschedule fuel now; pure (some node)) else pure none

-- What the thread reads of the node for the call, without the mutex: the action and its argument.
unfoldable pub read_call : Ptr → Cmd (ℕ × ℕ)
read_call node = do n ← load node; pure (n.action, n.arg)

-- One round of the inner loop, if no other thread comes in between: the call that it makes, or `none`
-- if the loop ends.
unfoldable pub dispatch : ℕ → (now : Timespec) → Cmd (Option (ℕ × ℕ))
unfolding pick read_call
dispatch fuel now = do
  picked ← pick fuel now
  elim picked [ none ↦ pure none | some node ↦ (do call ← read_call node; pure (some call)) ]

-- The inner loop of `scheduler_run`, with a bound on its rounds: the calls that it makes, in order,
-- or `none` if the rounds run out. No other thread changes the queue while an action runs.
unfoldable pub run_due : ℕ → ℕ → (now : Timespec) → Cmd (Option (List (ℕ × ℕ)))
unfolding dispatch
run_due zero fuel now = pure none
run_due (suc rounds) fuel now = do
  called ← dispatch fuel now
  elim called [
    | none ↦ pure (some [])
    | some call ↦ (do
      rest ← run_due rounds fuel now
      pure (Option.map (λ calls. call ∷ calls) rest))
  ]

-- How a round of the outer loop ends: at once, in a wait for the condition with a deadline, or in
-- one without.
pub data Rest : Type 0 where
  again : Rest
  wait_until : Timespec → Rest
  wait : Rest

abbrev pub rest_after : List (ℕ × ℕ) → Cmd Rest
rest_after (call ∷ calls) = pure again
rest_after [] = do
  qfirst ← get_first
  if qfirst == null then pure wait else do q ← load qfirst; pure (wait_until q.next_time)

-- One round of the outer loop of `scheduler_run`, at the time `now`.
unfoldable pub scheduler_round : ℕ → ℕ → (now : Timespec) → Cmd (Option (List (ℕ × ℕ) × Rest))
unfolding run_due
scheduler_round rounds fuel now = do
  result ← run_due rounds fuel now
  elim result [
    | none ↦ pure none
    | some calls ↦ (do rest ← rest_after calls; pure (some (calls, rest)))
  ]
