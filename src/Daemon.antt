-- ===== src/Daemon.antt =====
-- The registration of src/registration.c over the scheduler of src/scheduler.c: `schedule` and
-- `unschedule` behind the interface that the registration uses.
pub mod Tasks
pub mod Link
pub mod Calls
pub mod Race
pub mod Picks
pub mod Steps
pub mod Threads
mod Tests
use psw_afdx.Base.{ℕ, zero, suc, ◌+◌, Option, none, some, ◌==◌, if◌then◌else◌}
use psw_afdx.Sched.Time.{Timespec}
use psw_afdx.Sched.Heap.{Ptr, null, Node, Memory, Sched}
use psw_afdx.Sched

-- The state of the scheduler. `bound` is no part of the program: it is not below the number of nodes,
-- and more than `bound` rounds are enough for the loop of `insert_node`.
pub record Machine : Type 0 where
  pub sched : Sched
  pub bound : ℕ

-- The argument of the task at an address of the list, `none` if the address is none of the list's.
abbrev pub find_arg : ℕ → Memory → (node target : Ptr) → Option ℕ
find_arg zero memory node target = none
find_arg (suc k) memory node target = if node == null then none else elim (memory node) [
  | none ↦ none
  | some n ↦ if target == node then some n.arg else find_arg k memory n.next target
]

abbrev pub task_arg : Machine → Ptr → Option ℕ
task_arg m h = find_arg (m.bound + 1) m.sched.memory m.sched.first h

-- `malloc` and the clock: what they give depends on the memory and on the time of the call. `action`
-- is the address of `serve_scheduler_query`.
module _ (malloc : Sched → Ptr) (junk : Node) (clock : Sched → Timespec) (action : ℕ) where
  -- `schedule`, on behalf of `register_query`. `none`: there is no memory, and the process exits.
  unfoldable pub schedule : Machine → ℕ → ℕ → Option (Ptr × Machine)
  schedule m arg interval =
      let s = m.sched in
      elim (Sched.schedule (m.bound + 1) (malloc s) junk (clock s) action arg interval s) [
        | none ↦ none
        | some (none, t) ↦ none
        | some (some (handler, signalled), t) ↦
            some (handler, record { sched = t; bound = m.bound + 1 })
      ]

-- `unschedule`. `none`: undefined.
unfoldable pub unschedule : Machine → Ptr → Option Machine
unschedule m handler = elim (Sched.unschedule handler m.sched) [
  | none ↦ none
  | some (_, t) ↦ some (record m { sched = t })
]
