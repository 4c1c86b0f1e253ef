-- ===== src/Afdx.antt =====
-- The daemon with its four threads: those of src/network_thread.c and src/elaboration_thread.c over the
-- queue of src/queue.c, and those of src/application_manager.c and src/scheduler.c over the
-- registrations of src/registration.c. They share the variable `intdata` of src/afdx.c.
pub mod Parts
pub mod Reports
pub mod Answers
mod Tests
use psw_afdx.Base.{ℕ, ◌≡◌, ◌≢◌, true, none, List, ℤ}
use psw_afdx.Protocol.{AppReply}
use psw_afdx.Queue.{NqNode}
use psw_afdx.Pipeline.{World, NetStep, ElabStep, start_world, is_defined}
use psw_afdx.Sched.Time.{Timespec}
use psw_afdx.Sched.Heap.{Ptr, null, Node, Memory, Sched}
use psw_afdx.Manager.{Manager}
use psw_afdx.Daemon.{Machine}
use psw_afdx.Daemon.Steps.{start_daemon}
use psw_afdx.Daemon.Threads.{
  Pc, entering, is_running, System, thread_step, ManagerStep, GetsFresh, Quiet,
}

pub record Afdx : Type 0 where
  pub world : World
  pub manager : Manager Machine
  pub pc : Pc

-- What the two threads that serve the applications see.
abbrev pub served : Afdx → System
served a = record { manager = a.manager; intdata = a.world.intdata; pc = a.pc }

-- A step of the thread of the scheduler.
abbrev pub schedule_step : (now : Timespec) → AppReply → (data_sent : ℤ) → Afdx → Afdx
schedule_step now stack data_sent a =
    let v = thread_step now stack data_sent (served a) in
    record a { manager = v.manager; pc = v.pc }

module _ (malloc : Sched → Ptr) (junk : Node) (clock : Sched → Timespec) (action : ℕ)
    (fresh : (s : Sched) → malloc s ≢ null → s.memory (malloc s) ≡ none) (am_sockfd : ℕ) where
  -- A step of any of the four threads.
  pub data Step (a : Afdx) : Afdx → Type 0 where
    receives : {w : World} → NetStep a.world w → Step a (record a { world = w })
    stores : {w : World} → ElabStep a.world w → Step a (record a { world = w })
    schedules :
        (now : Timespec) (stack : AppReply) (data_sent : ℤ)
        → Step a (schedule_step now stack data_sent a)
    manages :
        (m' : Manager Machine)
        → (s : ManagerStep malloc junk clock action fresh am_sockfd a.world.intdata a.manager m')
        → GetsFresh malloc junk clock action fresh am_sockfd s
        → Quiet a.pc a.manager m'
        → Step a (record a { manager = m' })

  abbrev pub start_afdx : List NqNode → Memory → Afdx
  start_afdx nodes memory = record {
    world = start_world nodes;
    manager = start_daemon malloc junk clock action fresh am_sockfd memory;
    pc = entering;
  }

  -- After a step with undefined behaviour, no thread has another one.
  pub data Reach (nodes : List NqNode) (memory : Memory) : Afdx → Type 0 where
    start : Reach nodes memory (start_afdx nodes memory)
    next :
        {a b : Afdx}
        → Reach nodes memory a
        → is_running a.pc ≡ true
        → is_defined a.world.elab ≡ true
        → Step a b
        → Reach nodes memory b
