-- ===== src/Daemon/Threads.antt =====
-- The threads of the daemon at run time, in the steps in which they can interleave: the thread of
-- src/scheduler.c, with the call that it makes without a mutex, the visits of
-- src/application_manager.c to its descriptors, and the packets of src/elaboration_thread.c.
pub mod Sections
pub mod Safe
pub mod Safety
pub mod Sample
mod Tests
pub mod Rounds
pub mod Replies
pub mod Removal
pub mod Disturbances
use psw_afdx.Base.{ℕ, ◌≡◌, ◌≢◌, true, Bool, false, Option, none, some, List, [], ◌∷◌, ◌++◌, ℤ}
use psw_afdx.Protocol.{AfdxPacket, AppReply}
use psw_afdx.IntData.{IntData, initial_intdata}
use psw_afdx.Elaboration.{elaborate}
use psw_afdx.Serve.{Served, undefined, exited, sent, serve_query}
use psw_afdx.Sched.Time.{Timespec}
use psw_afdx.Sched.Heap.{Ptr, null, Node, Memory, Sched, Cmd, pure, ◌>>=◌}
use psw_afdx.Sched.{pick, read_call, Rest, rest_after}
use psw_afdx.Registration.{App, find_node, serve_scheduler_query}
use psw_afdx.Manager.{Answers, Round, Manager, accept_client, handle_client, drop_client}
use psw_afdx.Daemon.{Machine, task_arg}
use psw_afdx.Daemon.Link.{linked}
use psw_afdx.Daemon.Steps.{start_daemon}

-- Where the thread is in `scheduler_run`. `now` and `node` are its variables. It has `scheduler_mutex`
-- in none of these: what it does from one `pthread_mutex_lock`, or return of a wait, to the next
-- `pthread_mutex_unlock`, or call of a wait, is one step.
pub data Pc : Type 0 where
  entering : Pc
  sleeping : Rest → Pc
  -- The mutex is free, and `node->action` is not yet read.
  calling : (now : Timespec) → (node : Ptr) → Pc
  -- `serve_scheduler_query` is called with `node->data`, and has not yet read through it.
  serving : (now : Timespec) → (node : Ptr) → (arg : ℕ) → Pc
  -- The action is over, and the mutex is not yet taken.
  returning : (now : Timespec) → Pc
  -- `exit(1)`.
  ended : Pc
  -- A read behind the end of `intdata.engines`, and one through a pointer to freed memory.
  overread bad_read : Pc

abbrev pub is_running : Pc → Bool
is_running ended = false
is_running overread = false
is_running bad_read = false
is_running _ = true

pub record System : Type 0 where
  pub manager : Manager Machine
  pub intdata : IntData
  pub pc : Pc

-- A round of the outer loop, from its start with the mutex to the first call or wait.
unfoldable pub enter_round : ℕ → (now : Timespec) → Cmd Pc
enter_round fuel now = do
  picked ← pick fuel now
  elim picked [
    | none ↦ (do rest ← rest_after []; pure (sleeping rest))
    | some node ↦ pure (calling now node)
  ]

-- From the lock after a call: the inner loop goes on with the time of the round, and after it there is
-- a new round at once, since the last one did something.
unfoldable pub resume_round : ℕ → (now later : Timespec) → Cmd Pc
unfolding enter_round
resume_round fuel now later = do
  picked ← pick fuel now
  elim picked [ none ↦ enter_round fuel later | some node ↦ pure (calling now node) ]

-- A command on the scheduler's queue as a step of the system.
abbrev pub in_section : (ℕ → Cmd Pc) → System → System
in_section section v =
    let m = v.manager in
    let machine = m.registry.sched in
    elim (section machine.bound machine.sched) [
      | none ↦ record v { pc = bad_read }
      | some (pc, t) ↦ record v {
        manager = record m {
          registry = record m.registry { sched = record machine { sched = t } };
        };
        pc = pc;
      }
    ]

abbrev pub after_serve : System → (now : Timespec) → Served → System
after_serve v now undefined = record v { pc = overread }
after_serve v now (exited to r) = record v { pc = ended }
after_serve v now (sent to r) = record v {
  manager = record v.manager { replies = v.manager.replies ++ ((to, r) ∷ []) };
  pc = returning now;
}

-- A step of the thread. `clock` is what the clock shows if it is read, `stack` what the local variable
-- of `serve_query` holds, `data_sent` the result of its `write`. The tasks are all
-- `serve_scheduler_query`.
unfoldable pub thread_step : (clock : Timespec) → AppReply → (data_sent : ℤ) → System → System
unfolding enter_round resume_round
thread_step clock stack data_sent v = elim v.pc [
  | entering ↦ in_section (λ fuel. enter_round fuel clock) v
  | sleeping rest ↦ in_section (λ fuel. enter_round fuel clock) v
  | calling now node ↦ elim (read_call node v.manager.registry.sched.sched) [
    | none ↦ record v { pc = bad_read }
    | some ((_, arg), _) ↦ record v { pc = serving now node arg }
  ]
  | serving now node arg ↦ elim (serve_scheduler_query v.manager.registry.apps arg) [
    | none ↦ record v { pc = bad_read }
    | some (fd, query) ↦ after_serve v now (serve_query v.intdata stack data_sent fd query)
  ]
  | returning now ↦ in_section (λ fuel. resume_round fuel now clock) v
  | ended ↦ v
  | overread ↦ v
  | bad_read ↦ v
]

-- The task that the thread is about to call, or calls.
abbrev pub task_called : Pc → Option Ptr
task_called (calling now node) = some node
task_called (serving now node arg) = some node
task_called _ = none

-- That task is still there, with the same data.
abbrev pub Quiet : Pc → Manager Machine → Manager Machine → Type 0
Quiet pc m m' =
    (h : Ptr) → task_called pc ≡ some h → task_arg m'.registry.sched h ≡ task_arg m.registry.sched h

-- `malloc` gives memory for a node that is not in use.
abbrev pub Fresh : List App → Option ℕ → Type 0
Fresh apps node = (n : ℕ) → node ≡ some n → find_node apps n ≡ none

module _ (malloc : Sched → Ptr) (junk : Node) (clock : Sched → Timespec) (action : ℕ)
    (fresh : (s : Sched) → malloc s ≢ null → s.memory (malloc s) ≡ none) (am_sockfd : ℕ) where
  -- A step of `application_manager` in its round: `accept`, one descriptor that is ready, or one with an
  -- exception.
  pub data ManagerStep (d : IntData) (m : Manager Machine) : Manager Machine → Type 0 where
    accepts :
        (e : Round) (c : ℤ) (m' : Manager Machine)
        → accept_client (linked malloc junk clock action fresh) am_sockfd d m e ≡ some (c, m')
        → ManagerStep d m m'
    visits :
        (fd : ℕ) (a : Answers) (m' : Manager Machine)
        → m.managed_fds fd ≡ true
        → fd ≢ am_sockfd
        → handle_client (linked malloc junk clock action fresh) am_sockfd d m fd a ≡ some m'
        → ManagerStep d m m'
    drops :
        (fd : ℕ) (m' : Manager Machine)
        → fd ≢ am_sockfd
        → drop_client (linked malloc junk clock action fresh) am_sockfd d m fd ≡ some m'
        → ManagerStep d m m'

  -- The memory that the step gets is not in use.
  abbrev pub GetsFresh : {d : IntData} {m m' : Manager Machine} → ManagerStep d m m' → Type 0
  GetsFresh (accepts e c _ is) = Unit
  GetsFresh {m = m} (visits fd a _ on other is) = Fresh m.registry.apps a.node
  GetsFresh (drops fd _ other is) = Unit

  -- A step of any thread. That of `application_manager` leaves the task that is called alone.
  pub data Step (v : System) : System → Type 0 where
    runs :
        (now : Timespec) (stack : AppReply) (data_sent : ℤ)
        → Step v (thread_step now stack data_sent v)
    manages :
        (m' : Manager Machine)
        → (s : ManagerStep v.intdata v.manager m') → GetsFresh s
        → Quiet v.pc v.manager m'
        → Step v (record v { manager = m' })
    elaborates :
        (p : AfdxPacket) (time : ℕ) (d : IntData)
        → elaborate v.intdata p time ≡ some d
        → Step v (record v { intdata = d })

  abbrev pub start_system : Memory → System
  start_system memory = record {
    manager = start_daemon malloc junk clock action fresh am_sockfd memory;
    intdata = initial_intdata;
    pc = entering;
  }

  pub data Reach (memory : Memory) : System → Type 0 where
    start : Reach memory (start_system memory)
    next : {v w : System} → Reach memory v → is_running v.pc ≡ true → Step v w → Reach memory w
