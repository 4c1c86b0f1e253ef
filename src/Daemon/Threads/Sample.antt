-- ===== src/Daemon/Threads/Sample.antt =====
-- Data for runs of the daemon: memory for one task, and a client of src/application_manager.c that
-- connects and registers a query.
use psw_afdx.Base.{ℕ, ◌≡◌, ◌≢◌, refl, true, false, none, some, ◌==◌, Option-cases, inl, inr, pos}
use psw_afdx.Protocol.{AppReply}
use psw_afdx.Sched.Time.{Timespec}
use psw_afdx.Sched.Heap.{Ptr, null, Node, Memory, Sched}
use psw_afdx.Registration.Counting.{altitude}
use psw_afdx.Manager.{message, Answers, Round}
use psw_afdx.Daemon.Threads.{entering, task_called}

abbrev pub at_second : ℕ → Timespec
at_second n = record { tv_sec = n; tv_nsec = 0 }

abbrev pub blank : Node
blank = record {
  interval = at_second 0;
  next_time = at_second 0;
  action = 0;
  arg = 0;
  next = null;
  prev = null;
}

-- Memory for one task.
abbrev pub one_node : Sched → Ptr
one_node s = elim (s.memory 500) [ none ↦ 500 | some n ↦ null ]

pub one_node_fresh : (s : Sched) → one_node s ≢ null → s.memory (one_node s) ≡ none
one_node_fresh s ne = elim (Option-cases (s.memory 500)) [
  | inl free ↦ rw (one_node, free) free
  | inr (n, used) ↦ absurd (ne (rw (one_node, used) refl))
]

abbrev pub nothing_stored : Memory
nothing_stored p = none

abbrev pub old_stack : AppReply
old_stack = record { req_id = 0; u8 = 0; i16 = pos 0; i32 = pos 0 }

-- The results for a client that sends a message of a type.
abbrev pub sends : ℕ → Answers
sends msg_type = record {
  read = message (record { msg_type = msg_type; ms_to_update = 500; query = altitude });
  stack = old_stack;
  written = pos 12;
  app_memory = true;
  node = some 1000;
}

abbrev pub connects : Round
connects = record {
  fdcnt = pos 1;
  rfds = λ k. 3 == k;
  xfds = λ k. false;
  accepted = pos 4;
  answers = λ k. sends 2;
}

-- No task is called before the first step of the thread.
pub no_call : (h : Ptr) → task_called entering ≡ some h → ⊥
no_call h of_pc = cc
