-- ===== src/Daemon/Threads/Sections.antt =====
-- What a critical section of the thread of src/scheduler.c leaves behind: the tasks, and a call of one
-- of them or a wait.
use psw_afdx.Base.{ℕ, ◌≡◌, ◌≢◌, refl, ◌∙◌, sym, some, Option, [], ◌∷◌, inl, inr}
use psw_afdx.Sched.Time.{Timespec}
use psw_afdx.Sched.Heap.{Ptr, null, Sched, load_lem}
use psw_afdx.Sched.{Rest, rest_after, wait, wait_until}
use psw_afdx.Sched.Links.{Items, IsQueue, first_or, node_of, not_null, is_null}
use psw_afdx.Daemon.{Machine, task_arg}
use psw_afdx.Daemon.Link.{Queued}
use psw_afdx.Daemon.Picks.{pick-cases}
use psw_afdx.Daemon.Threads.{Pc, sleeping, calling, serving, bad_read, enter_round, resume_round}

-- The call that is under way is one of a task, with the task's argument, and there has been no read
-- through a pointer to freed memory.
abbrev pub IsCall : Machine → Pc → Type 0
IsCall m (calling now h) = (arg : ℕ) × (task_arg m h ≡ some arg)
IsCall m (serving now h arg) = task_arg m h ≡ some arg
IsCall m bad_read = ⊥
IsCall m _ = Unit

pub record Section (m : Machine) (result : Option (Pc × Sched)) : Type 0 where
  pub pc : Pc
  pub sched : Sched
  pub is : result ≡ some (pc, sched)
  pub queued : Queued (record m { sched = sched })
  pub same_tasks : (k : Ptr) → task_arg (record m { sched = sched }) k ≡ task_arg m k
  pub call : IsCall (record m { sched = sched }) pc

rest_lem : (m : Machine) → Queued m → (r : Rest) × (rest_after [] m.sched ≡ some (r, m.sched))
rest_lem m v = go v.items v.queue
  where
    go :
        (xs : Items) → IsQueue m.sched xs → (r : Rest) × (rest_after [] m.sched ≡ some (r, m.sched))
    go [] queue = (wait, rw (is_null m.sched.first queue.first) refl)
    go ((p, e) ∷ xs) queue =
        let ne : m.sched.first ≢ null = λ h. queue.chain.0 (sym queue.first ∙ h) in
        let at : m.sched.memory m.sched.first ≡ some (node_of e null (first_or xs null)) =
          rw queue.first queue.chain.2 in
        (
          wait_until e.next_time,
          rw (not_null m.sched.first ne, load_lem m.sched m.sched.first _ ne at) refl,
        )

pub enter_round-Section :
    (m : Machine) (now : Timespec) → Queued m → Section m (enter_round m.bound now m.sched)
unfolding enter_round
enter_round-Section m now v = elim (pick-cases m now v) [
  | inl idle ↦
      let (r, is) = rest_lem m v in
      record {
        pc = sleeping r;
        sched = m.sched;
        is = rw (idle, is) refl;
        queued = v;
        same_tasks = λ k. refl;
        call = tt;
      }
  | inr (h, t, is, picked) ↦ record {
    pc = calling now h;
    sched = t;
    is = rw is refl;
    queued = picked.queued;
    same_tasks = picked.same_tasks;
    call = (picked.arg, picked.same_tasks h ∙ picked.from_task);
  }
]

pub resume_round-Section :
    (m : Machine) (now later : Timespec)
    → Queued m
    → Section m (resume_round m.bound now later m.sched)
unfolding resume_round
resume_round-Section m now later v = elim (pick-cases m now v) [
  | inl idle ↦
      let s = enter_round-Section m later v in
      record {
        pc = s.pc;
        sched = s.sched;
        is = rw idle s.is;
        queued = s.queued;
        same_tasks = s.same_tasks;
        call = s.call;
      }
  | inr (h, t, is, picked) ↦ record {
    pc = calling now h;
    sched = t;
    is = rw is refl;
    queued = picked.queued;
    same_tasks = picked.same_tasks;
    call = (picked.arg, picked.same_tasks h ∙ picked.from_task);
  }
]
