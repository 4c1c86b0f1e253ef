-- ===== src/Daemon/Race.antt =====
-- The thread of src/scheduler.c calls an action without `scheduler_mutex` and without
-- `registering_mutex`, and reads the node for the call then: what a client that unregisters its query
-- at that moment does to it.
use psw_afdx.Base.{ℕ, ◌<◌, ◌≡◌, ◌≢◌, refl, true, none, some, ◌∷◌, arith, length}
use psw_afdx.Sched.Time.{Timespec, tm_ge}
use psw_afdx.Sched.Heap.{Ptr, null, Node, Sched, load}
use psw_afdx.Sched.{dispatch}
use psw_afdx.Sched.Links.{Entry, Items, IsQueue}
use psw_afdx.Sched.Order.{insert}
use psw_afdx.Sched.Args.{arg_of, arg_of-has, arg_of-insert}
use psw_afdx.Sched.Dispatch.{again, dispatch-due}
use psw_afdx.Sched.Remove.{unschedule_lem}
use psw_afdx.Registration.{QueryNode, Registry, unlink_query, unregister_query}
use psw_afdx.Daemon.{Machine, unschedule}
use psw_afdx.Daemon.Link.{linked}

module _ (malloc : Sched → Ptr) (junk : Node) (clock : Sched → Timespec) (action : ℕ)
    (fresh : (s : Sched) → malloc s ≢ null → s.memory (malloc s) ≡ none) where
  -- If the first task is due, and its client unregisters the query after the scheduler thread has
  -- rescheduled the task and before it has read the task's node for the call, then that read is one
  -- through a pointer to freed memory.
  pub unregister_query-dispatch :
      (r : Registry Machine) (now : Timespec) (fuel fd req_id : ℕ) (q : QueryNode) (e : Entry)
      (xs : Items)
      → IsQueue r.sched.sched ((q.handler, e) ∷ xs)
      → tm_ge now e.next_time ≡ true
      → length xs < fuel
      → (unlink_query r.apps fd req_id).0 ≡ some q
      → (t : Sched) × (r' : Registry Machine) × (dispatch fuel now r.sched.sched
          ≡ some (some (e.action, e.arg), t))
        × (unregister_query
              (linked malloc junk clock action fresh)
              (record r { sched = record r.sched { sched = t } })
              fd
              req_id
            ≡ some r')
        × (load q.handler r'.sched.sched ≡ none)
  unfolding unregister_query unschedule load
  unregister_query-dispatch r now fuel fd req_id q e xs v is_due enough found =
      let p = q.handler in
      let (t, et, is, _) = dispatch-due fuel now r.sched.sched p e xs v is_due enough in
      let at : arg_of (insert (p, again now e) xs) p ≡ some e.arg =
        ground (arith, arg_of-insert p p (again now e) xs v.chain.1) in
      let (u, eu, _, gone, _) = unschedule_lem t p _ is (arg_of-has _ p e.arg at) in
      let r' : Registry Machine = record {
        apps = (unlink_query r.apps fd req_id).1;
        sched = record r.sched { sched = u };
      } in
      (t, r', et, rw (unregister_query, found, unschedule, eu) refl, ground arith)
