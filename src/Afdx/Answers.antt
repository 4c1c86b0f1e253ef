-- ===== src/Afdx/Answers.antt =====
-- From the datagrams to the clients: what the daemon sends for a periodic query.
use psw_afdx.Base.{
  ℕ, ◌≡◌, ◌≢◌, ap, ◌∙◌, true, false, none, some, List, [], ◌∷◌, ◌++◌, length, ◌≤◌, ◌<◌, ℤ,
  is_negative,
}
use psw_afdx.Protocol.{AppQuery, AppReply, DataId, data_id_of}
use psw_afdx.IntData.{initial_intdata, nr_engines}
use psw_afdx.Serve.Values.{Value, value_of, is_engine_data, put_value}
use psw_afdx.Queue.{NqNode, size_queue}
use psw_afdx.Pipeline.{is_defined}
use psw_afdx.Pipeline.Stored.{reserved, stored}
use psw_afdx.Sched.Time.{Timespec, tm_ge}
use psw_afdx.Sched.Heap.{Ptr, null, Node, Memory, Sched}
use psw_afdx.Sched.Links.{Entry, Items, IsQueue}
use psw_afdx.Registration.Owners.{query_of}
use psw_afdx.Daemon.Threads.{thread_step}
use psw_afdx.Daemon.Threads.Replies.{IsWaiting, Reach-replies}
use psw_afdx.Afdx.{Afdx, served, schedule_step, Reach}
use psw_afdx.Afdx.Parts.{served-schedule_step, Reach-parts}
use psw_afdx.Afdx.Reports.{last_report, last_report-exists, elaborate_all-value, told_lem}

served-three :
    (now later last : Timespec) (s1 s2 s3 : AppReply) (w1 w2 w3 : ℤ) (a : Afdx)
    → served (schedule_step last s3 w3 (schedule_step later s2 w2 (schedule_step now s1 w1 a)))
      ≡ thread_step last s3 w3 (thread_step later s2 w2 (thread_step now s1 w1 (served a)))
served-three now later last s1 s2 s3 w1 w2 w3 a =
    let b = schedule_step now s1 w1 a in
    let c = schedule_step later s2 w2 b in
    served-schedule_step last s3 w3 c
    ∙ ap (thread_step last s3 w3) (
        served-schedule_step later s2 w2 b
        ∙ ap (thread_step later s2 w2) (served-schedule_step now s1 w1 a))

module _ (malloc : Sched → Ptr) (junk : Node) (clock : Sched → Timespec) (action : ℕ)
    (fresh : (s : Sched) → malloc s ≢ null → s.memory (malloc s) ≡ none) (am_sockfd : ℕ) where
  -- The whole daemon, from a start with 100 nodes and after any steps of its four threads, in which
  -- `malloc` gives only unused memory and no step of `application_manager` takes away the task that is
  -- called at that moment: the received datagrams fall into an older part and a newer part, which is no
  -- longer than the queue. If nothing undefined has happened, the thread of the scheduler is at its start
  -- or asleep, the first task of the scheduler is due, and its thread makes the next three steps, then the
  -- client that registered the task's query gets one more message, with the
  -- request's id and the value that the last datagram of the older part that says something of the datum
  -- reports, or else the initial one. The query has a data id of the protocol, and an engine that
  -- exists if it asks for one, and the write does not fail.
  pub Reach-answers :
      (nodes : List NqNode) (memory : Memory) (a : Afdx) (now later last : Timespec)
      (s1 s2 stack : AppReply) (w1 w2 written : ℤ) (p : Ptr) (e : Entry) (xs : Items) (fd : ℕ)
      (q : AppQuery) (i : DataId)
      → length nodes ≡ size_queue
      → Reach malloc junk clock action fresh am_sockfd nodes memory a
      → is_defined a.world.elab ≡ true
      → IsWaiting a.pc
      → IsQueue a.manager.registry.sched.sched ((p, e) ∷ xs)
      → tm_ge now e.next_time ≡ true
      → query_of a.manager.registry.apps p ≡ some (fd, q)
      → data_id_of q.data_id ≡ some i
      → (is_engine_data i ≡ true → q.engine_id < nr_engines)
      → is_negative written ≡ false
      → (told : List NqNode) × (untold : List NqNode) × (a.world.received ≡ told ++ untold)
        × (length untold ≤ length (stored a.world.queue (reserved a.world.net)))
        × (v : Value) × (last_report told q.engine_id i (value_of initial_intdata q.engine_id i)
            ≡ some v)
        × ((schedule_step last stack written
              (schedule_step later s2 w2 (schedule_step now s1 w1 a))).manager.replies
            ≡ a.manager.replies ++ ((fd, put_value (record stack { req_id = q.req_id }) v) ∷ []))
  Reach-answers nodes memory a now later last s1 s2 stack w1 w2 written p e xs fd q i full_size r
        defined waits queue is_due owner known exists sends =
      let (in_world, in_threads) =
        Reach-parts malloc junk clock action fresh am_sockfd nodes memory a r in
      let (told, untold, split, few, elaborated) = told_lem nodes a.world full_size in_world in
      let (v, reports) = last_report-exists told q.engine_id i exists in
      let has_value =
        elaborate_all-value told initial_intdata a.world.intdata q.engine_id i elaborated
        ∙ reports in
      let (_, replies, _) =
        Reach-replies malloc junk clock action fresh am_sockfd memory (served a) now later last s1
          s2 stack w1 w2 written p e xs fd q i v in_threads waits queue is_due owner known has_value
          sends in
      (
        told,
        untold,
        split,
        few,
        v,
        reports,
        ap (λ x. x.manager.replies) (served-three now later last s1 s2 stack w1 w2 written a)
            ∙ replies,
      )
