-- ===== src/Daemon/Threads/Replies.antt =====
-- From a due task of src/scheduler.c to the message that src/application_manager.c writes to the
-- client that registered the query.
use psw_afdx.Base.{
  ℕ, suc, ◌<◌, ◌≡◌, ◌≢◌, refl, sym, ap, ◌∙◌, subst, true, false, none, some, [], ◌∷◌, ◌++◌, ℤ,
  is_negative, arith, length, inl, inr, ◌⊎◌,
}
use psw_afdx.Protocol.{AppQuery, AppReply, DataId, data_id_of}
use psw_afdx.Serve.{sent, serve_query}
use psw_afdx.Serve.Values.{Value, value_of, put_value, serve_query-value}
use psw_afdx.Sched.Time.{Timespec, tm_ge}
use psw_afdx.Sched.Heap.{Ptr, null, Node, Memory, Sched}
use psw_afdx.Sched.{Rest}
use psw_afdx.Sched.Links.{Entry, Items, IsQueue, Chain, first_or}
use psw_afdx.Sched.Order.{insert}
use psw_afdx.Sched.Dispatch.{again, pick-due}
use psw_afdx.Registration.{serve_scheduler_query}
use psw_afdx.Registration.Owners.{query_of}
use psw_afdx.Manager.{Manager}
use psw_afdx.Daemon.{Machine}
use psw_afdx.Daemon.Picks.{read_call-task}
use psw_afdx.Daemon.Threads.{
  Pc, entering, sleeping, calling, serving, returning, System, Reach, in_section, thread_step,
  enter_round,
}
use psw_afdx.Daemon.Threads.Safe.{IsSafe, task-owner, thread_step-IsSafe}
use psw_afdx.Daemon.Threads.Safety.{Reach-IsSafe}

-- One list in memory has one length.
length-Chain :
    (h : Memory) (before : Ptr) (xs ys : Items)
    → Chain h before null xs
    → Chain h before null ys
    → first_or xs null ≡ first_or ys null
    → length xs ≡ length ys
length-Chain h before [] [] c d e = refl
length-Chain h before [] ((q, f) ∷ ys) c d e = absurd (d.0 (sym e))
length-Chain h before ((p, x) ∷ xs) [] c d e = absurd (c.0 e)
length-Chain h before ((p, x) ∷ xs) ((q, f) ∷ ys) c d e =
    let d' : Chain h before null ((p, f) ∷ ys) =
      subst (λ k. Chain h before null ((k, f) ∷ ys)) (sym e) d in
    let next : first_or xs null ≡ first_or ys null = (let here = sym c.2 ∙ d'.2 in cc) in
    ap suc (length-Chain h p xs ys c.3 d'.3 next)

-- The thread waits, or has just been started.
abbrev pub IsWaiting : Pc → Type 0
IsWaiting pc = (pc ≡ entering) ⊎ ((rest : Rest) × (pc ≡ sleeping rest))

abbrev pub with_sched : Manager Machine → Sched → Manager Machine
with_sched m t = record m {
  registry = record m.registry { sched = record m.registry.sched { sched = t } };
}

module _ (malloc : Sched → Ptr) (junk : Node) (clock : Sched → Timespec) (action : ℕ)
    (fresh : (s : Sched) → malloc s ≢ null → s.memory (malloc s) ≡ none) (am_sockfd : ℕ) where
  step-picks :
      (v : System) (now : Timespec) (stack : AppReply) (data_sent : ℤ) (p : Ptr) (e : Entry)
      (xs : Items)
      → IsSafe malloc junk clock action fresh am_sockfd v
      → IsWaiting v.pc
      → IsQueue v.manager.registry.sched.sched ((p, e) ∷ xs)
      → tm_ge now e.next_time ≡ true
      → (t : Sched) × (thread_step now stack data_sent v
          ≡ record v { manager = with_sched v.manager t; pc = calling now p })
        × IsQueue t (insert (p, again now e) xs)
  unfolding thread_step enter_round
  step-picks v now stack data_sent p e xs ok waiting queue is_due =
      let m = v.manager.registry.sched in
      let valid = ok.sound.consistent.0.valid in
      let as_long =
        length-Chain m.sched.memory null valid.items ((p, e) ∷ xs) valid.queue.chain queue.chain
          (sym valid.queue.first ∙ queue.first) in
      let enough : length xs < m.bound = omega (arith, as_long, valid.bounded) in
      let (t, et, is, _) = pick-due m.bound now m.sched p e xs queue is_due enough in
      let picked : enter_round m.bound now m.sched ≡ some (calling now p, t) = rw et refl in
      (
        t,
        elim waiting [
          | inl first ↦ rw (thread_step, first, in_section, picked) refl
          | inr (rest, asleep) ↦ rw (thread_step, asleep, in_section, picked) refl
        ],
        is,
      )

  call-replies :
      (v : System) (now later last : Timespec) (stack junk_reply : AppReply) (data_sent written : ℤ)
      (p : Ptr) (fd : ℕ) (q : AppQuery) (i : DataId) (value : Value)
      → IsSafe malloc junk clock action fresh am_sockfd (record v { pc = calling now p })
      → query_of v.manager.registry.apps p ≡ some (fd, q)
      → data_id_of q.data_id ≡ some i
      → value_of v.intdata q.engine_id i ≡ some value
      → is_negative written ≡ false
      → let r = put_value (record junk_reply { req_id = q.req_id }) value in
        thread_step last junk_reply written
          (thread_step later stack data_sent (record v { pc = calling now p }))
        ≡ record v {
          manager = record v.manager { replies = v.manager.replies ++ ((fd, r) ∷ []) };
          pc = returning now;
        }
  unfolding thread_step
  call-replies v now later last stack junk_reply data_sent written p fd q i value ok owner known
        has_value sends =
      let (arg, at) = ok.call in
      let (act, read) =
        read_call-task v.manager.registry.sched p arg ok.sound.consistent.0.valid at in
      let (g, q', live, owner', _) =
        task-owner malloc junk clock action fresh am_sockfd _ p arg ok at in
      let live' : serve_scheduler_query v.manager.registry.apps arg ≡ some (fd, q) =
        live ∙ sym owner' ∙ owner in
      let r = put_value (record junk_reply { req_id = q.req_id }) value in
      let answer : serve_query v.intdata junk_reply written fd q ≡ sent fd r =
        serve_query-value v.intdata junk_reply written fd q i value known has_value
        ∙ rw sends refl in
      let called : thread_step later stack data_sent (record v { pc = calling now p })
          ≡ record v { pc = serving now p arg } =
        rw (thread_step, read) refl in
      ap (thread_step last junk_reply written) called ∙ rw (thread_step, live', answer) refl

  -- If the first task of the queue is due when the thread wakes up, and no other thread comes in
  -- between, then three steps later the client that registered the query of the task has got one more
  -- message: the request's id and the value that the datum has, in the member of the datum's type. The
  -- task is back in the queue at its next time. The query has a data id of the protocol, the datum
  -- exists, and the write does not fail.
  pub Reach-replies :
      (memory : Memory) (v : System) (now later last : Timespec)
      (stack stack' junk_reply : AppReply) (data_sent data_sent' written : ℤ) (p : Ptr) (e : Entry)
      (xs : Items) (fd : ℕ) (q : AppQuery) (i : DataId) (value : Value)
      → Reach malloc junk clock action fresh am_sockfd memory v
      → IsWaiting v.pc
      → IsQueue v.manager.registry.sched.sched ((p, e) ∷ xs)
      → tm_ge now e.next_time ≡ true
      → query_of v.manager.registry.apps p ≡ some (fd, q)
      → data_id_of q.data_id ≡ some i
      → value_of v.intdata q.engine_id i ≡ some value
      → is_negative written ≡ false
      → let v1 = thread_step now stack data_sent v in
        let v2 = thread_step later stack' data_sent' v1 in
        let v3 = thread_step last junk_reply written v2 in
        (v3.pc ≡ returning now)
        × (v3.manager.replies
            ≡ v.manager.replies
              ++ ((fd, put_value (record junk_reply { req_id = q.req_id }) value) ∷ []))
        × IsQueue v3.manager.registry.sched.sched (insert (p, again now e) xs)
  Reach-replies memory v now later last stack stack' junk_reply data_sent data_sent' written p e xs
        fd q i value r waiting queue is_due owner known has_value sends =
      let ok = Reach-IsSafe malloc junk clock action fresh am_sockfd memory r in
      let (t, picks, queue') = step-picks v now stack data_sent p e xs ok waiting queue is_due in
      let ok1 =
        subst (λ x. IsSafe malloc junk clock action fresh am_sockfd x) picks
          (thread_step-IsSafe malloc junk clock action fresh am_sockfd v now stack data_sent ok) in
      let replies =
        call-replies (record v { manager = with_sched v.manager t }) now later last stack'
          junk_reply data_sent' written p fd q i value ok1 owner known has_value sends in
      let steps =
        ap (λ x. thread_step last junk_reply written (thread_step later stack' data_sent' x)) picks
        ∙ replies in
      subst
        (λ w.
          (w.pc ≡ returning now)
          × (w.manager.replies
              ≡ v.manager.replies
                ++ ((fd, put_value (record junk_reply { req_id = q.req_id }) value) ∷ []))
          × IsQueue w.manager.registry.sched.sched (insert (p, again now e) xs))
        (sym steps) (refl, refl, queue')
