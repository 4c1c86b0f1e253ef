-- ===== src/Pipeline/Lag.antt =====
-- Wake-ups that the elaboration thread misses: `pthread_cond_wait` and `pthread_cond_signal` stand for
-- themselves in src/elaboration_thread.c, without a condition, so a signal to a thread that is not in
-- its wait is lost.
use psw_afdx.Base.{
  ℕ, ◌+◌, ◌-◌, ◌%◌, ◌<◌, ◌≤◌, ◌≡◌, ◌≢◌, refl, ◌∙◌, ap, none, List, arith, length, Bool-cases, inl,
  inr, ◌==◌,
}
use psw_afdx.Queue.{NqNode, Queue, count, size_queue, next_nqnode_in, sem_post}
use psw_afdx.Pipeline.{
  reserving, signalling, ElabPc, idle, waiting, woken, holding, disposing, null_read, out_of_bounds,
  World, wake, Step, network, elaboration, reserve, full, receive, signal, sleep, take, take_null,
  store, overrun, dispose, Reach,
}
use psw_afdx.Pipeline.Stored.{reserved, reserve_lem, dispose_lem}
use psw_afdx.Pipeline.Invariant.{active, signals}
use psw_afdx.Pipeline.Moves.{Holds, pending-count, active-wake}
use psw_afdx.Pipeline.Kept.{Reach-Holds, keep, woken_out}
use psw_afdx.Pipeline.NetKept.{keep_signal}

-- How many nodes wait in the queue for which no wake-up is under way.
abbrev pub lag : World → ℕ
lag w = count w.queue - reserved w.net - active w.elab - signals w.net

pub data Steps (w : World) : World → Type 0 where
  here : Steps w w
  later : {u v : World} → Steps w u → Step u v → Steps w v

full_lem :
    (q : Queue)
    → (next_nqnode_in q).0 ≡ none
    → (next_nqnode_in q).1 ≡ record q { nr_nodes = sem_post q.nr_nodes }
unfolding next_nqnode_in
full_lem q f = elim (Bool-cases ((q.in_ptr + 1) % size_queue == q.out_ptr)) [
  | inl is ↦ rw is refl
  | inr room ↦ absurd (let f' = rw room at f in cc)
]

still_full :
    (q : Queue) (n : ℕ) → (next_nqnode_in (record q { nr_nodes = n })).0 ≡ (next_nqnode_in q).0
unfolding next_nqnode_in
still_full q n = ground arith

lag-Step : (w v : World) → Holds w → Step w v → lag w ≤ lag v
lag-Step w v (past, pending, inv) (network defined (reserve i e got)) =
    let s0 : signals w.net ≡ 0 = ap signals e in
    let r0 : reserved w.net ≡ 0 = ap reserved e in
    omega (arith, (reserve_lem w.queue i inv.valid got).0)
lag-Step w v h (network defined (full e got)) = omega (arith, ap count (full_lem w.queue got))
lag-Step w v h (network defined (receive i old datagram source time bytes e at)) =
    let s0 : signals w.net ≡ 0 = ap signals e in
    let r1 : reserved w.net ≡ 1 = ap reserved e in omega arith
lag-Step w v h (network defined (signal e)) =
    let s1 : signals w.net ≡ 1 = ap signals e in
    let r0 : reserved w.net ≡ 0 = ap reserved e in omega (arith, active-wake w.elab)
lag-Step w v h (elaboration (sleep e)) = let a0 : active w.elab ≡ 0 = ap active e in omega arith
lag-Step w v h (elaboration (take i q e got)) =
    let a1 : active w.elab ≡ 1 = ap active e in
    let out = woken_out w h e in
    let is : record w.queue { nr_nodes = w.queue.nr_nodes - 1 } ≡ q = cc in
    omega (arith, ap count is)
lag-Step w v h (elaboration (take_null q e got)) = let out = woken_out w h e in absurd cc
lag-Step w v h (elaboration (store i n d e at ok)) =
    let a1 : active w.elab ≡ 1 = ap active e in omega arith
lag-Step w v h (elaboration (overrun i n e at fails)) =
    let a1 : active w.elab ≡ 1 = ap active e in omega arith
lag-Step w v (past, pending, inv) (elaboration (dispose e)) =
    let a1 : active w.elab ≡ 1 = ap active e in
    let counted = pending-count w past pending inv in
    let more : reserved w.net < count w.queue = omega (arith, inv.room) in
    omega (arith, (dispose_lem w.queue (reserved w.net) inv.valid more).0)

lag-Steps : (w v : World) → Holds w → Steps w v → Holds v × (lag w ≤ lag v)
lag-Steps w v h here = (h, omega arith)
lag-Steps w v h (later {u} steps s) =
    let (hu, le) = lag-Steps w u h steps in (keep u v hu s, omega (arith, le, lag-Step u v hu s))

active-wake_lost : (e : ElabPc) → e ≢ waiting → active (wake e) ≡ active e
active-wake_lost idle n = refl
active-wake_lost waiting n = absurd (n refl)
active-wake_lost woken n = refl
active-wake_lost (holding i) n = refl
active-wake_lost disposing n = refl
active-wake_lost null_read n = refl
active-wake_lost out_of_bounds n = refl

-- Whatever the order of the steps from a start with 100 nodes, a signal that finds the elaboration
-- thread outside its wait leaves one more node in the queue without a wake-up, and no later step
-- ever makes up for it.
pub lost_signal :
    (nodes : List NqNode) (w v : World)
    → length nodes ≡ size_queue
    → Reach nodes w
    → w.net ≡ signalling
    → w.elab ≢ waiting
    → Steps (record w { net = reserving; elab = wake w.elab }) v
    → lag w < lag v
lost_signal nodes w v full_size r e away steps =
    let h = Reach-Holds nodes full_size r in
    let (past, pending, inv) = h in
    let s1 : signals w.net ≡ 1 = ap signals e in
    let r0 : reserved w.net ≡ 0 = ap reserved e in
    let counted = pending-count w past pending inv in
    let (_, le) = lag-Steps _ v (keep_signal w h e) steps in
    omega (arith, le, inv.room, active-wake_lost w.elab away)

stuck-Step :
    (w v : World)
    → w.elab ≡ waiting
    → w.net ≡ reserving
    → (next_nqnode_in w.queue).0 ≡ none
    → Step w v
    → v ≡ record w { queue = record w.queue { nr_nodes = v.queue.nr_nodes } }
stuck-Step w v e n f (network defined (reserve i e' got)) = absurd cc
stuck-Step w v e n f (network defined (full e' got)) =
    ap (λ q. record w { queue = q }) (full_lem w.queue f ∙ rw (full_lem w.queue f) refl)
stuck-Step w v e n f (network defined (receive i old datagram source time bytes e' at)) = absurd cc
stuck-Step w v e n f (network defined (signal e')) = absurd cc
stuck-Step w v e n f (elaboration (sleep e')) = absurd cc
stuck-Step w v e n f (elaboration (take i q e' got)) = absurd cc
stuck-Step w v e n f (elaboration (take_null q e' got)) = absurd cc
stuck-Step w v e n f (elaboration (store i m d e' at ok)) = absurd cc
stuck-Step w v e n f (elaboration (overrun i m e' at fails)) = absurd cc
stuck-Step w v e n f (elaboration (dispose e')) = absurd cc

-- Once the elaboration thread is in its wait and the network thread is before `next_nqnode_in` with
-- the queue full, no steps ever change anything but the value of the semaphore.
pub stuck :
    (w v : World)
    → w.elab ≡ waiting
    → w.net ≡ reserving
    → (next_nqnode_in w.queue).0 ≡ none
    → Steps w v
    → v ≡ record w { queue = record w.queue { nr_nodes = v.queue.nr_nodes } }
stuck w v e n f here = refl
stuck w v e n f (later {u} steps s) =
    let is = stuck w u e n f steps in
    let fu : (next_nqnode_in u.queue).0 ≡ none =
      ap (λ x. (next_nqnode_in x.queue).0) is ∙ still_full w.queue u.queue.nr_nodes ∙ f in
    let last = stuck-Step u v (ap (λ x. x.elab) is ∙ e) (ap (λ x. x.net) is ∙ n) fu s in
    last
    ∙ ap {A = World} (λ x. record x { queue = record x.queue { nr_nodes = v.queue.nr_nodes } }) is
