-- ===== src/Pipeline/Kept.antt =====
-- Every step of the two threads keeps the invariant.
use psw_afdx.Base.{
  ℕ, suc, ◌-◌, ◌<◌, ◌≡◌, refl, ◌∙◌, sym, ap, subst, none, some, List, [], ◌∷◌, ◌++◌, map, arith,
  length, get_elem?,
}
use mathlib.Core.List.{tail, append_assoc}
use psw_afdx.IntData.{IntData, initial_intdata}
use psw_afdx.Elaboration.{elaborate}
use psw_afdx.Queue.{
  NqNode, Queue, count, size_queue, next_nqnode_out, dispose_last_nqnode, init_queue,
}
use psw_afdx.Pipeline.{
  idle, waiting, woken, holding, disposing, out_of_bounds, World, Step, network, elaboration,
  reserve, full, receive, signal, sleep, take, take_null, store, overrun, dispose, start_world,
  Reach, start, next,
}
use psw_afdx.Pipeline.Stored.{reserved, dispose_lem}
use psw_afdx.Pipeline.Invariant.{
  elaborate_all, elaborate_all-snoc, active, uncounted, ElabState, Inv,
}
use psw_afdx.Pipeline.Moves.{Holds, pending-count, out_lem, head_lem, NetState-sem, dispose_kept}
use psw_afdx.Network.{receive_node}
use psw_afdx.Pipeline.NetKept.{keep_reserve, keep_full, keep_receive, keep_signal}

keep_sleep : (w : World) → Holds w → w.elab ≡ idle → Holds (record w { elab = waiting })
keep_sleep w (past, pending, inv) e =
    let u0 : uncounted w.elab ≡ 0 = ap uncounted e in
    let a0 : active w.elab ≡ 0 = ap active e in
    (
      past,
      pending,
      record {
        valid = inv.valid;
        split = inv.split;
        held = inv.held;
        room = omega (arith, inv.room);
        sem = rw u0 at inv.sem;
        net = inv.net;
        elab = subst (λ x. ElabState x w.queue.out_ptr w.intdata past pending) e inv.elab;
      },
    )

-- A thread that is awake finds the oldest node.
pub woken_out :
    (w : World)
    → Holds w
    → w.elab ≡ woken
    → next_nqnode_out w.queue
      ≡ some (some w.queue.out_ptr, record w.queue { nr_nodes = w.queue.nr_nodes - 1 })
woken_out w (past, pending, inv) e =
    let a1 : active w.elab ≡ 1 = ap active e in
    let u0 : uncounted w.elab ≡ 0 = ap uncounted e in
    let counted = pending-count w past pending inv in
    let more : 0 < count w.queue = omega (arith, inv.room) in
    out_lem w.queue inv.valid more (omega (arith, inv.sem))

keep_take :
    (w : World) (i : ℕ) (q : Queue)
    → Holds w
    → w.elab ≡ woken
    → next_nqnode_out w.queue ≡ some (some i, q)
    → Holds (record w { queue = q; elab = holding i })
keep_take w i q (past, pending, inv) e got =
    let u0 : uncounted w.elab ≡ 0 = ap uncounted e in
    let a1 : active w.elab ≡ 1 = ap active e in
    let out = woken_out w (past, pending, inv) e in
    let at : w.queue.out_ptr ≡ i = cc in
    let q' : Queue = record w.queue { nr_nodes = w.queue.nr_nodes - 1 } in
    let is : q' ≡ q = cc in
    let d = subst (λ x. ElabState x w.queue.out_ptr w.intdata past pending) e inv.elab in
    let kept : Inv (record w { queue = q'; elab = holding i }) past pending = record {
      valid = record {
        storage = inv.valid.storage;
        in_range = inv.valid.in_range;
        out_range = inv.valid.out_range;
      };
      split = inv.split;
      held = inv.held;
      room = omega (arith, inv.room);
      sem = omega (arith, inv.sem);
      net = NetState-sem w.queue w.net (w.queue.nr_nodes - 1) inv.net;
      elab = (sym at, d);
    } in
    (
      past,
      pending,
      subst (λ x. Inv (record w { queue = x; elab = holding i }) past pending) is kept,
    )

-- The node that the elaboration thread reads is the first one pending.
pub holding_head :
    (w : World) (i : ℕ) (n : NqNode) (past pending : List NqNode)
    → Inv w past pending
    → w.elab ≡ holding i
    → get_elem? w.queue.nodes i ≡ some n
    → (elaborate_all initial_intdata past ≡ some w.intdata)
      × ((rest : List NqNode) × (pending ≡ n ∷ rest))
holding_head w i n past pending inv e at =
    let a1 : active w.elab ≡ 1 = ap active e in
    let s : ElabState (holding i) w.queue.out_ptr w.intdata past pending =
      subst (λ x. ElabState x w.queue.out_ptr w.intdata past pending) e inv.elab in
    let counted = pending-count w past pending inv in
    let here : get_elem? w.queue.nodes w.queue.out_ptr ≡ some n = rw s.0 at at in
    let more : 0 < count w.queue - reserved w.net = omega (arith, inv.room) in
    (s.1, head_lem w.queue (reserved w.net) pending n inv.valid inv.held more here)

keep_store :
    (w : World) (i : ℕ) (n : NqNode) (d : IntData)
    → Holds w
    → w.elab ≡ holding i
    → get_elem? w.queue.nodes i ≡ some n
    → elaborate w.intdata n.packet n.last_update ≡ some d
    → Holds (record w { intdata = d; elab = disposing })
keep_store w i n d (past, pending, inv) e at ok =
    let a1 : active w.elab ≡ 1 = ap active e in
    let u1 : uncounted w.elab ≡ 1 = ap uncounted e in
    let (all, (rest, is)) = holding_head w i n past pending inv e at in
    (
      past,
      pending,
      record {
        valid = inv.valid;
        split = inv.split;
        held = inv.held;
        room = omega (arith, inv.room);
        sem = rw u1 at inv.sem;
        net = inv.net;
        elab = (n, rest, is, elaborate_all-snoc past n initial_intdata w.intdata all ∙ ok);
      },
    )

keep_overrun :
    (w : World) (i : ℕ) (n : NqNode)
    → Holds w
    → w.elab ≡ holding i
    → get_elem? w.queue.nodes i ≡ some n
    → elaborate w.intdata n.packet n.last_update ≡ none
    → Holds (record w { elab = out_of_bounds })
keep_overrun w i n (past, pending, inv) e at fails =
    let a1 : active w.elab ≡ 1 = ap active e in
    let u1 : uncounted w.elab ≡ 1 = ap uncounted e in
    let (all, (rest, is)) = holding_head w i n past pending inv e at in
    (
      past,
      pending,
      record {
        valid = inv.valid;
        split = inv.split;
        held = inv.held;
        room = omega (arith, inv.room);
        sem = rw u1 at inv.sem;
        net = inv.net;
        elab = (n, rest, is, all, fails);
      },
    )

keep_dispose :
    (w : World)
    → Holds w
    → w.elab ≡ disposing
    → Holds (record w { queue = dispose_last_nqnode w.queue; elab = idle })
keep_dispose w (past, pending, inv) e =
    let r = reserved w.net in
    let a1 : active w.elab ≡ 1 = ap active e in
    let u1 : uncounted w.elab ≡ 1 = ap uncounted e in
    let counted = pending-count w past pending inv in
    let more : r < count w.queue = omega (arith, inv.room) in
    let s : ElabState disposing w.queue.out_ptr w.intdata past pending =
      subst (λ x. ElabState x w.queue.out_ptr w.intdata past pending) e inv.elab in
    let (n, rest, is, all) = s in
    let (valid, net, same) = dispose_kept w.queue w.net inv.valid inv.net more in
    let (less, gone) = dispose_lem w.queue r inv.valid more in
    let one : length pending ≡ suc (length rest) = ap length is in
    (
      past ++ (n ∷ []),
      rest,
      record {
        valid = valid;
        split = inv.split ∙ ap (λ x. past ++ x) is ∙ sym (append_assoc past (n ∷ []) rest);
        held = gone ∙ ap tail inv.held ∙ ap (λ x. tail (map some x)) is;
        room = omega (arith, inv.room);
        sem = omega (arith, inv.sem);
        net = net;
        elab = all;
      },
    )

pub keep : (w v : World) → Holds w → Step w v → Holds v
keep w v h (network defined (reserve i e got)) = keep_reserve w i h e got
keep w v h (network defined (full e got)) = keep_full w h e got
keep w v h (network defined (receive i old datagram source time bytes e at)) =
    keep_receive w i (receive_node old datagram source time) h e
keep w v h (network defined (signal e)) = keep_signal w h e
keep w v h (elaboration (sleep e)) = keep_sleep w h e
keep w v h (elaboration (take i q e got)) = keep_take w i q h e got
keep w v h (elaboration (take_null q e got)) = let out = woken_out w h e in absurd cc
keep w v h (elaboration (store i n d e at ok)) = keep_store w i n d h e at ok
keep w v h (elaboration (overrun i n e at fails)) = keep_overrun w i n h e at fails
keep w v h (elaboration (dispose e)) = keep_dispose w h e

keep_start : (nodes : List NqNode) → length nodes ≡ size_queue → Holds (start_world nodes)
unfolding init_queue
keep_start nodes full_size = (
  [],
  [],
  record {
    valid = record { storage = full_size; in_range = ground arith; out_range = ground arith };
    split = refl;
    held = refl;
    room = ground arith;
    sem = ground arith;
    net = tt;
    elab = refl;
  },
)

pub Reach-Holds :
    (nodes : List NqNode) {w : World} → length nodes ≡ size_queue → Reach nodes w → Holds w
Reach-Holds nodes full_size start = keep_start nodes full_size
Reach-Holds nodes full_size (next {w} {v} r s) = keep w v (Reach-Holds nodes full_size r) s
