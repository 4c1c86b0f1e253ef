-- ===== src/Pipeline/NetKept.antt =====
-- Every step of the network thread keeps the invariant.
use psw_afdx.Base.{ℕ, ◌≡◌, ◌∙◌, sym, ap, subst, none, some, [], ◌∷◌, ◌++◌, arith, length-set}
use mathlib.Core.List.{append_assoc}
use psw_afdx.Queue.{NqNode, next_nqnode_in, fill}
use psw_afdx.Pipeline.{reserving, receiving, signalling, World, wake}
use psw_afdx.Pipeline.Stored.{reserved, IsLast, reserve_lem, fill_lem}
use psw_afdx.Pipeline.Invariant.{uncounted, signals, NetState, ElabState}
use psw_afdx.Pipeline.Moves.{
  Holds, length-snoc, map-snoc, ElabState-snoc, ElabState-wake, active-wake, uncounted-wake, in_lem,
  uncounted-le,
}

pub keep_reserve :
    (w : World) (i : ℕ)
    → Holds w
    → w.net ≡ reserving
    → (next_nqnode_in w.queue).0 ≡ some i
    → Holds (record w { queue = (next_nqnode_in w.queue).1; net = receiving i })
keep_reserve w i (past, pending, inv) e got =
    let r0 : reserved w.net ≡ 0 = ap reserved e in
    let s0 : signals w.net ≡ 0 = ap signals e in
    let u = uncounted w.elab in
    let (valid, o, sem, _) = in_lem w.queue inv.valid u inv.sem (uncounted-le w.elab) in
    let (more, last, same) = reserve_lem w.queue i inv.valid got in
    (
      past,
      pending,
      record {
        valid = valid;
        split = inv.split;
        held = same ∙ rw r0 at inv.held;
        room = omega (arith, inv.room);
        sem = sem;
        net = last;
        elab = subst (λ x. ElabState w.elab x w.intdata past pending) (sym o) inv.elab;
      },
    )

pub keep_full :
    (w : World)
    → Holds w
    → w.net ≡ reserving
    → (next_nqnode_in w.queue).0 ≡ none
    → Holds (record w { queue = (next_nqnode_in w.queue).1 })
keep_full w (past, pending, inv) e got =
    let u = uncounted w.elab in
    let (valid, o, sem, same) = in_lem w.queue inv.valid u inv.sem (uncounted-le w.elab) in
    (
      past,
      pending,
      record {
        valid = valid;
        split = inv.split;
        held = same got (reserved w.net) ∙ inv.held;
        room = inv.room;
        sem = sem;
        net = subst (λ x. NetState x (next_nqnode_in w.queue).1) (sym e) tt;
        elab = subst (λ x. ElabState w.elab x w.intdata past pending) (sym o) inv.elab;
      },
    )

pub keep_receive :
    (w : World) (i : ℕ) (n : NqNode)
    → Holds w
    → w.net ≡ receiving i
    → Holds
        (record w { queue = fill w.queue i n; net = signalling; received = w.received ++ (n ∷ []) })
keep_receive w i n (past, pending, inv) e =
    let v = inv.valid in
    let r1 : reserved w.net ≡ 1 = ap reserved e in
    let s0 : signals w.net ≡ 0 = ap signals e in
    let last : IsLast i w.queue = subst (λ x. NetState x w.queue) e inv.net in
    (
      past,
      pending ++ (n ∷ []),
      record {
        valid = record {
          storage = length-set w.queue.nodes i n ∙ v.storage;
          in_range = v.in_range;
          out_range = v.out_range;
        };
        split = ap (λ x. x ++ (n ∷ [])) inv.split ∙ append_assoc past pending (n ∷ []);
        held =
            fill_lem w.queue i n v last
            ∙ ap (λ x. x ++ (some n ∷ [])) (rw r1 at inv.held)
            ∙ sym (map-snoc pending n);
        room = omega (arith, inv.room, length-snoc pending n);
        sem = inv.sem;
        net = tt;
        elab = ElabState-snoc w.elab w.queue.out_ptr w.intdata past pending n inv.elab;
      },
    )

pub keep_signal :
    (w : World)
    → Holds w
    → w.net ≡ signalling
    → Holds (record w { net = reserving; elab = wake w.elab })
keep_signal w (past, pending, inv) e =
    let r0 : reserved w.net ≡ 0 = ap reserved e in
    let s1 : signals w.net ≡ 1 = ap signals e in
    (
      past,
      pending,
      record {
        valid = inv.valid;
        split = inv.split;
        held = rw r0 at inv.held;
        room = omega (arith, inv.room, active-wake w.elab);
        sem = rw (uncounted-wake w.elab) inv.sem;
        net = tt;
        elab = ElabState-wake w.elab w.queue.out_ptr w.intdata past pending inv.elab;
      },
    )
