-- ===== src/Afdx/Reports.antt =====
-- What a list of received nodes says of a datum: the last one that says something counts.
use mathlib.Core.List.{append_assoc}
use psw_afdx.Base.{
  ◌<◌, refl, true, is_some, ◌≤◌, ◌++◌, length, arith, ℕ, ◌≡◌, sym, ap, ◌∙◌, Option, Option-cases,
  some, List, [], ◌∷◌, inl, inr,
}
use psw_afdx.Protocol.{AfdxPacket, DataId, engine_throttle}
use psw_afdx.IntData.{IntData, initial_intdata, nr_engines}
use psw_afdx.Elaboration.{elaborate}
use psw_afdx.Queue.{NqNode, size_queue}
use psw_afdx.Serve.Values.{Value, value_of, is_engine_data, value_of-eq_none}
use psw_afdx.Serve.Feed.{reported, elaborate-value}
use psw_afdx.Pipeline
use psw_afdx.Pipeline.{
  World, ElabPc, idle, waiting, woken, holding, disposing, null_read, out_of_bounds,
}
use psw_afdx.Pipeline.Stored.{reserved, stored}
use psw_afdx.Pipeline.Moves.{length-map}
use psw_afdx.Pipeline.Kept.{Reach-Holds}
use psw_afdx.Pipeline.Invariant.{elaborate_all, ElabState}

abbrev pub last_report : List NqNode → ℕ → DataId → Option Value → Option Value
last_report [] n i before = before
last_report (m ∷ ms) n i before = last_report ms n i (reported m.packet n i before)

pub elaborate_all-value :
    (ms : List NqNode) (d d' : IntData) (n : ℕ) (i : DataId)
    → elaborate_all d ms ≡ some d'
    → value_of d' n i ≡ last_report ms n i (value_of d n i)
elaborate_all-value [] d d' n i e = let same : d ≡ d' = cc in ap (λ x. value_of x n i) (sym same)
elaborate_all-value (m ∷ ms) d d' n i e = elim (Option-cases (elaborate d m.packet m.last_update)) [
  | inl fails ↦ absurd (let e' = rw (elaborate_all, fails) at e in cc)
  | inr (d1, is) ↦
      elaborate_all-value ms d1 d' n i (rw (elaborate_all, is) at e)
      ∙ ap (last_report ms n i) (elaborate-value d d1 m.packet m.last_update n i is)
]

-- Where there was a value there is one after a packet: a report has one for each datum that it is about.
reported-some :
    (p : AfdxPacket) (n : ℕ) (i : DataId) (before : Option Value)
    → is_some before ≡ true
    → is_some (reported p n i before) ≡ true
reported-some p n engine_throttle before there = ground arith
reported-some p n _ before there = ground arith

last_report-some :
    (ms : List NqNode) (n : ℕ) (i : DataId) (before : Option Value)
    → is_some before ≡ true
    → is_some (last_report ms n i before) ≡ true
last_report-some [] n i before there = there
last_report-some (m ∷ ms) n i before there =
    last_report-some ms n i (reported m.packet n i before) (reported-some m.packet n i before there)

-- There is one of each datum but those of an engine that does not exist.
pub last_report-exists :
    (ms : List NqNode) (n : ℕ) (i : DataId)
    → (is_engine_data i ≡ true → n < nr_engines)
    → (v : Value) × (last_report ms n i (value_of initial_intdata n i) ≡ some v)
last_report-exists ms n i exists =
    elim (Option-cases (last_report ms n i (value_of initial_intdata n i))) [
      | inr found ↦ found
      | inl gone ↦
          let at_first : is_some (value_of initial_intdata n i) ≡ true =
            elim (Option-cases (value_of initial_intdata n i)) [
              | inr (v, is) ↦ rw is refl
              | inl missing ↦
                  let (engine, beyond) = (value_of-eq_none initial_intdata n i refl).0 missing in
                  absurd (omega (arith, beyond, exists engine))
            ] in
          let kept = last_report-some ms n i (value_of initial_intdata n i) at_first in absurd cc
    ]

-- Whatever the order of the steps of the network thread and the elaboration thread, the data are those
-- after an older part of the received nodes, and the newer part is no longer than the queue.
pub told_lem :
    (nodes : List NqNode) (w : World)
    → length nodes ≡ size_queue
    → Pipeline.Reach nodes w
    → (told : List NqNode) × (untold : List NqNode) × (w.received ≡ told ++ untold)
      × (length untold ≤ length (stored w.queue (reserved w.net)))
      × (elaborate_all initial_intdata told ≡ some w.intdata)
told_lem nodes w full_size r =
    let (past, pending, inv) = Reach-Holds nodes full_size r in
    let few : length pending ≤ length (stored w.queue (reserved w.net)) =
      omega (arith, ap length inv.held, length-map pending) in
    go past pending inv.split few w.elab inv.elab
  where
    Told : Type 0
    Told =
        (told : List NqNode) × (untold : List NqNode) × (w.received ≡ told ++ untold)
        × (length untold ≤ length (stored w.queue (reserved w.net)))
        × (elaborate_all initial_intdata told ≡ some w.intdata)

    go :
        (past pending : List NqNode)
        → w.received ≡ past ++ pending
        → length pending ≤ length (stored w.queue (reserved w.net))
        → (e : ElabPc) → ElabState e w.queue.out_ptr w.intdata past pending
        → Told
    go past pending split few idle d = (past, pending, split, few, d)
    go past pending split few waiting d = (past, pending, split, few, d)
    go past pending split few woken d = (past, pending, split, few, d)
    go past pending split few (holding i) d = (past, pending, split, few, d.1)
    go past pending split few disposing (n, rest, first, d) = (
      past ++ (n ∷ []),
      rest,
      split ∙ ap (λ x. past ++ x) first ∙ sym (append_assoc past (n ∷ []) rest),
      omega (arith, few, ap length first),
      d,
    )
    go past pending split few out_of_bounds (n, rest, first, d, fails) =
        (past, pending, split, few, d)
    go past pending split few null_read d = absurd d
