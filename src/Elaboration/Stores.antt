-- ===== src/Elaboration/Stores.antt =====
-- What src/elaboration_thread.c does for a packet as the assignments that it is made of, in their order.
use psw_afdx.Base.{
  ℕ, List, [], ◌∷◌, Option, none, some, ℤ, ◌==◌, if◌then◌else◌, ltb, length, set, get_elem?, ◌<◌,
  ◌≡◌, arith, zero, suc, refl, sym, ap, ◌∙◌, map, Option-cases, inl, inr, get_elem?-set, length-set,
  get_elem?-eq_some,
}
use mathlib.Core.Option
use psw_afdx.Protocol.{
  AfdxPacket, AfdxAdiru, identifier, packet_type_adiru, packet_type_engine, payload_adiru,
  payload_engine,
}
use psw_afdx.IntData.{IntData, IntdataEngine, EngineStatus}
use psw_afdx.Elaboration.{engine_entry, elaborate, elaborate_adiru, elaborate_engine}

-- An assignment to a member of an engine's data.
pub data EngineStore : Type 0 where
  set_last_update set_throttle set_real_thrust set_engine_flags : ℕ → EngineStore
  set_oil_temp set_oil_press set_fuel_press : ℤ → EngineStore
  set_status : EngineStatus → EngineStore

-- An assignment to a member of `intdata`.
pub data Store : Type 0 where
  set_attitude_update set_speeds_update : ℕ → Store
  set_altitude set_roll set_pitch set_yaw set_aoa set_airspeed : ℤ → Store
  engine : ℕ → EngineStore → Store

abbrev pub assign_member : EngineStore → IntdataEngine → IntdataEngine
assign_member (set_last_update x) e = record e { last_update = x }
assign_member (set_throttle x) e = record e { throttle = x }
assign_member (set_real_thrust x) e = record e { real_thrust = x }
assign_member (set_oil_temp x) e = record e { oil_temp = x }
assign_member (set_oil_press x) e = record e { oil_press = x }
assign_member (set_fuel_press x) e = record e { fuel_press = x }
assign_member (set_status x) e = record e { status = x }
assign_member (set_engine_flags x) e = record e { engine_flags = x }

-- One behind the end of the engines is not among the assignments of a packet.
abbrev pub assign : Store → IntData → IntData
assign (set_attitude_update x) d = record d { attitude = record d.attitude { last_update = x } }
assign (set_altitude x) d = record d { attitude = record d.attitude { altitude = x } }
assign (set_roll x) d = record d { attitude = record d.attitude { roll = x } }
assign (set_pitch x) d = record d { attitude = record d.attitude { pitch = x } }
assign (set_yaw x) d = record d { attitude = record d.attitude { yaw = x } }
assign (set_speeds_update x) d = record d { speeds = record d.speeds { last_update = x } }
assign (set_aoa x) d = record d { speeds = record d.speeds { aoa = x } }
assign (set_airspeed x) d = record d { speeds = record d.speeds { airspeed = x } }
assign (engine m s) d = elim (get_elem? d.engines m) [
  | none ↦ d
  | some e ↦ record d { engines = set d.engines m (assign_member s e) }
]

abbrev pub assign_all : List Store → IntData → IntData
assign_all [] d = d
assign_all (s ∷ ss) d = assign_all ss (assign s d)

-- The case `AFDX_PACKET_TYPE_ADIRU`.
abbrev pub adiru_stores : AfdxAdiru → ℕ → List Store
adiru_stores a time =
    set_attitude_update time
    ∷ set_altitude a.altitude
    ∷ set_roll a.roll
    ∷ set_pitch a.pitch
    ∷ set_yaw a.yaw
    ∷ set_speeds_update time
    ∷ set_aoa a.aoa
    ∷ set_airspeed a.airspeed
    ∷ []

-- The case `AFDX_PACKET_TYPE_ENGINE`; `entry` has the values.
abbrev pub member_stores : IntdataEngine → List EngineStore
member_stores entry =
    set_last_update entry.last_update
    ∷ set_throttle entry.throttle
    ∷ set_real_thrust entry.real_thrust
    ∷ set_oil_temp entry.oil_temp
    ∷ set_oil_press entry.oil_press
    ∷ set_fuel_press entry.fuel_press
    ∷ set_status entry.status
    ∷ set_engine_flags entry.engine_flags
    ∷ []

abbrev pub engine_stores : ℕ → IntdataEngine → List Store
engine_stores m entry = map (engine m) (member_stores entry)

-- The `switch`. `none`: the first assignment is one behind the end of the engines.
unfoldable pub packet_stores : IntData → AfdxPacket → ℕ → Option (List Store)
packet_stores d p time =
    if identifier p == packet_type_adiru
    then some (adiru_stores (payload_adiru p) time)
    else if identifier p == packet_type_engine
    then (let e = payload_engine p in
        if ltb e.engine_id (length d.engines)
        then some (engine_stores e.engine_id (engine_entry e time))
        else none)
    else some []

set-get_elem? :
    (es : List IntdataEngine) (m : ℕ) (e : IntdataEngine)
    → get_elem? es m ≡ some e
    → set es m e ≡ es
set-get_elem? [] m e at = refl
set-get_elem? (x ∷ es) zero e at = let same : x ≡ e = cc in ap (λ y. y ∷ es) (sym same)
set-get_elem? (x ∷ es) (suc m) e at = ap (λ ys. x ∷ ys) (set-get_elem? es m e at)

set-set :
    (es : List IntdataEngine) (m : ℕ) (a b : IntdataEngine) → set (set es m a) m b ≡ set es m b
set-set [] m a b = refl
set-set (x ∷ es) zero a b = refl
set-set (x ∷ es) (suc m) a b = ap (λ ys. x ∷ ys) (set-set es m a b)

abbrev assign_members : List EngineStore → IntdataEngine → IntdataEngine
assign_members [] e = e
assign_members (s ∷ ss) e = assign_members ss (assign_member s e)

-- Assignments to the members of one engine.
assign_all-engine :
    (ss : List EngineStore) (d : IntData) (m : ℕ) (e : IntdataEngine)
    → m < length d.engines
    → get_elem? d.engines m ≡ some e
    → assign_all (map (engine m) ss) d
      ≡ record d { engines = set d.engines m (assign_members ss e) }
assign_all-engine [] d m e lt at =
    ap {A = List IntdataEngine} {B = IntData} (λ es. record d { engines = es })
      (sym (set-get_elem? d.engines m e at))
assign_all-engine (s ∷ ss) d m e lt at =
    let e1 = assign_member s e in
    let d1 : IntData = record d { engines = set d.engines m e1 } in
    let first : assign (engine m s) d ≡ d1 = rw (assign, at) refl in
    let at1 : get_elem? d1.engines m ≡ some e1 =
      ground (arith, get_elem?-set d.engines m m e1 lt) in
    ap (assign_all (map (engine m) ss)) first
    ∙ assign_all-engine ss d1 m e1 (omega (arith, lt, length-set d.engines m e1)) at1
    ∙ ap {A = List IntdataEngine} {B = IntData} (λ es. record d { engines = es })
        (set-set d.engines m e1 (assign_members ss e1))

run_engine_stores :
    (d : IntData) (m : ℕ) (entry : IntdataEngine)
    → m < length d.engines
    → assign_all (engine_stores m entry) d ≡ record d { engines = set d.engines m entry }
run_engine_stores d m entry lt = elim (Option-cases (get_elem? d.engines m)) [
  | inl missing ↦ absurd (let there = get_elem?-eq_some d.engines m lt in cc)
  | inr (e, at) ↦ assign_all-engine (member_stores entry) d m e lt at
]

-- The assignments in their order are what `elaborate` does.
pub assign_all-packet_stores :
    (d : IntData) (p : AfdxPacket) (time : ℕ)
    → Option.map (λ ss. assign_all ss d) (packet_stores d p time) ≡ elaborate d p time
unfolding packet_stores elaborate elaborate_adiru elaborate_engine
assign_all-packet_stores d p time =
    ground (
      arith,
      run_engine_stores d (payload_engine p).engine_id (engine_entry (payload_engine p) time),
    )
