-- ===== src/Serve/Feed.antt =====
-- From a datagram to a reply: what a client reads after the elaboration thread
-- (src/elaboration_thread.c) has taken a packet, through `serve_query` (src/application_manager.c).
use psw_afdx.Base.{
  ℕ, ◌+◌, ◌*◌, ◌≡◌, refl, Option, none, some, arith, ◌==◌, ◌&&◌, if◌then◌else◌, Bool-cases, inl,
  inr, ap, sym, ◌∙◌,
}
use psw_afdx.Protocol.{
  AfdxPacket, AfdxEngine, AfdxAdiru, DataId, identifier, packet_type_engine, packet_type_adiru,
  payload_engine, payload_adiru, byte_at, engine_throttle, engine_real_thrust, engine_oil_temp,
  engine_oil_press, engine_fuel_press, engine_status, engine_flags, attitude_altitude,
  attitude_roll, attitude_pitch, attitude_yaw, speeds_aoa, speeds_airspeed,
}
use mathlib.Core.Option
use psw_afdx.IntData.{IntData, status_value}
use psw_afdx.Elaboration.{elaborate, elaborate_adiru, engine_entry}
use psw_afdx.Elaboration.Fields.{elaborate-engine}
use psw_afdx.Serve.Values.{Value, byte, short, long, value_of, is_engine_data, engine_value}

-- What an engine packet says of a datum.
abbrev pub engine_report : DataId → AfdxEngine → Option Value
engine_report engine_throttle e = some (byte e.throttle)
engine_report engine_real_thrust e = some (byte e.real_thrust)
engine_report engine_oil_temp e = some (short e.oil_temp)
engine_report engine_oil_press e = some (short e.oil_press)
engine_report engine_fuel_press e = some (short e.fuel_press)
engine_report engine_status e = some (byte e.flag_status)
engine_report engine_flags e =
    some (byte (e.flag_reverse + 2 * e.flag_fire + 4 * e.flag_maintainance))
engine_report _ e = none

-- What an ADIRU packet says of a datum.
abbrev pub adiru_report : DataId → AfdxAdiru → Option Value
adiru_report attitude_altitude a = some (long a.altitude)
adiru_report attitude_roll a = some (short a.roll)
adiru_report attitude_pitch a = some (short a.pitch)
adiru_report attitude_yaw a = some (short a.yaw)
adiru_report speeds_aoa a = some (short a.aoa)
adiru_report speeds_airspeed a = some (short a.airspeed)
adiru_report _ a = none

engine_value-report :
    (i : DataId) (p : AfdxPacket) (time : ℕ)
    → engine_value i (engine_entry (payload_engine p) time) ≡ engine_report i (payload_engine p)
unfolding engine_entry payload_engine status_value
engine_value-report engine_throttle p time = refl
engine_value-report engine_status p time = ground arith
engine_value-report engine_flags p time = ground arith
engine_value-report _ p time = refl

-- After an engine packet, the data of that engine are what the packet says; the data of the other
-- engines, and those that are not of an engine, are as before.
elaborate-engine-value :
    (d d' : IntData) (p : AfdxPacket) (time n : ℕ) (i : DataId)
    → identifier p ≡ packet_type_engine
    → elaborate d p time ≡ some d'
    → value_of d' n i ≡ (
        if is_engine_data i
        then (if byte_at p 1 == n then engine_report i (payload_engine p) else value_of d n i)
        else value_of d n i)
elaborate-engine-value d d' p time n engine_throttle id e =
    ground
      (arith, (elaborate-engine d d' p time id e).0 n, engine_value-report engine_throttle p time)
elaborate-engine-value d d' p time n i id e = ground (
  arith,
  elaborate-engine d d' p time id e,
  (elaborate-engine d d' p time id e).0 n,
  engine_value-report i p time,
)

-- After an ADIRU packet, the data of attitude and speed are what the packet says, and those of the
-- engines are as before.
elaborate-adiru-value :
    (d : IntData) (p : AfdxPacket) (time n : ℕ) (i : DataId)
    → identifier p ≡ packet_type_adiru
    → Option.map (λ d'. value_of d' n i) (elaborate d p time)
      ≡ some (if is_engine_data i then value_of d n i else adiru_report i (payload_adiru p))
unfolding elaborate elaborate_adiru
elaborate-adiru-value d p time n engine_throttle id = ground arith
elaborate-adiru-value d p time n _ id = ground arith

-- What a packet says of a datum, if it says something, and otherwise what was said before.
abbrev pub reported : AfdxPacket → ℕ → DataId → Option Value → Option Value
reported p n i before =
    if identifier p == packet_type_adiru
    then if is_engine_data i then before else adiru_report i (payload_adiru p)
    else if (identifier p == packet_type_engine) && is_engine_data i && (byte_at p 1 == n)
    then engine_report i (payload_engine p)
    else before

-- After a packet of whatever type that the elaboration thread has taken, a datum that a client can ask for
-- is what the packet says of it, and otherwise as before: an ADIRU packet says something of attitude
-- and speed, an engine packet of the data of its engine, and any other packet nothing.
pub elaborate-value :
    (d d' : IntData) (p : AfdxPacket) (time n : ℕ) (i : DataId)
    → elaborate d p time ≡ some d'
    → value_of d' n i ≡ reported p n i (value_of d n i)
unfolding elaborate
elaborate-value d d' p time n i e = elim (Bool-cases (identifier p == packet_type_adiru)) [
  | inl adiru ↦
      let after = elaborate-adiru-value d p time n i (ground arith) in
      let here : some (value_of d' n i)
          ≡ some (if is_engine_data i then value_of d n i else adiru_report i (payload_adiru p)) =
        ap (Option.map (λ x. value_of x n i)) (sym e) ∙ after in
      rw (reported, adiru) cc
  | inr other ↦ elim (Bool-cases (identifier p == packet_type_engine)) [
    | inl engine ↦ ground (arith, elaborate-engine-value d d' p time n i (ground arith) e)
    | inr unknown ↦
        let same : d ≡ d' = (let e' = rw (elaborate, other, unknown) at e in cc) in
        rw (reported, other, unknown) (ap (λ x. value_of x n i) (sym same))
  ]
]
