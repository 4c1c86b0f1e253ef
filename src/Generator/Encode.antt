-- ===== src/Generator/Encode.antt =====
-- A packet that src/UDP_generator.c fills is read back by src/elaboration_thread.c as it was meant.
use psw_afdx.Base.{◌+◌, ◌*◌, ◌/◌, ◌%◌, ◌<◌, ◌≡◌, refl, arith, ℤ, pos, negsuc}
use psw_afdx.Protocol.{
  AfdxPacket, AfdxAdiru, AfdxEngine, identifier, byte_at, packet_type_adiru, packet_type_engine,
  payload_adiru, payload_engine, as_int16, as_int32, int16_at, int32_at,
}
use psw_afdx.IntData.{IsInt16, IsInt32}
use psw_afdx.Protocol.{word16, word32}
use psw_afdx.Generator.{flags_byte, set_adiru, set_engine}

pub word16-lt : (z : ℤ) → word16 z < 0x1_0000
word16-lt (pos n) = omega arith
word16-lt (negsuc n) = omega arith

pub word32-lt : (z : ℤ) → word32 z < 0x1_0000_0000
word32-lt (pos n) = omega arith
word32-lt (negsuc n) = omega arith

pub as_int16-word16 : (z : ℤ) → IsInt16 z → as_int16 (word16 z % 256 + 256 * (word16 z / 256)) ≡ z
unfolding as_int16
as_int16-word16 (pos n) h = ground arith
as_int16-word16 (negsuc n) h = ground arith

pub as_int32-word32 :
    (z : ℤ)
    → IsInt32 z
    → as_int32 (
        word32 z % 256
        + 256 * (word32 z / 256 % 256)
        + 65536 * (word32 z / 65536 % 256)
        + 16777216 * (word32 z / 16777216))
      ≡ z
unfolding as_int32
as_int32-word32 (pos n) h = ground arith
as_int32-word32 (negsuc n) h = ground arith

-- Every field of an engine's data fits its member of `payload.engine`.
pub record FitsEngine (e : AfdxEngine) : Type 0 where
  pub engine_id : e.engine_id < 256
  pub throttle : e.throttle < 256
  pub real_thrust : e.real_thrust < 256
  pub oil_temp : IsInt16 e.oil_temp
  pub oil_press : IsInt16 e.oil_press
  pub fuel_press : IsInt16 e.fuel_press
  pub flag_status : e.flag_status < 4
  pub flag_reverse : e.flag_reverse < 2
  pub flag_fire : e.flag_fire < 2
  pub flag_maintainance : e.flag_maintainance < 2

pub record FitsAdiru (a : AfdxAdiru) : Type 0 where
  pub airspeed : IsInt16 a.airspeed
  pub altitude : IsInt32 a.altitude
  pub aoa : IsInt16 a.aoa
  pub roll : IsInt16 a.roll
  pub pitch : IsInt16 a.pitch
  pub yaw : IsInt16 a.yaw

set_engine-payload_engine :
    (p : AfdxPacket) (e : AfdxEngine)
    → FitsEngine e
    → (identifier (set_engine p e) ≡ packet_type_engine) × (payload_engine (set_engine p e) ≡ e)
unfolding set_engine payload_engine int16_at
set_engine-payload_engine p e h =
    let flags = flags_byte e (byte_at p 10) in
    let status : flags % 4 ≡ e.flag_status = omega arith in
    let reverse : flags / 4 % 2 ≡ e.flag_reverse = omega arith in
    let fire : flags / 8 % 2 ≡ e.flag_fire = omega arith in
    let maintainance : flags / 16 % 2 ≡ e.flag_maintainance = omega arith in
    let engine_id : e.engine_id % 256 ≡ e.engine_id = omega arith in
    let throttle : e.throttle % 256 ≡ e.throttle = omega arith in
    let real_thrust : e.real_thrust % 256 ≡ e.real_thrust = omega arith in
    (
      refl,
      cc (
        as_int16-word16 e.oil_temp h.oil_temp,
        as_int16-word16 e.oil_press h.oil_press,
        as_int16-word16 e.fuel_press h.fuel_press,
      ),
    )

set_adiru-payload_adiru :
    (p : AfdxPacket) (a : AfdxAdiru)
    → FitsAdiru a
    → (identifier (set_adiru p a) ≡ packet_type_adiru) × (payload_adiru (set_adiru p a) ≡ a)
unfolding set_adiru payload_adiru int16_at int32_at
set_adiru-payload_adiru p a h = (
  refl,
  cc (
    as_int16-word16 a.airspeed h.airspeed,
    as_int32-word32 a.altitude h.altitude,
    as_int16-word16 a.aoa h.aoa,
    as_int16-word16 a.roll h.roll,
    as_int16-word16 a.pitch h.pitch,
    as_int16-word16 a.yaw h.yaw,
  ),
)

-- Engine data and air data that fit the members of the payload are read back from the datagram as they
-- were, whatever the packet held before, and the identifier says which of them it holds.
pub set_engine-set_adiru_roundtrip :
    (p : AfdxPacket) (e : AfdxEngine) (a : AfdxAdiru)
    → FitsEngine e
    → FitsAdiru a
    → (identifier (set_engine p e) ≡ packet_type_engine)
      × (payload_engine (set_engine p e) ≡ e)
      × (identifier (set_adiru p a) ≡ packet_type_adiru)
      × (payload_adiru (set_adiru p a) ≡ a)
set_engine-set_adiru_roundtrip p e a he ha =
    let (kind, same) = set_engine-payload_engine p e he in
    let (kind2, same2) = set_adiru-payload_adiru p a ha in (kind, same, kind2, same2)
