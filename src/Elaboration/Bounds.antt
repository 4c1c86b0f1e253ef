-- ===== src/Elaboration/Bounds.antt =====
-- Which packets make the elaboration thread of src/elaboration_thread.c write out of bounds, and
-- that every other keeps the ranges of `intdata`.
use psw_afdx.Base.{
  ℕ, ◌+◌, ◌≤◌, ◌<◌, ◌≡◌, ◌↔◌, [], ◌∷◌, none, some, arith, All-set, length-set, length, Bool-cases,
  inl, inr, ◌∙◌, OnSome, OnSome-elim, ◌==◌, zero, suc, ltb,
}
use psw_afdx.Protocol.{
  AreBytes, AfdxPacket, identifier, packet_type_adiru, packet_type_engine, payload_adiru,
  payload_engine, byte_at, as_int16, as_int32, int16_at, int32_at,
}
use psw_afdx.IntData.{
  initial_intdata, IntData, IsValid, IsValidEngine, IsInt16, IsInt32, nr_engines,
}
use psw_afdx.Elaboration.{elaborate, elaborate_adiru, elaborate_engine, engine_entry}

pub initial-IsValid : IsValid initial_intdata
initial-IsValid = omega arith

-- The elaboration of a packet has undefined behaviour exactly if it is an engine packet whose
-- engine number is not below `NR_ENGINES`.
pub elaborate-eq-none :
    (d : IntData) (p : AfdxPacket) (time : ℕ)
    → IsValid d
    → (elaborate d p time ≡ none)
      ↔ ((identifier p ≡ packet_type_engine) × (nr_engines ≤ byte_at p 1))
unfolding elaborate elaborate_engine payload_engine
elaborate-eq-none d p time v = (λ e. ground arith, λ e. ground arith)

as_int16-IsInt16 : (n : ℕ) → n < 0x1_0000 → IsInt16 (as_int16 n)
unfolding as_int16
as_int16-IsInt16 n h = ground arith

as_int32-IsInt32 : (n : ℕ) → n < 0x1_0000_0000 → IsInt32 (as_int32 n)
unfolding as_int32
as_int32-IsInt32 n h = ground arith

byte_at-lt : (p : AfdxPacket) (i : ℕ) → AreBytes p → byte_at p i < 256
byte_at-lt [] i h = omega arith
byte_at-lt (b ∷ p) zero h = h.0
byte_at-lt (b ∷ p) (suc i) h = byte_at-lt p i h.1

module _ (p : AfdxPacket) (bytes : AreBytes p) where
  int16_at-IsInt16 : (i : ℕ) → IsInt16 (int16_at p i)
  unfolding int16_at
  int16_at-IsInt16 i =
      as_int16-IsInt16 _ (omega (arith, byte_at-lt p i bytes, byte_at-lt p (i + 1) bytes))

  int32_at-IsInt32 : (i : ℕ) → IsInt32 (int32_at p i)
  unfolding int32_at
  int32_at-IsInt32 i = as_int32-IsInt32 _ (
      omega (
        arith,
        byte_at-lt p i bytes,
        byte_at-lt p (i + 1) bytes,
        byte_at-lt p (i + 2) bytes,
        byte_at-lt p (i + 3) bytes,
      ))

  engine_entry-IsValid : (time : ℕ) → IsValidEngine (engine_entry (payload_engine p) time)
  unfolding engine_entry payload_engine
  engine_entry-IsValid time = record {
    throttle = byte_at-lt p 2 bytes;
    real_thrust = byte_at-lt p 3 bytes;
    oil_temp = int16_at-IsInt16 4;
    oil_press = int16_at-IsInt16 6;
    fuel_press = int16_at-IsInt16 8;
    engine_flags = omega arith;
  }

  elaborate_adiru-IsValid :
      (d : IntData) (time : ℕ) → IsValid d → IsValid (elaborate_adiru d (payload_adiru p) time)
  unfolding elaborate_adiru payload_adiru
  elaborate_adiru-IsValid d time v = record {
    count = v.count;
    engines = v.engines;
    altitude = int32_at-IsInt32 3;
    roll = int16_at-IsInt16 9;
    pitch = int16_at-IsInt16 11;
    yaw = int16_at-IsInt16 13;
    aoa = int16_at-IsInt16 7;
    airspeed = int16_at-IsInt16 1;
  }

  elaborate_engine-IsValid :
      (d : IntData) (time : ℕ)
      → IsValid d
      → OnSome IsValid (elaborate_engine d (payload_engine p) time)
  unfolding elaborate_engine
  elaborate_engine-IsValid d time v =
      let e = payload_engine p in
      let entry = engine_entry e time in
      elim (Bool-cases (ltb e.engine_id (length d.engines))) [
        | inl inside ↦ rw inside (record {
          count = length-set d.engines e.engine_id entry ∙ v.count;
          engines =
              All-set IsValidEngine d.engines e.engine_id entry (engine_entry-IsValid time)
                v.engines;
          altitude = v.altitude;
          roll = v.roll;
          pitch = v.pitch;
          yaw = v.yaw;
          aoa = v.aoa;
          airspeed = v.airspeed;
        })
        | inr outside ↦ rw outside tt
      ]

-- Every elaboration of a packet of bytes that is defined keeps the four engines and the range of
-- every field.
pub elaborate-IsValid :
    (d d' : IntData) (p : AfdxPacket) (time : ℕ)
    → IsValid d
    → AreBytes p
    → elaborate d p time ≡ some d'
    → IsValid d'
unfolding elaborate
elaborate-IsValid d d' p time v bytes = OnSome-elim IsValid (elaborate d p time) d' kept
  where
    kept : OnSome IsValid (elaborate d p time)
    kept = elim (Bool-cases (identifier p == packet_type_adiru)) [
      | inl adiru ↦ rw (adiru, elaborate) (elaborate_adiru-IsValid p bytes d time v)
      | inr other ↦ elim (Bool-cases (identifier p == packet_type_engine)) [
        | inl engine ↦ rw (other, engine, elaborate) (elaborate_engine-IsValid p bytes d time v)
        | inr unknown ↦ rw (other, unknown, elaborate) v
      ]
    ]
