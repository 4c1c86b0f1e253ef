-- ===== src/Elaboration.antt =====
-- src/elaboration_thread.c: what one round of the elaboration thread does with a packet. A write
-- behind the end of `intdata.engines` is undefined behaviour, and the result is then `none`.
pub mod Fields
pub mod Bounds
pub mod Stores
mod Tests
use psw_afdx.Base.{ℕ, ◌+◌, ◌*◌, ◌%◌, Option, none, some, ltb, ◌==◌, if◌then◌else◌, length, set}
use psw_afdx.Protocol.{
  AfdxPacket, AfdxEngine, AfdxAdiru, identifier, packet_type_adiru, packet_type_engine,
  payload_adiru, payload_engine,
}
use psw_afdx.IntData.{
  IntData, IntdataEngine, EngineStatus, stop, starting, running, shutdown_in_progress,
}

-- `ENGINE_F_REVERSE`, `ENGINE_F_ON_FIRE` and `ENGINE_F_MAINT`.
abbrev pub engine_f_reverse : ℕ
engine_f_reverse = 1

abbrev pub engine_f_on_fire : ℕ
engine_f_on_fire = 2

abbrev pub engine_f_maint : ℕ
engine_f_maint = 4

-- The enumerator whose value is that of the two-bit field `flag_status`.
unfoldable pub status_of : ℕ → EngineStatus
status_of n =
    if n == 0
    then stop
    else if n == 1
    then starting
    else if n == 2
    then running
    else shutdown_in_progress

-- The case `AFDX_PACKET_TYPE_ADIRU`.
unfoldable pub elaborate_adiru : IntData → AfdxAdiru → ℕ → IntData
elaborate_adiru d a time = record d {
  attitude = record {
    last_update = time;
    altitude = a.altitude;
    roll = a.roll;
    pitch = a.pitch;
    yaw = a.yaw;
  };
  speeds = record { last_update = time; aoa = a.aoa; airspeed = a.airspeed };
}

-- What the case `AFDX_PACKET_TYPE_ENGINE` stores at the engine's index. `engine_flags` is a byte.
unfoldable pub engine_entry : AfdxEngine → ℕ → IntdataEngine
unfolding status_of
engine_entry e time = record {
  last_update = time;
  throttle = e.throttle;
  real_thrust = e.real_thrust;
  oil_temp = e.oil_temp;
  oil_press = e.oil_press;
  fuel_press = e.fuel_press;
  status = status_of e.flag_status;
  engine_flags =
      (e.flag_reverse * engine_f_reverse
        + e.flag_fire * engine_f_on_fire
        + e.flag_maintainance * engine_f_maint)
      % 256;
}

unfoldable pub elaborate_engine : IntData → AfdxEngine → ℕ → Option IntData
elaborate_engine d e time =
    if ltb e.engine_id (length d.engines)
    then some (record d { engines = set d.engines e.engine_id (engine_entry e time) })
    else none

-- The `switch` on the packet's identifier, for a node with its time of reception.
unfoldable pub elaborate : IntData → AfdxPacket → ℕ → Option IntData
unfolding elaborate_adiru elaborate_engine
elaborate d p time =
    if identifier p == packet_type_adiru
    then some (elaborate_adiru d (payload_adiru p) time)
    else if identifier p == packet_type_engine
    then elaborate_engine d (payload_engine p) time
    else some d
