-- ===== src/Serve.antt =====
-- `serve_query` of src/application_manager.c: the reply to one query, from `intdata`.
pub mod Values
pub mod Feed
pub mod Atomic
mod Tests
use psw_afdx.Base.{ℕ, Option, none, some, Bool, if◌then◌else◌, get_elem?, ℤ, is_negative}
use mathlib.Core.Option
use psw_afdx.Protocol.{
  AppQuery, AppReply, DataId, data_id_of, engine_throttle, engine_real_thrust, engine_oil_temp,
  engine_oil_press, engine_fuel_press, engine_status, engine_flags, attitude_altitude,
  attitude_roll, attitude_pitch, attitude_yaw, speeds_aoa, speeds_airspeed,
}
use psw_afdx.IntData.{IntData, IntdataEngine, status_value}

-- The `switch`: the case of a data id, at the engine with the query's number. `none` is a read
-- behind the end of `intdata.engines`, which is undefined behaviour.
unfoldable pub fill_reply : IntData → ℕ → AppReply → DataId → Option AppReply
unfolding status_value
fill_reply d n r engine_throttle =
    Option.map (λ e. record r { u8 = e.throttle }) (get_elem? d.engines n)
fill_reply d n r engine_real_thrust =
    Option.map (λ e. record r { u8 = e.real_thrust }) (get_elem? d.engines n)
fill_reply d n r engine_oil_temp =
    Option.map (λ e. record r { i16 = e.oil_temp }) (get_elem? d.engines n)
fill_reply d n r engine_oil_press =
    Option.map (λ e. record r { i16 = e.oil_press }) (get_elem? d.engines n)
fill_reply d n r engine_fuel_press =
    Option.map (λ e. record r { i16 = e.fuel_press }) (get_elem? d.engines n)
fill_reply d n r engine_status =
    Option.map (λ e. record r { u8 = status_value e.status }) (get_elem? d.engines n)
fill_reply d n r engine_flags =
    Option.map (λ e. record r { u8 = e.engine_flags }) (get_elem? d.engines n)
fill_reply d n r attitude_altitude = some (record r { i32 = d.attitude.altitude })
fill_reply d n r attitude_roll = some (record r { i16 = d.attitude.roll })
fill_reply d n r attitude_pitch = some (record r { i16 = d.attitude.pitch })
fill_reply d n r attitude_yaw = some (record r { i16 = d.attitude.yaw })
fill_reply d n r speeds_aoa = some (record r { i16 = d.speeds.aoa })
fill_reply d n r speeds_airspeed = some (record r { i16 = d.speeds.airspeed })

-- The message before the `write`. `stack` is what the uninitialised local `reply_msg` holds; the
-- `switch` has no default, so another data id leaves it but for `req_id`.
unfoldable pub reply_for : IntData → AppReply → AppQuery → Option AppReply
unfolding fill_reply data_id_of
reply_for d stack q =
    let r = record stack { req_id = q.req_id } in
    elim (data_id_of q.data_id) [ none ↦ some r | some i ↦ fill_reply d q.engine_id r i ]

pub data Served : Type 0 where
  undefined : Served
  exited : ℕ → AppReply → Served  -- the write failed, and `exit(1)` ends the process
  sent : ℕ → AppReply → Served

-- `data_sent` is the result of the `write` to the client.
unfoldable pub serve_query : IntData → AppReply → ℤ → ℕ → AppQuery → Served
unfolding reply_for
serve_query d stack data_sent fd q = elim (reply_for d stack q) [
  | none ↦ undefined
  | some r ↦ if is_negative data_sent then exited fd r else sent fd r
]
