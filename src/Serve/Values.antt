-- ===== src/Serve/Values.antt =====
-- The replies of `serve_query` (src/application_manager.c) against the table of the data that a
-- client can ask for: which of them is a property of an engine, and which member of the reply
-- carries it.
use psw_afdx.Base.{
  ℕ, ◌≤◌, ◌≡◌, refl, ◌↔◌, Bool, true, false, Option, none, some, arith, get_elem?,
  get_elem?-eq_none, get_elem?-eq_some, if◌then◌else◌, length, ℤ, OnSome, Option-cases, Bool-cases,
  is_negative, inl, inr, sym, ap, ◌∙◌,
}
use mathlib.Core.Option
use psw_afdx.Protocol.{
  AppQuery, AppReply, DataId, data_id_of, engine_throttle, engine_real_thrust, engine_oil_temp,
  engine_oil_press, engine_fuel_press, engine_status, engine_flags, attitude_altitude,
  attitude_roll, attitude_pitch, attitude_yaw, speeds_aoa, speeds_airspeed,
}
use psw_afdx.IntData.{IntData, nr_engines, status_value, IntdataEngine}
use psw_afdx.Serve.{undefined, exited, sent, fill_reply, reply_for, serve_query}

-- A value of one of the three types of the reply.
pub data Value : Type 0 where
  byte : ℕ → Value
  short : ℤ → Value
  long : ℤ → Value

abbrev pub engine_value : DataId → IntdataEngine → Option Value
engine_value engine_throttle e = some (byte e.throttle)
engine_value engine_real_thrust e = some (byte e.real_thrust)
engine_value engine_oil_temp e = some (short e.oil_temp)
engine_value engine_oil_press e = some (short e.oil_press)
engine_value engine_fuel_press e = some (short e.fuel_press)
engine_value engine_status e = some (byte (status_value e.status))
engine_value engine_flags e = some (byte e.engine_flags)
engine_value _ e = none

abbrev pub is_engine_data : DataId → Bool
is_engine_data engine_throttle = true
is_engine_data engine_real_thrust = true
is_engine_data engine_oil_temp = true
is_engine_data engine_oil_press = true
is_engine_data engine_fuel_press = true
is_engine_data engine_status = true
is_engine_data engine_flags = true
is_engine_data _ = false

abbrev pub flight_value : DataId → IntData → Option Value
flight_value attitude_altitude d = some (long d.attitude.altitude)
flight_value attitude_roll d = some (short d.attitude.roll)
flight_value attitude_pitch d = some (short d.attitude.pitch)
flight_value attitude_yaw d = some (short d.attitude.yaw)
flight_value speeds_aoa d = some (short d.speeds.aoa)
flight_value speeds_airspeed d = some (short d.speeds.airspeed)
flight_value _ d = none

-- The current value of a datum; `none` where the engine does not exist.
abbrev pub value_of : IntData → ℕ → DataId → Option Value
value_of d n i =
    if is_engine_data i
    then elim (get_elem? d.engines n) [ none ↦ none | some e ↦ engine_value i e ]
    else flight_value i d

-- How a client reads the reply to a query for a datum.
abbrev pub read_reply : DataId → AppReply → Value
read_reply attitude_altitude r = long r.i32
read_reply engine_throttle r = byte r.u8
read_reply engine_real_thrust r = byte r.u8
read_reply engine_status r = byte r.u8
read_reply engine_flags r = byte r.u8
read_reply _ r = short r.i16

-- The reply with a value put into the member of its type.
abbrev pub put_value : AppReply → Value → AppReply
put_value r (byte b) = record r { u8 = b }
put_value r (short z) = record r { i16 = z }
put_value r (long z) = record r { i32 = z }

fill_reply-value :
    (d : IntData) (n : ℕ) (r : AppReply) (i : DataId)
    → fill_reply d n r i ≡ Option.map (put_value r) (value_of d n i)
unfolding fill_reply
fill_reply-value d n r engine_throttle = ground arith
fill_reply-value d n r _ = ground arith

read-put :
    (d : IntData) (n : ℕ) (r : AppReply) (i : DataId)
    → Option.map (read_reply i) (Option.map (put_value r) (value_of d n i)) ≡ value_of d n i
read-put d n r engine_throttle = ground arith
read-put d n r _ = ground arith

-- The message for a query with a data id of the protocol is what the stack held, with the request's
-- id, and with the current value of the datum in the member of the datum's type; it is undefined
-- if the datum does not exist.
pub reply_for-value :
    (d : IntData) (stack : AppReply) (q : AppQuery) (i : DataId)
    → data_id_of q.data_id ≡ some i
    → reply_for d stack q
      ≡ Option.map (put_value (record stack { req_id = q.req_id })) (value_of d q.engine_id i)
unfolding reply_for
reply_for-value d stack q i e = rw e (fill_reply-value d q.engine_id _ i)

-- The answer to a query with a data id outside the protocol is what the stack held, with the
-- request's id.
pub reply_for-unknown :
    (d : IntData) (stack : AppReply) (q : AppQuery)
    → data_id_of q.data_id ≡ none
    → reply_for d stack q ≡ some (record stack { req_id = q.req_id })
unfolding reply_for
reply_for-unknown d stack q e = rw e

-- A client that sends a data id of the protocol, and reads the member of the reply that has the
-- datum's type, gets the current value of the datum; the reply is undefined exactly if there is no
-- such value.
pub read-reply_for :
    (d : IntData) (stack : AppReply) (q : AppQuery) (i : DataId)
    → data_id_of q.data_id ≡ some i
    → Option.map (read_reply i) (reply_for d stack q) ≡ value_of d q.engine_id i
read-reply_for d stack q i e = rw (reply_for-value d stack q i e) (read-put d q.engine_id _ i)

-- The reply to any query carries the id of the request.
pub req_id-reply_for :
    (d : IntData) (stack : AppReply) (q : AppQuery)
    → OnSome (λ r. r.req_id ≡ q.req_id) (reply_for d stack q)
unfolding reply_for
req_id-reply_for d stack q = go (data_id_of q.data_id)
  where
    kept :
        (v : Option Value)
        → OnSome
            (λ (r : AppReply). r.req_id ≡ q.req_id)
            (Option.map (put_value (record stack { req_id = q.req_id })) v)
    kept none = tt
    kept (some (byte b)) = refl
    kept (some (short z)) = refl
    kept (some (long z)) = refl

    go :
        (o : Option DataId)
        → OnSome
            (λ (r : AppReply). r.req_id ≡ q.req_id)
            (elim o [
              | none ↦ some (record stack { req_id = q.req_id })
              | some i ↦ fill_reply d q.engine_id (record stack { req_id = q.req_id }) i
            ])
    go none = refl
    go (some i) = rw (fill_reply-value d q.engine_id _ i) (kept (value_of d q.engine_id i))

map-eq_none : {A B : Type 0} (f : A → B) (o : Option A) → Option.map f o ≡ none → o ≡ none
map-eq_none f none h = refl
map-eq_none f (some a) h = cc

-- The query has the data id of a datum of an engine.
abbrev pub AsksEngineData : AppQuery → Type 0
AsksEngineData q = Option.map is_engine_data (data_id_of q.data_id) ≡ some true

pub value_of-eq_none :
    (d : IntData) (n : ℕ) (i : DataId)
    → length d.engines ≡ nr_engines
    → (value_of d n i ≡ none) ↔ ((is_engine_data i ≡ true) × (nr_engines ≤ n))
value_of-eq_none d n engine_throttle e = (
  λ h. ground (arith, get_elem?-eq_some d.engines n),
  λ h. ground (arith, get_elem?-eq_none d.engines n),
)
value_of-eq_none d n _ e = (
  λ h. ground (arith, get_elem?-eq_some d.engines n),
  λ h. ground (arith, get_elem?-eq_none d.engines n),
)

pub reply_for-eq_none :
    (d : IntData) (stack : AppReply) (q : AppQuery)
    → length d.engines ≡ nr_engines
    → (reply_for d stack q ≡ none) ↔ (AsksEngineData q × (nr_engines ≤ q.engine_id))
reply_for-eq_none d stack q e = elim (Option-cases (data_id_of q.data_id)) [
  | inl unknown ↦
      (λ h. ground (arith, reply_for-unknown d stack q unknown), λ h. ground (arith, unknown))
  | inr (i, known) ↦ (
    λ h. ground (
      arith,
      reply_for-value d stack q i known,
      (value_of-eq_none d q.engine_id i e).0
          (map-eq_none _ _ (sym (reply_for-value d stack q i known) ∙ h)),
    ),
    λ h.
        reply_for-value d stack q i known
        ∙ ap (Option.map _) ((value_of-eq_none d q.engine_id i e).1 (ground (arith, known), h.1)),
  )
]

-- A query with a data id of the protocol, for a datum that exists, is answered with one message to
-- the client's descriptor: what the stack held, with the request's id, and with the current value of
-- the datum in the member of its type. If the write fails, the process exits.
pub serve_query-value :
    (d : IntData) (stack : AppReply) (data_sent : ℤ) (fd : ℕ) (q : AppQuery) (i : DataId)
    (v : Value)
    → data_id_of q.data_id ≡ some i
    → value_of d q.engine_id i ≡ some v
    → let r = put_value (record stack { req_id = q.req_id }) v in
      serve_query d stack data_sent fd q
      ≡ (if is_negative data_sent then exited fd r else sent fd r)
unfolding serve_query
serve_query-value d stack data_sent fd q i v known has_value =
    let message : reply_for d stack q ≡ some (put_value (record stack { req_id = q.req_id }) v) =
      reply_for-value d stack q i known ∙ ap (Option.map _) has_value in
    rw message

-- Serving a query has undefined behaviour exactly if it asks for a datum of an engine whose number
-- is not below `NR_ENGINES`.
pub serve_query-undefined :
    (d : IntData) (stack : AppReply) (data_sent : ℤ) (fd : ℕ) (q : AppQuery)
    → length d.engines ≡ nr_engines
    → (serve_query d stack data_sent fd q ≡ undefined)
      ↔ (AsksEngineData q × (nr_engines ≤ q.engine_id))
unfolding serve_query
serve_query-undefined d stack data_sent fd q e =
    let (to, from) = reply_for-eq_none d stack q e in (λ h. to (no_message h), λ h. rw (from h))
  where
    no_message : serve_query d stack data_sent fd q ≡ undefined → reply_for d stack q ≡ none
    no_message h = elim (Option-cases (reply_for d stack q)) [
      | inl e ↦ e
      | inr (r, e) ↦ elim (Bool-cases (is_negative data_sent)) [
        | inl failed ↦ cc (rw (e, failed) at h)
        | inr done ↦ cc (rw (e, done) at h)
      ]
    ]
