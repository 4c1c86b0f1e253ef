-- ===== src/Serve/Atomic.antt =====
-- A datum in the middle of the assignments of src/elaboration_thread.c, which no mutex protects.
use psw_afdx.Base.{
  ℤ, zero, suc, ℕ, ◌+◌, ◌≤◌, ◌≡◌, refl, sym, ap, ◌∙◌, Bool, true, false, ◌==◌, ◌&&◌, if◌then◌else◌,
  Bool-cases, Option-cases, Option, none, some, List, [], ◌∷◌, ◌++◌, arith, inl, inr, ◌⊎◌,
  get_elem?, set,
}
use mathlib.Core.Option
use psw_afdx.Serve.{serve_query, reply_for}
use psw_afdx.Protocol.{
  AppQuery, AppReply, data_id_of, AfdxPacket, AfdxAdiru, DataId, engine_throttle,
  engine_real_thrust, engine_oil_temp, engine_oil_press, engine_fuel_press, engine_status,
  engine_flags, attitude_altitude, attitude_roll, attitude_pitch, attitude_yaw, speeds_aoa,
  speeds_airspeed, payload_adiru, payload_engine,
}
use psw_afdx.IntData.{IntData, IntdataEngine}
use psw_afdx.Elaboration.{elaborate, engine_entry}
use psw_afdx.Elaboration.Stores.{
  EngineStore, set_last_update, set_throttle, set_real_thrust, set_engine_flags, set_oil_temp,
  set_oil_press, set_fuel_press, set_status, Store, set_attitude_update, set_speeds_update,
  set_altitude, set_roll, set_pitch, set_yaw, set_aoa, set_airspeed, engine, assign_member, assign,
  assign_all, adiru_stores, engine_stores, packet_stores, assign_all-packet_stores,
}
use psw_afdx.Serve.Values.{
  Value, value_of, is_engine_data, engine_value, flight_value, put_value, reply_for-value,
  reply_for-unknown,
}

-- Whether an assignment is one to the member that holds a datum.
abbrev member_holds : EngineStore → DataId → Bool
member_holds (set_throttle x) engine_throttle = true
member_holds (set_real_thrust x) engine_real_thrust = true
member_holds (set_oil_temp x) engine_oil_temp = true
member_holds (set_oil_press x) engine_oil_press = true
member_holds (set_fuel_press x) engine_fuel_press = true
member_holds (set_status x) engine_status = true
member_holds (set_engine_flags x) engine_flags = true
member_holds _ _ = false

abbrev holds : ℕ → DataId → Store → Bool
holds n i (engine m s) = (m == n) && member_holds s i
holds n attitude_altitude (set_altitude x) = true
holds n attitude_roll (set_roll x) = true
holds n attitude_pitch (set_pitch x) = true
holds n attitude_yaw (set_yaw x) = true
holds n speeds_aoa (set_aoa x) = true
holds n speeds_airspeed (set_airspeed x) = true
holds n i _ = false

abbrev count : ℕ → DataId → List Store → ℕ
count n i [] = 0
count n i (s ∷ ss) = (if holds n i s then 1 else 0) + count n i ss

count-append :
    (n : ℕ) (i : DataId) (xs ys : List Store) → count n i (xs ++ ys) ≡ count n i xs + count n i ys
count-append n i [] ys = omega arith
count-append n i (x ∷ xs) ys = omega (arith, count-append n i xs ys)

member-value :
    (s : EngineStore) (i : DataId) (e : IntdataEngine)
    → member_holds s i ≡ false
    → engine_value i (assign_member s e) ≡ engine_value i e
member-value (set_last_update x) engine_throttle e off = refl
member-value (set_throttle x) engine_throttle e off = absurd ground arith
member-value (set_real_thrust x) engine_real_thrust e off = absurd ground arith
member-value (set_oil_temp x) engine_oil_temp e off = absurd ground arith
member-value (set_oil_press x) engine_oil_press e off = absurd ground arith
member-value (set_fuel_press x) engine_fuel_press e off = absurd ground arith
member-value (set_status x) engine_status e off = absurd ground arith
member-value (set_engine_flags x) engine_flags e off = absurd ground arith
member-value _ _ e off = refl

abbrev entry_value : DataId → Option IntdataEngine → Option Value
entry_value i none = none
entry_value i (some e) = engine_value i e

entry_value-set :
    (es : List IntdataEngine) (m n : ℕ) (s : EngineStore) (i : DataId) (e : IntdataEngine)
    → get_elem? es m ≡ some e
    → ((m == n) && member_holds s i) ≡ false
    → entry_value i (get_elem? (set es m (assign_member s e)) n) ≡ entry_value i (get_elem? es n)
entry_value-set [] m n s i e at off = refl
entry_value-set (x ∷ es) zero zero s i e at off =
    let same : e ≡ x = cc in member-value s i e (ground arith) ∙ ap (engine_value i) same
entry_value-set (x ∷ es) zero (suc n) s i e at off = refl
entry_value-set (x ∷ es) (suc m) zero s i e at off = refl
entry_value-set (x ∷ es) (suc m) (suc n) s i e at off =
    entry_value-set es m n s i e at (ground arith)

value_of-entry :
    (d : IntData) (n : ℕ) (i : DataId)
    → value_of d n i
      ≡ (if is_engine_data i then entry_value i (get_elem? d.engines n) else flight_value i d)
value_of-entry d n i = ground arith

flight_value-engines :
    (i : DataId) (d : IntData) (es : List IntdataEngine)
    → flight_value i (record d { engines = es }) ≡ flight_value i d
flight_value-engines attitude_altitude d es = refl
flight_value-engines _ d es = refl

ap2-if :
    (b : Bool) {x y z w : Option Value}
    → x ≡ y
    → z ≡ w
    → (if b then x else z) ≡ (if b then y else w)
ap2-if true first second = first
ap2-if false first second = second

engine-value :
    (m n : ℕ) (s : EngineStore) (d : IntData) (i : DataId)
    → ((m == n) && member_holds s i) ≡ false
    → value_of (assign (engine m s) d) n i ≡ value_of d n i
engine-value m n s d i off = elim (Option-cases (get_elem? d.engines m)) [
  | inl missing ↦
      (let kept : assign (engine m s) d ≡ d = rw (assign, missing) refl in
        ap (λ x. value_of x n i) kept)
  | inr (e, at) ↦
      (let d1 : IntData = record d { engines = set d.engines m (assign_member s e) } in
        let put : assign (engine m s) d ≡ d1 = rw (assign, at) refl in
        ap (λ x. value_of x n i) put
        ∙ value_of-entry d1 n i
        ∙ ap2-if (is_engine_data i) (entry_value-set d.engines m n s i e at off)
            (flight_value-engines i d (set d.engines m (assign_member s e)))
        ∙ sym (value_of-entry d n i))
]

-- An assignment to another member leaves the datum.
assign-value :
    (s : Store) (i : DataId) (n : ℕ) (d : IntData)
    → holds n i s ≡ false
    → value_of (assign s d) n i ≡ value_of d n i
assign-value (engine m s) i n d off = engine-value m n s d i off
assign-value (set_attitude_update x) engine_throttle n d off = refl
assign-value (set_speeds_update x) engine_throttle n d off = refl
assign-value (set_altitude x) attitude_altitude n d off = absurd ground arith
assign-value (set_roll x) attitude_roll n d off = absurd ground arith
assign-value (set_pitch x) attitude_pitch n d off = absurd ground arith
assign-value (set_yaw x) attitude_yaw n d off = absurd ground arith
assign-value (set_aoa x) speeds_aoa n d off = absurd ground arith
assign-value (set_airspeed x) speeds_airspeed n d off = absurd ground arith
assign-value _ _ n d off = refl

assign_all-value :
    (n : ℕ) (i : DataId) (ss : List Store) (d : IntData)
    → count n i ss ≡ 0
    → value_of (assign_all ss d) n i ≡ value_of d n i
assign_all-value n i [] d none_of_them = refl
assign_all-value n i (s ∷ ss) d none_of_them =
    let off : holds n i s ≡ false = ground arith in
    assign_all-value n i ss (assign s d) (ground arith) ∙ assign-value s i n d off

assign_all-append :
    (xs ys : List Store) (d : IntData) → assign_all (xs ++ ys) d ≡ assign_all ys (assign_all xs d)
assign_all-append [] ys d = refl
assign_all-append (x ∷ xs) ys d = assign_all-append xs ys (assign x d)

adiru_stores-count :
    (n : ℕ) (i : DataId) (a : AfdxAdiru) (time : ℕ) → count n i (adiru_stores a time) ≤ 1
adiru_stores-count n engine_throttle a time = ground arith
adiru_stores-count n _ a time = ground arith

engine_stores-count : (n m : ℕ) (i : DataId) (e : IntdataEngine) → count n i (engine_stores m e) ≤ 1
engine_stores-count n m engine_throttle e = ground arith
engine_stores-count n m _ e = ground arith

packet_stores-count :
    (n : ℕ) (i : DataId) (d : IntData) (p : AfdxPacket) (time : ℕ) (ss : List Store)
    → packet_stores d p time ≡ some ss
    → count n i ss ≤ 1
unfolding packet_stores
packet_stores-count n i d p time ss is_ss = ground (
  arith,
  adiru_stores-count n i (payload_adiru p) time,
  engine_stores-count n (payload_engine p).engine_id i (engine_entry (payload_engine p) time),
)

ran :
    (d : IntData) (ss : List Store) (d' : IntData)
    → Option.map (λ ss. assign_all ss d) (some ss) ≡ some d'
    → assign_all ss d ≡ d'
ran d ss d' e = cc

-- In the middle of a packet's assignments, a datum has its value from before or the one from after.
assign_all-between :
    (d d' : IntData) (p : AfdxPacket) (time : ℕ) (xs ys : List Store) (n : ℕ) (i : DataId)
    → elaborate d p time ≡ some d'
    → packet_stores d p time ≡ some (xs ++ ys)
    → (value_of (assign_all xs d) n i ≡ value_of d n i)
      ⊎ (value_of (assign_all xs d) n i ≡ value_of d' n i)
assign_all-between d d' p time xs ys n i done stores = elim (Bool-cases (count n i xs == 0)) [
  | inl before ↦ inl (assign_all-value n i xs d (ground arith))
  | inr after ↦
      (let at_most : count n i (xs ++ ys) ≤ 1 =
          packet_stores-count n i d p time (xs ++ ys) stores in
        let rest : count n i ys ≡ 0 = ground (arith, count-append n i xs ys) in
        let whole : assign_all (xs ++ ys) d ≡ d' = ran d (xs ++ ys) d' (
          sym (ap (Option.map (λ ss. assign_all ss d)) stores)
          ∙ assign_all-packet_stores d p time
          ∙ done) in
        inr (
          sym (assign_all-value n i ys (assign_all xs d) rest)
          ∙ ap (λ x. value_of x n i) (sym (assign_all-append xs ys d) ∙ whole)))
]

serve_query-reply_for :
    (a b : IntData) (stack : AppReply) (data_sent : ℤ) (fd : ℕ) (q : AppQuery)
    → reply_for a stack q ≡ reply_for b stack q
    → serve_query a stack data_sent fd q ≡ serve_query b stack data_sent fd q
unfolding serve_query
serve_query-reply_for a b stack data_sent fd q same = rw same refl

reply_for-same :
    (a b : IntData) (stack : AppReply) (q : AppQuery) (i : DataId)
    → data_id_of q.data_id ≡ some i
    → value_of a q.engine_id i ≡ value_of b q.engine_id i
    → reply_for a stack q ≡ reply_for b stack q
reply_for-same a b stack q i asks same =
    reply_for-value a stack q i asks
    ∙ ap (Option.map (put_value (record stack { req_id = q.req_id }))) same
    ∙ sym (reply_for-value b stack q i asks)

-- If a packet takes `intdata` from `d` to `d'` by the assignments `xs` and then `ys`, a query that is
-- served after `xs` and before `ys` has the result that it has before the packet, or the one after it.
pub serve_query-between :
    (d d' : IntData) (p : AfdxPacket) (time : ℕ) (xs ys : List Store) (stack : AppReply)
    (data_sent : ℤ) (fd : ℕ) (q : AppQuery)
    → elaborate d p time ≡ some d'
    → packet_stores d p time ≡ some (xs ++ ys)
    → (serve_query (assign_all xs d) stack data_sent fd q ≡ serve_query d stack data_sent fd q)
      ⊎ (serve_query (assign_all xs d) stack data_sent fd q ≡ serve_query d' stack data_sent fd q)
serve_query-between d d' p time xs ys stack data_sent fd q done stores =
    let now = assign_all xs d in
    elim (Option-cases (data_id_of q.data_id)) [
      | inl unknown ↦ inl (
          serve_query-reply_for now d stack data_sent fd q
            (reply_for-unknown now stack q unknown ∙ sym (reply_for-unknown d stack q unknown)))
      | inr (i, asks) ↦ elim (assign_all-between d d' p time xs ys q.engine_id i done stores) [
        | inl before ↦ inl (
            serve_query-reply_for now d stack data_sent fd q
              (reply_for-same now d stack q i asks before))
        | inr after ↦ inr (
            serve_query-reply_for now d' stack data_sent fd q
              (reply_for-same now d' stack q i asks after))
      ]
    ]
