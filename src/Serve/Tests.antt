-- ===== src/Serve/Tests.antt =====
-- Queries for `serve_query` of src/application_manager.c, and its theorems at them.
use psw_afdx.Base.{◌≤◌, ◌≡◌, refl, ◌↔◌, [], ◌∷◌, pos, negsuc, set, List, ◌⊎◌}
use psw_afdx.Protocol.{AfdxPacket, AppQuery, AppReply, payload_engine, engine_throttle}
use psw_afdx.IntData.{IntData, IntdataEngine, initial_intdata, nr_engines}
use psw_afdx.Elaboration.{elaborate, engine_entry}
use psw_afdx.Elaboration.Stores.{
  Store, engine, set_last_update, set_throttle, set_real_thrust, set_oil_temp, set_oil_press,
  set_fuel_press, set_status, set_engine_flags, assign_all, packet_stores,
}
use psw_afdx.Serve.Atomic.{serve_query-between}
use psw_afdx.Serve.{undefined, sent, serve_query}
use psw_afdx.Serve.Values.{value_of, AsksEngineData, serve_query-undefined}
use psw_afdx.Serve.Feed.{engine_report, elaborate-value}

abbrev engine_packet : AfdxPacket
engine_packet = 2 ∷ 2 ∷ 80 ∷ 75 ∷ 0xfb ∷ 0xff ∷ 10 ∷ 0 ∷ 20 ∷ 1 ∷ 0b10110 ∷ 0 ∷ 0 ∷ 0 ∷ 0 ∷ []

abbrev adiru_packet : AfdxPacket
adiru_packet = 1 ∷ 44 ∷ 1 ∷ 0x18 ∷ 0xfc ∷ 0xff ∷ 0xff ∷ 3 ∷ 0 ∷ 4 ∷ 0 ∷ 5 ∷ 0 ∷ 6 ∷ 0 ∷ []

abbrev after_engine : IntData
after_engine = record initial_intdata {
  engines = set initial_intdata.engines 2 (engine_entry (payload_engine engine_packet) 7);
}

-- What the stack of a thread might hold.
abbrev stack : AppReply
stack = record { req_id = 1; u8 = 2; i16 = pos 3; i32 = pos 4 }

abbrev oil_temp_query : AppQuery
oil_temp_query = record { req_id = 99; engine_id = 2; data_id = 2 }

abbrev unknown_query : AppQuery
unknown_query = record { req_id = 99; engine_id = 2; data_id = 13 }

served :
    serve_query after_engine stack (pos 16) 5 oil_temp_query
    ≡ sent 5 (record { req_id = 99; u8 = 2; i16 = negsuc 4; i32 = pos 4 })
unfolding serve_query engine_entry payload_engine
served = refl

serve_query-undefined_example :
    (serve_query initial_intdata stack (pos 16) 5 oil_temp_query ≡ undefined)
    ↔ (AsksEngineData oil_temp_query × (nr_engines ≤ 2))
serve_query-undefined_example =
    serve_query-undefined initial_intdata stack (pos 16) 5 oil_temp_query refl

elaborate-value_example :
    value_of after_engine 2 engine_throttle
    ≡ engine_report engine_throttle (payload_engine engine_packet)
unfolding elaborate payload_engine
elaborate-value_example =
    elaborate-value initial_intdata after_engine engine_packet 7 2 engine_throttle refl

abbrev entry : IntdataEngine
entry = engine_entry (payload_engine engine_packet) 7

-- The first three of the eight assignments of `engine_packet`.
abbrev first_stores : List Store
first_stores =
    engine 2 (set_last_update entry.last_update)
    ∷ engine 2 (set_throttle entry.throttle)
    ∷ engine 2 (set_real_thrust entry.real_thrust)
    ∷ []

abbrev last_stores : List Store
last_stores =
    engine 2 (set_oil_temp entry.oil_temp)
    ∷ engine 2 (set_oil_press entry.oil_press)
    ∷ engine 2 (set_fuel_press entry.fuel_press)
    ∷ engine 2 (set_status entry.status)
    ∷ engine 2 (set_engine_flags entry.engine_flags)
    ∷ []

serve_query-between_example :
    (serve_query (assign_all first_stores initial_intdata) stack (pos 16) 5 oil_temp_query
      ≡ serve_query initial_intdata stack (pos 16) 5 oil_temp_query)
    ⊎ (serve_query (assign_all first_stores initial_intdata) stack (pos 16) 5 oil_temp_query
        ≡ serve_query after_engine stack (pos 16) 5 oil_temp_query)
unfolding elaborate packet_stores payload_engine
serve_query-between_example =
    serve_query-between initial_intdata after_engine engine_packet 7 first_stores last_stores stack
      (pos 16) 5 oil_temp_query refl refl
