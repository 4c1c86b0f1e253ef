-- ===== src/Elaboration/Tests.antt =====
-- Packets for src/elaboration_thread.c, and its theorems at them.
use psw_afdx.Base.{◌≤◌, ◌≡◌, refl, ◌↔◌, none, some, [], ◌∷◌, arith, pos, set, negsuc}
use psw_afdx.Protocol.{
  AreBytes, AfdxPacket, identifier, packet_type_engine, payload_adiru, payload_engine, byte_at,
}
use psw_afdx.IntData.{IntData, initial_intdata, nr_engines}
use psw_afdx.Elaboration.{elaborate, engine_entry}
use psw_afdx.Elaboration.Bounds.{initial-IsValid, elaborate-eq-none}

-- Engine 2 at 80 and 75 percent, oil at -5 degrees, running, reversed and in maintenance.
abbrev engine_packet : AfdxPacket
engine_packet = 2 ∷ 2 ∷ 80 ∷ 75 ∷ 0xfb ∷ 0xff ∷ 10 ∷ 0 ∷ 20 ∷ 1 ∷ 0b10110 ∷ 0 ∷ 0 ∷ 0 ∷ 0 ∷ []

abbrev adiru_packet : AfdxPacket
adiru_packet = 1 ∷ 44 ∷ 1 ∷ 0x18 ∷ 0xfc ∷ 0xff ∷ 0xff ∷ 3 ∷ 0 ∷ 4 ∷ 0 ∷ 5 ∷ 0 ∷ 6 ∷ 0 ∷ []

decoded :
    ((payload_engine engine_packet).oil_temp ≡ negsuc 4)
    × ((payload_engine engine_packet).fuel_press ≡ pos 276)
    × ((payload_adiru adiru_packet).altitude ≡ negsuc 999)
unfolding payload_engine payload_adiru
decoded = (refl, refl, refl)

engine_packet-AreBytes : AreBytes engine_packet
engine_packet-AreBytes = omega arith

-- The data after the engine packet at time 7.
abbrev after_engine : IntData
after_engine = record initial_intdata {
  engines = set initial_intdata.engines 2 (engine_entry (payload_engine engine_packet) 7);
}

elaborated : elaborate initial_intdata engine_packet 7 ≡ some after_engine
unfolding elaborate payload_engine
elaborated = refl

-- An engine that does not exist.
bad_engine : elaborate initial_intdata (2 ∷ 4 ∷ 80 ∷ []) 7 ≡ none
unfolding elaborate payload_engine
bad_engine = refl

elaborate-eq-none_example :
    (elaborate initial_intdata engine_packet 7 ≡ none)
    ↔ ((identifier engine_packet ≡ packet_type_engine) × (nr_engines ≤ byte_at engine_packet 1))
elaborate-eq-none_example = elaborate-eq-none initial_intdata engine_packet 7 initial-IsValid
