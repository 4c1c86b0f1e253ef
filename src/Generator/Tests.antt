-- ===== src/Generator/Tests.antt =====
-- Runs of src/UDP_generator.c, and the theorems at them.
use psw_afdx.Base.{
  ℕ, zero, suc, ◌≡◌, refl, arith, pos, negsuc, List, [], ◌∷◌, map, some, ◌==◌, if◌then◌else◌,
}
use psw_afdx.Protocol.{
  AfdxPacket, identifier, packet_type_adiru, packet_type_engine, payload_adiru, payload_engine,
}
use psw_afdx.IntData.{IntData, initial_intdata}
use psw_afdx.IntData
use psw_afdx.Elaboration.Bounds.{initial-IsValid}
use psw_afdx.Queue.{NqNode}
use psw_afdx.Pipeline.Invariant.{elaborate_all}
use psw_afdx.Generator.{
  set_adiru, set_engine, adiru_example, engine_example, start_vars, fill_packets, Answers, main,
}
use psw_afdx.Generator.Encode.{set_engine-set_adiru_roundtrip}
use psw_afdx.Network.{receive_node}
use psw_afdx.Generator.Received.{main-receive_node}

abbrev junk : AfdxPacket
junk = 7 ∷ 7 ∷ 7 ∷ 7 ∷ 7 ∷ 7 ∷ 7 ∷ 7 ∷ 7 ∷ 7 ∷ 255 ∷ 7 ∷ 7 ∷ 7 ∷ 7 ∷ []

abbrev copies : ℕ → List AfdxPacket
copies zero = []
copies (suc n) = junk ∷ copies n

-- The 20 packets: as the comments say, 4 are unknown, 8 are about the air data, and 8 about an engine.
kinds :
    map identifier (fill_packets 0 start_vars (copies 20))
    ≡ 2 ∷ 1 ∷ 2 ∷ 0 ∷ 2 ∷ 1 ∷ 2 ∷ 1 ∷ 0 ∷ 1 ∷ 2 ∷ 0 ∷ 2 ∷ 1 ∷ 2 ∷ 1 ∷ 0 ∷ 1 ∷ 2 ∷ 1 ∷ []
unfolding fill_packets
kinds = refl

set_engine-set_adiru_roundtrip_example :
    (identifier (set_engine junk (engine_example 0 start_vars)) ≡ packet_type_engine)
    × (payload_engine (set_engine junk (engine_example 0 start_vars)) ≡ engine_example 0 start_vars)
    × (identifier (set_adiru junk (adiru_example 1)) ≡ packet_type_adiru)
    × (payload_adiru (set_adiru junk (adiru_example 1)) ≡ adiru_example 1)
set_engine-set_adiru_roundtrip_example =
    set_engine-set_adiru_roundtrip junk (engine_example 0 start_vars) (adiru_example 1)
      (omega arith) (omega arith)

-- The second call of `sendto` fails.
abbrev answers : Answers
answers = record {
  src_sock = pos 3;
  broadcast = pos 0;
  data_sent = λ i. if i == 1 then negsuc 0 else pos 15;
  closed = pos 0;
}

abbrev first_datagram : AfdxPacket
first_datagram = set_engine junk (engine_example 0 start_vars)

sent : (main answers (junk ∷ junk ∷ [])).datagrams ≡ first_datagram ∷ []
unfolding main
sent = refl

abbrev stale : NqNode
stale = record { source = []; packet = junk; last_update = 0 }

-- The node in which the first datagram has come in, at time 9.
abbrev received : NqNode
received = receive_node stale first_datagram [] 9

main-receive_node_example :
    (d : IntData) × (elaborate_all initial_intdata (received ∷ []) ≡ some d) × IntData.IsValid d
unfolding main
main-receive_node_example =
    main-receive_node answers (junk ∷ junk ∷ []) (received ∷ []) initial_intdata (omega arith)
      (refl, (refl, tt)) initial-IsValid ((stale, [], 9, refl, refl), tt)
