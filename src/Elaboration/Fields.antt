-- ===== src/Elaboration/Fields.antt =====
-- What the elaboration thread of src/elaboration_thread.c stores for a packet.
use psw_afdx.Base.{ℕ, ◌/◌, ◌%◌, ◌≡◌, some, arith, get_elem?, get_elem?-set, ◌==◌, if◌then◌else◌}
use psw_afdx.Protocol.{AfdxPacket, identifier, packet_type_engine, payload_engine, byte_at}
use psw_afdx.IntData.{IntData, status_value}
use psw_afdx.Elaboration.{
  elaborate, elaborate_engine, engine_entry, engine_f_reverse, engine_f_on_fire, engine_f_maint,
}

-- The stored status has the value of the packet's status field, and each of the three defined bits
-- of the stored flags is the packet's flag of that name.
pub engine_entry_flags :
    (p : AfdxPacket) (time : ℕ)
    → let e = payload_engine p in
      let stored = engine_entry e time in
      (status_value stored.status ≡ e.flag_status)
      × (stored.engine_flags / engine_f_reverse % 2 ≡ e.flag_reverse)
      × (stored.engine_flags / engine_f_on_fire % 2 ≡ e.flag_fire)
      × (stored.engine_flags / engine_f_maint % 2 ≡ e.flag_maintainance)
unfolding engine_entry payload_engine status_value
engine_entry_flags p time = (ground arith, omega arith, omega arith, omega arith)

-- An engine packet that is elaborated replaces the entry of its engine, and changes nothing else.
pub elaborate-engine :
    (d d' : IntData) (p : AfdxPacket) (time : ℕ)
    → identifier p ≡ packet_type_engine
    → elaborate d p time ≡ some d'
    → ((j : ℕ)
        → get_elem? d'.engines j ≡ (
            if byte_at p 1 == j
            then some (engine_entry (payload_engine p) time)
            else get_elem? d.engines j))
      × (d'.attitude ≡ d.attitude)
      × (d'.speeds ≡ d.speeds)
unfolding elaborate elaborate_engine payload_engine
elaborate-engine d d' p time id e = (
  λ j.
      ground
        (arith, get_elem?-set d.engines (byte_at p 1) j (engine_entry (payload_engine p) time)),
  ground arith,
  ground arith,
)
