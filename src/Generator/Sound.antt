-- ===== src/Generator/Sound.antt =====
-- The datagrams of src/UDP_generator.c are ones that src/elaboration_thread.c can elaborate.
use psw_afdx.Base.{
  ℕ, zero, suc, ◌+◌, ◌%◌, ◌<◌, ◌≡◌, refl, arith, ℤ, Bool-cases, Option-cases, inl, inr, All, List,
  [], ◌∷◌, map, some, is_negative, ◌==◌, ◌||◌,
}
use psw_afdx.Protocol.{
  AreBytes, AfdxPacket, AfdxAdiru, AfdxEngine, identifier, packet_type_engine, byte_at,
}
use psw_afdx.IntData.{IntData, nr_engines}
use psw_afdx.IntData
use psw_afdx.Elaboration.{elaborate}
use psw_afdx.Elaboration.Bounds.{elaborate-eq-none, elaborate-IsValid}
use psw_afdx.Queue.{NqNode}
use psw_afdx.Pipeline.Invariant.{elaborate_all}
use psw_afdx.Generator.{
  drop, set_unknown, set_adiru, set_engine, Vars, start_vars, adiru_example, engine_example,
  fill_packet, fill_packets, send_packets, Answers, main,
}
use psw_afdx.Generator.Encode.{word16-lt, word32-lt}

-- A packet of bytes, with the number of an engine if it is about one.
abbrev pub IsSoundPacket : AfdxPacket → Type 0
IsSoundPacket p = AreBytes p × (identifier p ≡ packet_type_engine → byte_at p 1 < nr_engines)

drop-AreBytes : (n : ℕ) (p : AfdxPacket) → AreBytes p → AreBytes (drop n p)
drop-AreBytes zero p h = h
drop-AreBytes (suc n) [] h = tt
drop-AreBytes (suc n) (b ∷ p) h = drop-AreBytes n p h.1

set_engine-AreBytes : (p : AfdxPacket) (e : AfdxEngine) → AreBytes p → AreBytes (set_engine p e)
unfolding set_engine
set_engine-AreBytes p e bytes = (
  omega arith,
  (
    omega arith,
    (
      omega arith,
      (
        omega arith,
        (
          omega arith,
          (
            omega (arith, word16-lt e.oil_temp),
            (
              omega arith,
              (
                omega (arith, word16-lt e.oil_press),
                (
                  omega arith,
                  (omega (arith, word16-lt e.fuel_press), (omega arith, drop-AreBytes 11 p bytes)),
                ),
              ),
            ),
          ),
        ),
      ),
    ),
  ),
)

set_adiru-AreBytes : (p : AfdxPacket) (a : AfdxAdiru) → AreBytes p → AreBytes (set_adiru p a)
unfolding set_adiru
set_adiru-AreBytes p a bytes = (
  omega arith,
  (
    omega arith,
    (
      omega (arith, word16-lt a.airspeed),
      (
        omega arith,
        (
          omega arith,
          (
            omega arith,
            (
              omega (arith, word32-lt a.altitude),
              (
                omega arith,
                (
                  omega (arith, word16-lt a.aoa),
                  (
                    omega arith,
                    (
                      omega (arith, word16-lt a.roll),
                      (
                        omega arith,
                        (
                          omega (arith, word16-lt a.pitch),
                          (omega arith, (omega (arith, word16-lt a.yaw), drop-AreBytes 15 p bytes)),
                        ),
                      ),
                    ),
                  ),
                ),
              ),
            ),
          ),
        ),
      ),
    ),
  ),
)

fill_packet-IsSound :
    (i : ℕ) (v : Vars) (p : AfdxPacket)
    → v.engine_id < nr_engines
    → AreBytes p
    → IsSoundPacket (fill_packet i v p).0 × ((fill_packet i v p).1.engine_id < nr_engines)
unfolding fill_packet set_unknown set_adiru set_engine
fill_packet-IsSound i v p lt bytes =
    elim (Bool-cases ((i == 3) || (i == 8) || (i == 11) || (i == 16))) [
      | inl unknown ↦
          rw unknown (((omega arith, drop-AreBytes 1 p bytes), λ e. absurd (omega arith)), lt)
      | inr known ↦ elim (Bool-cases ((i + 2) % 2 == 0)) [
        | inl engine ↦
            rw (known, engine)
              ((set_engine-AreBytes p (engine_example i v) bytes, λ e. omega arith), ground arith)
        | inr adiru ↦
            rw (known, adiru)
              ((set_adiru-AreBytes p (adiru_example i) bytes, λ e. absurd (omega arith)), lt)
      ]
    ]

fill_packets-IsSound :
    (i : ℕ) (v : Vars) (ps : List AfdxPacket)
    → v.engine_id < nr_engines
    → All AreBytes ps
    → All IsSoundPacket (fill_packets i v ps)
unfolding fill_packets
fill_packets-IsSound i v [] lt bytes = tt
fill_packets-IsSound i v (p ∷ ps) lt bytes =
    let (sound, lt') = fill_packet-IsSound i v p lt bytes.0 in
    (sound, fill_packets-IsSound (i + 1) (fill_packet i v p).1 ps lt' bytes.1)

pub send_packets-All :
    (P : AfdxPacket → Type 0) (i : ℕ) (data_sent : ℕ → ℤ) (ps : List AfdxPacket)
    → All P ps
    → All P (send_packets i data_sent ps).0
send_packets-All P i data_sent [] all = tt
send_packets-All P i data_sent (p ∷ ps) all = elim (Bool-cases (is_negative (data_sent i))) [
  | inl fails ↦ rw fails tt
  | inr sent ↦ rw sent (all.0, send_packets-All P (i + 1) data_sent ps all.1)
]

main-IsSound :
    (a : Answers) (junk : List AfdxPacket)
    → All AreBytes junk
    → All IsSoundPacket (main a junk).datagrams
unfolding main
main-IsSound a junk bytes =
    let sound = fill_packets-IsSound 0 start_vars junk (omega arith) bytes in
    let sent = send_packets-All IsSoundPacket 0 a.data_sent _ sound in
    elim (Bool-cases (is_negative a.src_sock)) [
      | inl fails ↦ rw (main, fails) tt
      | inr ok ↦ elim (Bool-cases (is_negative a.broadcast)) [
        | inl fails ↦ rw (main, ok, fails) tt
        | inr ok2 ↦ rw (main, ok, ok2) sent
      ]
    ]

elaborate_sound :
    (d : IntData) (n : NqNode)
    → IntData.IsValid d
    → IsSoundPacket n.packet
    → (d' : IntData) × (elaborate d n.packet n.last_update ≡ some d') × IntData.IsValid d'
elaborate_sound d n v sound = elim (Option-cases (elaborate d n.packet n.last_update)) [
  | inl fails ↦
      let bad = (elaborate-eq-none d n.packet n.last_update v).0 fails in
      absurd (omega (arith, sound.1 bad.0, bad.1))
  | inr (d', is) ↦ (d', is, elaborate-IsValid d d' n.packet n.last_update v sound.0 is)
]

-- The elaboration of sound packets one after the other is defined.
elaborate_all-IsSound :
    (ns : List NqNode) (d : IntData)
    → IntData.IsValid d
    → All IsSoundPacket (map (λ n. n.packet) ns)
    → (d' : IntData) × (elaborate_all d ns ≡ some d') × IntData.IsValid d'
elaborate_all-IsSound [] d v sound = (d, refl, v)
elaborate_all-IsSound (n ∷ ns) d v sound =
    let (d1, is1, v1) = elaborate_sound d n v sound.0 in
    let (d2, is2, v2) = elaborate_all-IsSound ns d1 v1 sound.1 in
    (d2, rw (elaborate_all, is1) is2, v2)

pub main-elaborate_all :
    (a : Answers) (junk : List AfdxPacket) (ns : List NqNode) (d : IntData)
    → All AreBytes junk
    → IntData.IsValid d
    → map (λ n. n.packet) ns ≡ (main a junk).datagrams
    → (d' : IntData) × (elaborate_all d ns ≡ some d') × IntData.IsValid d'
main-elaborate_all a junk ns d bytes v received =
    elaborate_all-IsSound ns d v (rw received (main-IsSound a junk bytes))
