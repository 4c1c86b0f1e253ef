-- ===== src/Generator/Received.antt =====
-- The datagrams of src/UDP_generator.c as src/network_thread.c stores them.
use psw_afdx.Base.{
  ℕ, zero, suc, ◌+◌, ◌≤◌, ◌≡◌, refl, sym, ap, ◌∙◌, arith, List, [], ◌∷◌, map, some, All, length,
  Bool-cases, inl, inr, is_negative, ◌==◌, ◌||◌, ◌%◌,
}
use psw_afdx.Protocol.{AfdxPacket, AreBytes, sizeof_packet}
use psw_afdx.IntData.{IntData}
use psw_afdx.IntData
use psw_afdx.Queue.{NqNode}
use psw_afdx.Network.{overlay, receive_node}
use psw_afdx.Pipeline.Invariant.{elaborate_all}
use psw_afdx.Generator.{
  drop, set_unknown, set_adiru, set_engine, Vars, start_vars, fill_packet, fill_packets, Answers,
  main,
}
use psw_afdx.Generator.Sound.{send_packets-All, main-elaborate_all}

abbrev pub HasSize : List ℕ → Type 0
HasSize p = length p ≡ sizeof_packet

length-drop : (n : ℕ) (p : List ℕ) → n ≤ length p → length (drop n p) + n ≡ length p
length-drop zero p le = omega arith
length-drop (suc n) [] le = absurd (omega arith)
length-drop (suc n) (b ∷ p) le = omega (arith, length-drop n p (omega arith))

fill_packet-HasSize :
    (i : ℕ) (v : Vars) (p : AfdxPacket) → HasSize p → HasSize (fill_packet i v p).0
unfolding fill_packet set_unknown set_adiru set_engine
fill_packet-HasSize i v p size =
    elim (Bool-cases ((i == 3) || (i == 8) || (i == 11) || (i == 16))) [
      | inl unknown ↦ rw unknown (omega (arith, size, length-drop 1 p (omega (arith, size))))
      | inr known ↦ elim (Bool-cases ((i + 2) % 2 == 0)) [
        | inl engine ↦
            rw (known, engine) (omega (arith, size, length-drop 11 p (omega (arith, size))))
        | inr adiru ↦
            rw (known, adiru) (omega (arith, size, length-drop 15 p (omega (arith, size))))
      ]
    ]

fill_packets-HasSize :
    (i : ℕ) (v : Vars) (ps : List AfdxPacket) → All HasSize ps → All HasSize (fill_packets i v ps)
unfolding fill_packets
fill_packets-HasSize i v [] sizes = tt
fill_packets-HasSize i v (p ∷ ps) sizes = (
  fill_packet-HasSize i v p sizes.0,
  fill_packets-HasSize (i + 1) (fill_packet i v p).1 ps sizes.1,
)

main-HasSize :
    (a : Answers) (junk : List AfdxPacket) → All HasSize junk → All HasSize (main a junk).datagrams
unfolding main
main-HasSize a junk sizes =
    let sent =
      send_packets-All HasSize 0 a.data_sent _ (fill_packets-HasSize 0 start_vars junk sizes) in
    elim (Bool-cases (is_negative a.src_sock)) [
      | inl fails ↦ rw (main, fails) tt
      | inr ok ↦ elim (Bool-cases (is_negative a.broadcast)) [
        | inl fails ↦ rw (main, ok, fails) tt
        | inr ok2 ↦ rw (main, ok, ok2) sent
      ]
    ]

-- The nodes in which the datagrams have come in, one after the other.
abbrev pub Received : List (List ℕ) → List NqNode → Type 0
Received [] [] = Unit
Received [] (n ∷ ns) = ⊥
Received (d ∷ ds) [] = ⊥
Received (d ∷ ds) (n ∷ ns) =
    ((old : NqNode) × (source : List ℕ) × (time : ℕ) × HasSize old.packet
      × (n ≡ receive_node old d source time))
    × Received ds ns

overlay_whole : (d p : List ℕ) → length d ≡ length p → overlay d p ≡ d
overlay_whole [] [] e = refl
overlay_whole [] (c ∷ p) e = absurd (omega (arith, e))
overlay_whole (b ∷ d) [] e = absurd (omega (arith, e))
overlay_whole (b ∷ d) (c ∷ p) e = ap (λ x. b ∷ x) (overlay_whole d p (omega (arith, e)))

Received-map :
    (ds : List (List ℕ)) (ns : List NqNode)
    → All HasSize ds
    → Received ds ns
    → map (λ n. n.packet) ns ≡ ds
unfolding receive_node
Received-map [] [] sizes r = refl
Received-map [] (n ∷ ns) sizes r = absurd r
Received-map (d ∷ ds) [] sizes r = absurd r
Received-map (d ∷ ds) (n ∷ ns) sizes ((old, source, time, size, is), r) =
    let whole = overlay_whole d old.packet (sizes.0 ∙ sym size) in
    let same : n.packet ≡ d = ap (λ x. x.packet) is ∙ whole in
    let rest = Received-map ds ns sizes.1 r in cc

-- When the network thread has received the datagrams that the generator sends, in their order, into
-- nodes with packets of 15 bytes, the elaboration of these nodes from valid `intdata` is defined, and
-- `intdata` is valid afterwards, whatever bytes the generator's stack held and whichever of its system
-- calls fail.
pub main-receive_node :
    (a : Answers) (junk : List AfdxPacket) (ns : List NqNode) (d : IntData)
    → All AreBytes junk
    → All HasSize junk
    → IntData.IsValid d
    → Received (main a junk).datagrams ns
    → (d' : IntData) × (elaborate_all d ns ≡ some d') × IntData.IsValid d'
main-receive_node a junk ns d bytes sizes v received =
    main-elaborate_all a junk ns d bytes v
      (Received-map (main a junk).datagrams ns (main-HasSize a junk sizes) received)
