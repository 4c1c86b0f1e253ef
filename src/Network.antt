-- ===== src/Network.antt =====
-- `recvfrom` and what follows it in src/network_thread.c: what becomes of the reserved node when a
-- datagram comes in.
mod Tests
use psw_afdx.Base.{ℕ, zero, suc, ◌<◌, ◌≡◌, refl, arith, List, [], ◌∷◌, length, ltb, if◌then◌else◌}
use psw_afdx.Protocol.{AfdxPacket, byte_at, sizeof_packet}
use psw_afdx.Queue.{NqNode}

-- The bytes of a datagram over those of the packet: a longer datagram is cut off, and a shorter one
-- leaves the bytes behind its end.
abbrev pub overlay : List ℕ → AfdxPacket → AfdxPacket
overlay [] p = p
overlay (b ∷ d) [] = []
overlay (b ∷ d) (c ∷ p) = b ∷ overlay d p

-- The node after `recvfrom` and the assignment of the time.
unfoldable pub receive_node : NqNode → (datagram source : List ℕ) → ℕ → NqNode
receive_node n datagram source time = record {
  source = source;
  packet = overlay datagram n.packet;
  last_update = time;
}

byte_at-overlay :
    (d : List ℕ) (p : AfdxPacket) (i : ℕ)
    → i < length p
    → byte_at (overlay d p) i ≡ (if ltb i (length d) then byte_at d i else byte_at p i)
byte_at-overlay [] p i lt = ground arith
byte_at-overlay (b ∷ d) [] i lt = absurd (omega arith)
byte_at-overlay (b ∷ d) (c ∷ p) zero lt = ground arith
byte_at-overlay (b ∷ d) (c ∷ p) (suc i) lt = ground (arith, byte_at-overlay d p i (omega arith))

pub length-overlay : (d : List ℕ) (p : AfdxPacket) → length (overlay d p) ≡ length p
length-overlay [] p = refl
length-overlay (b ∷ d) [] = refl
length-overlay (b ∷ d) (c ∷ p) = ground (arith, length-overlay d p)

-- The packet of a node in which a datagram has come in has the bytes of the datagram, and behind the end
-- of a short datagram those of the packet that was in the node before.
pub receive_node-byte_at :
    (n : NqNode) (datagram source : List ℕ) (time i : ℕ)
    → length n.packet ≡ sizeof_packet
    → i < sizeof_packet
    → (length (receive_node n datagram source time).packet ≡ sizeof_packet)
      × (byte_at (receive_node n datagram source time).packet i
          ≡ (if ltb i (length datagram) then byte_at datagram i else byte_at n.packet i))
unfolding receive_node
receive_node-byte_at n datagram source time i size lt = (
  ground (arith, length-overlay datagram n.packet),
  byte_at-overlay datagram n.packet i (omega arith),
)
