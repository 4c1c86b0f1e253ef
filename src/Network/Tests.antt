-- ===== src/Network/Tests.antt =====
-- A datagram of three bytes for src/network_thread.c.
use psw_afdx.Base.{◌≡◌, refl, arith, [], ◌∷◌, length, ltb, if◌then◌else◌}
use psw_afdx.Protocol.{byte_at}
use psw_afdx.Queue.{NqNode}
use psw_afdx.Network.{receive_node, receive_node-byte_at}

abbrev old : NqNode
old = record {
  source = [];
  packet = 2 ∷ 3 ∷ 80 ∷ 75 ∷ 5 ∷ 0 ∷ 10 ∷ 0 ∷ 20 ∷ 1 ∷ 6 ∷ 0 ∷ 0 ∷ 0 ∷ 0 ∷ [];
  last_update = 4;
}

-- An empty datagram brings the old packet back, as a new one.
empty_datagram : receive_node old [] [] 9 ≡ record old { last_update = 9 }
unfolding receive_node
empty_datagram = refl

receive_node-byte_at_example :
    (length (receive_node old (2 ∷ 1 ∷ 60 ∷ []) [] 9).packet ≡ 15)
    × (byte_at (receive_node old (2 ∷ 1 ∷ 60 ∷ []) [] 9).packet 3
        ≡ (if ltb 3 3 then byte_at (2 ∷ 1 ∷ 60 ∷ []) 3 else 75))
receive_node-byte_at_example = receive_node-byte_at old (2 ∷ 1 ∷ 60 ∷ []) [] 9 3 refl (omega arith)
