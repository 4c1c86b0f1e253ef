-- ===== src/Pipeline/Ranges.antt =====
-- The ranges of what src/network_thread.c and src/elaboration_thread.c store: the packets in the queue,
-- and `intdata`.
use psw_afdx.Base.{
  ℕ, ◌≡◌, ◌∙◌, List, [], ◌∷◌, arith, All, All-set, OnSome, OnSome-elim, get_elem?_All, length,
}
use psw_afdx.Protocol.{AfdxPacket, AreBytes, sizeof_packet}
use psw_afdx.IntData.{IntData, initial_intdata}
use psw_afdx.IntData
use psw_afdx.Elaboration.Bounds.{initial-IsValid, elaborate-IsValid}
use psw_afdx.Queue.{NqNode, Queue, next_nqnode_in, next_nqnode_out, dispose_last_nqnode, init_queue}
use psw_afdx.Network.{overlay, receive_node, length-overlay}
use psw_afdx.Pipeline.{
  World, Step, network, elaboration, reserve, full, receive, signal, sleep, take, take_null, store,
  overrun, dispose, Reach, start, next,
}

-- The packet of a node is an `afdx_packet_t`.
abbrev pub HasPacket : NqNode → Type 0
HasPacket n = (length n.packet ≡ sizeof_packet) × AreBytes n.packet

overlay-AreBytes : (d : List ℕ) (p : AfdxPacket) → AreBytes d → AreBytes p → AreBytes (overlay d p)
overlay-AreBytes [] p hd hp = hp
overlay-AreBytes (b ∷ d) [] hd hp = tt
overlay-AreBytes (b ∷ d) (c ∷ p) hd hp = (hd.0, overlay-AreBytes d p hd.1 hp.1)

receive_node-HasPacket :
    (old : NqNode) (datagram source : List ℕ) (time : ℕ)
    → AreBytes datagram
    → HasPacket old
    → HasPacket (receive_node old datagram source time)
unfolding receive_node
receive_node-HasPacket old datagram source time bytes (size, old_bytes) = (
  length-overlay datagram old.packet ∙ size,
  overlay-AreBytes datagram old.packet bytes old_bytes,
)

in_nodes : (q : Queue) → (next_nqnode_in q).1.nodes ≡ q.nodes
unfolding next_nqnode_in
in_nodes q = ground arith

out_nodes : (q : Queue) → OnSome (λ r. r.1.nodes ≡ q.nodes) (next_nqnode_out q)
unfolding next_nqnode_out
out_nodes q = ground arith

dispose_nodes : (q : Queue) → (dispose_last_nqnode q).nodes ≡ q.nodes
unfolding dispose_last_nqnode
dispose_nodes q = ground arith

record InRange (w : World) : Type 0 where
  nodes : All HasPacket w.queue.nodes
  intdata : IntData.IsValid w.intdata

Step-InRange : (w v : World) → InRange w → Step w v → InRange v
Step-InRange w v h (network defined (reserve i e got)) = record {
  nodes = rw (in_nodes w.queue) h.nodes;
  intdata = h.intdata;
}
Step-InRange w v h (network defined (full e got)) = record {
  nodes = rw (in_nodes w.queue) h.nodes;
  intdata = h.intdata;
}
Step-InRange w v h (network defined (receive i old datagram source time bytes e at)) = record {
  nodes =
      All-set HasPacket w.queue.nodes i (receive_node old datagram source time)
        (receive_node-HasPacket old datagram source time bytes
          (get_elem?_All HasPacket w.queue.nodes i old h.nodes at))
        h.nodes;
  intdata = h.intdata;
}
Step-InRange w v h (network defined (signal e)) = record { nodes = h.nodes; intdata = h.intdata }
Step-InRange w v h (elaboration (sleep e)) = record { nodes = h.nodes; intdata = h.intdata }
Step-InRange w v h (elaboration (take i q e got)) = record {
  nodes = rw (OnSome-elim _ _ _ (out_nodes w.queue) got) h.nodes;
  intdata = h.intdata;
}
Step-InRange w v h (elaboration (take_null q e got)) = record {
  nodes = rw (OnSome-elim _ _ _ (out_nodes w.queue) got) h.nodes;
  intdata = h.intdata;
}
Step-InRange w v h (elaboration (store i n d e at ok)) = record {
  nodes = h.nodes;
  intdata =
      elaborate-IsValid w.intdata d n.packet n.last_update h.intdata
        (get_elem?_All HasPacket w.queue.nodes i n h.nodes at).1 ok;
}
Step-InRange w v h (elaboration (overrun i n e at fails)) = record {
  nodes = h.nodes;
  intdata = h.intdata;
}
Step-InRange w v h (elaboration (dispose e)) = record {
  nodes = rw (dispose_nodes w.queue) h.nodes;
  intdata = h.intdata;
}

InRange-reached :
    (nodes : List NqNode) {w : World} → All HasPacket nodes → Reach nodes w → InRange w
unfolding init_queue
InRange-reached nodes packets start = record { nodes = packets; intdata = initial-IsValid }
InRange-reached nodes packets (next {w} {v} r s) =
    Step-InRange w v (InRange-reached nodes packets r) s

-- Whatever datagrams come in and whatever the order of the steps from a start in which the queue holds
-- packets of 15 bytes, it holds such packets at all times, and `intdata` has its four engines and
-- every field in its range.
pub Reach-InRange :
    (nodes : List NqNode) (w : World)
    → All HasPacket nodes
    → Reach nodes w
    → All HasPacket w.queue.nodes × IntData.IsValid w.intdata
Reach-InRange nodes w packets r = let h = InRange-reached nodes packets r in (h.nodes, h.intdata)
