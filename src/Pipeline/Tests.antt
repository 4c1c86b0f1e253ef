-- ===== src/Pipeline/Tests.antt =====
-- A run of the threads of src/network_thread.c and src/elaboration_thread.c, and the theorems at it.
use psw_afdx.Base.{
  ℕ, zero, suc, ◌<◌, ◌≡◌, ◌≢◌, refl, none, some, List, [], ◌∷◌, ◌++◌, map, arith, All,
}
use psw_afdx.IntData.{initial_intdata}
use psw_afdx.Queue.{NqNode, next_nqnode_in, next_nqnode_out, init_queue, sem_post}
use psw_afdx.Pipeline.{
  reserving, receiving, waiting, woken, holding, out_of_bounds, World, wake, Step, SpuriousStep,
  awake, network, elaboration, reserve, receive, signal, sleep, take, start_world, Reach, start,
  next,
}
use psw_afdx.Network.{receive_node}
use psw_afdx.Pipeline.Ranges.{HasPacket, Reach-InRange}
use psw_afdx.IntData
use psw_afdx.Pipeline.Stored.{reserved, stored}
use psw_afdx.Pipeline.Invariant.{elaborate_all}
use psw_afdx.Pipeline.Safety.{
  received_lem, receiving-neq_holding, Progress, elab-Progress, elab-neq_out_of_bounds,
}
use psw_afdx.Pipeline.Lag.{lag, Steps, lost_signal, here}
use psw_afdx.Pipeline.Flood.{stuck_reachable}

abbrev datagram : List ℕ
datagram = 2 ∷ 3 ∷ 80 ∷ 0 ∷ 0 ∷ 0 ∷ 0 ∷ 0 ∷ 0 ∷ 0 ∷ 0 ∷ 0 ∷ 0 ∷ 0 ∷ 0 ∷ []

abbrev node : ℕ → NqNode
node t = record { source = []; packet = datagram; last_update = t }

abbrev copies : ℕ → NqNode → List NqNode
copies zero n = []
copies (suc k) n = n ∷ copies k n

abbrev storage : List NqNode
storage = copies 100 (node 0)

storage-HasPacket : All HasPacket storage
storage-HasPacket = ground arith

abbrev Run : Type 0
Run = (w : World) × Reach storage w

-- The elaboration thread sleeps, a packet comes in and wakes it up, and it takes the node while the
-- network thread receives the next packet.
abbrev asleep : Run
asleep = (_, next start (elaboration (sleep refl)))

abbrev first_packet : Run
unfolding next_nqnode_in init_queue
first_packet = (
  _,
  next (next asleep.1 (network refl (reserve 0 refl refl)))
      (network refl (receive 0 (node 0) datagram [] 7 (omega arith) refl refl)),
)

abbrev second_packet : Run
unfolding next_nqnode_in init_queue
second_packet = (
  _,
  next (next first_packet.1 (network refl (signal refl))) (network refl (reserve 1 refl refl)),
)

abbrev taken : Run
unfolding next_nqnode_in next_nqnode_out init_queue sem_post
taken = (_, next second_packet.1 (elaboration (take 0 _ refl refl)))

abbrev second_received : Run
unfolding taken
second_received =
    (_, next taken.1 (network refl (receive 1 (node 0) datagram [] 8 (omega arith) refl refl)))

received_lem_example :
    (past : List NqNode) × (pending : List NqNode) × (first_packet.0.received ≡ past ++ pending)
    × (stored first_packet.0.queue (reserved first_packet.0.net) ≡ map some pending)
    × (first_packet.0.elab ≡ waiting
        → elaborate_all initial_intdata past ≡ some first_packet.0.intdata)
received_lem_example = received_lem storage first_packet.0 refl first_packet.1

receiving-neq_holding_example : ◌≢◌ {A = ℕ} 1 0
unfolding taken
receiving-neq_holding_example = receiving-neq_holding storage taken.0 refl taken.1 1 0 refl refl

elab-Progress_example : Progress taken.0
elab-Progress_example = elab-Progress storage taken.0 refl taken.1

elab-neq_out_of_bounds_example : taken.0.elab ≢ out_of_bounds
unfolding taken receive_node
elab-neq_out_of_bounds_example = elab-neq_out_of_bounds storage taken.0 refl taken.1 (omega arith)

lost_signal_example :
    lag second_received.0
    < lag (record second_received.0 { net = reserving; elab = wake second_received.0.elab })
unfolding second_received
lost_signal_example =
    lost_signal storage second_received.0 _ refl second_received.1 refl (λ same. cc) here

abbrev filled : World
filled = record (start_world storage) {
  queue = record { in_ptr = 99; out_ptr = 0; nodes = storage; nr_nodes = 99 };
  elab = waiting;
}

filled-full : (next_nqnode_in filled.queue).0 ≡ none
unfolding next_nqnode_in
filled-full = refl

abbrev filled_again : World
filled_again = record filled { queue = (next_nqnode_in filled.queue).1 }

stuck_reachable_example :
    (w : World) × Reach storage w
    × (w.elab ≡ waiting)
    × (w.net ≡ reserving)
    × ((next_nqnode_in w.queue).0 ≡ none)
    × ((v : World)
        → Steps w v
        → v ≡ record w { queue = record w.queue { nr_nodes = v.queue.nr_nodes } })
stuck_reachable_example = stuck_reachable storage refl datagram [] 7 (omega arith)

-- A wake-up without a signal makes the elaboration thread take the node that is being received.
spurious :
    (w : World) × (v : World) × Reach storage w
    × (w.net ≡ receiving 0)
    × SpuriousStep w v
    × (v.elab ≡ woken)
    × (v.net ≡ receiving 0)
    × ((u : World) × Step v u × (u.elab ≡ holding 0) × (u.net ≡ receiving 0))
unfolding next_nqnode_in next_nqnode_out init_queue sem_post
spurious = (
  _,
  _,
  next asleep.1 (network refl (reserve 0 refl refl)),
  refl,
  awake refl,
  refl,
  refl,
  (_, elaboration (take 0 _ refl refl), refl, refl),
)

taken_in_range : All HasPacket taken.0.queue.nodes × IntData.IsValid taken.0.intdata
taken_in_range = Reach-InRange storage taken.0 storage-HasPacket taken.1
