-- ===== src/Pipeline.antt =====
-- The network thread (src/network_thread.c) and the elaboration thread (src/elaboration_thread.c),
-- interleaved over the queue of src/queue.c: a step is one critical section of the queue, one system
-- call, or one access to a condition variable, and the threads take turns in any order.
--
-- `pthread_cond_signal` wakes a thread that waits, and is lost on one that does not. A wait ends by a
-- signal only: `SpuriousStep` has the wake-ups without one, which POSIX allows.
pub mod Stored
pub mod Invariant
pub mod Moves
pub mod NetKept
pub mod Kept
pub mod Safety
pub mod Lag
pub mod Flood
pub mod Ranges
mod Tests
use psw_afdx.Base.{ℕ, ◌≡◌, Bool, true, false, Option, none, some, List, [], ◌∷◌, ◌++◌, get_elem?}
use psw_afdx.IntData.{IntData, initial_intdata}
use psw_afdx.Queue.{
  NqNode, Queue, next_nqnode_in, next_nqnode_out, dispose_last_nqnode, fill, init_queue,
}
use psw_afdx.Protocol.{AreBytes}
use psw_afdx.Elaboration.{elaborate}
use psw_afdx.Network.{receive_node}

-- Where `network_thread` stands.
pub data NetPc : Type 0 where
  reserving : NetPc  -- before `next_nqnode_in`
  receiving : ℕ → NetPc  -- in `recvfrom`, with the node
  signalling : NetPc  -- before `wakeup_elaboration_thread`

-- Where `elaboration_thread` stands.
pub data ElabPc : Type 0 where
  idle : ElabPc  -- before `pthread_cond_wait`
  waiting : ElabPc  -- in it
  woken : ElabPc  -- before `next_nqnode_out`
  holding : ℕ → ElabPc  -- before the `switch`, with the node
  disposing : ElabPc  -- before `dispose_last_nqnode`
  null_read : ElabPc  -- it has read through NULL
  out_of_bounds : ElabPc  -- it has written behind `intdata.engines`

pub record World : Type 0 where
  pub queue : Queue
  pub intdata : IntData
  pub net : NetPc
  pub elab : ElabPc
  pub received : List NqNode  -- the nodes as they were received, oldest first; no part of the program

-- What a signal does.
abbrev pub wake : ElabPc → ElabPc
wake waiting = woken
wake e = e

-- A step of the network thread. `receive`: a datagram comes in; if `recvfrom` fails, the process exits,
-- and there is no step.
pub data NetStep (w : World) : World → Type 0 where
  reserve :
      (i : ℕ)
      → w.net ≡ reserving
      → (next_nqnode_in w.queue).0 ≡ some i
      → NetStep w (record w { queue = (next_nqnode_in w.queue).1; net = receiving i })
  full :
      w.net ≡ reserving
      → (next_nqnode_in w.queue).0 ≡ none
      → NetStep w (record w { queue = (next_nqnode_in w.queue).1 })
  receive :
      (i : ℕ) (old : NqNode) (datagram source : List ℕ) (time : ℕ)
      → AreBytes datagram
      → w.net ≡ receiving i
      → get_elem? w.queue.nodes i ≡ some old
      → NetStep w (record w {
        queue = fill w.queue i (receive_node old datagram source time);
        net = signalling;
        received = w.received ++ (receive_node old datagram source time ∷ []);
      })
  signal : w.net ≡ signalling → NetStep w (record w { net = reserving; elab = wake w.elab })

-- A step of the elaboration thread.
pub data ElabStep (w : World) : World → Type 0 where
  sleep : w.elab ≡ idle → ElabStep w (record w { elab = waiting })
  take :
      (i : ℕ) (q : Queue)
      → w.elab ≡ woken
      → next_nqnode_out w.queue ≡ some (some i, q)
      → ElabStep w (record w { queue = q; elab = holding i })
  take_null :
      (q : Queue)
      → w.elab ≡ woken
      → next_nqnode_out w.queue ≡ some (none, q)
      → ElabStep w (record w { queue = q; elab = null_read })
  store :
      (i : ℕ) (n : NqNode) (d : IntData)
      → w.elab ≡ holding i
      → get_elem? w.queue.nodes i ≡ some n
      → elaborate w.intdata n.packet n.last_update ≡ some d
      → ElabStep w (record w { intdata = d; elab = disposing })
  overrun :
      (i : ℕ) (n : NqNode)
      → w.elab ≡ holding i
      → get_elem? w.queue.nodes i ≡ some n
      → elaborate w.intdata n.packet n.last_update ≡ none
      → ElabStep w (record w { elab = out_of_bounds })
  dispose :
      w.elab ≡ disposing
      → ElabStep w (record w { queue = dispose_last_nqnode w.queue; elab = idle })

-- After an access out of bounds or through NULL the program is undefined: no thread has a step.
abbrev pub is_defined : ElabPc → Bool
is_defined null_read = false
is_defined out_of_bounds = false
is_defined e = true

pub data Step (w : World) : World → Type 0 where
  network : {v : World} → is_defined w.elab ≡ true → NetStep w v → Step w v
  elaboration : {v : World} → ElabStep w v → Step w v

pub data SpuriousStep (w : World) : World → Type 0 where
  awake : w.elab ≡ waiting → SpuriousStep w (record w { elab = woken })

-- The threads at their start, after `init_queue` on the static storage of the queue.
abbrev pub start_world : List NqNode → World
start_world nodes = record {
  queue = init_queue (record { in_ptr = 0; out_ptr = 0; nodes = nodes; nr_nodes = 0 });
  intdata = initial_intdata;
  net = reserving;
  elab = idle;
  received = [];
}

pub data Reach (nodes : List NqNode) : World → Type 0 where
  start : Reach nodes (start_world nodes)
  next : {w v : World} → Reach nodes w → Step w v → Reach nodes v
