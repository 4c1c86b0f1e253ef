-- ===== src/Pipeline/Flood.antt =====
-- How the program of src/network_thread.c and src/elaboration_thread.c stops for good: packets that
-- come in before the elaboration thread's first wait.
use psw_afdx.Base.{
  ℕ, zero, suc, ◌≤◌, ◌<◌, ◌≡◌, ◌∙◌, refl, ap, none, some, List, arith, length, length-set,
  get_elem?_found,
}
use psw_afdx.Protocol.{AreBytes}
use psw_afdx.Network.{receive_node}
use psw_afdx.Queue.{NqNode, Queue, size_queue, next_nqnode_in, init_queue}
use psw_afdx.Pipeline.Lag.{Steps, stuck}
use psw_afdx.Pipeline.{
  reserving, idle, waiting, wake, World, start_world, network, elaboration, reserve, receive,
  signal, sleep, Reach, start, next,
}

add_node :
    (q : Queue) (k : ℕ)
    → q.in_ptr ≡ k
    → q.out_ptr ≡ 0
    → k < 99
    → ((next_nqnode_in q).0 ≡ some k)
      × ((next_nqnode_in q).1.in_ptr ≡ suc k)
      × ((next_nqnode_in q).1.out_ptr ≡ 0)
      × ((next_nqnode_in q).1.nodes ≡ q.nodes)
unfolding next_nqnode_in
add_node q k i o lt = ground arith

no_room : (q : Queue) → q.in_ptr ≡ 99 → q.out_ptr ≡ 0 → (next_nqnode_in q).0 ≡ none
unfolding next_nqnode_in
no_room q i o = ground arith

module _ (nodes : List NqNode) (full_size : length nodes ≡ size_queue) (datagram source : List ℕ)
    (time : ℕ) (bytes : AreBytes datagram) where
  -- The threads after `k` packets that the elaboration thread has slept through.
  record Flooded (k : ℕ) (w : World) : Type 0 where
    reached : Reach nodes w
    elab : w.elab ≡ idle
    net : w.net ≡ reserving
    in_ptr : w.queue.in_ptr ≡ k
    out_ptr : w.queue.out_ptr ≡ 0
    storage : length w.queue.nodes ≡ size_queue

  flood : (k : ℕ) → k ≤ 99 → (w : World) × Flooded k w
  unfolding init_queue
  flood zero le = (
    start_world nodes,
    record {
      reached = start;
      elab = refl;
      net = refl;
      in_ptr = refl;
      out_ptr = refl;
      storage = full_size;
    },
  )
  flood (suc k) le =
      let (w, f) = flood k (omega arith) in
      let (got, i, o, same) = add_node w.queue k f.in_ptr f.out_ptr (omega arith) in
      let size : length (next_nqnode_in w.queue).1.nodes ≡ size_queue =
        ap length same ∙ f.storage in
      let (old, at) =
        get_elem?_found (next_nqnode_in w.queue).1.nodes k (omega (arith, size, le)) in
      (
        _,
        record {
          reached =
              next
                (next (next f.reached (network (rw f.elab refl) (reserve k f.net got)))
                  (network (rw f.elab refl) (receive k old datagram source time bytes refl at)))
                (network (rw f.elab refl) (signal refl));
          elab = ap wake f.elab;
          net = refl;
          in_ptr = i;
          out_ptr = o;
          storage =
              length-set (next_nqnode_in w.queue).1.nodes k (receive_node old datagram source time)
              ∙ size;
        },
      )

  -- From a start with 100 nodes, whatever datagram comes in, the threads can reach a state in which the
  -- elaboration thread is in its wait and the network thread is before `next_nqnode_in` with the queue
  -- full, and from which no steps ever change anything but the value of the semaphore.
  pub stuck_reachable :
      (w : World) × Reach nodes w
      × (w.elab ≡ waiting)
      × (w.net ≡ reserving)
      × ((next_nqnode_in w.queue).0 ≡ none)
      × ((v : World)
          → Steps w v
          → v ≡ record w { queue = record w.queue { nr_nodes = v.queue.nr_nodes } })
  stuck_reachable =
      let (w, f) = flood 99 (omega arith) in
      (
        _,
        next f.reached (elaboration (sleep f.elab)),
        refl,
        f.net,
        no_room w.queue f.in_ptr f.out_ptr,
        λ v steps. stuck _ v refl f.net (no_room w.queue f.in_ptr f.out_ptr) steps,
      )
