-- ===== src/Queue.antt =====
-- src/queue.c and include/queue.h: the circular queue between the network thread and the
-- elaboration thread. The static variables are the fields of a record; a node pointer is its index
-- in `nodes`, and NULL is `none`. Each function is one critical section of `queue_mutex`, so it is
-- one step on the record.
pub mod Window
pub mod Fifo
mod Tests
use psw_afdx.Base.{
  ℕ, zero, suc, ◌+◌, ◌-◌, ◌%◌, ◌<◌, ◌≡◌, Option, none, some, List, ltb, ◌==◌, if◌then◌else◌, length,
  set,
}
use psw_afdx.Protocol.{AfdxPacket}

-- `nqnode_t`; the sender's address is kept as its bytes.
pub record NqNode : Type 0 where
  pub source : List ℕ
  pub packet : AfdxPacket
  pub last_update : ℕ

-- `SIZE_QUEUE`.
abbrev pub size_queue : ℕ
size_queue = 100

pub record Queue : Type 0 where
  pub in_ptr : ℕ
  pub out_ptr : ℕ
  pub nodes : List NqNode
  pub nr_nodes : ℕ  -- the value of the semaphore

-- `SEM_VALUE_MAX`; at this value `sem_post` fails and changes nothing.
abbrev pub sem_value_max : ℕ
sem_value_max = 0x7fff_ffff

unfoldable pub sem_post : ℕ → ℕ
sem_post n = if ltb n sem_value_max then n + 1 else n

-- The node for the next packet; `none` when the queue is full.
unfoldable pub next_nqnode_in : Queue → Option ℕ × Queue
unfolding sem_post
next_nqnode_in q =
    let nptr = (q.in_ptr + 1) % size_queue in
    if nptr == q.out_ptr
    then (none, record q { nr_nodes = sem_post q.nr_nodes })
    else (some q.in_ptr, record q { in_ptr = nptr; nr_nodes = sem_post q.nr_nodes })

-- The oldest node, which stays in the queue. The outer `none`: the caller blocks in `sem_wait`;
-- the inner one: NULL is returned.
unfoldable pub next_nqnode_out : Queue → Option (Option ℕ × Queue)
next_nqnode_out q =
    if q.nr_nodes == 0
    then none
    else some (
      if q.out_ptr == q.in_ptr then none else some q.out_ptr,
      record q { nr_nodes = q.nr_nodes - 1 },
    )

unfoldable pub dispose_last_nqnode : Queue → Queue
dispose_last_nqnode q =
    if q.out_ptr == q.in_ptr then q else record q { out_ptr = (q.out_ptr + 1) % size_queue }

-- `init_queue`, on the static storage.
unfoldable pub init_queue : Queue → Queue
init_queue q = record q { nr_nodes = 0 }

-- A write through a node pointer.
abbrev pub fill : Queue → ℕ → NqNode → Queue
fill q i n = record q { nodes = set q.nodes i n }

pub record IsValid (q : Queue) : Type 0 where
  pub storage : length q.nodes ≡ size_queue
  pub in_range : q.in_ptr < size_queue
  pub out_range : q.out_ptr < size_queue

-- How many nodes are between the two pointers.
abbrev pub count : Queue → ℕ
count q = (q.in_ptr + size_queue - q.out_ptr) % size_queue
