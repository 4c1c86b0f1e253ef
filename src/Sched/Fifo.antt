-- ===== src/Sched/Fifo.antt =====
-- The order that `insert_node` of src/scheduler.c keeps: the tasks by their times, and those of one
-- time in the order in which they came.
use psw_afdx.Base.{ℕ, ◌<◌, ◌≡◌, ◌≢◌, false, some, ◌∷◌, ◌++◌, length, All}
use psw_afdx.Sched.Heap.{Ptr, null, Sched}
use psw_afdx.Sched.{insert_node}
use psw_afdx.Sched.Links.{Entry, node_of, Items, has, IsQueue}
use psw_afdx.Sched.Order.{NotAfter, After, IsSorted, insert-IsSorted, insert-Placed}
use psw_afdx.Sched.Insert.{insert_node_lem}

-- Given more rounds than there are nodes, `insert_node` on a sorted queue ends: the new node stands
-- behind the nodes that are not later than it and before the later ones, and the queue is sorted.
pub insert_node-fifo :
    (fuel : ℕ) (s : Sched) (xs : Items) (p : Ptr) (e : Entry) (before after : Ptr)
    → IsQueue s xs
    → IsSorted xs
    → p ≢ null
    → s.memory p ≡ some (node_of e before after)
    → has p xs ≡ false
    → length xs < fuel
    → (t : Sched) × (ys : Items) × (zs : Items) × (xs ≡ ys ++ zs)
      × (insert_node fuel p s ≡ some (tt, t))
      × IsQueue t (ys ++ ((p, e) ∷ zs))
      × All (NotAfter e.next_time) ys
      × All (After e.next_time) zs
      × IsSorted (ys ++ ((p, e) ∷ zs))
insert_node-fifo fuel s xs p e before after v sorted ne at out enough =
    let (t, et, is, same) = insert_node_lem fuel s xs p e before after v ne at out enough in
    let r = insert-Placed (p, e) xs sorted in
    (
      t,
      r.ys,
      r.zs,
      r.whole,
      et,
      rw r.result at is,
      r.not_after,
      r.after,
      rw r.result at (insert-IsSorted (p, e) xs sorted),
    )
