-- ===== src/Queue/Tests.antt =====
-- Runs of src/queue.c, and its theorems at concrete queues.
use psw_afdx.Base.{ℕ, zero, suc, ◌≡◌, refl, ◌↔◌, none, some, List, [], ◌∷◌, ◌++◌, arith}
use psw_afdx.Queue.{NqNode, Queue, IsValid, count, next_nqnode_in, fill}
use psw_afdx.Queue.Fifo.{contents, next_nqnode_in_full, next_nqnode_in-fill}

abbrev node : ℕ → NqNode
node t = record { source = []; packet = []; last_update = t }

abbrev copies : ℕ → NqNode → List NqNode
copies zero n = []
copies (suc k) n = n ∷ copies k n

abbrev empty : Queue
empty = record { in_ptr = 0; out_ptr = 0; nodes = copies 100 (node 0); nr_nodes = 0 }

-- Two packets, one on each side of the end of the array.
abbrev wrapped : Queue
wrapped = record {
  in_ptr = 1;
  out_ptr = 99;
  nodes = node 8 ∷ (copies 98 (node 0) ++ (node 7 ∷ []));
  nr_nodes = 2;
}

abbrev crowded : Queue
crowded = record { in_ptr = 4; out_ptr = 5; nodes = copies 100 (node 3); nr_nodes = 99 }

-- The semaphore counts a node also when there was no room for one.
full_posts : (next_nqnode_in crowded).1.nr_nodes ≡ 100
unfolding next_nqnode_in
full_posts = refl

empty-IsValid : IsValid empty
empty-IsValid = omega arith

wrapped-IsValid : IsValid wrapped
wrapped-IsValid = omega arith

crowded-IsValid : IsValid crowded
crowded-IsValid = omega arith

next_nqnode_in_full_example : ((next_nqnode_in crowded).0 ≡ none) ↔ (count crowded ≡ 99)
next_nqnode_in_full_example = next_nqnode_in_full crowded crowded-IsValid

next_nqnode_in-fill_example :
    contents (fill (next_nqnode_in wrapped).1 1 (node 9)) ≡ contents wrapped ++ (some (node 9) ∷ [])
unfolding next_nqnode_in
next_nqnode_in-fill_example = next_nqnode_in-fill wrapped 1 (node 9) wrapped-IsValid refl
