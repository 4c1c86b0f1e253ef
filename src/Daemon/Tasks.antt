-- ===== src/Daemon/Tasks.antt =====
-- The walk along the list of src/scheduler.c finds the arguments of its tasks.
use psw_afdx.Base.{ℕ, zero, suc, ◌<◌, ◌≡◌, refl, false, [], ◌∷◌, ◌==◌, arith, length}
use psw_afdx.Sched.Heap.{Ptr, null, Memory}
use psw_afdx.Sched.Links.{Items, first_or, Chain}
use psw_afdx.Sched.Args.{arg_of}
use psw_afdx.Daemon.{find_arg}

-- The walk along the list finds the arguments.
pub find_arg-arg_of :
    (k : ℕ) (memory : Memory) (before : Ptr) (xs : Items) (h : Ptr)
    → Chain memory before null xs
    → length xs < k
    → find_arg k memory (first_or xs null) h ≡ arg_of xs h
find_arg-arg_of zero memory before xs h c lt = absurd (omega arith)
find_arg-arg_of (suc k) memory before [] h c lt = refl
find_arg-arg_of (suc k) memory before ((p, e) ∷ xs) h c lt =
    let ne : (p == null) ≡ false = ground (arith, c.0) in
    let rest = find_arg-arg_of k memory p xs h c.3 (omega arith) in
    rw (ne, c.2) (ground (arith, rest))
