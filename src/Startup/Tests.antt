-- ===== src/Startup/Tests.antt =====
-- The start of src/afdx.c when the path of the application manager cannot be bound.
use psw_afdx.Base.{
  ℕ, ◌≡◌, refl, false, Option, none, some, List, [], ◌∷◌, ℤ, pos, negsuc, is_negative, ◌==◌, ◌⊎◌,
  ◌↔◌, All, if◌then◌else◌,
}
use psw_afdx.IntData.{initial_intdata, IntData}
use psw_afdx.Startup.{
  Call, sem_init, socket, set_broadcast, bind_net, unlink_path, bind_path, pthread_create,
  Semaphore, nr_nodes_queue, registering_mutex, net_sockfd, am_sockfd, network_thread,
  elaboration_thread, init_all, main, Thread,
}
use psw_afdx.Startup.Plan.{plan, follow, main-follow}
use psw_afdx.Protocol.{DataId}
use psw_afdx.Serve.Values.{value_of}
use psw_afdx.Startup.Started.{IsLow16, Succeeds, needed, Occurs, HasFailed, main-needed}
use psw_afdx.Startup.Prepared.{Prepared, nothing, init_all-Prepared}

-- Every call succeeds but the `bind` of the path.
abbrev denied : Call → ℤ
denied bind_path = negsuc 0
denied c = pos 3

-- One address is known, and ports have one digit.
abbrev parse_address : List ℕ → Option ℕ
parse_address [] = none
parse_address (c ∷ text) = if c == 49 then some 16777343 else none

abbrev parse_digit : List ℕ → ℤ
parse_digit [] = pos 0
parse_digit (c ∷ text) = pos c

denied-initialised : (s : Semaphore) (v : ℕ) → is_negative (denied (sem_init s v)) ≡ false
denied-initialised s v = refl

denied_calls :
    main denied parse_address parse_digit ([] ∷ (50 ∷ []) ∷ (9 ∷ []) ∷ []) initial_intdata
    ≡ some (
      (
        none,
        sem_init nr_nodes_queue 0
            ∷ socket net_sockfd
            ∷ set_broadcast
            ∷ bind_net 0 9
            ∷ pthread_create network_thread
            ∷ pthread_create elaboration_thread
            ∷ sem_init registering_mutex 1
            ∷ socket am_sockfd
            ∷ unlink_path
            ∷ bind_path
            ∷ [],
      ),
      initial_intdata,
    )
unfolding main
denied_calls = refl

digits :
    main denied parse_address parse_digit ([] ∷ (49 ∷ []) ∷ (9 ∷ []) ∷ []) initial_intdata
    ≡ some (follow denied [] (plan 16777343 9), initial_intdata)
digits = main-follow denied parse_address parse_digit [] (49 ∷ []) (9 ∷ []) [] initial_intdata

init_all-Prepared_example :
    Prepared denied nothing (init_all denied parse_address (49 ∷ []) (pos 9) []).1
init_all-Prepared_example =
    init_all-Prepared denied parse_address (49 ∷ []) (pos 9) denied-initialised

main-needed_example :
    (address p : ℕ) × (ended : Option (Unit {0})) × (calls : List Call) × (d' : IntData) × (main
        denied parse_address parse_digit
        ([] ∷ (49 ∷ []) ∷ (9 ∷ []) ∷ [])
        initial_intdata
      ≡ some ((ended, calls), d'))
    × ((parse_address (49 ∷ []) ≡ some address)
        ⊎ ((parse_address (49 ∷ []) ≡ none) × (address ≡ 0)))
    × IsLow16 (pos 9) p
    × ((ended ≡ some tt) ↔ All (Succeeds denied) (needed address p))
    × (ended ≡ some tt
        → All (λ c. Occurs c calls) (needed address p)
          × ((t : Thread) → Occurs (pthread_create t) calls))
    × (ended ≡ none → HasFailed denied calls)
    × All (λ e. e.last_update ≡ 0) d'.engines
    × (d'.attitude.last_update ≡ 0)
    × (d'.speeds.last_update ≡ 0)
    × ((n : ℕ) (i : DataId) → value_of d' n i ≡ value_of initial_intdata n i)
main-needed_example =
    main-needed denied parse_address parse_digit [] (49 ∷ []) (9 ∷ []) [] initial_intdata
