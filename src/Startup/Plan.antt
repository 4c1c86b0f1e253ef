-- ===== src/Startup/Plan.antt =====
-- The start of the daemon in src/afdx.c as a list of calls.
use psw_afdx.Base.{
  ℕ, ◌≡◌, ap, arith, Bool, true, false, ◌&&◌, Option, none, some, List, [], ◌∷◌, ◌++◌,
  if◌then◌else◌, ℤ, is_negative,
}
use psw_afdx.Startup.{
  Call, sem_init, socket, set_broadcast, bind_net, unlink_path, bind_path, listen, pthread_create,
  nr_nodes_queue, registering_mutex, net_sockfd, am_sockfd, network_thread, elaboration_thread,
  application_manager, scheduler_run, address_of, to_port, init_all, set_invalid, main,
}
use psw_afdx.IntData.{IntData}

-- The calls in their order, with whether the daemon gives up when the call fails.
abbrev pub plan : (address port : ℕ) → List (Call × Bool)
plan address port =
    (sem_init nr_nodes_queue 0, false)
    ∷ (socket net_sockfd, true)
    ∷ (set_broadcast, true)
    ∷ (bind_net address port, true)
    ∷ (pthread_create network_thread, false)
    ∷ (pthread_create elaboration_thread, false)
    ∷ (sem_init registering_mutex 1, false)
    ∷ (socket am_sockfd, true)
    ∷ (unlink_path, false)
    ∷ (bind_path, true)
    ∷ (listen 5, true)
    ∷ (pthread_create application_manager, false)
    ∷ (pthread_create scheduler_run, false)
    ∷ []

-- Whether a call ends the daemon.
abbrev pub fatal : (Call → ℤ) → Call × Bool → Bool
fatal answer (c, checked) = checked && is_negative (answer c)

-- The calls of a plan up to the first one that ends the daemon, behind those before.
abbrev pub follow : (Call → ℤ) → List Call → List (Call × Bool) → Option (Unit {0}) × List Call
follow answer calls [] = (some tt, calls)
follow answer calls (s ∷ rest) =
    if fatal answer s then (none, calls ++ s.0 ∷ []) else follow answer (calls ++ s.0 ∷ []) rest

pub init_all-follow :
    (answer : Call → ℤ) (inet_pton : List ℕ → Option ℕ) (ipaddr : List ℕ) (port : ℤ)
    → init_all answer inet_pton ipaddr port []
      ≡ follow answer [] (plan (address_of (inet_pton ipaddr)) (to_port port))
unfolding init_all
init_all-follow answer inet_pton ipaddr port = ground arith

-- With two arguments, `main` makes the calls of the plan in their order, up to the first one that
-- fails among the two `socket`, the two `bind`, `setsockopt` and `listen`, where the daemon exits;
-- all other results are ignored.
pub main-follow :
    (answer : Call → ℤ) (inet_pton : List ℕ → Option ℕ) (atoi : List ℕ → ℤ)
    (name ipaddr port : List ℕ) (rest : List (List ℕ)) (d : IntData)
    → main answer inet_pton atoi (name ∷ ipaddr ∷ port ∷ rest) d
      ≡ some (
        follow answer [] (plan (address_of (inet_pton ipaddr)) (to_port (atoi port))),
        set_invalid d,
      )
unfolding main
main-follow answer inet_pton atoi name ipaddr port rest d =
    ap (λ r. some (r, set_invalid d)) (init_all-follow answer inet_pton ipaddr (atoi port))
