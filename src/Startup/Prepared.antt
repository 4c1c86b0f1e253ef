-- ===== src/Startup/Prepared.antt =====
-- What the calls that start the daemon in src/afdx.c need of the calls before them.
use psw_afdx.Base.{
  ℕ, ◌≡◌, arith, Bool, true, false, ◌&&◌, ◌||◌, not, Option, List, [], ◌∷◌, ℤ, is_negative, All,
}
use psw_afdx.Startup.{
  Call, sem_init, socket, set_broadcast, bind_net, unlink_path, bind_path, listen, pthread_create,
  Semaphore, nr_nodes_queue, registering_mutex, Socket, net_sockfd, am_sockfd, Thread,
  network_thread, elaboration_thread, application_manager, scheduler_run, init_all,
}
use psw_afdx.Startup.Plan.{init_all-follow}

-- What a call that succeeds makes ready.
pub data Resource : Type 0 where
  semaphore : Semaphore → Resource
  opened : Socket → Resource
  bound : Socket → Resource
  listening : Resource

-- The calls that make a resource ready.
abbrev pub gives : Call → Resource → Bool
gives (sem_init nr_nodes_queue v) (semaphore nr_nodes_queue) = true
gives (sem_init registering_mutex v) (semaphore registering_mutex) = true
gives (socket net_sockfd) (opened net_sockfd) = true
gives (socket am_sockfd) (opened am_sockfd) = true
gives (bind_net address port) (bound net_sockfd) = true
gives bind_path (bound am_sockfd) = true
gives (listen backlog) listening = true
gives c r = false

-- What the thread functions use without a test.
abbrev pub uses_thread : Thread → List Resource
uses_thread network_thread = semaphore nr_nodes_queue ∷ bound net_sockfd ∷ []
uses_thread elaboration_thread = semaphore nr_nodes_queue ∷ []
uses_thread application_manager = semaphore registering_mutex ∷ listening ∷ []
uses_thread scheduler_run = semaphore registering_mutex ∷ []

abbrev pub uses : Call → List Resource
uses (sem_init s v) = []
uses (socket s) = []
uses set_broadcast = opened net_sockfd ∷ []
uses (bind_net address port) = opened net_sockfd ∷ []
uses unlink_path = []
uses bind_path = opened am_sockfd ∷ []
uses (listen backlog) = bound am_sockfd ∷ []
uses (pthread_create thread) = uses_thread thread

abbrev pub nothing : Resource → Bool
nothing r = false

abbrev pub gain : (Call → ℤ) → Call → (Resource → Bool) → Resource → Bool
gain answer c ready r = ready r || (gives c r && not (is_negative (answer c)))

-- Each call has what it uses, from successful calls before it.
abbrev pub Prepared : (Call → ℤ) → (Resource → Bool) → List Call → Type 0
Prepared answer ready [] = Unit
Prepared answer ready (c ∷ calls) =
    All (λ r. ready r ≡ true) (uses c) × Prepared answer (gain answer c ready) calls

-- If `sem_init` succeeds, then each call of `init_all`, whichever calls fail, has what it uses from successful calls before
-- it: no socket is used that was not opened, and no thread is started before its semaphores
-- are initialised and its socket is bound or listens.
pub init_all-Prepared :
    (answer : Call → ℤ) (inet_pton : List ℕ → Option ℕ) (ipaddr : List ℕ) (port : ℤ)
    → (initialised : (s : Semaphore) (v : ℕ) → is_negative (answer (sem_init s v)) ≡ false)
    → Prepared answer nothing (init_all answer inet_pton ipaddr port []).1
init_all-Prepared answer inet_pton ipaddr port initialised =
    rw (init_all-follow answer inet_pton ipaddr port)
      (ground (arith, initialised nr_nodes_queue 0, initialised registering_mutex 1))
