-- ===== src/Startup.antt =====
-- src/afdx.c, and the functions of src/network_thread.c, src/elaboration_thread.c,
-- src/application_manager.c and src/scheduler.c that it starts the daemon with. A function that may
-- call `exit` is a program: it records the system calls and ends with `none` when it exits. What a
-- call returns, `inet_pton` and `atoi` are arguments.
pub mod Plan
pub mod Started
pub mod Prepared
pub mod Daemonize
mod Tests
use psw_afdx.Base.{
  ℕ, ◌-◌, ◌%◌, ◌^◌, Option, none, some, List, [], ◌∷◌, ◌++◌, map, if◌then◌else◌, ℤ, pos, negsuc,
  is_negative,
}
use psw_afdx.IntData.{IntData, IntdataEngine}

pub data Semaphore : Type 0 where
  nr_nodes_queue : Semaphore
  registering_mutex : Semaphore

pub data Socket : Type 0 where
  net_sockfd : Socket
  am_sockfd : Socket

pub data Thread : Type 0 where
  network_thread : Thread
  elaboration_thread : Thread
  application_manager : Thread
  scheduler_run : Thread

-- The calls that start the daemon, with the arguments that differ.
pub data Call : Type 0 where
  sem_init : Semaphore → (value : ℕ) → Call
  socket : Socket → Call
  set_broadcast : Call
  bind_net : (address port : ℕ) → Call
  unlink_path : Call
  bind_path : Call
  listen : (backlog : ℕ) → Call
  pthread_create : Thread → Call

-- The result, or `none` after `exit`, and the calls so far, the first one first.
abbrev pub Program : Type 0 → Type 0
Program A = List Call → Option A × List Call

abbrev pub after : {A B : Type 0} → Option A × List Call → (A → Program B) → Option B × List Call
after (none, calls) f = (none, calls)
after (some a, calls) f = f a calls

infixl 5 ◌>>=◌ ◌>>◌
abbrev pub ◌>>=◌ : {A B : Type 0} → Program A → (A → Program B) → Program B
◌>>=◌ p f calls = after (p calls) f

abbrev pub ◌>>◌ : {A B : Type 0} → Program A → Program B → Program B
◌>>◌ p q calls = after (p calls) (λ a. q)

abbrev pub pure : {A : Type 0} → A → Program A
pure a calls = (some a, calls)

abbrev pub exit : {A : Type 0} → Program A
exit calls = (none, calls)

abbrev pub perform : (Call → ℤ) → Call → Program ℤ
perform answer c calls = (some (answer c), calls ++ c ∷ [])

-- The address behind the pointer of `inet_pton`, which stays zero when it fails.
abbrev pub address_of : Option ℕ → ℕ
address_of none = 0
address_of (some address) = address

-- A port, an `int`, as the `uint16_t` that `htons` takes.
abbrev pub to_port : ℤ → ℕ
to_port (pos n) = n % 2 ^ 16
to_port (negsuc n) = 2 ^ 16 - 1 - n % 2 ^ 16

unfoldable pub init_queue : (Call → ℤ) → Program (Unit {0})
init_queue answer = do r ← perform answer (sem_init nr_nodes_queue 0); pure tt

unfoldable pub start_net_thread : (Call → ℤ) → Program ℤ
start_net_thread answer = perform answer (pthread_create network_thread)

unfoldable pub init_net :
    (Call → ℤ)
    → (List ℕ → Option ℕ)
    → (net_server_ipaddr : List ℕ) → (net_server_port : ℤ) → Program (Unit {0})
unfolding start_net_thread
init_net answer inet_pton net_server_ipaddr net_server_port = do
  let address = address_of (inet_pton net_server_ipaddr)
  fd ← perform answer (socket net_sockfd)
  if is_negative fd then exit else do
    r ← perform answer set_broadcast
    if is_negative r then exit else pure tt
    r ← perform answer (bind_net address (to_port net_server_port))
    if is_negative r then exit else pure tt
  start_net_thread answer
  pure tt

unfoldable pub start_elab_thread : (Call → ℤ) → Program ℤ
start_elab_thread answer = perform answer (pthread_create elaboration_thread)

unfoldable pub init_elab : (Call → ℤ) → Program (Unit {0})
unfolding start_elab_thread
init_elab answer = do r ← start_elab_thread answer; pure tt

unfoldable pub start_app_man_thread : (Call → ℤ) → Program ℤ
start_app_man_thread answer = perform answer (pthread_create application_manager)

unfoldable pub init_app_man : (Call → ℤ) → Program (Unit {0})
unfolding start_app_man_thread
init_app_man answer = do
  perform answer (sem_init registering_mutex 1)
  fd ← perform answer (socket am_sockfd)
  if is_negative fd then exit else do
    perform answer unlink_path
    r ← perform answer bind_path
    if is_negative r
        then exit
        else do r ← perform answer (listen 5); if is_negative r then exit else pure tt
  start_app_man_thread answer
  pure tt

unfoldable pub start_scheduler : (Call → ℤ) → Program ℤ
start_scheduler answer = perform answer (pthread_create scheduler_run)

unfoldable pub init_sched : (Call → ℤ) → Program (Unit {0})
unfolding start_scheduler
init_sched answer = do r ← start_scheduler answer; pure tt

unfoldable pub init_all :
    (Call → ℤ)
    → (List ℕ → Option ℕ)
    → (net_server_ipaddr : List ℕ) → (net_server_port : ℤ) → Program (Unit {0})
unfolding init_queue init_net init_elab init_app_man init_sched
init_all answer inet_pton net_server_ipaddr net_server_port = do
  init_queue answer
  init_net answer inet_pton net_server_ipaddr net_server_port
  init_elab answer
  init_app_man answer
  init_sched answer

abbrev pub set_engine_invalid : IntdataEngine → IntdataEngine
set_engine_invalid e = record e { last_update = 0 }

-- The loop of `main` and the two assignments behind it.
abbrev pub set_invalid : IntData → IntData
set_invalid d = record d {
  engines = map set_engine_invalid d.engines;
  attitude = record d.attitude { last_update = 0 };
  speeds = record d.speeds { last_update = 0 };
}

-- `main` up to its endless loop: `none` if it reads behind the end of `argv`. The result is that of
-- `init_all`, with the internal data.
unfoldable pub main :
    (Call → ℤ)
    → (List ℕ → Option ℕ)
    → (atoi : List ℕ → ℤ) → (argv : List (List ℕ)) → IntData
    → Option ((Option (Unit {0}) × List Call) × IntData)
unfolding init_all
main answer inet_pton atoi (name ∷ ipaddr ∷ port ∷ rest) d =
    some (init_all answer inet_pton ipaddr (atoi port) [], set_invalid d)
main answer inet_pton atoi (name ∷ ipaddr ∷ []) d = none
main answer inet_pton atoi (name ∷ []) d = none
main answer inet_pton atoi [] d = none
