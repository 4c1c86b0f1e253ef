-- ===== src/Registration.antt =====
-- src/registration.c: the applications that have registered periodic queries. The linked lists are
-- lists, from the first element on; a node's address is a field, and a node is live while it is in the
-- list of an application of `registered_applications`. The results of `malloc` are arguments. The
-- scheduler is an interface; a task of it carries the address of a node. Each function is one critical
-- section of `registering_mutex`.
pub mod Nodes
pub mod Apps
pub mod Kept
pub mod RoundTrip
pub mod Unique
pub mod Owners
pub mod Addresses
pub mod Others
pub mod Counting
mod Tests
use psw_afdx.Base.{
  ℕ, ◌≡◌, ◌==◌, if◌then◌else◌, Bool, true, false, Option, none, some, List, [], ◌∷◌, ◌>>=◌,
}
use psw_afdx.Protocol.{AppQuery}

-- What the registration uses of src/scheduler.c, over the states of the scheduler. `schedule s node
-- interval` has no result if there is no memory, and `unschedule s handler` none if it is undefined.
-- `task s h` is the data of the task with the handler `h`.
pub record Scheduler (S : Type 0) : Type 1 where
  pub schedule : S → ℕ → ℕ → Option (ℕ × S)
  pub unschedule : S → ℕ → Option S
  pub IsValid : S → Type 0
  pub task : S → ℕ → Option ℕ
  pub schedule-task :
      (s s' : S) (node interval h : ℕ)
      → IsValid s
      → schedule s node interval ≡ some (h, s')
      → IsValid s'
        × (task s h ≡ none)
        × ((k : ℕ) → task s' k ≡ (if k == h then some node else task s k))
  pub unschedule-task :
      (s : S) (node h : ℕ)
      → IsValid s
      → task s h ≡ some node
      → (s' : S) × (unschedule s h ≡ some s')
        × IsValid s'
        × ((k : ℕ) → task s' k ≡ (if k == h then none else task s k))

-- `reg_query_node_t`, with its address.
pub record QueryNode : Type 0 where
  pub addr : ℕ
  pub query : AppQuery
  pub handler : ℕ

-- `reg_app_t`.
pub record App : Type 0 where
  pub fd : ℕ
  pub queries : List QueryNode

-- `registered_applications`, and the state of the scheduler.
pub record Registry (S : Type 0) : Type 0 where
  pub apps : List App
  pub sched : S

abbrev pub has_app : List App → ℕ → Bool
has_app [] fd = false
has_app (a ∷ apps) fd = if a.fd == fd then true else has_app apps fd

-- The applications with one that has the descriptor; `none` if there is no memory for it.
abbrev pub find_app : List App → ℕ → Bool → Option (List App)
find_app apps fd app_memory =
    if has_app apps fd
    then some apps
    else if app_memory
    then some (record { fd = fd; queries = [] } ∷ apps)
    else none

-- A node before the first one of the first application with the descriptor.
abbrev pub add_query : List App → ℕ → QueryNode → List App
add_query [] fd q = []
add_query (a ∷ apps) fd q =
    if a.fd == fd then record a { queries = q ∷ a.queries } ∷ apps else a ∷ add_query apps fd q

-- The first node with the request id, and the list without it.
abbrev pub take_query : List QueryNode → ℕ → Option QueryNode × List QueryNode
take_query [] req_id = (none, [])
take_query (q ∷ qs) req_id =
    let rest = take_query qs req_id in
    if q.query.req_id == req_id then (some q, qs) else (rest.0, q ∷ rest.1)

-- The same in the list of the first application with the descriptor.
abbrev pub unlink_query : List App → ℕ → ℕ → Option QueryNode × List App
unlink_query [] fd req_id = (none, [])
unlink_query (a ∷ apps) fd req_id =
    let here = take_query a.queries req_id in
    let rest = unlink_query apps fd req_id in
    if a.fd == fd then (here.0, record a { queries = here.1 } ∷ apps) else (rest.0, a ∷ rest.1)

-- The first application with the descriptor, and the list without it.
abbrev pub unlink_app : List App → ℕ → Option App × List App
unlink_app [] fd = (none, [])
unlink_app (a ∷ apps) fd =
    let rest = unlink_app apps fd in if a.fd == fd then (some a, apps) else (rest.0, a ∷ rest.1)

abbrev pub find_query : List QueryNode → ℕ → Option AppQuery
find_query [] addr = none
find_query (q ∷ qs) addr = if q.addr == addr then some q.query else find_query qs addr

-- The descriptor and the query that a node has, `none` if the node is not live.
abbrev pub find_node : List App → ℕ → Option (ℕ × AppQuery)
find_node [] addr = none
find_node (a ∷ apps) addr = elim (find_query a.queries addr) [
  | none ↦ find_node apps addr
  | some q ↦ some (a.fd, q)
]

module _ {S : Type 0} (scheduler : Scheduler S) where
  -- `none`: there is no memory, and the process exits. `app_memory` tells whether there is memory for
  -- an application, `node` is the address of the memory for the node.
  unfoldable pub register_query :
      Registry S → ℕ → AppQuery → ℕ → Bool → Option ℕ → Option (Registry S)
  register_query r fd query interval app_memory node = do
    apps ← find_app r.apps fd app_memory
    addr ← node
    (handler, sched) ← scheduler.schedule r.sched addr interval
    some (record {
      apps = add_query apps fd (record { addr = addr; query = query; handler = handler });
      sched = sched;
    })

  -- `none`: the scheduler is called with a handler that it does not have, which is undefined.
  unfoldable pub unregister_query : Registry S → ℕ → ℕ → Option (Registry S)
  unregister_query r fd req_id =
      let (found, apps) = unlink_query r.apps fd req_id in
      elim found [
        | none ↦ some r
        | some q ↦ do
          sched ← scheduler.unschedule r.sched q.handler
          some (record { apps = apps; sched = sched })
      ]

  -- The loop over the queries of an application.
  abbrev pub unschedule_all : S → List QueryNode → Option S
  unschedule_all s [] = some s
  unschedule_all s (q ∷ qs) = do s' ← scheduler.unschedule s q.handler; unschedule_all s' qs

  unfoldable pub unregister_application : Registry S → ℕ → Option (Registry S)
  unregister_application r fd =
      let (found, apps) = unlink_app r.apps fd in
      elim found [
        | none ↦ some r
        | some a ↦ do
          sched ← unschedule_all r.sched a.queries
          some (record { apps = apps; sched = sched })
      ]

-- What the scheduler runs for a task: the descriptor and the query of the call of `serve_query`;
-- `none` if the node has been freed.
unfoldable pub serve_scheduler_query : List App → ℕ → Option (ℕ × AppQuery)
serve_scheduler_query apps node = find_node apps node
