-- ===== src/Manager.antt =====
-- The loop of `application_manager` in src/application_manager.c. A set of descriptors is a Boolean
-- function; what the system calls answer in a round is an argument. `none`: the process exits, or its
-- behaviour is undefined.
pub mod Clients
pub mod Visits
pub mod Edits
pub mod Kept
mod Tests
use psw_afdx.Base.{
  ℕ, zero, suc, ◌+◌, ◌≡◌, ◌==◌, ltb, if◌then◌else◌, Bool, true, false, not, ◌&&◌, Option, none,
  some, List, [], ◌∷◌, ◌++◌, ◌>>=◌, ℤ, pos, negsuc, is_negative,
}
use psw_afdx.Protocol.{AppMsg, AppReply, msg_type_request, msg_type_register, msg_type_unregister}
use psw_afdx.IntData.{IntData}
use psw_afdx.Serve.{Served, undefined, exited, sent, serve_query}
use psw_afdx.Registration.{
  Scheduler, Registry, register_query, unregister_query, unregister_application,
}

-- What `read` leaves in `packet_msg`, or its failure, or the end of the stream.
pub data Read : Type 0 where
  failed closed : Read
  message : AppMsg → Read

-- The answers for one descriptor: `read`, the stack bytes and the result of `write` in `serve_query`,
-- and the memory for `register_query`.
pub record Answers : Type 0 where
  pub read : Read
  pub stack : AppReply
  pub written : ℤ
  pub app_memory : Bool
  pub node : Option ℕ

-- The answers of one round: the result of `select` and its two sets, and that of `accept`.
pub record Round : Type 0 where
  pub fdcnt : ℤ
  pub rfds : ℕ → Bool
  pub xfds : ℕ → Bool
  pub accepted : ℤ
  pub answers : ℕ → Answers

-- The variables of the loop, and what it has sent and closed, oldest first.
pub record Manager (S : Type 0) : Type 0 where
  pub managed_fds : ℕ → Bool
  pub nfds : ℕ
  pub registry : Registry S
  pub replies : List (ℕ × AppReply)
  pub closed_fds : List ℕ

-- `fdcnt--`.
abbrev pub pred : ℤ → ℤ
pred (pos zero) = negsuc 0
pred (pos (suc n)) = pos n
pred (negsuc n) = negsuc (n + 1)

abbrev pub is_positive : ℤ → Bool
is_positive (pos zero) = false
is_positive (pos (suc n)) = true
is_positive (negsuc n) = false

-- `FD_SET` and `FD_CLR`.
abbrev pub with_fd : (ℕ → Bool) → ℕ → Bool → ℕ → Bool
with_fd fds fd b k = if fd == k then b else fds k

module _ {S : Type 0} (scheduler : Scheduler S) (am_sockfd : ℕ) (intdata : IntData) where
  -- `unregister_application`, `close` and `FD_CLR`.
  unfoldable pub drop_client : Manager S → ℕ → Option (Manager S)
  drop_client m fd = do
    registry ← unregister_application scheduler m.registry fd
    some (record m {
      registry = registry;
      managed_fds = with_fd m.managed_fds fd false;
      closed_fds = m.closed_fds ++ (fd ∷ []);
    })

  -- What has become of the call of `serve_query`.
  abbrev pub after_reply : Manager S → Served → Option (Manager S)
  after_reply m undefined = none
  after_reply m (exited to r) = none
  after_reply m (sent to r) = some (record m { replies = m.replies ++ ((to, r) ∷ []) })

  -- The `switch` on the type of a message.
  unfoldable pub process : Manager S → ℕ → AppMsg → Answers → Option (Manager S)
  process m fd msg a =
      if msg.msg_type == msg_type_request
      then after_reply m (serve_query intdata a.stack a.written fd msg.query)
      else if msg.msg_type == msg_type_register
      then (do
        registry ←
            register_query scheduler m.registry fd msg.query msg.ms_to_update a.app_memory a.node
        some (record m { registry = registry }))
      else if msg.msg_type == msg_type_unregister
      then (do
        registry ← unregister_query scheduler m.registry fd msg.query.req_id
        some (record m { registry = registry }))
      else some m

  -- A descriptor that is ready. If `read` fails, the client is dropped twice.
  unfoldable pub handle_client : Manager S → ℕ → Answers → Option (Manager S)
  handle_client m fd a = elim a.read [
    | failed ↦ drop_client m fd >>= λ m'. drop_client m' fd
    | closed ↦ drop_client m fd
    | message msg ↦ process m fd msg a
  ]

  -- One of the two loops over the descriptors: `left` are still to come, the next one is `fd`, and
  -- `visit` is done to those of the set.
  abbrev pub scan :
      (ℕ → Bool)
      → (Manager S → ℕ → Option (Manager S))
      → ℕ
      → ℕ
      → ℤ
      → Manager S
      → Option (ℤ × Manager S)
  scan fds visit zero fd fdcnt m = some (fdcnt, m)
  scan fds visit (suc left) fd fdcnt m =
      let rest = scan fds visit left (fd + 1) in
      if is_positive fdcnt
      then if fds fd && not (fd == am_sockfd)
        then visit m fd >>= rest (pred fdcnt)
        else rest fdcnt m
      else some (fdcnt, m)

  -- The part of a round before the loops.
  unfoldable pub accept_client : Manager S → Round → Option (ℤ × Manager S)
  accept_client m e =
      if e.rfds am_sockfd
      then elim e.accepted [
        | negsuc n ↦ none
        | pos newfd ↦ some (
          pred e.fdcnt,
          record m {
            managed_fds = with_fd m.managed_fds newfd true;
            nfds = if ltb newfd m.nfds then m.nfds else newfd + 1;
          },
        )
      ]
      else some (e.fdcnt, m)

  -- One round of the loop.
  unfoldable pub application_manager : Manager S → Round → Option (Manager S)
  application_manager m e = do
    (c1, m1) ← accept_client m e
    (c2, m2) ←
        if e.xfds am_sockfd
        then none
        else scan e.rfds (λ m' fd. handle_client m' fd (e.answers fd)) m1.nfds 0 c1 m1
    (c3, m3) ← scan e.xfds drop_client m2.nfds 0 c2 m2
    some m3

-- The variables before the loop.
abbrev pub start_manager : {S : Type 0} → Registry S → ℕ → Manager S
start_manager registry am_sockfd = record {
  managed_fds = with_fd (λ k. false) am_sockfd true;
  nfds = am_sockfd + 1;
  registry = registry;
  replies = [];
  closed_fds = [];
}
