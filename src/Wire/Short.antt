-- ===== src/Wire/Short.antt =====
-- A `read` of src/application_manager.c that gives a part of a message: its result is compared with 0
-- only, and the rest of `packet_msg` is that of the message before, of whatever client.
use psw_afdx.Base.{ℕ, ◌≡◌, refl, ap, ◌∙◌, [], ◌∷◌}
use psw_afdx.Protocol.{AppMsg}
use psw_afdx.IntData.{IntData}
use psw_afdx.Registration.{Scheduler}
use psw_afdx.Manager.{message, Answers, Manager, process, handle_client}
use psw_afdx.Wire.{msg_bytes, bytes, read_msg}
use psw_afdx.Wire.Whole.{msg_at-msg_bytes}

-- One byte is the type of the message before.
read_msg-byte :
    (msg : AppMsg) (pad : ℕ → ℕ) (msg_type : ℕ)
    → read_msg (msg_bytes msg pad) (bytes (msg_type ∷ [])) ≡ (
      message (record msg { msg_type = msg_type }),
      msg_bytes (record msg { msg_type = msg_type }) pad,
    )
unfolding read_msg msg_bytes
read_msg-byte msg pad msg_type =
    let changed : AppMsg = record msg { msg_type = msg_type } in
    ap (λ x. (message x, msg_bytes changed pad)) (msg_at-msg_bytes changed pad)

-- A client that writes one byte is served as if it had written the last message that any client has
-- written, with that byte as its type.
pub handle_client-byte :
    {S : Type 0} (scheduler : Scheduler S) (am_sockfd : ℕ) (intdata : IntData) (m : Manager S)
    (fd : ℕ) (a : Answers) (msg : AppMsg) (pad : ℕ → ℕ) (msg_type : ℕ)
    → a.read ≡ (read_msg (msg_bytes msg pad) (bytes (msg_type ∷ []))).0
    → handle_client scheduler am_sockfd intdata m fd a
      ≡ process scheduler am_sockfd intdata m fd (record msg { msg_type = msg_type }) a
unfolding handle_client process
handle_client-byte scheduler am_sockfd intdata m fd a msg pad msg_type is =
    let reads = is ∙ ap (λ x. x.0) (read_msg-byte msg pad msg_type) in
    rw (handle_client, reads) refl
