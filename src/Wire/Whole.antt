-- ===== src/Wire/Whole.antt =====
-- Messages that src/application_manager.c and the clients read whole.
use psw_afdx.Base.{
  ℕ, ◌+◌, ◌*◌, ◌/◌, ◌%◌, ◌<◌, ◌≡◌, refl, arith, List, [], ◌∷◌, length, map, ap, sym, ◌∙◌, some,
}
use psw_afdx.Protocol.{AppMsg, AppQuery, AppReply, DataId, data_id_of, int16_at, int32_at}
use psw_afdx.Serve.{reply_for}
use psw_afdx.Serve.Values.{
  Value, byte, short, long, value_of, put_value, read_reply, reply_for-value, read-reply_for,
}
use mathlib.Core.Option
use psw_afdx.IntData.{IntData, IsInt16, IsInt32}
use psw_afdx.Network.{overlay}
use psw_afdx.Manager.{Read, failed, closed, message}
use psw_afdx.Generator.Encode.{as_int16-word16, as_int32-word32}
use psw_afdx.Wire.{
  sizeof_msg, sizeof_reply, msg_bytes, msg_at, reply_bytes, reply_at, Incoming, error, bytes,
  read_msg, read_msgs,
}

-- Every field fits its member.
pub record FitsReply (r : AppReply) : Type 0 where
  pub req_id : r.req_id < 0x1_0000_0000
  pub u8 : r.u8 < 256
  pub i16 : IsInt16 r.i16
  pub i32 : IsInt32 r.i32

-- As many bytes as there are in the variable replace it.
overlay_all : (d p : List ℕ) → length d ≡ length p → overlay d p ≡ d
overlay_all [] [] e = refl
overlay_all [] (c ∷ p) e = absurd (omega (arith, e))
overlay_all (b ∷ d) [] e = absurd (omega (arith, e))
overlay_all (b ∷ d) (c ∷ p) e = ap (λ x. b ∷ x) (overlay_all d p (omega (arith, e)))

uint16_bytes : (n : ℕ) → n % 256 + 256 * (n / 256) ≡ n
uint16_bytes n = omega arith

uint32_bytes :
    (n : ℕ)
    → n % 256 + 256 * (n / 256 % 256) + 65536 * (n / 65536 % 256) + 16777216 * (n / 16777216) ≡ n
uint32_bytes n = omega arith

pub msg_at-msg_bytes : (m : AppMsg) (pad : ℕ → ℕ) → msg_at (msg_bytes m pad) ≡ m
unfolding msg_at msg_bytes
msg_at-msg_bytes m pad =
    rw (uint16_bytes m.ms_to_update, uint32_bytes m.query.req_id, uint32_bytes m.query.data_id) refl

-- What a client does to its socket: it writes a message from a variable, or closes the socket, or the
-- connection breaks.
pub data Act : Type 0 where
  sends : AppMsg → (pad : ℕ → ℕ) → Act
  leaves breaks : Act

abbrev pub incoming : Act → Incoming
incoming (sends m pad) = bytes (msg_bytes m pad)
incoming leaves = bytes []
incoming breaks = error

abbrev pub meant : Act → Read
meant (sends m pad) = message m
meant leaves = closed
meant breaks = failed

sizeof_lem : (m : AppMsg) (pad : ℕ → ℕ) → length (msg_bytes m pad) ≡ sizeof_msg
unfolding msg_bytes
sizeof_lem m pad = refl

read_msg-whole :
    (packet_msg : List ℕ) (m : AppMsg) (pad : ℕ → ℕ)
    → length packet_msg ≡ sizeof_msg
    → read_msg packet_msg (bytes (msg_bytes m pad)) ≡ (message m, msg_bytes m pad)
unfolding read_msg msg_bytes
read_msg-whole packet_msg m pad size =
    let stored : overlay (msg_bytes m pad) packet_msg ≡ msg_bytes m pad =
      overlay_all (msg_bytes m pad) packet_msg (omega (arith, size)) in
    rw stored (ap (λ x. (message x, msg_bytes m pad)) (msg_at-msg_bytes m pad))

-- If every `read` gives a whole message, the end or an error, then the application manager goes on with
-- the messages as the clients meant them, one after the other, whatever `packet_msg` held and the bytes
-- between the members hold.
pub read_msgs-whole :
    (acts : List Act) (packet_msg : List ℕ)
    → length packet_msg ≡ sizeof_msg
    → read_msgs packet_msg (map incoming acts) ≡ map meant acts
unfolding read_msg
read_msgs-whole [] packet_msg size = refl
read_msgs-whole (sends m pad ∷ acts) packet_msg size =
    let first = read_msg-whole packet_msg m pad size in
    let rest = read_msgs-whole acts (msg_bytes m pad) (sizeof_lem m pad) in
    ap (λ x. x.0 ∷ read_msgs x.1 (map incoming acts)) first ∙ ap (λ x. message m ∷ x) rest
read_msgs-whole (leaves ∷ acts) packet_msg size =
    ap (λ x. closed ∷ x) (read_msgs-whole acts packet_msg size)
read_msgs-whole (breaks ∷ acts) packet_msg size =
    ap (λ x. failed ∷ x) (read_msgs-whole acts packet_msg size)

-- A reply that a client reads whole is the one that was written, whatever its variable held.
pub reply_at-reply_bytes :
    (r : AppReply) (pad : ℕ → ℕ) (reply : List ℕ)
    → FitsReply r
    → length reply ≡ sizeof_reply
    → reply_at (overlay (reply_bytes r pad) reply) ≡ r
unfolding reply_at reply_bytes int16_at int32_at
reply_at-reply_bytes r pad reply fits size =
    let stored : overlay (reply_bytes r pad) reply ≡ reply_bytes r pad =
      overlay_all (reply_bytes r pad) reply (omega (arith, size)) in
    rw
      (
        stored,
        uint32_bytes r.req_id,
        as_int16-word16 r.i16 fits.i16,
        as_int32-word32 r.i32 fits.i32,
      )
      refl

req_id-put_value : (r : AppReply) (v : Value) → (put_value r v).req_id ≡ r.req_id
req_id-put_value r (byte b) = refl
req_id-put_value r (short z) = refl
req_id-put_value r (long z) = refl

-- A client that sends a data id of the protocol, and reads the whole reply, gets the id of its request and
-- the current value of the datum in the member that has the datum's type, whatever its variable held
-- and the other members carry. The datum exists, and what is sent fits its members.
pub reply_for-reply_at :
    (d : IntData) (stack : AppReply) (q : AppQuery) (i : DataId) (v : Value) (pad : ℕ → ℕ)
    (reply : List ℕ)
    → data_id_of q.data_id ≡ some i
    → value_of d q.engine_id i ≡ some v
    → FitsReply (put_value (record stack { req_id = q.req_id }) v)
    → length reply ≡ sizeof_reply
    → (r : AppReply) × (reply_for d stack q ≡ some r)
      × ((reply_at (overlay (reply_bytes r pad) reply)).req_id ≡ q.req_id)
      × (read_reply i (reply_at (overlay (reply_bytes r pad) reply)) ≡ v)
reply_for-reply_at d stack q i v pad reply known has_value fits size =
    let r0 : AppReply = record stack { req_id = q.req_id } in
    let r = put_value r0 v in
    let sent : reply_for d stack q ≡ some r =
      reply_for-value d stack q i known ∙ ap (Option.map _) has_value in
    let received = reply_at-reply_bytes r pad reply fits size in
    let shown : some (read_reply i r) ≡ some v =
      ap (Option.map (read_reply i)) (sym sent) ∙ read-reply_for d stack q i known ∙ has_value in
    (r, sent, ap (λ x. x.req_id) received ∙ req_id-put_value r0 v, ap (read_reply i) received ∙ cc)
