-- ===== src/Wire.antt =====
-- The messages of include/application_protocol.h as the bytes that `write` and `read` move, and what
-- `read` makes of the variable `packet_msg` of src/application_manager.c. The members lie at multiples
-- of their sizes, a `data_id_t` has four bytes, and numbers are little-endian.
pub mod Whole
pub mod Short
mod Tests
use psw_afdx.Base.{ℕ, ◌+◌, ◌*◌, ◌/◌, ◌%◌, List, [], ◌∷◌}
use psw_afdx.Protocol.{AppMsg, AppQuery, AppReply, byte_at, int16_at, int32_at, word16, word32}
use psw_afdx.Network.{overlay}
use psw_afdx.Manager.{Read, failed, closed, message}

abbrev pub sizeof_msg : ℕ
sizeof_msg = 16

abbrev pub sizeof_reply : ℕ
sizeof_reply = 12

-- An unsigned number at an offset.
abbrev pub uint16_at : List ℕ → ℕ → ℕ
uint16_at p i = byte_at p i + 256 * byte_at p (i + 1)

abbrev pub uint32_at : List ℕ → ℕ → ℕ
uint32_at p i =
    byte_at p i + 256 * byte_at p (i + 1) + 65536 * byte_at p (i + 2) + 16777216 * byte_at p (i + 3)

-- The memory of an `app_msg_t` whose members are in their ranges; `pad` is what the bytes between them
-- hold.
unfoldable pub msg_bytes : AppMsg → (pad : ℕ → ℕ) → List ℕ
msg_bytes m pad =
    m.msg_type
    ∷ pad 1
    ∷ m.ms_to_update % 256
    ∷ m.ms_to_update / 256
    ∷ m.query.req_id % 256
    ∷ m.query.req_id / 256 % 256
    ∷ m.query.req_id / 65536 % 256
    ∷ m.query.req_id / 16777216
    ∷ m.query.engine_id
    ∷ pad 9
    ∷ pad 10
    ∷ pad 11
    ∷ m.query.data_id % 256
    ∷ m.query.data_id / 256 % 256
    ∷ m.query.data_id / 65536 % 256
    ∷ m.query.data_id / 16777216
    ∷ []

unfoldable pub msg_at : List ℕ → AppMsg
msg_at p = record {
  msg_type = byte_at p 0;
  ms_to_update = uint16_at p 2;
  query = record { req_id = uint32_at p 4; engine_id = byte_at p 8; data_id = uint32_at p 12 };
}

-- The memory of an `app_reply_t`, likewise.
unfoldable pub reply_bytes : AppReply → (pad : ℕ → ℕ) → List ℕ
reply_bytes r pad =
    r.req_id % 256
    ∷ r.req_id / 256 % 256
    ∷ r.req_id / 65536 % 256
    ∷ r.req_id / 16777216
    ∷ r.u8
    ∷ pad 5
    ∷ word16 r.i16 % 256
    ∷ word16 r.i16 / 256
    ∷ word32 r.i32 % 256
    ∷ word32 r.i32 / 256 % 256
    ∷ word32 r.i32 / 65536 % 256
    ∷ word32 r.i32 / 16777216
    ∷ []

unfoldable pub reply_at : List ℕ → AppReply
unfolding int16_at int32_at
reply_at p = record {
  req_id = uint32_at p 0;
  u8 = byte_at p 4;
  i16 = int16_at p 6;
  i32 = int32_at p 8;
}

-- What a `read` of a socket gives: an error, or the bytes that it stores, none at the end of the
-- stream. It asks for the size of the variable.
pub data Incoming : Type 0 where
  error : Incoming
  bytes : List ℕ → Incoming

-- The `read` of a round, and the test of its result: what the round goes on with, and `packet_msg`.
unfoldable pub read_msg : (packet_msg : List ℕ) → Incoming → Read × List ℕ
unfolding msg_at
read_msg packet_msg error = (failed, packet_msg)
read_msg packet_msg (bytes []) = (closed, packet_msg)
read_msg packet_msg (bytes (b ∷ d)) =
    let stored = overlay (b ∷ d) packet_msg in (message (msg_at stored), stored)

-- One `read` after the other.
abbrev pub read_msgs : (packet_msg : List ℕ) → List Incoming → List Read
read_msgs packet_msg [] = []
read_msgs packet_msg (i ∷ is) = (read_msg packet_msg i).0 ∷ read_msgs (read_msg packet_msg i).1 is
