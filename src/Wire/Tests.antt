-- ===== src/Wire/Tests.antt =====
-- Messages of two clients on the wire, and the theorems at them.
use psw_afdx.Base.{ℕ, ◌≡◌, refl, true, some, none, List, [], ◌∷◌, map, arith, pos}
use psw_afdx.Protocol.{AppMsg, AppReply, data_id_of, attitude_altitude}
use psw_afdx.IntData.{initial_intdata}
use psw_afdx.Serve.{reply_for}
use psw_afdx.Serve.Values.{long, read_reply}
use psw_afdx.Network.{overlay}
use psw_afdx.Registration.Counting.{Counter, counting, one_query, altitude}
use psw_afdx.Manager.{Answers, Manager, process, handle_client}
use psw_afdx.Wire.{msg_bytes, reply_bytes, reply_at, bytes, read_msg, read_msgs}
use psw_afdx.Wire.Whole.{
  sends, leaves, breaks, Act, incoming, meant, read_msgs-whole, reply_for-reply_at,
}
use psw_afdx.Wire.Short.{handle_client-byte}

abbrev asks : AppMsg
asks = record { msg_type = 1; ms_to_update = 513; query = altitude }

-- The bytes between the members are what the stack held.
abbrev stale : ℕ → ℕ
stale i = 170

abbrev unset : List ℕ
unset = 9 ∷ 9 ∷ 9 ∷ 9 ∷ 9 ∷ 9 ∷ 9 ∷ 9 ∷ 9 ∷ 9 ∷ 9 ∷ 9 ∷ 9 ∷ 9 ∷ 9 ∷ 9 ∷ []

abbrev acts : List Act
acts = sends asks stale ∷ leaves ∷ sends (record asks { msg_type = 3 }) stale ∷ breaks ∷ []

read_msgs-whole_example : read_msgs unset (map incoming acts) ≡ map meant acts
read_msgs-whole_example = read_msgs-whole acts unset refl

abbrev stack : AppReply
stack = record { req_id = 0; u8 = 1; i16 = pos 2; i32 = pos 3 }

abbrev variable : List ℕ
variable = 9 ∷ 9 ∷ 9 ∷ 9 ∷ 9 ∷ 9 ∷ 9 ∷ 9 ∷ 9 ∷ 9 ∷ 9 ∷ 9 ∷ []

reply_for-reply_at_example :
    (r : AppReply) × (reply_for initial_intdata stack altitude ≡ some r)
    × ((reply_at (overlay (reply_bytes r stale) variable)).req_id ≡ altitude.req_id)
    × (read_reply attitude_altitude (reply_at (overlay (reply_bytes r stale) variable))
        ≡ long (pos 0))
unfolding data_id_of
reply_for-reply_at_example =
    reply_for-reply_at initial_intdata stack altitude attitude_altitude (long (pos 0)) stale
      variable refl refl
      (record { req_id = omega arith; u8 = omega arith; i16 = omega arith; i32 = omega arith }) refl

-- The second client writes one byte.
abbrev one_byte : Answers
one_byte = record {
  read = (read_msg (msg_bytes asks stale) (bytes (1 ∷ []))).0;
  stack = stack;
  written = pos 12;
  app_memory = true;
  node = none;
}

abbrev watching : Manager Counter
watching = record {
  managed_fds = λ k. true;
  nfds = 6;
  registry = one_query;
  replies = [];
  closed_fds = [];
}

handle_client-byte_example :
    handle_client counting 3 initial_intdata watching 5 one_byte
    ≡ process counting 3 initial_intdata watching 5 (record asks { msg_type = 1 }) one_byte
handle_client-byte_example =
    handle_client-byte counting 3 initial_intdata watching 5 one_byte asks stale 1 refl
