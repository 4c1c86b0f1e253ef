-- ===== src/Client.antt =====
-- src/app1.c to src/app4.c: the example clients. app1 and app2 are one program with other constants,
-- and so are app3 and app4. What the variables on the stack and the system calls give is an argument.
pub mod Answers
pub mod Sessions
pub mod Closed
mod Tests
use psw_afdx.Base.{
  ℕ, zero, suc, Option, none, some, ◌+◌, Bool, true, false, not, ◌&&◌, List, [], ◌∷◌, ◌++◌, ◌==◌,
  if◌then◌else◌, ℤ, pos, negsuc, is_negative,
}
use psw_afdx.Protocol.{
  AppMsg, AppQuery, AppReply, msg_type_request, msg_type_register, msg_type_unregister, as_int32,
}

-- A call of `read`: its result, and what it makes of the buffer.
pub record ReadAnswer : Type 0 where
  pub data_recvd : ℤ
  pub store : AppReply → AppReply

-- The result of a call of `write`. The clients leave the action for SIGPIPE as it is, so that a write to
-- a connection that the other side has closed ends the process.
pub data Written : Type 0 where
  wrote : ℤ → Written
  sigpipe : Written

-- How a process ends.
pub data Status : Type 0 where
  exited : ℕ → Status
  killed : Status

-- The results of the system calls; those of `write` and `read` by the number of the call.
pub record Calls : Type 0 where
  pub src_sock : ℤ
  pub connected : ℤ
  pub data_sent : ℕ → Written
  pub reads : ℕ → ReadAnswer
  pub closed : ℤ

-- What a client has written to its socket, the numbers that it has printed, and how it ends.
pub record Outcome : Type 0 where
  pub messages : List AppMsg
  pub printed : List ℤ
  pub status : Status

-- The values of `data_id_t` that the clients ask for.
abbrev pub speeds_aoa_id : ℕ
speeds_aoa_id = 11

abbrev pub engine_throttle_id : ℕ
engine_throttle_id = 0

abbrev pub engine_status_id : ℕ
engine_status_id = 5

abbrev pub engine_flags_id : ℕ
engine_flags_id = 6

abbrev pub attitude_altitude_id : ℕ
attitude_altitude_id = 7

-- The status after the `close`.
abbrev pub exit_after_close : Calls → Status
exit_after_close a = exited (if is_negative a.closed then 1 else 0)

-- Whether a call of `write` ends the process, and how.
abbrev pub write_ends : Written → Option Status
write_ends (wrote n) = if is_negative n then some (exited 1) else none
write_ends sigpipe = some killed

-- The steps before the first message.
abbrev pub opens : Calls → Bool
opens a = not (is_negative a.src_sock) && not (is_negative a.connected)

-- A client that sends one request and prints the answer.
abbrev pub request : (AppReply → ℤ) → AppMsg → Calls → AppReply → Outcome
request shown message a reply =
    if opens a
    then elim (write_ends (a.data_sent 0)) [
      | some s ↦ record { messages = []; printed = []; status = s }
      | none ↦
          if is_negative (a.reads 0).data_recvd
          then record { messages = message ∷ []; printed = []; status = exited 1 }
          else record {
            messages = message ∷ [];
            printed = shown ((a.reads 0).store reply) ∷ [];
            status = exit_after_close a;
          }
    ]
    else record { messages = []; printed = []; status = exited 1 }

-- The message of app1; `engine_id` and `ms_to_update` are not set.
abbrev pub app1_message : AppMsg → AppMsg
app1_message m = record m {
  msg_type = msg_type_request;
  query = record m.query { req_id = 12345678; data_id = speeds_aoa_id };
}

unfoldable pub app1 : Calls → AppMsg → AppReply → Outcome
app1 a message reply = request (λ r. r.i16) (app1_message message) a reply

abbrev pub app2_message : AppMsg → AppMsg
app2_message m = record m {
  msg_type = msg_type_request;
  query = record { req_id = 23456789; engine_id = 2; data_id = engine_throttle_id };
}

unfoldable pub app2 : Calls → AppMsg → AppReply → Outcome
app2 a message reply = request (λ r. pos r.u8) (app2_message message) a reply

-- The loop that reads: the calls that are left, the number of the next one, and the buffer. The
-- result is what it prints, and whether it comes to its end.
abbrev pub read_loop : (AppReply → ℤ) → (ℕ → ReadAnswer) → ℕ → ℕ → AppReply → List ℤ × Bool
read_loop shown reads zero i reply = ([], true)
read_loop shown reads (suc left) i reply =
    let reply' = (reads i).store reply in
    let rest = read_loop shown reads left (i + 1) reply' in
    if is_negative (reads i).data_recvd
    then ([], false)
    else (as_int32 reply'.req_id ∷ shown reply' ∷ rest.0, rest.1)

-- The end of a client that has registered two queries: it unregisters them.
abbrev pub unregister_both : Calls → AppMsg → (first second : ℕ) → List AppMsg × Status
unregister_both a message first second =
    let m3 : AppMsg = record message {
      msg_type = msg_type_unregister;
      query = record message.query { req_id = first };
    } in
    let m4 : AppMsg = record m3 { query = record m3.query { req_id = second } } in
    elim (write_ends (a.data_sent 2)) [
      | some s ↦ ([], s)
      | none ↦ elim (write_ends (a.data_sent 3)) [
        | some s ↦ (m3 ∷ [], s)
        | none ↦ (m3 ∷ m4 ∷ [], exit_after_close a)
      ]
    ]

-- What follows the loop that reads.
abbrev pub after_reads : (first second : AppMsg) → Calls → List ℤ × Bool → Outcome
after_reads first second a (printed, false) = record {
  messages = first ∷ second ∷ [];
  printed = printed;
  status = exited 1;
}
after_reads first second a (printed, true) =
    let (last, status) = unregister_both a second first.query.req_id second.query.req_id in
    record { messages = first ∷ second ∷ last; printed = printed; status = status }

-- A client that registers two queries, prints the answers, and unregisters the queries.
abbrev pub subscribe :
    (first second : AppMsg) → (shown : AppReply → ℤ) → (rounds : ℕ) → Calls → AppReply → Outcome
subscribe first second shown rounds a reply =
    if opens a
    then elim (write_ends (a.data_sent 0)) [
      | some s ↦ record { messages = []; printed = []; status = s }
      | none ↦ elim (write_ends (a.data_sent 1)) [
        | some s ↦ record { messages = first ∷ []; printed = []; status = s }
        | none ↦ after_reads first second a (read_loop shown a.reads rounds 0 reply)
      ]
    ]
    else record { messages = []; printed = []; status = exited 1 }

abbrev pub app3_first : AppMsg → AppMsg
app3_first m = record {
  msg_type = msg_type_register;
  ms_to_update = 2000;
  query = record m.query { req_id = 87654321; data_id = speeds_aoa_id };
}

abbrev pub app3_second : AppMsg
app3_second = record {
  msg_type = msg_type_register;
  ms_to_update = 500;
  query = record { req_id = 876543210; engine_id = 1; data_id = engine_flags_id };
}

abbrev pub app3_shown : AppReply → ℤ
app3_shown r = if r.req_id == 87654321 then r.i16 else pos r.u8

unfoldable pub app3 : Calls → AppMsg → AppReply → Outcome
app3 a message reply = subscribe (app3_first message) app3_second app3_shown 500 a reply

abbrev pub app4_first : AppMsg → AppMsg
app4_first m = record {
  msg_type = msg_type_register;
  ms_to_update = 300;
  query = record m.query { req_id = 98765432; data_id = attitude_altitude_id };
}

abbrev pub app4_second : AppMsg
app4_second = record {
  msg_type = msg_type_register;
  ms_to_update = 230;
  query = record { req_id = 987654320; engine_id = 2; data_id = engine_status_id };
}

abbrev pub app4_shown : AppReply → ℤ
app4_shown r = if r.req_id == 98765432 then r.i32 else pos r.u8

unfoldable pub app4 : Calls → AppMsg → AppReply → Outcome
app4 a message reply = subscribe (app4_first message) app4_second app4_shown 1000 a reply
