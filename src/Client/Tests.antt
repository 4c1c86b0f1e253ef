-- ===== src/Client/Tests.antt =====
-- The clients src/app1.c to src/app4.c with a daemon, and the theorems at them.
use psw_afdx.Base.{
  ℕ, ◌≤◌, ◌≡◌, refl, arith, true, some, [], ◌∷◌, ◌==◌, if◌then◌else◌, ◌||◌, pos, is_negative, false,
  ◌<◌, ◌++◌,
}
use psw_afdx.Protocol.{
  AppMsg, AppReply, data_id_of, speeds_aoa, engine_throttle, engine_status, engine_flags,
  attitude_altitude,
}
use psw_afdx.Registration.Counting.{Counter, add_task, one_query}
use psw_afdx.Manager.{closed, Answers, Manager}
use psw_afdx.Client.{
  ReadAnswer, Calls, wrote, sigpipe, killed, app4_first, app4_second, app4_shown, subscribe,
  speeds_aoa_id, engine_throttle_id, engine_status_id, engine_flags_id, attitude_altitude_id,
}
use psw_afdx.Client.Closed.{again, shown_answers, HasEnded, subscribe_ended}

-- The numbers of the clients are those of the enumerators.
ids :
    (data_id_of speeds_aoa_id ≡ some speeds_aoa)
    × (data_id_of engine_throttle_id ≡ some engine_throttle)
    × (data_id_of engine_status_id ≡ some engine_status)
    × (data_id_of engine_flags_id ≡ some engine_flags)
    × (data_id_of attitude_altitude_id ≡ some attitude_altitude)
unfolding data_id_of
ids = (refl, refl, refl, refl, refl)

abbrev serving : Manager Counter
serving = record {
  managed_fds = λ k. (3 == k) || (4 == k) || (6 == k);
  nfds = 7;
  registry = one_query;
  replies = [];
  closed_fds = [];
}

abbrev junk_reply : AppReply
junk_reply = record { req_id = 1; u8 = 2; i16 = pos 3; i32 = pos 4 }

abbrev junk_message : AppMsg
junk_message = record {
  msg_type = 9;
  ms_to_update = 9;
  query = record { req_id = 9; engine_id = 9; data_id = 9 };
}

abbrev answers : ℕ → Answers
answers i = record {
  read = closed;
  stack = junk_reply;
  written = pos 12;
  app_memory = true;
  node = some (if i == 0 then 2000 else 3000);
}

-- A client that gets the same answer to every `read`.
abbrev calls : AppReply → Calls
calls r = record {
  src_sock = pos 3;
  connected = pos 0;
  data_sent = λ i. wrote (pos 20);
  reads = λ i. record { data_recvd = pos 12; store = λ buffer. r };
  closed = pos 0;
}

abbrev answer1 : AppReply
answer1 = record junk_reply { req_id = 12345678; i16 = pos 0 }

abbrev answer2 : AppReply
answer2 = record junk_reply { req_id = 23456789; u8 = 0 }

-- The connection is closed after the first answer.
abbrev short_reads : ℕ → ReadAnswer
short_reads i =
    if i == 0
    then record { data_recvd = pos 12; store = λ buffer. answer1 }
    else record { data_recvd = pos 0; store = λ buffer. buffer }

short_reads-HasEnded : (k : ℕ) → 1 ≤ k → HasEnded (short_reads k)
short_reads-HasEnded k le = ground (arith, le)

short_reads-good : (k : ℕ) → k < 1 → is_negative (short_reads k).data_recvd ≡ false
short_reads-good k lt = ground (arith, lt)

abbrev short_calls : Calls
short_calls = record (calls answer1) {
  reads = short_reads;
  data_sent = λ i. if i == 0 || i == 1 then wrote (pos 20) else sigpipe;
}

subscribe_ended_example :
    subscribe (app4_first junk_message) app4_second app4_shown 1000 short_calls junk_reply
    ≡ record {
      messages = app4_first junk_message ∷ app4_second ∷ [];
      printed = shown_answers app4_shown short_reads 1 0 junk_reply ++ again 999 app4_shown answer1;
      status = killed;
    }
subscribe_ended_example =
    subscribe_ended (app4_first junk_message) app4_second app4_shown 1000 short_calls junk_reply 1
      999 refl refl refl refl short_reads-good short_reads-HasEnded refl

abbrev s1 : Counter
s1 = add_task one_query.sched 2000
