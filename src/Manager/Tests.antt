-- ===== src/Manager/Tests.antt =====
-- A round of src/application_manager.c in which a client has closed its socket, and the theorems at it.
use psw_afdx.Base.{◌≡◌, refl, ◌==◌, ◌||◌, true, false, none, some, [], ◌∷◌, arith, pos, inr}
use psw_afdx.Protocol.{AppReply}
use psw_afdx.IntData.{initial_intdata}
use psw_afdx.Registration.{has_app, unregister_application}
use psw_afdx.Registration.Counting.{Counter, drop_task, counting, one_query, one_query-IsConsistent}
use psw_afdx.Manager.{
  failed, closed, Answers, Round, Manager, with_fd, drop_client, handle_client, accept_client,
  application_manager,
}
use psw_afdx.Manager.Clients.{IsOk, handle_client-gone}
use psw_afdx.Manager.Kept.{application_manager-IsOk}

-- The listening socket has the descriptor 3, the client 4.
abbrev serving : Manager Counter
serving = record {
  managed_fds = λ k. (3 == k) || (4 == k);
  nfds = 5;
  registry = one_query;
  replies = [];
  closed_fds = [];
}

abbrev no_bytes : AppReply
no_bytes = record { req_id = 0; u8 = 0; i16 = pos 0; i32 = pos 0 }

abbrev end_of_stream : Answers
end_of_stream = record {
  read = closed;
  stack = no_bytes;
  written = pos 12;
  app_memory = true;
  node = none;
}

abbrev closing : Round
closing = record {
  fdcnt = pos 1;
  rfds = λ k. 4 == k;
  xfds = λ k. false;
  accepted = pos 0;
  answers = λ k. end_of_stream;
}

abbrev left : Manager Counter
left = record serving {
  managed_fds = with_fd serving.managed_fds 4 false;
  registry = record { apps = []; sched = drop_task one_query.sched 0 };
  closed_fds = 4 ∷ [];
}

serving-IsOk : IsOk counting 3 initial_intdata serving
serving-IsOk = record {
  consistent = one_query-IsConsistent;
  watched = λ fd on. ground arith;
  listening = refl;
  clients = λ fd has. ground arith;
}

runs : application_manager counting 3 initial_intdata serving closing ≡ some left
unfolding application_manager accept_client handle_client drop_client unregister_application
runs = refl

application_manager-IsOk_example : IsOk counting 3 initial_intdata left
application_manager-IsOk_example =
    application_manager-IsOk counting 3 initial_intdata serving left closing serving-IsOk
      (λ k on. ground arith) runs

handle_client-gone_example :
    (m' : Manager Counter) × (handle_client counting 3 initial_intdata serving 4 end_of_stream
      ≡ some m')
    × IsOk counting 3 initial_intdata m'
    × (has_app m'.registry.apps 4 ≡ false)
    × (m'.managed_fds 4 ≡ false)
    × ((end_of_stream.read ≡ closed → m'.closed_fds ≡ 4 ∷ [])
        × (end_of_stream.read ≡ failed → m'.closed_fds ≡ 4 ∷ 4 ∷ []))
handle_client-gone_example =
    handle_client-gone counting 3 initial_intdata serving 4 end_of_stream serving-IsOk (omega arith)
      (inr refl)
