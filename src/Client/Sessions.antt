-- ===== src/Client/Sessions.antt =====
-- A session of src/app3.c or src/app4.c with the daemon of src/application_manager.c and
-- src/registration.c: what its four messages leave behind.
use psw_afdx.Base.{ℕ, ◌+◌, some, Option, List, [], ◌∷◌, ◌>>=◌}
use psw_afdx.Protocol.{AppMsg, msg_type_unregister}
use psw_afdx.IntData.{IntData}
use psw_afdx.Registration.{Scheduler}
use psw_afdx.Manager.{Answers, Manager, process}

-- The message with which a client unregisters a query after its second registration.
abbrev pub unregister_message : AppMsg → ℕ → AppMsg
unregister_message second req_id = record second {
  msg_type = msg_type_unregister;
  query = record second.query { req_id = req_id };
}

module _ {S : Type 0} (scheduler : Scheduler S) (am_sockfd : ℕ) (intdata : IntData) where
  -- The messages of a client, processed one after the other; the answers are given by the number.
  abbrev pub process_all : Manager S → ℕ → (ℕ → Answers) → ℕ → List AppMsg → Option (Manager S)
  process_all m fd answers i [] = some m
  process_all m fd answers i (msg ∷ rest) =
      process scheduler am_sockfd intdata m fd msg (answers i) >>= λ m'.
      process_all m' fd answers (i + 1) rest
