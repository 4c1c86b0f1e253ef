-- ===== src/Client/Answers.antt =====
-- src/app1.c and src/app2.c with the daemon of src/application_manager.c: a client prints the value
-- that it asks for.
use psw_afdx.Base.{ℕ, ◌≡◌, refl, false, none, some, [], ◌∷◌, ◌++◌, get_elem?, pos, is_negative}
use psw_afdx.Protocol.{AppMsg, AppReply, speeds_aoa, engine_throttle, data_id_of}
use psw_afdx.IntData.{IntData, IntdataEngine}
use psw_afdx.Serve.Values.{serve_query-value, byte, short}
use psw_afdx.Registration.{Scheduler}
use psw_afdx.Manager.{Answers, Manager, process}
use psw_afdx.Client.{Calls, write_ends, exit_after_close, app1_message, app2_message, app1, app2}

-- The system calls of a client up to the `close` succeed, and `read` gives the answer `r`.
pub record Gets (a : Calls) (r : AppReply) : Type 0 where
  pub src_sock : is_negative a.src_sock ≡ false
  pub connected : is_negative a.connected ≡ false
  pub written : write_ends (a.data_sent 0) ≡ none
  pub received : is_negative (a.reads 0).data_recvd ≡ false
  pub stored : (buffer : AppReply) → (a.reads 0).store buffer ≡ r

module _ {S : Type 0} (scheduler : Scheduler S) (am_sockfd : ℕ) (intdata : IntData) where
  -- The daemon answers the message of app1 if its `write` succeeds, and app1, when it gets that answer `r`,
  -- prints the angle of attack.
  pub process-app1 :
      (m : Manager S) (fd : ℕ) (answers : Answers) (a : Calls) (message : AppMsg)
      (buffer : AppReply) (r : AppReply)
      → is_negative answers.written ≡ false
      → r ≡ record answers.stack { req_id = 12345678; i16 = intdata.speeds.aoa }
      → Gets a r
      → (process scheduler am_sockfd intdata m fd (app1_message message) answers
          ≡ some (record m { replies = m.replies ++ ((fd, r) ∷ []) }))
        × (app1 a message buffer ≡ record {
          messages = app1_message message ∷ [];
          printed = intdata.speeds.aoa ∷ [];
          status = exit_after_close a;
        })
  unfolding process app1 data_id_of
  process-app1 m fd answers a message buffer r ok is g =
      let q = (app1_message message).query in
      let v = short intdata.speeds.aoa in
      let served =
        serve_query-value intdata answers.stack answers.written fd q speeds_aoa v refl refl in
      (
        rw (process, served, ok, is) refl,
        rw (app1, g.src_sock, g.connected, g.written, g.received, g.stored buffer, is) refl,
      )

  -- The daemon answers the message of app2 if its `write` succeeds and there is an engine 2, and app2,
  -- when it gets that answer `r`, prints the throttle of that engine.
  pub process-app2 :
      (m : Manager S) (fd : ℕ) (answers : Answers) (a : Calls) (message : AppMsg)
      (buffer : AppReply) (e : IntdataEngine) (r : AppReply)
      → is_negative answers.written ≡ false
      → get_elem? intdata.engines 2 ≡ some e
      → r ≡ record answers.stack { req_id = 23456789; u8 = e.throttle }
      → Gets a r
      → (process scheduler am_sockfd intdata m fd (app2_message message) answers
          ≡ some (record m { replies = m.replies ++ ((fd, r) ∷ []) }))
        × (app2 a message buffer ≡ record {
          messages = app2_message message ∷ [];
          printed = pos e.throttle ∷ [];
          status = exit_after_close a;
        })
  unfolding process app2 data_id_of
  process-app2 m fd answers a message buffer e r ok at is g =
      let q = (app2_message message).query in
      let v = byte e.throttle in
      let served =
        serve_query-value intdata answers.stack answers.written fd q engine_throttle v refl
          (rw at refl) in
      (
        rw (process, served, ok, is) refl,
        rw (app2, g.src_sock, g.connected, g.written, g.received, g.stored buffer, is) refl,
      )
