-- ===== src/Client/Closed.antt =====
-- What src/app3.c and src/app4.c do when the daemon has closed the connection: `read` gives 0 then,
-- and leaves the buffer as it is, and `write` raises SIGPIPE.
use psw_afdx.Base.{
  ℕ, zero, suc, ◌+◌, ◌≤◌, ◌<◌, ◌≡◌, refl, ap, ◌∙◌, arith, Bool, true, false, List, [], ◌∷◌, ◌++◌, ℤ,
  pos, is_negative, none,
}
use psw_afdx.Protocol.{AppMsg, AppReply, as_int32}
use psw_afdx.Client.{
  after_reads, unregister_both, Calls, opens, subscribe, ReadAnswer, read_loop, Outcome, write_ends,
  sigpipe, killed,
}

-- The numbers that a client prints for one answer, `n` times.
abbrev pub again : ℕ → (AppReply → ℤ) → AppReply → List ℤ
again zero shown reply = []
again (suc n) shown reply = as_int32 reply.req_id ∷ shown reply ∷ again n shown reply

abbrev pub HasEnded : ReadAnswer → Type 0
HasEnded r = (r.data_recvd ≡ pos 0) × ((buffer : AppReply) → r.store buffer ≡ buffer)

pub read_loop_ended :
    (shown : AppReply → ℤ) (reads : ℕ → ReadAnswer) (left i : ℕ) (reply : AppReply)
    → ((k : ℕ) → i ≤ k → HasEnded (reads k))
    → read_loop shown reads left i reply ≡ (again left shown reply, true)
read_loop_ended shown reads zero i reply ended = refl
read_loop_ended shown reads (suc left) i reply ended =
    let (count, same) = ended i (omega arith) in
    let rest =
      read_loop_ended shown reads left (i + 1) reply (λ k le. ended k (omega (arith, le))) in
    rw (read_loop, count, same reply, rest) refl

-- The buffer after `n` calls of `read` from the `i`-th one on, and what the client prints for them.
abbrev pub buffer : (ℕ → ReadAnswer) → (n i : ℕ) → AppReply → AppReply
buffer reads zero i reply = reply
buffer reads (suc n) i reply = buffer reads n (i + 1) ((reads i).store reply)

abbrev pub shown_answers : (AppReply → ℤ) → (ℕ → ReadAnswer) → (n i : ℕ) → AppReply → List ℤ
shown_answers shown reads zero i reply = []
shown_answers shown reads (suc n) i reply =
    let r = (reads i).store reply in
    as_int32 r.req_id ∷ shown r ∷ shown_answers shown reads n (i + 1) r

read_loop_split :
    (shown : AppReply → ℤ) (reads : ℕ → ReadAnswer) (n left rounds i : ℕ) (reply : AppReply)
    → rounds ≡ n + left
    → ((k : ℕ) → k < i + n → is_negative (reads k).data_recvd ≡ false)
    → ((k : ℕ) → i + n ≤ k → HasEnded (reads k))
    → read_loop shown reads rounds i reply
      ≡ (shown_answers shown reads n i reply ++ again left shown (buffer reads n i reply), true)
read_loop_split shown reads zero left rounds i reply all good ended =
    read_loop_ended shown reads rounds i reply (λ k le. ended k (omega (arith, le)))
    ∙ ap (λ x. (again x shown reply, true)) (omega (arith, all))
read_loop_split shown reads (suc n) left zero i reply all good ended = absurd (omega (arith, all))
read_loop_split shown reads (suc n) left (suc rounds) i reply all good ended =
    let rest =
      read_loop_split shown reads n left rounds (i + 1) ((reads i).store reply) (omega (arith, all))
        (λ k lt. good k (omega (arith, lt))) (λ k le. ended k (omega (arith, le))) in
    rw (read_loop, good i (omega arith), rest) refl

-- If a client as app3 or app4 can connect and write its two registrations, and the daemon has closed the
-- connection after `n` answers, so that `read` gives 0 from then on and a write raises SIGPIPE, then
-- the client prints the `n` answers, and after them the last one (or, for `n` = 0, what was on the stack)
-- once in each round that is left; then SIGPIPE ends it at its third message.
pub subscribe_ended :
    (first second : AppMsg) (shown : AppReply → ℤ) (rounds : ℕ) (a : Calls) (reply : AppReply)
    (n left : ℕ)
    → rounds ≡ n + left
    → opens a ≡ true
    → write_ends (a.data_sent 0) ≡ none
    → write_ends (a.data_sent 1) ≡ none
    → ((k : ℕ) → k < n → is_negative (a.reads k).data_recvd ≡ false)
    → ((k : ℕ) → n ≤ k → HasEnded (a.reads k))
    → a.data_sent 2 ≡ sigpipe
    → subscribe first second shown rounds a reply ≡ record {
      messages = first ∷ second ∷ [];
      printed =
          shown_answers shown a.reads n 0 reply ++ again left shown (buffer a.reads n 0 reply);
      status = killed;
    }
subscribe_ended first second shown rounds a reply n left all connected s0 s1 good ended broken =
    let loop =
      read_loop_split shown a.reads n left rounds 0 reply all (λ k lt. good k (omega (arith, lt)))
        (λ k le. ended k (omega (arith, le))) in
    rw (subscribe, connected, s0, s1, loop, after_reads, unregister_both, broken)
      (ap {A = List ℤ × Bool} {B = Outcome}
        (λ x. record { messages = first ∷ second ∷ []; printed = x.0; status = killed }) loop)
