-- ===== src/Generator/Sends.antt =====
-- How `main` of src/UDP_generator.c ends.
use psw_afdx.Base.{
  ℕ, suc, ◌+◌, ◌<◌, ◌≤◌, ◌≡◌, ◌==◌, ==_iff, refl, ap, arith, ℤ, Bool-cases, inl, inr, List, [], ◌∷◌,
  ◌↔◌, ◌⊎◌, true, false, length, is_negative,
}
use psw_afdx.Protocol.{AfdxPacket}
use psw_afdx.Generator.{start_vars, Vars, fill_packets, fill_packet, send_packets, Answers, main}

length-fill_packets :
    (i : ℕ) (v : Vars) (ps : List AfdxPacket) → length (fill_packets i v ps) ≡ length ps
unfolding fill_packets
length-fill_packets i v [] = refl
length-fill_packets i v (p ∷ ps) = ap suc (length-fill_packets (i + 1) (fill_packet i v p).1 ps)

-- The loop that sends ends exactly if no call of `sendto` fails, and then it has sent all packets.
send_packets_complete :
    (i : ℕ) (data_sent : ℕ → ℤ) (ps : List AfdxPacket)
    → ((send_packets i data_sent ps).1 ≡ true
        ↔ ((k : ℕ) → i ≤ k → k < i + length ps → is_negative (data_sent k) ≡ false))
      × ((send_packets i data_sent ps).1 ≡ true → (send_packets i data_sent ps).0 ≡ ps)
send_packets_complete i data_sent [] =
    ((λ e k le lt. absurd (omega (arith, le, lt)), λ all. refl), λ e. refl)
send_packets_complete i data_sent (p ∷ ps) =
    let (ends, all_sent) = send_packets_complete (i + 1) data_sent ps in
    elim (Bool-cases (is_negative (data_sent i))) [
      | inl fails ↦ (
        (
          λ e. absurd (let no = rw (send_packets, fails) at e in cc),
          λ all. absurd (let no = all i (omega arith) (omega arith) in cc),
        ),
        λ e. absurd (let no = rw (send_packets, fails) at e in cc),
      )
      | inr sent ↦
          let later =
            λ (e : (send_packets i data_sent (p ∷ ps)).1 ≡ true). rw (send_packets, sent) at e in
          (
            (
              λ e k le lt. elim (Bool-cases (i == k)) [
                | inl here ↦ rw ((==_iff i k).0 here) at sent
                | inr there ↦ ends.0 (later e) k (ground arith) (omega (arith, lt))
              ],
              λ all.
                  rw (send_packets, sent)
                    (ends.1 (λ k le lt. all k (omega (arith, le)) (omega (arith, lt)))),
            ),
            λ e. rw (send_packets, sent) (ap (λ x. p ∷ x) (all_sent (later e))),
          )
    ]

-- No system call fails.
abbrev pub Succeeds : Answers → List AfdxPacket → Type 0
Succeeds a junk =
    (is_negative a.src_sock ≡ false)
    × (is_negative a.broadcast ≡ false)
    × ((k : ℕ) → k < length junk → is_negative (a.data_sent k) ≡ false)
    × (is_negative a.closed ≡ false)

-- A call that fails.
status_one :
    (a : Answers) (junk : List AfdxPacket)
    → (main a junk).status ≡ 1
    → (Succeeds a junk → ⊥)
    → ((main a junk).status ≡ 0 ↔ Succeeds a junk)
      × ((((main a junk).status ≡ 0) × ((main a junk).datagrams ≡ fill_packets 0 start_vars junk))
          ⊎ ((main a junk).status ≡ 1))
status_one a junk one fails =
    (((λ e. absurd (omega (arith, e, one))), λ ok. absurd (fails ok)), inr one)

-- `main` exits with status 0 exactly if no system call fails, and then it has sent every packet of the
-- array, in order; otherwise its status is 1.
pub main-status :
    (a : Answers) (junk : List AfdxPacket)
    → ((main a junk).status ≡ 0 ↔ Succeeds a junk)
      × ((((main a junk).status ≡ 0) × ((main a junk).datagrams ≡ fill_packets 0 start_vars junk))
          ⊎ ((main a junk).status ≡ 1))
unfolding main
main-status a junk =
    let filled = fill_packets 0 start_vars junk in
    let (ends, all_sent) = send_packets_complete 0 a.data_sent filled in
    let same = length-fill_packets 0 start_vars junk in
    elim (Bool-cases (is_negative a.src_sock)) [
      | inl f ↦ status_one a junk (rw (main, f) refl) (λ ok. let no = ok.0 in cc)
      | inr ok1 ↦ elim (Bool-cases (is_negative a.broadcast)) [
        | inl f ↦ status_one a junk (rw (main, ok1, f) refl) (λ ok. let no = ok.1 in cc)
        | inr ok2 ↦ elim (Bool-cases (send_packets 0 a.data_sent filled).1) [
          | inr f ↦
              status_one a junk (rw (main, ok1, ok2, f) refl)
                (λ ok. let yes = ends.1 (λ k le lt. ok.2 k (omega (arith, lt, same))) in cc)
          | inl ok3 ↦ elim (Bool-cases (is_negative a.closed)) [
            | inl f ↦
                status_one a junk (rw (main, ok1, ok2, ok3, f) refl) (λ ok. let no = ok.3 in cc)
            | inr ok4 ↦
                let ends_well : (main a junk).status ≡ 0 = rw (main, ok1, ok2, ok3, ok4) refl in
                let sent : (k : ℕ) → k < length junk → is_negative (a.data_sent k) ≡ false =
                  λ k lt. ends.0 ok3 k (omega arith) (omega (arith, lt, same)) in
                (
                  ((λ e. (ok1, ok2, sent, ok4)), λ ok. ends_well),
                  inl (ends_well, rw (main, ok1, ok2) (all_sent ok3)),
                )
          ]
        ]
      ]
    ]
