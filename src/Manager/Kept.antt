-- ===== src/Manager/Kept.antt =====
-- What the loop of src/application_manager.c keeps in every round.
use psw_afdx.Base.{
  ℕ, zero, suc, ◌+◌, ◌<◌, ◌≤◌, ◌≡◌, ◌≢◌, refl, ◌∙◌, subst, ◌==◌, ltb, if◌then◌else◌, Bool, true,
  not, ◌&&◌, Bool-cases, Option, some, ℤ, pos, negsuc, arith, inl, inr, bind-eq_some,
}
use psw_afdx.IntData.{IntData}
use psw_afdx.Registration.{Scheduler}
use psw_afdx.Manager.{
  Round, Manager, pred, is_positive, with_fd, drop_client, handle_client, scan, accept_client,
  application_manager,
}
use psw_afdx.Manager.Clients.{IsOk}
use psw_afdx.Manager.Visits.{Keeps, drop_client-Keeps, handle_client-Keeps}

module _ {S : Type 0} (scheduler : Scheduler S) (am_sockfd : ℕ) (intdata : IntData) where
  -- A visit to each descriptor of a set that needs `Q` of the descriptor.
  scan-IsOk :
      (Q : Manager S → ℕ → Type 0) (fds : ℕ → Bool) (visit : Manager S → ℕ → Option (Manager S))
      → ((m m' : Manager S) (fd k : ℕ)
          → Keeps scheduler am_sockfd intdata m fd m'
          → fd ≢ k
          → Q m k
          → Q m' k)
      → ((m m' : Manager S) (fd : ℕ)
          → IsOk scheduler am_sockfd intdata m
          → Q m fd
          → fd ≢ am_sockfd
          → visit m fd ≡ some m'
          → Keeps scheduler am_sockfd intdata m fd m')
      → (left fd : ℕ) (c c' : ℤ) (m m' : Manager S) → IsOk scheduler am_sockfd intdata m
      → ((k : ℕ) → fd ≤ k → fds k ≡ true → Q m k)
      → scan scheduler am_sockfd intdata fds visit left fd c m ≡ some (c', m')
      → IsOk scheduler am_sockfd intdata m' × (m'.nfds ≡ m.nfds)
  scan-IsOk Q fds visit stays keeps zero fd c c' m m' ok on e =
      let same : m ≡ m' = cc in
      subst (λ x. IsOk scheduler am_sockfd intdata x × (x.nfds ≡ m.nfds)) same (ok, refl)
  scan-IsOk Q fds visit stays keeps (suc left) fd c c' m m' ok on e =
      elim (Bool-cases (is_positive c)) [
        | inr done ↦
            let same : m ≡ m' = (let e' = rw (scan, done) at e in cc) in
            subst (λ x. IsOk scheduler am_sockfd intdata x × (x.nfds ≡ m.nfds)) same (ok, refl)
        | inl more ↦ elim (Bool-cases (fds fd && not (fd == am_sockfd))) [
          | inr skip ↦
              scan-IsOk Q fds visit stays keeps left (fd + 1) c c' m m' ok
                (λ k le. on k (omega (arith, le))) (rw (scan, more, skip) at e)
          | inl ready ↦
              let e' = rw (scan, more, ready) at e in
              let (m1, is1, rest) = bind-eq_some (visit m fd) _ (c', m') e' in
              let listed : fds fd ≡ true = ground arith in
              let other : fd ≢ am_sockfd = ground arith in
              let kept = keeps m m1 fd ok (on fd (omega arith) listed) other is1 in
              let (ok', n') =
                scan-IsOk Q fds visit stays keeps left (fd + 1) (pred c) c' m1 m' kept.0
                  (λ k le at.
                    stays m m1 fd k kept (omega (arith, le)) (on k (omega (arith, le)) at))
                  rest in
              (ok', n' ∙ kept.2)
        ]
      ]

  pub accept_client-IsOk :
      (m m' : Manager S) (e : Round) (c : ℤ)
      → IsOk scheduler am_sockfd intdata m
      → accept_client scheduler am_sockfd intdata m e ≡ some (c, m')
      → IsOk scheduler am_sockfd intdata m'
        × ((k : ℕ) → m.managed_fds k ≡ true → m'.managed_fds k ≡ true)
  unfolding accept_client
  accept_client-IsOk m m' e c ok is = elim (Bool-cases (e.rfds am_sockfd)) [
    | inl asked ↦ go e.accepted refl asked
    | inr quiet ↦
        let same : m ≡ m' = (let e' = rw (accept_client, quiet) at is in cc) in
        subst (λ x. Entered x) same (ok, λ k on. on)
  ]
    where
      Entered : Manager S → Type 0
      Entered x =
          IsOk scheduler am_sockfd intdata x
          × ((k : ℕ) → m.managed_fds k ≡ true → x.managed_fds k ≡ true)

      go : (a : ℤ) → e.accepted ≡ a → e.rfds am_sockfd ≡ true → Entered m'
      go (negsuc n) at asked = absurd (let e' = rw (accept_client, asked, at) at is in cc)
      go (pos newfd) at asked =
          let m1 : Manager S = record m {
            managed_fds = with_fd m.managed_fds newfd true;
            nfds = if ltb newfd m.nfds then m.nfds else newfd + 1;
          } in
          let same : m1 ≡ m' = (let e' = rw (accept_client, asked, at) at is in cc) in
          let watched : (k : ℕ) → m1.managed_fds k ≡ true → k < m1.nfds =
            λ k on. ground (arith, ok.watched k) in
          subst (λ x. Entered x) same
            (
              record {
                consistent = ok.consistent;
                watched = watched;
                listening = ground (arith, ok.listening);
                clients = λ k has. ground (arith, ok.clients k has);
              },
              λ k on. ground arith,
            )

  -- Every round that ends keeps the registry consistent, every descriptor of the set below `nfds`,
  -- the listening socket in the set, and every application with queries a client in the set, if
  -- `select` reports only descriptors of the set that it was given.
  pub application_manager-IsOk :
      (m m' : Manager S) (e : Round)
      → IsOk scheduler am_sockfd intdata m
      → ((k : ℕ) → e.rfds k ≡ true → m.managed_fds k ≡ true)
      → application_manager scheduler am_sockfd intdata m e ≡ some m'
      → IsOk scheduler am_sockfd intdata m'
  unfolding application_manager
  application_manager-IsOk m m' e ok reported is =
      let ((c1, m1), is1, rest1) =
        bind-eq_some (accept_client scheduler am_sockfd intdata m e) _ m' is in
      let (ok1, more) = accept_client-IsOk m m1 e c1 ok is1 in
      elim (Bool-cases (e.xfds am_sockfd)) [
        | inl broken ↦ absurd (let e' = rw broken at rest1 in cc)
        | inr sound ↦
            let visit : Manager S → ℕ → Option (Manager S) =
              λ x fd. handle_client scheduler am_sockfd intdata x fd (e.answers fd) in
            let ((c2, m2), is2, rest2) =
              bind-eq_some (scan scheduler am_sockfd intdata e.rfds visit m1.nfds 0 c1 m1) _ m'
                (rw sound at rest1) in
            let (ok2, n2) =
              scan-IsOk (λ x k. x.managed_fds k ≡ true) e.rfds visit
                (λ x y fd k kept other on. kept.1 k other ∙ on)
                (λ x y fd okx on other is.
                  handle_client-Keeps scheduler am_sockfd intdata x y fd (e.answers fd) okx on other
                    is)
                m1.nfds 0 c1 c2 m1 m2 ok1 (λ k le at. more k (reported k at)) is2 in
            let ((c3, m3), is3, rest3) =
              bind-eq_some
                (scan scheduler am_sockfd intdata e.xfds (drop_client scheduler am_sockfd intdata)
                  m2.nfds 0 c2 m2)
                _ m' rest2 in
            let (ok3, n3) =
              scan-IsOk (λ x k. Unit) e.xfds (drop_client scheduler am_sockfd intdata)
                (λ x y fd k kept other on. tt)
                (λ x y fd okx on other is.
                  drop_client-Keeps scheduler am_sockfd intdata x y fd okx other is)
                m2.nfds 0 c2 c3 m2 m3 ok2 (λ k le at. tt) is3 in
            let same : m3 ≡ m' = cc in subst (λ x. IsOk scheduler am_sockfd intdata x) same ok3
      ]
