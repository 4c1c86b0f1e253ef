-- ===== src/Manager/Clients.antt =====
-- What becomes of the clients that a round of the loop of src/application_manager.c visits.
use psw_afdx.Base.{
  ℕ, ◌<◌, ◌≡◌, ◌≢◌, refl, ap, ◌∙◌, true, false, some, [], ◌∷◌, ◌++◌, arith, inl, inr, ◌⊎◌,
}
use psw_afdx.IntData.{IntData}
use psw_afdx.Registration.{Scheduler, has_app}
use psw_afdx.Registration.Kept.{IsConsistent, unregister_application_lem}
use psw_afdx.Manager.{failed, closed, Answers, Manager, with_fd, drop_client, handle_client}

module _ {S : Type 0} (scheduler : Scheduler S) (am_sockfd : ℕ) (intdata : IntData) where
  -- The registrations are consistent, `select` watches every descriptor of the set and the listening
  -- socket, and every application with queries is one of the clients.
  pub record IsOk (m : Manager S) : Type 0 where
    pub consistent : IsConsistent scheduler m.registry
    pub watched : (fd : ℕ) → m.managed_fds fd ≡ true → fd < m.nfds
    pub listening : m.managed_fds am_sockfd ≡ true
    pub clients : (fd : ℕ) → has_app m.registry.apps fd ≡ true → m.managed_fds fd ≡ true

  -- Dropping a client other than the listening socket succeeds.
  pub drop_client_lem :
      (m : Manager S) (fd : ℕ)
      → IsOk m
      → fd ≢ am_sockfd
      → (m' : Manager S) × (drop_client scheduler am_sockfd intdata m fd ≡ some m')
        × IsOk m'
        × (has_app m'.registry.apps fd ≡ false)
        × (m'.managed_fds ≡ with_fd m.managed_fds fd false)
        × (m'.closed_fds ≡ m.closed_fds ++ (fd ∷ []))
        × (m'.nfds ≡ m.nfds)
  unfolding drop_client
  drop_client_lem m fd ok other =
      let (r', is, consistent, apps) =
        unregister_application_lem scheduler m.registry fd ok.consistent in
      let m' : Manager S = record m {
        registry = r';
        managed_fds = with_fd m.managed_fds fd false;
        closed_fds = m.closed_fds ++ (fd ∷ []);
      } in
      let watched : (k : ℕ) → m'.managed_fds k ≡ true → k < m.nfds =
        λ k on. ok.watched k (ground arith) in
      let clients : (k : ℕ) → has_app r'.apps k ≡ true → m'.managed_fds k ≡ true =
        λ k has. ground (arith, apps k, ok.clients k) in
      (
        m',
        rw (drop_client, is) refl,
        record {
          consistent = consistent;
          watched = watched;
          listening = ground (arith, ok.listening);
          clients = clients;
        },
        ground (arith, apps fd),
        refl,
        refl,
        refl,
      )

  -- From a state as rounds keep it, for a client: if `read` fails or the client has closed its
  -- socket, the round goes on without it. None of its queries is registered, its descriptor is no
  -- longer watched, and the descriptor is closed, once if the client has closed its socket and
  -- twice if `read` fails.
  pub handle_client-gone :
      (m : Manager S) (fd : ℕ) (a : Answers)
      → IsOk m
      → fd ≢ am_sockfd
      → (a.read ≡ failed) ⊎ (a.read ≡ closed)
      → (m' : Manager S) × (handle_client scheduler am_sockfd intdata m fd a ≡ some m')
        × IsOk m'
        × (has_app m'.registry.apps fd ≡ false)
        × (m'.managed_fds fd ≡ false)
        × ((a.read ≡ closed → m'.closed_fds ≡ m.closed_fds ++ (fd ∷ []))
            × (a.read ≡ failed → m'.closed_fds ≡ (m.closed_fds ++ (fd ∷ [])) ++ (fd ∷ [])))
  unfolding handle_client
  handle_client-gone m fd a ok other how = elim how [
    | inl fails ↦
        let (m1, is1, ok1, gone1, fds1, closed1, n1) = drop_client_lem m fd ok other in
        let (m2, is2, ok2, gone2, fds2, closed2, n2) = drop_client_lem m1 fd ok1 other in
        (
          m2,
          rw (handle_client, fails, is1) is2,
          ok2,
          gone2,
          ap (λ f. f fd) fds2 ∙ ground arith,
          (λ e. absurd cc, λ e. closed2 ∙ ap (λ x. x ++ (fd ∷ [])) closed1),
        )
    | inr ends ↦
        let (m1, is1, ok1, gone1, fds1, closed1, n1) = drop_client_lem m fd ok other in
        (
          m1,
          rw (handle_client, ends) is1,
          ok1,
          gone1,
          ap (λ f. f fd) fds1 ∙ ground arith,
          (λ e. closed1, λ e. absurd cc),
        )
  ]

-- It does not depend on the data.
pub IsOk-data :
    {S : Type 0} (scheduler : Scheduler S) (am_sockfd : ℕ) (d d' : IntData) (m : Manager S)
    → IsOk scheduler am_sockfd d m
    → IsOk scheduler am_sockfd d' m
IsOk-data scheduler am_sockfd d d' m ok = record {
  consistent = ok.consistent;
  watched = ok.watched;
  listening = ok.listening;
  clients = ok.clients;
}
