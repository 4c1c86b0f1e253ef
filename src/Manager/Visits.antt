-- ===== src/Manager/Visits.antt =====
-- What a visit to a ready descriptor in src/application_manager.c keeps.
use psw_afdx.Base.{
  ℕ, ◌≡◌, ◌≢◌, refl, sym, ap, ◌∙◌, subst, ◌==◌, if◌then◌else◌, Bool, true, Bool-cases, Option, some,
  [], ◌∷◌, ◌++◌, arith, inl, inr, bind-eq_some, ◌⊎◌,
}
use psw_afdx.Protocol.{AppMsg, AppQuery, msg_type_request, msg_type_register, msg_type_unregister}
use psw_afdx.IntData.{IntData}
use psw_afdx.Serve.{Served, undefined, exited, sent}
use psw_afdx.Registration.{Scheduler, Registry, find_app, has_app, register_query, unregister_query}
use psw_afdx.Registration.Kept.{IsConsistent, register_query_lem, unregister_query_lem}
use psw_afdx.Manager.{
  Read, failed, closed, message, Answers, Manager, drop_client, after_reply, process, handle_client,
}
use psw_afdx.Manager.Clients.{IsOk, drop_client_lem}

module _ {S : Type 0} (scheduler : Scheduler S) (am_sockfd : ℕ) (intdata : IntData) where
  register_some :
      (r r' : Registry S) (fd interval : ℕ) (query : AppQuery) (app_memory : Bool) (node : Option ℕ)
      → IsConsistent scheduler r
      → register_query scheduler r fd query interval app_memory node ≡ some r'
      → IsConsistent scheduler r'
        × ((k : ℕ) → has_app r'.apps k ≡ (if fd == k then true else has_app r.apps k))
  unfolding register_query
  register_some r r' fd interval query app_memory node v e =
      let (apps, e1, rest1) = bind-eq_some (find_app r.apps fd app_memory) _ r' e in
      let (addr, e2, rest2) = bind-eq_some node _ r' rest1 in
      let ((h, s'), e3, rest3) =
        bind-eq_some (scheduler.schedule r.sched addr interval) _ r' rest2 in
      let memory : (if has_app r.apps fd then true else app_memory) ≡ true = ground arith in
      let there =
        register_query_lem scheduler r s' fd interval addr h query app_memory v memory e3 in
      let (r1, is1, v1, apps1, _, _) = there in
      let is : register_query scheduler r fd query interval app_memory (some addr) ≡ some r' =
        rw e2 at e in
      let same : r1 ≡ r' = cc in
      subst
        (λ x.
          IsConsistent scheduler x
          × ((k : ℕ) → has_app x.apps k ≡ (if fd == k then true else has_app r.apps k)))
        same (v1, apps1)

  -- New registrations of the clients, and perhaps of one that is watched.
  registry-IsOk :
      (m : Manager S) (r' : Registry S) (fd : ℕ)
      → IsOk scheduler am_sockfd intdata m
      → m.managed_fds fd ≡ true
      → IsConsistent scheduler r'
      → ((k : ℕ) → has_app r'.apps k ≡ true → (fd ≡ k) ⊎ (has_app m.registry.apps k ≡ true))
      → IsOk scheduler am_sockfd intdata (record m { registry = r' })
  registry-IsOk m r' fd ok on v apps = record {
    consistent = v;
    watched = ok.watched;
    listening = ok.listening;
    clients =
        λ k has. elim (apps k has) [ inl same ↦ rw same at on | inr before ↦ ok.clients k before ];
  }

  -- What a visit of a client other than the listening socket keeps: nothing but its own descriptor
  -- leaves the set.
  abbrev pub Keeps : Manager S → ℕ → Manager S → Type 0
  Keeps m fd m' =
      IsOk scheduler am_sockfd intdata m'
      × ((k : ℕ) → fd ≢ k → m'.managed_fds k ≡ m.managed_fds k)
      × (m'.nfds ≡ m.nfds)

  after_reply-Keeps :
      (m m' : Manager S) (fd : ℕ) (s : Served)
      → IsOk scheduler am_sockfd intdata m
      → after_reply scheduler am_sockfd intdata m s ≡ some m'
      → Keeps m fd m'
  after_reply-Keeps m m' fd undefined ok e = absurd cc
  after_reply-Keeps m m' fd (exited to r) ok e = absurd cc
  after_reply-Keeps m m' fd (sent to r) ok e =
      let is : record m { replies = m.replies ++ ((to, r) ∷ []) } ≡ m' = cc in
      subst (λ x. Keeps m fd x) is
        (
          record {
            consistent = ok.consistent;
            watched = ok.watched;
            listening = ok.listening;
            clients = ok.clients;
          },
          λ k n. refl,
          refl,
        )

  process-Keeps :
      (m m' : Manager S) (fd : ℕ) (msg : AppMsg) (a : Answers)
      → IsOk scheduler am_sockfd intdata m
      → m.managed_fds fd ≡ true
      → process scheduler am_sockfd intdata m fd msg a ≡ some m'
      → Keeps m fd m'
  unfolding process
  process-Keeps m m' fd msg a ok on e = elim (Bool-cases (msg.msg_type == msg_type_request)) [
    | inl request ↦ after_reply-Keeps m m' fd _ ok (rw (process, request) at e)
    | inr other1 ↦ elim (Bool-cases (msg.msg_type == msg_type_register)) [
      | inl register ↦
          let e' = rw (process, other1, register) at e in
          let (r', is, last) = bind-eq_some _ _ m' e' in
          let (v, apps) = register_some m.registry r' fd _ _ _ _ ok.consistent is in
          let eq : record m { registry = r' } ≡ m' = cc in
          subst (λ x. Keeps m fd x) eq
            (
              registry-IsOk m r' fd ok on v (λ k has. elim (Bool-cases (fd == k)) [
                | inl here ↦ inl (ground arith)
                | inr there ↦ inr (ground (arith, apps k))
              ]),
              λ k n. refl,
              refl,
            )
      | inr other2 ↦ elim (Bool-cases (msg.msg_type == msg_type_unregister)) [
        | inl unregister ↦
            let e' = rw (process, other1, other2, unregister) at e in
            let (r', is, last) =
              bind-eq_some (unregister_query scheduler m.registry fd msg.query.req_id) _ m' e' in
            let (r1, is1, v, apps) =
              unregister_query_lem scheduler m.registry fd msg.query.req_id ok.consistent in
            let same : r1 ≡ r' = cc in
            let eq : record m { registry = r1 } ≡ m' = cc in
            subst (λ x. Keeps m fd x) eq
              (registry-IsOk m r1 fd ok on v (λ k has. inr (sym (apps k) ∙ has)), λ k n. refl, refl)
        | inr other3 ↦
            let eq : m ≡ m' = (let e' = rw (process, other1, other2, other3) at e in cc) in
            subst (λ x. Keeps m fd x) eq (ok, λ k n. refl, refl)
      ]
    ]
  ]

  pub drop_client-Keeps :
      (m m' : Manager S) (fd : ℕ)
      → IsOk scheduler am_sockfd intdata m
      → fd ≢ am_sockfd
      → drop_client scheduler am_sockfd intdata m fd ≡ some m'
      → Keeps m fd m'
  drop_client-Keeps m m' fd ok other e =
      let (m1, is1, ok1, gone1, fds1, closed1, n1) =
        drop_client_lem scheduler am_sockfd intdata m fd ok other in
      let same : m1 ≡ m' = cc in
      subst (λ x. Keeps m fd x) same (ok1, λ k n. ap (λ f. f k) fds1 ∙ ground arith, n1)

  pub handle_client-Keeps :
      (m m' : Manager S) (fd : ℕ) (a : Answers)
      → IsOk scheduler am_sockfd intdata m
      → m.managed_fds fd ≡ true
      → fd ≢ am_sockfd
      → handle_client scheduler am_sockfd intdata m fd a ≡ some m'
      → Keeps m fd m'
  unfolding handle_client
  handle_client-Keeps m m' fd a ok on other e = go a.read refl
    where
      go : (r : Read) → a.read ≡ r → Keeps m fd m'
      go failed is =
          let e' = rw (handle_client, is) at e in
          let (m1, first, second) =
            bind-eq_some (drop_client scheduler am_sockfd intdata m fd) _ m' e' in
          let (ok1, keep1, n1) = drop_client-Keeps m m1 fd ok other first in
          let (ok2, keep2, n2) = drop_client-Keeps m1 m' fd ok1 other second in
          (ok2, λ k n. keep2 k n ∙ keep1 k n, n2 ∙ n1)
      go closed is = drop_client-Keeps m m' fd ok other (rw (handle_client, is) at e)
      go (message msg) is = process-Keeps m m' fd msg a ok on (rw (handle_client, is) at e)
