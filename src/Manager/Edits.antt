-- ===== src/Manager/Edits.antt =====
-- What a visit to a descriptor in src/application_manager.c does to the registrations: at most one
-- operation of src/registration.c, or the same one twice.
use psw_afdx.Base.{
  ℕ, ◌≡◌, refl, sym, ap, ◌∙◌, subst, ◌==◌, Bool, true, Bool-cases, Option, none, some, [], ◌∷◌,
  ◌++◌, arith, inl, inr, bind-eq_some, ℤ, pos, negsuc, ◌⊎◌,
}
use psw_afdx.Protocol.{AppMsg, AppQuery, msg_type_request, msg_type_register, msg_type_unregister}
use psw_afdx.IntData.{IntData}
use psw_afdx.Serve.{Served, undefined, exited, sent}
use psw_afdx.Registration.{
  Scheduler, Registry, find_node, register_query, unregister_query, unregister_application,
}
use psw_afdx.Registration.Nodes.{nodes}
use psw_afdx.Registration.Unique.{Unique}
use psw_afdx.Registration.Addresses.{
  register_query-Unique, unregister_query-Unique, unregister_application-Unique,
}
use psw_afdx.Registration.Kept.{IsConsistent}
use psw_afdx.Registration.Others.{
  OfOther, register_query-task, unregister_query-task, unregister_application-task,
}
use psw_afdx.Manager.{
  Read, failed, closed, message, Answers, Round, Manager, drop_client, after_reply, process,
  handle_client, accept_client,
}

module _ {S : Type 0} (scheduler : Scheduler S) (am_sockfd : ℕ) (intdata : IntData) where
  pub data Edit (r : Registry S) (fd : ℕ) (node : Option ℕ) : Registry S → Type 0 where
    keeps : Edit r fd node r
    registers :
        (query : AppQuery) (interval : ℕ) (app_memory : Bool) (r' : Registry S)
        → register_query scheduler r fd query interval app_memory node ≡ some r'
        → Edit r fd node r'
    unregisters :
        (req_id : ℕ) (r' : Registry S)
        → unregister_query scheduler r fd req_id ≡ some r'
        → Edit r fd node r'
    closes : (r' : Registry S) → unregister_application scheduler r fd ≡ some r' → Edit r fd node r'
    closes_twice :
        (r1 r' : Registry S)
        → unregister_application scheduler r fd ≡ some r1
        → unregister_application scheduler r1 fd ≡ some r'
        → Edit r fd node r'

  after_reply-registry :
      (m m' : Manager S) (s : Served)
      → after_reply scheduler am_sockfd intdata m s ≡ some m'
      → m'.registry ≡ m.registry
  after_reply-registry m m' undefined e = absurd cc
  after_reply-registry m m' (exited to r) e = absurd cc
  after_reply-registry m m' (sent to r) e =
      let is : record m { replies = m.replies ++ ((to, r) ∷ []) } ≡ m' = cc in
      sym (ap (λ x. x.registry) is)

  -- A message that is not an `AFDX_MSG_TYPE_UNREGISTER` at most registers a query.
  pub process-cases :
      (m m' : Manager S) (fd : ℕ) (msg : AppMsg) (a : Answers)
      → process scheduler am_sockfd intdata m fd msg a ≡ some m'
      → (m'.registry ≡ m.registry)
        ⊎ (register_query scheduler m.registry fd msg.query msg.ms_to_update a.app_memory a.node
            ≡ some m'.registry)
        ⊎ ((msg.msg_type ≡ msg_type_unregister)
            × (unregister_query scheduler m.registry fd msg.query.req_id ≡ some m'.registry))
  unfolding process
  process-cases m m' fd msg a e = elim (Bool-cases (msg.msg_type == msg_type_request)) [
    | inl request ↦ inl (after_reply-registry m m' _ (rw (process, request) at e))
    | inr other1 ↦ elim (Bool-cases (msg.msg_type == msg_type_register)) [
      | inl register ↦
          let (r', is, last) = bind-eq_some _ _ m' (rw (process, other1, register) at e) in
          let eq : record m { registry = r' } ≡ m' = cc in
          inr (inl (is ∙ ap (λ x. some x.registry) eq))
      | inr other2 ↦ elim (Bool-cases (msg.msg_type == msg_type_unregister)) [
        | inl unregister ↦
            let (r', is, last) =
              bind-eq_some (unregister_query scheduler m.registry fd msg.query.req_id) _ m'
                (rw (process, other1, other2, unregister) at e) in
            let eq : record m { registry = r' } ≡ m' = cc in
            inr (inr (ground arith, is ∙ ap (λ x. some x.registry) eq))
        | inr other3 ↦
            let eq : m ≡ m' = (let e' = rw (process, other1, other2, other3) at e in cc) in
            inl (sym (ap (λ x. x.registry) eq))
      ]
    ]
  ]

  process-Edit :
      (m m' : Manager S) (fd : ℕ) (msg : AppMsg) (a : Answers)
      → process scheduler am_sockfd intdata m fd msg a ≡ some m'
      → Edit m.registry fd a.node m'.registry
  process-Edit m m' fd msg a e = elim (process-cases m m' fd msg a e) [
    | inl same ↦ subst (λ x. Edit m.registry fd a.node x) (sym same) keeps
    | inr (inl is) ↦ registers msg.query msg.ms_to_update a.app_memory m'.registry is
    | inr (inr (_, is)) ↦ unregisters msg.query.req_id m'.registry is
  ]

  pub drop_client-registry :
      (m m' : Manager S) (fd : ℕ)
      → drop_client scheduler am_sockfd intdata m fd ≡ some m'
      → unregister_application scheduler m.registry fd ≡ some m'.registry
  unfolding drop_client
  drop_client-registry m m' fd e =
      let (r', is, last) = bind-eq_some (unregister_application scheduler m.registry fd) _ m' e in
      let same : r' ≡ m'.registry = ap (λ x. x.registry) (some_inj last) in
      is ∙ ap (λ x. some x) same
    where
      some_inj : {A : Type 0} {x y : A} → some x ≡ some y → x ≡ y
      some_inj e = cc

  pub handle_client-Edit :
      (m m' : Manager S) (fd : ℕ) (a : Answers)
      → handle_client scheduler am_sockfd intdata m fd a ≡ some m'
      → Edit m.registry fd a.node m'.registry
  unfolding handle_client
  handle_client-Edit m m' fd a e = go a.read refl
    where
      go : (r : Read) → a.read ≡ r → Edit m.registry fd a.node m'.registry
      go failed is =
          let (m1, first, second) =
            bind-eq_some (drop_client scheduler am_sockfd intdata m fd) _ m'
              (rw (handle_client, is) at e) in
          closes_twice m1.registry m'.registry (drop_client-registry m m1 fd first)
            (drop_client-registry m1 m' fd second)
      go closed is = closes m'.registry (drop_client-registry m m' fd (rw (handle_client, is) at e))
      go (message msg) is = process-Edit m m' fd msg a (rw (handle_client, is) at e)

  pub accept_client-registry :
      (m m' : Manager S) (e : Round) (c : ℤ)
      → accept_client scheduler am_sockfd intdata m e ≡ some (c, m')
      → m'.registry ≡ m.registry
  unfolding accept_client
  accept_client-registry m m' e c is = elim (Bool-cases (e.rfds am_sockfd)) [
    | inl asked ↦ go e.accepted refl asked
    | inr quiet ↦
        let same : m ≡ m' = (let e' = rw (accept_client, quiet) at is in cc) in
        sym (ap (λ x. x.registry) same)
  ]
    where
      go : (a : ℤ) → e.accepted ≡ a → e.rfds am_sockfd ≡ true → m'.registry ≡ m.registry
      go (negsuc n) at asked = absurd (let e' = rw (accept_client, asked, at) at is in cc)
      go (pos newfd) at asked = let e' = rw (accept_client, asked, at) at is in cc

  -- If the memory for a new node is not in use, no two nodes have one address after that.
  pub Edit-Unique :
      (r r' : Registry S) (fd : ℕ) (a_node : Option ℕ)
      → ((n : ℕ) → a_node ≡ some n → find_node r.apps n ≡ none)
      → Unique (nodes r.apps)
      → Edit r fd a_node r'
      → Unique (nodes r'.apps)
  Edit-Unique r r' fd a_node new u keeps = u
  Edit-Unique r r' fd a_node new u (registers query interval app_memory _ is) =
      register_query-Unique scheduler r r' fd interval query app_memory a_node new u is
  Edit-Unique r r' fd a_node new u (unregisters req_id _ is) =
      unregister_query-Unique scheduler r r' fd req_id u is
  Edit-Unique r r' fd a_node new u (closes _ is) =
      unregister_application-Unique scheduler r r' fd u is
  Edit-Unique r r' fd a_node new u (closes_twice r1 _ first second) =
      unregister_application-Unique scheduler r1 r' fd
        (unregister_application-Unique scheduler r r1 fd u first) second

  -- What the visit does to the tasks of other clients: nothing.
  pub Edit-task :
      (r r' : Registry S) (fd : ℕ) (a_node : Option ℕ) (h n : ℕ)
      → IsConsistent scheduler r
      → scheduler.task r.sched h ≡ some n
      → OfOther r.apps fd h
      → Edit r fd a_node r'
      → scheduler.task r'.sched h ≡ some n
  Edit-task r r' fd a_node h n v at other keeps = at
  Edit-task r r' fd a_node h n v at other (registers query interval app_memory _ is) =
      register_query-task scheduler r r' fd interval query app_memory a_node h n v at is
  Edit-task r r' fd a_node h n v at other (unregisters req_id _ is) =
      unregister_query-task scheduler r r' fd req_id h v other is ∙ at
  Edit-task r r' fd a_node h n v at other (closes _ is) =
      (unregister_application-task scheduler r r' fd h v other is).1 ∙ at
  Edit-task r r' fd a_node h n v at other (closes_twice r1 _ first second) =
      let (v1, same1, other1) = unregister_application-task scheduler r r1 fd h v other first in
      let (v2, same2, other2) = unregister_application-task scheduler r1 r' fd h v1 other1 second in
      same2 ∙ same1 ∙ at
