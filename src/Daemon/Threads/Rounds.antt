-- ===== src/Daemon/Threads/Rounds.antt =====
-- A round of the loop of src/application_manager.c in the steps in which the threads interleave.
use psw_afdx.Base.{
  ℕ, zero, suc, ◌+◌, ◌≤◌, ◌≡◌, ◌≢◌, ◌∙◌, subst, ◌==◌, Bool, true, not, ◌&&◌, Bool-cases, Option,
  none, some, ℤ, arith, inl, inr, bind-eq_some,
}
use psw_afdx.IntData.{IntData, initial_intdata}
use psw_afdx.Sched.Time.{Timespec}
use psw_afdx.Sched.Heap.{Ptr, null, Node, Memory, Sched}
use psw_afdx.Registration.{Scheduler}
use psw_afdx.Manager.{
  Round, Manager, pred, is_positive, scan, accept_client, handle_client, drop_client,
  application_manager,
}
use psw_afdx.Manager.Clients.{IsOk, IsOk-data}
use psw_afdx.Manager.Visits.{drop_client-Keeps, handle_client-Keeps}
use psw_afdx.Manager.Kept.{accept_client-IsOk}
use psw_afdx.Daemon.{Machine}
use psw_afdx.Daemon.Link.{linked}
use psw_afdx.Daemon.Threads.{ManagerStep, accepts, visits, drops, System, Reach}
use psw_afdx.Daemon.Threads.Safety.{Reach-IsSafe}

-- What holds at each descriptor of a loop over the set, if the visits keep it.
module _ {S : Type 0} (scheduler : Scheduler S) (am_sockfd : ℕ) (intdata : IntData)
    (P : ℕ → Manager S → Type 0) (fds : ℕ → Bool) (visit : Manager S → ℕ → Option (Manager S))
    (skip : (fd : ℕ) (m : Manager S) → P fd m → P (fd + 1) m)
    (step : (fd : ℕ) (m m' : Manager S)
      → P fd m
      → fds fd ≡ true
      → fd ≢ am_sockfd
      → visit m fd ≡ some m'
      → P (fd + 1) m') where
  scan-kept :
      (left fd : ℕ) (c c' : ℤ) (m m' : Manager S)
      → P fd m
      → scan scheduler am_sockfd intdata fds visit left fd c m ≡ some (c', m')
      → (k : ℕ) × P k m'
  scan-kept zero fd c c' m m' p e = let same : m ≡ m' = cc in (fd, subst (λ x. P fd x) same p)
  scan-kept (suc left) fd c c' m m' p e = elim (Bool-cases (is_positive c)) [
    | inr done ↦
        let same : m ≡ m' = (let e' = rw (scan, done) at e in cc) in
        (fd, subst (λ x. P fd x) same p)
    | inl more ↦ elim (Bool-cases (fds fd && not (fd == am_sockfd))) [
      | inr other ↦ scan-kept left (fd + 1) c c' m m' (skip fd m p) (rw (scan, more, other) at e)
      | inl ready ↦
          let e' = rw (scan, more, ready) at e in
          let (m1, is1, rest) = bind-eq_some (visit m fd) _ (c', m') e' in
          scan-kept left (fd + 1) (pred c) c' m1 m'
            (step fd m m1 p (ground arith) (ground arith) is1) rest
    ]
  ]

module _ (malloc : Sched → Ptr) (junk : Node) (clock : Sched → Timespec) (action : ℕ)
    (fresh : (s : Sched) → malloc s ≢ null → s.memory (malloc s) ≡ none) (am_sockfd : ℕ)
    (d : IntData) where
  abbrev scheduler : Scheduler Machine
  scheduler = linked malloc junk clock action fresh

  -- Any number of steps of `application_manager`.
  pub data ManagerRun (m : Manager Machine) : Manager Machine → Type 0 where
    done : ManagerRun m m
    more :
        {m1 m2 : Manager Machine}
        → ManagerRun m m1
        → ManagerStep malloc junk clock action fresh am_sockfd d m1 m2
        → ManagerRun m m2

  -- At a descriptor: the run from the start of the round, and those of the set from here on are
  -- managed.
  abbrev At : Manager Machine → (ℕ → Bool) → ℕ → Manager Machine → Type 0
  At m fds fd x =
      ManagerRun m x
      × IsOk scheduler am_sockfd d x
      × ((k : ℕ) → fd ≤ k → fds k ≡ true → x.managed_fds k ≡ true)

  handle_scan :
      (m m1 m' : Manager Machine) (e : Round) (left : ℕ) (c c' : ℤ)
      → At m e.rfds 0 m1
      → scan scheduler am_sockfd d e.rfds
          (λ x fd. handle_client scheduler am_sockfd d x fd (e.answers fd))
          left
          0
          c
          m1
        ≡ some (c', m')
      → ManagerRun m m' × IsOk scheduler am_sockfd d m'
  handle_scan m m1 m' e left c c' at is =
      let (k, (run, ok, _)) =
        scan-kept scheduler am_sockfd d (At m e.rfds) e.rfds
          (λ x fd. handle_client scheduler am_sockfd d x fd (e.answers fd))
          (λ fd x (run, ok, on). (run, ok, λ k le. on k (omega (arith, le))))
          (λ fd x y (run, ok, on) ready other is.
            let kept =
              handle_client-Keeps scheduler am_sockfd d x y fd (e.answers fd) ok
                (on fd (omega arith) ready) other is in
            (
              more run (visits fd (e.answers fd) y (on fd (omega arith) ready) other is),
              kept.0,
              λ k le at. kept.1 k (omega (arith, le)) ∙ on k (omega (arith, le)) at,
            ))
          left 0 c c' m1 m' at is in
      (run, ok)

  drop_scan :
      (m m1 m' : Manager Machine) (xfds : ℕ → Bool) (left : ℕ) (c c' : ℤ)
      → ManagerRun m m1
      → IsOk scheduler am_sockfd d m1
      → scan scheduler am_sockfd d xfds (drop_client scheduler am_sockfd d) left 0 c m1
        ≡ some (c', m')
      → ManagerRun m m'
  drop_scan m m1 m' xfds left c c' run ok is =
      let (k, (run', _)) =
        scan-kept scheduler am_sockfd d (λ fd x. ManagerRun m x × IsOk scheduler am_sockfd d x) xfds
          (drop_client scheduler am_sockfd d) (λ fd x p. p)
          (λ fd x y (run, ok) ready other is. (
            more run (drops fd y other is),
            (drop_client-Keeps scheduler am_sockfd d x y fd ok other is).0,
          ))
          left 0 c c' m1 m' (run, ok) is in
      run'

  application_manager-ManagerRun :
      (m m' : Manager Machine) (e : Round)
      → IsOk scheduler am_sockfd d m
      → ((k : ℕ) → e.rfds k ≡ true → m.managed_fds k ≡ true)
      → application_manager scheduler am_sockfd d m e ≡ some m'
      → ManagerRun m m'
  unfolding application_manager
  application_manager-ManagerRun m m' e ok reported is =
      let ((c1, m1), is1, rest1) = bind-eq_some (accept_client scheduler am_sockfd d m e) _ m' is in
      let (ok1, still) = accept_client-IsOk scheduler am_sockfd d m m1 e c1 ok is1 in
      elim (Bool-cases (e.xfds am_sockfd)) [
        | inl broken ↦ absurd (let e' = rw broken at rest1 in cc)
        | inr sound ↦
            let visit : Manager Machine → ℕ → Option (Manager Machine) =
              λ x fd. handle_client scheduler am_sockfd d x fd (e.answers fd) in
            let ((c2, m2), is2, rest2) =
              bind-eq_some (scan scheduler am_sockfd d e.rfds visit m1.nfds 0 c1 m1) _ m'
                (rw sound at rest1) in
            let (run2, ok2) =
              handle_scan m m1 m2 e m1.nfds c1 c2
                (more done (accepts e c1 m1 is1), ok1, λ k le at. still k (reported k at)) is2 in
            let ((c3, m3), is3, rest3) =
              bind-eq_some
                (scan scheduler am_sockfd d e.xfds (drop_client scheduler am_sockfd d) m2.nfds 0 c2
                  m2)
                _ m' rest2 in
            let same : m3 ≡ m' = cc in
            subst (λ x. ManagerRun m x) same (drop_scan m m2 m3 e.xfds m2.nfds c2 c3 run2 ok2 is3)
      ]

module _ (malloc : Sched → Ptr) (junk : Node) (clock : Sched → Timespec) (action : ℕ)
    (fresh : (s : Sched) → malloc s ≢ null → s.memory (malloc s) ≡ none) (am_sockfd : ℕ) where
  -- After any steps of the threads, in which `malloc` gives only unused memory and no task was taken away
  -- while it was called, a round of `application_manager` that ends, if no other thread comes in
  -- between, is a sequence of the steps in which the threads interleave: an `accept`, visits to
  -- descriptors that `select` watched, and removals. `select` reports only descriptors of the set that
  -- it was given.
  pub Reach-application_manager :
      (memory : Memory) (v : System) (e : Round) (m' : Manager Machine)
      → Reach malloc junk clock action fresh am_sockfd memory v
      → ((k : ℕ) → e.rfds k ≡ true → v.manager.managed_fds k ≡ true)
      → application_manager (linked malloc junk clock action fresh) am_sockfd v.intdata v.manager e
        ≡ some m'
      → ManagerRun malloc junk clock action fresh am_sockfd v.intdata v.manager m'
  Reach-application_manager memory v e m' r reported is =
      let ok = Reach-IsSafe malloc junk clock action fresh am_sockfd memory r in
      let here =
        IsOk-data (linked malloc junk clock action fresh) am_sockfd initial_intdata v.intdata
          v.manager ok.sound in
      application_manager-ManagerRun malloc junk clock action fresh am_sockfd v.intdata v.manager m'
        e here reported is
