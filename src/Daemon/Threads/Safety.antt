-- ===== src/Daemon/Threads/Safety.antt =====
-- What every step of any thread of the daemon keeps, and what a call of the thread of src/scheduler.c
-- finds.
use psw_afdx.Base.{ℕ, ◌≡◌, ◌≢◌, refl, sym, ◌∙◌, subst, none}
use psw_afdx.IntData.{initial_intdata}
use psw_afdx.Sched.Time.{Timespec}
use psw_afdx.Sched.Heap.{Ptr, null, Node, Memory, Sched}
use psw_afdx.Registration.{Scheduler}
use psw_afdx.Registration.Nodes.{nodes}
use psw_afdx.Registration.Addresses.{unregister_application-Unique}
use psw_afdx.Registration.Unique.{Unique}
use psw_afdx.Manager.{Manager}
use psw_afdx.Manager.Clients.{IsOk, IsOk-data}
use psw_afdx.Manager.Visits.{drop_client-Keeps, handle_client-Keeps}
use psw_afdx.Manager.Kept.{accept_client-IsOk}
use psw_afdx.Manager.Edits.{
  handle_client-Edit, drop_client-registry, accept_client-registry, Edit-Unique,
}
use psw_afdx.Daemon.{Machine}
use psw_afdx.Daemon.Link.{linked}
use psw_afdx.Daemon.Steps.{IsSound, start-IsSound}
use psw_afdx.Daemon.Threads.{
  Pc, entering, sleeping, calling, serving, returning, ended, overread, bad_read, System, Quiet,
  ManagerStep, accepts, visits, drops, GetsFresh, Step, runs, manages, elaborates, Reach, start,
  next,
}
use psw_afdx.Daemon.Threads.Sections.{IsCall}
use psw_afdx.Daemon.Threads.Safe.{IsSafe, thread_step-IsSafe}

module _ (malloc : Sched → Ptr) (junk : Node) (clock : Sched → Timespec) (action : ℕ)
    (fresh : (s : Sched) → malloc s ≢ null → s.memory (malloc s) ≡ none) (am_sockfd : ℕ) where
  ManagerStep-IsSafe :
      (v : System) (m' : Manager Machine)
      → IsSafe malloc junk clock action fresh am_sockfd v
      → (s : ManagerStep malloc junk clock action fresh am_sockfd v.intdata v.manager m')
      → GetsFresh malloc junk clock action fresh am_sockfd s
      → Quiet v.pc v.manager m'
      → IsSafe malloc junk clock action fresh am_sockfd (record v { manager = m' })
  ManagerStep-IsSafe v m' ok step memory quiet =
      let (sound, unique) = go step memory in
      record { sound = sound; unique = unique; call = kept v.pc ok.call quiet }
    where
      scheduler : Scheduler Machine
      scheduler = linked malloc junk clock action fresh

      kept :
          (pc : Pc)
          → IsCall v.manager.registry.sched pc
          → Quiet pc v.manager m'
          → IsCall m'.registry.sched pc
      kept (calling now h) (arg, at) quiet = (arg, quiet h refl ∙ at)
      kept (serving now h arg) at quiet = quiet h refl ∙ at
      kept entering at quiet = tt
      kept (sleeping rest) at quiet = tt
      kept (returning now) at quiet = tt
      kept ended at quiet = tt
      kept overread at quiet = tt
      kept bad_read at quiet = at

      here : IsOk scheduler am_sockfd v.intdata v.manager
      here = IsOk-data scheduler am_sockfd initial_intdata v.intdata v.manager ok.sound

      back :
          IsOk scheduler am_sockfd v.intdata m'
          → IsSound malloc junk clock action fresh am_sockfd m'
      back ok' = IsOk-data scheduler am_sockfd v.intdata initial_intdata m' ok'

      go :
          (s : ManagerStep malloc junk clock action fresh am_sockfd v.intdata v.manager m')
          → GetsFresh malloc junk clock action fresh am_sockfd s
          → IsSound malloc junk clock action fresh am_sockfd m' × Unique (nodes m'.registry.apps)
      go (accepts e c _ is) new = (
        back (accept_client-IsOk scheduler am_sockfd v.intdata v.manager m' e c here is).0,
        subst (λ x. Unique (nodes x.apps))
            (sym (accept_client-registry scheduler am_sockfd v.intdata v.manager m' e c is))
            ok.unique,
      )
      go (visits fd a _ on other is) new = (
        back
            (handle_client-Keeps scheduler am_sockfd v.intdata v.manager m' fd a here on other
              is).0,
        Edit-Unique scheduler am_sockfd v.intdata v.manager.registry m'.registry fd a.node new
            ok.unique (handle_client-Edit scheduler am_sockfd v.intdata v.manager m' fd a is),
      )
      go (drops fd _ other is) new = (
        back (drop_client-Keeps scheduler am_sockfd v.intdata v.manager m' fd here other is).0,
        unregister_application-Unique scheduler v.manager.registry m'.registry fd ok.unique
            (drop_client-registry scheduler am_sockfd v.intdata v.manager m' fd is),
      )

  Step-IsSafe :
      (v w : System)
      → IsSafe malloc junk clock action fresh am_sockfd v
      → Step malloc junk clock action fresh am_sockfd v w
      → IsSafe malloc junk clock action fresh am_sockfd w
  Step-IsSafe v w ok (runs now stack data_sent) =
      thread_step-IsSafe malloc junk clock action fresh am_sockfd v now stack data_sent ok
  Step-IsSafe v w ok (manages m' step memory quiet) = ManagerStep-IsSafe v m' ok step memory quiet
  Step-IsSafe v w ok (elaborates p time d is) = record {
    sound = ok.sound;
    unique = ok.unique;
    call = ok.call;
  }

  pub Reach-IsSafe :
      (memory : Memory) {v : System}
      → Reach malloc junk clock action fresh am_sockfd memory v
      → IsSafe malloc junk clock action fresh am_sockfd v
  Reach-IsSafe memory start = record {
    sound = start-IsSound malloc junk clock action fresh am_sockfd memory;
    unique = tt;
    call = tt;
  }
  Reach-IsSafe memory (next {v} {w} r running s) = Step-IsSafe v w (Reach-IsSafe memory r) s
