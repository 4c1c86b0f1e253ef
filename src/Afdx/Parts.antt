-- ===== src/Afdx/Parts.antt =====
-- A run of the daemon, seen by its two halves.
use psw_afdx.Base.{
  ℕ, ◌≡◌, ◌≢◌, refl, sym, ap, subst, true, Option-cases, none, some, List, ℤ, inl, inr, ◌⊎◌,
}
use psw_afdx.Protocol.{AppReply}
use psw_afdx.Serve.{Served, undefined, exited, sent, serve_query}
use psw_afdx.IntData.{IntData}
use psw_afdx.Elaboration.{elaborate}
use psw_afdx.Queue.{NqNode}
use psw_afdx.Pipeline
use psw_afdx.Pipeline.{
  World, ElabStep, sleep, take, take_null, store, overrun, dispose, NetStep, reserve, full, receive,
  signal, network, elaboration, is_defined,
}
use psw_afdx.Sched.Time.{Timespec}
use psw_afdx.Sched.Heap.{Ptr, null, Node, Memory, Sched, Cmd}
use psw_afdx.Daemon.Threads
use psw_afdx.Daemon.Threads.{
  Pc, entering, sleeping, calling, serving, returning, ended, overread, bad_read, is_running,
  System, runs, elaborates, in_section, after_serve, thread_step, enter_round, resume_round,
}
use psw_afdx.Sched.{read_call}
use psw_afdx.Registration.{serve_scheduler_query}
use psw_afdx.Afdx.{
  Afdx, served, schedule_step, Step, receives, stores, schedules, manages, Reach, start, next,
}

in_section-intdata :
    (section : ℕ → Cmd Pc) (v : System) → (in_section section v).intdata ≡ v.intdata
in_section-intdata section v =
    let m = v.manager.registry.sched in
    elim (Option-cases (section m.bound m.sched)) [
      | inl fails ↦ rw (in_section, fails) refl
      | inr (result, is) ↦ rw (in_section, is) refl
    ]

after_serve-intdata :
    (v : System) (now : Timespec) (s : Served) → (after_serve v now s).intdata ≡ v.intdata
after_serve-intdata v now undefined = refl
after_serve-intdata v now (exited to r) = refl
after_serve-intdata v now (sent to r) = refl

-- The thread of the scheduler only reads the data.
thread_step-intdata :
    (now : Timespec) (stack : AppReply) (data_sent : ℤ) (v : System)
    → (thread_step now stack data_sent v).intdata ≡ v.intdata
unfolding thread_step
thread_step-intdata later stack data_sent v = go v.pc
  where
    go : (pc : Pc) → (thread_step later stack data_sent (record v { pc = pc })).intdata ≡ v.intdata
    go entering = in_section-intdata (λ fuel. enter_round fuel later) (record v { pc = entering })
    go (sleeping rest) =
        in_section-intdata (λ fuel. enter_round fuel later) (record v { pc = sleeping rest })
    go (calling now h) = elim (Option-cases (read_call h v.manager.registry.sched.sched)) [
      | inl fails ↦ rw (thread_step, fails) refl
      | inr (call, is) ↦ rw (thread_step, is) refl
    ]
    go (serving now h arg) =
        elim (Option-cases (serve_scheduler_query v.manager.registry.apps arg)) [
          | inl fails ↦ rw (thread_step, fails) refl
          | inr (query, is) ↦
              rw (thread_step, is)
                (after_serve-intdata (record v { pc = serving now h arg }) now
                  (serve_query v.intdata stack data_sent query.0 query.1))
        ]
    go (returning now) =
        in_section-intdata (λ fuel. resume_round fuel now later) (record v { pc = returning now })
    go ended = refl
    go overread = refl
    go bad_read = refl

pub served-schedule_step :
    (now : Timespec) (stack : AppReply) (data_sent : ℤ) (a : Afdx)
    → served (schedule_step now stack data_sent a) ≡ thread_step now stack data_sent (served a)
served-schedule_step now stack data_sent a =
    let v = thread_step now stack data_sent (served a) in
    ap {A = IntData} {B = System} (λ d. record { manager = v.manager; intdata = d; pc = v.pc })
      (sym (thread_step-intdata now stack data_sent (served a)))

NetStep-intdata : (w v : World) → NetStep w v → v.intdata ≡ w.intdata
NetStep-intdata w v (reserve i e got) = refl
NetStep-intdata w v (full e got) = refl
NetStep-intdata w v (receive i old datagram source time bytes e at) = refl
NetStep-intdata w v (signal e) = refl

-- A step of the elaboration thread stores a packet, or leaves the data alone.
ElabStep-intdata :
    (w v : World)
    → ElabStep w v
    → (v.intdata ≡ w.intdata)
      ⊎ ((n : NqNode) × (elaborate w.intdata n.packet n.last_update ≡ some v.intdata))
ElabStep-intdata w v (sleep e) = inl refl
ElabStep-intdata w v (take i q e got) = inl refl
ElabStep-intdata w v (take_null q e got) = inl refl
ElabStep-intdata w v (store i n d e at ok) = inr (n, ok)
ElabStep-intdata w v (overrun i n e at fails) = inl refl
ElabStep-intdata w v (dispose e) = inl refl

module _ (malloc : Sched → Ptr) (junk : Node) (clock : Sched → Timespec) (action : ℕ)
    (fresh : (s : Sched) → malloc s ≢ null → s.memory (malloc s) ≡ none) (am_sockfd : ℕ) where
  other_data :
      (memory : Memory) (a : Afdx) (d : IntData)
      → d ≡ a.world.intdata
      → Threads.Reach malloc junk clock action fresh am_sockfd memory (served a)
      → Threads.Reach malloc junk clock action fresh am_sockfd memory
          (record (served a) { intdata = d })
  other_data memory a d same v =
      subst
        (λ x.
          Threads.Reach malloc junk clock action fresh am_sockfd memory
            (record (served a) { intdata = x }))
        (sym same) v

  Step-parts :
      (nodes : List NqNode) (memory : Memory) (a b : Afdx)
      → is_running a.pc ≡ true
      → is_defined a.world.elab ≡ true
      → Step malloc junk clock action fresh am_sockfd a b
      → Pipeline.Reach nodes a.world
      → Threads.Reach malloc junk clock action fresh am_sockfd memory (served a)
      → Pipeline.Reach nodes b.world
        × Threads.Reach malloc junk clock action fresh am_sockfd memory (served b)
  Step-parts nodes memory a b running defined (receives s) w v = (
    Pipeline.next w (network defined s),
    other_data memory a b.world.intdata (NetStep-intdata a.world b.world s) v,
  )
  Step-parts nodes memory a b running defined (stores s) w v = (
    Pipeline.next w (elaboration s),
    elim (ElabStep-intdata a.world b.world s) [
      | inl same ↦ other_data memory a b.world.intdata same v
      | inr (n, ok) ↦ Threads.next v running (elaborates n.packet n.last_update b.world.intdata ok)
    ],
  )
  Step-parts nodes memory a b running defined (schedules now stack data_sent) w v = (
    w,
    subst
        (λ d.
          let x = thread_step now stack data_sent (served a) in
          Threads.Reach malloc junk clock action fresh am_sockfd memory
            (record { manager = x.manager; intdata = d; pc = x.pc }))
        (thread_step-intdata now stack data_sent (served a))
        (Threads.next v running (runs now stack data_sent)),
  )
  Step-parts nodes memory a b running defined (manages m' s given quiet) w v =
      (w, Threads.next v running (Threads.manages m' s given quiet))

  -- Whatever the order of the steps of the four threads from the start of the daemon, in which `malloc`
  -- gives only unused memory and no task is taken away while it is called, the threads of the network
  -- and of the elaboration have made steps of their own, as if there were no others, and so have the
  -- two that serve the applications, for which the elaboration thread is one that stores a packet now
  -- and then.
  pub Reach-parts :
      (nodes : List NqNode) (memory : Memory) (a : Afdx)
      → Reach malloc junk clock action fresh am_sockfd nodes memory a
      → Pipeline.Reach nodes a.world
        × Threads.Reach malloc junk clock action fresh am_sockfd memory (served a)
  Reach-parts nodes memory _ start = (Pipeline.start, Threads.start)
  Reach-parts nodes memory b (next {a} r running defined s) =
      let (w, v) = Reach-parts nodes memory a r in Step-parts nodes memory a b running defined s w v
