-- ===== src/Daemon/Calls.antt =====
-- A round of the thread of src/scheduler.c over the registrations of src/registration.c: the nodes
-- that it calls `serve_scheduler_query` on.
use psw_afdx.Base.{
  ℕ, ◌<◌, ◌≡◌, ◌≢◌, sym, ◌∙◌, none, some, List, [], ◌∷◌, arith, Bool-cases, inl, inr, All,
}
use psw_afdx.Protocol.{AppQuery}
use psw_afdx.Sched.Time.{Timespec, tm_ge, IsNormal}
use psw_afdx.Sched.Heap.{Ptr, null, Node, Memory, Sched}
use psw_afdx.Sched.{run_due}
use psw_afdx.Sched.Links.{Items, Chain}
use psw_afdx.Sched.Due.{IsTimed, due, due_calls, run_due_lem}
use psw_afdx.Registration.{Registry, serve_scheduler_query}
use psw_afdx.Registration.Kept.{IsConsistent, serve_scheduler_query-live}
use psw_afdx.Daemon.{Machine}
use psw_afdx.Sched.Args.{arg_of, arg_of-has}
use psw_afdx.Daemon.Link.{Queued, task_arg_lem, linked}

-- What holds of every argument that a handler has holds of every entry.
args-All :
    (P : ℕ → Type 0) (memory : Memory) (before after : Ptr) (xs : Items)
    → Chain memory before after xs
    → ((h : Ptr) (a : ℕ) → arg_of xs h ≡ some a → P a)
    → All (λ x. P x.1.arg) xs
args-All P memory before after [] c all = tt
args-All P memory before after ((p, e) ∷ xs) c all = (
  all p e.arg (ground arith),
  args-All P memory p after xs c.3 (λ h a at.
      all h a
        (let other : h ≢ p = λ same. cc (rw same at (arg_of-has xs h a at), c.1) in ground arith)),
)

-- The same of every call of a due task.
due_calls-All :
    (P : ℕ → Type 0) (now : Timespec) (xs : Items)
    → All (λ x. P x.1.arg) xs
    → All (λ call. P call.1) (due_calls now xs)
unfolding due_calls
due_calls-All P now [] all = tt
due_calls-All P now ((p, e) ∷ xs) all = elim (Bool-cases (tm_ge now e.next_time)) [
  | inl is_due ↦ rw is_due (all.0, due_calls-All P now xs all.1)
  | inr early ↦ rw early (due_calls-All P now xs all.1)
]

module _ (malloc : Sched → Ptr) (junk : Node) (clock : Sched → Timespec) (action : ℕ)
    (fresh : (s : Sched) → malloc s ≢ null → s.memory (malloc s) ≡ none) where
  -- In a consistent registry over src/scheduler.c, with normal times and positive intervals, and a
  -- `malloc` that gives only unused memory, the inner loop of `scheduler_run` ends if it has more
  -- rounds than there are due tasks: each call is on the node of a registered query, and the
  -- registry is consistent afterwards.
  pub run_due-live :
      (r : Registry Machine) (now : Timespec) (rounds : ℕ)
      → (v : IsConsistent (linked malloc junk clock action fresh) r) → IsNormal now
      → All IsTimed v.0.valid.items
      → due now v.0.valid.items < rounds
      → (calls : List (ℕ × ℕ)) × (t : Sched) × (run_due rounds r.sched.bound now r.sched.sched
          ≡ some (some calls, t))
        × All
            (λ call.
              (fd : ℕ) × (query : AppQuery) × (serve_scheduler_query r.apps call.1
                ≡ some (fd, query)))
            calls
        × IsConsistent
            (linked malloc junk clock action fresh)
            (record r { sched = record r.sched { sched = t } })
  run_due-live r now rounds v hn timed few =
      let linked' = linked malloc junk clock action fresh in
      let q = v.0.valid in
      let (t, et, done) =
        run_due_lem rounds r.sched.bound now r.sched.sched q.items hn q.queue q.sorted timed
          q.bounded few in
      let live : (h : Ptr) (a : ℕ)
          → arg_of q.items h ≡ some a
          → (fd : ℕ) × (query : AppQuery) × (serve_scheduler_query r.apps a ≡ some (fd, query)) =
        λ h a at. serve_scheduler_query-live linked' r h a v (task_arg_lem r.sched q h ∙ at) in
      let all = args-All _ r.sched.sched.memory null null q.items q.queue.chain live in
      let m' : Machine = record r.sched { sched = t } in
      let q' : Queued m' = record {
        items = done.ys;
        queue = done.queue;
        sorted = done.sorted;
        bounded = omega (arith, done.same_length, q.bounded);
      } in
      (
        due_calls now q.items,
        t,
        et,
        due_calls-All _ now q.items all,
        (
          record {
            valid = q';
            tasks = λ k.
                task_arg_lem m' q' k
                ∙ done.same_args k
                ∙ sym (task_arg_lem r.sched q k)
                ∙ v.0.tasks k;
            distinct = v.0.distinct;
          },
          v.1,
        ),
      )
