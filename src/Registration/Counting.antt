-- ===== src/Registration/Counting.antt =====
-- A small scheduler for the registration of src/registration.c and the loop of
-- src/application_manager.c, and a client with a query.
use psw_afdx.Base.{
  ℕ, ◌+◌, ◌∙◌, ap, sym, subst, ◌≤◌, ◌≡◌, refl, ◌==◌, if◌then◌else◌, Option, none, some, [], ◌∷◌,
  arith,
}
use psw_afdx.Protocol.{AppQuery}
use psw_afdx.Registration.{Scheduler, Registry}
use psw_afdx.Registration.Kept.{IsConsistent}

-- Handlers are counted up.
pub record Counter : Type 0 where
  pub last : ℕ
  pub tasks : ℕ → Option ℕ

abbrev pub add_task : Counter → ℕ → Counter
add_task s node = record {
  last = s.last + 1;
  tasks = λ k. if k == s.last then some node else s.tasks k;
}

abbrev pub drop_task : Counter → ℕ → Counter
drop_task s h = record s { tasks = λ k. if k == h then none else s.tasks k }

abbrev pub Counts : Counter → Type 0
Counts s = (k : ℕ) → s.last ≤ k → s.tasks k ≡ none

pub add_task_lem :
    (s s' : Counter) (node interval h : ℕ)
    → Counts s
    → ◌≡◌ {A = Option (ℕ × Counter)} (some (s.last, add_task s node)) (some (h, s'))
    → Counts s'
      × (s.tasks h ≡ none)
      × ((k : ℕ) → s'.tasks k ≡ (if k == h then some node else s.tasks k))
add_task_lem s s' node interval h v e =
    let at : s.last ≡ h = cc in
    let is : add_task s node ≡ s' = cc in
    let counts : Counts (add_task s node) = λ k le. ground (arith, v k (omega arith)) in
    (
      subst (λ x. Counts x) is counts,
      v h (omega arith),
      λ k. ap (λ x. x.tasks k) (sym is) ∙ rw at refl,
    )

pub drop_task_lem :
    (s : Counter) (node h : ℕ)
    → Counts s
    → s.tasks h ≡ some node
    → (s' : Counter) × (◌≡◌ {A = Option Counter} (some (drop_task s h)) (some s'))
      × Counts s'
      × ((k : ℕ) → s'.tasks k ≡ (if k == h then none else s.tasks k))
drop_task_lem s node h v e = (drop_task s h, refl, λ k le. ground (arith, v k le), λ k. refl)

abbrev pub counting : Scheduler Counter
counting = record {
  schedule = λ s node interval. some (s.last, add_task s node);
  unschedule = λ s h. some (drop_task s h);
  IsValid = Counts;
  task = λ s k. s.tasks k;
  schedule-task = add_task_lem;
  unschedule-task = drop_task_lem;
}

abbrev pub altitude : AppQuery
altitude = record { req_id = 5; engine_id = 0; data_id = 7 }

-- One client with the descriptor 4, which has registered one query.
abbrev pub one_query : Registry Counter
one_query = record {
  apps =
      record { fd = 4; queries = record { addr = 1000; query = altitude; handler = 0 } ∷ [] } ∷ [];
  sched = record { last = 1; tasks = λ k. if k == 0 then some 1000 else none };
}

pub one_query-IsConsistent : IsConsistent counting one_query
one_query-IsConsistent =
    (record { valid = λ k le. ground arith; tasks = λ k. refl; distinct = (refl, tt) }, (refl, tt))
