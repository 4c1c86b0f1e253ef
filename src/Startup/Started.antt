-- ===== src/Startup/Started.antt =====
-- What `main` of src/afdx.c has done when it comes to its endless loop, or exits.
use mathlib.Core.List.{append-nil as append_nil, append_assoc}
use mathlib.Core.Option
use psw_afdx.Base.{
  ℕ, ◌+◌, ◌*◌, ◌/◌, ◌<◌, ◌≡◌, refl, sym, ◌∙◌, arith, ◌↔◌, Bool, true, false, Bool-cases, inl, inr,
  ◌⊎◌, Option, none, some, List, [], ◌∷◌, ◌++◌, map, All, ℤ, pos, negsuc, is_negative, get_elem?,
  zero, suc,
}
use psw_afdx.Protocol.{DataId, engine_throttle}
use psw_afdx.IntData.{IntData, IntdataEngine}
use psw_afdx.Serve.Values.{value_of}
use psw_afdx.Startup.{
  Call, socket, set_broadcast, bind_net, bind_path, listen, pthread_create, Thread, net_sockfd,
  am_sockfd, network_thread, elaboration_thread, application_manager, scheduler_run, address_of,
  to_port, set_engine_invalid, set_invalid, main,
}
use psw_afdx.Startup.Plan.{plan, fatal, follow, main-follow}

abbrev pub Occurs : Call → List Call → Type 0
Occurs c [] = ⊥
Occurs c (x ∷ xs) = (c ≡ x) ⊎ Occurs c xs

-- The calls that must not fail.
abbrev pub needed : (address port : ℕ) → List Call
needed address port =
    socket net_sockfd
    ∷ set_broadcast
    ∷ bind_net address port
    ∷ socket am_sockfd
    ∷ bind_path
    ∷ listen 5
    ∷ []

abbrev pub Succeeds : (Call → ℤ) → Call → Type 0
Succeeds answer c = is_negative (answer c) ≡ false

-- The last call has failed.
abbrev pub HasFailed : (Call → ℤ) → List Call → Type 0
HasFailed answer calls =
    (before : List Call) × (c : Call) × (calls ≡ before ++ c ∷ []) × (is_negative (answer c) ≡ true)

-- A number and its lower 16 bits.
abbrev pub IsLow16 : ℤ → ℕ → Type 0
IsLow16 (pos n) p = (p < 65536) × (k : ℕ) × (n ≡ p + k * 65536)
IsLow16 (negsuc n) p = (p < 65536) × (k : ℕ) × (n + 1 + p ≡ k * 65536)

to_port-IsLow16 : (z : ℤ) → IsLow16 z (to_port z)
to_port-IsLow16 (pos n) = (omega arith, n / 65536, omega arith)
to_port-IsLow16 (negsuc n) = (omega arith, n / 65536 + 1, omega arith)

follow-eq_some :
    (answer : Call → ℤ) (calls : List Call) (ss : List (Call × Bool))
    → ((follow answer calls ss).0 ≡ some tt) ↔ All (λ s. fatal answer s ≡ false) ss
follow-eq_some answer calls [] = (λ e. tt, λ all. refl)
follow-eq_some answer calls (s ∷ ss) = elim (Bool-cases (fatal answer s)) [
  | inl fails ↦ (
    λ e. absurd (let e' = rw (follow, fails) at e in cc),
    λ all. absurd (let clash : true ≡ false = sym fails ∙ all.0 in cc),
  )
  | inr goes ↦
      (let (to, from) = follow-eq_some answer (calls ++ s.0 ∷ []) ss in
        (
          λ (e : (follow answer calls (s ∷ ss)).0 ≡ some tt). (goes, to (rw (follow, goes) at e)),
          λ all. rw (follow, goes) (from all.1),
        ))
]

follow-calls :
    (answer : Call → ℤ) (calls : List Call) (ss : List (Call × Bool))
    → (follow answer calls ss).0 ≡ some tt
    → (follow answer calls ss).1 ≡ calls ++ map (λ s. s.0) ss
follow-calls answer calls [] e = sym (append_nil calls)
follow-calls answer calls (s ∷ ss) e = elim (Bool-cases (fatal answer s)) [
  | inl fails ↦ absurd (let e' = rw (follow, fails) at e in cc)
  | inr goes ↦
      rw (follow, goes)
        (follow-calls answer (calls ++ s.0 ∷ []) ss (rw (follow, goes) at e)
          ∙ append_assoc calls (s.0 ∷ []) (map (λ s. s.0) ss))
]

follow-HasFailed :
    (answer : Call → ℤ) (calls : List Call) (ss : List (Call × Bool))
    → (follow answer calls ss).0 ≡ none
    → HasFailed answer (follow answer calls ss).1
follow-HasFailed answer calls [] e = absurd cc
follow-HasFailed answer calls (s ∷ ss) e = elim (Bool-cases (fatal answer s)) [
  | inl fails ↦
      let negative : is_negative (answer s.0) ≡ true = ground arith in
      rw (follow, fails) (calls, s.0, refl, negative)
  | inr goes ↦
      rw (follow, goes) (follow-HasFailed answer (calls ++ s.0 ∷ []) ss (rw (follow, goes) at e))
]

get_elem?-invalid :
    (es : List IntdataEngine) (n : ℕ)
    → get_elem? (map set_engine_invalid es) n ≡ Option.map set_engine_invalid (get_elem? es n)
get_elem?-invalid [] n = refl
get_elem?-invalid (e ∷ es) zero = refl
get_elem?-invalid (e ∷ es) (suc n) = get_elem?-invalid es n

set_invalid-value :
    (d : IntData) (n : ℕ) (i : DataId) → value_of (set_invalid d) n i ≡ value_of d n i
set_invalid-value d n engine_throttle = ground (arith, get_elem?-invalid d.engines n)
set_invalid-value d n _ = ground (arith, get_elem?-invalid d.engines n)

set_invalid-All :
    (es : List IntdataEngine) → All (λ e. e.last_update ≡ 0) (map set_engine_invalid es)
set_invalid-All [] = tt
set_invalid-All (e ∷ es) = (refl, set_invalid-All es)

address_of_lem :
    (given : Option ℕ)
    → (given ≡ some (address_of given)) ⊎ ((given ≡ none) × (address_of given ≡ 0))
address_of_lem none = inr (refl, refl)
address_of_lem (some address) = inl refl

plan-fatal :
    (answer : Call → ℤ) (address p : ℕ)
    → All (λ s. fatal answer s ≡ false) (plan address p) ↔ All (Succeeds answer) (needed address p)
plan-fatal answer address p = (
  λ all.
      let (
        _,
        (socket1, (broadcast, (bind1, (_, (_, (_, (socket2, (_, (bind2, (listening, _)))))))))),
      ) =
        all in
      (socket1, (broadcast, (bind1, (socket2, (bind2, (listening, tt)))))),
  λ all.
      let (socket1, (broadcast, (bind1, (socket2, (bind2, (listening, _)))))) = all in
      (
        refl,
        (
          socket1,
          (
            broadcast,
            (
              bind1,
              (refl, (refl, (refl, (socket2, (refl, (bind2, (listening, (refl, (refl, tt))))))))),
            ),
          ),
        ),
      ),
)

plan-Occurs :
    (address p : ℕ) → All (λ c. Occurs c (map (λ s. s.0) (plan address p))) (needed address p)
plan-Occurs address p = (
  inr (inl refl),
  (
    inr (inr (inl refl)),
    (
      inr (inr (inr (inl refl))),
      (
        inr (inr (inr (inr (inr (inr (inr (inl refl))))))),
        (
          inr (inr (inr (inr (inr (inr (inr (inr (inr (inl refl))))))))),
          (inr (inr (inr (inr (inr (inr (inr (inr (inr (inr (inl refl)))))))))), tt),
        ),
      ),
    ),
  ),
)

plan-Thread :
    (address p : ℕ) (t : Thread) → Occurs (pthread_create t) (map (λ s. s.0) (plan address p))
plan-Thread address p network_thread = inr (inr (inr (inr (inl refl))))
plan-Thread address p elaboration_thread = inr (inr (inr (inr (inr (inl refl)))))
plan-Thread address p application_manager =
    inr (inr (inr (inr (inr (inr (inr (inr (inr (inr (inr (inl refl)))))))))))
plan-Thread address p scheduler_run =
    inr (inr (inr (inr (inr (inr (inr (inr (inr (inr (inr (inr (inl refl))))))))))))

-- With two arguments, `main` sets each `last_update` of the internal data to 0 and changes no value that a
-- client can ask for. It comes to its endless loop exactly if none of the calls `socket` and `setsockopt`, and `bind`
-- to the address that `inet_pton` gives (0 if it fails) and to the lower 16 bits of the number that
-- `atoi` gives, and `socket`, `bind` and `listen` for the applications, has a negative result; then it
-- has made all of them and started the four threads. If it exits, its last call has failed.
pub main-needed :
    (answer : Call → ℤ) (inet_pton : List ℕ → Option ℕ) (atoi : List ℕ → ℤ)
    (name ipaddr port : List ℕ) (rest : List (List ℕ)) (d : IntData)
    → (address p : ℕ) × (ended : Option (Unit {0})) × (calls : List Call) × (d' : IntData) × (main
          answer inet_pton atoi
          (name ∷ ipaddr ∷ port ∷ rest)
          d
        ≡ some ((ended, calls), d'))
      × ((inet_pton ipaddr ≡ some address) ⊎ ((inet_pton ipaddr ≡ none) × (address ≡ 0)))
      × IsLow16 (atoi port) p
      × ((ended ≡ some tt) ↔ All (Succeeds answer) (needed address p))
      × (ended ≡ some tt
          → All (λ c. Occurs c calls) (needed address p)
            × ((t : Thread) → Occurs (pthread_create t) calls))
      × (ended ≡ none → HasFailed answer calls)
      × All (λ e. e.last_update ≡ 0) d'.engines
      × (d'.attitude.last_update ≡ 0)
      × (d'.speeds.last_update ≡ 0)
      × ((n : ℕ) (i : DataId) → value_of d' n i ≡ value_of d n i)
main-needed answer inet_pton atoi name ipaddr port rest d =
    let address = address_of (inet_pton ipaddr) in
    let p = to_port (atoi port) in
    let out = follow answer [] (plan address p) in
    (
      address,
      p,
      out.0,
      out.1,
      set_invalid d,
      main-follow answer inet_pton atoi name ipaddr port rest d,
      address_of_lem (inet_pton ipaddr),
      to_port-IsLow16 (atoi port),
      (
        λ e. (plan-fatal answer address p).0 ((follow-eq_some answer [] (plan address p)).0 e),
        λ all. (follow-eq_some answer [] (plan address p)).1 ((plan-fatal answer address p).1 all),
      ),
      λ e.
          let made = follow-calls answer [] (plan address p) e in
          rw made (plan-Occurs address p, plan-Thread address p),
      follow-HasFailed answer [] (plan address p),
      set_invalid-All d.engines,
      refl,
      refl,
      set_invalid-value d,
    )
