-- ===== src/Registration/Apps.antt =====
-- The descriptors of the list of applications of src/registration.c: no two applications share one.
use psw_afdx.Base.{
  ℕ, ◌≡◌, ◌≢◌, refl, ◌∙◌, ◌==◌, if◌then◌else◌, true, false, Bool-cases, none, some, List, [], ◌∷◌,
  arith, inl, inr,
}
use psw_afdx.Registration.{QueryNode, App, has_app, add_query, unlink_query, unlink_app}

abbrev pub Apart : List App → Type 0
Apart [] = Unit
Apart (a ∷ apps) = (has_app apps a.fd ≡ false) × Apart apps

pub has_app-add_query :
    (apps : List App) (fd k : ℕ) (q : QueryNode) → has_app (add_query apps fd q) k ≡ has_app apps k
has_app-add_query [] fd k q = refl
has_app-add_query (a ∷ apps) fd k q = ground (arith, has_app-add_query apps fd k q)

pub add_query-Apart :
    (apps : List App) (fd : ℕ) (q : QueryNode) → Apart apps → Apart (add_query apps fd q)
add_query-Apart [] fd q h = tt
add_query-Apart (a ∷ apps) fd q h = elim (Bool-cases (a.fd == fd)) [
  | inl here ↦ rw here h
  | inr there ↦ rw there (has_app-add_query apps fd a.fd q ∙ h.0, add_query-Apart apps fd q h.1)
]

pub has_app-unlink_query :
    (apps : List App) (fd req_id k : ℕ) → has_app (unlink_query apps fd req_id).1 k ≡ has_app apps k
has_app-unlink_query [] fd req_id k = refl
has_app-unlink_query (a ∷ apps) fd req_id k = ground (arith, has_app-unlink_query apps fd req_id k)

pub unlink_query-Apart :
    (apps : List App) (fd req_id : ℕ) → Apart apps → Apart (unlink_query apps fd req_id).1
unlink_query-Apart [] fd req_id h = tt
unlink_query-Apart (a ∷ apps) fd req_id h = elim (Bool-cases (a.fd == fd)) [
  | inl here ↦ rw here h
  | inr there ↦
      rw there
        (has_app-unlink_query apps fd req_id a.fd ∙ h.0, unlink_query-Apart apps fd req_id h.1)
]

pub unlink_app-none :
    (apps : List App) (fd : ℕ) → (unlink_app apps fd).0 ≡ none → has_app apps fd ≡ false
unlink_app-none [] fd e = refl
unlink_app-none (a ∷ apps) fd e = elim (Bool-cases (a.fd == fd)) [
  | inl here ↦ absurd (let e' = rw here at e in cc)
  | inr there ↦ rw there (unlink_app-none apps fd (rw there at e))
]

has_app-unlink_app :
    (apps : List App) (fd k : ℕ) → has_app apps k ≡ false → has_app (unlink_app apps fd).1 k ≡ false
has_app-unlink_app [] fd k e = refl
has_app-unlink_app (a ∷ apps) fd k e = ground (arith, has_app-unlink_app apps fd k (ground arith))

pub unlink_app-Apart :
    (apps : List App) (fd : ℕ)
    → Apart apps
    → Apart (unlink_app apps fd).1 × (has_app (unlink_app apps fd).1 fd ≡ false)
unlink_app-Apart [] fd h = (tt, refl)
unlink_app-Apart (a ∷ apps) fd h = elim (Bool-cases (a.fd == fd)) [
  | inl here ↦ let same : a.fd ≡ fd = ground arith in rw here (h.1, rw same at h.0)
  | inr there ↦
      let (apart, gone) = unlink_app-Apart apps fd h.1 in
      rw there ((has_app-unlink_app apps fd a.fd h.0, apart), rw there gone)
]

-- The node that comes in last is the first one that its request id finds.
pub unlink_query-add_query :
    (apps : List App) (fd : ℕ) (q : QueryNode)
    → has_app apps fd ≡ true
    → unlink_query (add_query apps fd q) fd q.query.req_id ≡ (some q, apps)
unlink_query-add_query [] fd q has = absurd cc
unlink_query-add_query (a ∷ apps) fd q has = elim (Bool-cases (a.fd == fd)) [
  | inl here ↦ ground arith
  | inr there ↦
      let rest = unlink_query-add_query apps fd q (rw there at has) in ground (arith, rest)
]

pub has_app-unlink_app-exact :
    (apps : List App) (fd k : ℕ)
    → Apart apps
    → has_app (unlink_app apps fd).1 k ≡ (if fd == k then false else has_app apps k)
has_app-unlink_app-exact [] fd k h = ground arith
has_app-unlink_app-exact (a ∷ apps) fd k h = elim (Bool-cases (a.fd == fd)) [
  | inl here ↦ let same : a.fd ≡ fd = ground arith in rw here (ground (arith, h.0))
  | inr there ↦
      let other : a.fd ≢ fd = ground arith in
      rw there (ground (arith, has_app-unlink_app-exact apps fd k h.1))
]
