-- ===== src/Queue/Window.antt =====
-- The nodes of a circular array from an index on, and how they change under a write.
use psw_afdx.Base.{
  ℕ, zero, suc, ◌+◌, ◌%◌, ◌<◌, ◌≡◌, refl, ap, List, [], ◌∷◌, ◌++◌, arith, length, get_elem?, Option,
  set, get_elem?-set,
}

module _ {ℓ} {A : Type ℓ} where
  -- What `n` steps from index `h` round an array of 100 find.
  abbrev pub window : List A → ℕ → ℕ → List (Option A)
  window xs h zero = []
  window xs h (suc n) = get_elem? xs (h % 100) ∷ window xs (h + 1) n

  pub window-congr : (xs : List A) (n h k : ℕ) → h % 100 ≡ k % 100 → window xs h n ≡ window xs k n
  window-congr xs zero h k e = refl
  window-congr xs (suc n) h k e = ground (arith, window-congr xs n (h + 1) (k + 1) (omega arith))

  pub length-window : (xs : List A) (h n : ℕ) → length (window xs h n) ≡ n
  length-window xs h zero = refl
  length-window xs h (suc n) = ap suc (length-window xs (h + 1) n)

  pub window-snoc :
      (xs : List A) (n h : ℕ)
      → window xs h (suc n) ≡ window xs h n ++ (get_elem? xs ((h + n) % 100) ∷ [])
  window-snoc xs zero h = ground arith
  window-snoc xs (suc n) h = ground (arith, window-snoc xs n (h + 1))

  -- A write behind the last index of a window leaves it as it was.
  pub window-set :
      (xs : List A) (v : A) (d n h : ℕ)
      → length xs ≡ 100
      → n + d < 100
      → window (set xs ((h + n + d) % 100) v) h n ≡ window xs h n
  window-set xs v d zero h e lt = refl
  window-set xs v d (suc n) h e lt = ground (
    arith,
    get_elem?-set xs ((h + suc n + d) % 100) (h % 100) v (omega arith),
    window-set xs v d n (h + 1) e (omega arith),
  )
