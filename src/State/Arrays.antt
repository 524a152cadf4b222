-- ===== src/State/Arrays.antt =====
-- Searching and writing the fixed tables: what a loop with `break` finds, before and after a write.
use iot_services_monitoring.Common.{
  ℕ, zero, suc, ◌+◌, ◌<◌, ◌≡◌, refl, sym, ◌∙◌, Bool, true, false, List, [], ◌∷◌, none, some, arith,
  length, get_elem?, set, Bool-cases, inl, inr, ap,
}
use native.Mathlib.Nat.{zero-add}
use iot_services_monitoring.State.Ops.{find_from}

module _ {ℓ} {A : Type ℓ} (test : A → Bool) where
  -- The loop stops inside the array, at a cell that passes the test.
  pub find_from_sound :
      (xs : List A) (i : ℕ) {k : ℕ} {x : A}
      → find_from test xs i ≡ some (k, x)
      → (j : ℕ) × (k ≡ i + j) × (j < length xs) × (get_elem? xs j ≡ some x) × (test x ≡ true)
  unfolding find_from
  find_from_sound [] i e = absurd (ground arith)
  find_from_sound (y ∷ ys) i e = elim (Bool-cases (test y)) [
    | inl t ↦ (zero, ground arith, omega arith, ground arith, ground arith)
    | inr f ↦
        let (j, ek, lt, get, t) = find_from_sound ys (i + 1) (rw (f, find_from) at e) in
        (suc j, omega arith, omega arith, get, t)
  ]

  pub find_from-set_ne :
      (xs : List A) (i j : ℕ) {x : A} (y : A)
      → get_elem? xs j ≡ some x
      → test x ≡ false
      → test y ≡ false
      → find_from test (set xs j y) i ≡ find_from test xs i
  unfolding find_from
  find_from-set_ne [] i j y g f f' = refl
  find_from-set_ne (x ∷ xs) i zero y g f f' = ground arith
  find_from-set_ne (x ∷ xs) i (suc j) y g f f' = rw (find_from-set_ne xs (i + 1) j y g f f')

  pub find_from-set_new :
      (xs : List A) (i j : ℕ) (y : A)
      → find_from test xs i ≡ none
      → j < length xs
      → test y ≡ true
      → find_from test (set xs j y) i ≡ some (i + j, y)
  unfolding find_from
  find_from-set_new [] i j y e lt t = absurd (omega arith)
  find_from-set_new (x ∷ xs) i zero y e lt t = ground arith
  find_from-set_new (x ∷ xs) i (suc j) y e lt t = ground (arith, find_from-set_new xs (i + 1) j y)

  pub find_from-set_self :
      (xs : List A) (i j : ℕ) (x y : A)
      → find_from test xs i ≡ some (i + j, x)
      → test y ≡ true
      → find_from test (set xs j y) i ≡ some (i + j, y)
  unfolding find_from
  find_from-set_self [] i j x y e t = absurd (ground arith)
  find_from-set_self (z ∷ xs) i zero x y e t = ground arith
  find_from-set_self (z ∷ xs) i (suc j) x y e t =
      ground (arith, find_from-set_self xs (i + 1) j x y)

  pub get_elem?_test :
      (xs : List A) (i j : ℕ) {x : A}
      → find_from test xs i ≡ none
      → get_elem? xs j ≡ some x
      → test x ≡ false
  unfolding find_from
  get_elem?_test [] i j e g = absurd (ground arith)
  get_elem?_test (x ∷ xs) i zero e g = ground arith
  get_elem?_test (x ∷ xs) i (suc j) e g = get_elem?_test xs (i + 1) j (ground arith) g

  -- The same, of a loop that starts at 0.
  pub find_sound :
      (xs : List A) {k : ℕ} {x : A}
      → find_from test xs 0 ≡ some (k, x)
      → (k < length xs) × (get_elem? xs k ≡ some x) × (test x ≡ true)
  find_sound xs e =
      let (j, ek, lt, get, t) = find_from_sound xs 0 e in
      let kj = (ek ∙ zero-add j) in (rw kj lt, rw kj get, t)

  pub find-set_new :
      (xs : List A) (j : ℕ) (y : A)
      → find_from test xs 0 ≡ none
      → j < length xs
      → test y ≡ true
      → find_from test (set xs j y) 0 ≡ some (j, y)
  find-set_new xs j y e lt t =
      find_from-set_new xs 0 j y e lt t ∙ ap (λ i. some (i, y)) (zero-add j)

  pub find-set_self :
      (xs : List A) (j : ℕ) (x y : A)
      → find_from test xs 0 ≡ some (j, x)
      → test y ≡ true
      → find_from test (set xs j y) 0 ≡ some (j, y)
  find-set_self xs j x y e t =
      find_from-set_self xs 0 j x y (e ∙ ap (λ i. some (i, x)) (sym (zero-add j))) t
      ∙ ap (λ i. some (i, y)) (zero-add j)
