-- ===== src/State/Recent/Push.antt =====
-- Writing to a circular table prepends to its contents, and drops the oldest when it is full.
use native.Mathlib.Nat.{mod-eq_of_lt, mod-eq-sub-mod}
use native.Mathlib.Decide.{dec_lt}
use iot_services_monitoring.Common.{
  ℕ, zero, suc, ◌+◌, ◌-◌, ◌%◌, ◌≤◌, ◌<◌, ◌≡◌, refl, ap, ap₂, sym, ◌∙◌, ◌≢◌, ◌⊎◌, inl, inr, List,
  ◌∷◌, arith, length, take, take_all, set, get_or, get_or-set_self, get_or-set_ne, ltb,
  if◌then◌else◌,
}
use iot_services_monitoring.State.Recent.{back, newest}

back_before : (cap next j : ℕ) → j < next → next < cap → back cap next j ≡ next - (1 + j)
back_before cap next j h k = omega (
  arith,
  mod-eq-sub-mod {n = next + cap - (1 + j)} {m = cap} (omega arith),
  mod-eq_of_lt {n = next + cap - (1 + j) - cap} {m = cap} (omega arith),
)

back_behind : (cap next j : ℕ) → next ≤ j → j < cap → back cap next j ≡ next + cap - (1 + j)
back_behind cap next j h k = mod-eq_of_lt (omega arith)

-- The next slot is one further, or the first again.
next_cases :
    (cap next : ℕ)
    → next < cap
    → (((next + 1) % cap ≡ next + 1) × (next + 1 < cap))
      ⊎ (((next + 1) % cap ≡ 0) × (next + 1 ≡ cap))
next_cases cap next h = elim (dec_lt (next + 1) cap) [
  | yes p ↦ inl (mod-eq_of_lt p, p)
  | no p ↦ inr (
    omega (
      arith,
      mod-eq-sub-mod {n = next + 1} {m = cap} (omega arith),
      mod-eq_of_lt {n = next + 1 - cap} {m = cap} (omega arith),
    ),
    omega arith,
  )
]

-- One step further back from the next slot is the same cell, and not the slot just written.
back-next :
    (cap next j : ℕ)
    → next < cap
    → j + 1 < cap
    → (back cap ((next + 1) % cap) (j + 1) ≡ back cap next j) × (next ≢ back cap next j)
back-next cap next j h k = elim (next_cases cap next h) [
  | inl (step, p) ↦ elim (dec_lt j next) [
    | yes q ↦ rw step (
        omega
          (arith, back_before cap next j q h, back_before cap (next + 1) (j + 1) (omega arith) p))
    | no q ↦ rw step (
        omega (
          arith,
          back_behind cap next j (omega arith) (omega arith),
          back_behind cap (next + 1) (j + 1) (omega arith) k,
        ))
  ]
  | inr (step, p) ↦ rw step (
      omega
        (arith, back_before cap next j (omega arith) h, back_behind cap 0 (j + 1) (omega arith) k))
]

back_first : (cap next : ℕ) → next < cap → back cap ((next + 1) % cap) 0 ≡ next
back_first cap next h = elim (next_cases cap next h) [
  | inl (step, p) ↦ rw step (omega (arith, back_before cap (next + 1) 0 (omega arith) p))
  | inr (step, p) ↦ rw step (omega (arith, back_behind cap 0 0 (omega arith) (omega arith)))
]

module _ {ℓ} {A : Type ℓ} (cap : ℕ) (d : A) where
  length-newest : (cells : List A) (next j n : ℕ) → length (newest cap d cells next j n) ≡ n
  unfolding newest
  length-newest cells next j zero = refl
  length-newest cells next j (suc n) = ap suc (length-newest cells next (j + 1) n)

  take-newest :
      (cells : List A) (next j k n : ℕ)
      → k ≤ n
      → take k (newest cap d cells next j n) ≡ newest cap d cells next j k
  unfolding newest
  take-newest cells next j zero n h = refl
  take-newest cells next j (suc k) zero h = absurd (omega arith)
  take-newest cells next j (suc k) (suc n) h =
      ap (λ xs. get_or cells (back cap next j) d ∷ xs)
        (take-newest cells next (j + 1) k n (omega arith))

  newest-write :
      (cells : List A) (x : A) (next j n : ℕ)
      → next < cap
      → j + n < cap
      → newest cap d (set cells next x) ((next + 1) % cap) (j + 1) n ≡ newest cap d cells next j n
  unfolding newest
  newest-write cells x next j zero h k = refl
  newest-write cells x next j (suc n) h k =
      let (same, ne) = back-next cap next j h (omega arith) in
      ap₂ ◌∷◌ (ap (λ i. get_or (set cells next x) i d) same ∙ get_or-set_ne cells x d ne)
        (newest-write cells x next (j + 1) n h (omega arith))

  newest-write_first :
      (cells : List A) (x : A) (next n : ℕ)
      → length cells ≡ cap
      → next < cap
      → n < cap
      → newest cap d (set cells next x) ((next + 1) % cap) 0 (suc n)
        ≡ x ∷ newest cap d cells next 0 n
  unfolding newest
  newest-write_first cells x next n size h k =
      ap₂ ◌∷◌
        (ap (λ i. get_or (set cells next x) i d) (back_first cap next h)
          ∙ get_or-set_self cells next x d (omega arith))
        (newest-write cells x next 0 n h (omega arith))

  -- A write to a circular table with `count` cells in use, and the step of its two counters.
  pub newest-push :
      (cells : List A) (x : A) (next count : ℕ)
      → length cells ≡ cap
      → next < cap
      → count ≤ cap
      → newest cap d
          (set cells next x)
          ((next + 1) % cap)
          0
          (if ltb count cap then count + 1 else count)
        ≡ take cap (x ∷ newest cap d cells next 0 count)
  newest-push cells x next count size h k = elim (dec_lt count cap) [
    | yes p ↦
        let same : (if ltb count cap then count + 1 else count) ≡ suc count = ground arith in
        rw same (
          newest-write_first cells x next count size h p
          ∙ sym (take_all cap _ (omega (arith, length-newest cells next 0 count))))
    | no p ↦
        let full : cap ≡ suc (cap - 1) = omega arith in
        let same : (if ltb count cap then count + 1 else count) ≡ suc (cap - 1) = ground arith in
        rw same (
          newest-write_first cells x next (cap - 1) size h (omega arith)
          ∙ ap (λ ys. x ∷ ys) (sym (take-newest cells next 0 (cap - 1) count (omega arith)))
          ∙ ap (λ n. take n (x ∷ newest cap d cells next 0 count)) (sym full))
  ]
