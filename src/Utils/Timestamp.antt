-- ===== src/Utils/Timestamp.antt =====
-- The timestamps that is_valid_timestamp accepts: YYYY-MM-DDTHH:MM:SSZ.
use iot_services_monitoring.Common.{
  ℕ, ◌≡◌, ◌↔◌, Bool, true, false, ◌&&◌, [], ◌∷◌, some, arith, ◌==◌,
}
use iot_services_monitoring.Text.{Text, is_digit}
use iot_services_monitoring.Utils.{is_valid_timestamp}

-- Four digits, or two.
abbrev pub digits4 : ℕ → ℕ → ℕ → ℕ → Bool
digits4 a b c d = is_digit a && is_digit b && is_digit c && is_digit d

abbrev pub digits2 : ℕ → ℕ → Bool
digits2 a b = is_digit a && is_digit b

-- The format, read from left to right.
abbrev pub is_format : Text → Bool
is_format
      (y₁ ∷ y₂ ∷ y₃ ∷ y₄ ∷ s₁ ∷ m₁ ∷ m₂ ∷ s₂ ∷ d₁ ∷ d₂ ∷ t ∷ h₁ ∷ h₂ ∷ s₃ ∷ n₁ ∷ n₂ ∷ s₄ ∷ e₁ ∷ e₂
        ∷ z ∷ []) =
    digits4 y₁ y₂ y₃ y₄
    && (s₁ == b'-'
        && (digits2 m₁ m₂
            && (s₂ == b'-'
                && (digits2 d₁ d₂
                    && (t == b'T'
                        && (digits2 h₁ h₂
                            && (s₃ == b':'
                                && (digits2 n₁ n₂
                                    && (s₄ == b':' && (digits2 e₁ e₂ && z == b'Z'))))))))))
is_format _ = false

-- is_valid_timestamp returns 1 for exactly the texts of this format.
pub is_valid_timestamp_iff :
    (ts : Text) → (is_valid_timestamp (some ts) ≡ true) ↔ (is_format ts ≡ true)
unfolding is_valid_timestamp
is_valid_timestamp_iff
      (y₁ ∷ y₂ ∷ y₃ ∷ y₄ ∷ s₁ ∷ m₁ ∷ m₂ ∷ s₂ ∷ d₁ ∷ d₂ ∷ t ∷ h₁ ∷ h₂ ∷ s₃ ∷ n₁ ∷ n₂ ∷ s₄ ∷ e₁ ∷ e₂
        ∷ z ∷ []) =
    (λ h. ground arith, λ h. ground arith)
is_valid_timestamp_iff _ = (λ h. ground arith, λ h. ground arith)
