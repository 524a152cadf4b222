-- ===== src/Utils/Compare.antt =====
-- The order of doubles is that of the hundredths that were read.
use iot_services_monitoring.Common.{
  ℕ, ◌+◌, ◌-◌, ◌*◌, ◌^◌, ◌<◌, ◌≡◌, refl, sym, ap, ap₂, ◌∙◌, inl, inr, Bool, true, false, not, ◌&&◌,
  ltb, ◌==◌, arith, Bool-cases,
}
use iot_services_monitoring.Double.{Double, infinity, is_nan, hundredths, order_key, double_lt}
use iot_services_monitoring.Double.Nearest.{nearest}
use iot_services_monitoring.Double.Nearest.Monotone.{nearest_mono}
use iot_services_monitoring.Double.Nearest.Hundredths.{hundredths-nearest, nearest-finite}
use iot_services_monitoring.Utils.Decimals.{sign_bit}
use iot_services_monitoring.Utils.Hundredths.{value_of, pattern_parts, is_finite}

-- The bound that hundredths-nearest needs.
abbrev pub range : ℕ
range = 100 * 2 ^ 46

nearest-lt : (a b : ℕ) → b < range → a < b → nearest a 100 < nearest b 100
nearest-lt a b h lt =
    let le = nearest_mono 100 {n = a} {n' = b} (omega arith) (omega (arith, lt)) in
    let back_a = hundredths-nearest a (omega (arith, lt, h)) in
    let back_b = hundredths-nearest b h in
    elim (Bool-cases (ltb (nearest a 100) (nearest b 100))) [
      | inl t ↦ ground (arith, t)
      | inr f ↦
          let same : nearest a 100 ≡ nearest b 100 = ground (arith, f, le) in
          let clash : a ≡ b = sym back_a ∙ ap hundredths same ∙ back_b in
          absurd (omega (arith, clash, lt))
    ]

pub nearest-ltb : (a b : ℕ) → a < range → b < range → ltb (nearest a 100) (nearest b 100) ≡ ltb a b
nearest-ltb a b h k = elim (Bool-cases (ltb a b)) [
  | inl t ↦ let lt = nearest-lt a b k (ground (arith, t)) in rw t (ground (arith, lt))
  | inr f ↦
      let le = nearest_mono 100 {n = b} {n' = a} (omega arith) (ground (arith, f)) in
      rw f (ground (arith, le))
]

nearest-zero : nearest 0 100 ≡ 0
unfolding nearest
nearest-zero = refl

-- a / 100 < b / 100, with their signs.
abbrev pub signed_lt : Bool → ℕ → Bool → ℕ → Bool
signed_lt false a false b = ltb a b
signed_lt false a true b = false
signed_lt true a false b = not (a == 0 && b == 0)
signed_lt true a true b = ltb b a

abbrev key_of : Bool → ℕ → ℕ
key_of true x = 2 ^ 63 - x
key_of false x = 2 ^ 63 + x

shifted : (x y : ℕ) → ltb (2 ^ 63 + x) (2 ^ 63 + y) ≡ ltb x y
shifted x y = ground arith

above : (x y : ℕ) → ltb (2 ^ 63 + x) (2 ^ 63 - y) ≡ false
above x y = ground arith

mirrored : (x y : ℕ) → x < 2 ^ 63 → y < 2 ^ 63 → ltb (2 ^ 63 - x) (2 ^ 63 - y) ≡ ltb y x
mirrored x y h k = ground arith

around_zero : (x y : ℕ) → ltb (2 ^ 63 - x) (2 ^ 63 + y) ≡ not (x == 0 && y == 0)
around_zero x y = ground arith

below : (a : ℕ) → a < range → nearest a 100 < 2 ^ 63
below a h = let finite = nearest-finite a h in omega (arith, finite)

zero_test : (x a : ℕ) → ltb 0 x ≡ ltb 0 a → (x == 0) ≡ (a == 0)
zero_test x a h = ground arith

nearest-is_zero : (a : ℕ) → a < range → (nearest a 100 == 0) ≡ (a == 0)
nearest-is_zero a h =
    let o : ltb 0 (nearest a 100) ≡ ltb 0 a =
      ap (λ z. ltb z (nearest a 100)) (sym nearest-zero) ∙ nearest-ltb 0 a (omega arith) h in
    zero_test (nearest a 100) a o

keys-signed :
    (m : Bool) (a : ℕ) (m' : Bool) (b : ℕ)
    → a < range
    → b < range
    → ltb (key_of m (nearest a 100)) (key_of m' (nearest b 100)) ≡ signed_lt m a m' b
keys-signed false a false b h k =
    let o = nearest-ltb a b h k in shifted (nearest a 100) (nearest b 100) ∙ o
keys-signed false a true b h k = above (nearest a 100) (nearest b 100)
keys-signed true a false b h k =
    around_zero (nearest a 100) (nearest b 100)
    ∙ ap₂ (λ p q. not (p && q)) (nearest-is_zero a h) (nearest-is_zero b k)
keys-signed true a true b h k =
    mirrored (nearest a 100) (nearest b 100) (below a h) (below b k) ∙ nearest-ltb b a k h

order_key-value : (m : Bool) (x : ℕ) → x < infinity → order_key (sign_bit m + x) ≡ key_of m x
unfolding order_key
order_key-value true x h = let (sign, size) = pattern_parts true x h in rw (sign, size) refl
order_key-value false x h = let (sign, size) = pattern_parts false x h in rw (sign, size) refl

abbrev ordered : Bool → Bool → ℕ → ℕ → Bool
ordered nan nan' a b = (not nan && not nan') && ltb a b

double_lt-keys :
    (m m' : Bool) (x y : ℕ)
    → x < infinity
    → y < infinity
    → double_lt (sign_bit m + x) (sign_bit m' + y) ≡ ltb (key_of m x) (key_of m' y)
unfolding double_lt
double_lt-keys m m' x y h k =
    let (a, b) : Double × Double = (sign_bit m + x, sign_bit m' + y) in
    ap (λ t. ordered t (is_nan b) (order_key a) (order_key b)) (is_finite m x h).0
    ∙ ap (λ t. ordered false t (order_key a) (order_key b)) (is_finite m' y k).0
    ∙ ap (λ t. ordered false false t (order_key b)) (order_key-value m x h)
    ∙ ap (λ t. ordered false false (key_of m x) t) (order_key-value m' y k)

-- Doubles read from hundredths compare as these do.
pub double_lt-value_of :
    (m : Bool) (a : ℕ) (m' : Bool) (b : ℕ)
    → a < range
    → b < range
    → double_lt (value_of m a) (value_of m' b) ≡ signed_lt m a m' b
double_lt-value_of m a m' b h k =
    double_lt-keys m m' (nearest a 100) (nearest b 100) (nearest-finite a h) (nearest-finite b k)
    ∙ keys-signed m a m' b h k
