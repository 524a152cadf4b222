-- ===== src/Text.antt =====
-- C strings: the bytes before the terminating NUL, and what string.h and ctype.h say of them.
mod Tests
pub mod Laws
pub mod Tokens
pub mod Digits
pub mod Search
use Prim.Native.Char.{code}
use Prim.Native.String.{String}
use iot_services_monitoring.Common.{
  ℕ, zero, suc, ◌+◌, ◌-◌, ◌/◌, ◌%◌, Bool, true, false, ◌&&◌, ◌||◌, List, [], ◌∷◌, ◌++◌, Option,
  none, some, length, drop, leb, ltb, ◌==◌, if◌then◌else◌,
}

abbrev pub Text : Type 0
Text = List ℕ

-- The bytes of an ASCII literal.
abbrev pub codes : String → Text
codes String.[] = []
codes (String.◌∷◌ c s) = code c ∷ codes s

-- strcmp(a, b) == 0
unfoldable pub text_eq : Text → Text → Bool
text_eq [] [] = true
text_eq [] (_ ∷ _) = false
text_eq (_ ∷ _) [] = false
text_eq (a ∷ as') (b ∷ bs) = a == b && text_eq as' bs

-- isspace in the C locale
unfoldable pub is_space : ℕ → Bool
is_space c = c == 32 || leb 9 c && leb c 13

-- isdigit
unfoldable pub is_digit : ℕ → Bool
is_digit c = leb b'0' c && leb c b'9'

-- The text begins with `prefix`.
unfoldable pub starts_with : Text → Text → Bool
starts_with [] s = true
starts_with (p ∷ ps) [] = false
starts_with (p ∷ ps) (c ∷ s) = p == c && starts_with ps s

-- strstr: the text from the first occurrence on.
unfoldable pub strstr : Text → Text → Option Text
unfolding starts_with
strstr [] needle = if starts_with needle [] then some [] else none
strstr (c ∷ s) needle = if starts_with needle (c ∷ s) then some (c ∷ s) else strstr s needle

-- strchr, for a character other than NUL.
unfoldable pub strchr : Text → ℕ → Option Text
strchr [] k = none
strchr (c ∷ s) k = if c == k then some (c ∷ s) else strchr s k

-- The text before the first `k`: what is left of it when that character is overwritten by NUL.
unfoldable pub before : ℕ → Text → Text
before k [] = []
before k (c ∷ s) = elim (c == k) [ true ↦ [] | false ↦ c ∷ before k s ]

-- What the string functions see of an array with these bytes.
abbrev pub c_string : Text → Text
c_string bytes = before 0 bytes

unfoldable pub digits_from : ℕ → ℕ → Text → Text
digits_from zero n acc = acc
digits_from (suc fuel) n acc =
    let rest = digits_from fuel (n / 10) ((b'0' + n % 10) ∷ acc) in
    if ltb n 10 then (b'0' + n) ∷ acc else rest

-- %d of a number that is not negative.
unfoldable pub decimal : ℕ → Text
unfolding digits_from
decimal n = digits_from (suc n) n []
