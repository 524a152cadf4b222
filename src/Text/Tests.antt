-- ===== src/Text/Tests.antt =====
-- Examples of tokens and numbers.
use iot_services_monitoring.Common.{ℕ, Bool, ◌≡◌, refl, List, [], ◌∷◌, All, ◌==◌, ◌||◌}
use iot_services_monitoring.Text.{Text, codes, decimal}
use iot_services_monitoring.Text.Tokens.{tokenize, IsToken}

abbrev blank : ℕ → Bool
blank c = c == 32 || c == 9

abbrev command : List Text
command = codes "PING" ∷ codes "s1" ∷ []

decimal_tests : (decimal 0 ≡ codes "0") × (decimal 9090 ≡ codes "9090")
unfolding decimal
decimal_tests = (refl, refl)

tokenize_test : tokenize blank 8 (codes "  PING \t s1 ") ≡ command
unfolding tokenize
tokenize_test = refl

command-IsToken : All (IsToken blank) command
command-IsToken =
    (((λ e. cc), (refl, (refl, (refl, (refl, tt))))), (((λ e. cc), (refl, (refl, tt))), tt))
