-- ===== src/Python.antt =====
-- str.strip() of Python, which sensor.py and auth_server.py call, on ASCII.
use iot_services_monitoring.Common.{ℕ, Bool, ◌&&◌, ◌||◌, [], ◌∷◌, leb, if◌then◌else◌}
use iot_services_monitoring.Text.{Text}

abbrev pub is_white : ℕ → Bool
is_white c = leb 9 c && leb c 13 || leb 28 c && leb c 32

unfoldable pub strip_left : Text → Text
strip_left [] = []
strip_left (c ∷ s) = if is_white c then strip_left s else c ∷ s

-- A character in front of a text whose end is stripped already.
abbrev pub put_back : ℕ → Text → Text
put_back c [] = if is_white c then [] else c ∷ []
put_back c (d ∷ s) = c ∷ d ∷ s

unfoldable pub strip_right : Text → Text
strip_right [] = []
strip_right (c ∷ s) = put_back c (strip_right s)

abbrev pub strip : Text → Text
strip s = strip_right (strip_left s)
