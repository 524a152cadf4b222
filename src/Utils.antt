-- ===== src/Utils.antt =====
-- server/src/utils.c: copying, trimming, reading and sending lines, and the checks of a metric's
-- fields. A socket's input is the bytes that will arrive, and how it ends after them.
mod Tests
pub mod Copy
pub mod Lines
pub mod Received
pub mod Timestamp
pub mod Numbers
pub mod Decimals
pub mod Hundredths
pub mod Numerals
pub mod Compare
pub mod Integers
pub mod Clock
pub mod Trim
use iot_services_monitoring.Common.{
  ℕ, zero, suc, ◌+◌, ◌-◌, Bool, true, false, not, ◌&&◌, ◌||◌, List, [], ◌∷◌, ◌++◌, reverse, Option,
  none, some, length, get_or, take, drop, replicate, set, leb, ltb, ◌==◌, ℤ, pos, negsuc,
  if◌then◌else◌,
}
use iot_services_monitoring.Text.{Text, codes, is_space, is_digit}
use iot_services_monitoring.Double.{Double}

abbrev pub buffer_size : ℕ
buffer_size = 4096

-- A character array is the list of its bytes. strncpy copies at most `n` bytes, and fills the rest
-- of the `n` with NUL.
unfoldable pub strncpy : List ℕ → Text → ℕ → List ℕ
strncpy dest src zero = dest
strncpy [] src (suc n) = []
strncpy (_ ∷ dest) [] (suc n) = 0 ∷ strncpy dest [] n
strncpy (_ ∷ dest) (c ∷ src) (suc n) = c ∷ strncpy dest src n

-- A NULL `dest` or `src` is `none`.
unfoldable pub safe_strncpy : Option (List ℕ) → Option Text → ℕ → Option (List ℕ)
unfolding strncpy
safe_strncpy none src dest_size = none
safe_strncpy (some dest) src zero = some dest
safe_strncpy (some dest) none (suc n) = some (set dest 0 0)
safe_strncpy (some dest) (some src) (suc n) = some (set (strncpy dest src n) n 0)

unfoldable pub skip_spaces : Text → Text
unfolding is_space
skip_spaces [] = []
skip_spaces (c ∷ s) = if is_space c then skip_spaces s else c ∷ s

-- The walk back from the end stops at the first character at the latest.
unfoldable pub trim : Option Text → Option Text
unfolding skip_spaces
trim none = none
trim (some str) = elim (skip_spaces str) [
  | [] ↦ some []
  | c ∷ s ↦ some (c ∷ reverse (skip_spaces (reverse s)))
]

-- After the last byte recv returns 0, or -1.
pub data Ending : Type 0 where
  closed failed : Ending

pub record Incoming : Type 0 where
  pub bytes : List ℕ
  pub ending : Ending

abbrev pub cons_line : ℕ → Option Text × List ℕ → Option Text × List ℕ
cons_line c (none, s) = (none, s)
cons_line c (some line, s) = (some (c ∷ line), s)

-- recv returns 0 or -1 before the first byte of the rest of the line.
abbrev pub at_end : Ending → Option Text × List ℕ
at_end closed = (some [], [])
at_end failed = (none, [])

-- The loop of recv_line with `room` bytes left in the buffer: the rest of the line, `none` where
-- recv fails, and the bytes that are left. '\r' is skipped, '\n' ends the line.
unfoldable pub recv_from : Ending → ℕ → List ℕ → Option Text × List ℕ
recv_from ending zero s = (some [], s)
recv_from ending (suc room) [] = at_end ending
recv_from ending (suc room) (c ∷ s) = elim (c == 10) [
  | true ↦ (some [], s)
  | false ↦ elim (c == 13) [
    | true ↦ recv_from ending (suc room) s
    | false ↦ cons_line c (recv_from ending room s)
  ]
]

abbrev pub line_result : Ending → Option Text × List ℕ → ℤ × Text × Incoming
line_result ending (none, s) = (negsuc 0, [], record { bytes = s; ending = ending })
line_result ending (some line, s) = (pos (length line), line, record { bytes = s; ending = ending })

-- The result of recv_line, the line in the buffer, and the input that is left.
unfoldable pub recv_line : ℕ → Incoming → ℤ × Text × Incoming
unfolding recv_from
recv_line buf_size inc = line_result inc.ending (recv_from inc.ending (buf_size - 1) inc.bytes)

-- The sending loop: `accepts` lists how many bytes each call of send takes, `none` for a failure;
-- past its end the call does not return. Gives what went out, and the result once there is one.
unfoldable pub send_from : Text → List (Option ℕ) → Text × Option ℤ
send_from [] accepts = ([], some (pos 0))
send_from (c ∷ s) [] = ([], none)
send_from (c ∷ s) (none ∷ accepts) = ([], some (negsuc 0))
send_from (c ∷ s) (some n ∷ accepts) =
    let (out, r) = send_from (drop n (c ∷ s)) accepts in (take n (c ∷ s) ++ out, r)

-- A message that does not fit the buffer with its '\n' and NUL is not sent at all.
unfoldable pub send_line : Text → List (Option ℕ) → Text × Option ℤ
unfolding send_from
send_line message accepts =
    if leb buffer_size (length message + 1)
    then ([], some (negsuc 0))
    else send_from (message ++ (10 ∷ [])) accepts

abbrev fixed_position : ℕ → Bool
fixed_position i = i == 4 || i == 7 || i == 10 || i == 13 || i == 16 || i == 19

-- The last loop of is_valid_timestamp, `n` rounds from `i` on.
digits_elsewhere : ℕ → ℕ → Text → Bool
digits_elsewhere zero i ts = true
digits_elsewhere (suc n) i ts =
    let rest = digits_elsewhere n (i + 1) ts in
    if fixed_position i then rest else if is_digit (get_or ts i 0) then rest else false

unfoldable pub is_valid_timestamp : Option Text → Bool
unfolding digits_elsewhere is_digit
is_valid_timestamp none = false
is_valid_timestamp (some ts) =
    if not (length ts == 20)
    then false
    else if not (get_or ts 4 0 == b'-')
        || not (get_or ts 7 0 == b'-')
        || not (get_or ts 10 0 == b'T')
        || not (get_or ts 13 0 == b':')
        || not (get_or ts 16 0 == b':')
        || not (get_or ts 19 0 == b'Z')
    then false
    else digits_elsewhere 20 0 ts

-- What strtod leaves: the value, how many bytes it read (`endptr - str`), and errno.
pub record Strtod : Type 0 where
  pub value : Double
  pub consumed : ℕ
  pub errno : ℕ

abbrev is_empty : Text → Bool
is_empty [] = true
is_empty (_ ∷ _) = false

-- The conditions behind the call of strtod.
abbrev pub accepted : Text → Strtod → Option Double
accepted str r =
    if not (r.errno == 0) || r.consumed == 0 || not (is_empty (drop r.consumed str))
    then none
    else some r.value

-- A NULL string is `none`; the value is written through `out` only on success.
unfoldable pub parse_double : (Text → Strtod) → Option Text → Option Double
parse_double strtod none = none
parse_double strtod (some str) = accepted str (strtod str)
