-- ===== src/Utils/Clock.antt =====
-- get_timestamp of server/src/utils.c. The local time that localtime_r gives is data.
use iot_services_monitoring.Common.{
  ℕ, ◌+◌, ◌/◌, ◌%◌, ◌≤◌, ◌<◌, ◌≡◌, refl, true, [], ◌∷◌, ◌++◌, Option, none, some, length,
  length-append, ltb, arith, if◌then◌else◌,
}
use iot_services_monitoring.Text.{Text, codes, decimal}
use iot_services_monitoring.Text.Digits.{length-decimal}

-- struct tm: the year counts from 1900, and the month from 0.
pub record Tm : Type 0 where
  pub tm_year : ℕ
  pub tm_mon : ℕ
  pub tm_mday : ℕ
  pub tm_hour : ℕ
  pub tm_min : ℕ
  pub tm_sec : ℕ

-- A number below 100 with its leading zero.
abbrev pub two_digits : ℕ → Text
two_digits n = (b'0' + n / 10 % 10) ∷ (b'0' + n % 10) ∷ []

-- "%Y-%m-%d %H:%M:%S"
abbrev pub formatted : Tm → Text
formatted tm =
    decimal (tm.tm_year + 1900)
    ++ (b'-' ∷ two_digits (tm.tm_mon + 1)
        ++ b'-' ∷ two_digits tm.tm_mday
        ++ b' ' ∷ two_digits tm.tm_hour
        ++ b':' ∷ two_digits tm.tm_min
        ++ b':' ∷ two_digits tm.tm_sec)

-- strftime leaves the array open, `none`, where the text and its NUL do not fit.
unfoldable pub get_timestamp : Tm → ℕ → Option Text
get_timestamp tm buf_size =
    if ltb (length (formatted tm)) buf_size then some (formatted tm) else none

get_timestamp_test :
    get_timestamp
      (record { tm_year = 126; tm_mon = 2; tm_mday = 30; tm_hour = 14; tm_min = 5; tm_sec = 9 })
      32
    ≡ some (codes "2026-03-30 14:05:09")
unfolding get_timestamp decimal
get_timestamp_test = refl

-- Up to the year 9999 the 20 bytes that utils.h asks for are enough: the array is written, with 19
-- bytes at most.
pub get_timestamp_lem :
    (tm : Tm) (buf_size : ℕ)
    → tm.tm_year + 1900 < 10000
    → 20 ≤ buf_size
    → (get_timestamp tm buf_size ≡ some (formatted tm)) × (length (formatted tm) ≤ 19)
unfolding get_timestamp
get_timestamp_lem tm buf_size year room =
    let digits = length-decimal 3 (tm.tm_year + 1900) year in
    let short : length (formatted tm) ≤ 19 =
      rw (length-append (decimal (tm.tm_year + 1900))) (omega (arith, digits)) in
    let fits : ltb (length (formatted tm)) buf_size ≡ true = ground (arith, short) in
    (rw fits refl, short)
