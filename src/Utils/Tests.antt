-- ===== src/Utils/Tests.antt =====
-- Examples of lines, copies and timestamps.
use iot_services_monitoring.Common.{
  ℕ, ◌<◌, ◌≡◌, refl, ◌≢◌, ◌⊎◌, ◌↔◌, true, false, List, [], ◌∷◌, ◌++◌, Option, none, some, arith,
  length, pos, negsuc, drop, replicate,
}
use Prim.Native.String.{String}
use iot_services_monitoring.Text.{Text, codes, c_string, is_digit, starts_with, decimal}
use iot_services_monitoring.Double.{Double, infinity, print_2f}
use iot_services_monitoring.Utils.Numbers.{strtod, atoi, read_unsigned, read_real, rounded}
use iot_services_monitoring.Utils.Hundredths.{parse_double-print_2f}
use iot_services_monitoring.Utils.{
  failed, safe_strncpy, recv_line, send_line, is_valid_timestamp, trim, parse_double,
}
use iot_services_monitoring.Utils.Lines.{send_line_prefix, send_line_done}
use iot_services_monitoring.Utils.Copy.{safe_strncpy_lem}
use iot_services_monitoring.Utils.Received.{Taken, recv_line-Taken}
use iot_services_monitoring.Utils.Timestamp.{is_format, is_valid_timestamp_iff}

trim_tests :
    (trim (some (codes "  a b \t")) ≡ some (codes "a b")) × (trim (some (codes "  ")) ≡ some [])
unfolding trim
trim_tests = (refl, refl)

timestamp_tests :
    (is_valid_timestamp (some (codes "2026-03-30T14:05:00Z")) ≡ true)
    × (is_valid_timestamp (some (codes "2026-03-30 14:05:00Z")) ≡ false)
    × (is_valid_timestamp (some (codes "2026-03-30T14:05:00.5Z")) ≡ false)
unfolding is_valid_timestamp
timestamp_tests = (refl, refl, refl)

is_valid_timestamp_iff_example :
    (is_valid_timestamp (some (codes "2026-03-30T14:05:00Z")) ≡ true)
    ↔ (is_format (codes "2026-03-30T14:05:00Z") ≡ true)
is_valid_timestamp_iff_example = is_valid_timestamp_iff (codes "2026-03-30T14:05:00Z")

recv_line-Taken_example :
    Taken 4
      (record { bytes = codes "a\rbcde"; ending = failed })
      (recv_line 4 (record { bytes = codes "a\rbcde"; ending = failed }))
recv_line-Taken_example =
    recv_line-Taken 4 (record { bytes = codes "a\rbcde"; ending = failed }) (omega arith)

safe_strncpy_lem_example :
    (result : List ℕ) × (safe_strncpy (some (replicate 6 7)) (some (codes "abcdef")) 4
      ≡ some result)
    × (c_string result ≡ codes "abc")
    × (drop 4 result ≡ 7 ∷ 7 ∷ [])
    × (length result ≡ 6)
safe_strncpy_lem_example =
    safe_strncpy_lem (replicate 6 7) (codes "abcdef") 4 (omega arith) (omega arith) (omega arith)

send_line_prefix_example :
    let (out, r) = send_line (codes "abc") (some 2 ∷ none ∷ []) in
    (rest : Text) × (out ++ rest ≡ codes "abc" ++ (10 ∷ []))
    × ((rest ≡ []) ⊎ (r ≢ some (pos 0)))
    × ((length (codes "abc") < 4095) ⊎ ((out ≡ []) × (r ≡ some (negsuc 0))))
send_line_prefix_example = send_line_prefix (codes "abc") (some 2 ∷ none ∷ [])

send_line_done_example :
    send_line (codes "ab") (some 2 ∷ some 1 ∷ some 1 ∷ []) ≡ (b'a' ∷ b'b' ∷ 10 ∷ [], some (pos 0))
send_line_done_example =
    send_line_done (codes "ab") (some 2 ∷ some 1 ∷ some 1 ∷ []) (omega arith) (omega arith)
      (omega arith)

abbrev reads : String → Option Double
reads s = parse_double strtod (some (codes s))

-- What METRIC accepts as a value.
reads_tests :
    (reads "27.5" ≡ some 0x403b800000000000)
    × (reads "-0.1" ≡ some 0xbfb999999999999a)
    × (reads "+7e1" ≡ some 0x4051800000000000)
    × (reads "5." ≡ some 0x4014000000000000)
    × (reads ".5e+1" ≡ some 0x4014000000000000)
    × (reads "0x1.8p1" ≡ some 0x4008000000000000)
    × (reads "nan" ≡ some 0x7ff8000000000000)
    × (reads "-NAN(x1)" ≡ some 0xfff8000000000000)
    × (reads "Infinity" ≡ some infinity)
    × (reads "1e308" ≡ some 0x7fe1ccf385ebc8a0)
unfolding parse_double strtod read_unsigned read_real rounded starts_with is_digit
reads_tests = (refl, refl, refl, refl, refl, refl, refl, refl, refl, refl)

-- What it refuses: no number, text behind one, and what is out of range.
refuses_tests :
    (reads "" ≡ none)
    × (reads "." ≡ none)
    × (reads "abc" ≡ none)
    × (reads "1,5" ≡ none)
    × (reads "27.5C" ≡ none)
    × (reads "1e" ≡ none)
    × (reads "0x" ≡ none)
    × (reads "infinit" ≡ none)
    × (reads "1e309" ≡ none)
    × (reads "1e-400" ≡ none)
unfolding parse_double strtod read_unsigned read_real rounded starts_with is_digit
refuses_tests = (refl, refl, refl, refl, refl, refl, refl, refl, refl, refl)

atoi_tests :
    (atoi (codes "9090") ≡ pos 9090)
    × (atoi (codes " -12x") ≡ negsuc 11)
    × (atoi (codes "port") ≡ pos 0)
unfolding atoi
atoi_tests = (refl, refl, refl)

parse_double-print_2f_example :
    (x : Double) × (parse_double strtod (some (codes "-27.50")) ≡ some x)
    × (print_2f x ≡ codes "-27.50")
unfolding decimal
parse_double-print_2f_example = parse_double-print_2f true 2750 (omega arith)
