-- ===== src/Http/Patched.antt =====
-- The header of the sensors' page, and the replacement of its zeros.
use mathlib.Core.List.{append_assoc}
use iot_services_monitoring.Common.{
  ◌+◌, ◌-◌, ◌<◌, ◌≡◌, refl, ap, ◌∙◌, [], ◌∷◌, ◌++◌, none, some, arith, length, take, drop,
  length-append, take_all, take-length_append, drop-length_append,
}
use iot_services_monitoring.Text.{Text, strstr, decimal}
use iot_services_monitoring.Text.Search.{strstr-append}
use iot_services_monitoring.Config.{http_response_max, concat}
use iot_services_monitoring.Http.Style.{css_style, build_nav}
use iot_services_monitoring.Http.Tables.{whole}
use iot_services_monitoring.Http.Sensors.{
  Counters, zero_stats, sensors_header, stats, replaced, patch,
}

abbrev pub header_head : Text
header_head = take 6859 sensors_header

abbrev pub header_tail : Text
header_tail = drop 7129 sensors_header

header_parts : sensors_header ≡ header_head ++ (zero_stats ++ header_tail)
unfolding sensors_header concat css_style build_nav decimal
header_parts = refl

abbrev stats_init : Text
stats_init = take 269 zero_stats

no_stats_before : strstr (header_head ++ stats_init) (stats_init ++ (b'>' ∷ [])) ≡ none
unfolding strstr sensors_header concat css_style build_nav
no_stats_before = refl

replaced-found :
    (c : Counters) (head tail : Text)
    → length (concat (stats c)) < 1024
    → length head + length (concat (stats c)) + length tail < http_response_max
    → replaced c (head ++ (zero_stats ++ tail)) (zero_stats ++ tail)
      ≡ head ++ (concat (stats c) ++ tail)
replaced-found c head tail h k =
    let all = length-append head (zero_stats ++ tail) in
    let at : length (head ++ (zero_stats ++ tail)) - length (zero_stats ++ tail) ≡ length head =
      omega (arith, all) in
    let kept = take-length_append head (zero_stats ++ tail) in
    let behind = drop-length_append zero_stats tail in
    let t₁ = take_all (http_response_max - 1) tail (omega arith) in
    let t₂ = take_all 1023 (concat (stats c)) (omega arith) in
    let t₃ = take_all (http_response_max - length head - 1) (concat (stats c)) (omega arith) in
    let t₄ =
      take_all (http_response_max - length (head ++ concat (stats c)) - 1) tail
        (omega (arith, length-append head (concat (stats c)))) in
    rw (at, kept, behind, t₁, t₂, t₃, t₄) (append_assoc head (concat (stats c)) tail)

pub length-header_head : length header_head ≡ 6859
unfolding sensors_header concat css_style build_nav decimal
length-header_head = refl

pub length-header_tail : length header_tail ≡ 170
unfolding sensors_header concat css_style build_nav decimal
length-header_tail = refl

-- The zeros are found where they stand, since no text of the shared head looks like them.
pub patch-found :
    (c : Counters) (rows : Text)
    → length (concat (stats c)) < 300
    → length rows < 50000
    → patch c (whole (sensors_header ++ rows))
      ≡ whole (header_head ++ (concat (stats c) ++ (header_tail ++ rows)))
unfolding patch
patch-found c rows h k =
    let tail = header_tail ++ rows in
    let body : sensors_header ++ rows ≡ header_head ++ (zero_stats ++ tail) =
      ap (λ t. t ++ rows) header_parts
      ∙ append_assoc header_head (zero_stats ++ header_tail) rows
      ∙ ap (λ t. header_head ++ t) (append_assoc zero_stats header_tail rows) in
    let found : strstr (header_head ++ (zero_stats ++ tail)) zero_stats
        ≡ some (zero_stats ++ tail) =
      strstr-append header_head stats_init tail b'>' no_stats_before in
    let sum = length-append header_tail rows in
    let same =
      replaced-found c header_head tail (omega (arith, h))
        (omega (arith, length-header_head, length-header_tail, sum)) in
    ap (λ t. patch c (whole t)) body ∙ rw (found, patch) (ap whole same)
