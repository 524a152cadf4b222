-- ===== src/Telemetry.antt =====
-- From a sensor's line to an operator's page: server/src/sensor_handler.c and http_server.c over the
-- shared state.
mod Tests
use mathlib.Core.Path.{subst}
use mathlib.Core.List.{append_assoc}
use iot_services_monitoring.Common.{
  ℕ, zero, suc, ◌-◌, ◌<◌, ◌≤◌, ◌≡◌, refl, ap, ◌∙◌, Bool, true, List, [], ◌∷◌, ◌++◌, Option, some,
  ◌⊎◌, inl, inr, arith, ◌+◌, take, map, length, if◌then◌else◌,
}
use iot_services_monitoring.Text.{Text, codes}
use iot_services_monitoring.Double.{print_2f}
use iot_services_monitoring.Utils.{is_valid_timestamp}
use iot_services_monitoring.Utils.Numbers.{strtod}
use iot_services_monitoring.Utils.Hundredths.{value_of, print_2f-text}
use iot_services_monitoring.Utils.Numerals.{
  Numeral, IsShort, written, worth, two_places, parse_double-numeral,
}
use iot_services_monitoring.State.{
  GlobalState, Sensor, Metric, is_status_active, copy_text, sensor_type_to_str, max_id_len,
  max_type_len, max_timestamp_len, max_metrics,
}
use iot_services_monitoring.State.Ops.{state_get_metric_count}
use iot_services_monitoring.State.Inv.{IsValid}
use iot_services_monitoring.State.Registry.{entry}
use iot_services_monitoring.State.Recent.{recent_metrics}
use iot_services_monitoring.State.Recent.Tables.{stored_metric}
use iot_services_monitoring.Calls.{Program, run}
use iot_services_monitoring.Calls.Invariant.{run-IsValid}
use iot_services_monitoring.Config.{concat, http_response_max}
use iot_services_monitoring.Smp.{handle_metric}
use iot_services_monitoring.Smp.Metrics.{handle_metric-Stored}
use iot_services_monitoring.Http.Tables.{metrics_header, metric_row, metrics_page, table_end}
use iot_services_monitoring.Http.Fit.{Shown}
use iot_services_monitoring.Http.Views.{metrics_page-Shown}
use iot_services_monitoring.Http.Sizes.{length-metrics_header}
use iot_services_monitoring.Http.Requests.{responded, ok, table_response, route_metrics}

-- The first row stands right behind the header.
first_row :
    (header row : Text) (rows : List Text) (page : Option Text) (shown : ℕ)
    → length header < http_response_max - 512
    → page ≡ some (header ++ (concat (take shown (row ∷ rows)) ++ table_end))
    → (shown ≡ suc (length rows))
      ⊎ (http_response_max - 512 ≤ length header + length (concat (take shown (row ∷ rows))))
    → (rest : Text) × (page ≡ some (header ++ (row ++ rest)))
unfolding concat
first_row header row rows page zero h text (inl e) = absurd (omega (arith, e))
first_row header row rows page zero h text (inr e) = absurd (omega (arith, e))
first_row header row rows page (suc k) h text stops = (
  concat (take k rows) ++ table_end,
  text ∙ ap (λ r. some (header ++ r)) (append_assoc row (concat (take k rows)) table_end),
)

-- The row of /metrics for a metric, by the texts in its columns.
abbrev pub row_with : Text → Text → Text → Text → Text
row_with id type value ts = concat (
    codes "<tr><td>"
    ∷ id
    ∷ codes "</td><td>"
    ∷ type
    ∷ codes "</td>"
    ∷ codes "<td>"
    ∷ value
    ∷ codes "</td><td>"
    ∷ ts
    ∷ codes "</td></tr>"
    ∷ [])

newest_on_page :
    (g : GlobalState) (m : Metric) (ms : List Metric)
    → IsValid g
    → recent_metrics g ≡ m ∷ ms
    → let count = state_get_metric_count g in
      (rest : Text) × (metrics_page count g ≡ some (metrics_header count ++ (metric_row m ++ rest)))
newest_on_page g m ms v e =
    let count = state_get_metric_count g in
    let s : Shown (metrics_header count) (metric_row m ∷ map metric_row ms) (metrics_page count g) =
      subst (λ l. Shown (metrics_header count) (map metric_row l) (metrics_page count g)) e
        (metrics_page-Shown count v v.metric_range.1) in
    first_row (metrics_header count) (metric_row m) (map metric_row ms) (metrics_page count g)
      s.shown (omega (arith, length-metrics_header count (omega (arith, v.metric_range.1))))
      s.page_text s.stops

metric_row-text :
    (id ts ty : Text) (x : Numeral)
    → IsShort x
    → metric_row (stored_metric id (value_of x.minus (worth x)) ts ty)
      ≡ row_with
          (copy_text id max_id_len)
          (copy_text ty max_type_len)
          (two_places x)
          (copy_text ts max_timestamp_len)
unfolding metric_row
metric_row-text id ts ty x short =
    ap
      (λ value.
        row_with (copy_text id max_id_len) (copy_text ty max_type_len) value
          (copy_text ts max_timestamp_len))
      (print_2f-text x.minus (worth x) short.small)

module _ (g : GlobalState) (command id ts : Text) (s : Sensor) (x : Numeral) where
  -- A METRIC of an active sensor, on a valid state, with a valid timestamp and a value of less than
  -- 2^46 units with two digits behind the point at most, is answered by 200 OK, and /metrics, asked
  -- next, shows it in its first row, the value with two digits behind the point.
  pub metric_on_page :
      IsValid g
      → entry g id ≡ some s
      → is_status_active s.status ≡ true
      → is_valid_timestamp (some ts) ≡ true
      → IsShort x
      → let (g', reply) = run (handle_metric strtod (command ∷ id ∷ written x ∷ ts ∷ [])) g in
        let count = state_get_metric_count g' in
        let row =
          row_with
            (copy_text id max_id_len)
            (copy_text (sensor_type_to_str s.type) max_type_len)
            (two_places x)
            (copy_text ts max_timestamp_len) in
        (reply ≡ codes "200 OK")
        × (rest : Text) × (run route_metrics g'
            ≡ (g', responded (ok (metrics_header count ++ (row ++ rest)))))
  unfolding run route_metrics
  metric_on_page v e a t short =
      let p = handle_metric strtod (command ∷ id ∷ written x ∷ ts ∷ []) in
      let g' = (run p g).0 in
      let v' : IsValid g' = run-IsValid p v in
      let ty = sensor_type_to_str s.type in
      let value = parse_double-numeral x short in
      let (reply, _, metrics, _) =
        rw (e, a, value, t) at (handle_metric-Stored g id ts v strtod command (written x)) in
      let metric = stored_metric id (value_of x.minus (worth x)) ts ty in
      let (rest, page) = newest_on_page g' metric (take 511 (recent_metrics g)) v' metrics in
      let header = metrics_header (state_get_metric_count g') in
      (
        reply,
        rest,
        ap (λ b. (g', table_response b)) page
            ∙ ap (λ row. (g', responded (ok (header ++ (row ++ rest)))))
                (metric_row-text id ts ty x short),
      )
