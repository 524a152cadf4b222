-- ===== src/Smp/Status.antt =====
-- What STATUS answers behind a METRIC.
use mathlib.Core.List.{append-nil}
use iot_services_monitoring.Common.{ℕ, ◌≡◌, ap, ◌∙◌, true, [], ◌∷◌, Option, none, some, arith, take}
use iot_services_monitoring.Text.{Text, codes}
use iot_services_monitoring.Text.Laws.{text_eq_refl}
use iot_services_monitoring.Double.{Double, print_2f}
use iot_services_monitoring.Utils.{Strtod, parse_double, is_valid_timestamp}
use iot_services_monitoring.State.{
  GlobalState, Sensor, is_status_active, sensor_type_to_str, sensor_status_to_str,
  alert_level_to_str, max_metrics,
}
use iot_services_monitoring.State.Ops.{find_entry, state_find_sensor}
use iot_services_monitoring.State.Inv.{IsValid}
use iot_services_monitoring.State.Registry.{
  Table, change, report, with_level, view, entry, found_sensor,
}
use iot_services_monitoring.State.Recent.{recent_metrics, recent_alerts}
use iot_services_monitoring.State.Recent.Tables.{stored_metric}
use iot_services_monitoring.Calls.{run}
use iot_services_monitoring.Config.{concat}
use iot_services_monitoring.Smp.{handle_metric, handle_status, status_response, printed}
use iot_services_monitoring.Smp.Metrics.{alerted, level_of, handle_metric-Stored}

-- The line "200 STATUS id status type value timestamp level".
abbrev pub status_line : Sensor → Text
status_line s = concat (
    codes "200 STATUS "
    ∷ s.id
    ∷ codes " "
    ∷ sensor_status_to_str s.status
    ∷ codes " "
    ∷ sensor_type_to_str s.type
    ∷ codes " "
    ∷ print_2f s.last_value
    ∷ codes " "
    ∷ s.last_timestamp
    ∷ codes " "
    ∷ alert_level_to_str s.alert_level
    ∷ [])

status_response-found :
    (found : Option (ℕ × Sensor)) (s : Sensor)
    → found_sensor found ≡ some s
    → status_response found ≡ printed (status_line s)
unfolding concat
status_response-found none s e = absurd (ground arith)
status_response-found (some (i, s')) s e =
    let same : s' ≡ s = cc in
    ap (λ (x : Sensor). status_response (some (i, x))) same
    ∙ (rw (append-nil (alert_level_to_str s.alert_level)))

handle_status-found :
    (g : GlobalState) (command id : Text) (s : Sensor)
    → entry g id ≡ some s
    → run (handle_status (command ∷ id ∷ [])) g ≡ (g, printed (status_line s))
unfolding handle_status run state_find_sensor
handle_status-found g command id s e =
    ap (λ (r : Text). (g, r)) (status_response-found (find_entry id g) s e)

pub change-lookup :
    (t : Table) (id : Text) (f : Sensor → Sensor) (s : Sensor)
    → t.lookup id ≡ some s
    → (change id f t).0.lookup id ≡ some (f s)
change-lookup t id f s e = rw (e, text_eq_refl id, change)

-- The sensor behind an accepted METRIC.
abbrev pub measured : Double → Text → Sensor → Sensor
measured value ts s = with_level (level_of s.type value) (report value ts s)

-- An accepted METRIC answers 200 OK, changes the sensor, puts its metric in front of the
-- others, and an alert if the value is anomalous.
pub metric-measured :
    (strtod : Text → Strtod) (g : GlobalState) (command id value_str ts : Text) (s : Sensor)
    (value : Double)
    → IsValid g
    → entry g id ≡ some s
    → is_status_active s.status ≡ true
    → parse_double strtod (some value_str) ≡ some value
    → is_valid_timestamp (some ts) ≡ true
    → let (g', reply) = run (handle_metric strtod (command ∷ id ∷ value_str ∷ ts ∷ [])) g in
      (reply ≡ codes "200 OK")
      × (entry g' id ≡ some (measured value ts s))
      × (recent_metrics g'
          ≡ take max_metrics
              (stored_metric id value ts (sensor_type_to_str s.type) ∷ recent_metrics g))
      × (recent_alerts g' ≡ alerted id s.type value ts (recent_alerts g))
metric-measured strtod g command id value_str ts s value v e a p t =
    let (r, table, metrics, alerts) =
      rw (e, a, p, t) at (handle_metric-Stored g id ts v strtod command value_str) in
    let found : entry (run (handle_metric strtod (command ∷ id ∷ value_str ∷ ts ∷ [])) g).0 id
        ≡ some (measured value ts s) =
      ap (λ (t : Table). t.lookup id) table
      ∙ change-lookup (change id (report value ts) (view g)).0 id
          (with_level (level_of s.type value)) (report value ts s)
          (change-lookup (view g) id (report value ts) s e) in
    (r, found, metrics, alerts)

-- A METRIC of an active sensor with a value and a timestamp that are valid is answered by 200 OK, and
-- a STATUS that comes next shows the identifier, status and type of the sensor as they were, and the
-- new value, timestamp and level.
pub status_after_metric :
    (strtod : Text → Strtod) (g : GlobalState) (metric_command command id value_str ts : Text)
    (s : Sensor) (value : Double)
    → IsValid g
    → entry g id ≡ some s
    → is_status_active s.status ≡ true
    → parse_double strtod (some value_str) ≡ some value
    → is_valid_timestamp (some ts) ≡ true
    → let (g', reply) = run (handle_metric strtod (metric_command ∷ id ∷ value_str ∷ ts ∷ [])) g in
      (reply ≡ codes "200 OK")
      × (run (handle_status (command ∷ id ∷ [])) g'
          ≡ (g', printed (status_line (measured value ts s))))
status_after_metric strtod g metric_command command id value_str ts s value v e a p t =
    let g' = (run (handle_metric strtod (metric_command ∷ id ∷ value_str ∷ ts ∷ [])) g).0 in
    let (r, found, _, _) =
      metric-measured strtod g metric_command id value_str ts s value v e a p t in
    (r, handle_status-found g' command id (measured value ts s) found)
