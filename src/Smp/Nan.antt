-- ===== src/Smp/Nan.antt =====
-- A METRIC whose value is a NaN, which strtod reads from "nan".
use iot_services_monitoring.Common.{
  ◌≡◌, refl, ap, ◌∙◌, Bool, true, false, not, ltb, ◌&&◌, [], ◌∷◌, some,
}
use iot_services_monitoring.Text.{Text, codes}
use iot_services_monitoring.Double.{Double, is_nan, double_lt, order_key}
use iot_services_monitoring.Utils.{Strtod, parse_double, is_valid_timestamp}
use iot_services_monitoring.State.{
  GlobalState, Sensor, SensorType, sensor_temp, sensor_vib, sensor_power, sensor_type_invalid,
  is_status_active, alert_normal,
}
use iot_services_monitoring.State.Inv.{IsValid}
use iot_services_monitoring.State.Registry.{change, report, with_level, view, entry}
use iot_services_monitoring.State.Recent.{recent_alerts}
use iot_services_monitoring.Calls.{run}
use iot_services_monitoring.Alerts.Rules.{is_anomalous, seventy, fifty, ten, hundred}
use iot_services_monitoring.Smp.{handle_metric}
use iot_services_monitoring.Smp.Metrics.{handle_metric-Stored}

never : (b c : Bool) → ((b && false) && c) ≡ false
never true c = refl
never false c = refl

-- A NaN is neither below nor above.
nan-below : (a b : Double) → is_nan b ≡ true → double_lt a b ≡ false
unfolding double_lt
nan-below a b h =
    ap (λ t. (not (is_nan a) && not t) && ltb (order_key a) (order_key b)) h
    ∙ never (not (is_nan a)) _

nan-above : (a b : Double) → is_nan a ≡ true → double_lt a b ≡ false
unfolding double_lt
nan-above a b h = ap (λ t. (not t && not (is_nan b)) && ltb (order_key a) (order_key b)) h

is_anomalous-nan :
    (type : SensorType) (value : Double) → is_nan value ≡ true → is_anomalous type value ≡ false
is_anomalous-nan sensor_temp value h = nan-below seventy value h
is_anomalous-nan sensor_vib value h = nan-below fifty value h
is_anomalous-nan sensor_power value h = rw (nan-above value ten h, nan-below hundred value h) refl
is_anomalous-nan sensor_type_invalid value h = refl

-- A METRIC of an active sensor, on a valid state, with a valid timestamp and a value that is a NaN is
-- answered by 200 OK and stored; no alert comes of it, and the sensor's level is NORMAL afterwards,
-- whatever it was.
pub nan_raises_no_alert :
    (strtod : Text → Strtod) (g : GlobalState) (command id value_str ts : Text) (s : Sensor)
    (value : Double)
    → IsValid g
    → entry g id ≡ some s
    → is_status_active s.status ≡ true
    → parse_double strtod (some value_str) ≡ some value
    → is_nan value ≡ true
    → is_valid_timestamp (some ts) ≡ true
    → let (g', reply) = run (handle_metric strtod (command ∷ id ∷ value_str ∷ ts ∷ [])) g in
      (reply ≡ codes "200 OK")
      × (recent_alerts g' ≡ recent_alerts g)
      × (view g' ≡ (change id (with_level alert_normal) (change id (report value ts) (view g)).0).0)
nan_raises_no_alert strtod g command id value_str ts s value v e a p n t =
    let calm = is_anomalous-nan s.type value n in
    let (reply, table, _, alerts) =
      rw (e, a, p, t) at (handle_metric-Stored g id ts v strtod command value_str) in
    (reply, rw calm at alerts, rw calm at table)
