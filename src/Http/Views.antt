-- ===== src/Http/Views.antt =====
-- Which alerts and metrics the pages show.
use iot_services_monitoring.Common.{
  ℕ, zero, suc, ◌+◌, ◌≤◌, List, [], ◌∷◌, arith, length, map, get_or, All,
}
use iot_services_monitoring.Double.{print_2f}
use iot_services_monitoring.State.{
  Alert, GlobalState, max_metrics, max_alerts, zero_metric, zero_alert,
}
use iot_services_monitoring.State.Inv.{IsValid, MetricFits, AlertFits}
use iot_services_monitoring.State.Recent.{back, newest, recent_metrics, recent_alerts}
use iot_services_monitoring.Http.Tables.{
  metrics_header, alerts_header, metric_row, alert_row, metrics_page, alerts_page,
}
use iot_services_monitoring.Http.Fit.{IsRow, Shown, fill-Shown}
use iot_services_monitoring.Http.Sizes.{
  length-metrics_header, length-alerts_header, length-metric_row, length-alert_row,
}

-- What holds of all cells holds of those read.
module _ {ℓ κ} {A : Type ℓ} (P : A → Type κ) (d : A) (p : P d) where
  All-get_or : (cells : List A) (i : ℕ) → All P cells → P (get_or cells i d)
  All-get_or [] i h = p
  All-get_or (x ∷ xs) zero h = h.0
  All-get_or (x ∷ xs) (suc i) h = All-get_or xs i h.1

  All-newest :
      (cap : ℕ) (cells : List A) (next j n : ℕ) → All P cells → All P (newest cap d cells next j n)
  unfolding newest
  All-newest cap cells next j zero h = tt
  All-newest cap cells next j (suc n) h =
      (All-get_or cells (back cap next j) h, All-newest cap cells next (j + 1) n h)

All-both {ℓ κ μ} :
    {A : Type ℓ} (P : A → Type κ) (Q : A → Type μ) (xs : List A)
    → All P xs
    → All Q xs
    → All (λ x. P x × Q x) xs
All-both P Q [] h k = tt
All-both P Q (x ∷ xs) h k = ((h.0, k.0), All-both P Q xs h.1 k.1)

All-map {ℓ κ μ ν} :
    {A : Type ℓ} {B : Type κ} {P : A → Type μ} (Q : B → Type ν) (f : A → B) (xs : List A)
    → ((x : A) → P x → Q (f x))
    → All P xs
    → All Q (map f xs)
All-map Q f [] k h = tt
All-map Q f (x ∷ xs) k h = (k x h.0, All-map Q f xs k h.1)

-- On a valid state, /metrics shows its header, the newest metrics row by row, each row whole, and the
-- end of the table: all metrics, or as many as reach the size at which the loop stops. It never
-- writes outside its buffer. `count` is what was read before.
pub metrics_page-Shown :
    {g : GlobalState} (count : ℕ)
    → IsValid g
    → count ≤ max_metrics
    → Shown (metrics_header count) (map metric_row (recent_metrics g)) (metrics_page count g)
unfolding metrics_page
metrics_page-Shown {g} count v h =
    let fits =
      All-newest MetricFits zero_metric (omega arith, omega arith, omega arith) max_metrics
        g.metrics g.metric_next 0 g.metric_count v.metrics_fit in
    fill-Shown (metrics_header count) (map metric_row (recent_metrics g))
      (omega (arith, length-metrics_header count (omega arith)))
      (All-map IsRow metric_row (recent_metrics g) (λ m f. omega (arith, length-metric_row m f))
        fits)

-- A value and a threshold that do not take more than 51 bytes in print.
abbrev pub IsShort : Alert → Type 0
IsShort a = length (print_2f a.value) + length (print_2f a.threshold) ≤ 51

abbrev IsUsual : Alert → Type 0
IsUsual a = AlertFits a × IsShort a

zero_alert-IsUsual : IsUsual zero_alert
unfolding print_2f
zero_alert-IsUsual = ((omega arith, omega arith, omega arith, omega arith), omega arith)

-- The same of /alerts, if no alert has a value of more than some 40 digits.
pub alerts_page-Shown :
    {g : GlobalState} (count : ℕ)
    → IsValid g
    → count ≤ max_alerts
    → All IsShort g.alerts
    → Shown (alerts_header count) (map alert_row (recent_alerts g)) (alerts_page count g)
unfolding alerts_page
alerts_page-Shown {g} count v h short =
    let cells = All-both AlertFits IsShort g.alerts v.alerts_fit short in
    let rows =
      All-newest IsUsual zero_alert zero_alert-IsUsual max_alerts g.alerts g.alert_next 0
        g.alert_count cells in
    fill-Shown (alerts_header count) (map alert_row (recent_alerts g))
      (omega (arith, length-alerts_header count (omega arith)))
      (All-map IsRow alert_row (recent_alerts g) (λ a f. omega (arith, length-alert_row a f.0, f.1))
        rows)
