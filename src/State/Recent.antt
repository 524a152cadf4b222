-- ===== src/State/Recent.antt =====
-- A circular table as its contents from the newest to the oldest, which is the order in which
-- http_server.c lists metrics and alerts: j steps back from the next slot to write.
pub mod Push
pub mod Tables
use iot_services_monitoring.Common.{ℕ, zero, suc, ◌+◌, ◌-◌, ◌%◌, List, [], ◌∷◌, get_or}
use iot_services_monitoring.State.{
  Metric, Alert, GlobalState, max_metrics, max_alerts, zero_metric, zero_alert,
}

-- (next - 1 - j + cap) % cap
abbrev pub back : ℕ → ℕ → ℕ → ℕ
back cap next j = (next + cap - (1 + j)) % cap

module _ {ℓ} {A : Type ℓ} (cap : ℕ) (d : A) (cells : List A) (next : ℕ) where
  -- The `n` cells from the j-th newest on; `d` stands for a read outside the array.
  unfoldable pub newest : ℕ → ℕ → List A
  newest j zero = []
  newest j (suc n) = get_or cells (back cap next j) d ∷ newest (j + 1) n

abbrev pub recent_metrics : GlobalState → List Metric
recent_metrics g = newest max_metrics zero_metric g.metrics g.metric_next 0 g.metric_count

abbrev pub recent_alerts : GlobalState → List Alert
recent_alerts g = newest max_alerts zero_alert g.alerts g.alert_next 0 g.alert_count
