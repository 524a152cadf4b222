-- ===== src/Calls/Invariant.antt =====
-- Whatever the threads call, and in whatever order, the shared state keeps its invariant.
use mathlib.Core.Path.{subst}
use iot_services_monitoring.Common.{List, [], ◌∷◌, ◌≡◌, refl}
use iot_services_monitoring.State.{GlobalState, state_init}
use iot_services_monitoring.State.Inv.{IsValid}
use iot_services_monitoring.State.Inv.Keeps.{
  state_init-IsValid, state_register_sensor-IsValid, state_add_metric-IsValid,
  state_add_alert-IsValid, state_deactivate_sensor-IsValid, state_set_alert_level-IsValid,
}
use iot_services_monitoring.Calls.{
  Call, register_sensor, find_sensor, add_metric, add_alert, deactivate_sensor, set_alert_level,
  get_sensor_count, get_active_sensor_count, get_alert_count, get_metric_count, read_state, exec,
  exec_all, Program, ret, call, run, run_among,
}

pub exec-IsValid : (c : Call) {g : GlobalState} → IsValid g → IsValid (exec c g).0
exec-IsValid (register_sensor id type) v = state_register_sensor-IsValid v id type
exec-IsValid (find_sensor id) v = v
exec-IsValid (add_metric id value ts ty) v = state_add_metric-IsValid v id value ts ty
exec-IsValid (add_alert id value thr ts ty msg) v = state_add_alert-IsValid v id value thr ts ty msg
exec-IsValid (deactivate_sensor id) v = state_deactivate_sensor-IsValid v id
exec-IsValid (set_alert_level id level) v = state_set_alert_level-IsValid v id level
exec-IsValid get_sensor_count v = v
exec-IsValid get_active_sensor_count v = v
exec-IsValid get_alert_count v = v
exec-IsValid get_metric_count v = v
exec-IsValid read_state v = v

pub exec_all-IsValid : (cs : List Call) {g : GlobalState} → IsValid g → IsValid (exec_all cs g)
unfolding exec_all
exec_all-IsValid [] v = v
exec_all-IsValid (c ∷ cs) v = exec_all-IsValid cs (exec-IsValid c v)

-- Every state that any interleaving of the threads' calls reaches from state_init is valid.
pub reachable-IsValid : (cs : List Call) → IsValid (exec_all cs state_init)
reachable-IsValid cs = exec_all-IsValid cs state_init-IsValid

pub run_among-IsValid :
    {A : Type 0} (p : Program A) (others : List (List Call)) {g : GlobalState}
    → IsValid g
    → IsValid (run_among p others g).0
unfolding run_among
run_among-IsValid (ret a) others v = v
run_among-IsValid (call c k) [] {g} v = run_among-IsValid (k (exec c g).1) [] (exec-IsValid c v)
run_among-IsValid (call c k) (cs ∷ others) {g} v =
    run_among-IsValid (k (exec c (exec_all cs g)).1) others (exec-IsValid c (exec_all-IsValid cs v))

pub run_among-alone : {A : Type 0} (p : Program A) (g : GlobalState) → run_among p [] g ≡ run p g
unfolding run_among run
run_among-alone (ret a) g = refl
run_among-alone (call c k) g = run_among-alone (k (exec c g).1) (exec c g).0

-- A handler that runs alone keeps the invariant.
pub run-IsValid : {A : Type 0} (p : Program A) {g : GlobalState} → IsValid g → IsValid (run p g).0
run-IsValid p {g} v = subst (λ r. IsValid r.0) (run_among-alone p g) (run_among-IsValid p [] v)
