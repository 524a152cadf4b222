-- ===== src/Calls.antt =====
-- How the handlers of the server use the shared state: a handler is a program whose only effects are
-- calls of state.c, each atomic under g_state.lock; between two calls of one thread any calls of
-- other threads may come.
mod Tests
pub mod Invariant
pub mod Lifetime
pub mod Always
pub mod Rely
pub mod Service
use iot_services_monitoring.Common.{ℕ, Option, List, [], ◌∷◌, ℤ}
use iot_services_monitoring.Text.{Text}
use iot_services_monitoring.Double.{Double}
use iot_services_monitoring.State.{SensorType, AlertLevel, Sensor, GlobalState}
use iot_services_monitoring.State.Ops.{
  state_register_sensor, state_find_sensor, state_add_metric, state_add_alert,
  state_deactivate_sensor, state_set_alert_level, state_get_sensor_count,
  state_get_active_sensor_count, state_get_alert_count, state_get_metric_count,
}

-- `read_state` stands for a route of http_server.c that takes the lock itself and only reads.
pub data Call : Type 0 where
  register_sensor : Text → SensorType → Call
  find_sensor : Text → Call
  add_metric : Text → Double → Text → Text → Call
  add_alert : Text → Double → Double → Text → Text → Text → Call
  deactivate_sensor : Text → Call
  set_alert_level : Text → AlertLevel → Call
  get_sensor_count get_active_sensor_count get_alert_count get_metric_count : Call
  read_state : Call

-- What a call returns.
abbrev pub Reply : Call → Type 0
Reply (register_sensor id type) = ℤ
Reply (find_sensor id) = Option (ℕ × Sensor)
Reply (add_metric id value timestamp type_str) = ℤ
Reply (add_alert id value threshold timestamp type_str message) = Unit {0}
Reply (deactivate_sensor id) = ℤ
Reply (set_alert_level id level) = ℤ
Reply get_sensor_count = ℕ
Reply get_active_sensor_count = ℕ
Reply get_alert_count = ℕ
Reply get_metric_count = ℕ
Reply read_state = GlobalState

abbrev pub exec : (c : Call) → GlobalState → GlobalState × Reply c
exec (register_sensor id type) g = state_register_sensor id type g
exec (find_sensor id) g = (g, state_find_sensor id g)
exec (add_metric id value timestamp type_str) g = state_add_metric id value timestamp type_str g
exec (add_alert id value threshold timestamp type_str message) g =
    (state_add_alert id value threshold timestamp type_str message g, tt)
exec (deactivate_sensor id) g = state_deactivate_sensor id g
exec (set_alert_level id level) g = state_set_alert_level id level g
exec get_sensor_count g = (g, state_get_sensor_count g)
exec get_active_sensor_count g = (g, state_get_active_sensor_count g)
exec get_alert_count g = (g, state_get_alert_count g)
exec get_metric_count g = (g, state_get_metric_count g)
exec read_state g = (g, g)

pub data Program (A : Type 0) : Type 0 where
  ret : A → Program A
  call : (c : Call) → (Reply c → Program A) → Program A

infixl 5 ◌>>=◌ ◌>>◌
abbrev pub ◌>>=◌ : {A B : Type 0} → Program A → (A → Program B) → Program B
ret a >>= f = f a
call c k >>= f = call c (λ r. k r >>= f)

abbrev pub ◌>>◌ : {A B : Type 0} → Program A → Program B → Program B
m >> k = m >>= λ _. k

-- One call as a program.
abbrev pub request : (c : Call) → Program (Reply c)
request c = call c (λ r. ret r)

-- The calls of other threads, in some order.
unfoldable pub exec_all : List Call → GlobalState → GlobalState
exec_all [] g = g
exec_all (c ∷ cs) g = exec_all cs (exec c g).0

-- A thread run alone.
unfoldable pub run : {A : Type 0} → Program A → GlobalState → GlobalState × A
run (ret a) g = (g, a)
run (call c k) g = let (g', r) = exec c g in run (k r) g'

-- A thread run among others: `others` lists what the others call before each of its calls; past the
-- end of the list nobody else calls.
unfoldable pub run_among :
    {A : Type 0} → Program A → List (List Call) → GlobalState → GlobalState × A
unfolding exec_all
run_among (ret a) others g = (g, a)
run_among (call c k) [] g = let (g', r) = exec c g in run_among (k r) [] g'
run_among (call c k) (cs ∷ others) g =
    let (g', r) = exec c (exec_all cs g) in run_among (k r) others g'
