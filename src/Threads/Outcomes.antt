-- ===== src/Threads/Outcomes.antt =====
-- How the threads of the server end.
use mathlib.Core.Path.{subst}
use iot_services_monitoring.Common.{ℕ, suc, ◌≡◌, ◌≢◌, length, some, get_elem?, arith}
use iot_services_monitoring.Text.{Text}
use iot_services_monitoring.Utils.{Strtod, recv_line, buffer_size}
use iot_services_monitoring.Calls.{ret}
use iot_services_monitoring.Calls.Always.{Always, Always->>=, Always-pair, Always-run_among}
use iot_services_monitoring.Config.{ServerConfig}
use iot_services_monitoring.Http.Requests.{Outcome, handle_http_request}
use iot_services_monitoring.Http.Statuses.{ServedProperly, handle_http_request-ServedProperly}
use iot_services_monitoring.Http.Routes.{answer_request-Ends}
use iot_services_monitoring.Smp.{Finish, Transcript, handle_sensor_connection}
use iot_services_monitoring.Smp.Replies.{
  AnsweredProperly, handle_sensor_connection-AnsweredProperly,
}
use iot_services_monitoring.Smp.Session.{session-Ends}
use iot_services_monitoring.Threads.{
  Finished, sensor_done, http_done, Connection, sensor_connection, http_connection, System, Reach,
  thread_of,
}
use iot_services_monitoring.Threads.Invariant.{outcome-run_among}

-- The rounds that the model allows were enough, and every response has a code of its protocol.
abbrev pub IsProper : Finished → Type 0
IsProper (sensor_done t) = (t.finish ≢ Finish.out_of_fuel) × AnsweredProperly t
IsProper (http_done o) = (o ≢ Outcome.out_of_fuel) × ServedProperly o

thread_of-IsProper :
    (strtod : Text → Strtod) (g_config : ServerConfig) (connection : Connection)
    → Always IsProper (thread_of strtod g_config connection)
unfolding handle_sensor_connection handle_http_request
thread_of-IsProper strtod g_config (sensor_connection inc) =
    Always->>= (λ (t : Transcript). (t.finish ≢ Finish.out_of_fuel) × AnsweredProperly t) IsProper
      (handle_sensor_connection strtod inc) _
      (Always-pair _ _ (handle_sensor_connection strtod inc)
        (session-Ends strtod (suc (length inc.bytes)) inc (omega arith))
        (handle_sensor_connection-AnsweredProperly strtod inc))
      (λ t h. h)
thread_of-IsProper strtod g_config (http_connection net inc) =
    Always->>= (λ (o : Outcome). (o ≢ Outcome.out_of_fuel) × ServedProperly o) IsProper
      (handle_http_request g_config net inc) _
      (Always-pair _ _ (handle_http_request g_config net inc)
        (answer_request-Ends g_config net (recv_line buffer_size inc))
        (handle_http_request-ServedProperly g_config net inc))
      (λ o h. h)

-- In every state that the server reaches, each thread that has ended had rounds enough, and each of
-- its responses has a code of its protocol: SMP 1.0 for a sensor, and for an operator one of 200, 400,
-- 401, 404 and 500.
pub reach-IsProper :
    (strtod : Text → Strtod) (g_config : ServerConfig) {s : System} (i : ℕ) (a : Finished)
    → Reach strtod g_config s
    → get_elem? s.threads i ≡ some (ret a)
    → IsProper a
reach-IsProper strtod g_config i a r e =
    let (connection, g, others, valid, same) = outcome-run_among strtod g_config i a r e in
    subst IsProper same (
      Always-run_among IsProper (thread_of strtod g_config connection) others g
        (thread_of-IsProper strtod g_config connection))
