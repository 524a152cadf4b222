-- ===== src/Threads.antt =====
-- The whole server as a step relation: the threads that the accept loops of sensor_server.c and
-- http_server.c start, one for each connection, over one shared state. A step is one call of state.c
-- by one thread, whole under g_state.lock, or the start of a thread.
mod Tests
pub mod Runs
pub mod Invariant
pub mod Outcomes
use iot_services_monitoring.Common.{ℕ, ◌≡◌, List, [], ◌∷◌, ◌++◌, ◌⊎◌, some, set, get_elem?}
use iot_services_monitoring.Text.{Text}
use iot_services_monitoring.Utils.{Strtod, Incoming}
use iot_services_monitoring.State.{GlobalState, state_init}
use iot_services_monitoring.Calls.{Call, Reply, exec, Program, call, ret, ◌>>=◌}
use iot_services_monitoring.Config.{ServerConfig}
use iot_services_monitoring.Auth.{Network}
use iot_services_monitoring.Http.Requests.{Outcome, handle_http_request}
use iot_services_monitoring.Smp.{Transcript, handle_sensor_connection}

-- What a thread is when it ends.
pub data Finished : Type 0 where
  sensor_done : Transcript → Finished
  http_done : Outcome → Finished

-- What a connection brings: its bytes, and for HTTP what the authentication service's connection does.
pub data Connection : Type 0 where
  sensor_connection : Incoming → Connection
  http_connection : Network → Incoming → Connection

-- The rest of what each thread does, and the shared state.
pub record System : Type 0 where
  pub state : GlobalState
  pub threads : List (Program Finished)

abbrev pub sensor_thread : (Text → Strtod) → Incoming → Program Finished
sensor_thread strtod inc = do t ← handle_sensor_connection strtod inc; ret (sensor_done t)

abbrev pub http_thread : ServerConfig → Network → Incoming → Program Finished
http_thread c net inc = do o ← handle_http_request c net inc; ret (http_done o)

module _ (strtod : Text → Strtod) (g_config : ServerConfig) where
  abbrev pub thread_of : Connection → Program Finished
  thread_of (sensor_connection inc) = sensor_thread strtod inc
  thread_of (http_connection net inc) = http_thread g_config net inc

  pub data Step (s : System) : System → Type 0 where
    accept :
        (connection : Connection)
        → Step s (record s { threads = s.threads ++ (thread_of connection ∷ []) })
    advance :
        (i : ℕ) (c : Call) (k : Reply c → Program Finished)
        → get_elem? s.threads i ≡ some (call c k)
        → Step s (record {
          state = (exec c s.state).0;
          threads = set s.threads i (k (exec c s.state).1);
        })

  -- Behind state_init no thread runs.
  pub data Reach : System → Type 0 where
    start : Reach (record { state = state_init; threads = [] })
    later : {s t : System} → Reach s → Step s t → Reach t
