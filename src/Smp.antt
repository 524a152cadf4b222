-- ===== src/Smp.antt =====
-- server/src/sensor_handler.c: the protocol SMP 1.0 on one connection. A handler is a program over
-- the calls of state.c that returns the response; send_response sends it and logs it with the line
-- that it answers, so a session is the list of these pairs.
pub mod Session
pub mod Lifetime
pub mod Metrics
pub mod Register
pub mod Status
pub mod Values
pub mod Log
pub mod Replies
pub mod FullLines
pub mod Nan
mod Tests
use iot_services_monitoring.Common.{
  ℕ, zero, suc, ◌+◌, Bool, true, false, not, ◌||◌, List, [], ◌∷◌, ◌++◌, Option, none, some, length,
  take, ◌==◌, ℤ, pos, negsuc, is_negative, if◌then◌else◌,
}
use iot_services_monitoring.Text.{Text, codes, text_eq, before, c_string}
use iot_services_monitoring.Text.Tokens.{tokenize}
use iot_services_monitoring.Double.{print_2f}
use iot_services_monitoring.Utils.{
  Strtod, parse_double, is_valid_timestamp, Incoming, recv_line, buffer_size,
}
use iot_services_monitoring.State.{
  Sensor, sensor_type_from_str, sensor_type_to_str, sensor_status_to_str, alert_level_to_str,
  is_status_active, is_invalid_type,
}
use iot_services_monitoring.Calls.{
  Program, ret, request, register_sensor, find_sensor, add_metric, deactivate_sensor, ◌>>=◌, ◌>>◌,
}
use iot_services_monitoring.Alerts.{alerts_evaluate}

abbrev pub bad_request : Text
bad_request = codes "400 BAD_REQUEST"

-- snprintf into a buffer of BUFFER_SIZE bytes.
abbrev pub printed : Text → Text
printed s = take 4095 s

-- The switch of handle_register.
abbrev pub register_response : ℤ → Text → Text
register_response (pos zero) sensor_id = printed (codes "200 REGISTERED " ++ sensor_id)
register_response (pos (suc n)) sensor_id = codes "500 INTERNAL_ERROR"
register_response (negsuc zero) sensor_id = codes "500 INTERNAL_ERROR"
register_response (negsuc (suc zero)) sensor_id = codes "409 SENSOR_ALREADY_EXISTS"
register_response (negsuc (suc (suc zero))) sensor_id = codes "422 INVALID_SENSOR_TYPE"
register_response (negsuc (suc (suc (suc n)))) sensor_id = codes "500 INTERNAL_ERROR"

unfoldable pub handle_register : List Text → Program Text
handle_register (_ ∷ sensor_id ∷ type_str ∷ []) =
    let sensor_type = sensor_type_from_str (some type_str) in
    if is_invalid_type sensor_type then ret (codes "422 INVALID_SENSOR_TYPE") else do
      result ← request (register_sensor sensor_id sensor_type)
      ret (register_response result sensor_id)
handle_register _ = ret bad_request

-- handle_metric behind its checks of the sensor, the value and the timestamp.
abbrev pub store_metric : Text → ℕ → Sensor → Text → Program Text
store_metric sensor_id value sensor timestamp = do
  result ← request (add_metric sensor_id value timestamp (sensor_type_to_str sensor.type))
  if is_negative result
      then ret (codes "500 INTERNAL_ERROR")
      else do alerts_evaluate sensor_id value sensor.type timestamp; ret (codes "200 OK")

abbrev pub checked_metric :
    (Text → Strtod) → Text → Text → Text → Option (ℕ × Sensor) → Program Text
checked_metric strtod sensor_id value_str timestamp none = ret (codes "404 SENSOR_NOT_FOUND")
checked_metric strtod sensor_id value_str timestamp (some (idx, sensor)) =
    if not (is_status_active sensor.status)
    then ret (codes "403 SENSOR_NOT_REGISTERED")
    else elim (parse_double strtod (some value_str)) [
      | none ↦ ret (codes "422 INVALID_VALUE")
      | some value ↦
          if not (is_valid_timestamp (some timestamp))
          then ret bad_request
          else store_metric sensor_id value sensor timestamp
    ]

unfoldable pub handle_metric : (Text → Strtod) → List Text → Program Text
handle_metric strtod (_ ∷ sensor_id ∷ value_str ∷ timestamp ∷ []) = do
  found ← request (find_sensor sensor_id)
  checked_metric strtod sensor_id value_str timestamp found
handle_metric strtod _ = ret bad_request

abbrev pub status_response : Option (ℕ × Sensor) → Text
status_response none = codes "404 SENSOR_NOT_FOUND"
status_response (some (idx, sensor)) = printed (
    codes "200 STATUS "
    ++ (sensor.id
        ++ (codes " "
            ++ (sensor_status_to_str sensor.status
                ++ (codes " "
                    ++ (sensor_type_to_str sensor.type
                        ++ (codes " "
                            ++ (print_2f sensor.last_value
                                ++ (codes " "
                                    ++ (sensor.last_timestamp
                                        ++ (codes " "
                                            ++ alert_level_to_str sensor.alert_level)))))))))))

unfoldable pub handle_status : List Text → Program Text
handle_status (_ ∷ sensor_id ∷ []) = do
  found ← request (find_sensor sensor_id)
  ret (status_response found)
handle_status _ = ret bad_request

unfoldable pub handle_ping : List Text → Program Text
handle_ping (_ ∷ sensor_id ∷ []) = ret (codes "200 PONG")
handle_ping _ = ret bad_request

-- The response, and whether the loop is left.
unfoldable pub handle_quit : List Text → Program (Text × Bool)
handle_quit (_ ∷ sensor_id ∷ []) = do
  result ← request (deactivate_sensor sensor_id)
  ret (codes "200 BYE", true)
handle_quit _ = ret (bad_request, false)

abbrev pub stay : Program Text → Program (Text × Bool)
stay p = do response ← p; ret (response, false)

-- The comparisons of the loop's body with the five commands.
unfoldable pub dispatch : (Text → Strtod) → List Text → Program (Text × Bool)
unfolding text_eq handle_register handle_metric handle_status handle_ping handle_quit
dispatch strtod [] = ret (bad_request, false)
dispatch strtod (command ∷ args) =
    if text_eq command (codes "REGISTER")
    then stay (handle_register (command ∷ args))
    else if text_eq command (codes "METRIC")
    then stay (handle_metric strtod (command ∷ args))
    else if text_eq command (codes "STATUS")
    then stay (handle_status (command ∷ args))
    else if text_eq command (codes "PING")
    then stay (handle_ping (command ∷ args))
    else if text_eq command (codes "QUIT")
    then handle_quit (command ∷ args)
    else ret (bad_request, false)

-- strtok_r's delimiters " \t".
abbrev pub is_blank : ℕ → Bool
is_blank c = c == 32 || c == 9

unfoldable pub process_line : (Text → Strtod) → Text → Program (Text × Bool)
unfolding tokenize dispatch
process_line strtod line = dispatch strtod (tokenize is_blank 8 line)

-- How the loop is left; `out_of_fuel` is the model's own.
pub data Finish : Type 0 where
  disconnected read_error quit out_of_fuel : Finish

pub record Exchange : Type 0 where
  pub recv_msg : Text
  pub resp : Text

pub record Transcript : Type 0 where
  pub exchanges : List Exchange
  pub finish : Finish

abbrev pub ended : Finish → Transcript
ended f = record { exchanges = []; finish = f }

abbrev pub answered : Text → Text → Transcript → Transcript
answered recv_msg resp t = record t {
  exchanges = record { recv_msg = recv_msg; resp = resp } ∷ t.exchanges;
}

-- The response is sent; a QUIT that was answered leaves the loop, else `rest` goes on.
abbrev pub proceed : Text → Program Transcript → Text × Bool → Program Transcript
proceed recv_msg rest (resp, true) = ret (answered recv_msg resp (ended quit))
proceed recv_msg rest (resp, false) = do t ← rest; ret (answered recv_msg resp t)

-- The body of the loop of handle_sensor_connection, by what recv_line gives: a result that is not
-- positive ends it.
abbrev pub answer_line :
    (Text → Strtod) → (Incoming → Program Transcript) → ℤ × Text × Incoming → Program Transcript
answer_line strtod next (negsuc _, line, left) = ret (ended read_error)
answer_line strtod next (pos zero, line, left) = ret (ended disconnected)
answer_line strtod next (pos (suc _), line, left) =
    process_line strtod (c_string line) >>= proceed (c_string line) (next left)

unfoldable pub session : (Text → Strtod) → ℕ → Incoming → Program Transcript
unfolding process_line recv_line before
session strtod zero inc = ret (ended out_of_fuel)
session strtod (suc fuel) inc = answer_line strtod (session strtod fuel) (recv_line buffer_size inc)

-- Each round but the last takes a byte of the input at least.
unfoldable pub handle_sensor_connection : (Text → Strtod) → Incoming → Program Transcript
unfolding session
handle_sensor_connection strtod inc = session strtod (suc (length inc.bytes)) inc
