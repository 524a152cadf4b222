-- ===== src/Http/Requests.antt =====
-- handle_http_request and the routes: a request is a program over the shared state, with the
-- configuration and the network of the authentication query as arguments.
use iot_services_monitoring.Common.{
  ℕ, zero, suc, Bool, true, false, not, ◌||◌, List, [], ◌∷◌, ◌++◌, Option, none, some, ℤ, pos,
  negsuc, length, drop, ◌==◌, if◌then◌else◌,
}
use iot_services_monitoring.Text.{Text, codes, text_eq, strstr, strchr, before, c_string}
use iot_services_monitoring.Text.Tokens.{tokenize}
use iot_services_monitoring.Utils.{Incoming, recv_line, buffer_size}
use iot_services_monitoring.State.{max_id_len, copy_text}
use iot_services_monitoring.Calls.{
  Program, ret, request, get_sensor_count, get_active_sensor_count, get_alert_count,
  get_metric_count, read_state, ◌>>=◌,
}
use iot_services_monitoring.Config.{ServerConfig}
use iot_services_monitoring.Auth.{AuthResult, Network, auth_check_user}
use iot_services_monitoring.Http.{Response}
use iot_services_monitoring.Http.Pages.{
  home_page, missing_user_page, auth_error_page, denied_page, welcome_page, dashboard_page,
  not_found_page,
}
use iot_services_monitoring.Http.Tables.{alerts_page, metrics_page}
use iot_services_monitoring.Http.Sensors.{sensors_page}

abbrev pub ok : Text → Response
ok body = record { status_code = 200; status_text = codes "OK"; body = body }

abbrev pub bad_request : Text → Response
bad_request body = record { status_code = 400; status_text = codes "Bad Request"; body = body }

-- What a route does: it responds, or it writes outside its buffer.
pub data Served : Type 0 where
  responded : Response → Served
  overrun : Served

abbrev pub table_response : Option Text → Served
table_response none = overrun
table_response (some body) = responded (ok body)

-- The value of "user=" in the query string, up to an '&'; empty where there is none.
unfoldable pub username_of : Option Text → Text
unfolding strstr before
username_of none = []
username_of (some query) = elim (strstr query (codes "user=")) [
  | none ↦ []
  | some user_param ↦ before b'&' (copy_text (drop 5 user_param) max_id_len)
]

abbrev pub login_response : Text → AuthResult → Response
login_response username auth =
    if auth.error
    then record {
      status_code = 500;
      status_text = codes "Internal Server Error";
      body = auth_error_page auth.error_msg;
    }
    else if not auth.exists
    then record {
      status_code = 401;
      status_text = codes "Unauthorized";
      body = denied_page username;
    }
    else ok (welcome_page username auth.role)

abbrev pub login : ServerConfig → Network → Text → Response
login config net [] = bad_request missing_user_page
login config net (c ∷ cs) = login_response (c ∷ cs) (auth_check_user config net (some (c ∷ cs)))

unfoldable pub route_login : ServerConfig → Network → Option Text → Program Served
unfolding username_of auth_check_user
route_login config net query = ret (responded (login config net (username_of query)))

unfoldable pub route_dashboard : Program Served
route_dashboard = do
  total ← request get_sensor_count
  active ← request get_active_sensor_count
  alerts ← request get_alert_count
  metrics ← request get_metric_count
  ret (responded (ok (dashboard_page total active alerts metrics)))

unfoldable pub route_sensors : Program Served
unfolding sensors_page
route_sensors = do g ← request read_state; ret (table_response (sensors_page g))

unfoldable pub route_alerts : Program Served
unfolding alerts_page
route_alerts = do
  count_snapshot ← request get_alert_count
  g ← request read_state
  ret (table_response (alerts_page count_snapshot g))

unfoldable pub route_metrics : Program Served
unfolding metrics_page
route_metrics = do
  count_snapshot ← request get_metric_count
  g ← request read_state
  ret (table_response (metrics_page count_snapshot g))

abbrev pub not_found : Response
not_found = record { status_code = 404; status_text = codes "Not Found"; body = not_found_page }

-- The routes by the path.
unfoldable pub route : ServerConfig → Network → Text → Option Text → Program Served
unfolding text_eq route_login route_dashboard route_sensors route_alerts route_metrics
route config net path query =
    if text_eq path (codes "/")
    then ret (responded (ok home_page))
    else if text_eq path (codes "/login")
    then route_login config net query
    else if text_eq path (codes "/dashboard")
    then route_dashboard
    else if text_eq path (codes "/sensors")
    then route_sensors
    else if text_eq path (codes "/alerts")
    then route_alerts
    else if text_eq path (codes "/metrics")
    then route_metrics
    else ret (responded not_found)

-- `*query = '\0'; query++`
abbrev pub query_of : Option Text → Option Text
query_of none = none
query_of (some q) = some (drop 1 q)

unfoldable pub parse_request : ServerConfig → Network → List Text → Program Served
unfolding text_eq strchr before route
parse_request config net (method ∷ path ∷ _) =
    if not (text_eq method (codes "GET"))
    then ret (
        responded (
          bad_request (
            codes "<h1>400 Bad Request "
            ++ (0xe2 ∷ 0x80 ∷ 0x94 ∷ [])
            ++ codes " Only GET supported</h1>")))
    else route config net (before b'?' path) (query_of (strchr path b'?'))
parse_request config net _ = ret (responded (bad_request (codes "<h1>400 Bad Request</h1>")))

-- strtok_r's delimiter " ".
abbrev pub is_blank : ℕ → Bool
is_blank c = c == 32

-- The method and the path, by two calls of strtok_r.
unfoldable pub serve : ServerConfig → Network → Text → Program Served
unfolding tokenize parse_request
serve config net req_line = parse_request config net (tokenize is_blank 2 req_line)

-- The result of a call of recv_line is not positive.
abbrev pub is_last : ℤ → Bool
is_last (pos zero) = true
is_last (pos (suc _)) = false
is_last (negsuc _) = true

abbrev pub is_empty : Text → Bool
is_empty [] = true
is_empty (_ ∷ _) = false

-- The loop over the headers: what is left of the input. `none` when the rounds run out.
unfoldable pub skip_headers : ℕ → Incoming → Option Incoming
unfolding recv_line before
skip_headers zero inc = none
skip_headers (suc fuel) inc =
    let (hn, header_line, left) = recv_line buffer_size inc in
    let rest = skip_headers fuel left in
    if is_last hn || is_empty (c_string header_line) then some left else rest

-- `hung_up`: no request line came. `out_of_fuel` is the model's own.
pub data Outcome : Type 0 where
  hung_up out_of_fuel : Outcome
  served : Text → Served → Outcome

-- The headers are read to their end, and not used.
abbrev pub serve_after : ServerConfig → Network → Text → Option Incoming → Program Outcome
serve_after config net req_line none = ret out_of_fuel
serve_after config net req_line (some left) = do
  s ← serve config net req_line
  ret (served req_line s)

abbrev pub answer_request : ServerConfig → Network → ℤ × Text × Incoming → Program Outcome
answer_request config net (negsuc _, buf, left) = ret hung_up
answer_request config net (pos zero, buf, left) = ret hung_up
answer_request config net (pos (suc _), buf, left) =
    serve_after config net (c_string buf) (skip_headers (suc (length left.bytes)) left)

unfoldable pub handle_http_request : ServerConfig → Network → Incoming → Program Outcome
unfolding recv_line skip_headers serve
handle_http_request config net inc = answer_request config net (recv_line buffer_size inc)
