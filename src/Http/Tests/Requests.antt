-- ===== src/Http/Tests/Requests.antt =====
-- Requests, and witnesses.
use iot_services_monitoring.Common.{◌≡◌, refl, ◌≢◌, true, false, [], ◌∷◌, ◌++◌, none, some, arith}
use iot_services_monitoring.Text.{
  Text, codes, starts_with, strstr, strchr, before, decimal, text_eq,
}
use iot_services_monitoring.Text.Search.{lacks_sound}
use iot_services_monitoring.State.{state_init}
use iot_services_monitoring.Config.{concat}
use iot_services_monitoring.Utils.{Incoming, closed}
use iot_services_monitoring.Calls.{ret, run_among}
use iot_services_monitoring.Main.{default_config}
use iot_services_monitoring.Auth.{Network}
use iot_services_monitoring.Auth.Answers.{known, Exchanged}
use iot_services_monitoring.Http.{Response, header_of, send_http_response}
use iot_services_monitoring.Http.Pages.{home_page}
use iot_services_monitoring.Http.Sending.{send_http_response_prefix}
use iot_services_monitoring.Http.Routes.{
  handle_http_request-ends, get_request-served, get_line, are_words_sound,
}
use iot_services_monitoring.Http.Requests.{
  out_of_fuel, served, responded, ok, handle_http_request, route, username_of,
}
use iot_services_monitoring.Http.Answers.{login_request, login_path, login_page}
use iot_services_monitoring.Http.Tests.{some_calls}

abbrev no_service : Network
no_service = record {
  getaddrinfo = some (codes "Name or service not known");
  socket_ok = true;
  connect_ok = true;
  send_ok = true;
  recv = [];
}

abbrev bytes_of : Text → Incoming
bytes_of s = record { bytes = s; ending = closed }

handle_http_request-ends_example :
    (run_among
      (handle_http_request default_config no_service
        (bytes_of (codes "GET / HTTP/1.1\r\nHost: a\r\n\r\n")))
      (some_calls ∷ [])
      state_init).1
    ≢ out_of_fuel
handle_http_request-ends_example =
    handle_http_request-ends default_config no_service
      (bytes_of (codes "GET / HTTP/1.1\r\nHost: a\r\n\r\n")) (some_calls ∷ []) state_init

get_request-served_example :
    handle_http_request default_config no_service (
      bytes_of
        ((get_line (codes "/") (codes "HTTP/1.1") ++ (13 ∷ [])) ++ (10 ∷ codes "Host: a\r\n\r\n")))
    ≡ ret (served (codes "GET / HTTP/1.1") (responded (ok home_page)))
unfolding route text_eq before strchr
get_request-served_example =
    get_request-served default_config no_service (codes "/") (codes "HTTP/1.1")
      (codes "Host: a\r\n\r\n") closed (λ e. cc) (are_words_sound (codes "/") refl)
      (are_words_sound (codes "HTTP/1.1") refl) (omega arith)

-- The answer of the service in two pieces.
abbrev service : Network
service = record {
  getaddrinfo = none;
  socket_ok = true;
  connect_ok = true;
  send_ok = true;
  recv =
      codes "HTTP/1.1 200 OK\r\nServer: W"
      ∷ codes "erkzeug\r\n\r\n{\"exists\":true,\"role\":\"operator\"}\n"
      ∷ [];
}

service-Exchanged : Exchanged service (known (codes "operator"))
unfolding concat strstr starts_with
service-Exchanged = record {
  head = codes "HTTP/1.1 200 OK\r\nServer: Werkzeug";
  spaced = false;
  resolved = refl;
  opened = refl;
  connected = refl;
  sent = refl;
  not_closed = ((λ e. cc), ((λ e. cc), tt));
  arrived = refl;
  fits = omega arith;
  head_end = refl;
  no_nul = lacks_sound 0 (concat service.recv) refl;
  plain = lacks_sound b'"' (codes "operator") refl;
}

login_request_example :
    handle_http_request default_config service (
      bytes_of
        ((get_line (login_path (codes "admin")) (codes "HTTP/1.1") ++ (13 ∷ [])) ++ (10 ∷ [])))
    ≡ ret (
        served
          (get_line (login_path (codes "admin")) (codes "HTTP/1.1"))
          (responded (login_page (codes "admin") (known (codes "operator")))))
login_request_example =
    login_request default_config service (codes "admin") [] closed (known (codes "operator"))
      (λ e. cc) (omega arith) (are_words_sound (codes "admin") refl)
      (lacks_sound b'&' (codes "admin") refl) service-Exchanged

abbrev small : Response
small = record { status_code = 200; status_text = codes "OK"; body = codes "<h1>" }

send_http_response_prefix_example :
    (rest : Text) × (send_http_response small (some 200 ∷ some 1 ∷ some 0 ∷ []) ++ rest
      ≡ header_of small ++ small.body)
unfolding header_of concat decimal
send_http_response_prefix_example =
    send_http_response_prefix small 200 (some 1 ∷ some 0 ∷ []) (omega arith)

-- The parameter is found inside another one's name.
superuser : username_of (some (codes "superuser=x&user=admin")) ≡ codes "x"
unfolding username_of strstr starts_with before
superuser = refl
