-- ===== src/Auth/Tests.antt =====
-- A query whose answer comes in two pieces, the request, and witnesses.
use iot_services_monitoring.Common.{◌≡◌, refl, [], ◌∷◌, none, some, true, arith, pos}
use iot_services_monitoring.Text.{codes, strstr, starts_with}
use iot_services_monitoring.Text.Search.{lacks_sound}
use iot_services_monitoring.Config.{ServerConfig, concat}
use iot_services_monitoring.Auth.{Network, auth_request, auth_check_user}
use iot_services_monitoring.Auth.Answers.{known, Exchanged}
use iot_services_monitoring.Auth.Results.{GoodResult, auth_check_user-GoodResult}

abbrev config : ServerConfig
config = record {
  sensor_port = pos 9090;
  http_port = pos 8080;
  auth_host = codes "auth";
  auth_port = pos 5000;
  log_dir = codes "logs";
}

auth_request_test :
    auth_request config (codes "admin")
    ≡ codes "GET /auth?user=admin HTTP/1.1\r\nHost: auth\r\nConnection: close\r\n\r\n"
unfolding auth_request
auth_request_test = refl

abbrev service : Network
service = record {
  getaddrinfo = none;
  socket_ok = true;
  connect_ok = true;
  send_ok = true;
  recv =
      codes "HTTP/1.1 200 OK\r" ∷ codes "\n\r\n{\"exists\": true, \"role\": \"operator\"}\n" ∷ [];
}

service-Exchanged : Exchanged service (known (codes "operator"))
unfolding concat strstr starts_with
service-Exchanged = record {
  head = codes "HTTP/1.1 200 OK";
  spaced = true;
  resolved = refl;
  opened = refl;
  connected = refl;
  sent = refl;
  not_closed = ((λ e. cc), ((λ e. cc), tt));
  arrived = refl;
  fits = omega arith;
  head_end = refl;
  no_nul = lacks_sound 0 (concat service.recv) refl;
  plain = lacks_sound b'"' (codes "operator") refl;
}

auth_check_user-GoodResult_example :
    GoodResult (auth_check_user config service (some (codes "admin")))
auth_check_user-GoodResult_example =
    auth_check_user-GoodResult config service (some (codes "admin"))
