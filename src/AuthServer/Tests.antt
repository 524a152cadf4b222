-- ===== src/AuthServer/Tests.antt =====
-- The authentication service at concrete users.
use iot_services_monitoring.Common.{
  ◌≡◌, refl, ap, true, false, [], ◌∷◌, ◌++◌, Option, none, some, drop, All, arith,
}
use iot_services_monitoring.Text.{Text, codes, before, strstr, starts_with, is_digit, text_eq}
use iot_services_monitoring.Text.Search.{before_whole, lacks_sound}
use iot_services_monitoring.Utils.{closed}
use iot_services_monitoring.Python.{strip_left, strip_right}
use iot_services_monitoring.Calls.{ret}
use iot_services_monitoring.Config.{concat}
use iot_services_monitoring.Main.{default_config}
use iot_services_monitoring.Auth.{Network}
use iot_services_monitoring.Auth.Answers.{known, unknown, Exchanged}
use iot_services_monitoring.Http.Pages.{welcome_page}
use iot_services_monitoring.Http.Requests.{ok, responded, served, handle_http_request}
use iot_services_monitoring.Http.Routes.{get_line}
use iot_services_monitoring.Http.Answers.{login_path}
use iot_services_monitoring.AuthServer.{role_of, auth}
use iot_services_monitoring.AuthServer.Logins.{IsUnreserved, plain_words, login_of_users}

-- request.args.get("user") on a query that begins with the parameter and escapes nothing.
abbrev args_get : Text → Option Text
args_get query = some (before b'&' (drop 5 query))

args_get-plain : (u : Text) → All IsUnreserved u → args_get (codes "user=" ++ u) ≡ some u
args_get-plain u h = ap some (before_whole b'&' u (plain_words u h).1)

auth_tests :
    (auth args_get (codes "user=admin") ≡ some (known (codes "operator")))
    × (auth args_get (codes "user=eve") ≡ some unknown)
    × (auth args_get (codes "user= operator2\t&x=1") ≡ some (known (codes "operator")))
    × (auth args_get (codes "user= ") ≡ none)
unfolding auth role_of strip_left strip_right text_eq before
auth_tests = (refl, refl, refl, refl)

abbrev service : Network
service = record {
  getaddrinfo = none;
  socket_ok = true;
  connect_ok = true;
  send_ok = true;
  recv = codes "HTTP/1.1 200 OK\r\n\r\n{\"exists\":true,\"role\":\"operator\"}\n" ∷ [];
}

service-Exchanged : Exchanged service (known (codes "operator"))
unfolding concat strstr starts_with
service-Exchanged = record {
  head = codes "HTTP/1.1 200 OK";
  spaced = false;
  resolved = refl;
  opened = refl;
  connected = refl;
  sent = refl;
  not_closed = ((λ e. cc), tt);
  arrived = refl;
  fits = omega arith;
  head_end = refl;
  no_nul = lacks_sound 0 (concat service.recv) refl;
  plain = lacks_sound b'"' (codes "operator") refl;
}

login_of_users_example :
    handle_http_request default_config service (record {
      bytes = (get_line (login_path (codes "admin")) (codes "HTTP/1.1") ++ (13 ∷ [])) ++ (10 ∷ []);
      ending = closed;
    })
    ≡ ret (
        served
          (get_line (login_path (codes "admin")) (codes "HTTP/1.1"))
          (responded (ok (welcome_page (codes "admin") (codes "operator")))))
unfolding auth role_of strip_left strip_right text_eq before is_digit
login_of_users_example =
    login_of_users args_get default_config service (codes "admin") [] closed
      (known (codes "operator")) args_get-plain (λ e. cc) (omega arith)
      (refl, (refl, (refl, (refl, (refl, tt))))) refl service-Exchanged
