-- ===== src/Http/Answers.antt =====
-- What the routes answer.
use iot_services_monitoring.Common.{
  ℕ, ◌≤◌, ◌≡◌, refl, ap, ◌∙◌, ◌≢◌, inl, inr, false, List, [], ◌∷◌, ◌++◌, Option, some, arith,
  length, take, take_all, All, All-append, Bool-cases,
}
use iot_services_monitoring.Text.{Text, codes, text_eq, before, strstr, strchr}
use iot_services_monitoring.Text.Laws.{text_eq_iff}
use iot_services_monitoring.Text.Search.{before_whole}
use iot_services_monitoring.Utils.{Ending}
use iot_services_monitoring.State.{GlobalState, max_metrics}
use iot_services_monitoring.State.Inv.{IsValid}
use iot_services_monitoring.Calls.{Call, ret, run_among}
use iot_services_monitoring.Calls.Invariant.{exec_all-IsValid}
use iot_services_monitoring.Config.{ServerConfig}
use iot_services_monitoring.Auth.{Network}
use iot_services_monitoring.Auth.Answers.{Answer, known, unknown, Exchanged, auth_check_user-answer}
use iot_services_monitoring.Http.{Response}
use iot_services_monitoring.Http.Pages.{welcome_page, denied_page}
use iot_services_monitoring.Http.Tables.{metrics_page}
use iot_services_monitoring.Http.Sensors.{sensors_page}
use iot_services_monitoring.Http.Views.{metrics_page-Shown}
use iot_services_monitoring.Http.Inventory.{sensors_page_lem}
use iot_services_monitoring.Http.Requests.{
  Served, responded, overrun, ok, table_response, username_of, login, login_response, route_login,
  route_metrics, route_sensors, route, not_found, served, handle_http_request,
}
use iot_services_monitoring.Http.Routes.{are_words_sound, IsWord, get_line, get_request-served}

-- A page is there.
abbrev pub IsPage : Served → Type 0
IsPage (responded r) = r.status_code ≡ 200
IsPage overrun = ⊥

metrics_page-IsPage :
    {g : GlobalState} (count : ℕ)
    → IsValid g
    → count ≤ max_metrics
    → IsPage (table_response (metrics_page count g))
metrics_page-IsPage count v h =
    let shown = metrics_page-Shown count v h in rw (shown.page_text) refl

route_metrics-IsPage :
    (others : List (List Call)) {g : GlobalState}
    → IsValid g
    → IsPage (run_among route_metrics others g).1
unfolding route_metrics run_among
route_metrics-IsPage [] v = metrics_page-IsPage _ v v.metric_range.1
route_metrics-IsPage (cs ∷ []) v =
    let w = exec_all-IsValid cs v in metrics_page-IsPage _ w w.metric_range.1
route_metrics-IsPage (cs ∷ ds ∷ others) v =
    let w = exec_all-IsValid cs v in metrics_page-IsPage _ (exec_all-IsValid ds w) w.metric_range.1

sensors_page-IsPage : {g : GlobalState} → IsValid g → IsPage (table_response (sensors_page g))
sensors_page-IsPage v = rw ((sensors_page_lem v).0) refl

route_sensors-IsPage :
    (others : List (List Call)) {g : GlobalState}
    → IsValid g
    → IsPage (run_among route_sensors others g).1
unfolding route_sensors run_among
route_sensors-IsPage [] v = sensors_page-IsPage v
route_sensors-IsPage (cs ∷ others) v = sensors_page-IsPage (exec_all-IsValid cs v)

-- From a valid state, and whatever other threads call in between, /metrics and /sensors answer 200
-- and never write outside their buffers.
pub tables-IsPage :
    (others : List (List Call)) {g : GlobalState}
    → IsValid g
    → IsPage (run_among route_metrics others g).1 × IsPage (run_among route_sensors others g).1
tables-IsPage others v = (route_metrics-IsPage others v, route_sensors-IsPage others v)

-- The paths that there are.
abbrev pub paths : List Text
paths =
    codes "/"
    ∷ codes "/login"
    ∷ codes "/dashboard"
    ∷ codes "/sensors"
    ∷ codes "/alerts"
    ∷ codes "/metrics"
    ∷ []

text_eq_ne : (a b : Text) → a ≢ b → text_eq a b ≡ false
text_eq_ne a b n = elim (Bool-cases (text_eq a b)) [
  | inl e ↦ absurd (n ((text_eq_iff a b).0 e))
  | inr e ↦ e
]

-- Every other path is answered by 404, without a call.
pub route_other :
    (config : ServerConfig) (net : Network) (path : Text) (query : Option Text)
    → All (λ p. path ≢ p) paths
    → route config net path query ≡ ret (responded not_found)
unfolding route
route_other config net path query (a, (b, (c, (d, (e, (f, _)))))) = rw (
  text_eq_ne path (codes "/") a,
  text_eq_ne path (codes "/login") b,
  text_eq_ne path (codes "/dashboard") c,
  text_eq_ne path (codes "/sensors") d,
  text_eq_ne path (codes "/alerts") e,
  text_eq_ne path (codes "/metrics") f,
  route,
)

username_of-plain :
    (user : Text)
    → All (λ c. c ≢ b'&') user
    → length user ≤ 63
    → username_of (some (codes "user=" ++ user)) ≡ user
unfolding username_of strstr
username_of-plain user h k = ap (before b'&') (take_all 63 user k) ∙ before_whole b'&' user h

-- The page for what the service says.
abbrev pub login_page : Text → Answer → Response
login_page user (known role) = ok (welcome_page user (take 31 role))
login_page user unknown = record {
  status_code = 401;
  status_text = codes "Unauthorized";
  body = denied_page user;
}

login-page :
    (config : ServerConfig) (net : Network) (user : Text) (a : Answer)
    → user ≢ []
    → Exchanged net a
    → login config net user ≡ login_page user a
login-page config net [] a u x = absurd (u refl)
login-page config net (c ∷ cs) (known role) u x =
    ap (login_response (c ∷ cs)) (auth_check_user-answer config net (c ∷ cs) (known role) u x)
login-page config net (c ∷ cs) unknown u x =
    ap (login_response (c ∷ cs)) (auth_check_user-answer config net (c ∷ cs) unknown u x)

abbrev pub login_path : Text → Text
login_path user = codes "/login?user=" ++ user

-- GET /login?user=USER with a user of 1 to 63 bytes, none of them '&': behind an exchange with the
-- authentication service that works, the response is the welcome page with the role for a user that
-- exists, and 401 for one that does not.
pub login_request :
    (config : ServerConfig) (net : Network) (user rest : Text) (ending : Ending) (a : Answer)
    → user ≢ []
    → length user ≤ 63
    → All IsWord user
    → All (λ c. c ≢ b'&') user
    → Exchanged net a
    → handle_http_request config net (record {
      bytes = (get_line (login_path user) (codes "HTTP/1.1") ++ (13 ∷ [])) ++ (10 ∷ rest);
      ending = ending;
    })
      ≡ ret (served (get_line (login_path user) (codes "HTTP/1.1")) (responded (login_page user a)))
unfolding route_login route text_eq before strchr
login_request config net user rest ending a u len w amp x =
    get_request-served config net (login_path user) (codes "HTTP/1.1") rest ending (λ e. cc)
      (All-append IsWord (codes "/login?user=") user (are_words_sound (codes "/login?user=") refl)
        w)
      (are_words_sound (codes "HTTP/1.1") refl) (omega arith)
    ∙ ap (λ r. ret (served (get_line (login_path user) (codes "HTTP/1.1")) (responded r)))
        (ap (login config net) (username_of-plain user amp len) ∙ login-page config net user a u x)
