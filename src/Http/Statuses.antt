-- ===== src/Http/Statuses.antt =====
-- The status codes of the responses to operators.
use iot_services_monitoring.Common.{
  ℕ, zero, suc, ◌≡◌, refl, inl, inr, Bool, true, ◌||◌, List, [], ◌∷◌, Option, none, some, ℤ, pos,
  negsuc, not, length, ◌==◌, Bool-cases,
}
use iot_services_monitoring.Text.{Text, codes, text_eq, strchr, before, c_string}
use iot_services_monitoring.Text.Tokens.{tokenize}
use iot_services_monitoring.Utils.{Incoming, recv_line, buffer_size}
use iot_services_monitoring.Calls.Always.{Always, Always->>=, Always-if}
use iot_services_monitoring.Config.{ServerConfig}
use iot_services_monitoring.Auth.{AuthResult, Network, auth_check_user}
use iot_services_monitoring.Http.Requests.{
  Served, responded, overrun, Outcome, served, hung_up, out_of_fuel, login_response, login,
  username_of, query_of, is_blank, route, parse_request, serve, serve_after, answer_request,
  handle_http_request, table_response, skip_headers,
}

-- One of the codes that the server sends.
abbrev pub is_status : ℕ → Bool
is_status n = n == 200 || n == 400 || n == 401 || n == 404 || n == 500

abbrev pub HasStatus : Served → Type 0
HasStatus (responded r) = is_status r.status_code ≡ true
HasStatus overrun = Unit

abbrev pub ServedProperly : Outcome → Type 0
ServedProperly hung_up = Unit
ServedProperly out_of_fuel = Unit
ServedProperly (served line s) = HasStatus s

login_response-HasStatus :
    (user : Text) (auth : AuthResult) → HasStatus (responded (login_response user auth))
login_response-HasStatus user auth = elim (Bool-cases auth.error) [
  | inl t ↦ rw t refl
  | inr f ↦ elim (Bool-cases auth.exists) [ inl t ↦ rw (f, t) refl | inr f' ↦ rw (f, f') refl ]
]

login-HasStatus :
    (c : ServerConfig) (net : Network) (user : Text) → HasStatus (responded (login c net user))
login-HasStatus c net [] = refl
login-HasStatus c net (d ∷ user) =
    login_response-HasStatus (d ∷ user) (auth_check_user c net (some (d ∷ user)))

table-HasStatus : (page : Option Text) → HasStatus (table_response page)
table-HasStatus none = tt
table-HasStatus (some body) = refl

route-HasStatus :
    (c : ServerConfig) (net : Network) (path : Text) (query : Option Text)
    → Always HasStatus (route c net path query)
unfolding route
route-HasStatus c net path query = Always-if HasStatus (text_eq path (codes "/")) _ _ refl (
    Always-if HasStatus (text_eq path (codes "/login")) _ _
      (login-HasStatus c net (username_of query))
      (Always-if HasStatus (text_eq path (codes "/dashboard")) _ _ (λ a b c d. refl)
        (Always-if HasStatus (text_eq path (codes "/sensors")) _ _ (λ g. table-HasStatus _)
          (Always-if HasStatus (text_eq path (codes "/alerts")) _ _ (λ n g. table-HasStatus _)
            (Always-if HasStatus (text_eq path (codes "/metrics")) _ _ (λ n g. table-HasStatus _)
              refl)))))

parse_request-HasStatus :
    (c : ServerConfig) (net : Network) (tokens : List Text)
    → Always HasStatus (parse_request c net tokens)
unfolding parse_request
parse_request-HasStatus c net [] = refl
parse_request-HasStatus c net (method ∷ []) = refl
parse_request-HasStatus c net (method ∷ path ∷ rest) =
    Always-if HasStatus (not (text_eq method (codes "GET"))) _ _ refl
      (route-HasStatus c net (before b'?' path) (query_of (strchr path b'?')))

serve_after-ServedProperly :
    (c : ServerConfig) (net : Network) (line : Text) (left : Option Incoming)
    → Always ServedProperly (serve_after c net line left)
unfolding serve
serve_after-ServedProperly c net line none = tt
serve_after-ServedProperly c net line (some left) =
    Always->>= HasStatus ServedProperly (serve c net line) _
      (parse_request-HasStatus c net (tokenize is_blank 2 line)) (λ s h. h)

answer_request-ServedProperly :
    (c : ServerConfig) (net : Network) (r : ℤ × Text × Incoming)
    → Always ServedProperly (answer_request c net r)
answer_request-ServedProperly c net (negsuc n, buf, left) = tt
answer_request-ServedProperly c net (pos zero, buf, left) = tt
answer_request-ServedProperly c net (pos (suc n), buf, left) =
    serve_after-ServedProperly c net (c_string buf) (skip_headers (suc (length left.bytes)) left)

-- Every response to an operator has one of the five status codes, whatever the other threads do.
pub handle_http_request-ServedProperly :
    (c : ServerConfig) (net : Network) (inc : Incoming)
    → Always ServedProperly (handle_http_request c net inc)
unfolding handle_http_request
handle_http_request-ServedProperly c net inc =
    answer_request-ServedProperly c net (recv_line buffer_size inc)
