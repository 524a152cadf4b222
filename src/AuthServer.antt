-- ===== src/AuthServer.antt =====
-- auth_service/auth_server.py: the authentication service, whose users the operators are.
-- Flask's request.args.get is a parameter.
pub mod Logins
mod Tests
use iot_services_monitoring.Common.{
  ℕ, ◌≤◌, ◌≡◌, refl, ap, ◌∙◌, ◌≢◌, ◌⊎◌, inl, inr, Bool, true, false, ◌&&◌, ◌||◌, List, [], ◌∷◌,
  ◌++◌, Option, none, some, length, All, leb, ◌==◌, arith, if◌then◌else◌, Bool-cases,
}
use iot_services_monitoring.Text.{Text, codes, text_eq, is_digit}
use iot_services_monitoring.Utils.{Ending}
use iot_services_monitoring.Python.{is_white, strip_left, put_back, strip_right, strip}
use iot_services_monitoring.Calls.{ret}
use iot_services_monitoring.Config.{ServerConfig}
use iot_services_monitoring.Auth.{Network}
use iot_services_monitoring.Auth.Answers.{Answer, known, unknown, Exchanged}
use iot_services_monitoring.Http.{Response}
use iot_services_monitoring.Http.Requests.{responded, served, handle_http_request}
use iot_services_monitoring.Http.Routes.{IsWord, get_line}
use iot_services_monitoring.Http.Answers.{login_page, login_path, login_request}

-- USERS: names and roles.
abbrev pub users : List (Text × Text)
users =
    (codes "admin", codes "operator")
    ∷ (codes "operator1", codes "operator")
    ∷ (codes "operator2", codes "operator")
    ∷ []

unfoldable pub role_of : Text → List (Text × Text) → Option Text
unfolding text_eq
role_of user [] = none
role_of user ((name, role) ∷ us) = if text_eq user name then some role else role_of user us

abbrev pub answer_of : Option Text → Answer
answer_of none = unknown
answer_of (some role) = known role

abbrev pub given : Option Text → Text
given none = []
given (some user) = user

abbrev pub answer_for : Text → Option Answer
answer_for [] = none
answer_for (c ∷ s) = some (answer_of (role_of (c ∷ s) users))

-- GET /auth with this query: `none` is the 400 for a missing user.
unfoldable pub auth : (Text → Option Text) → Text → Option Answer
unfolding role_of strip_left strip_right
auth args_get query = answer_for (strip (given (args_get query)))
