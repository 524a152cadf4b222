-- ===== src/AuthServer/Logins.antt =====
-- Operators log in at the server by the users of auth_service.
use iot_services_monitoring.Common.{
  ℕ, ◌≤◌, ◌≡◌, refl, sym, ap, ◌∙◌, ◌≢◌, inl, inr, Bool, true, false, ◌&&◌, ◌||◌, [], ◌∷◌, ◌++◌,
  Option, some, length, All, leb, ◌==◌, arith, if◌then◌else◌, Bool-cases,
}
use iot_services_monitoring.Text.{Text, codes, text_eq, is_digit}
use iot_services_monitoring.Utils.{Ending}
use iot_services_monitoring.Python.{is_white, strip_left, put_back, strip_right, strip}
use iot_services_monitoring.Calls.{ret}
use iot_services_monitoring.Config.{ServerConfig}
use iot_services_monitoring.Auth.{Network}
use iot_services_monitoring.Auth.Answers.{Answer, Exchanged}
use iot_services_monitoring.Http.{Response}
use iot_services_monitoring.Http.Pages.{welcome_page, denied_page}
use iot_services_monitoring.Http.Requests.{ok, responded, served, handle_http_request}
use iot_services_monitoring.Http.Routes.{IsWord, get_line}
use iot_services_monitoring.Http.Answers.{login_page, login_path, login_request}
use iot_services_monitoring.AuthServer.{users, role_of, answer_of, given, answer_for, auth}

-- The characters that stand for themselves in a query (RFC 3986).
abbrev pub is_unreserved : ℕ → Bool
is_unreserved c =
    is_digit c
    || (leb b'A' c && leb c b'Z'
        || (leb b'a' c && leb c b'z' || (c == b'-' || (c == b'.' || (c == b'_' || c == b'~')))))

abbrev pub IsUnreserved : ℕ → Type 0
IsUnreserved c = is_unreserved c ≡ true

unreserved : (c : ℕ) → IsUnreserved c → (is_white c ≡ false) × (c ≢ b'&') × IsWord c
unfolding is_digit
unreserved c h = ground (arith, h)

strip_right-plain : (s : Text) → All IsUnreserved s → strip_right s ≡ s
unfolding strip_right
strip_right-plain [] h = refl
strip_right-plain (c ∷ []) h = rw ((unreserved c h.0).0) refl
strip_right-plain (c ∷ d ∷ s) h = ap (put_back c) (strip_right-plain (d ∷ s) h.1)

strip-plain : (s : Text) → All IsUnreserved s → strip s ≡ s
unfolding strip_left strip_right
strip-plain [] h = refl
strip-plain (c ∷ s) h = rw ((unreserved c h.0).0, strip_left) (strip_right-plain (c ∷ s) h)

abbrev pub is_user : Text → Bool
is_user user =
    text_eq user (codes "admin")
    || text_eq user (codes "operator1")
    || text_eq user (codes "operator2")

-- The page for an operator, and for somebody else.
abbrev pub page_for : Text → Response
page_for user =
    if is_user user
    then ok (welcome_page user (codes "operator"))
    else record { status_code = 401; status_text = codes "Unauthorized"; body = denied_page user }

page_of_role : (user : Text) → login_page user (answer_of (role_of user users)) ≡ page_for user
unfolding role_of
page_of_role user = elim (Bool-cases (text_eq user (codes "admin"))) [
  | inl a ↦ rw (a, role_of) refl
  | inr a ↦ elim (Bool-cases (text_eq user (codes "operator1"))) [
    | inl b ↦ rw (a, b, role_of) refl
    | inr b ↦ elim (Bool-cases (text_eq user (codes "operator2"))) [
      | inl c ↦ rw (a, b, c, role_of) refl
      | inr c ↦ rw (a, b, c, role_of) refl
    ]
  ]
]

auth-answer :
    (args_get : Text → Option Text) (user : Text) (a : Answer)
    → args_get (codes "user=" ++ user) ≡ some user
    → user ≢ []
    → All IsUnreserved user
    → auth args_get (codes "user=" ++ user) ≡ some a
    → a ≡ answer_of (role_of user users)
unfolding auth
auth-answer args_get [] a get u plain e = absurd (u refl)
auth-answer args_get (c ∷ s) a get u plain e =
    let stripped : strip (given (args_get (codes "user=" ++ (c ∷ s)))) ≡ c ∷ s =
      ap (λ r. strip (given r)) get ∙ strip-plain (c ∷ s) plain in
    let same : some (answer_of (role_of (c ∷ s) users)) ≡ some a =
      sym (ap answer_for stripped) ∙ e in
    cc

pub plain_words : (user : Text) → All IsUnreserved user → All IsWord user × All (λ c. c ≢ b'&') user
plain_words [] h = (tt, tt)
plain_words (c ∷ s) h =
    let (_, amp, word) = unreserved c h.0 in
    let (words, amps) = plain_words s h.1 in ((word, words), (amp, amps))

-- GET /login?user=USER with a user of 1 to 63 letters, digits and "-._~": if request.args.get reads
-- such a user as it stands, and the server's exchange brings what the service answers to it, then the
-- response is the welcome page with the role "operator" for admin, operator1 and operator2, and 401
-- for everybody else.
pub login_of_users :
    (args_get : Text → Option Text) (config : ServerConfig) (net : Network) (user rest : Text)
    (ending : Ending) (a : Answer)
    → ((u : Text) → All IsUnreserved u → args_get (codes "user=" ++ u) ≡ some u)
    → user ≢ []
    → length user ≤ 63
    → All IsUnreserved user
    → auth args_get (codes "user=" ++ user) ≡ some a
    → Exchanged net a
    → handle_http_request config net (record {
      bytes = (get_line (login_path user) (codes "HTTP/1.1") ++ (13 ∷ [])) ++ (10 ∷ rest);
      ending = ending;
    })
      ≡ ret (served (get_line (login_path user) (codes "HTTP/1.1")) (responded (page_for user)))
login_of_users args_get config net user rest ending a get u len plain e x =
    let (words, amps) = plain_words user plain in
    let said = auth-answer args_get user a (get user plain) u plain e in
    login_request config net user rest ending a u len words amps x
    ∙ ap (λ r. ret (served (get_line (login_path user) (codes "HTTP/1.1")) (responded r)))
        (ap (login_page user) said ∙ page_of_role user)
