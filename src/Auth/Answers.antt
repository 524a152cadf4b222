-- ===== src/Auth/Answers.antt =====
-- What the server makes of the answers of the authentication service.
use iot_services_monitoring.Common.{
  ℕ, ◌-◌, ◌≤◌, ◌≡◌, refl, ap, ◌∙◌, ◌≢◌, inl, inr, sym, Bool, true, false, List, [], ◌∷◌, ◌++◌, none,
  some, arith, length, take, take_all, drop, All, Bool-cases, ◌==◌, take_nil, take-append, ◌||◌,
}
use iot_services_monitoring.Text.{Text, codes, starts_with, strstr, strchr}
use iot_services_monitoring.Text.Search.{before_whole, before-append, strchr-append, strstr-append}
use iot_services_monitoring.Config.{ServerConfig, concat}
use iot_services_monitoring.Auth.{
  AuthResult, Network, crlf2, read_response, find_role, is_some, parse_body, parse_response, query,
  auth_check_user,
}

-- The reading loop puts together what arrives, up to the size of the buffer, however it is split.
pub read_response-take :
    (room : ℕ) (chunks : List Text)
    → All (λ c. c ≢ []) chunks
    → read_response room chunks ≡ take room (concat chunks)
unfolding read_response concat
read_response-take room [] h = sym (take_nil room)
read_response-take room ([] ∷ chunks) h = absurd (h.0 refl)
read_response-take room ((c ∷ cs) ∷ chunks) h =
    let rest = read_response-take (room - length (c ∷ cs)) chunks h.1 in
    elim (Bool-cases (room == 0)) [
      | inl e ↦
          let zero_room : room ≡ 0 = ground arith in
          rw (e, read_response) (sym (ap (λ n. take n ((c ∷ cs) ++ concat chunks)) zero_room))
      | inr e ↦ rw (e, read_response, rest) (sym (take-append room (c ∷ cs) (concat chunks)))
    ]

-- The service's answers: `{"exists": true, "role": "operator"}`, with or without the spaces.
pub data Answer : Type 0 where
  known : Text → Answer
  unknown : Answer

abbrev pub space : Bool → Text
space true = codes " "
space false = []

abbrev pub json_of : Bool → Answer → Text
json_of spaced (known role) =
    codes "{\"exists\":"
    ++ (space spaced
        ++ (codes "true,"
            ++ (space spaced
                ++ (codes "\"role\":" ++ (space spaced ++ (b'"' ∷ (role ++ codes "\"}\n")))))))
json_of spaced unknown =
    codes "{\"exists\":"
    ++ (space spaced
        ++ (codes "false,"
            ++ (space spaced ++ (codes "\"role\":" ++ (space spaced ++ codes "null}\n")))))

abbrev pub result_of : Answer → AuthResult
result_of (known role) = record {
  exists = true;
  role = take 31 role;
  error = false;
  error_msg = [];
}
result_of unknown = record { exists = false; role = []; error = false; error_msg = [] }

abbrev pub IsPlainAnswer : Answer → Type 0
IsPlainAnswer (known role) = All (λ c. c ≢ b'"') role
IsPlainAnswer unknown = Unit

find_role-json :
    (spaced : Bool) (role : Text)
    → All (λ c. c ≢ b'"') role
    → find_role (json_of spaced (known role)) ≡ some role
unfolding find_role strstr strchr starts_with
find_role-json true role h =
    rw (strchr-append b'"' role (codes "}\n") h, before-append b'"' role (codes "}\n") h)
find_role-json false role h =
    rw (strchr-append b'"' role (codes "}\n") h, before-append b'"' role (codes "}\n") h)

parse_body-exists :
    (body role : Text)
    → (is_some (strstr body (codes "\"exists\": true"))
        || is_some (strstr body (codes "\"exists\":true")))
      ≡ true
    → find_role body ≡ some role
    → parse_body body ≡ result_of (known role)
unfolding parse_body
parse_body-exists body role h r = rw (h, r, parse_body)

or_true : (b : Bool) → (b || true) ≡ true
or_true true = refl
or_true false = refl

parse_body-json :
    (spaced : Bool) (a : Answer) → IsPlainAnswer a → parse_body (json_of spaced a) ≡ result_of a
unfolding parse_body strstr starts_with
parse_body-json true (known role) h =
    parse_body-exists (json_of true (known role)) role refl (find_role-json true role h)
parse_body-json false (known role) h =
    parse_body-exists (json_of false (known role)) role
      (or_true (is_some (strstr (json_of false (known role)) (codes "\"exists\": true"))))
      (find_role-json false role h)
parse_body-json true unknown h = refl
parse_body-json false unknown h = refl

nonempty :
    (text found : Text)
    → strstr text crlf2 ≡ some found
    → All (λ c. c ≢ 0) text
    → parse_response text ≡ parse_body (drop 4 found)
unfolding parse_response strstr starts_with
nonempty [] found e n = absurd (ground arith)
nonempty (c ∷ cs) found e n = rw (before_whole 0 (c ∷ cs) n, e, parse_response)

-- A response whose head does not hold an empty line before its end.
parse_response-body :
    (head body : Text)
    → strstr (head ++ (13 ∷ 10 ∷ 13 ∷ [])) crlf2 ≡ none
    → All (λ c. c ≢ 0) (head ++ (crlf2 ++ body))
    → parse_response (head ++ (crlf2 ++ body)) ≡ parse_body body
unfolding parse_response
parse_response-body head body h n =
    let found = strstr-append head (13 ∷ 10 ∷ 13 ∷ []) body 10 h in
    nonempty (head ++ (crlf2 ++ body)) (crlf2 ++ body) found n

-- An exchange with the service that works: the calls succeed, and what arrives, however it is split,
-- is a head that has no empty line and the service's answer; no byte is NUL, and all fits the buffer.
pub record Exchanged (net : Network) (a : Answer) : Type 0 where
  pub head : Text
  pub spaced : Bool
  pub resolved : net.getaddrinfo ≡ none
  pub opened : net.socket_ok ≡ true
  pub connected : net.connect_ok ≡ true
  pub sent : net.send_ok ≡ true
  pub not_closed : All (λ c. c ≢ []) net.recv
  pub arrived : concat net.recv ≡ head ++ (crlf2 ++ json_of spaced a)
  pub fits : length (concat net.recv) ≤ 4095
  pub head_end : strstr (head ++ (13 ∷ 10 ∷ 13 ∷ [])) crlf2 ≡ none
  pub no_nul : All (λ c. c ≢ 0) (concat net.recv)
  pub plain : IsPlainAnswer a

-- Behind an exchange that works the result is what the service says: whether the user exists, and the
-- role shortened to 31 bytes.
pub auth_check_user-answer :
    (config : ServerConfig) (net : Network) (user : Text) (a : Answer)
    → user ≢ []
    → Exchanged net a
    → auth_check_user config net (some user) ≡ result_of a
unfolding auth_check_user query
auth_check_user-answer config net [] a u x = absurd (u refl)
auth_check_user-answer config net (c ∷ cs) a u x =
    let all =
      read_response-take 4095 net.recv x.not_closed ∙ take_all 4095 (concat net.recv) x.fits in
    rw (x.resolved, x.opened, x.connected, x.sent, query)
      (ap parse_response (all ∙ x.arrived)
        ∙ parse_response-body x.head (json_of x.spaced a) x.head_end (rw (sym x.arrived) x.no_nul)
        ∙ parse_body-json x.spaced a x.plain)
