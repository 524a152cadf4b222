-- ===== src/Auth/Results.antt =====
-- What holds of the result of the query whatever the network does.
use iot_services_monitoring.Common.{
  ℕ, zero, suc, ◌≤◌, ◌≡◌, refl, ◌≢◌, ◌⊎◌, inl, inr, true, false, List, [], ◌∷◌, Option, none, some,
  arith, length, length-take, take, drop, All, Bool-cases, Option-cases, ◌==◌, ◌>>=◌, ◌||◌,
}
use iot_services_monitoring.Text.{Text, codes, strstr, strchr, before}
use iot_services_monitoring.Config.{ServerConfig, concat}
use iot_services_monitoring.Auth.{
  behind, AuthResult, Network, failure, crlf2, read_response, find_role, is_some, parse_body,
  parse_response, query, auth_check_user, copied_role,
}

-- Strings that fit their arrays, a role without quotes, and either a failure with nothing found or a
-- result without a message, whose role is empty if the user does not exist.
pub record GoodResult (r : AuthResult) : Type 0 where
  pub role_fits : length r.role ≤ 31
  pub role_quotes : All (λ c. c ≢ b'"') r.role
  pub msg_fits : length r.error_msg ≤ 127
  pub one_way :
      ((r.error ≡ true) × (r.exists ≡ false) × (r.role ≡ []))
      ⊎ ((r.error ≡ false) × (r.error_msg ≡ []) × ((r.exists ≡ true) ⊎ (r.role ≡ [])))

failure-GoodResult : (parts : List Text) → GoodResult (failure parts)
unfolding failure
failure-GoodResult parts = record {
  role_fits = omega arith;
  role_quotes = tt;
  msg_fits = omega (arith, length-take 127 (concat parts));
  one_way = inl (refl, refl, refl);
}

All-before : (k : ℕ) (s : Text) → All (λ c. c ≢ k) (before k s)
unfolding before
All-before k [] = tt
All-before k (c ∷ s) = elim (Bool-cases (c == k)) [
  | inl t ↦ rw (t, before) tt
  | inr f ↦ rw (f, before) (ground arith, All-before k s)
]

All-take : (P : ℕ → Type 0) (n : ℕ) (s : Text) → All P s → All P (take n s)
All-take P zero s h = tt
All-take P (suc n) [] h = tt
All-take P (suc n) (c ∷ s) h = (h.0, All-take P n s h.1)

abbrev Quoteless : Option Text → Type 0
Quoteless none = Unit
Quoteless (some role) = All (λ c. c ≢ b'"') role

quoted-Quoteless :
    (quote1 : Text) (quote2 : Option Text) → Quoteless (quote2 >>= λ q. some (before b'"' quote1))
quoted-Quoteless quote1 none = tt
quoted-Quoteless quote1 (some q) = All-before b'"' quote1

bind-Quoteless :
    {A : Type 0} (o : Option A) (f : A → Option Text)
    → ((a : A) → Quoteless (f a))
    → Quoteless (o >>= f)
bind-Quoteless none f h = tt
bind-Quoteless (some a) f h = h a

find_role-Quoteless : (body : Text) → Quoteless (find_role body)
unfolding find_role
find_role-Quoteless body = bind-Quoteless (strstr body (codes "\"role\":")) _ (λ role_start.
    bind-Quoteless (behind b':' role_start) _ (λ value.
      bind-Quoteless (behind b'"' value) _
        (λ quote1. quoted-Quoteless quote1 (strchr quote1 b'"'))))

copied_role-fits :
    (role : Option Text)
    → Quoteless role
    → (length (copied_role role) ≤ 31) × All (λ c. c ≢ b'"') (copied_role role)
copied_role-fits none h = (omega arith, tt)
copied_role-fits (some role) h =
    (omega (arith, length-take 31 role), All-take (λ c. c ≢ b'"') 31 role h)

parse_body-GoodResult : (body : Text) → GoodResult (parse_body body)
unfolding parse_body
parse_body-GoodResult body =
    let test =
      is_some (strstr body (codes "\"exists\": true"))
      || is_some (strstr body (codes "\"exists\":true")) in
    let role = copied_role-fits (find_role body) (find_role-Quoteless body) in
    elim (Bool-cases test) [
      | inl t ↦
          rw (t, parse_body)
            (record {
              role_fits = role.0;
              role_quotes = role.1;
              msg_fits = omega arith;
              one_way = inr (refl, refl, inl refl);
            })
      | inr f ↦
          rw (f, parse_body)
            (record {
              role_fits = omega arith;
              role_quotes = tt;
              msg_fits = omega arith;
              one_way = inr (refl, refl, inr refl);
            })
    ]

parse_response-GoodResult : (response : Text) → GoodResult (parse_response response)
unfolding parse_response
parse_response-GoodResult [] = failure-GoodResult _
parse_response-GoodResult (c ∷ cs) = elim (Option-cases (strstr (before 0 (c ∷ cs)) crlf2)) [
  | inl e ↦ rw (e, parse_response) (failure-GoodResult _)
  | inr (found, e) ↦ rw (e, parse_response) (parse_body-GoodResult (drop 4 found))
]

query-GoodResult : (config : ServerConfig) (net : Network) → GoodResult (query config net)
unfolding query
query-GoodResult config net = elim (Option-cases net.getaddrinfo) [
  | inr (reason, e) ↦ rw (e, query) (failure-GoodResult _)
  | inl g ↦ elim (Bool-cases net.socket_ok) [
    | inr s ↦ rw (g, s, query) (failure-GoodResult _)
    | inl s ↦ elim (Bool-cases net.connect_ok) [
      | inr c ↦ rw (g, s, c, query) (failure-GoodResult _)
      | inl c ↦ elim (Bool-cases net.send_ok) [
        | inr d ↦ rw (g, s, c, d, query) (failure-GoodResult _)
        | inl d ↦ rw (g, s, c, d, query) (parse_response-GoodResult (read_response 4095 net.recv))
      ]
    ]
  ]
]

-- Whatever the network does, the result of a query is good.
pub auth_check_user-GoodResult :
    (config : ServerConfig) (net : Network) (username : Option Text)
    → GoodResult (auth_check_user config net username)
unfolding auth_check_user
auth_check_user-GoodResult config net none = failure-GoodResult _
auth_check_user-GoodResult config net (some []) = failure-GoodResult _
auth_check_user-GoodResult config net (some (c ∷ cs)) = query-GoodResult config net
