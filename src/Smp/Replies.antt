-- ===== src/Smp/Replies.antt =====
-- The responses of a session are those of protocolo/SMP_1_0.md.
use iot_services_monitoring.Common.{
  ℕ, zero, suc, ◌≡◌, refl, Bool, true, false, ◌||◌, List, [], ◌∷◌, Option, none, some, All, ℤ, pos,
  negsuc, length, Bool-cases, Option-cases, inl, inr,
}
use iot_services_monitoring.Text.{Text, codes, text_eq, starts_with, c_string}
use iot_services_monitoring.Text.Tokens.{tokenize}
use iot_services_monitoring.Utils.{
  Strtod, Incoming, parse_double, is_valid_timestamp, recv_line, buffer_size,
}
use iot_services_monitoring.State.{Sensor, is_status_active, is_invalid_type, sensor_type_from_str}
use iot_services_monitoring.Calls.{Program}
use iot_services_monitoring.Calls.Always.{Always, Always->>=, every-Always, Always-if}
use iot_services_monitoring.Alerts.{alerts_evaluate}
use iot_services_monitoring.Smp.{
  is_blank, Exchange, Transcript, handle_register, register_response, handle_metric, checked_metric,
  store_metric, handle_status, status_response, handle_ping, handle_quit, dispatch, stay,
  process_line, proceed, answer_line, session, handle_sensor_connection,
}

-- The response begins with one of the codes of the protocol and a space.
abbrev pub begins_with_any : List Text → Text → Bool
begins_with_any [] s = false
begins_with_any (code ∷ cs) s = starts_with code s || begins_with_any cs s

abbrev pub protocol_codes : List Text
protocol_codes =
    codes "200 "
    ∷ codes "400 "
    ∷ codes "403 "
    ∷ codes "404 "
    ∷ codes "409 "
    ∷ codes "422 "
    ∷ codes "500 "
    ∷ []

abbrev pub IsReply : Text → Type 0
IsReply s = begins_with_any protocol_codes s ≡ true

abbrev IsAnswer : Text × Bool → Type 0
IsAnswer (s, left) = IsReply s

abbrev pub AnsweredProperly : Transcript → Type 0
AnsweredProperly t = All (λ (e : Exchange). IsReply e.resp) t.exchanges

register_response-IsReply : (result : ℤ) (id : Text) → IsReply (register_response result id)
unfolding starts_with
register_response-IsReply (pos zero) id = refl
register_response-IsReply (pos (suc n)) id = refl
register_response-IsReply (negsuc zero) id = refl
register_response-IsReply (negsuc (suc zero)) id = refl
register_response-IsReply (negsuc (suc (suc zero))) id = refl
register_response-IsReply (negsuc (suc (suc (suc n)))) id = refl

status_response-IsReply : (found : Option (ℕ × Sensor)) → IsReply (status_response found)
unfolding starts_with
status_response-IsReply none = refl
status_response-IsReply (some (i, s)) = refl

store_metric-IsReply :
    (id : Text) (value : ℕ) (s : Sensor) (ts : Text) → Always IsReply (store_metric id value s ts)
unfolding starts_with
store_metric-IsReply id value s ts (pos n) =
    Always->>= (λ (n : ℕ). Unit {0}) IsReply (alerts_evaluate id value s.type ts) _
      (every-Always (λ (n : ℕ). Unit {0}) (alerts_evaluate id value s.type ts) (λ n. tt))
      (λ n _. refl)
store_metric-IsReply id value s ts (negsuc n) = refl

checked_metric-IsReply :
    (strtod : Text → Strtod) (id value_str ts : Text) (found : Option (ℕ × Sensor))
    → Always IsReply (checked_metric strtod id value_str ts found)
unfolding starts_with
checked_metric-IsReply strtod id value_str ts none = refl
checked_metric-IsReply strtod id value_str ts (some (i, s)) =
    elim (Bool-cases (is_status_active s.status)) [
      | inr f ↦ rw f refl
      | inl a ↦ elim (Option-cases (parse_double strtod (some value_str))) [
        | inl p ↦ rw (a, p) refl
        | inr (value, p) ↦ elim (Bool-cases (is_valid_timestamp (some ts))) [
          | inr t ↦ rw (a, p, t) refl
          | inl t ↦ rw (a, p, t) (store_metric-IsReply id value s ts)
        ]
      ]
    ]

handle_register-IsReply : (tokens : List Text) → Always IsReply (handle_register tokens)
unfolding handle_register starts_with
handle_register-IsReply [] = refl
handle_register-IsReply (a ∷ []) = refl
handle_register-IsReply (a ∷ b ∷ []) = refl
handle_register-IsReply (a ∷ id ∷ ty ∷ []) =
    elim (Bool-cases (is_invalid_type (sensor_type_from_str (some ty)))) [
      | inl t ↦ rw t refl
      | inr f ↦ rw f (λ r. register_response-IsReply r id)
    ]
handle_register-IsReply (a ∷ b ∷ c ∷ d ∷ rest) = refl

handle_metric-IsReply :
    (strtod : Text → Strtod) (tokens : List Text) → Always IsReply (handle_metric strtod tokens)
unfolding handle_metric starts_with
handle_metric-IsReply strtod [] = refl
handle_metric-IsReply strtod (a ∷ []) = refl
handle_metric-IsReply strtod (a ∷ b ∷ []) = refl
handle_metric-IsReply strtod (a ∷ b ∷ c ∷ []) = refl
handle_metric-IsReply strtod (a ∷ id ∷ value_str ∷ ts ∷ []) =
    λ found. checked_metric-IsReply strtod id value_str ts found
handle_metric-IsReply strtod (a ∷ b ∷ c ∷ d ∷ e ∷ rest) = refl

handle_status-IsReply : (tokens : List Text) → Always IsReply (handle_status tokens)
unfolding handle_status starts_with
handle_status-IsReply [] = refl
handle_status-IsReply (a ∷ []) = refl
handle_status-IsReply (a ∷ id ∷ []) = status_response-IsReply
handle_status-IsReply (a ∷ b ∷ c ∷ rest) = refl

handle_ping-IsReply : (tokens : List Text) → Always IsReply (handle_ping tokens)
unfolding handle_ping starts_with
handle_ping-IsReply [] = refl
handle_ping-IsReply (a ∷ []) = refl
handle_ping-IsReply (a ∷ id ∷ []) = refl
handle_ping-IsReply (a ∷ b ∷ c ∷ rest) = refl

handle_quit-IsAnswer : (tokens : List Text) → Always IsAnswer (handle_quit tokens)
unfolding handle_quit starts_with
handle_quit-IsAnswer [] = refl
handle_quit-IsAnswer (a ∷ []) = refl
handle_quit-IsAnswer (a ∷ id ∷ []) = λ r. refl
handle_quit-IsAnswer (a ∷ b ∷ c ∷ rest) = refl

stay-IsAnswer : (p : Program Text) → Always IsReply p → Always IsAnswer (stay p)
stay-IsAnswer p h = Always->>= IsReply IsAnswer p _ h (λ s k. k)

dispatch-IsAnswer :
    (strtod : Text → Strtod) (tokens : List Text) → Always IsAnswer (dispatch strtod tokens)
unfolding dispatch starts_with
dispatch-IsAnswer strtod [] = refl
dispatch-IsAnswer strtod (command ∷ args) =
    let tokens = command ∷ args in
    Always-if IsAnswer (text_eq command (codes "REGISTER")) _ _
      (stay-IsAnswer (handle_register tokens) (handle_register-IsReply tokens))
      (Always-if IsAnswer (text_eq command (codes "METRIC")) _ _
        (stay-IsAnswer (handle_metric strtod tokens) (handle_metric-IsReply strtod tokens))
        (Always-if IsAnswer (text_eq command (codes "STATUS")) _ _
          (stay-IsAnswer (handle_status tokens) (handle_status-IsReply tokens))
          (Always-if IsAnswer (text_eq command (codes "PING")) _ _
            (stay-IsAnswer (handle_ping tokens) (handle_ping-IsReply tokens))
            (Always-if IsAnswer (text_eq command (codes "QUIT")) _ _ (handle_quit-IsAnswer tokens)
              refl))))

proceed-AnsweredProperly :
    (line : Text) (rest : Program Transcript) (r : Text × Bool)
    → IsAnswer r
    → Always AnsweredProperly rest
    → Always AnsweredProperly (proceed line rest r)
proceed-AnsweredProperly line rest (resp, true) a h = (a, tt)
proceed-AnsweredProperly line rest (resp, false) a h =
    Always->>= AnsweredProperly AnsweredProperly rest _ h (λ t k. (a, k))

answer_line-AnsweredProperly :
    (strtod : Text → Strtod) (next : Incoming → Program Transcript) (r : ℤ × Text × Incoming)
    → ((left : Incoming) → Always AnsweredProperly (next left))
    → Always AnsweredProperly (answer_line strtod next r)
unfolding process_line
answer_line-AnsweredProperly strtod next (negsuc n, line, left) h = tt
answer_line-AnsweredProperly strtod next (pos zero, line, left) h = tt
answer_line-AnsweredProperly strtod next (pos (suc n), line, left) h =
    Always->>= IsAnswer AnsweredProperly (process_line strtod (c_string line)) _
      (dispatch-IsAnswer strtod (tokenize is_blank 8 (c_string line)))
      (λ r a. proceed-AnsweredProperly (c_string line) (next left) r a (h left))

session-AnsweredProperly :
    (strtod : Text → Strtod) (fuel : ℕ) (inc : Incoming)
    → Always AnsweredProperly (session strtod fuel inc)
unfolding session
session-AnsweredProperly strtod zero inc = tt
session-AnsweredProperly strtod (suc fuel) inc =
    answer_line-AnsweredProperly strtod (session strtod fuel) (recv_line buffer_size inc)
      (session-AnsweredProperly strtod fuel)

-- Every response of a connection begins with a code of the protocol, whatever the other threads do.
pub handle_sensor_connection-AnsweredProperly :
    (strtod : Text → Strtod) (inc : Incoming)
    → Always AnsweredProperly (handle_sensor_connection strtod inc)
unfolding handle_sensor_connection
handle_sensor_connection-AnsweredProperly strtod inc =
    session-AnsweredProperly strtod (suc (length inc.bytes)) inc
