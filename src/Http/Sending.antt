-- ===== src/Http/Sending.antt =====
-- How a response goes out.
use iot_services_monitoring.Common.{
  ℕ, zero, suc, ◌≤◌, ◌≡◌, refl, ap, ◌∙◌, List, [], ◌∷◌, ◌++◌, Option, none, some, arith, length,
  take, take_all, drop, All, length-drop, take-append-drop,
}
use mathlib.Core.List.{append_assoc}
use iot_services_monitoring.Text.{Text}
use iot_services_monitoring.Utils.Lines.{Takes}
use iot_services_monitoring.Http.{Response, header_of, send_body, send_http_response}

send_body_prefix :
    (s : Text) (accepts : List (Option ℕ)) → (rest : Text) × (send_body s accepts ++ rest ≡ s)
unfolding send_body
send_body_prefix [] accepts = ([], refl)
send_body_prefix (c ∷ s) [] = (c ∷ s, refl)
send_body_prefix (c ∷ s) (none ∷ accepts) = (c ∷ s, refl)
send_body_prefix (c ∷ s) (some zero ∷ accepts) = (c ∷ s, refl)
send_body_prefix (c ∷ s) (some (suc n) ∷ accepts) =
    let (rest, e) = send_body_prefix (drop n s) accepts in
    (
      rest,
      append_assoc (take (suc n) (c ∷ s)) (send_body (drop n s) accepts) rest
          ∙ ap (λ t. take (suc n) (c ∷ s) ++ t) e
          ∙ take-append-drop (suc n) (c ∷ s),
    )

send_body_done :
    (s : Text) (accepts : List (Option ℕ))
    → All Takes accepts
    → length s ≤ length accepts
    → send_body s accepts ≡ s
unfolding send_body
send_body_done [] accepts h k = refl
send_body_done (c ∷ s) [] h k = absurd (omega arith)
send_body_done (c ∷ s) (none ∷ accepts) h k = absurd h.0
send_body_done (c ∷ s) (some zero ∷ accepts) h k = absurd (omega (arith, h.0))
send_body_done (c ∷ s) (some (suc n) ∷ accepts) h k =
    let rest = send_body_done (drop n s) accepts h.1 (omega (arith, length-drop n s)) in
    rw rest (take-append-drop (suc n) (c ∷ s))

-- If send takes the whole header, what goes out is a prefix of the header and the body, however the
-- body is split and wherever it fails.
pub send_http_response_prefix :
    (r : Response) (n : ℕ) (accepts : List (Option ℕ))
    → length (header_of r) ≤ n
    → (rest : Text) × (send_http_response r (some n ∷ accepts) ++ rest ≡ header_of r ++ r.body)
unfolding send_http_response
send_http_response_prefix r n accepts h =
    let (rest, e) = send_body_prefix r.body accepts in
    (
      rest,
      append_assoc (take n (header_of r)) (send_body r.body accepts) rest
          ∙ ap (λ t. t ++ (send_body r.body accepts ++ rest)) (take_all n (header_of r) h)
          ∙ ap (λ t. header_of r ++ t) e,
    )

-- It is all of both if each further call takes a byte at least and they are as many as the bytes of
-- the body.
pub send_http_response_done :
    (r : Response) (n : ℕ) (accepts : List (Option ℕ))
    → length (header_of r) ≤ n
    → All Takes accepts
    → length r.body ≤ length accepts
    → send_http_response r (some n ∷ accepts) ≡ header_of r ++ r.body
unfolding send_http_response
send_http_response_done r n accepts h t k =
    rw (take_all n (header_of r) h, send_body_done r.body accepts t k)
