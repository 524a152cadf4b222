-- ===== src/Http/Routes.antt =====
-- From the bytes of a request to its route, and what the routes answer.
use iot_services_monitoring.Common.{
  ℕ, zero, suc, ◌+◌, ◌<◌, ◌≡◌, refl, ap, ◌∙◌, ◌≢◌, inl, inr, Bool, true, false, List, [], ◌∷◌, ◌++◌,
  Option, none, some, arith, length, length-append, All, All-append, ℤ, pos, negsuc, ◌||◌, ◌&&◌,
  not, ◌==◌, Bool-cases, if◌then◌else◌,
}
use iot_services_monitoring.Text.{Text, codes, before, c_string, strchr, text_eq}
use iot_services_monitoring.Text.Search.{before_whole}
use iot_services_monitoring.Text.Tokens.{tokenize_two, IsToken}
use iot_services_monitoring.Utils.{Ending, Incoming, recv_line, buffer_size}
use iot_services_monitoring.Utils.Lines.{
  GoodLine, recv_line-GoodLine, recv_line-line, without_cr, IsPlain,
}
use iot_services_monitoring.State.{GlobalState}
use iot_services_monitoring.Calls.{Call, ret, run_among, ◌>>=◌}
use iot_services_monitoring.Calls.Always.{Always, Always-run_among, Always->>=, every-Always}
use iot_services_monitoring.Config.{ServerConfig}
use iot_services_monitoring.Auth.{Network}
use iot_services_monitoring.Http.Requests.{
  Outcome, out_of_fuel, served, Served, route, is_blank, query_of, parse_request, serve, is_last,
  is_empty, skip_headers, serve_after, answer_request, handle_http_request,
}

abbrev IsSome : Option Incoming → Type 0
IsSome none = ⊥
IsSome (some inc) = Unit

skip_headers_step :
    (inc : Incoming) (r : ℤ × Text × Incoming) (rest : Option Incoming)
    → GoodLine buffer_size inc r
    → (length r.2.bytes < length inc.bytes → IsSome rest)
    → IsSome (if is_last r.0 || is_empty (c_string r.1) then some r.2 else rest)
skip_headers_step inc (negsuc n, line, left) rest good h = tt
skip_headers_step inc (pos zero, line, left) rest good h = tt
skip_headers_step inc (pos (suc n), line, left) rest good h =
    elim (Bool-cases (is_empty (c_string line))) [
      | inl t ↦ rw t tt
      | inr f ↦ rw f (h (ground (arith, good)))
    ]

skip_headers-IsSome :
    (fuel : ℕ) (inc : Incoming) → length inc.bytes < fuel → IsSome (skip_headers fuel inc)
unfolding skip_headers
skip_headers-IsSome zero inc h = absurd (omega arith)
skip_headers-IsSome (suc fuel) inc h =
    skip_headers_step inc (recv_line buffer_size inc)
      (skip_headers fuel (recv_line buffer_size inc).2)
      (recv_line-GoodLine buffer_size inc (omega arith))
      (λ k. skip_headers-IsSome fuel (recv_line buffer_size inc).2 (omega arith))

abbrev pub Ends : Outcome → Type 0
Ends o = o ≢ out_of_fuel

serve_after-Ends :
    (config : ServerConfig) (net : Network) (line : Text) (left : Option Incoming)
    → IsSome left
    → Always Ends (serve_after config net line left)
serve_after-Ends config net line none h = absurd h
serve_after-Ends config net line (some left) h =
    Always->>= (λ (s : Served). Unit {0}) Ends (serve config net line) _
      (every-Always (λ (s : Served). Unit {0}) (serve config net line) (λ s. tt)) (λ s _ e. cc)

pub answer_request-Ends :
    (config : ServerConfig) (net : Network) (r : ℤ × Text × Incoming)
    → Always Ends (answer_request config net r)
answer_request-Ends config net (negsuc n, line, left) = λ e. cc
answer_request-Ends config net (pos zero, line, left) = λ e. cc
answer_request-Ends config net (pos (suc n), line, left) =
    serve_after-Ends config net (c_string line) (skip_headers (suc (length left.bytes)) left)
      (skip_headers-IsSome (suc (length left.bytes)) left (omega arith))

-- Whatever arrives, and whatever the other threads do, the handling of a request ends: the rounds
-- allowed to the loop over the headers are enough.
pub handle_http_request-ends :
    (config : ServerConfig) (net : Network) (inc : Incoming) (others : List (List Call))
    (g : GlobalState)
    → (run_among (handle_http_request config net inc) others g).1 ≢ out_of_fuel
unfolding handle_http_request
handle_http_request-ends config net inc others g =
    Always-run_among Ends (answer_request config net (recv_line buffer_size inc)) others g
      (answer_request-Ends config net (recv_line buffer_size inc))

-- A character of a token of the request line.
abbrev pub IsWord : ℕ → Type 0
IsWord c = IsPlain c × (c ≢ 0) × (c ≢ 32)

-- The same as a test, to run on a literal.
abbrev pub are_words : Text → Bool
are_words [] = true
are_words (c ∷ s) = not (c == 10 || c == 13 || c == 0 || c == 32) && are_words s

pub are_words_sound : (s : Text) → are_words s ≡ true → All IsWord s
are_words_sound [] h = tt
are_words_sound (c ∷ s) h = (ground arith, are_words_sound s (ground arith))

abbrev pub get_line : Text → Text → Text
get_line path version = codes "GET " ++ (path ++ (32 ∷ version))

word-IsToken : (s : Text) → s ≢ [] → All IsWord s → IsToken is_blank s
word-IsToken s n h = (n, go s h)
  where
    go : (s : Text) → All IsWord s → All (λ c. is_blank c ≡ false) s
    go [] h = tt
    go (c ∷ s) h = (ground (arith, h.0), go s h.1)

serve-get :
    (config : ServerConfig) (net : Network) (path version : Text)
    → path ≢ []
    → All IsWord path
    → serve config net (get_line path version)
      ≡ route config net (before b'?' path) (query_of (strchr path b'?'))
unfolding serve parse_request text_eq
serve-get config net path version n h = ap (parse_request config net) (
    tokenize_two is_blank 32 (codes "GET") path version refl ((λ e. cc), (refl, (refl, (refl, tt))))
      (word-IsToken path n h))

without_cr-line : (line : Text) → All (λ c. c ≢ 13) line → without_cr (line ++ (13 ∷ [])) ≡ line
unfolding without_cr
without_cr-line [] h = refl
without_cr-line (c ∷ s) h = ground (arith, without_cr-line s h.1)

All-weaken : {P Q : ℕ → Type 0} → ((c : ℕ) → P c → Q c) → (s : Text) → All P s → All Q s
All-weaken k [] h = tt
All-weaken k (c ∷ s) h = (k c h.0, All-weaken k s h.1)

-- A control character that is in no word is not in the line.
get_line-without :
    (d : ℕ) (path version : Text)
    → d < 32
    → ((c : ℕ) → IsWord c → c ≢ d)
    → All IsWord path
    → All IsWord version
    → All (λ c. c ≢ d) (get_line path version)
get_line-without d path version small k h l =
    let space : 32 ≢ d = omega arith in
    All-append (λ c. c ≢ d) (codes "GET ") (path ++ (32 ∷ version))
      (omega arith, (omega arith, (omega arith, (space, tt))))
      (All-append (λ c. c ≢ d) path (32 ∷ version) (All-weaken k path h)
        (space, All-weaken k version l))

serve_some :
    (config : ServerConfig) (net : Network) (line : Text) (left : Option Incoming)
    → IsSome left
    → serve_after config net line left ≡ (serve config net line >>= λ s. ret (served line s))
serve_some config net line none h = absurd h
serve_some config net line (some left) h = refl

-- A request of the form `GET path version`, ended by CR LF and of less than 4000 bytes, is answered
-- by the route of its path, cut at the first '?', with what stands behind that as the query; the
-- headers have no influence.
pub get_request-served :
    (config : ServerConfig) (net : Network) (path version rest : Text) (ending : Ending)
    → path ≢ []
    → All IsWord path
    → All IsWord version
    → length path + length version < 4000
    → handle_http_request config net
        (record { bytes = (get_line path version ++ (13 ∷ [])) ++ (10 ∷ rest); ending = ending })
      ≡ (route config net (before b'?' path) (query_of (strchr path b'?')) >>= λ s.
          ret (served (get_line path version) s))
unfolding handle_http_request
get_request-served config net path version rest ending n h k fits =
    let line = get_line path version in
    let left : Incoming = record { bytes = rest; ending = ending } in
    let no_cr = get_line-without 13 path version (omega arith) (λ c w. w.0.1) h k in
    let no_lf = get_line-without 10 path version (omega arith) (λ c w. w.0.0) h k in
    let no_nul = get_line-without 0 path version (omega arith) (λ c w. w.1) h k in
    let plain = without_cr-line line no_cr in
    ap (answer_request config net) (
      recv_line-line buffer_size ending (line ++ (13 ∷ [])) rest
        (All-append (λ c. c ≢ 10) line (13 ∷ []) no_lf (omega arith, tt))
        (omega (arith, ap length plain, length-append path (32 ∷ version)))
      ∙ ap (λ (t : Text). (pos (length t), t, left)) plain)
    ∙ ap (λ t. serve_after config net t (skip_headers (suc (length rest)) left))
        (before_whole 0 line no_nul)
    ∙ serve_some config net line (skip_headers (suc (length rest)) left)
        (skip_headers-IsSome (suc (length rest)) left (omega arith))
    ∙ ap (λ p. p >>= λ s. ret (served line s)) (serve-get config net path version n h)
