-- ===== src/Smp/Session.antt =====
-- The loop of handle_sensor_connection: it ends, and which lines end it.
use iot_services_monitoring.Common.{
  ℕ, zero, suc, ◌<◌, ◌≡◌, refl, ap, ◌∙◌, ◌≢◌, Bool, true, false, List, [], ◌∷◌, ◌++◌, arith, length,
  All, ℤ, pos, negsuc,
}
use iot_services_monitoring.Text.{Text, c_string}
use iot_services_monitoring.Utils.{Strtod, Ending, closed, Incoming, recv_line, buffer_size}
use iot_services_monitoring.Utils.Lines.{
  GoodLine, recv_line-GoodLine, recv_line-line, without_cr, IsPlain,
}
use iot_services_monitoring.State.{GlobalState}
use iot_services_monitoring.Calls.{Call, Program, ret, run_among, ◌>>=◌}
use iot_services_monitoring.Calls.Always.{Always, Always-run_among, Always->>=, every-Always}
use iot_services_monitoring.Smp.{
  disconnected, out_of_fuel, Transcript, ended, proceed, answer_line, process_line, session,
  handle_sensor_connection,
}

abbrev pub Ends : Transcript → Type 0
Ends t = t.finish ≢ out_of_fuel

proceed-Ends :
    (line : Text) (rest : Program Transcript) (r : Text × Bool)
    → Always Ends rest
    → Always Ends (proceed line rest r)
proceed-Ends line rest (resp, true) h = λ e. cc
proceed-Ends line rest (resp, false) h = Always->>= Ends Ends rest _ h (λ t e. e)

answer_line-Ends :
    (strtod : Text → Strtod) (next : Incoming → Program Transcript) (inc : Incoming)
    (r : ℤ × Text × Incoming)
    → GoodLine buffer_size inc r
    → ((left : Incoming) → length left.bytes < length inc.bytes → Always Ends (next left))
    → Always Ends (answer_line strtod next r)
answer_line-Ends strtod next inc (negsuc n, line, left) good h = λ e. cc
answer_line-Ends strtod next inc (pos zero, line, left) good h = λ e. cc
answer_line-Ends strtod next inc (pos (suc n), line, left) good h =
    Always->>= (λ (r : Text × Bool). Unit {0}) Ends (process_line strtod (c_string line)) _
      (every-Always (λ (r : Text × Bool). Unit {0}) (process_line strtod (c_string line)) (λ r. tt))
      (λ r _. proceed-Ends (c_string line) (next left) r (h left (ground (arith, good))))

pub session-Ends :
    (strtod : Text → Strtod) (fuel : ℕ) (inc : Incoming)
    → length inc.bytes < fuel
    → Always Ends (session strtod fuel inc)
unfolding session
session-Ends strtod zero inc h = absurd (omega arith)
session-Ends strtod (suc fuel) inc h =
    answer_line-Ends strtod (session strtod fuel) inc (recv_line buffer_size inc)
      (recv_line-GoodLine buffer_size inc (omega arith))
      (λ left k. session-Ends strtod fuel left (omega arith))

-- On every input, and whatever other connections do, the loop of a connection ends by a closed
-- connection, a read error or a QUIT: the rounds allowed, one more than the bytes, are enough.
pub handle_sensor_connection-ends :
    (strtod : Text → Strtod) (inc : Incoming) (others : List (List Call)) (g : GlobalState)
    → (run_among (handle_sensor_connection strtod inc) others g).1.finish ≢ out_of_fuel
unfolding handle_sensor_connection
handle_sensor_connection-ends strtod inc others g =
    Always-run_among Ends (session strtod (suc (length inc.bytes)) inc) others g
      (session-Ends strtod (suc (length inc.bytes)) inc (omega arith))

-- A line with no character but '\\r' ends the session as if the client had gone, with no response:
-- what follows it is not read.
pub session-empty_line :
    (strtod : Text → Strtod) (fuel : ℕ) (ending : Ending) (line rest : Text)
    → All (λ c. c ≢ 10) line
    → without_cr line ≡ []
    → session strtod (suc fuel) (record { bytes = line ++ (10 ∷ rest); ending = ending })
      ≡ ret (ended disconnected)
unfolding session
session-empty_line strtod fuel ending line rest no_lf empty =
    ap (answer_line strtod (session strtod fuel)) (
      recv_line-line buffer_size ending line rest no_lf (omega (arith, ap length empty))
      ∙ ap (λ (t : Text). (pos (length t), t, record { bytes = rest; ending = ending })) empty)

-- A line of a well-behaved client: it fits, and has neither '\n' nor '\r'.
abbrev pub IsMessage : Text → Type 0
IsMessage line = (0 < length line) × (length line < 4095) × All IsPlain line

-- The bytes of such lines.
abbrev pub sent_lines : List Text → Text
sent_lines [] = []
sent_lines (line ∷ ls) = line ++ (10 ∷ sent_lines ls)

-- The messages answered one by one, up to a QUIT that is answered or the end of the connection.
abbrev pub process_all : (Text → Strtod) → List Text → Program Transcript
process_all strtod [] = ret (ended disconnected)
process_all strtod (line ∷ ls) =
    process_line strtod (c_string line) >>= proceed (c_string line) (process_all strtod ls)

without_cr-plain : (line : Text) → All IsPlain line → without_cr line ≡ line
unfolding without_cr
without_cr-plain [] h = refl
without_cr-plain (c ∷ s) h = ground (arith, without_cr-plain s h.1)

All-not_lf : (line : Text) → All IsPlain line → All (λ c. c ≢ 10) line
All-not_lf [] h = tt
All-not_lf (c ∷ s) h = (h.0.0, All-not_lf s h.1)

session-message :
    (strtod : Text → Strtod) (fuel : ℕ) (line rest : Text)
    → IsMessage line
    → session strtod (suc fuel) (record { bytes = line ++ (10 ∷ rest); ending = closed }) ≡ (
        process_line strtod (c_string line)
        >>= proceed
            (c_string line)
            (session strtod fuel (record { bytes = rest; ending = closed })))
unfolding session
session-message strtod fuel [] rest h = absurd (omega (arith, h.0))
session-message strtod fuel (c ∷ line) rest h =
    let plain = without_cr-plain (c ∷ line) h.2 in
    ap (answer_line strtod (session strtod fuel)) (
      recv_line-line buffer_size closed (c ∷ line) rest (All-not_lf (c ∷ line) h.2)
        (rw plain (omega (arith, h.1)))
      ∙ ap (λ (t : Text). (pos (length t), t, record { bytes = rest; ending = closed })) plain)

-- Messages that arrive as lines, however many, are answered one by one and in order, each by
-- process_line, until a QUIT is answered or the client closes the connection.
pub session-lines :
    (strtod : Text → Strtod) (ls : List Text) (fuel : ℕ)
    → All IsMessage ls
    → length ls < fuel
    → session strtod fuel (record { bytes = sent_lines ls; ending = closed })
      ≡ process_all strtod ls
unfolding session recv_line
session-lines strtod ls zero h k = absurd (omega arith)
session-lines strtod [] (suc fuel) h k = refl
session-lines strtod (line ∷ ls) (suc fuel) h k =
    session-message strtod fuel line (sent_lines ls) h.0
    ∙ ap (λ p. process_line strtod (c_string line) >>= proceed (c_string line) p)
        (session-lines strtod ls fuel h.1 (omega arith))
