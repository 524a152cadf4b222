-- ===== src/Smp/FullLines.antt =====
-- Lines that fill the buffer of recv_line: 4095 bytes and their NUL.
use iot_services_monitoring.Common.{
  ℕ, suc, ◌≡◌, refl, ap, sym, ◌∙◌, [], ◌∷◌, ◌++◌, some, arith, length, All, pos, ◌==◌, Bool, true,
  false, List, if◌then◌else◌,
}
use iot_services_monitoring.Text.{Text, c_string}
use iot_services_monitoring.Utils.{Strtod, Ending, recv_from, recv_line, line_result, cons_line}
use iot_services_monitoring.Utils.Lines.{IsPlain, without_cr}
use iot_services_monitoring.State.{GlobalState}
use iot_services_monitoring.Calls.{Call, Program, ret, call, exec, exec_all, run_among, ◌>>=◌}
use iot_services_monitoring.Smp.{
  Transcript, answered, quit, disconnected, ended, proceed, process_line, answer_line, session,
}
use iot_services_monitoring.Smp.Session.{session-empty_line}

recv_from-full :
    (ending : Ending) (line rest : Text)
    → All IsPlain line
    → recv_from ending (length line) (line ++ rest) ≡ (some line, rest)
unfolding recv_from
recv_from-full ending [] rest plain = refl
recv_from-full ending (c ∷ line) rest (p, plain) =
    let no_lf : (c == 10) ≡ false = ground (arith, p) in
    let no_cr : (c == 13) ≡ false = ground (arith, p) in
    rw (no_lf, no_cr, recv_from) (ap (cons_line c) (recv_from-full ending line rest plain))

without_nothing : without_cr [] ≡ []
unfolding without_cr
without_nothing = refl

-- The first 4095 bytes of a line are handled as a message of their own, and what follows them, the
-- rest of the line, as the next.
pub session-full_buffer :
    (strtod : Text → Strtod) (fuel : ℕ) (ending : Ending) (line rest : Text)
    → All IsPlain line
    → length line ≡ 4095
    → session strtod (suc fuel) (record { bytes = line ++ rest; ending = ending }) ≡ (
        process_line strtod (c_string line)
        >>= proceed
            (c_string line)
            (session strtod fuel (record { bytes = rest; ending = ending })))
unfolding session recv_line
session-full_buffer strtod fuel ending line rest plain full =
    ap (λ r. answer_line strtod (session strtod fuel) (line_result ending r))
      (ap (λ n. recv_from ending n (line ++ rest)) (sym full)
        ∙ recv_from-full ending line rest plain)
    ∙ ap
        (λ n.
          answer_line strtod (session strtod fuel)
            (pos n, line, record { bytes = rest; ending = ending }))
        full

session-behind :
    (strtod : Text → Strtod) (fuel : ℕ) (ending : Ending) (line rest : Text)
    → All IsPlain line
    → length line ≡ 4095
    → session strtod (suc (suc fuel)) (record { bytes = line ++ (10 ∷ rest); ending = ending })
      ≡ (process_line strtod (c_string line) >>= proceed (c_string line) (ret (ended disconnected)))
session-behind strtod fuel ending line rest plain full =
    session-full_buffer strtod (suc fuel) ending line (10 ∷ rest) plain full
    ∙ ap (λ next. process_line strtod (c_string line) >>= proceed (c_string line) next)
        (session-empty_line strtod fuel ending [] rest tt without_nothing)

run_among-ret :
    {A B : Type 0} (p : Program A) (f : A → Program B) (h : A → B) (others : List (List Call))
    (g : GlobalState)
    → ((a : A) → f a ≡ ret (h a))
    → run_among (p >>= f) others g ≡ (let (g', a) = run_among p others g in (g', h a))
unfolding run_among
run_among-ret (ret a) f h others g e = rw (e a, run_among) refl
run_among-ret (call c k) f h [] g e = run_among-ret (k (exec c g).1) f h [] (exec c g).0 e
run_among-ret (call c k) f h (cs ∷ others) g e =
    let g₁ = exec_all cs g in run_among-ret (k (exec c g₁).1) f h others (exec c g₁).0 e

-- The session of one message, which ends it if it is a QUIT, and whose sender is taken to be gone
-- otherwise.
abbrev pub only : Text → Text × Bool → Transcript
only line (resp, quits) = answered line resp (ended (if quits then quit else disconnected))

proceed-only :
    (line : Text) (r : Text × Bool) → proceed line (ret (ended disconnected)) r ≡ ret (only line r)
proceed-only line (resp, true) = refl
proceed-only line (resp, false) = refl

-- A message of exactly 4095 bytes is handled by process_line, whatever other connections call in
-- between, and is the last of its session: if it does not leave the loop itself, as a QUIT does, the
-- session ends as if the client had gone, because its LF is taken for an empty line. What follows
-- the LF is not read.
pub session-full_line :
    (strtod : Text → Strtod) (fuel : ℕ) (ending : Ending) (line rest : Text)
    (others : List (List Call)) (g : GlobalState)
    → All IsPlain line
    → length line ≡ 4095
    → run_among
        (session strtod (suc (suc fuel)) (record { bytes = line ++ (10 ∷ rest); ending = ending }))
        others
        g
      ≡ (let (g', r) = run_among (process_line strtod (c_string line)) others g in
          (g', only (c_string line) r))
session-full_line strtod fuel ending line rest others g plain full =
    ap (λ p. run_among p others g) (session-behind strtod fuel ending line rest plain full)
    ∙ run_among-ret (process_line strtod (c_string line)) _ (only (c_string line)) others g
        (proceed-only (c_string line))
