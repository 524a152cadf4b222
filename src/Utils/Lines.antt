-- ===== src/Utils/Lines.antt =====
-- Lines received from and sent to a socket.
use mathlib.Core.List.{append_assoc}
use iot_services_monitoring.Common.{
  ℕ, zero, suc, ◌+◌, ◌-◌, ◌≤◌, ◌<◌, ◌≡◌, refl, ap, ◌≢◌, ◌⊎◌, inl, inr, true, false, List, [], ◌∷◌,
  ◌++◌, Option, none, some, arith, ℤ, pos, negsuc, length, take, drop, All, Bool-cases, ◌==◌, leb,
  length-append, length-drop, take-append-drop, ◌∙◌,
}
use iot_services_monitoring.Text.{Text}
use iot_services_monitoring.Utils.{
  Ending, closed, failed, Incoming, cons_line, line_result, recv_from, recv_line, send_from,
  send_line, buffer_size,
}

-- The characters of a line without those that recv_line skips.
unfoldable pub without_cr : Text → Text
without_cr [] = []
without_cr (c ∷ s) = elim (c == 13) [ true ↦ without_cr s | false ↦ c ∷ without_cr s ]

recv_from-line :
    (ending : Ending) (room : ℕ) (line rest : Text)
    → All (λ c. c ≢ 10) line
    → length (without_cr line) < room
    → recv_from ending room (line ++ (10 ∷ rest)) ≡ (some (without_cr line), rest)
unfolding recv_from without_cr
recv_from-line ending zero line rest no_lf fits = absurd (omega arith)
recv_from-line ending (suc room) [] rest no_lf fits = refl
recv_from-line ending (suc room) (c ∷ line) rest no_lf fits = elim (Bool-cases (c == 13)) [
  | inl cr ↦ ground (arith, recv_from-line ending (suc room) line rest no_lf.1)
  | inr other ↦ ground (arith, recv_from-line ending room line rest no_lf.1)
]

-- A line that arrives whole, and whose characters other than '\r' leave room in the buffer for one
-- more and the NUL, is returned without its '\r' and '\n', with its length, and the input behind
-- it is left for the next call.
pub recv_line-line :
    (size : ℕ) (ending : Ending) (line rest : Text)
    → All (λ c. c ≢ 10) line
    → length (without_cr line) + 1 < size
    → recv_line size (record { bytes = line ++ (10 ∷ rest); ending = ending })
      ≡ (pos (length (without_cr line)), without_cr line, record { bytes = rest; ending = ending })
unfolding recv_line
recv_line-line size ending line rest no_lf fits =
    ap (line_result ending) (recv_from-line ending (size - 1) line rest no_lf (omega arith))

abbrev pub IsPlain : ℕ → Type 0
IsPlain c = (c ≢ 10) × (c ≢ 13)

-- What the loop gives: a line within the room, of plain characters, and an input that shrinks by at
-- least the line.
record Received (room : ℕ) (s : Text) (line : Text) (left : Text) : Type 0 where
  fits : length line ≤ room
  plain : All IsPlain line
  shorter : length left + length line ≤ length s

abbrev ReceivedIf : ℕ → Text → Option Text × Text → Type 0
ReceivedIf room s (none, left) = left ≡ []
ReceivedIf room s (some line, left) = Received room s line left

skip-Received :
    (room c : ℕ) (s : Text) (r : Option Text × Text)
    → ReceivedIf room s r
    → ReceivedIf room (c ∷ s) r
skip-Received room c s (none, left) h = h
skip-Received room c s (some line, left) h = record {
  fits = h.fits;
  plain = h.plain;
  shorter = omega (arith, h.shorter);
}

cons-Received :
    (room c : ℕ) (s : Text) (r : Option Text × Text)
    → IsPlain c
    → ReceivedIf room s r
    → ReceivedIf (suc room) (c ∷ s) (cons_line c r)
cons-Received room c s (none, left) p h = h
cons-Received room c s (some line, left) p h = record {
  fits = omega (arith, h.fits);
  plain = (p, h.plain);
  shorter = omega (arith, h.shorter);
}

recv_from-Received :
    (ending : Ending) (room : ℕ) (s : Text) → ReceivedIf room s (recv_from ending room s)
unfolding recv_from
recv_from-Received ending zero s = record { fits = omega arith; plain = tt; shorter = omega arith }
recv_from-Received closed (suc room) [] = record {
  fits = omega arith;
  plain = tt;
  shorter = omega arith;
}
recv_from-Received failed (suc room) [] = refl
recv_from-Received ending (suc room) (c ∷ s) = elim (Bool-cases (c == 10)) [
  | inl lf ↦ rw (lf, recv_from) (record { fits = omega arith; plain = tt; shorter = omega arith })
  | inr f ↦ elim (Bool-cases (c == 13)) [
    | inl cr ↦
        rw (f, cr, recv_from)
          (skip-Received (suc room) c s (recv_from ending (suc room) s)
            (recv_from-Received ending (suc room) s))
    | inr other ↦
        rw (f, other, recv_from)
          (cons-Received room c s (recv_from ending room s) (ground arith)
            (recv_from-Received ending room s))
  ]
]

abbrev pub GoodLine : ℕ → Incoming → ℤ × Text × Incoming → Type 0
GoodLine size inc (n, line, left) =
    ((n ≡ negsuc 0) × (line ≡ []) × (left.bytes ≡ []))
    ⊎ ((n ≡ pos (length line))
        × (length line < size)
        × All IsPlain line
        × (length left.bytes + length line ≤ length inc.bytes))

line_result-GoodLine :
    (size : ℕ) (inc : Incoming) (r : Option Text × Text)
    → 0 < size
    → ReceivedIf (size - 1) inc.bytes r
    → GoodLine size inc (line_result inc.ending r)
line_result-GoodLine size inc (none, left) h r = inl (refl, refl, r)
line_result-GoodLine size inc (some line, left) h r =
    inr (refl, omega (arith, r.fits), r.plain, r.shorter)

-- recv_line with a buffer of `size` bytes fails with -1, the input used up, or returns the length of a
-- line that fits the buffer with its NUL and has no '\r' and no '\n', and the input shrinks by this
-- length at least.
pub recv_line-GoodLine :
    (size : ℕ) (inc : Incoming) → 0 < size → GoodLine size inc (recv_line size inc)
unfolding recv_line
recv_line-GoodLine size inc h =
    line_result-GoodLine size inc (recv_from inc.ending (size - 1) inc.bytes) h
      (recv_from-Received inc.ending (size - 1) inc.bytes)

send_from_prefix :
    (s : Text) (accepts : List (Option ℕ))
    → let (out, r) = send_from s accepts in
      (rest : Text) × (out ++ rest ≡ s) × ((rest ≡ []) ⊎ (r ≢ some (pos 0)))
unfolding send_from
send_from_prefix [] accepts = ([], refl, inl refl)
send_from_prefix (c ∷ s) [] = (c ∷ s, refl, inr (λ e. ground arith))
send_from_prefix (c ∷ s) (none ∷ accepts) = (c ∷ s, refl, inr (λ e. ground arith))
send_from_prefix (c ∷ s) (some n ∷ accepts) =
    let (rest, e, done) = send_from_prefix (drop n (c ∷ s)) accepts in
    (
      rest,
      append_assoc (take n (c ∷ s)) (send_from (drop n (c ∷ s)) accepts).0 rest
          ∙ ap (λ t. take n (c ∷ s) ++ t) e
          ∙ take-append-drop n (c ∷ s),
      done,
    )

-- A call of send that takes at least one byte.
abbrev pub Takes : Option ℕ → Type 0
Takes none = ⊥
Takes (some n) = 0 < n

send_from_done :
    (s : Text) (accepts : List (Option ℕ))
    → All Takes accepts
    → length s ≤ length accepts
    → send_from s accepts ≡ (s, some (pos 0))
unfolding send_from
send_from_done [] accepts h k = refl
send_from_done (c ∷ s) [] h k = absurd (omega arith)
send_from_done (c ∷ s) (none ∷ accepts) h k = absurd h.0
send_from_done (c ∷ s) (some n ∷ accepts) h k =
    let rest =
      send_from_done (drop n (c ∷ s)) accepts h.1 (omega (arith, length-drop n (c ∷ s), h.0)) in
    rw rest (ap (λ t. (t, some (pos 0))) (take-append-drop n (c ∷ s)))

-- However send splits the message, what goes out is a prefix of the message with its '\n', and all
-- of it when the result is 0; a message of 4095 bytes or more gives -1 with nothing sent.
pub send_line_prefix :
    (message : Text) (accepts : List (Option ℕ))
    → let (out, r) = send_line message accepts in
      (rest : Text) × (out ++ rest ≡ message ++ (10 ∷ []))
      × ((rest ≡ []) ⊎ (r ≢ some (pos 0)))
      × ((length message < 4095) ⊎ ((out ≡ []) × (r ≡ some (negsuc 0))))
unfolding send_line
send_line_prefix message accepts = elim (Bool-cases (leb buffer_size (length message + 1))) [
  | inl long ↦
      rw (long, send_line) (message ++ (10 ∷ []), refl, inr (λ e. ground arith), inr (refl, refl))
  | inr short ↦
      let (rest, e, done) = send_from_prefix (message ++ (10 ∷ [])) accepts in
      rw (short, send_line) (rest, e, done, inl (ground arith))
]

-- A shorter message goes out whole, with result 0, if each call of send takes at least one byte and
-- there are as many calls as bytes.
pub send_line_done :
    (message : Text) (accepts : List (Option ℕ))
    → length message < 4095
    → All Takes accepts
    → length message + 1 ≤ length accepts
    → send_line message accepts ≡ (message ++ (10 ∷ []), some (pos 0))
unfolding send_line
send_line_done message accepts short h k =
    let fits : leb buffer_size (length message + 1) ≡ false = ground arith in
    rw (fits, send_line)
      (send_from_done (message ++ (10 ∷ [])) accepts h
        (omega (arith, length-append message (10 ∷ []))))
