-- ===== src/Utils/Received.antt =====
-- What recv_line of server/src/utils.c takes from the input.
use iot_services_monitoring.Common.{
  ℕ, zero, suc, ◌+◌, ◌-◌, ◌<◌, ◌≡◌, refl, ap, ◌≢◌, ◌⊎◌, inl, inr, false, [], ◌∷◌, ◌++◌, Option,
  none, some, arith, ℤ, pos, negsuc, length, All, Bool-cases, ◌==◌,
}
use iot_services_monitoring.Text.{Text}
use iot_services_monitoring.Utils.{
  Ending, closed, failed, Incoming, cons_line, line_result, recv_from, recv_line,
}
use iot_services_monitoring.Utils.Lines.{without_cr}

abbrev NoLf : Text → Type 0
NoLf body = All (λ c. c ≢ 10) body

-- The last character is one that is kept.
abbrev pub EndsKept : Text → Type 0
EndsKept [] = Unit
EndsKept (c ∷ []) = c ≢ 13
EndsKept (c ∷ d ∷ s) = EndsKept (d ∷ s)

-- Why reading stops behind the characters `body`, with what is left: at '\n', which is taken off too; with
-- a full buffer, right behind the character that fills it; at the end of the input.
abbrev StopsFrom : Ending → ℕ → Text → Text → Option Text × Text → Type 0
StopsFrom ending room s body (line, left) =
    ((s ≡ body ++ (10 ∷ left))
      × (length (without_cr body) < room)
      × (line ≡ some (without_cr body)))
    ⊎ ((s ≡ body ++ left)
        × (length (without_cr body) ≡ room)
        × EndsKept body
        × (line ≡ some (without_cr body)))
    ⊎ ((s ≡ body)
        × (left ≡ [])
        × (length (without_cr body) < room)
        × (ending ≡ closed)
        × (line ≡ some (without_cr body)))
    ⊎ ((s ≡ body)
        × (left ≡ [])
        × (length (without_cr body) < room)
        × (ending ≡ failed)
        × (line ≡ none))

abbrev TakenFrom : Ending → ℕ → Text → Option Text × Text → Type 0
TakenFrom ending room s r = (body : Text) × NoLf body × StopsFrom ending room s body r

with_cr : (s : Text) → without_cr (13 ∷ s) ≡ without_cr s
unfolding without_cr
with_cr s = refl

with_other : (c : ℕ) (s : Text) → (c == 13) ≡ false → without_cr (c ∷ s) ≡ c ∷ without_cr s
unfolding without_cr
with_other c s other = rw (other, without_cr) refl

-- A body with a character is not ended by the '\r' in front of it.
kept_behind :
    (c room : ℕ) (body : Text)
    → length (without_cr body) ≡ suc room
    → EndsKept body
    → EndsKept (c ∷ body)
unfolding without_cr
kept_behind c room [] e k = absurd (omega (arith, e))
kept_behind c room (d ∷ s) e k = k

kept_cons : (c : ℕ) (body : Text) → c ≢ 13 → EndsKept body → EndsKept (c ∷ body)
kept_cons c [] n k = n
kept_cons c (d ∷ s) n k = k

skip-TakenFrom :
    (ending : Ending) (room : ℕ) (s : Text) (r : Option Text × Text)
    → TakenFrom ending (suc room) s r
    → TakenFrom ending (suc room) (13 ∷ s) r
skip-TakenFrom ending room s r (body, no_lf, stop) = (
  13 ∷ body,
  ((λ e. ground (arith, e)), no_lf),
  rw (with_cr body) (elim stop [
    | inl (e, fits, l) ↦ inl (ap (λ t. 13 ∷ t) e, fits, l)
    | inr (inl (e, full, kept, l)) ↦
        inr (inl (ap (λ t. 13 ∷ t) e, full, kept_behind 13 room body full kept, l))
    | inr (inr (inl (e, out, fits, c, l))) ↦ inr (inr (inl (ap (λ t. 13 ∷ t) e, out, fits, c, l)))
    | inr (inr (inr (e, out, fits, c, l))) ↦ inr (inr (inr (ap (λ t. 13 ∷ t) e, out, fits, c, l)))
  ]),
)

cons_some :
    (c : ℕ) {line : Option Text} (t left : Text)
    → line ≡ some t
    → cons_line c (line, left) ≡ (some (c ∷ t), left)
cons_some c t left e = rw e refl

cons_none :
    (c : ℕ) {line : Option Text} (left : Text)
    → line ≡ none
    → cons_line c (line, left) ≡ (none, left)
cons_none c left e = rw e refl

cons-TakenFrom :
    (ending : Ending) (room c : ℕ) (s : Text) (line : Option Text) (left : Text)
    → c ≢ 10
    → c ≢ 13
    → TakenFrom ending room s (line, left)
    → TakenFrom ending (suc room) (c ∷ s) (cons_line c (line, left))
cons-TakenFrom ending room c s line left not_lf not_cr (body, no_lf, stop) =
    let other : (c == 13) ≡ false = ground (arith, not_cr) in
    (
      c ∷ body,
      (not_lf, no_lf),
      rw (with_other c body other) (elim stop [
        | inl (e, fits, l) ↦
            rw (cons_some c (without_cr body) left l)
              (inl (ap (λ t. c ∷ t) e, omega (arith, fits), refl))
        | inr (inl (e, full, kept, l)) ↦
            rw (cons_some c (without_cr body) left l) (
              inr
                (inl (ap (λ t. c ∷ t) e, omega (arith, full), kept_cons c body not_cr kept, refl)))
        | inr (inr (inl (e, out, fits, d, l))) ↦
            rw (cons_some c (without_cr body) left l)
              (inr (inr (inl (ap (λ t. c ∷ t) e, out, omega (arith, fits), d, refl))))
        | inr (inr (inr (e, out, fits, d, l))) ↦
            rw (cons_none c left l)
              (inr (inr (inr (ap (λ t. c ∷ t) e, out, omega (arith, fits), d, refl))))
      ]),
    )

recv_from-TakenFrom :
    (ending : Ending) (room : ℕ) (s : Text) → TakenFrom ending room s (recv_from ending room s)
unfolding recv_from without_cr
recv_from-TakenFrom ending zero s = ([], tt, inr (inl (refl, refl, tt, refl)))
recv_from-TakenFrom closed (suc room) [] =
    ([], tt, inr (inr (inl (refl, refl, omega arith, refl, refl))))
recv_from-TakenFrom failed (suc room) [] =
    ([], tt, inr (inr (inr (refl, refl, omega arith, refl, refl))))
recv_from-TakenFrom ending (suc room) (c ∷ s) = elim (Bool-cases (c == 10)) [
  | inl lf ↦
      let same : c ≡ 10 = ground (arith, lf) in
      rw (lf, recv_from) ([], tt, inl (ap (λ d. d ∷ s) same, omega arith, refl))
  | inr f ↦ elim (Bool-cases (c == 13)) [
    | inl cr ↦
        let same : c ≡ 13 = ground (arith, cr) in
        rw (f, cr, recv_from, same)
          (skip-TakenFrom ending room s (recv_from ending (suc room) s)
            (recv_from-TakenFrom ending (suc room) s))
    | inr other ↦
        let (line, left) = recv_from ending room s in
        rw (f, other, recv_from)
          (cons-TakenFrom ending room c s line left (ground (arith, f)) (ground (arith, other))
            (recv_from-TakenFrom ending room s))
  ]
]

-- The results of recv_line with a buffer of `size` bytes, for the input `inc`. Behind characters `body`,
-- none of which is '\n', comes the end of the line, the buffer is full with its NUL, or the input ends.
abbrev pub Taken : ℕ → Incoming → ℤ × Text × Incoming → Type 0
Taken size inc r =
    (body left : Text) × All (λ c. c ≢ 10) body
    × (let line = without_cr body in
        let result : ℤ × Text × Incoming =
          (pos (length line), line, record { bytes = left; ending = inc.ending }) in
        ((inc.bytes ≡ body ++ (10 ∷ left)) × (length line + 1 < size) × (r ≡ result))
        ⊎ ((inc.bytes ≡ body ++ left) × (length line + 1 ≡ size) × EndsKept body × (r ≡ result))
        ⊎ ((inc.bytes ≡ body)
            × (left ≡ [])
            × (length line + 1 < size)
            × (inc.ending ≡ closed)
            × (r ≡ result))
        ⊎ ((inc.bytes ≡ body)
            × (left ≡ [])
            × (length line + 1 < size)
            × (inc.ending ≡ failed)
            × (r ≡ (negsuc 0, [], record { bytes = []; ending = failed }))))

line_result-Taken :
    (size : ℕ) (inc : Incoming) (line : Option Text) (left : Text)
    → 0 < size
    → TakenFrom inc.ending (size - 1) inc.bytes (line, left)
    → Taken size inc (line_result inc.ending (line, left))
line_result-Taken size inc line left h (body, no_lf, stop) = (
  body,
  left,
  no_lf,
  elim stop [
    | inl (e, fits, l) ↦ inl (e, omega (arith, fits), ap (λ x. line_result inc.ending (x, left)) l)
    | inr (inl (e, full, kept, l)) ↦
        inr (inl (e, omega (arith, full, h), kept, ap (λ x. line_result inc.ending (x, left)) l))
    | inr (inr (inl (e, out, fits, c, l))) ↦
        inr
          (inr (inl (e, out, omega (arith, fits), c, ap (λ x. line_result inc.ending (x, left)) l)))
    | inr (inr (inr (e, out, fits, c, l))) ↦
        inr (inr (inr (e, out, omega (arith, fits), c, λ i. line_result (c i) (l i, out i))))
  ],
)

-- With a buffer of `size` bytes, recv_line returns the characters in front of the next '\n' without
-- their '\r', and their number, and takes the '\n' off the input; if these fill the buffer but for its
-- NUL, it stops right behind the last that fits; if the input is closed first, it returns what there
-- is, and if it fails first, -1. These are all the cases.
pub recv_line-Taken : (size : ℕ) (inc : Incoming) → 0 < size → Taken size inc (recv_line size inc)
unfolding recv_line
recv_line-Taken size inc h =
    let (line, left) = recv_from inc.ending (size - 1) inc.bytes in
    line_result-Taken size inc line left h (recv_from-TakenFrom inc.ending (size - 1) inc.bytes)
