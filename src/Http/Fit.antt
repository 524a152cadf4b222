-- ===== src/Http/Fit.antt =====
-- That a table's page stays in its buffer, and which rows it shows.
use mathlib.Core.List.{append_assoc, append-nil}
use iot_services_monitoring.Common.{
  ℕ, suc, ◌+◌, ◌-◌, ◌≤◌, ◌<◌, ◌≡◌, refl, ap, ◌∙◌, ◌⊎◌, inl, inr, false, List, [], ◌∷◌, ◌++◌, Option,
  some, arith, length, take, ltb, Bool-cases, All, take_all, ltb→lt, sym, ◌>>=◌, length-append,
}
use iot_services_monitoring.Text.{Text}
use iot_services_monitoring.Config.{http_response_max, concat}
use iot_services_monitoring.Http.Tables.{
  Page, blank, append, append_rows, table_end, text_of, fill, whole,
}

-- A text that fits is written whole.
pub append_fits :
    (s t : Text)
    → length s + length t < http_response_max
    → append t (whole s) ≡ some (whole (s ++ t))
unfolding append
append_fits s t h =
    let inside : ltb http_response_max (length s) ≡ false = ground arith in
    let uncut = take_all (http_response_max - length s - 1) t (omega arith) in
    rw (inside, uncut, length-append s t)

-- The loop writes the first rows whole: all of them, or those up to the size where it stops.
record Filled (start : Text) (rows : List Text) (p : Option Page) : Type 0 where
  shown : ℕ
  result : p ≡ some (whole (start ++ concat (take shown rows)))
  room : length (start ++ concat (take shown rows)) < http_response_max - 512 + 470
  stops :
      (shown ≡ length rows) ⊎ (http_response_max - 512 ≤ length (start ++ concat (take shown rows)))

-- A row that leaves room for the end of the table.
abbrev pub IsRow : Text → Type 0
IsRow row = length row ≤ 470

cons-Filled :
    (start row : Text) (rows : List Text) {p : Option Page}
    → Filled (start ++ row) rows p
    → Filled start (row ∷ rows) p
unfolding concat
cons-Filled start row rows f =
    let same = append_assoc start row (concat (take f.shown rows)) in
    record {
      shown = suc f.shown;
      result = rw (sym same) f.result;
      room = rw (sym same) f.room;
      stops = rw (sym same) (elim f.stops [ inl e ↦ inl (ap suc e) | inr m ↦ inr m ]);
    }

append_rows-Filled :
    (start : Text) (rows : List Text)
    → length start < http_response_max - 512 + 470
    → All IsRow rows
    → Filled start rows (append_rows rows (whole start))
unfolding append_rows concat
append_rows-Filled start [] h all = record {
  shown = 0;
  result = rw (append-nil start);
  room = rw (append-nil start) h;
  stops = inl refl;
}
append_rows-Filled start (row ∷ rows) h all = elim (Bool-cases (ltb (length start) 65024)) [
  | inl go ↦
      let below = ltb→lt (length start) 65024 go in
      let written = append_fits start row (omega (arith, all.0)) in
      let within : length (start ++ row) < http_response_max - 512 + 470 =
        omega (arith, all.0, length-append start row) in
      rw (go, written, append_rows)
        (cons-Filled start row rows (append_rows-Filled (start ++ row) rows within all.1))
  | inr stop ↦ record {
    shown = 0;
    result = rw (stop, append_rows, append-nil start);
    room = rw (append-nil start) h;
    stops = inr (rw (append-nil start) (ground arith));
  }
]

-- The whole page: the header, the rows shown, and the end of the table.
pub record Shown (header : Text) (rows : List Text) (page : Option Text) : Type 0 where
  pub shown : ℕ
  pub page_text : page ≡ some (header ++ (concat (take shown rows) ++ table_end))
  pub stops :
      (shown ≡ length rows)
      ⊎ (http_response_max - 512 ≤ length header + length (concat (take shown rows)))

-- The steps of `fill`.
abbrev pub text_after : Option Page → Option Text
text_after p = p >>= λ closed. some (text_of closed)

abbrev pub end_after : Option Page → Option Text
end_after p = p >>= λ filled. text_after (append table_end filled)

abbrev pub rows_after : List Text → Option Page → Option Text
rows_after rows p = p >>= λ opened. end_after (append_rows rows opened)

pub fill-Shown :
    (header : Text) (rows : List Text)
    → length header < http_response_max - 512
    → All IsRow rows
    → Shown header rows (fill header rows)
unfolding fill
fill-Shown header rows h all =
    let opened : append header blank ≡ some (whole header) = append_fits [] header (omega arith) in
    let filled = append_rows-Filled header rows (omega arith) all in
    let shown = concat (take filled.shown rows) in
    let closed = append_fits (header ++ shown) table_end (omega (arith, filled.room)) in
    record {
      shown = filled.shown;
      page_text =
          ap (rows_after rows) opened
          ∙ ap end_after filled.result
          ∙ ap text_after closed
          ∙ ap some (append_assoc header shown table_end);
      stops = rw (sym (length-append header shown)) filled.stops;
    }
