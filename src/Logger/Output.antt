-- ===== src/Logger/Output.antt =====
-- The two outputs of the log get the same lines.
use mathlib.Core.List.{append_assoc, append-nil}
use iot_services_monitoring.Common.{◌≡◌, ap, ◌∙◌, List, [], ◌∷◌, ◌++◌, some}
use iot_services_monitoring.Text.{Text}
use iot_services_monitoring.Logger.{with_line, write_log, Entry, line_of, log_all}

-- The lines, each with its '\n'.
abbrev pub printed_lines : List Text → Text
printed_lines [] = []
printed_lines (line ∷ ls) = line ++ (10 ∷ printed_lines ls)

abbrev pub lines_of : List Entry → List Text
lines_of [] = []
lines_of (e ∷ es) = line_of e ∷ lines_of es

with_line-append :
    (line text rest : Text) → with_line line text ++ rest ≡ text ++ (line ++ (10 ∷ rest))
with_line-append line text rest =
    append_assoc text (line ++ (10 ∷ [])) rest
    ∙ ap (λ t. text ++ t) (append_assoc line (10 ∷ []) rest)

-- Once the file is open, every line goes to the console and to the file, whole and in one order,
-- behind what they held.
pub log_all_lines :
    (es : List Entry) (c f : Text)
    → log_all es (record { console = c; file = some f }) ≡ (record {
      console = c ++ printed_lines (lines_of es);
      file = some (f ++ printed_lines (lines_of es));
    })
unfolding log_all write_log
log_all_lines [] c f = rw (append-nil c, append-nil f)
log_all_lines (e ∷ es) c f =
    log_all_lines es (with_line (line_of e) c) (with_line (line_of e) f)
    ∙ rw (
      with_line-append (line_of e) c (printed_lines (lines_of es)),
      with_line-append (line_of e) f (printed_lines (lines_of es)),
    )
