-- ===== src/Http/Overrun.antt =====
-- A row that is longer than the room that the loop keeps.
use mathlib.Core.List.{map-append}
use iot_services_monitoring.Common.{
  ℕ, map, ◌+◌, ◌-◌, ◌<◌, ◌≡◌, ap, ◌∙◌, false, List, [], ◌∷◌, ◌++◌, Option, none, some, arith,
  length, take, ltb, lt→ltb, length-append,
}
use iot_services_monitoring.Text.{Text}
use iot_services_monitoring.Config.{http_response_max}
use iot_services_monitoring.State.{Alert, GlobalState}
use iot_services_monitoring.State.Recent.{recent_alerts}
use iot_services_monitoring.Http.Tables.{
  Page, blank, append, append_rows, fill, whole, alerts_header, alert_row, alerts_page,
}
use iot_services_monitoring.Http.Fit.{append_fits, rows_after, end_after}
use iot_services_monitoring.Http.Sizes.{total}

-- The offset is counted on past the end of the buffer.
record Past (p : Option Page) : Type 0 where
  page : Page
  result : p ≡ some page
  past : http_response_max < page.offset

append-Past :
    (s t : Text)
    → length s < http_response_max
    → http_response_max < length s + length t
    → Past (append t (whole s))
unfolding append
append-Past s t h k =
    let inside : ltb http_response_max (length s) ≡ false = ground arith in
    record {
      page = record {
        body = s ++ take (http_response_max - length s - 1) t;
        offset = length s + length t;
      };
      result = rw (inside);
      past = k;
    }

append_rows-Past :
    (start : Text) (rows : List Text) (row : Text)
    → length start + total rows < http_response_max - 512
    → http_response_max < length start + total rows + length row
    → Past (append_rows (rows ++ (row ∷ [])) (whole start))
unfolding append_rows
append_rows-Past start [] row h k =
    let go = lt→ltb (length start) 65024 (omega arith) in
    let last = append-Past start row (omega arith) (omega arith) in
    record { page = last.page; result = rw (go, last.result, append_rows); past = last.past }
append_rows-Past start (r ∷ rows) row h k =
    let go = lt→ltb (length start) 65024 (omega arith) in
    let written = append_fits start r (omega arith) in
    let sum = length-append start r in
    let rest = append_rows-Past (start ++ r) rows row (omega (arith, sum)) (omega (arith, sum)) in
    record {
      page = rest.page;
      result = rw (go, written, append_rows) rest.result;
      past = rest.past;
    }

fill_overrun :
    (header : Text) (rows : List Text) (row : Text)
    → length header + total rows < http_response_max - 512
    → http_response_max < length header + total rows + length row
    → fill header (rows ++ (row ∷ [])) ≡ none
unfolding fill append
fill_overrun header rows row h k =
    let opened : append header blank ≡ some (whole header) = append_fits [] header (omega arith) in
    let filled = append_rows-Past header rows row h k in
    let outside = lt→ltb http_response_max filled.page.offset filled.past in
    ap (rows_after (rows ++ (row ∷ []))) opened ∙ ap end_after filled.result ∙ rw (outside)

-- If the rows of all alerts but the oldest end below the size at which the loop stops, and the row of
-- the oldest goes past the end of the buffer, /alerts writes the end of its table outside the buffer.
pub alerts_page_overrun :
    (g : GlobalState) (count : ℕ) (newer : List Alert) (oldest : Alert)
    → recent_alerts g ≡ newer ++ (oldest ∷ [])
    → length (alerts_header count) + total (map alert_row newer) < http_response_max - 512
    → http_response_max
      < length (alerts_header count) + total (map alert_row newer) + length (alert_row oldest)
    → alerts_page count g ≡ none
unfolding alerts_page
alerts_page_overrun g count newer oldest e h k =
    ap (λ as'. fill (alerts_header count) (map alert_row as')) e
    ∙ ap (fill (alerts_header count)) (map-append alert_row newer (oldest ∷ []))
    ∙ fill_overrun (alerts_header count) (map alert_row newer) (alert_row oldest) h k
