-- ===== src/Http.antt =====
-- server/src/http_server.c: the pages for the operators. A response and how it is sent are here; the
-- pages are in Pages (fixed texts), Tables (alerts and metrics) and Sensors, and Requests reads a
-- request and picks the page.
mod Tests
pub mod Style
pub mod Pages
pub mod Tables
pub mod Sensors
pub mod Requests
pub mod Fit
pub mod Sizes
pub mod Views
pub mod Overrun
pub mod Inventory
pub mod Patched
pub mod Routes
pub mod Answers
pub mod Sending
pub mod Statuses
use iot_services_monitoring.Common.{
  ℕ, zero, suc, ◌-◌, List, [], ◌∷◌, ◌++◌, Option, none, some, take, drop, length, ℤ,
}
use iot_services_monitoring.Text.{Text, codes, decimal}
use iot_services_monitoring.Config.{concat, snprintf}
use iot_services_monitoring.Logger.{Entry, log_http}

pub record Response : Type 0 where
  pub status_code : ℕ
  pub status_text : Text
  pub body : Text

unfoldable pub header_of : Response → Text
unfolding concat decimal
header_of r = snprintf 512 (
    codes "HTTP/1.1 "
    ∷ decimal r.status_code
    ∷ codes " "
    ∷ r.status_text
    ∷ codes "\r\nContent-Type: text/html; charset=UTF-8\r\nContent-Length: "
    ∷ decimal (length r.body)
    ∷ codes "\r\nConnection: close\r\n\r\n"
    ∷ [])

-- The loop over the body: `accepts` lists what the calls of send return, `none` for a failure. A
-- result that is not positive ends it.
unfoldable pub send_body : Text → List (Option ℕ) → Text
send_body [] accepts = []
send_body (c ∷ s) [] = []
send_body (c ∷ s) (none ∷ accepts) = []
send_body (c ∷ s) (some zero ∷ accepts) = []
send_body (c ∷ s) (some (suc n) ∷ accepts) =
    take (suc n) (c ∷ s) ++ send_body (drop (suc n) (c ∷ s)) accepts

-- What goes out: the header by one call of send, whose result is not looked at, and the body.
unfoldable pub send_http_response : Response → List (Option ℕ) → Text
unfolding header_of send_body
send_http_response r [] = []
send_http_response r (none ∷ accepts) = send_body r.body accepts
send_http_response r (some n ∷ accepts) = take n (header_of r) ++ send_body r.body accepts

-- The text of the response in the log.
unfoldable pub resp_summary : Response → Text
unfolding concat decimal
resp_summary r = snprintf 64 (decimal r.status_code ∷ codes " " ∷ r.status_text ∷ [])

-- http_log_and_send: what goes out, and the entry in the log.
abbrev pub http_log_and_send : Response → List (Option ℕ) → Text → Text → ℤ → Text → Text × Entry
http_log_and_send r accepts ts ip port req_line =
    (send_http_response r accepts, log_http ts ip port req_line (resp_summary r))
