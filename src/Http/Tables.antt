-- ===== src/Http/Tables.antt =====
-- The pages with a table: the buffer that is filled row by row behind a running offset.
use iot_services_monitoring.Common.{
  ℕ, ◌+◌, ◌-◌, true, false, List, [], ◌∷◌, ◌++◌, Option, none, some, length, take, ltb, map,
  if◌then◌else◌, ◌>>=◌,
}
use iot_services_monitoring.Text.{Text, codes, decimal}
use iot_services_monitoring.Double.{print_2f}
use iot_services_monitoring.State.{Metric, Alert, GlobalState}
use iot_services_monitoring.State.Recent.{recent_metrics, recent_alerts}
use iot_services_monitoring.Config.{http_response_max, concat}
use iot_services_monitoring.Http.Style.{css_style, build_nav}

-- The C string in `body`, and `offset`.
pub record Page : Type 0 where
  pub body : Text
  pub offset : ℕ

-- A page with this text, none of it cut.
abbrev pub whole : Text → Page
whole s = record { body = s; offset = length s }

abbrev pub blank : Page
blank = record { body = []; offset = 0 }

-- offset += snprintf(body + offset, sizeof(body) - offset, ...): the text is cut at the end of the
-- buffer, the offset is not. Past the end the size wraps around and the call writes outside the
-- buffer: `none`.
unfoldable pub append : Text → Page → Option Page
append s p =
    if ltb http_response_max p.offset
    then none
    else some (record {
      body = p.body ++ take (http_response_max - p.offset - 1) s;
      offset = p.offset + length s;
    })

-- The loop over the rows: it goes on while `offset` is below the buffer's size less 512.
unfoldable pub append_rows : List Text → Page → Option Page
unfolding append
append_rows [] p = some p
append_rows (row ∷ rows) p = elim (ltb p.offset (http_response_max - 512)) [
  | true ↦ elim (append row p) [ none ↦ none | some p' ↦ append_rows rows p' ]
  | false ↦ some p
]

abbrev pub text_of : Page → Text
text_of p = p.body

abbrev pub table_end : Text
table_end = codes "</table></div></div></div></body></html>"

-- The header of the table, its rows, and its end.
unfoldable pub fill : Text → List Text → Option Text
fill header rows = do
  opened ← append header blank
  filled ← append_rows rows opened
  closed ← append table_end filled
  some (text_of closed)

unfoldable pub alert_row : Alert → Text
unfolding concat print_2f
alert_row r = concat (
    codes "<tr><td>"
    ∷ r.sensor_id
    ∷ codes "</td><td>"
    ∷ r.type_str
    ∷ codes "</td><td>"
    ∷ print_2f r.value
    ∷ codes "</td>"
    ∷ codes "<td>"
    ∷ print_2f r.threshold
    ∷ codes "</td><td>"
    ∷ r.message
    ∷ codes "</td><td>"
    ∷ r.timestamp
    ∷ codes "</td></tr>"
    ∷ [])

unfoldable pub metric_row : Metric → Text
unfolding concat print_2f
metric_row r = concat (
    codes "<tr><td>"
    ∷ r.sensor_id
    ∷ codes "</td><td>"
    ∷ r.type_str
    ∷ codes "</td>"
    ∷ codes "<td>"
    ∷ print_2f r.value
    ∷ codes "</td><td>"
    ∷ r.timestamp
    ∷ codes "</td></tr>"
    ∷ [])

unfoldable pub alerts_header : ℕ → Text
unfolding concat
alerts_header count = concat (
    codes "<!DOCTYPE html><html><head>"
    ∷ codes "<meta charset='UTF-8'><title>Alertas</title>"
    ∷ css_style
    ∷ codes "</head><body>"
    ∷ build_nav
    ∷ codes "<div class='container'>"
    ∷ codes "<div class='card'>"
    ∷ codes "<div class='card-title'>"
    ∷ codes "<div><div class='eyebrow'>Eventos de riesgo</div><h2>Alertas registradas</h2>"
    ∷ codes
        "<p>Incidentes ordenados desde el m&aacute;s reciente, con valor observado, umbral y timestamp.</p></div>"
    ∷ codes "<span class='badge badge-alert'>Atenci&oacute;n prioritaria</span>"
    ∷ codes "</div>"
    ∷ codes "<div class='stats'>"
    ∷ codes "<div class='stat-card'><div class='number'>"
    ∷ decimal count
    ∷ codes "</div><div class='label'>Alertas acumuladas</div></div>"
    ∷ codes
        "<div class='stat-card'><div class='number'>70 / 50 / 10-100</div><div class='label'>Umbrales TEMP / VIB / POWER</div></div>"
    ∷ codes "</div>"
    ∷ codes "</div>"
    ∷ codes "<div class='card'>"
    ∷ codes "<div class='table-wrap'><table>"
    ∷ codes "<tr><th>Sensor</th><th>Tipo</th><th>Valor</th>"
    ∷ codes "<th>Umbral</th><th>Mensaje</th><th>Timestamp</th></tr>"
    ∷ [])

unfoldable pub metrics_header : ℕ → Text
unfolding concat
metrics_header count = concat (
    codes "<!DOCTYPE html><html><head>"
    ∷ codes "<meta charset='UTF-8'><title>M&eacute;tricas</title>"
    ∷ css_style
    ∷ codes "</head><body>"
    ∷ build_nav
    ∷ codes "<div class='container'>"
    ∷ codes "<div class='card'>"
    ∷ codes "<div class='card-title'>"
    ∷ codes
        "<div><div class='eyebrow'>Historial reciente</div><h2>&Uacute;ltimas m&eacute;tricas</h2>"
    ∷ codes
        "<p>Traza descendente del flujo de telemetr&iacute;a almacenado en memoria por el servidor.</p></div>"
    ∷ codes "<span class='badge badge-accent'>Buffer circular</span>"
    ∷ codes "</div>"
    ∷ codes "<div class='stats'>"
    ∷ codes "<div class='stat-card'><div class='number'>"
    ∷ decimal count
    ∷ codes "</div><div class='label'>M&eacute;tricas almacenadas</div></div>"
    ∷ codes
        "<div class='stat-card'><div class='number'>512</div><div class='label'>Capacidad m&aacute;xima del buffer</div></div>"
    ∷ codes "</div>"
    ∷ codes "</div>"
    ∷ codes "<div class='card'>"
    ∷ codes "<div class='table-wrap'><table>"
    ∷ codes "<tr><th>Sensor</th><th>Tipo</th>"
    ∷ codes "<th>Valor</th><th>Timestamp</th></tr>"
    ∷ [])

-- route_alerts with the snapshot of the count, and the state under the lock.
unfoldable pub alerts_page : ℕ → GlobalState → Option Text
alerts_page count g = fill (alerts_header count) (map alert_row (recent_alerts g))

unfoldable pub metrics_page : ℕ → GlobalState → Option Text
metrics_page count g = fill (metrics_header count) (map metric_row (recent_metrics g))
