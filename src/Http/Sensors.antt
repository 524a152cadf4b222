-- ===== src/Http/Sensors.antt =====
-- The page of the sensors: its counters are counted along with the rows, and written over the zeros
-- of the header when the table is filled.
use iot_services_monitoring.Common.{
  ℕ, ◌+◌, ◌-◌, Bool, true, false, List, [], ◌∷◌, ◌++◌, Option, none, some, length, take, drop, ltb,
  if◌then◌else◌, ◌>>=◌,
}
use iot_services_monitoring.Text.{Text, codes, decimal, strstr}
use iot_services_monitoring.Double.{print_2f}
use iot_services_monitoring.State.{
  SensorStatus, status_active, status_inactive, AlertLevel, alert_normal, alert_alert, Sensor,
  GlobalState, sensor_type_to_str, is_status_active,
}
use iot_services_monitoring.Config.{http_response_max, concat, snprintf}
use iot_services_monitoring.Http.Style.{css_style, build_nav}
use iot_services_monitoring.Http.Tables.{Page, blank, append, table_end, text_of, whole}

abbrev pub status_badge : SensorStatus → Text
status_badge status_active = codes "<span class='badge badge-active'>ACTIVE</span>"
status_badge status_inactive = codes "<span class='badge badge-inactive'>INACTIVE</span>"

abbrev pub alert_badge : AlertLevel → Text
alert_badge alert_normal = codes "<span class='badge badge-normal'>NORMAL</span>"
alert_badge alert_alert = codes "<span class='badge badge-alert'>ALERT</span>"

unfoldable pub sensor_row : Sensor → Text
unfolding concat print_2f
sensor_row r = concat (
    codes "<tr><td>"
    ∷ r.id
    ∷ codes "</td><td>"
    ∷ sensor_type_to_str r.type
    ∷ codes "</td><td>"
    ∷ status_badge r.status
    ∷ codes "</td>"
    ∷ codes "<td>"
    ∷ print_2f r.last_value
    ∷ codes "</td><td>"
    ∷ r.last_timestamp
    ∷ codes "</td><td>"
    ∷ alert_badge r.alert_level
    ∷ codes "</td></tr>"
    ∷ [])

pub record Counters : Type 0 where
  pub total_sensors : ℕ
  pub active_sensors : ℕ
  pub alert_sensors : ℕ

abbrev pub is_alert : AlertLevel → Bool
is_alert alert_normal = false
is_alert alert_alert = true

abbrev pub count_sensor : Sensor → Counters → Counters
count_sensor s c = record {
  total_sensors = c.total_sensors + 1;
  active_sensors = c.active_sensors + (if is_status_active s.status then 1 else 0);
  alert_sensors = c.alert_sensors + (if is_alert s.alert_level then 1 else 0);
}

-- The loop over the slots.
unfoldable pub append_sensors : List Sensor → Counters → Page → Option (Counters × Page)
unfolding append sensor_row
append_sensors [] c p = some (c, p)
append_sensors (s ∷ ss) c p = elim (ltb p.offset (http_response_max - 512)) [
  | false ↦ some (c, p)
  | true ↦ elim s.active [
    | false ↦ append_sensors ss c p
    | true ↦ elim (append (sensor_row s) p) [
      | none ↦ none
      | some p' ↦ append_sensors ss (count_sensor s c) p'
    ]
  ]
]

-- The three cards.
unfoldable pub stats : Counters → List Text
stats c =
    codes "<div class='stat-card'><div class='number'>"
    ∷ decimal c.total_sensors
    ∷ codes "</div><div class='label'>Registrados</div></div>"
    ∷ codes "<div class='stat-card'><div class='number'>"
    ∷ decimal c.active_sensors
    ∷ codes "</div><div class='label'>Activos</div></div>"
    ∷ codes "<div class='stat-card'><div class='number'>"
    ∷ decimal c.alert_sensors
    ∷ codes "</div><div class='label'>En alerta</div></div>"
    ∷ []

abbrev pub zero_counters : Counters
zero_counters = record { total_sensors = 0; active_sensors = 0; alert_sensors = 0 }

abbrev pub zero_stats : Text
zero_stats =
    codes
      "<div class='stat-card'><div class='number'>0</div><div class='label'>Registrados</div></div><div class='stat-card'><div class='number'>0</div><div class='label'>Activos</div></div><div class='stat-card'><div class='number'>0</div><div class='label'>En alerta</div></div>"

unfoldable pub sensors_header : Text
unfolding concat
sensors_header = concat (
    codes "<!DOCTYPE html><html><head>"
    ∷ codes "<meta charset='UTF-8'><title>Sensores</title>"
    ∷ css_style
    ∷ codes "</head><body>"
    ∷ build_nav
    ∷ codes "<div class='container'>"
    ∷ codes "<div class='card'>"
    ∷ codes "<div class='card-title'>"
    ∷ codes "<div><div class='eyebrow'>Inventario de campo</div><h2>Sensores registrados</h2>"
    ∷ codes
        "<p>Vista de estado, &uacute;ltimo valor reportado y nivel de alerta por dispositivo.</p></div>"
    ∷ codes "<span class='badge badge-accent'>Tabla operativa</span>"
    ∷ codes "</div>"
    ∷ codes "<div class='stats'>"
    ∷ codes "<div class='stat-card'><div class='number'>"
    ∷ decimal 0
    ∷ codes "</div><div class='label'>Registrados</div></div>"
    ∷ codes "<div class='stat-card'><div class='number'>"
    ∷ decimal 0
    ∷ codes "</div><div class='label'>Activos</div></div>"
    ∷ codes "<div class='stat-card'><div class='number'>"
    ∷ decimal 0
    ∷ codes "</div><div class='label'>En alerta</div></div>"
    ∷ codes "</div>"
    ∷ codes "</div>"
    ∷ codes "<div class='card'>"
    ∷ codes "<div class='table-wrap'><table>"
    ∷ codes "<tr><th>ID</th><th>Tipo</th><th>Estado</th>"
    ∷ codes "<th>&Uacute;ltimo Valor</th><th>Timestamp</th><th>Alerta</th></tr>"
    ∷ [])

-- strncat(body, s, sizeof(body) - strlen(body) - 1)
abbrev pub strncat : Text → Text → Text
strncat body s = body ++ take (http_response_max - length body - 1) s

-- The replacement of the zeros that stand at `stats_pos`.
abbrev pub replaced : Counters → Text → Text → Text
replaced c body stats_pos =
    let tail = take (http_response_max - 1) (drop (length zero_stats) stats_pos) in
    strncat (strncat (take (length body - length stats_pos) body) (snprintf 1024 (stats c))) tail

unfoldable pub patch : Counters → Page → Page
patch c p = elim (strstr p.body zero_stats) [
  | none ↦ p
  | some stats_pos ↦ whole (replaced c p.body stats_pos)
]

-- The steps behind the loop.
abbrev pub closed_table : Option (Counters × Page) → Option Text
closed_table none = none
closed_table (some (c, filled)) = do
  closed ← append table_end (patch c filled)
  some (text_of closed)

unfoldable pub sensors_page : GlobalState → Option Text
sensors_page g = do
  opened ← append sensors_header blank
  closed_table (append_sensors g.sensors zero_counters opened)
