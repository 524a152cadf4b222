-- ===== src/Http/Inventory.antt =====
-- The page of the sensors lists all of them, with their numbers above the table.
use mathlib.Core.List.{append_assoc, append-nil}
use iot_services_monitoring.Common.{
  ◌+◌, ◌-◌, ◌*◌, ◌≤◌, ◌<◌, ◌≡◌, refl, ap, ◌∙◌, true, false, List, [], ◌∷◌, ◌++◌, Option, some,
  arith, length, map, lt→ltb, length-append, ◌>>=◌, Bool-cases, inl, inr, All,
}
use iot_services_monitoring.Text.{Text, decimal}
use iot_services_monitoring.State.{Sensor, GlobalState}
use iot_services_monitoring.State.Inv.{IsValid, SensorFits, occupied, occupied-le-length}
use iot_services_monitoring.State.Ops.{count_active, state_get_active_sensor_count}
use iot_services_monitoring.Text.Digits.{length-decimal}
use iot_services_monitoring.Config.{http_response_max, concat}
use iot_services_monitoring.Http.Style.{css_style, build_nav}
use iot_services_monitoring.Http.Tables.{Page, blank, append, table_end, whole}
use iot_services_monitoring.Http.Sensors.{
  Counters, closed_table, count_sensor, zero_counters, sensors_header, sensor_row, append_sensors,
  stats, sensors_page,
}
use iot_services_monitoring.Http.Patched.{
  header_head, header_tail, length-header_head, length-header_tail, patch-found,
}
use iot_services_monitoring.Http.Fit.{text_after, append_fits}
use iot_services_monitoring.Http.Sizes.{length-sensor_row, length-concat}

-- The occupied slots, in the order of the table.
unfoldable pub listed : List Sensor → List Sensor
listed [] = []
listed (s ∷ ss) = elim s.active [ true ↦ s ∷ listed ss | false ↦ listed ss ]

abbrev pub count_sensors : List Sensor → Counters → Counters
count_sensors [] c = c
count_sensors (s ∷ ss) c = count_sensors ss (count_sensor s c)

append_sensors_lem :
    (start : Text) (ss : List Sensor) (c : Counters)
    → length start + 600 * length ss < http_response_max - 512
    → All SensorFits ss
    → append_sensors ss c (whole start)
      ≡ some (count_sensors (listed ss) c, whole (start ++ concat (map sensor_row (listed ss))))
unfolding append_sensors listed concat
append_sensors_lem start [] c h all = rw (append-nil start)
append_sensors_lem start (s ∷ ss) c h all =
    let go = lt→ltb (length start) 65024 (omega arith) in
    let row = length-sensor_row s all.0 in
    let written = append_fits start (sensor_row s) (omega arith) in
    let sum = length-append start (sensor_row s) in
    elim (Bool-cases s.active) [
      | inl used ↦
          rw (go, used, written, append_sensors, listed)
            (append_sensors_lem (start ++ sensor_row s) ss (count_sensor s c) (omega (arith, sum))
                all.1
              ∙ ap (λ (t : Text). some (count_sensors (listed ss) (count_sensor s c), whole t))
                  (append_assoc start (sensor_row s) (concat (map sensor_row (listed ss)))))
      | inr free ↦
          rw (go, free, append_sensors, listed) (append_sensors_lem start ss c (omega arith) all.1)
    ]

length-sensors_header : length sensors_header ≡ 7299
unfolding sensors_header concat css_style build_nav decimal
length-sensors_header = refl

length-count_sensors :
    (ss : List Sensor) (c : Counters)
    → let n = count_sensors (listed ss) c in
      (n.total_sensors ≡ c.total_sensors + occupied ss)
      × (n.active_sensors ≡ c.active_sensors + count_active ss)
      × (n.alert_sensors ≤ c.alert_sensors + occupied ss)
      × (count_active ss ≤ occupied ss)
unfolding listed
length-count_sensors [] c = (omega arith, omega arith, omega arith, omega arith)
length-count_sensors (s ∷ ss) c = elim (Bool-cases s.active) [
  | inl used ↦
      rw (used, listed, count_active) (ground (arith, length-count_sensors ss (count_sensor s c)))
  | inr free ↦ rw (free, listed, count_active) (ground (arith, length-count_sensors ss c))
]

length-stats :
    (c : Counters)
    → c.total_sensors < 1000
    → c.active_sensors < 1000
    → c.alert_sensors < 1000
    → length (concat (stats c)) < 300
unfolding stats
length-stats c h k l =
    let t = length-decimal 2 c.total_sensors (omega arith) in
    let a = length-decimal 2 c.active_sensors (omega arith) in
    let b = length-decimal 2 c.alert_sensors (omega arith) in rw (length-concat) (omega arith)

rows_length :
    (ss : List Sensor)
    → All SensorFits ss
    → length (concat (map sensor_row (listed ss))) ≤ 600 * length ss
unfolding listed concat
rows_length [] h = omega arith
rows_length (s ∷ ss) h =
    let row = length-sensor_row s h.0 in
    let sum = length-append (sensor_row s) (concat (map sensor_row (listed ss))) in
    elim (Bool-cases s.active) [
      | inl used ↦ rw (used, listed) (omega (arith, sum, row, rows_length ss h.1))
      | inr free ↦ rw (free, listed) (omega (arith, rows_length ss h.1))
    ]

abbrev loop_after : GlobalState → Option Page → Option Text
loop_after g p = p >>= λ opened. closed_table (append_sensors g.sensors zero_counters opened)

abbrev pub shown_counters : GlobalState → Counters
shown_counters g = count_sensors (listed g.sensors) zero_counters

-- On a valid state, /sensors is its header with the numbers of the registered and of the active
-- sensors as state.c counts them, then all registered sensors row by row, whole, and the end.
pub sensors_page_lem :
    {g : GlobalState}
    → IsValid g
    → (sensors_page g
        ≡ some (
            header_head
            ++ (concat (stats (shown_counters g))
                ++ (header_tail ++ (concat (map sensor_row (listed g.sensors)) ++ table_end)))))
      × ((shown_counters g).total_sensors ≡ g.sensor_count)
      × ((shown_counters g).active_sensors ≡ state_get_active_sensor_count g)
unfolding sensors_page state_get_active_sensor_count
sensors_page_lem {g} v =
    let counts = length-count_sensors g.sensors zero_counters in
    let few = occupied-le-length g.sensors in
    let c = shown_counters g in
    let st = length-stats c (omega arith) (omega arith) (omega arith) in
    let opened : append sensors_header blank ≡ some (whole sensors_header) =
      append_fits [] sensors_header (omega (arith, length-sensors_header)) in
    let rows = concat (map sensor_row (listed g.sensors)) in
    let filled =
      append_sensors_lem sensors_header g.sensors zero_counters
        (omega (arith, length-sensors_header, v.sensors_size)) v.sensors_fit in
    let body = rows_length g.sensors v.sensors_fit in
    let patched = patch-found c rows st (omega (arith, body, v.sensors_size)) in
    let closed =
      append_fits (header_head ++ (concat (stats c) ++ (header_tail ++ rows))) table_end (
        omega (
          arith,
          st,
          body,
          v.sensors_size,
          length-header_head,
          length-header_tail,
          length-append header_head (concat (stats c) ++ (header_tail ++ rows)),
          length-append (concat (stats c)) (header_tail ++ rows),
          length-append header_tail rows,
        )) in
    (
      ap (loop_after g) opened
          ∙ ap closed_table filled
          ∙ ap (λ p. text_after (append table_end p)) patched
          ∙ ap text_after closed
          ∙ ap some (
              append_assoc header_head (concat (stats c) ++ (header_tail ++ rows)) table_end
              ∙ ap (λ t. header_head ++ t)
                  (append_assoc (concat (stats c)) (header_tail ++ rows) table_end
                    ∙ ap (λ t. concat (stats c) ++ t) (append_assoc header_tail rows table_end))),
      omega (arith, counts, v.counted),
      omega (arith, counts),
    )
