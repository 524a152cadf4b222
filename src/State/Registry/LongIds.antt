-- ===== src/State/Registry/LongIds.antt =====
-- Identifiers that do not fit the 64 bytes of Sensor.id: the table keeps a shortened copy, which no
-- search by the full identifier finds.
use iot_services_monitoring.Common.{
  ℕ, ◌+◌, ◌≤◌, ◌≡◌, refl, ap, false, List, [], ◌∷◌, none, arith, pos, negsuc, length, All,
  Bool-cases, Option-cases, inl, inr, ◌==◌, if◌then◌else◌,
}
use iot_services_monitoring.Text.{Text, text_eq}
use iot_services_monitoring.Text.Laws.{text_eq_iff}
use iot_services_monitoring.State.{
  SensorType, Sensor, GlobalState, is_entry, is_invalid_type, max_sensors,
}
use iot_services_monitoring.State.Ops.{
  find_from, find_entry, find_slot, state_register_sensor, state_find_sensor,
}
use iot_services_monitoring.State.Inv.{IsValid, SensorFits}
use iot_services_monitoring.State.Inv.Keeps.{state_register_sensor-IsValid}
use iot_services_monitoring.State.Registry.Refine.{slots_full, slots_free}

long-not_entry : (id : Text) (s : Sensor) → 64 ≤ length id → SensorFits s → is_entry id s ≡ false
long-not_entry id s long fits = elim (Bool-cases (text_eq s.id id)) [
  | inl t ↦ absurd (omega (arith, ap length ((text_eq_iff s.id id).0 t)))
  | inr f ↦ ground arith
]

long-not_found :
    (id : Text) (xs : List Sensor) (i : ℕ)
    → 64 ≤ length id
    → All SensorFits xs
    → find_from (is_entry id) xs i ≡ none
unfolding find_from
long-not_found id [] i long fits = refl
long-not_found id (s ∷ xs) i long fits =
    ground (arith, long-not_entry id s long fits.0, long-not_found id xs (i + 1) long fits.1)

-- Registering an identifier of 64 bytes or more with a valid type never reports -2: it takes a new
-- slot whenever there is one, and the identifier is not found before or after.
pub register_long_id :
    (g : GlobalState) (id : Text) (type : SensorType)
    → IsValid g
    → 64 ≤ length id
    → is_invalid_type type ≡ false
    → let (g', code) = state_register_sensor id type g in
      (code ≡ (if g.sensor_count == max_sensors then negsuc 0 else pos 0))
      × (g'.sensor_count ≡ (if g.sensor_count == max_sensors then 64 else g.sensor_count + 1))
      × (state_find_sensor id g ≡ none)
      × (state_find_sensor id g' ≡ none)
unfolding state_register_sensor state_find_sensor
register_long_id g id type v long valid =
    let missing : find_entry id g ≡ none = long-not_found id g.sensors 0 long v.sensors_fit in
    let after = (state_register_sensor-IsValid v id type).sensors_fit in
    elim (Option-cases (find_slot g)) [
      | inl full ↦ (
        ground (arith, slots_full g.sensors 0 full, v.counted, v.sensors_size),
        ground (arith, slots_full g.sensors 0 full, v.counted, v.sensors_size),
        missing,
        long-not_found id (state_register_sensor id type g).0.sensors 0 long after,
      )
      | inr ((k, s), free) ↦ (
        ground (arith, slots_free g.sensors 0 (k, s) free, v.counted, v.sensors_size),
        ground (arith, slots_free g.sensors 0 (k, s) free, v.counted, v.sensors_size),
        missing,
        long-not_found id (state_register_sensor id type g).0.sensors 0 long after,
      )
    ]
