-- ===== src/State/Registry/Refine.antt =====
-- The table of state.c implements the abstract map, for identifiers that fit their array.
use mathlib.Core.Path.{fun_ext}
use iot_services_monitoring.Common.{
  ℕ, ◌+◌, ◌≤◌, ◌<◌, ◌≡◌, refl, ap, ◌∙◌, ◌⊎◌, true, false, List, [], ◌∷◌, none, some, arith, pos,
  length, take_all, get_elem?, set, Bool-cases, Option-cases, inl, inr, ◌==◌, if◌then◌else◌,
}
use iot_services_monitoring.Text.{Text, text_eq}
use iot_services_monitoring.Text.Laws.{text_eq_iff}
use iot_services_monitoring.Double.{Double}
use iot_services_monitoring.State.{
  SensorType, AlertLevel, Sensor, GlobalState, is_entry, is_free, is_status_active, is_invalid_type,
  max_sensors, status_active,
}
use iot_services_monitoring.State.Ops.{
  find_from, find_entry, find_slot, put_sensor, new_sensor, state_register_sensor, state_add_metric,
  state_deactivate_sensor, state_set_alert_level,
}
use iot_services_monitoring.State.Arrays.{find_sound, find_from-set_ne, find-set_new, find-set_self}
use iot_services_monitoring.State.Inv.{IsValid, occupied, occupied-le-length}
use iot_services_monitoring.State.Registry.{
  put, register, change, report, leave, with_level, found_sensor, entry, view,
}

is_entry-id : (id : Text) (s : Sensor) → is_entry id s ≡ true → s.id ≡ id
is_entry-id id s h = (text_eq_iff s.id id).0 (ground arith)

is_entry-other :
    (id id' : Text) (s : Sensor) → s.id ≡ id → text_eq id id' ≡ false → is_entry id' s ≡ false
is_entry-other id id' s e f = ground (arith, ap (λ t. text_eq t id') e)

is_entry-same : (id : Text) (s : Sensor) → s.id ≡ id → s.active ≡ true → is_entry id s ≡ true
is_entry-same id s e a = ground (arith, (text_eq_iff s.id id).1 e)

-- A write to the slot of an entry that keeps its identifier replaces that entry only.
module _ (g : GlobalState) (id : Text) {k : ℕ} {s : Sensor}
    (e : find_entry id g ≡ some (k, s)) where
  entry-put_self :
      (s' : Sensor) → s'.id ≡ s.id → s'.active ≡ true → entry (put_sensor g k s') id ≡ some s'
  entry-put_self s' same act =
      let (_, _, test) = find_sound (is_entry id) g.sensors e in
      ap found_sensor (
        find-set_self (is_entry id) g.sensors k s s' e
          (is_entry-same id s' (same ∙ is_entry-id id s test) act))

  entry-put_other :
      (s' : Sensor) (id' : Text)
      → s'.id ≡ s.id
      → text_eq id id' ≡ false
      → entry (put_sensor g k s') id' ≡ entry g id'
  entry-put_other s' id' same f =
      let (_, get, test) = find_sound (is_entry id) g.sensors e in
      let sid = is_entry-id id s test in
      ap found_sensor (
        find_from-set_ne (is_entry id') g.sensors 0 k s' get (is_entry-other id id' s sid f)
          (is_entry-other id id' s' (same ∙ sid) f))

  view-put :
      (s' : Sensor)
      → s'.id ≡ s.id
      → s'.active ≡ true
      → view (put_sensor g k s') ≡ put id s' (view g)
  view-put s' same act = λ i. record { lookup = fun_ext pointwise i; used = g.sensor_count }
    where
      pointwise :
          (id' : Text)
          → entry (put_sensor g k s') id' ≡ (if text_eq id id' then some s' else entry g id')
      pointwise id' = elim (Bool-cases (text_eq id id')) [
        | inl t ↦ rw (t, ← (text_eq_iff id id').0 t) (entry-put_self s' same act)
        | inr f ↦ rw f (entry-put_other s' id' same f)
      ]

  entry-found : entry g id ≡ some s
  entry-found = ap found_sensor e

-- What the four updating operations do, by whether the identifier has an entry.
module _ (g : GlobalState) (id : Text) where
  entry_cases :
      ((find_entry id g ≡ none) × (entry g id ≡ none))
      ⊎ ((k : ℕ) × (s : Sensor) × (find_entry id g ≡ some (k, s))
          × (entry g id ≡ some s)
          × (s.active ≡ true))
  entry_cases = elim (Option-cases (find_entry id g)) [
    | inl e ↦ inl (e, ap found_sensor e)
    | inr ((k, s), e) ↦
        let (_, _, test) = find_sound (is_entry id) g.sensors e in
        inr (k, s, e, ap found_sensor e, ground arith)
  ]

  pub deactivate_refines :
      let (g', code) = state_deactivate_sensor id g in (view g', code) ≡ change id leave (view g)
  unfolding state_deactivate_sensor
  deactivate_refines = elim entry_cases [
    | inl (e, n) ↦ rw (e, state_deactivate_sensor, change, found_sensor)
    | inr (k, s, e, n, act) ↦
        rw (e, state_deactivate_sensor, change, found_sensor)
          (ap (λ t. (t, pos 0)) (view-put g id e (leave s) refl act))
  ]

  pub set_alert_level_refines :
      (level : AlertLevel)
      → let (g', code) = state_set_alert_level id level g in
        (view g', code) ≡ change id (with_level level) (view g)
  unfolding state_set_alert_level
  set_alert_level_refines level = elim entry_cases [
    | inl (e, n) ↦ rw (e, state_set_alert_level, change, found_sensor)
    | inr (k, s, e, n, act) ↦
        rw (e, state_set_alert_level, change, found_sensor)
          (ap (λ t. (t, pos 0)) (view-put g id e (with_level level s) refl act))
  ]

  pub add_metric_refines :
      (value : Double) (ts ty : Text)
      → let (g', code) = state_add_metric id value ts ty g in
        (view g', code) ≡ change id (report value ts) (view g)
  unfolding state_add_metric
  add_metric_refines value ts ty = elim entry_cases [
    | inl (e, n) ↦ rw (e, state_add_metric, change, found_sensor)
    | inr (k, s, e, n, act) ↦
        rw (e, state_add_metric, change, found_sensor)
          (ap (λ t. (t, pos 0)) (view-put g id e (report value ts s) refl act))
  ]

-- The search for a free slot fails exactly when every slot is occupied.
pub slots_full :
    (xs : List Sensor) (i : ℕ) → find_from is_free xs i ≡ none → occupied xs ≡ length xs
unfolding find_from
slots_full [] i e = refl
slots_full (x ∷ xs) i e = ground (arith, slots_full xs (i + 1))

pub slots_free :
    (xs : List Sensor) (i : ℕ) (p : ℕ × Sensor)
    → find_from is_free xs i ≡ some p
    → occupied xs < length xs
unfolding find_from
slots_free [] i p e = absurd (ground arith)
slots_free (x ∷ xs) i p e = ground (arith, occupied-le-length xs, slots_free xs (i + 1) p)

module _ (g : GlobalState) (id : Text) (type : SensorType) (short : length id ≤ 63) where
  view-new :
      {k : ℕ} {s : Sensor}
      → find_entry id g ≡ none
      → find_slot g ≡ some (k, s)
      → view (record g {
        sensors = set g.sensors k (new_sensor id type);
        sensor_count = g.sensor_count + 1;
      })
        ≡ record (put id (new_sensor id type) (view g)) { used = g.sensor_count + 1 }
  view-new {k} {s} missing free =
      λ i. record { lookup = fun_ext pointwise i; used = g.sensor_count + 1 }
    where
      fresh : Sensor
      fresh = new_sensor id type

      same : fresh.id ≡ id
      same = take_all 63 id short

      slot : (k < length g.sensors) × (get_elem? g.sensors k ≡ some s) × (is_free s ≡ true)
      slot = find_sound is_free g.sensors free

      pointwise :
          (id' : Text)
          → found_sensor (find_from (is_entry id') (set g.sensors k fresh) 0)
            ≡ (if text_eq id id' then some fresh else entry g id')
      pointwise id' = elim (Bool-cases (text_eq id id')) [
        | inl t ↦
            rw (t, ← (text_eq_iff id id').0 t)
              (ap found_sensor (
                find-set_new (is_entry id) g.sensors k fresh missing slot.0
                  (is_entry-same id fresh same refl)))
        | inr f ↦ rw f (
            ap found_sensor (
              find_from-set_ne (is_entry id') g.sensors 0 k fresh slot.1 (ground (arith, slot.2))
                (is_entry-other id id' fresh same f)))
      ]

  pub register_refines :
      IsValid g
      → let (g', code) = state_register_sensor id type g in
        (view g', code) ≡ register id type (view g)
  unfolding state_register_sensor
  register_refines v = elim (Bool-cases (is_invalid_type type)) [
    | inl t ↦ rw (t, state_register_sensor, register)
    | inr f ↦ elim (entry_cases g id) [
      | inl (e, n) ↦ elim (Option-cases (find_slot g)) [
        | inl full ↦
            let used : (g.sensor_count == max_sensors) ≡ true =
              ground (arith, slots_full g.sensors 0 full, v.counted, v.sensors_size) in
            rw (f, e, full, used, state_register_sensor, register, found_sensor)
        | inr ((k, s), free) ↦
            let unused : (g.sensor_count == max_sensors) ≡ false =
              ground (arith, slots_free g.sensors 0 (k, s) free, v.counted, v.sensors_size) in
            rw (f, e, free, unused, state_register_sensor, register, found_sensor)
              (ap (λ t. (t, pos 0)) (view-new e free))
      ]
      | inr (k, s, e, n, act) ↦ elim (Bool-cases (is_status_active s.status)) [
        | inl a ↦ rw (f, e, a, state_register_sensor, register, found_sensor)
        | inr a ↦
            rw (f, e, a, state_register_sensor, register, found_sensor)
              (ap (λ t. (t, pos 0))
                (view-put g id e (record s { status = status_active }) refl act))
      ]
    ]
  ]
