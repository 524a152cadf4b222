-- ===== src/Calls/Lifetime.antt =====
-- A sensor that the table has once is never lost: no operation of state.c empties an occupied slot or
-- changes its identifier.
use iot_services_monitoring.Common.{
  ℕ, zero, suc, ◌+◌, ◌≡◌, refl, ◌⊎◌, inl, inr, Bool, true, false, List, [], ◌∷◌, Option, none, some,
  arith, set, get_elem?, Bool-cases, Option-cases, pos,
}
use iot_services_monitoring.Text.{Text}
use iot_services_monitoring.State.{
  SensorType, status_active, Sensor, GlobalState, is_entry, is_free, is_invalid_type,
  is_status_active,
}
use iot_services_monitoring.State.Ops.{
  find_from, find_entry, find_slot, put_sensor, new_sensor, state_register_sensor,
  state_find_sensor, state_add_metric, state_add_alert, state_deactivate_sensor,
  state_set_alert_level,
}
use iot_services_monitoring.State.Arrays.{find_sound}
use iot_services_monitoring.Calls.{
  Call, register_sensor, find_sensor, add_metric, add_alert, deactivate_sensor, set_alert_level,
  get_sensor_count, get_active_sensor_count, get_alert_count, get_metric_count, read_state, exec,
  exec_all,
}

-- Some entry is found.
abbrev pub IsFound : Option (ℕ × Sensor) → Type 0
IsFound none = ⊥
IsFound (some p) = Unit

IsFound-set :
    (test : Sensor → Bool) (xs : List Sensor) (i j : ℕ) (x y : Sensor)
    → get_elem? xs j ≡ some x
    → (test x ≡ false) ⊎ (test y ≡ true)
    → IsFound (find_from test xs i)
    → IsFound (find_from test (set xs j y) i)
unfolding find_from
IsFound-set test [] i j x y g h f = f
IsFound-set test (z ∷ xs) i zero x y g h f = ground arith
IsFound-set test (z ∷ xs) i (suc j) x y g h f =
    ground (arith, IsFound-set test xs (i + 1) j x y g h)

-- The other sensor that is looked for.
module _ (id₀ : Text) (g : GlobalState) (known : IsFound (find_entry id₀ g)) where
  update-IsFound :
      (id : Text) {k : ℕ} {s : Sensor} (s' : Sensor)
      → find_entry id g ≡ some (k, s)
      → s'.id ≡ s.id
      → s'.active ≡ s.active
      → IsFound (find_entry id₀ (put_sensor g k s'))
  update-IsFound id {k} {s} s' e same act =
      let (_, get, _) = find_sound (is_entry id) g.sensors e in
      IsFound-set (is_entry id₀) g.sensors 0 k s s' get
        (elim (Bool-cases (is_entry id₀ s)) [ inl t ↦ inr (rw (act, same) t) | inr f ↦ inl f ])
        known

  register-IsFound :
      (id : Text) (type : SensorType) → IsFound (find_entry id₀ (state_register_sensor id type g).0)
  unfolding state_register_sensor
  register-IsFound id type = elim (Bool-cases (is_invalid_type type)) [
    | inl t ↦ rw (t, state_register_sensor) known
    | inr f ↦ elim (Option-cases (find_entry id g)) [
      | inl e ↦ elim (Option-cases (find_slot g)) [
        | inl full ↦ rw (f, e, full, state_register_sensor) known
        | inr ((k, s), free) ↦
            let (_, get, test) = find_sound is_free g.sensors free in
            rw (f, e, free, state_register_sensor)
              (IsFound-set (is_entry id₀) g.sensors 0 k s (new_sensor id type) get
                (inl (ground (arith, test))) known)
      ]
      | inr ((k, s), e) ↦ elim (Bool-cases (is_status_active s.status)) [
        | inl a ↦ rw (f, e, a, state_register_sensor) known
        | inr a ↦
            rw (f, e, a, state_register_sensor)
              (update-IsFound id (record s { status = status_active }) e refl refl)
      ]
    ]
  ]

  exec-IsFound : (c : Call) → IsFound (find_entry id₀ (exec c g).0)
  unfolding state_add_metric state_add_alert state_deactivate_sensor state_set_alert_level
  exec-IsFound (register_sensor id type) = register-IsFound id type
  exec-IsFound (find_sensor id) = known
  exec-IsFound (add_metric id value ts ty) = elim (Option-cases (find_entry id g)) [
    | inl e ↦ rw (e, state_add_metric) known
    | inr ((k, s), e) ↦ rw (e, state_add_metric) (update-IsFound id _ e refl refl)
  ]
  exec-IsFound (add_alert id value thr ts ty msg) = known
  exec-IsFound (deactivate_sensor id) = elim (Option-cases (find_entry id g)) [
    | inl e ↦ rw (e, state_deactivate_sensor) known
    | inr ((k, s), e) ↦ rw (e, state_deactivate_sensor) (update-IsFound id _ e refl refl)
  ]
  exec-IsFound (set_alert_level id level) = elim (Option-cases (find_entry id g)) [
    | inl e ↦ rw (e, state_set_alert_level) known
    | inr ((k, s), e) ↦ rw (e, state_set_alert_level) (update-IsFound id _ e refl refl)
  ]
  exec-IsFound get_sensor_count = known
  exec-IsFound get_active_sensor_count = known
  exec-IsFound get_alert_count = known
  exec-IsFound get_metric_count = known
  exec-IsFound read_state = known

-- A sensor that state_find_sensor finds is found after any calls of any threads.
pub exec_all-IsFound :
    (id : Text) (cs : List Call) (g : GlobalState)
    → IsFound (state_find_sensor id g)
    → IsFound (state_find_sensor id (exec_all cs g))
unfolding exec_all state_find_sensor
exec_all-IsFound id [] g known = known
exec_all-IsFound id (c ∷ cs) g known =
    exec_all-IsFound id cs (exec c g).0 (exec-IsFound id g known c)

-- state_add_metric succeeds exactly for the sensors that are found.
pub add_metric-code :
    (id : Text) (value : ℕ) (ts ty : Text) (g : GlobalState)
    → IsFound (state_find_sensor id g)
    → (state_add_metric id value ts ty g).1 ≡ pos 0
unfolding state_add_metric state_find_sensor
add_metric-code id value ts ty g known = ground arith
