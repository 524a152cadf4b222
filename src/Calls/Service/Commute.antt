-- ===== src/Calls/Service/Commute.antt =====
-- States of the server up to the service: the map of sensors, the newest metrics and the newest alerts,
-- without the slots of the table. Calls whose order makes no difference there.
-- Two registrations in the two orders take different slots of the table.
use mathlib.Core.Path.{fun_ext}
use mathlib.Core.Quot
use mathlib.Core.Quot.{Quot, Quot-set}
use iot_services_monitoring.Common.{
  ℕ, ◌+◌, ◌≤◌, ◌<◌, ◌≡◌, refl, sym, ap, ◌∙◌, true, false, Option, none, some, arith, length, ◌==◌,
  Bool-cases, Option-cases, inl, inr, if◌then◌else◌,
}
use iot_services_monitoring.Text.{Text, text_eq}
use iot_services_monitoring.Text.Laws.{text_eq_iff, text_eq-ne}
use iot_services_monitoring.State.{
  GlobalState, Sensor, SensorType, status_active, is_status_active, is_invalid_type, max_sensors,
}
use iot_services_monitoring.State.Ops.{new_sensor}
use iot_services_monitoring.State.Inv.{IsValid}
use iot_services_monitoring.State.Registry.{Table, put, register, view}
use iot_services_monitoring.Calls.{Call, register_sensor, exec}
use iot_services_monitoring.Calls.Invariant.{exec-IsValid}
use iot_services_monitoring.Calls.Service.{service_of, Fits, specify}
use iot_services_monitoring.Calls.Service.Refines.{exec_refines}

-- What a registration with a valid type and room in the table does to the entry: nothing, or a new
-- entry that takes so many places.
abbrev effect : Text → SensorType → Option Sensor → Option (Sensor × ℕ)
effect id type none = some (new_sensor id type, 1)
effect id type (some s) =
    if is_status_active s.status then none else some (record s { status = status_active }, 0)

abbrev apply : Text → Option (Sensor × ℕ) → Table → Table
apply id none t = t
apply id (some (s, n)) t = record (put id s t) { used = t.used + n }

as_used : (t : Table) → t ≡ record t { used = t.used + 0 }
as_used t =
    let same : t.used ≡ t.used + 0 = omega arith in λ i. record { lookup = t.lookup; used = same i }

register-apply :
    (id : Text) (type : SensorType) (t : Table)
    → is_invalid_type type ≡ false
    → t.used < max_sensors
    → (register id type t).0 ≡ apply id (effect id type (t.lookup id)) t
register-apply id type t valid room =
    let free : (t.used == max_sensors) ≡ false = ground (arith, room) in
    elim (Option-cases (t.lookup id)) [
      | inl e ↦ rw (valid, e, free, register) refl
      | inr (s, e) ↦ elim (Bool-cases (is_status_active s.status)) [
        | inl a ↦ rw (valid, e, a, register) refl
        | inr a ↦
            rw (valid, e, a, register) (as_used (put id (record s { status = status_active }) t))
      ]
    ]

register-invalid :
    (id : Text) (type : SensorType) (t : Table)
    → is_invalid_type type ≡ true
    → (register id type t).0 ≡ t
register-invalid id type t invalid = rw (invalid, register) refl

effect_size :
    (id : Text) (type : SensorType) (entry : Option Sensor) (t : Table)
    → (apply id (effect id type entry) t).used ≤ t.used + 1
effect_size id type none t = omega arith
effect_size id type (some s) t = elim (Bool-cases (is_status_active s.status)) [
  | inl a ↦ rw (a, apply) (omega arith)
  | inr a ↦ rw (a, apply) (omega arith)
]

apply-lookup :
    (a b : Text) (e : Option (Sensor × ℕ)) (t : Table)
    → text_eq a b ≡ false
    → (apply a e t).lookup b ≡ t.lookup b
apply-lookup a b none t ne = refl
apply-lookup a b (some (s, n)) t ne = rw ne refl

-- A registration behind another one.
register-behind :
    (a b : Text) (type type' : SensorType) (t : Table)
    → text_eq b a ≡ false
    → is_invalid_type type ≡ false
    → is_invalid_type type' ≡ false
    → t.used + 2 ≤ max_sensors
    → (register a type (register b type' t).0).0
      ≡ apply a (effect a type (t.lookup a)) (apply b (effect b type' (t.lookup b)) t)
register-behind a b type type' t ne valid valid' room =
    let e = effect b type' (t.lookup b) in
    let size = effect_size b type' (t.lookup b) t in
    ap (λ t. (register a type t).0) (register-apply b type' t valid' (omega arith))
    ∙ register-apply a type (apply b e t) valid (omega (arith, size))
    ∙ ap (λ l. apply a (effect a type l) (apply b e t)) (apply-lookup b a e t ne)

-- Entries of two identifiers.
module _ (a b : Text) (ne : text_eq a b ≡ false) where
  put-put :
      (s s' : Sensor) (t : Table) (id : Text)
      → (put a s (put b s' t)).lookup id ≡ (put b s' (put a s t)).lookup id
  put-put s s' t id = elim (Bool-cases (text_eq a id)) [
    | inl e ↦ elim (Bool-cases (text_eq b id)) [
      | inl e' ↦ absurd (
          let same : a ≡ b = (text_eq_iff a id).0 e ∙ sym ((text_eq_iff b id).0 e') in
          let eq = (text_eq_iff a b).1 same in cc)
      | inr f' ↦ rw (e, f') refl
    ]
    | inr f ↦ rw f refl
  ]

  apply-apply :
      (e e' : Option (Sensor × ℕ)) (t : Table) → apply a e (apply b e' t) ≡ apply b e' (apply a e t)
  apply-apply none e' t = refl
  apply-apply (some p) none t = refl
  apply-apply (some (s, n)) (some (s', n')) t =
      let used : t.used + n' + n ≡ t.used + n + n' = omega arith in
      λ i. record { lookup = fun_ext (put-put s s' t) i; used = used i }

-- With two places left, two sensors are registered in either order with one result.
register-register :
    (a b : Text) (type type' : SensorType) (t : Table)
    → text_eq a b ≡ false
    → text_eq b a ≡ false
    → t.used + 2 ≤ max_sensors
    → (register a type (register b type' t).0).0 ≡ (register b type' (register a type t).0).0
register-register a b type type' t ne ne' room = elim (Bool-cases (is_invalid_type type)) [
  | inl invalid ↦
      register-invalid a type (register b type' t).0 invalid
      ∙ ap (λ t. (register b type' t).0) (sym (register-invalid a type t invalid))
  | inr valid ↦ elim (Bool-cases (is_invalid_type type')) [
    | inl invalid ↦
        ap (λ t. (register a type t).0) (register-invalid b type' t invalid)
        ∙ sym (register-invalid b type' (register a type t).0 invalid)
    | inr valid' ↦
        register-behind a b type type' t ne' valid valid' room
        ∙ apply-apply a b ne (effect a type (t.lookup a)) (effect b type' (t.lookup b)) t
        ∙ sym (register-behind b a type' type t ne valid' valid room)
  ]
]

abbrev pub Valid : Type 0
Valid = (g : GlobalState) × IsValid g

-- What the service makes of two states is the same.
abbrev pub Same : Valid → Valid → Type 0
Same a b = service_of a.0 ≡ service_of b.0

-- The states that the server can be in, up to the slots of the sensors.
abbrev pub States : Type 0
States = Quot Same

abbrev pub after : (c : Call) → Valid → Valid
after c (g, v) = ((exec c g).0, exec-IsValid c v)

pub after-service :
    (c : Call) (a : Valid) → Fits c → service_of (after c a).0 ≡ (specify c (service_of a.0)).0
after-service c (g, v) f = ap (λ p. p.0) (exec_refines c g v f)

-- A call as a step between them.
unfoldable pub perform : (c : Call) → Fits c → States → States
perform c f =
    Quot.lift Quot-set (λ a. Quot.mk (after c a))
      (λ a b same.
        Quot.sound
          (after-service c a f ∙ ap (λ s. (specify c s).0) same ∙ sym (after-service c b f)))

after_two :
    (c c' : Call) (a : Valid)
    → Fits c
    → Fits c'
    → service_of (after c (after c' a)).0 ≡ (specify c (specify c' (service_of a.0)).0).0
after_two c c' a f f' =
    after-service c (after c' a) f ∙ ap (λ s. (specify c s).0) (after-service c' a f')

text_eq-flip : (a b : Text) → text_eq a b ≡ false → text_eq b a ≡ false
text_eq-flip a b ne = elim (Bool-cases (text_eq b a)) [
  | inl e ↦ absurd (text_eq-ne a b ne (sym ((text_eq_iff b a).0 e)))
  | inr f ↦ f
]

-- Registering two identifiers that differ, of at most 63 bytes, in a table with two free places: the
-- two orders lead to the same sensors, metrics and alerts.
pub registrations_commute :
    (a b : Text) (type type' : SensorType) (g : GlobalState) (v : IsValid g) (short : length a ≤ 63)
    (short' : length b ≤ 63)
    → text_eq a b ≡ false
    → g.sensor_count + 2 ≤ max_sensors
    → let state : States = Quot.mk (g, v) in
      perform (register_sensor a type) short (perform (register_sensor b type') short' state)
      ≡ perform (register_sensor b type') short' (perform (register_sensor a type) short state)
unfolding perform
registrations_commute a b type type' g v short short' ne room =
    let (one, other) : Call × Call = (register_sensor a type, register_sensor b type') in
    Quot.sound (
      after_two one other (g, v) short short'
      ∙ ap (λ (t : Table). record (service_of g) { table = t })
          (register-register a b type type' (view g) ne (text_eq-flip a b ne) room)
      ∙ sym (after_two other one (g, v) short' short))
