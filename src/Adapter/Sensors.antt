-- ===== src/Adapter/Sensors.antt =====
-- `withLoadSensor` of src/cmd/gridware-adapter/main.go installs a sensor once.
use qpu_resource.Prelude.{
  true, false, List, [], ◌∷◌, ◌++◌, ◌≡◌, refl, ◌∙◌, ap, arith, ◌⊎◌, codes, text_eq_iff, Text,
  text_eq_refl, inl, inr, Bool-cases, append-nil,
}
use qpu_resource.Strings.{equal_fold}
use qpu_resource.FilePath.{base}
use qpu_resource.Adapter.{is_replaced, other_sensors, with_load_sensor}

other_sensors-append :
    (path : Text) (xs ys : List Text)
    → other_sensors path (xs ++ ys) ≡ other_sensors path xs ++ other_sensors path ys
unfolding other_sensors
other_sensors-append path [] ys = refl
other_sensors-append path (x ∷ xs) ys = elim (Bool-cases (is_replaced path x)) [
  | inl e ↦ rw e (other_sensors-append path xs ys)
  | inr e ↦ rw e (ap (◌∷◌ x) (other_sensors-append path xs ys))
]

other_sensors_idem :
    (path : Text) (xs : List Text)
    → other_sensors path (other_sensors path xs) ≡ other_sensors path xs
unfolding other_sensors
other_sensors_idem path [] = refl
other_sensors_idem path (x ∷ xs) = elim (Bool-cases (is_replaced path x)) [
  | inl e ↦ rw e (other_sensors_idem path xs)
  | inr e ↦ rw (e, e) (ap (◌∷◌ x) (other_sensors_idem path xs))
]

is_replaced_self : (path : Text) → is_replaced path path ≡ true
unfolding is_replaced
is_replaced_self path = ground (arith, text_eq_refl (base path))

dropped_self : (path : Text) → other_sensors path (path ∷ []) ≡ []
unfolding other_sensors
dropped_self path = rw (is_replaced_self path) refl

-- A placeholder in any case of its letters, or a sensor with the same file name.
abbrev pub IsReplaced : Text → Text → Type 0
IsReplaced path sensor = (equal_fold sensor (codes "NONE") ≡ true) ⊎ (base sensor ≡ base path)

-- The second list is the first without the sensors that are replaced, in the same order.
pub data OthersOf (path : Text) : List Text → List Text → Type 0 where
  no_more : OthersOf path [] []
  replaced :
      {sensor : Text} {sensors others : List Text}
      → IsReplaced path sensor
      → OthersOf path sensors others
      → OthersOf path (sensor ∷ sensors) others
  other :
      {sensor : Text} {sensors others : List Text}
      → ¬ (IsReplaced path sensor)
      → OthersOf path sensors others
      → OthersOf path (sensor ∷ sensors) (sensor ∷ others)

is_replaced-IsReplaced :
    (path sensor : Text) → is_replaced path sensor ≡ true → IsReplaced path sensor
unfolding is_replaced
is_replaced-IsReplaced path sensor h = elim (Bool-cases (equal_fold sensor (codes "NONE"))) [
  | inl e ↦ inl e
  | inr e ↦ inr ((text_eq_iff (base sensor) (base path)).0 (rw e at h))
]

IsReplaced-is_replaced :
    (path sensor : Text) → is_replaced path sensor ≡ false → ¬ (IsReplaced path sensor)
unfolding is_replaced
IsReplaced-is_replaced path sensor h (inl e) = ground arith
IsReplaced-is_replaced path sensor h (inr e) = ground (arith, text_eq_iff (base sensor) (base path))

other_sensors-OthersOf : (path : Text) (xs : List Text) → OthersOf path xs (other_sensors path xs)
unfolding other_sensors
other_sensors-OthersOf path [] = no_more
other_sensors-OthersOf path (x ∷ xs) = elim (Bool-cases (is_replaced path x)) [
  | inl e ↦ rw e (replaced (is_replaced-IsReplaced path x e) (other_sensors-OthersOf path xs))
  | inr e ↦ rw e (other (IsReplaced-is_replaced path x e) (other_sensors-OthersOf path xs))
]

-- The sensor stands last, behind every sensor of the list that is neither a placeholder nor of the
-- same file name, in their order; and to install it again changes nothing.
pub with_load_sensor-OthersOf :
    (current : List Text) (path : Text)
    → ((others : List Text) × (with_load_sensor current path ≡ others ++ (path ∷ []))
        × OthersOf path current others)
      × (with_load_sensor (with_load_sensor current path) path ≡ with_load_sensor current path)
unfolding with_load_sensor
with_load_sensor-OthersOf current path = (
  (other_sensors path current, refl, other_sensors-OthersOf path current),
  ap (λ xs. xs ++ (path ∷ []))
      (other_sensors-append path (other_sensors path current) (path ∷ [])
        ∙ ap (λ ys. other_sensors path (other_sensors path current) ++ ys) (dropped_self path)
        ∙ append-nil (other_sensors path (other_sensors path current))
        ∙ other_sensors_idem path current),
)
