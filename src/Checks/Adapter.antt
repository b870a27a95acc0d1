-- ===== src/Checks/Adapter.antt =====
-- The adapter's texts at concrete inputs: src/cmd/gridware-adapter/main.go.
use qpu_resource.Prelude.{List, [], ◌∷◌, ◌++◌, ◌≡◌, refl, Text, codes}
use qpu_resource.Errors.{ok}
use qpu_resource.Adapter.{with_load_sensor, parse_csv, qrmi_queue_hook_command}
use qpu_resource.Strings.{split, trim_space}
use qpu_resource.Prelude.{text_eq}
use qpu_resource.Adapter.Words.{qrmi_queue_hook_command-words}
use qpu_resource.Adapter.Sensors.{OthersOf, with_load_sensor-OthersOf}

abbrev current : List Text
current = codes "none" ∷ codes "/a/other" ∷ codes "/old/sensor" ∷ []

installs :
    with_load_sensor current (codes "/new/sensor") ≡ codes "/a/other" ∷ codes "/new/sensor" ∷ []
unfolding with_load_sensor
installs = refl

queue_command :
    qrmi_queue_hook_command
      (codes " /h")
      (codes "/l")
      (codes "root")
      (codes "--sge-root=/o" ∷ [])
      (codes "--config=/c" ∷ [])
    ≡ ok (codes "root@/l --sge-root=/o /h --config=/c $job_owner")
unfolding qrmi_queue_hook_command
queue_command = refl

lists_values : parse_csv (codes " a, ,b ") ≡ codes "a" ∷ codes "b" ∷ []
unfolding parse_csv
lists_values = refl

with_load_sensor-OthersOf_example :
    ((others : List Text) × (with_load_sensor current (codes "/new/sensor")
        ≡ others ++ (codes "/new/sensor" ∷ []))
      × OthersOf (codes "/new/sensor") current others)
    × (with_load_sensor (with_load_sensor current (codes "/new/sensor")) (codes "/new/sensor")
        ≡ with_load_sensor current (codes "/new/sensor"))
with_load_sensor-OthersOf_example = with_load_sensor-OthersOf current (codes "/new/sensor")

qrmi_queue_hook_command-words_example :
    split b' ' (codes "root@/l --sge-root=/o /h --config=/c $job_owner")
    ≡ (codes "root" ++ (b'@' ∷ codes "/l"))
      ∷ (((codes "--sge-root=/o" ∷ []) ++ (trim_space (codes " /h") ∷ codes "--config=/c" ∷ []))
          ++ (codes "$job_owner" ∷ []))
unfolding text_eq trim_space
qrmi_queue_hook_command-words_example =
    qrmi_queue_hook_command-words (codes " /h") (codes "/l") (codes "root")
      (codes "--sge-root=/o" ∷ []) (codes "--config=/c" ∷ []) refl queue_command
