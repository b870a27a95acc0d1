-- ===== src/Adapter/QueueHooks/Settings.antt =====
-- The launcher reads back the options that launcherSettings of src/cmd/gridware-adapter/main.go
-- writes into the queue's hooks, and accepts them: src/cmd/qrmi-ocs-launch/main.go and
-- src/internal/qrmiocs/sanitize.go.
use qpu_resource.Prelude.{
  Bool, true, false, not, ◌&&◌, ◌||◌, List, [], ◌∷◌, ◌++◌, map, ◌≡◌, refl, ◌∙◌, ap, arith, Text,
  codes, is_nil, text_eq, text_eq_iff, All, append_assoc,
}
use qpu_resource.Strings.{cut, cut_prefix}
use qpu_resource.FilePath.{is_abs, clean}
use qpu_resource.FilePath.Clean.{clean_twice}
use qpu_resource.Decimal.{is_number}
use qpu_resource.Dict.{value_of}
use qpu_resource.Errors.{ok, ◌>>=◌, guard_open}
use qpu_resource.Qrmiocs.Sanitize.{cell_pattern}
use qpu_resource.Qrmiocs.LaunchEnv.{LaunchSettings, validate, check_dirs, check_ports}
use qpu_resource.Launch.{no_settings, set_option, is_option, parse_options}
use qpu_resource.Launch.Options.{root_words, parse_options-roots, parse_options-stop}
use qpu_resource.Adapter.HookOptions.{Surroundings, cell}
use qpu_resource.Adapter.QueueHooks.{option_of, port_option, launcher_words}
use qpu_resource.Adapter.QueueHooks.Roots.{IsRoot}

module _ (w : Surroundings) where
  abbrev pub qmaster_port : Text
  qmaster_port = value_of (codes "SGE_QMASTER_PORT") w.env

  abbrev pub execd_port : Text
  execd_port = value_of (codes "SGE_EXECD_PORT") w.env

  abbrev pub root : Text
  root = value_of (codes "SGE_ROOT") w.env

  -- What the adapter wants the launcher to use.
  abbrev pub settings_of : List Text → LaunchSettings
  settings_of roots = record {
    sge_root = clean root;
    sge_cell = cell w;
    spool_roots = roots;
    qmaster_port = qmaster_port;
    execd_port = execd_port;
  }

root_words_lem :
    (roots : List Text) → map (option_of (codes "--spool-root")) roots ≡ root_words roots
root_words_lem [] = refl
root_words_lem (r ∷ roots) = ap (◌∷◌ (option_of (codes "--spool-root") r)) (root_words_lem roots)

-- A port that is not set leaves the settings, which have none.
module _ (root cell : Text) (roots : List Text) where
  abbrev with_ports : Text → Text → LaunchSettings
  with_ports qmaster execd = record {
    sge_root = root;
    sge_cell = cell;
    spool_roots = roots;
    qmaster_port = qmaster;
    execd_port = execd;
  }

  parse_options-qmaster :
      (port : Text) (rest : List Text)
      → parse_options (with_ports [] []) (port_option (codes "--qmaster-port") port ++ rest)
        ≡ parse_options (with_ports port []) rest
  unfolding parse_options set_option cut text_eq cut_prefix
  parse_options-qmaster [] rest = refl
  parse_options-qmaster (c ∷ port) rest = refl

  parse_options-execd :
      (qmaster port : Text) (rest : List Text)
      → parse_options (with_ports qmaster []) (port_option (codes "--execd-port") port ++ rest)
        ≡ parse_options (with_ports qmaster port) rest
  unfolding parse_options set_option cut text_eq cut_prefix
  parse_options-execd qmaster [] rest = refl
  parse_options-execd qmaster (c ∷ port) rest = refl

  parse_options-words :
      (qmaster execd : Text) (rest : List Text)
      → parse_options no_settings (
          (option_of (codes "--sge-root") root
            ∷ option_of (codes "--sge-cell") cell
            ∷ (map (option_of (codes "--spool-root")) roots
                ++ (port_option (codes "--qmaster-port") qmaster
                    ++ port_option (codes "--execd-port") execd)))
          ++ rest)
        ≡ parse_options (with_ports qmaster execd) rest
  unfolding parse_options set_option cut text_eq cut_prefix
  parse_options-words qmaster execd rest =
      let ports =
        port_option (codes "--qmaster-port") qmaster ++ port_option (codes "--execd-port") execd in
      ap (parse_options (record (with_ports [] []) { spool_roots = [] })) (
        append_assoc (map (option_of (codes "--spool-root")) roots) ports rest
        ∙ ap (λ ws. ws ++ (ports ++ rest)) (root_words_lem roots))
      ∙ parse_options-roots (record (with_ports [] []) { spool_roots = [] }) roots (ports ++ rest)
      ∙ ap (parse_options (with_ports [] [])) (
          append_assoc (port_option (codes "--qmaster-port") qmaster)
            (port_option (codes "--execd-port") execd) rest)
      ∙ parse_options-qmaster qmaster (port_option (codes "--execd-port") execd ++ rest)
      ∙ parse_options-execd qmaster execd rest

-- The launcher reads the adapter's settings, and from the hook's path on nothing as an option.
pub parse_options-launcher_words :
    (w : Surroundings) (roots : List Text) (hook : Text) (args : List Text)
    → is_option hook ≡ false
    → parse_options no_settings (launcher_words w roots ++ (hook ∷ args))
      ≡ ok (settings_of w roots, hook ∷ args)
unfolding launcher_words
parse_options-launcher_words w roots hook args h =
    parse_options-words (clean (root w)) (cell w) roots (qmaster_port w) (execd_port w)
      (hook ∷ args)
    ∙ parse_options-stop (settings_of w roots) hook args h

check_dirs-IsRoot : (ds : List Text) → All IsRoot ds → check_dirs ds ≡ ok tt
unfolding check_dirs
check_dirs-IsRoot [] h = refl
check_dirs-IsRoot (d ∷ ds) ((abs, same), h) =
    guard_open (is_abs d && text_eq (clean d) d) _ (check_dirs ds)
      (ground (arith, text_eq_iff (clean d) d))
    ∙ check_dirs-IsRoot ds h

absolute_given : (d : Text) → is_abs d ≡ true → is_nil d ≡ false
absolute_given [] h = cc h
absolute_given (c ∷ d) h = refl

both : {a b : Bool} → a ≡ false → b ≡ true → (not a && b) ≡ true
both h k = rw (h, k) refl

-- A port that the launcher takes: none, or a number.
abbrev pub IsPort : Text → Type 0
IsPort port = (is_nil port || is_number port) ≡ true

-- The launcher accepts the adapter's settings, if the cell and the ports have their forms.
pub validate-settings_of :
    (w : Surroundings) (roots : List Text)
    → is_abs (root w) ≡ true
    → All IsRoot roots
    → cell_pattern (cell w) ≡ true
    → IsPort (qmaster_port w)
    → IsPort (execd_port w)
    → validate (settings_of w roots) ≡ ok tt
unfolding validate check_ports
validate-settings_of w roots abs are c p q =
    let cleaned = clean_twice (root w) abs in
    guard_open (not (is_nil (clean (root w))) && cell_pattern (cell w)) _ _
      (both (absolute_given (clean (root w)) cleaned.0) c)
    ∙ ap (λ r. r >>= λ _. check_ports (qmaster_port w ∷ execd_port w ∷ []))
        (check_dirs-IsRoot (clean (root w) ∷ roots) (cleaned, are))
    ∙ guard_open (is_nil (qmaster_port w) || is_number (qmaster_port w)) _ _ p
    ∙ guard_open (is_nil (execd_port w) || is_number (execd_port w)) _ _ q
