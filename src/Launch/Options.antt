-- ===== src/Launch/Options.antt =====
-- The command line of the launcher carries every setting, and nothing after the hook's path is
-- read as an option.
use qpu_resource.Prelude.{
  false, List, [], ◌∷◌, ◌++◌, ◌≡◌, refl, sym, ◌∙◌, ap, Text, codes, text_eq, append_assoc,
  append-nil,
}
use qpu_resource.Strings.{cut, cut_prefix}
use qpu_resource.Machine.{Machine}
use qpu_resource.Errors.{ok, ◌>>=◌}
use qpu_resource.Trusted.{trusted_hook}
use qpu_resource.Qrmiocs.LaunchEnv.{LaunchSettings, launch_env}
use qpu_resource.Launch.{set_option, is_option, parse_options, start, prepare}

abbrev option_word : Text → Text → Text
option_word name value = name ++ (b'=' ∷ value)

abbrev pub root_words : List Text → List Text
root_words [] = []
root_words (root ∷ roots) = option_word (codes "--spool-root") root ∷ root_words roots

-- The options that give these settings.
abbrev pub option_words : LaunchSettings → List Text
option_words s =
    option_word (codes "--sge-root") s.sge_root
    ∷ option_word (codes "--sge-cell") s.sge_cell
    ∷ option_word (codes "--qmaster-port") s.qmaster_port
    ∷ option_word (codes "--execd-port") s.execd_port
    ∷ root_words s.spool_roots

pub parse_options-stop :
    (s : LaunchSettings) (hook : Text) (args : List Text)
    → is_option hook ≡ false
    → parse_options s (hook ∷ args) ≡ ok (s, hook ∷ args)
unfolding parse_options
parse_options-stop s hook args h = rw h refl

pub parse_options-roots :
    (s : LaunchSettings) (roots rest : List Text)
    → parse_options s (root_words roots ++ rest)
      ≡ parse_options (record s { spool_roots = s.spool_roots ++ roots }) rest
unfolding parse_options set_option cut text_eq cut_prefix
parse_options-roots s [] rest =
    λ i. parse_options (record s { spool_roots = sym (append-nil s.spool_roots) i }) rest
parse_options-roots s (root ∷ roots) rest =
    parse_options-roots (record s { spool_roots = s.spool_roots ++ (root ∷ []) }) roots rest ∙ λ i.
    parse_options (record s { spool_roots = append_assoc s.spool_roots (root ∷ []) roots i }) rest

-- Started with the options of these settings, a hook and its arguments, the launcher makes the
-- environment of these settings and starts the hook with just these arguments, provided that the
-- hook's path does not begin with `--`.
pub prepare-option_words :
    (m : Machine) (program : Text) (environ : List Text) (s : LaunchSettings) (hook : Text)
    (args : List Text)
    → is_option hook ≡ false
    → prepare m program environ (option_words s ++ (hook ∷ args)) ≡ (do
      env ← launch_env m environ s
      path ← trusted_hook m hook
      ok (record { path = path; argv = path ∷ args; env = env }))
unfolding prepare parse_options set_option cut text_eq cut_prefix start
prepare-option_words m program environ s hook args h =
    ap (λ parsed. parsed >>= start m program environ)
      (parse_options-roots (record s { spool_roots = [] }) s.spool_roots (hook ∷ args)
        ∙ parse_options-stop s hook args h)
