-- ===== src/Adapter/Words.antt =====
-- The words of a queue hook's command: `qrmiQueueHookCommand` of src/cmd/gridware-adapter/main.go.
use qpu_resource.Prelude.{
  ℕ, Bool, true, false, not, ◌&&◌, List, [], ◌∷◌, ◌++◌, ◌≡◌, ◌≢◌, refl, sym, ◌∙◌, ap, arith, Text,
  codes, text_eq, is_nil, has_char, All, All-map, All-append, append-nil, append_assoc,
}
use qpu_resource.Strings.{trim_space, split, contains_any}
use qpu_resource.Strings.Split.{
  Lacks, contains_any-All, has_char-Lacks, split-Lacks, split-Lacks_sep,
}
use qpu_resource.FilePath.{is_abs}
use qpu_resource.Errors.{ok, guard_passed, >>=-eq-ok}
use qpu_resource.Adapter.{join_words, hook_command, qrmi_queue_hook_command}

abbrev spaced : List Text → Text
spaced [] = []
spaced (w ∷ ws) = b' ' ∷ (w ++ spaced ws)

split-spaced :
    (c : Text) (ws : List Text)
    → Lacks b' ' c
    → All (Lacks b' ') ws
    → split b' ' (c ++ spaced ws) ≡ c ∷ ws
split-spaced c [] h t = ap (split b' ') (append-nil c) ∙ split-Lacks b' ' c h
split-spaced c (w ∷ ws) h (hw, t) =
    split-Lacks_sep b' ' c (w ++ spaced ws) h ∙ ap (◌∷◌ c) (split-spaced w ws hw t)

spaced-append : (xs : List Text) (w : Text) → spaced (xs ++ (w ∷ [])) ≡ spaced xs ++ (b' ' ∷ w)
spaced-append [] w = ap (◌∷◌ b' ') (append-nil w)
spaced-append (x ∷ xs) w =
    ap (λ s. b' ' ∷ (x ++ s)) (spaced-append xs w)
    ∙ ap (◌∷◌ b' ') (sym (append_assoc x (spaced xs) (b' ' ∷ w)))

char-Lacks :
    (chars s : Text) → has_char b' ' chars ≡ true → contains_any chars s ≡ false → Lacks b' ' s
char-Lacks chars s m h = All-map (λ c e. other c e) s (contains_any-All chars s h)
  where
    other : (c : ℕ) → has_char c chars ≡ false → c ≢ b' '
    other c e p = cc (sym e ∙ ap (λ y. has_char y chars) p ∙ m)

blank_excluded :
    (has_char b' ' (codes " \t\r\n") ≡ true)
    × (has_char b' ' (codes "@ \t\r\n$") ≡ true)
    × (has_char b' ' (codes " \t\r\n@") ≡ true)
unfolding has_char
blank_excluded = (refl, refl, refl)

second : (a b : Bool) → (a && not b) ≡ true → b ≡ false
second a b h = ground arith

first_not : (b a : Bool) → (not b && a) ≡ true → b ≡ false
first_not b a h = ground arith

join_words-spaced :
    (c : Text) (ws : List Text) {out : Text}
    → join_words c ws ≡ ok out
    → (out ≡ c ++ spaced ws) × All (Lacks b' ') ws
unfolding join_words
join_words-spaced c [] h = (cc (h, append-nil c), tt)
join_words-spaced c (w ∷ ws) h =
    let (good, later) =
      guard_passed (not (is_nil w) && not (contains_any (codes " \t\r\n") w)) _ _ h in
    let (joined, plain) = join_words-spaced (c ++ (b' ' ∷ w)) ws later in
    (
      joined ∙ append_assoc c (b' ' ∷ w) (spaced ws),
      (char-Lacks (codes " \t\r\n") w blank_excluded.0 (second _ _ good), plain),
    )

ok_injective : {a b : Text} → ok a ≡ ok b → a ≡ b
ok_injective h = cc h

module _ (hook launcher user : Text) (launcher_args args : List Text) where
  abbrev caller : Text
  caller = user ++ (b'@' ∷ launcher)

  hook_command-words :
      {out : Text}
      → hook_command hook launcher user launcher_args args ≡ ok out
      → split b' ' out ≡ caller ∷ ((launcher_args ++ (hook ∷ args)) ++ (codes "$job_owner" ∷ []))
  hook_command-words {out} h =
      let (hook_good, h1) =
        guard_passed (not (contains_any (codes " \t\r\n@") hook) && is_abs hook) _ _ h in
      let (launcher_good, h2) =
        guard_passed (not (contains_any (codes " \t\r\n@") launcher) && is_abs launcher) _ _ h1 in
      let (user_good, h3) =
        guard_passed (not (is_nil user) && not (contains_any (codes "@ \t\r\n$") user)) _ _ h2 in
      let (command, joins, ends) =
        >>=-eq-ok (join_words caller (launcher_args ++ (hook ∷ args))) _ h3 in
      let (joined, plain) = join_words-spaced caller (launcher_args ++ (hook ∷ args)) joins in
      let whole : out
          ≡ caller ++ spaced ((launcher_args ++ (hook ∷ args)) ++ (codes "$job_owner" ∷ [])) =
        sym (ok_injective ends)
        ∙ ap (λ c. c ++ codes " $job_owner") joined
        ∙ append_assoc caller (spaced (launcher_args ++ (hook ∷ args))) (codes " $job_owner")
        ∙ ap (λ s. caller ++ s)
            (sym (spaced-append (launcher_args ++ (hook ∷ args)) (codes "$job_owner"))) in
      ap (split b' ') whole
      ∙ split-spaced caller ((launcher_args ++ (hook ∷ args)) ++ (codes "$job_owner" ∷ []))
          (All-append _ user (b'@' ∷ launcher)
            (char-Lacks (codes "@ \t\r\n$") user blank_excluded.1 (second _ _ user_good))
            (
              omega arith,
              char-Lacks (codes " \t\r\n@") launcher blank_excluded.2 (first_not _ _ launcher_good),
            ))
          (All-append _ (launcher_args ++ (hook ∷ args)) (codes "$job_owner" ∷ []) plain
            (has_char-Lacks b' ' (codes "$job_owner") (unfold has_char in refl), tt))

-- An accepted command, of a hook other than NONE, is made of words that blanks separate: the user and
-- the launcher, the launcher's options, the hook, its arguments and `$job_owner`.
pub qrmi_queue_hook_command-words :
    (hook launcher user : Text) (launcher_args args : List Text) {out : Text}
    → text_eq (trim_space hook) (codes "NONE") ≡ false
    → qrmi_queue_hook_command hook launcher user launcher_args args ≡ ok out
    → split b' ' out
      ≡ (user ++ (b'@' ∷ launcher))
        ∷ ((launcher_args ++ (trim_space hook ∷ args)) ++ (codes "$job_owner" ∷ []))
unfolding qrmi_queue_hook_command
qrmi_queue_hook_command-words hook launcher user launcher_args args given h =
    hook_command-words (trim_space hook) launcher user launcher_args args
      (rw (given, qrmi_queue_hook_command) at h)

right_of : (a b : Bool) → (a && b) ≡ true → b ≡ true
right_of a b h = ground arith

-- The hook of an accepted command has an absolute path.
pub qrmi_queue_hook_command-is_abs :
    (hook launcher user : Text) (launcher_args args : List Text) {out : Text}
    → text_eq (trim_space hook) (codes "NONE") ≡ false
    → qrmi_queue_hook_command hook launcher user launcher_args args ≡ ok out
    → is_abs (trim_space hook) ≡ true
unfolding qrmi_queue_hook_command
qrmi_queue_hook_command-is_abs hook launcher user launcher_args args given h =
    let (good, _) =
      guard_passed
        (not (contains_any (codes " \t\r\n@") (trim_space hook)) && is_abs (trim_space hook)) _ _
        (rw (given, qrmi_queue_hook_command) at h) in
    right_of _ _ good
