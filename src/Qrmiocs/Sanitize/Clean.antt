-- ===== src/Qrmiocs/Sanitize/Clean.antt =====
-- What `CleanEnv` of src/internal/qrmiocs/sanitize.go lets through.
use mathlib.Core.Path.{subst}
use qpu_resource.Prelude.{
  Bool, true, false, not, List, [], ◌∷◌, ◌≡◌, refl, Option, none, some, Text, text_eq,
  if◌then◌else◌, All, Any, All-append, ◌⊎◌, inl, inr, Bool-cases,
}
use qpu_resource.Strings.{Cut, cut}
use qpu_resource.Dict.{Dict, lookup, insert}
use qpu_resource.Machine.{Machine}
use qpu_resource.Errors.{Error, ok, err, >>=-eq-ok}
use qpu_resource.Qrmiocs.Sanitize.{
  trusted_env, assign, pattern_accepts, keep_if_trusted, clean_one, clean_values, assignments,
  clean_env, fixed_env,
}

-- A variable that is trusted, with a value that its pattern accepts.
abbrev pub IsTrusted : Text × Text → Type 0
IsTrusted (k, v) =
    (pattern : Text → Bool) × (lookup k trusted_env ≡ some pattern)
    × (pattern_accepts pattern v ≡ true)

-- An assignment of such a variable, or of the four fixed ones.
abbrev pub IsClean : Machine → Text → Type 0
IsClean m kv =
    ((k : Text) × (v : Text) × (kv ≡ assign k v) × IsTrusted (k, v))
    ⊎ Any (λ fixed. kv ≡ fixed) (fixed_env m)

insert-All :
    (P : Text × Text → Type 0) (k v : Text) (d : Dict Text)
    → All P d
    → P (k, v)
    → All P (insert k v d)
unfolding insert
insert-All P k v [] h p = (p, tt)
insert-All P k v ((j, w) ∷ d) (q, h) p = elim (Bool-cases (text_eq j k)) [
  | inl e ↦ rw e (p, h)
  | inr e ↦ rw e (q, insert-All P k v d h p)
]

kept_one :
    (found good : Bool) (k v : Text) (e : Error) (values : Dict Text) {out : Dict Text}
    → (good ≡ true → IsTrusted (k, v))
    → All IsTrusted values
    → (if not found then ok values else if not good then err e else ok (insert k v values)) ≡ ok out
    → All IsTrusted out
kept_one false good k v e values t h q = subst (All IsTrusted) (cc q) h
kept_one true false k v e values t h q = absurd (cc q)
kept_one true true k v e values t h q =
    subst (All IsTrusted) (cc q) (insert-All IsTrusted k v values h (t refl))

keep_if_trusted-All :
    (o : Option (Text → Bool)) (r : Cut) (values : Dict Text) {out : Dict Text}
    → lookup r.before trusted_env ≡ o
    → All IsTrusted values
    → keep_if_trusted o r values ≡ ok out
    → All IsTrusted out
keep_if_trusted-All none r values e h q = subst (All IsTrusted) (cc q) h
keep_if_trusted-All (some pattern) r values e h q =
    kept_one r.found (pattern_accepts pattern r.after) r.before r.after _ values
      (λ good. (pattern, e, good)) h q

clean_one-All :
    (kv : Text) (values : Dict Text) {out : Dict Text}
    → All IsTrusted values
    → clean_one kv values ≡ ok out
    → All IsTrusted out
unfolding clean_one
clean_one-All kv values h q =
    keep_if_trusted-All (lookup (cut b'=' kv).before trusted_env) (cut b'=' kv) values refl h q

clean_values-All :
    (environ : List Text) (values : Dict Text) {out : Dict Text}
    → All IsTrusted values
    → clean_values environ values ≡ ok out
    → All IsTrusted out
unfolding clean_values
clean_values-All [] values h q = subst (All IsTrusted) (cc q) h
clean_values-All (kv ∷ environ) values h q =
    let (values', first, later) = >>=-eq-ok (clean_one kv values) (clean_values environ) q in
    clean_values-All environ values' (clean_one-All kv values h first) later

assignments-All :
    (m : Machine) (values : Dict Text) → All IsTrusted values → All (IsClean m) (assignments values)
assignments-All m [] h = tt
assignments-All m ((k, v) ∷ values) (t, h) = (inl (k, v, refl, t), assignments-All m values h)

module _ (order : Dict Text → Dict Text) (m : Machine) where
  -- Where ranging over a map visits only its entries, a hook that goes on after `CleanEnv` has no
  -- variable but trusted ones, each with a value that its pattern accepts and without `..`, and
  -- the four fixed ones with their fixed values.
  pub clean_env-IsClean :
      ((values : Dict Text) → All IsTrusted values → All IsTrusted (order values))
      → (environ : List Text) {out : List Text} → clean_env order m environ ≡ ok out
      → All (IsClean m) out
  unfolding clean_env
  clean_env-IsClean visits environ q =
      let (values, cleaned, built) = >>=-eq-ok (clean_values environ []) _ q in
      subst (All (IsClean m)) (cc built) (
        All-append (IsClean m) (assignments (order values)) (fixed_env m)
          (assignments-All m (order values)
            (visits values (clean_values-All environ [] tt cleaned)))
          (
            inr (inl refl),
            (
              inr (inr (inl refl)),
              (inr (inr (inr (inl refl))), (inr (inr (inr (inr (inl refl)))), tt)),
            ),
          ))
