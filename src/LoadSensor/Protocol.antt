-- ===== src/LoadSensor/Protocol.antt =====
-- One report for each line up to `quit`, with the answer of that cycle.
use qpu_resource.Prelude.{
  ℕ, zero, suc, List, [], ◌∷◌, ◌++◌, ◌≡◌, ◌∙◌, ap, sym, Option, none, Text, if◌then◌else◌,
  append_assoc, append-nil, inl, inr, Bool-cases,
}
use qpu_resource.Errors.{Error}
use qpu_resource.Availability.{Status, Answer}
use qpu_resource.LoadSensor.{
  Fields, report_parts, Writer, write_all, write_report, reported, is_quit, run_protocol,
  unless_failed, go_on,
}

abbrev pub concat : List Text → Text
concat [] = []
concat (part ∷ parts) = part ++ concat parts

abbrev pub report : Fields → Status → Text
report f status = concat (report_parts f status)

-- The lines before the first `quit`, and whether there is one.
abbrev pub cycles : List Text → ℕ
cycles [] = 0
cycles (line ∷ lines) = let rest = suc (cycles lines) in if is_quit line then 0 else rest

abbrev pub end_error : Option Error → List Text → Option Error
end_error e [] = e
end_error e (line ∷ lines) = let rest = end_error e lines in if is_quit line then none else rest

-- The reports of the cycles from `n` on.
abbrev pub reports : Fields → (ℕ → Answer) → ℕ → ℕ → Text
reports f provider n zero = []
reports f provider n (suc k) = report f (reported (provider n)) ++ reports f provider (suc n) k

module _ (w : Writer) (accepts : (out text : Text) → w out text ≡ none) where
  write_all-concat :
      (parts : List Text) (out : Text) → write_all w parts out ≡ (none, out ++ concat parts)
  unfolding write_all
  write_all-concat [] out = λ i. (none, sym (append-nil out) i)
  write_all-concat (part ∷ parts) out =
      ap (λ o. unless_failed o out (write_all w parts (out ++ part))) (accepts out part)
      ∙ write_all-concat parts (out ++ part)
      ∙ λ i. (none, append_assoc out part (concat parts) i)

  -- Where the output takes every write, the load sensor writes one whole report for each line before
  -- the first `quit`, in this order and each with the answer of its cycle, and nothing else; it
  -- ends without an error at `quit`, and else with the error of reading, if any.
  pub run_protocol-reports :
      (provider : ℕ → Answer) (f : Fields) (n : ℕ) (e : Option Error) (lines : List Text)
      (out : Text)
      → run_protocol w provider f n e lines out
        ≡ (end_error e lines, out ++ reports f provider n (cycles lines))
  unfolding run_protocol write_report
  run_protocol-reports provider f n e [] out = λ i. (e, sym (append-nil out) i)
  run_protocol-reports provider f n e (line ∷ lines) out = elim (Bool-cases (is_quit line)) [
    | inl quit ↦ rw quit (λ i. (none, sym (append-nil out) i))
    | inr go ↦ rw go (
        cycle (reported (provider n)) (
          run_protocol-reports provider f (suc n) e lines
            (out ++ report f (reported (provider n)))))
  ]
    where
      cycle :
          (status : Status)
          → run_protocol w provider f (suc n) e lines (out ++ report f status) ≡ (
            end_error e lines,
            (out ++ report f status) ++ reports f provider (suc n) (cycles lines),
          )
          → go_on
              (write_report w f status out)
              (run_protocol w provider f (suc n) e lines (write_report w f status out).1)
            ≡ (
              end_error e lines,
              out ++ (report f status ++ reports f provider (suc n) (cycles lines)),
            )
      cycle status later =
          ap (λ r. go_on r (run_protocol w provider f (suc n) e lines r.1))
            (write_all-concat (report_parts f status) out)
          ∙ later
          ∙ λ i. (
            end_error e lines,
            append_assoc out (report f status) (reports f provider (suc n) (cycles lines)) i,
          )
