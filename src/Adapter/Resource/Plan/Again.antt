-- ===== src/Adapter/Resource/Plan/Again.antt =====
-- What ensureResourceDefault of src/cmd/gridware-adapter/main.go reaches, and that it does so once.
use qpu_resource.Prelude.{List, ◌≡◌, refl, sym, Text, Any-All}
use mathlib.Core.Path.{subst}
use qpu_resource.Adapter.Options.{ResourceOptions}
use qpu_resource.Adapter.QConf.{Configuration, QConf, IsFaithful}
use qpu_resource.Adapter.Resource.{ensure_resource_default}
use qpu_resource.Adapter.Resource.Plan.{
  Obligation, plan, Holds, IsConfigured, change, Reach, here, next,
}
use qpu_resource.Adapter.Resource.Plan.Fulfil.{IsOk}
use qpu_resource.Adapter.Resource.Plan.Agree.{HasDistinctNames, agree}
use qpu_resource.Adapter.Resource.Plan.Setup.{ensure_resource_default-Reaches}

module _ (qc : QConf) where
  open qc use {State, Rest, view}

  -- Where all obligations hold, no step is left.
  Reach-IsConfigured :
      (obligations : List Obligation) {c c' : Configuration Rest}
      → IsConfigured qc obligations c
      → Reach qc obligations c c'
      → c' ≡ c
  Reach-IsConfigured obligations h here = refl
  Reach-IsConfigured obligations {c} h (next {c'} r (change ob m n ch)) = absurd (
      n (
        subst (Holds qc ob) (sym (Reach-IsConfigured obligations h r))
          (Any-All (λ x. Holds qc x c) ob obligations m h)))

  module _ (faithful : IsFaithful qc) (o : ResourceOptions) (hosts : List Text) (value : Text) where
    -- Whatever the calls reply, and also where it fails, the setup changes what the scheduler has
    -- stored only by steps that fulfil an obligation of its plan that did not hold before.
    pub ensure_resource_default-Reach :
        (s : State)
        → Reach qc
            (plan o hosts value)
            (view s)
            (view (ensure_resource_default qc o hosts value s).1)
    ensure_resource_default-Reach =
        (ensure_resource_default-Reaches qc faithful o value hosts).steps

    module _ (distinct : HasDistinctNames o) where
      -- After a success every obligation of the plan holds, provided that the resources have
      -- different names.
      pub ensure_resource_default-IsConfigured :
          (s : State)
          → IsOk (ensure_resource_default qc o hosts value s).0
          → IsConfigured qc
              (plan o hosts value)
              (view (ensure_resource_default qc o hosts value s).1)
      ensure_resource_default-IsConfigured =
          (ensure_resource_default-Reaches qc faithful o value hosts).good (agree o value distinct)

      -- Once it has succeeded, a later run from what is stored then changes nothing, whatever the
      -- calls reply, provided that the resources have different names.
      pub ensure_resource_default-again :
          (s t : State)
          → IsOk (ensure_resource_default qc o hosts value s).0
          → view t ≡ view (ensure_resource_default qc o hosts value s).1
          → view (ensure_resource_default qc o hosts value t).1 ≡ view t
      ensure_resource_default-again s t done same =
          Reach-IsConfigured (plan o hosts value)
            (subst (IsConfigured qc (plan o hosts value)) (sym same)
              (ensure_resource_default-IsConfigured s done))
            (ensure_resource_default-Reach t)
