-- ===== src/Adapter/Resource/Plan/Reaches.antt =====
-- Actions that fulfil one obligation after the other: what they reach, and what holds in the end.
use qpu_resource.Prelude.{
  Bool, true, false, List, [], ◌∷◌, ◌++◌, ◌≡◌, refl, sym, ◌⊎◌, inl, inr, All, All-append, Any,
  Any-All, Any-append_left, Any-append_right,
}
use mathlib.Core.Path.{subst}
use qpu_resource.Errors.{Result, ok, err}
use qpu_resource.Adapter.QConf.{Configuration, QConf}
use qpu_resource.Adapter.Action.{Action, pure, continue, ◌>>=◌, ◌>>◌, when}
use qpu_resource.Adapter.Resource.Plan.{
  Obligation, only_if, Holds, Changes, IsConfigured, change, Reach, here, next,
}
use qpu_resource.Adapter.Resource.Plan.Fulfil.{IsOk, Fulfils}
use qpu_resource.Adapter.Resource.Plan.Stays.{Compatible, Holds-Changes}

module _ (qc : QConf) where
  open qc use {State, Rest, view}

  -- Steps for some obligations are steps for more of them.
  Reach-more :
      (xs ys : List Obligation) {c c' : Configuration Rest}
      → ((ob : Obligation) → Any (λ x. x ≡ ob) xs → Any (λ x. x ≡ ob) ys)
      → Reach qc xs c c'
      → Reach qc ys c c'
  Reach-more xs ys i here = here
  Reach-more xs ys i (next r (change ob m n h)) =
      next (Reach-more xs ys i r) (change ob (i ob m) n h)

  Reach-trans :
      (xs : List Obligation) {c c' c'' : Configuration Rest}
      → Reach qc xs c c'
      → Reach qc xs c' c''
      → Reach qc xs c c''
  Reach-trans xs r here = r
  Reach-trans xs r (next t st) = next (Reach-trans xs r t) st

  -- The obligations are drawn from a class.
  module _ (G : Obligation → Type 0) where
    -- None disagrees with another.
    abbrev pub Agrees : Type 0
    Agrees = (a b : Obligation) → G a → G b → Compatible a b

    Holds-Reach :
        (agree : Agrees) (a : Obligation) (ys : List Obligation) {c c' : Configuration Rest}
        → G a
        → All G ys
        → Reach qc ys c c'
        → Holds qc a c
        → Holds qc a c'
    Holds-Reach agree a ys g gs here h = h
    Holds-Reach agree a ys g gs (next r (change ob m n ch)) h =
        Holds-Changes qc a ob _ _ (agree a ob g (Any-All G ob ys m gs))
          (Holds-Reach agree a ys g gs r h) ch

    IsConfigured-Reach :
        (agree : Agrees) (xs ys : List Obligation) {c c' : Configuration Rest}
        → All G xs
        → All G ys
        → Reach qc ys c c'
        → IsConfigured qc xs c
        → IsConfigured qc xs c'
    IsConfigured-Reach agree [] ys gx gy r h = tt
    IsConfigured-Reach agree (x ∷ xs) ys (g, gx) gy r (h, hs) =
        (Holds-Reach agree x ys g gy r h, IsConfigured-Reach agree xs ys gx gy r hs)

    -- Every run takes steps for these obligations alone; where none disagrees with another, they all
    -- hold after a success.
    pub record Reaches {A : Type 0} (obligations : List Obligation) (m : Action State A)
        : Type 0 where
      pub fits : All G obligations
      pub steps : (s : State) → Reach qc obligations (view s) (view (m s).1)
      pub good : Agrees → (s : State) → IsOk (m s).0 → IsConfigured qc obligations (view (m s).1)

    pub Reaches-one :
        {A : Type 0} (ob : Obligation) (m : Action State A)
        → G ob
        → Fulfils qc ob m
        → Reaches (ob ∷ []) m
    Reaches-one ob m g f = record {
      fits = (g, tt);
      steps = λ s. one s (f.at s).changed;
      good = λ _ s h. ((f.at s).good h, tt);
    }
      where
        one :
            (s : State)
            → (view (m s).1 ≡ view s)
              ⊎ ((¬ Holds qc ob (view s)) × Changes qc ob (view s) (view (m s).1))
            → Reach qc (ob ∷ []) (view s) (view (m s).1)
        one s (inl e) = subst (Reach qc (ob ∷ []) (view s)) (sym e) here
        one s (inr (n, ch)) = next here (change ob (inl refl) n ch)

    pub Reaches-pure : {A : Type 0} (a : A) → Reaches [] (pure a)
    unfolding pure
    Reaches-pure a = record { fits = tt; steps = λ s. here; good = λ _ s h. tt }

    module _ {A B : Type 0} (xs ys : List Obligation) where
      after :
          (c : Configuration Rest) (r : Result A) (s : State) (f : A → Action State B)
          → Reach qc xs c (view s)
          → ((a : A) → Reaches ys (f a))
          → Reach qc (xs ++ ys) c (view (continue r f s).1)
      after c (ok a) s f h k =
          Reach-trans (xs ++ ys) (Reach-more xs (xs ++ ys) (λ ob. Any-append_left _ xs ys) h)
            (Reach-more ys (xs ++ ys) (λ ob. Any-append_right _ xs ys) ((k a).steps s))
      after c (err e) s f h k = Reach-more xs (xs ++ ys) (λ ob. Any-append_left _ xs ys) h

      after_good :
          (agree : Agrees) (r : Result A) (s : State) (f : A → Action State B)
          → All G xs
          → (IsOk r → IsConfigured qc xs (view s))
          → ((a : A) → Reaches ys (f a))
          → IsOk (continue r f s).0
          → IsConfigured qc (xs ++ ys) (view (continue r f s).1)
      after_good agree (ok a) s f g h k o =
          All-append _ xs ys (IsConfigured-Reach agree xs ys g (k a).fits ((k a).steps s) (h tt))
            ((k a).good agree s o)
      after_good agree (err e) s f g h k o = elim o [ ]

      Reaches-bind :
          (m : Action State A) (f : A → Action State B)
          → All G ys
          → Reaches xs m
          → ((a : A) → Reaches ys (f a))
          → Reaches (xs ++ ys) (m >>= f)
      unfolding ◌>>=◌
      Reaches-bind m f gy km kf = record {
        fits = All-append G xs ys km.fits gy;
        steps = λ s. after (view s) (m s).0 (m s).1 f (km.steps s) kf;
        good = λ agree s. after_good agree (m s).0 (m s).1 f km.fits (km.good agree s) kf;
      }

    pub Reaches-then :
        {A B : Type 0} (xs ys : List Obligation) (m : Action State A) (n : Action State B)
        → Reaches xs m
        → Reaches ys n
        → Reaches (xs ++ ys) (m >> n)
    Reaches-then xs ys m n km kn = Reaches-bind xs ys m (λ _. n) kn.fits km (λ _. kn)

    pub Reaches-when :
        (b : Bool) (xs : List Obligation) (m : Action State (Unit {0}))
        → Reaches xs m
        → Reaches (only_if b xs) (when b m)
    Reaches-when true xs m k = k
    Reaches-when false xs m k = Reaches-pure tt
