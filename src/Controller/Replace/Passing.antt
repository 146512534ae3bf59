-- ===== src/Controller/Replace/Passing.antt =====
-- Calls that go on, and the record of effects that they leave.
use nvsentinel_capi_remediat.Common.{◌≡◌, refl, List}
use nvsentinel_capi_remediat.World.{Effect}
use nvsentinel_capi_remediat.World.Ensures.{Ensures, Ensures-pure, Ensures-bind}
use nvsentinel_capi_remediat.Controller.Steps
use nvsentinel_capi_remediat.Controller.Steps.{Step, next, ended, broken, P, go_on, continue}

-- the step goes on, with a value that has the property
abbrev pub IsNext : {A : Type 0} → (A → Type 0) → Step A → Type 0
IsNext Q (next a) = Q a
IsNext Q ended = ⊥
IsNext Q (broken e) = ⊥

-- From a record that has the first property, the call goes on with the value, and leaves a record that
-- has the second.
abbrev pub Leads :
    {S A : Type 0} → (List Effect → Type 0) → P S A → A → (List Effect → Type 0) → Type 0
Leads K m x L = Ensures K m (λ s es. IsNext (λ a. a ≡ x) s × L es)

module _ {S : Type 0} (K L : List Effect → Type 0) where
  after_step :
      {A B : Type 0} (x : A) (R : Step B → List Effect → Type 0) (f : A → P S B) (s : Step A)
      → IsNext (λ a. a ≡ x) s
      → Ensures L (f x) R
      → Ensures L (go_on f s) R
  unfolding go_on
  after_step x R f (next a) q e = rw q e
  after_step x R f ended q e = absurd q
  after_step x R f (broken y) q e = absurd q

  pub lead_on :
      {A B : Type 0} (x : A) (R : Step B → List Effect → Type 0) (m : P S A) (f : A → P S B)
      → Leads K m x L
      → Ensures L (f x) R
      → Ensures K (Steps.◌>>=◌ m f) R
  unfolding Steps.◌>>=◌
  lead_on x R m f p e =
      Ensures-bind _ _ _ (λ s. go_on f s) p
        (λ s. record { at = λ w q. (after_step x R f s q.0 e).at w q.1 })

module _ {S : Type 0} (K : List Effect → Type 0) where
  pub Leads-continue : {A : Type 0} (x : A) → Leads K (continue {S = S} x) x K
  unfolding continue
  Leads-continue x = Ensures-pure _ _ (λ es p. (refl, p))
