-- ===== src/Controller/Steps/Carry.antt =====
-- The rules on effects for functions that go on or end.
use nvsentinel_capi_remediat.Common.{List}
use nvsentinel_capi_remediat.World.{Effect}
use nvsentinel_capi_remediat.World.Adds.{Adds, adds_rules, Adds-pure, Adds-bind}
use nvsentinel_capi_remediat.World.Ensures.{Ensures, Ensures-pure, Ensures-bind}
use nvsentinel_capi_remediat.Quarantine.Try.{Failure}
use nvsentinel_capi_remediat.Controller.Steps.{
  Step, next, ended, broken, P, go_on, ◌>>=◌, continue, end, break,
}

-- What holds of the record, and with the value where the function goes on.
abbrev pub OnNext :
    {A : Type 0}
    → (List Effect → Type 0)
    → (A → List Effect → Type 0)
    → Step A
    → List Effect
    → Type 0
OnNext K Q (next a) es = K es × Q a es
OnNext K Q ended es = K es
OnNext K Q (broken e) es = K es

module _ {S : Type 0} {H : Effect → Type 0} where
  Adds-go_on :
      {A B : Type 0} (f : A → P S B) (s : Step A) → ((a : A) → Adds H (f a)) → Adds H (go_on f s)
  unfolding go_on
  Adds-go_on f (next a) h = h a
  Adds-go_on f ended h = Adds-pure _
  Adds-go_on f (broken e) h = Adds-pure _

  pub Adds-steps :
      {A B : Type 0} (m : P S A) (f : A → P S B)
      → Adds H m
      → ((a : A) → Adds H (f a))
      → Adds H (m >>= f)
  unfolding ◌>>=◌
  Adds-steps m f am af = Adds-bind m _ am (λ s. Adds-go_on f s af)

  pub Adds-continue : {A : Type 0} (a : A) → Adds H (continue {S = S} a)
  unfolding continue
  Adds-continue a = Adds-pure _

  pub Adds-end : {A : Type 0} → Adds H (end {S = S} {A = A})
  unfolding end
  Adds-end = Adds-pure _

  pub Adds-break : {A : Type 0} (e : Failure) → Adds H (break {S = S} {A = A} e)
  unfolding break
  Adds-break e = Adds-pure _

pub ruleset carry_rules = (adds_rules, Adds-steps, Adds-continue, Adds-end, Adds-break)

module _ {S : Type 0} {K : List Effect → Type 0} where
  go_on-Ensures :
      {A B : Type 0} (Q : A → List Effect → Type 0) (R : B → List Effect → Type 0) (f : A → P S B)
      (s : Step A)
      → ((a : A) → Ensures (λ es. K es × Q a es) (f a) (OnNext K R))
      → Ensures (OnNext K Q s) (go_on f s) (OnNext K R)
  unfolding go_on
  go_on-Ensures Q R f (next a) ef = ef a
  go_on-Ensures Q R f ended ef = Ensures-pure _ _ (λ es p. p)
  go_on-Ensures Q R f (broken e) ef = Ensures-pure _ _ (λ es p. p)

  pub Ensures-steps :
      {A B : Type 0} {L : List Effect → Type 0} (Q : A → List Effect → Type 0)
      (R : B → List Effect → Type 0) (m : P S A) (f : A → P S B)
      → Ensures L m (OnNext K Q)
      → ((a : A) → Ensures (λ es. K es × Q a es) (f a) (OnNext K R))
      → Ensures L (m >>= f) (OnNext K R)
  unfolding ◌>>=◌
  Ensures-steps Q R m f em ef = Ensures-bind (OnNext K Q) _ _ _ em (λ s. go_on-Ensures Q R f s ef)

  pub Ensures-continue :
      {A : Type 0} {L : List Effect → Type 0} (Q : A → List Effect → Type 0) (a : A)
      → ((es : List Effect) → L es → K es × Q a es)
      → Ensures L (continue {S = S} a) (OnNext K Q)
  unfolding continue
  Ensures-continue Q a f = Ensures-pure _ _ f

  pub Ensures-end :
      {A : Type 0} {L : List Effect → Type 0} (Q : A → List Effect → Type 0)
      → ((es : List Effect) → L es → K es)
      → Ensures L (end {S = S} {A = A}) (OnNext K Q)
  unfolding end
  Ensures-end Q f = Ensures-pure _ _ f

  pub Ensures-break :
      {A : Type 0} {L : List Effect → Type 0} (Q : A → List Effect → Type 0) (e : Failure)
      → ((es : List Effect) → L es → K es)
      → Ensures L (break {S = S} {A = A} e) (OnNext K Q)
  unfolding break
  Ensures-break Q e f = Ensures-pure _ _ f
