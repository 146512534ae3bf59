-- ===== src/World/Ensures.antt =====
-- What holds of the record of effects before an action, and of its value and the record after it: the
-- rules that carry such a statement through a `do` block.
use nvsentinel_capi_remediat.Common.{
  ◌≡◌, Bool, true, false, refl, List, [], ◌∷◌, ◌++◌, All, if◌then◌else◌,
}
use nvsentinel_capi_remediat.World.{World, M, Effect, pure, ◌>>=◌, ◌>>◌, write}
use nvsentinel_capi_remediat.World.Adds.{Adds}

-- Where `P` holds of the record, the action leaves a value and a record that `Q` holds of.
pub record Ensures {S A : Type 0} (P : List Effect → Type 0) (m : M S A)
    (Q : A → List Effect → Type 0) : Type 0 where
  pub at : (w : World S) → P w.effects → Q (m w).0 (m w).1.effects

-- Effects with the first property do not change that the second holds of the record.
pub record Keeps (H : Effect → Type 0) (K : List Effect → Type 0) : Type 0 where
  pub step : (e : Effect) (es : List Effect) → H e → K es → K (e ∷ es)

module _ {H : Effect → Type 0} {K : List Effect → Type 0} where
  pub kept_all : (k : Keeps H K) (new es : List Effect) → All H new → K es → K (new ++ es)
  kept_all k [] es h p = p
  kept_all k (e ∷ new) es h p = k.step e (new ++ es) h.0 (kept_all k new es h.1 p)

  -- What is kept by the effects that an action adds holds after it.
  pub Ensures-frame : {S A : Type 0} (m : M S A) → Keeps H K → Adds H m → Ensures K m (λ _. K)
  Ensures-frame m k a = record {
    at = λ w p. let h = a.at w in rw h.1 (kept_all k h.0 w.effects h.2 p);
  }

module _ {S : Type 0} {P : List Effect → Type 0} where
  pub Ensures-pure :
      {A : Type 0} (Q : A → List Effect → Type 0) (a : A)
      → ((es : List Effect) → P es → Q a es)
      → Ensures P (pure {S = S} a) Q
  unfolding pure
  Ensures-pure Q a f = record { at = λ w p. f w.effects p }

  pub Ensures-write :
      {A : Type 0} (Q : List Effect → Type 0) (e : Effect) (call : S → A × S)
      → ((es : List Effect) → P es → Q (e ∷ es))
      → Ensures P (write e call) (λ _. Q)
  unfolding write
  Ensures-write Q e call f = record { at = λ w p. f w.effects p }

  pub Ensures-bind :
      {A B : Type 0} (Q : A → List Effect → Type 0) (R : B → List Effect → Type 0) (m : M S A)
      (f : A → M S B)
      → Ensures P m Q
      → ((a : A) → Ensures (Q a) (f a) R)
      → Ensures P (m >>= f) R
  unfolding ◌>>=◌
  Ensures-bind Q R m f em ef = record { at = λ w p. (ef (m w).0).at (m w).1 (em.at w p) }

  pub Ensures-weaken :
      {A : Type 0} (Q R : A → List Effect → Type 0) (m : M S A)
      → ((a : A) (es : List Effect) → Q a es → R a es)
      → Ensures P m Q
      → Ensures P m R
  Ensures-weaken Q R m f em = record { at = λ w p. f _ _ (em.at w p) }

  pub Ensures-if :
      {A : Type 0} (Q : A → List Effect → Type 0) (b : Bool) (m n : M S A)
      → (b ≡ true → Ensures P m Q)
      → (b ≡ false → Ensures P n Q)
      → Ensures P (if b then m else n) Q
  Ensures-if Q true m n em en = em refl
  Ensures-if Q false m n em en = en refl

  pub Ensures-then :
      {B : Type 0} (Q : List Effect → Type 0) (R : B → List Effect → Type 0) (m : M S (Unit {0}))
      (k : M S B)
      → Ensures P m (λ _. Q)
      → Ensures Q k R
      → Ensures P (m >> k) R
  unfolding ◌>>◌
  Ensures-then Q R m k em ek = record { at = λ w p. ek.at (m w).1 (em.at w p) }

-- Two things that are kept are kept together.
pub Keeps-both :
    {H : Effect → Type 0} {K L : List Effect → Type 0}
    → Keeps H K
    → Keeps H L
    → Keeps H (λ es. K es × L es)
Keeps-both k l = record { step = λ e es h p. (k.step e es h p.0, l.step e es h p.1) }

pub Ensures-from :
    {S A : Type 0} {P : List Effect → Type 0} (P' : List Effect → Type 0)
    (Q : A → List Effect → Type 0) (m : M S A)
    → ((es : List Effect) → P' es → P es)
    → Ensures P m Q
    → Ensures P' m Q
Ensures-from P' Q m f em = record { at = λ w p. em.at w (f w.effects p) }

-- What is known apart from the record can be used from the start.
pub Ensures-known :
    {S A : Type 0} {P : List Effect → Type 0} (F : Type 0) (Q : A → List Effect → Type 0)
    (m : M S A)
    → (F → Ensures P m Q)
    → Ensures (λ es. P es × F) m Q
Ensures-known F Q m f = record { at = λ w p. (f p.1).at w p.0 }
