-- ===== src/World/Yields.antt =====
-- What an action returns, whatever world it is run in, and the rules that carry it through a `do`
-- block.
use nvsentinel_capi_remediat.Common.{◌≡◌, refl, Bool, true, false, if◌then◌else◌}
use nvsentinel_capi_remediat.World.{World, M, pure, ◌>>=◌, ◌>>◌}

-- Every value that the action returns has the property.
pub record Yields {S A : Type 0} (P : A → Type 0) (m : M S A) : Type 0 where
  pub at : (w : World S) → P (m w).0

module _ {S : Type 0} where
  pub Yields-pure : {A : Type 0} (P : A → Type 0) (a : A) → P a → Yields P (pure {S = S} a)
  unfolding pure
  Yields-pure P a p = record { at = λ w. p }

  pub Yields-bind :
      {A B : Type 0} (P : B → Type 0) (m : M S A) (f : A → M S B)
      → ((a : A) → Yields P (f a))
      → Yields P (m >>= f)
  unfolding ◌>>=◌
  Yields-bind P m f kf = record { at = λ w. (kf (m w).0).at (m w).1 }

  pub Yields-then :
      {B : Type 0} (P : B → Type 0) (m : M S (Unit {0})) (k : M S B)
      → Yields P k
      → Yields P (m >> k)
  unfolding ◌>>◌
  Yields-then P m k kk = record { at = λ w. kk.at (m w).1 }

  pub Yields-if :
      {A : Type 0} (P : A → Type 0) (b : Bool) (m n : M S A)
      → (b ≡ true → Yields P m)
      → (b ≡ false → Yields P n)
      → Yields P (if b then m else n)
  Yields-if P true m n km kn = km refl
  Yields-if P false m n km kn = kn refl
