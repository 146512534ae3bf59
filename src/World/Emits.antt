-- ===== src/World/Emits.antt =====
-- What an action writes and records, and the rules that carry it through a `do` block.
use nvsentinel_capi_remediat.Common.{◌≡◌, refl, Bool, true, false, All, if◌then◌else◌}
use nvsentinel_capi_remediat.World.{
  World, M, Effect, Event, recorded, pure, ◌>>=◌, ◌>>◌, read, write, record_event,
}

-- Every effect of the action has the property.
pub record Emits {S A : Type 0} (P : Effect → Type 0) (m : M S A) : Type 0 where
  pub at : (w : World S) → All P w.effects → All P (m w).1.effects

module _ {S : Type 0} {P : Effect → Type 0} where
  pub Emits-pure : {A : Type 0} (a : A) → Emits P (pure {S = S} a)
  unfolding pure
  Emits-pure a = record { at = λ w h. h }

  pub Emits-read : {A : Type 0} (call : S → A × S) → Emits P (read call)
  unfolding read
  Emits-read call = record { at = λ w h. h }

  pub Emits-write : {A : Type 0} (e : Effect) (call : S → A × S) → P e → Emits P (write e call)
  unfolding write
  Emits-write e call p = record { at = λ w h. (p, h) }

  pub Emits-record_event : (e : Event) → P (recorded e) → Emits P (record_event {S = S} e)
  unfolding record_event
  Emits-record_event e p = record { at = λ w h. (p, h) }

  pub Emits-bind :
      {A B : Type 0} (m : M S A) (f : A → M S B)
      → Emits P m
      → ((a : A) → Emits P (f a))
      → Emits P (m >>= f)
  unfolding ◌>>=◌
  Emits-bind m f km kf = record { at = λ w h. (kf (m w).0).at (m w).1 (km.at w h) }

  pub Emits-then :
      {B : Type 0} (m : M S (Unit {0})) (k : M S B) → Emits P m → Emits P k → Emits P (m >> k)
  unfolding ◌>>◌
  Emits-then m k km kk = record { at = λ w h. kk.at (m w).1 (km.at w h) }

  pub Emits-if :
      {A : Type 0} (b : Bool) (m n : M S A)
      → (b ≡ true → Emits P m)
      → (b ≡ false → Emits P n)
      → Emits P (if b then m else n)
  Emits-if true m n km kn = km refl
  Emits-if false m n km kn = kn refl

pub ruleset emits_rules =
    (Emits-pure, Emits-read, Emits-write, Emits-record_event, Emits-bind, Emits-then, Emits-if)
