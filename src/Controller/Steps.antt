-- ===== src/Controller/Steps.antt =====
-- How a function of internal/controller/quarantine_controller.go goes on or ends: with a value, with a
-- nil error, or with an error.
pub mod Carry
use nvsentinel_capi_remediat.World.{M, pure}
use nvsentinel_capi_remediat.World
use nvsentinel_capi_remediat.Quarantine.Try.{Failure}

pub data Step (A : Type 0) : Type 0 where
  next : A → Step A
  ended : Step A
  broken : Failure → Step A

abbrev pub P : Type 0 → Type 0 → Type 0
P S A = M S (Step A)

module _ {S : Type 0} where
  -- the rest of a function, after a step
  unfoldable pub go_on : {A B : Type 0} → (A → P S B) → Step A → P S B
  unfolding pure
  go_on f (next a) = f a
  go_on f ended = pure ended
  go_on f (broken e) = pure (broken e)

  infixl 5 ◌>>=◌
  unfoldable pub ◌>>=◌ : {A B : Type 0} → P S A → (A → P S B) → P S B
  unfolding World.◌>>=◌ go_on
  ◌>>=◌ m f = World.◌>>=◌ m (λ r. go_on f r)

  unfoldable pub continue : {A : Type 0} → A → P S A
  unfolding pure
  continue a = pure (next a)

  -- `return nil`
  unfoldable pub end : {A : Type 0} → P S A
  unfolding pure
  end = pure ended

  -- `return err`
  unfoldable pub break : {A : Type 0} → Failure → P S A
  unfolding pure
  break e = pure (broken e)
