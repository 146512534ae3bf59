-- ===== src/Quarantine/Steps.antt =====
-- Actions of internal/quarantine that may fail, in sequence: an error ends the sequence.
use nvsentinel_capi_remediat.Common.{String}
use nvsentinel_capi_remediat.World.{M, pure, read, Result}
use nvsentinel_capi_remediat.World
use nvsentinel_capi_remediat.Quarantine.Try.{done, failed, rejection, wrap, T, and_then}

module _ {S : Type 0} where
  infixl 5 ◌>>=◌
  unfoldable pub ◌>>=◌ : {A B : Type 0} → T S A → (A → T S B) → T S B
  unfolding World.◌>>=◌ and_then
  ◌>>=◌ m f = World.◌>>=◌ m (λ r. and_then f r)

  unfoldable pub give : {A : Type 0} → A → T S A
  unfolding pure
  give a = pure (done a)

  unfoldable pub reject : {A : Type 0} → String → String → T S A
  unfolding pure
  reject reason message = pure (failed (rejection reason message))

  -- a read whose error is wrapped
  unfoldable pub reading : {A : Type 0} → String → (S → Result A × S) → T S A
  unfolding World.◌>>=◌ pure read
  reading context call = World.◌>>=◌ (read call) (λ r. pure (wrap context r))
