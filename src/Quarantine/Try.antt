-- ===== src/Quarantine/Try.antt =====
-- Errors of internal/quarantine and how they are passed on. An error is a rejection, an error of the
-- API with the text that it was wrapped in, or another error.
use nvsentinel_capi_remediat.Common.{
  String, Bool, true, false, if◌then◌else◌, ◌≡◌, refl, ◌⊎◌, inl, inr,
}
use nvsentinel_capi_remediat.World
use nvsentinel_capi_remediat.World.{ApiError, World, M, pure, read, write, Effect}

pub data Failure : Type 0 where
  -- the reason and the message
  rejection : String → String → Failure
  api_error : String → ApiError → Failure
  plain_error : String → Failure

pub data Try {ℓ} (A : Type ℓ) : Type ℓ where
  done : A → Try A
  failed : Failure → Try A

infixl 5 ◌>>=◌ ◌>>◌
abbrev pub ◌>>=◌ {ℓ κ} : {A : Type ℓ} {B : Type κ} → Try A → (A → Try B) → Try B
done a >>= f = f a
failed e >>= f = failed e

abbrev pub ◌>>◌ {ℓ} : {B : Type ℓ} → Try (Unit {0}) → Try B → Try B
check >> rest = check >>= λ u. rest

-- `if !test { return reject(…) }`
abbrev pub reject_unless : Bool → String → String → Try (Unit {0})
reject_unless test reason message = if test then done tt else failed (rejection reason message)

-- `fmt.Errorf("context: %w", err)`
abbrev pub wrap {ℓ} : {A : Type ℓ} → String → World.Result A → Try A
wrap context (World.ok a) = done a
wrap context (World.err e) = failed (api_error context e)

-- the tests of `errors.As` and of the API's errors, which look through the wrapping
unfoldable pub is_api_not_found : Failure → Bool
is_api_not_found (api_error context ApiError.not_found) = true
is_api_not_found e = false

unfoldable pub is_api_conflict : Failure → Bool
is_api_conflict (api_error context ApiError.conflict) = true
is_api_conflict e = false

-- actions on a world that may fail
abbrev pub T : Type 0 → Type 0 → Type 0
T S A = M S (Try A)

module _ {S : Type 0} where
  -- `if err != nil { return …, err }`
  unfoldable pub and_then : {A B : Type 0} → (A → T S B) → Try A → T S B
  and_then f (done a) = f a
  and_then f (failed e) = pure (failed e)

-- what a sequence that succeeds consists of
pub done_of_bind {ℓ κ} :
    {A : Type ℓ} {B : Type κ} (m : Try A) (f : A → Try B) (b : B)
    → (m >>= f) ≡ done b
    → (a : A) × (m ≡ done a) × (f a ≡ done b)
done_of_bind (done a) f b h = (a, refl, h)
done_of_bind (failed e) f b h = absurd (cc h)

-- what a sequence that fails consists of
pub failed_of_bind {ℓ κ} :
    {A : Type ℓ} {B : Type κ} (m : Try A) (f : A → Try B) (e : Failure)
    → (m >>= f) ≡ failed e
    → (m ≡ failed e) ⊎ ((a : A) × (m ≡ done a) × (f a ≡ failed e))
failed_of_bind (done a) f e h = inr (a, refl, h)
failed_of_bind (failed e) f e' h = inl (cc h)

pub done_same {ℓ} : {A : Type ℓ} (a b : A) → done b ≡ done a → a ≡ b
done_same a b h = cc h
