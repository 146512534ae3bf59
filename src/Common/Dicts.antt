-- ===== src/Common/Dicts.antt =====
-- Go's maps with string keys, as association lists: a read of a missing key yields the zero
-- value, and `remove` of a missing key changes nothing. A nil map is the empty list.
use Prim.Native.String.{String}
use mathlib.Core.Path.{◌≡◌, refl}
use mathlib.Core.Logic.{◌≢◌, inl, inr}
use mathlib.Core.Bool.{Bool, false}
use mathlib.Core.Option.{Option, none, some}
use mathlib.Core.List.{List, [], ◌∷◌}
use native.Mathlib.Omega.{arith}
use text.Mathlib.Text.{◌==◌}
use text.Mathlib.TextEquality.{eq_iff}
use text.Mathlib.TextPositions.{eq_refl}
use nvsentinel_capi_remediat.Common.Tests.{if◌then◌else◌, is_some, Bool-cases}

abbrev pub Dict {ℓ} : Type ℓ → Type ℓ
Dict V = List (String × V)

module _ {ℓ} {V : Type ℓ} where
  unfoldable pub lookup : String → Dict V → Option V
  lookup key [] = none
  lookup key ((own, value) ∷ d) = if own == key then some value else lookup key d

  -- `_, ok := m[k]`
  unfoldable pub has : String → Dict V → Bool
  has k m = is_some (lookup k m)

  -- `m[key] = value`
  unfoldable pub insert : String → V → Dict V → Dict V
  insert key value [] = (key, value) ∷ []
  insert key value ((own, old) ∷ d) =
      if own == key then (key, value) ∷ d else (own, old) ∷ insert key value d

  -- `delete(m, k)`
  unfoldable pub remove : String → Dict V → Dict V
  remove k [] = []
  remove k ((j, w) ∷ m) = if j == k then remove k m else (j, w) ∷ remove k m

  abbrev pub or_else : V → Option V → V
  or_else d none = d
  or_else d (some v) = v

  -- `m[k]`, with the zero value for a missing key
  unfoldable pub get_or : V → String → Dict V → V
  get_or d k m = or_else d (lookup k m)

  pub lookup-insert :
      (key sought : String) (value : V) (d : Dict V)
      → lookup sought (insert key value d) ≡ (if key == sought then some value else lookup sought d)
  unfolding lookup insert
  lookup-insert key sought value [] = refl
  lookup-insert key sought value ((own, old) ∷ d) = ground (
    arith,
    lookup-insert key sought value d,
    eq_iff own sought,
    eq_iff own key,
    eq_iff key sought,
  )

  pub lookup-insert_self :
      (key : String) (value : V) (d : Dict V) → lookup key (insert key value d) ≡ some value
  lookup-insert_self key value d = simp (eq_refl, lookup-insert)

  pub lookup-remove :
      (k j : String) (m : Dict V) → lookup j (remove k m) ≡ (if k == j then none else lookup j m)
  unfolding lookup remove
  lookup-remove k j [] = ground arith
  lookup-remove k j ((i, w) ∷ m) =
      ground (arith, eq_iff k j, eq_iff i k, eq_iff i j, lookup-remove k j m)

-- what the tests on texts mean
pub ==_of_ne : (a b : String) → a ≢ b → (a == b) ≡ false
==_of_ne a b h = elim (Bool-cases (a == b)) [ inl e ↦ absurd (h ((eq_iff a b).0 e)) | inr e ↦ e ]

pub ==_comm : (s t : String) → (s == t) ≡ (t == s)
==_comm s t = ground (arith, eq_iff s t, eq_iff t s)
