-- ===== src/Common/Search.antt =====
-- What a search through a list finds after the list is sorted, mapped, filtered or appended to.
use mathlib.Core.Path.{◌≡◌, refl}
use mathlib.Core.Bool.{Bool, ◌&&◌, ◌||◌}
use mathlib.Core.List.{List, [], ◌∷◌, ◌++◌, map}
use native.Mathlib.Omega.{arith}
use nvsentinel_capi_remediat.Common.Lists.{exists_in, keep, insert_by, sort_by}

module _ {ℓ} {A : Type ℓ} (test : A → Bool) where
  pub exists_in-append :
      (xs ys : List A) → exists_in test (xs ++ ys) ≡ (exists_in test xs || exists_in test ys)
  exists_in-append [] ys = refl
  exists_in-append (x ∷ xs) ys = ground (arith, exists_in-append xs ys)

  pub exists_in-insert_by :
      (less : A → A → Bool) (a : A) (xs : List A)
      → exists_in test (insert_by less a xs) ≡ (test a || exists_in test xs)
  unfolding insert_by
  exists_in-insert_by less a [] = refl
  exists_in-insert_by less a (x ∷ xs) = ground (arith, exists_in-insert_by less a xs)

  pub exists_in-sort_by :
      (less : A → A → Bool) (xs : List A) → exists_in test (sort_by less xs) ≡ exists_in test xs
  unfolding sort_by
  exists_in-sort_by less [] = refl
  exists_in-sort_by less (x ∷ xs) =
      ground (arith, exists_in-insert_by less x (sort_by less xs), exists_in-sort_by less xs)

  pub exists_in-keep :
      (only : A → Bool) (xs : List A)
      → exists_in test (keep only xs) ≡ exists_in (λ x. only x && test x) xs
  exists_in-keep only [] = refl
  exists_in-keep only (x ∷ xs) = ground (arith, exists_in-keep only xs)

pub exists_in-map {ℓ κ} :
    {A : Type ℓ} {B : Type κ} (test : B → Bool) (f : A → B) (xs : List A)
    → exists_in test (map f xs) ≡ exists_in (λ x. test (f x)) xs
exists_in-map test f [] = refl
exists_in-map test f (x ∷ xs) = ground (arith, exists_in-map test f xs)

pub exists_in-same {ℓ} :
    {A : Type ℓ} (p q : A → Bool)
    → ((x : A) → p x ≡ q x)
    → (xs : List A) → exists_in p xs ≡ exists_in q xs
exists_in-same p q e [] = refl
exists_in-same p q e (x ∷ xs) = ground (arith, e x, exists_in-same p q e xs)
