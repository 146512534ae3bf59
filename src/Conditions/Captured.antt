-- ===== src/Conditions/Captured.antt =====
-- What is captured from the events of a condition is kept once.
use mathlib.Core.Path.{subst}
use nvsentinel_capi_remediat.Common.{
  ℕ, suc, String, ◌==◌, ◌≡◌, refl, sym, Bool, false, not, ◌&&◌, Bool-cases, inl, inr, List, [], ◌∷◌,
  exists_in, if◌then◌else◌, arith, eq_iff,
}
use Prim.Native.Char.{Char}
use nvsentinel_capi_remediat.Conditions.{unseen, all_captures, captures}

-- how often a text stands in a list
abbrev pub count : String → List String → ℕ
count a [] = 0
count a (x ∷ xs) = if x == a then suc (count a xs) else count a xs

abbrev pub stands_in : String → List String → Bool
stands_in a xs = exists_in (λ x. x == a) xs

-- once when it is in the list and not seen, and else not at all
abbrev once : Bool → ℕ
once b = if b then 1 else 0

module _ (a : String) where
  other :
      (seen : List String) (x : String) (xs : List String)
      → (x == a) ≡ false
      → ((s : List String) → count a (unseen s xs) ≡ once (stands_in a xs && not (stands_in a s)))
      → count a (unseen seen (x ∷ xs)) ≡ once (stands_in a (x ∷ xs) && not (stands_in a seen))
  unfolding unseen
  other seen x xs ne ih = ground (arith, ne, ih seen, ih (x ∷ seen))

  same :
      (seen xs : List String)
      → ((s : List String) → count a (unseen s xs) ≡ once (stands_in a xs && not (stands_in a s)))
      → count a (unseen seen (a ∷ xs)) ≡ once (stands_in a (a ∷ xs) && not (stands_in a seen))
  unfolding unseen
  same seen xs ih = ground (arith, eq_iff a a, ih seen, ih (a ∷ seen))

  count-unseen :
      (seen xs : List String)
      → count a (unseen seen xs) ≡ once (stands_in a xs && not (stands_in a seen))
  unfolding unseen
  count-unseen seen [] = refl
  count-unseen seen (x ∷ xs) = elim (Bool-cases (x == a)) [
    | inr ne ↦ other seen x xs ne (λ s. count-unseen s xs)
    | inl e ↦
        subst
          (λ y.
            count a (unseen seen (y ∷ xs)) ≡ once (stands_in a (y ∷ xs) && not (stands_in a seen)))
          (sym ((eq_iff x a).0 e)) (same seen xs (λ s. count-unseen s xs))
  ]

  -- A text stands once among what is captured from the events if any match has it, and not at all
  -- if none has it.
  pub count-captures :
      (prefix : String) (cls : Char → Bool) (evs : List String)
      → count a (captures prefix cls evs)
        ≡ (if stands_in a (all_captures prefix cls evs) then 1 else 0)
  unfolding captures
  count-captures prefix cls evs = ground (arith, count-unseen [] (all_captures prefix cls evs))
