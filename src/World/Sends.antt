-- ===== src/World/Sends.antt =====
-- How many patches of Machines an action sends at most, and the rules that carry the bound through a
-- `do` block.
use nvsentinel_capi_remediat.Common.{
  ℕ, suc, ◌+◌, ◌≤◌, Bool, true, false, List, [], ◌∷◌, if◌then◌else◌, arith,
}
use nvsentinel_capi_remediat.World.{M, World, pure, ◌>>=◌, read, Effect, patched}

-- how many patches of Machines were sent
abbrev pub patches : List Effect → ℕ
patches [] = 0
patches (patched lock base updated ∷ es) = suc (patches es)
patches (e ∷ es) = patches es

-- The action sends at most so many patches.
pub record Sends {S A : Type 0} (n : ℕ) (m : M S A) : Type 0 where
  pub at : (w : World S) → patches (m w).1.effects ≤ n + patches w.effects

module _ {S : Type 0} where
  pub Sends-pure : {A : Type 0} (n : ℕ) (a : A) → Sends n (pure {S = S} a)
  unfolding pure
  Sends-pure n a = record { at = λ w. omega arith }

  pub Sends-read : {A : Type 0} (call : S → A × S) → Sends 0 (read call)
  unfolding read
  Sends-read call = record { at = λ w. omega arith }

  pub Sends-bind :
      {A B : Type 0} (n k t : ℕ) (m : M S A) (f : A → M S B)
      → Sends n m
      → ((a : A) → Sends k (f a))
      → n + k ≤ t
      → Sends t (m >>= f)
  unfolding ◌>>=◌
  Sends-bind n k t m f sm sf le = record {
    at = λ w. omega (arith, le, sm.at w, (sf (m w).0).at (m w).1);
  }

  pub Sends-if :
      {A : Type 0} (n : ℕ) (b : Bool) (m k : M S A)
      → Sends n m
      → Sends n k
      → Sends n (if b then m else k)
  Sends-if n true m k sm sk = sm
  Sends-if n false m k sm sk = sk
