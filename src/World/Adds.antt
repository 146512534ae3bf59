-- ===== src/World/Adds.antt =====
-- What an action adds to the record of effects, and the rules that carry it through a `do` block.
use mathlib.Core.List.{append_assoc}
use nvsentinel_capi_remediat.Common.{
  ◌≡◌, refl, sym, ap, ◌∙◌, Bool, true, false, List, [], ◌∷◌, ◌++◌, All, All-append, All-weaken,
  if◌then◌else◌,
}
use nvsentinel_capi_remediat.World.{
  World, M, Effect, Event, recorded, pure, ◌>>=◌, ◌>>◌, read, write, record_event,
}

-- The effects that the action adds have the property, whatever came before them.
pub record Adds {S A : Type 0} (P : Effect → Type 0) (m : M S A) : Type 0 where
  pub at : (w : World S) → (new : List Effect) × ((m w).1.effects ≡ new ++ w.effects) × All P new

-- what two actions in sequence add
both :
    (old mid after n1 n2 : List Effect)
    → mid ≡ n1 ++ old
    → after ≡ n2 ++ mid
    → after ≡ (n2 ++ n1) ++ old
both old mid after n1 n2 e1 e2 = e2 ∙ ap (λ es. n2 ++ es) e1 ∙ sym (append_assoc n2 n1 old)

module _ {S : Type 0} {P : Effect → Type 0} where
  pub Adds-pure : {A : Type 0} (a : A) → Adds P (pure {S = S} a)
  unfolding pure
  Adds-pure a = record { at = λ w. ([], refl, tt) }

  pub Adds-read : {A : Type 0} (call : S → A × S) → Adds P (read call)
  unfolding read
  Adds-read call = record { at = λ w. ([], refl, tt) }

  pub Adds-write : {A : Type 0} (e : Effect) (call : S → A × S) → P e → Adds P (write e call)
  unfolding write
  Adds-write e call p = record { at = λ w. (e ∷ [], refl, (p, tt)) }

  pub Adds-record_event : (e : Event) → P (recorded e) → Adds P (record_event {S = S} e)
  unfolding record_event
  Adds-record_event e p = record { at = λ w. (recorded e ∷ [], refl, (p, tt)) }

  pub Adds-bind :
      {A B : Type 0} (m : M S A) (f : A → M S B)
      → Adds P m
      → ((a : A) → Adds P (f a))
      → Adds P (m >>= f)
  unfolding ◌>>=◌
  Adds-bind m f am af = record {
    at = λ w.
        let h = am.at w in
        let k = (af (m w).0).at (m w).1 in
        (
          k.0 ++ h.0,
          both w.effects (m w).1.effects _ h.0 k.0 h.1 k.1,
          All-append P k.0 h.0 k.2 h.2,
        );
  }

  pub Adds-then :
      {B : Type 0} (m : M S (Unit {0})) (k : M S B) → Adds P m → Adds P k → Adds P (m >> k)
  unfolding ◌>>◌
  Adds-then m k' am ak = record {
    at = λ w.
        let h = am.at w in
        let k = ak.at (m w).1 in
        (
          k.0 ++ h.0,
          both w.effects (m w).1.effects _ h.0 k.0 h.1 k.1,
          All-append P k.0 h.0 k.2 h.2,
        );
  }

  pub Adds-if :
      {A : Type 0} (b : Bool) (m n : M S A)
      → (b ≡ true → Adds P m)
      → (b ≡ false → Adds P n)
      → Adds P (if b then m else n)
  Adds-if true m n am an = am refl
  Adds-if false m n am an = an refl

  pub Adds-weaken :
      {A : Type 0} (Q : Effect → Type 0) (m : M S A)
      → ((e : Effect) → P e → Q e)
      → Adds P m
      → Adds Q m
  Adds-weaken Q m f am = record {
    at = λ w. let h = am.at w in (h.0, h.1, All-weaken P Q h.0 f h.2);
  }

pub ruleset adds_rules =
    (Adds-pure, Adds-read, Adds-write, Adds-record_event, Adds-bind, Adds-then, Adds-if)
