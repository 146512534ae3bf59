-- ===== src/Quarantine/Runs.antt =====
-- What the calls of a replace request return when the servers answer well.
use nvsentinel_capi_remediat.Common.{String, ◌≡◌, refl, List, [], ◌∷◌}
use nvsentinel_capi_remediat.Objects.{Library, Rule}
use nvsentinel_capi_remediat.World.{M, ok, Client, mapped, Effect, ◌>>=◌, pure, read}
use nvsentinel_capi_remediat.World.Ensures.{
  Ensures, Ensures-pure, Ensures-bind, Ensures-then, Ensures-write, Ensures-weaken,
}
use nvsentinel_capi_remediat.Quarantine.Client.{Apis, Toolkit}
use nvsentinel_capi_remediat.Quarantine.Try.{done, and_then}
use nvsentinel_capi_remediat.Quarantine.Rules.{Owner}
use nvsentinel_capi_remediat.Quarantine.Rules.{
  kind, find_version, on_mapping, note_seen, of, of_in, listed, made_for, owner_labels,
}

-- the record before does not matter
abbrev pub Any : List Effect → Type 0
Any es = Unit

-- The action returns the value, whatever world it is run in.
abbrev pub Gives : {S A : Type 0} → M S A → A → Type 0
Gives m x = Ensures Any m (λ a es. a ≡ x)

module _ {S : Type 0} where
  pub Gives-read :
      {A : Type 0} (call : S → A × S) (x : A) → ((s : S) → (call s).0 ≡ x) → Gives (read call) x
  unfolding read
  Gives-read call x h = record { at = λ w p. h w.server }

  pub bind_given :
      {A B : Type 0} (x : A) (R : B → List Effect → Type 0) (m : M S A) (f : A → M S B)
      → Gives m x
      → Ensures Any (f x) R
      → Ensures Any (m >>= f) R
  bind_given x R m f g e =
      Ensures-bind _ _ _ _ g (λ a. record { at = λ w same. rw same (e.at w tt) })

  pub Gives-pure : {A : Type 0} (x : A) → Gives (pure {S = S} x) x
  Gives-pure x = Ensures-pure _ x (λ es p. refl)

module _ {S : Type 0} (lib : Library) (tools : Toolkit) (client : Client S) (apis : Apis S)
    (serves : (version : String) (s : S) → (apis.map_rule version s).0 ≡ mapped) where
  pub kind-Gives : Gives (kind lib tools client apis) (done "v1")
  unfolding kind find_version on_mapping
  kind-Gives = bind_given mapped _ _ _ (Gives-read _ mapped (serves "v1")) (Gives-pure (done "v1"))

  pub seen-Gives : (rs : List Rule) → Gives (note_seen lib tools client apis rs) tt
  unfolding note_seen
  seen-Gives [] = Gives-pure tt
  seen-Gives (rule ∷ rs) = Ensures-then Any _ _ _ (Ensures-write _ _ _ (λ es p. tt)) (seen-Gives rs)

  pub of-Gives :
      (owner : Owner) (rules : List Rule)
      → ((s : S) → (apis.list_rules "v1" (owner_labels tools owner) s).0 ≡ ok rules)
      → Gives (of lib tools client apis owner) (done (made_for tools owner rules))
  unfolding of of_in and_then listed
  of-Gives owner rules lists = bind_given (done "v1") _ _ _ kind-Gives (
      bind_given (ok rules) _ _ _ (Gives-read _ (ok rules) lists) (
        Ensures-then Any _ _ _ (Ensures-weaken _ _ _ (λ a es p. tt) (seen-Gives rules))
          (Gives-pure (done (made_for tools owner rules)))))
