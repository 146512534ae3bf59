-- ===== src/Quarantine/Leaves.antt =====
-- What the calls on rules return, and add to the record of effects, when the server answers well.
use nvsentinel_capi_remediat.Common.{ℕ, not, String, ◌≡◌, refl, true, List, [], ◌∷◌, arith}
use nvsentinel_capi_remediat.Objects.{Library, Rule}
use nvsentinel_capi_remediat.World.{
  M, ok, Client, mapped, Effect, created, seen, ◌>>=◌, ◌>>◌, pure, read, write,
}
use nvsentinel_capi_remediat.World.Adds.{Adds}
use nvsentinel_capi_remediat.World.Ensures.{
  Ensures, Keeps, Ensures-frame, Ensures-pure, Ensures-bind, Ensures-then, Ensures-if,
}
use nvsentinel_capi_remediat.Quarantine.Device.{Device}
use nvsentinel_capi_remediat.Quarantine.Client.{Apis, Toolkit}
use nvsentinel_capi_remediat.Quarantine.Try.{done, and_then}
use nvsentinel_capi_remediat.Quarantine.Naming.{rule_name}
use nvsentinel_capi_remediat.Quarantine.Runs.{Gives}
use nvsentinel_capi_remediat.Quarantine.Rules.{
  Owner, blocks, rule_for, kind, find_version, on_mapping, note_seen, ensure, ensure_in, ensured,
  checked, check, exists_checked, exists_version, exists_rule,
}

-- the last effect has the property, and the record before it the other
abbrev pub Then : (Effect → Type 0) → (List Effect → Type 0) → List Effect → Type 0
Then P K [] = ⊥
Then P K (e ∷ es) = P e × K es

-- From a record that has the first property, the action returns the value and leaves a record that
-- has the second.
abbrev pub Leaves :
    {S A : Type 0} → (List Effect → Type 0) → M S A → A → (List Effect → Type 0) → Type 0
Leaves K m x L = Ensures K m (λ a es. (a ≡ x) × L es)

-- the creation of the device's rule, at any time
abbrev pub IsMade : Library → Toolkit → Owner → Device → Effect → Type 0
IsMade lib tools owner d (created rule) = (now : ℕ) × (rule ≡ rule_for tools lib "v1" d owner now)
IsMade lib tools owner d e = ⊥

module _ {S : Type 0} (K L : List Effect → Type 0) where
  pub bind_left :
      {A B : Type 0} (x : A) (R : B → List Effect → Type 0) (m : M S A) (f : A → M S B)
      → Leaves K m x L
      → Ensures L (f x) R
      → Ensures K (m >>= f) R
  bind_left x R m f h e = Ensures-bind _ _ _ _ h (λ a. record { at = λ w q. rw q.0 (e.at w q.1) })

module _ {S : Type 0} (K : List Effect → Type 0) where
  -- an action that returns the value and adds nothing
  pub Leaves-quiet : {A : Type 0} (m : M S A) (x : A) → Gives m x → Adds (λ e. ⊥) m → Leaves K m x K
  Leaves-quiet m x g a =
      let kept : Ensures K m (λ b. K) = Ensures-frame m nothing_kept a in
      record { at = λ w p. (g.at w tt, kept.at w p) }
    where
      nothing_kept : Keeps (λ e. ⊥) K
      nothing_kept = record { step = λ e es h p. absurd h }

  pub Leaves-pure : {A : Type 0} (x : A) → Leaves K (pure {S = S} x) x K
  Leaves-pure x = Ensures-pure _ x (λ es p. (refl, p))

  pub Leaves-write :
      {A : Type 0} (P : Effect → Type 0) (e : Effect) (call : S → A × S) (x : A)
      → P e
      → ((s : S) → (call s).0 ≡ x)
      → Leaves K (write e call) x (Then P K)
  unfolding write
  Leaves-write P e call x p h = record { at = λ w k. (h w.server, (p, k)) }

  -- a read whose value is known
  pub Leaves-read :
      {A : Type 0} (call : S → A × S) (x : A)
      → ((s : S) → (call s).0 ≡ x)
      → Leaves K (read call) x K
  unfolding read
  Leaves-read call x h = record { at = λ w k. (h w.server, k) }

  module _ (lib : Library) (tools : Toolkit) (client : Client S) (apis : Apis S)
      (serves : (version : String) (s : S) → (apis.map_rule version s).0 ≡ mapped) where
    kind-Leaves : Leaves K (kind lib tools client apis) (done "v1") K
    unfolding kind find_version on_mapping
    kind-Leaves = bind_left K K mapped _ _ _ (Leaves-read _ mapped (serves "v1")) (Leaves-pure _)

    pub ensure-Leaves :
        (d : Device) (owner : Owner)
        → ((rule : Rule) (s : S) → (apis.create_rule rule s).0 ≡ ok tt)
        → Leaves K
            (ensure lib tools client apis d owner)
            (done true)
            (Then (IsMade lib tools owner d) K)
    unfolding ensure ensure_in and_then ensured read
    ensure-Leaves d owner creates = bind_left K K (done "v1") _ _ _ kind-Leaves (
        Ensures-bind (λ now. K) _ _ _ (record { at = λ w k. k })
          (λ now.
            bind_left K (Then (IsMade lib tools owner d) K) (ok tt) _ _ _
              (Leaves-write (IsMade lib tools owner d) _ _ (ok tt) (now, refl) (creates _))
              (Ensures-pure _ _ (λ es p. (refl, p)))))

    pub exists_rule-Leaves :
        (d : Device) (rule : Rule)
        → ((version : String) (s : S)
            → (apis.get_rule version (rule_name tools.sha256 d) s).0 ≡ ok rule)
        → blocks rule d ≡ true
        → Leaves K (exists_rule lib tools client apis d) (done true) (Then (λ e. e ≡ seen rule) K)
    unfolding exists_rule exists_version and_then check exists_checked checked note_seen ◌>>◌ write
        pure
    exists_rule-Leaves d rule reads b = bind_left K K (done "v1") _ _ _ kind-Leaves (
        bind_left K (Then (λ e. e ≡ seen rule) K) (done tt) _ _ _
          (bind_left K K (ok rule) _ _ _ (Leaves-read _ (ok rule) (reads "v1")) (
            Ensures-then (Then (λ e. e ≡ seen rule) K) _ _ _ (record { at = λ w k. (refl, k) })
              (Ensures-if _ (not (blocks rule d)) _ _ (λ other. absurd (ground (arith, other, b)))
                (λ same. Ensures-pure _ _ (λ es p. (refl, p))))))
          (Ensures-pure _ _ (λ es p. (refl, p))))
