-- ===== src/Quarantine/Rules/Listed.antt =====
-- That `Of` finds the rules which `Ensure` made, through the labels by which it lists them.
use text.Mathlib.TextPositions.{eq_refl}
use nvsentinel_capi_remediat.Common.{
  ℕ, String, ◌≡◌, refl, Bool, true, false, not, ◌&&◌, List, [], ◌∷◌, ◌++◌, map, keep, exists_in,
  exists_in-append, exists_in-keep, exists_in-map, exists_in-sort_by, ltb, Option, none, some, Dict,
  get_or, lookup, arith,
}
use nvsentinel_capi_remediat.Objects.{Library, Rule}
use nvsentinel_capi_remediat.World.{World, ok, Client, mapped}
use nvsentinel_capi_remediat.Quarantine.Device.{Device, device_lt, same_device}
use nvsentinel_capi_remediat.Quarantine.Client.{Apis, Toolkit}
use nvsentinel_capi_remediat.Quarantine.Try.{done}
use nvsentinel_capi_remediat.Quarantine.Naming.{label_value}
use nvsentinel_capi_remediat.Quarantine.Runs.{of-Gives}
use nvsentinel_capi_remediat.Quarantine.Rules.{
  Owner, owner_labels, cluster_label, rule_for, blocks, selected_device, is_made_for, made_for, of,
}
use nvsentinel_capi_remediat.Quarantine.Rules.Made.{IsNamed, blocks-rule_for, is_made_for-rule_for}

abbrev pub same_bytes : List ℕ → List ℕ → Bool
same_bytes [] [] = true
same_bytes (x ∷ xs) (y ∷ ys) = not (ltb x y) && not (ltb y x) && same_bytes xs ys
same_bytes _ _ = false

same_bytes_refl : (xs : List ℕ) → same_bytes xs xs ≡ true
same_bytes_refl [] = refl
same_bytes_refl (x ∷ xs) = ground (arith, same_bytes_refl xs)

abbrev pub has_value : List ℕ → Option (List ℕ) → Bool
has_value value none = false
has_value value (some own) = same_bytes value own

-- whether a rule carries the labels, as a label selector asks
abbrev pub carries : Dict (List ℕ) → Rule → Bool
carries [] rule = true
carries ((key, value) ∷ labels) rule =
    has_value value (lookup key rule.labels) && carries labels rule

module _ (tools : Toolkit) (lib : Library) (version : String) (d : Device) (owner : Owner)
    (now : ℕ) where
  carries-rule_for :
      carries (owner_labels tools owner) (rule_for tools lib version d owner now) ≡ true
  unfolding owner_labels rule_for lookup
  carries-rule_for = rw (same_bytes_refl, same_bytes_refl) refl

  selected-rule_for :
      same_device d (selected_device (rule_for tools lib version d owner now)) ≡ true
  unfolding selected_device rule_for get_or lookup same_device
  selected-rule_for = ground (arith, eq_refl d.driver, eq_refl d.pool, eq_refl d.name)

  -- the tests of `Of` on the rules that were listed
  kept :
      (before after : List Rule)
      → IsNamed d
      → exists_in (same_device d) (
          made_for tools owner (
            keep
              (carries (owner_labels tools owner))
              (before ++ rule_for tools lib version d owner now ∷ after)))
        ≡ true
  unfolding made_for
  kept before after h =
      let rule = rule_for tools lib version d owner now in
      let all = before ++ rule ∷ after in
      let listed = keep (carries (owner_labels tools owner)) all in
      let own = keep (is_made_for tools owner) listed in
      let test : Rule → Bool = λ x. same_device d (selected_device x) in
      let made : Rule → Bool = λ x. is_made_for tools owner x && test x in
      let both : Rule → Bool = λ x. carries (owner_labels tools owner) x && made x in
      ground (
        arith,
        exists_in-sort_by (same_device d) device_lt (map selected_device own),
        exists_in-map (same_device d) selected_device own,
        exists_in-keep test (is_made_for tools owner) listed,
        exists_in-keep made (carries (owner_labels tools owner)) all,
        exists_in-append both before (rule ∷ after),
        carries-rule_for,
        selected-rule_for,
        is_made_for-rule_for tools lib version d owner now h,
      )

module _ {S : Type 0} (lib : Library) (tools : Toolkit) (client : Client S) (apis : Apis S)
    (d : Device) (owner : Owner) (version : String) (now : ℕ) (before after : List Rule)
    (serves : (v : String) (s : S) → (apis.map_rule v s).0 ≡ mapped)
    (lists : (labels : Dict (List ℕ)) (s : S)
      → (apis.list_rules "v1" labels s).0
        ≡ ok (
            keep (carries labels) (before ++ rule_for tools lib version d owner now ∷ after))) where
  -- A rule that `Ensure` makes for a device, with a name in each part, is found again among any other
  -- rules, when the cluster serves the rules and answers a list call with those that carry the labels
  -- asked for: the devices that `Of` returns for the owner have this one. The rule keeps the device
  -- from being allocated, and is labelled with the owner's Cluster.
  pub of-rule_for :
      IsNamed d
      → (w : World S)
      → (blocks (rule_for tools lib version d owner now) d ≡ true)
        × (lookup cluster_label (rule_for tools lib version d owner now).labels
            ≡ some (label_value tools.sha256 owner.cluster))
        × (ds : List Device) × ((of lib tools client apis owner w).0 ≡ done ds)
        × (exists_in (same_device d) ds ≡ true)
  unfolding rule_for lookup
  of-rule_for h w = (
    blocks-rule_for tools lib version d owner now,
    refl,
    made_for tools owner (
        keep (carries (owner_labels tools owner))
          (before ++ rule_for tools lib version d owner now ∷ after)),
    (of-Gives lib tools client apis serves owner _ (lists (owner_labels tools owner))).at w tt,
    kept tools lib version d owner now before after h,
  )
