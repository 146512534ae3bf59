-- ===== src/Quarantine/Rules/Made.antt =====
-- That a rule, as `Ensure` makes it, passes the tests of `Exists` and `Of`.
use text.Mathlib.TextPositions.{eq_refl}
use nvsentinel_capi_remediat.Common.{
  ℕ, String, ◌==◌, ◌≡◌, true, false, ◌||◌, is_blank, get_or, lookup, arith,
}
use nvsentinel_capi_remediat.Objects.{Library}
use nvsentinel_capi_remediat.Quarantine.Device.{Device}
use nvsentinel_capi_remediat.Quarantine.Client.{Toolkit}
use nvsentinel_capi_remediat.Quarantine.Naming.{rule_name}
use nvsentinel_capi_remediat.Quarantine.Rules.{
  Owner, owner_text, rule_for, blocks, is_blocking, selected_device, is_made_for,
}

-- the parts of the device are not empty
abbrev pub IsNamed : Device → Type 0
IsNamed d = (is_blank d.driver || is_blank d.pool || is_blank d.name) ≡ false

module _ (tools : Toolkit) (lib : Library) (version : String) (d : Device) (owner : Owner)
    (now : ℕ) where
  pub blocks-rule_for : blocks (rule_for tools lib version d owner now) d ≡ true
  unfolding blocks rule_for is_blocking get_or lookup
  blocks-rule_for = ground (arith, eq_refl d.driver, eq_refl d.pool, eq_refl d.name)

  pub is_made_for-rule_for :
      IsNamed d → is_made_for tools owner (rule_for tools lib version d owner now) ≡ true
  unfolding is_made_for rule_for selected_device is_blocking get_or lookup
  is_made_for-rule_for h = ground (arith, h, eq_refl (owner_text owner), own_name)
    where
      own_name :
          ((rule_for tools lib version d owner now).name
            == rule_name tools.sha256 (selected_device (rule_for tools lib version d owner now)))
          ≡ true
      own_name = eq_refl _
