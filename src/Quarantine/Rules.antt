-- ===== src/Quarantine/Rules.antt =====
-- internal/quarantine/rules.go: creating, checking and finding the DeviceTaintRules that quarantine
-- devices. The mapper returns the kind in the version it is asked for.
pub mod Made
pub mod Listed
use nvsentinel_capi_remediat.Common.{
  ℕ, String, ◌⧺◌, ◌==◌, Bool, true, false, not, ◌&&◌, ◌||◌, List, [], ◌∷◌, map, keep, exists_in,
  is_empty, Option, none, some, Dict, lookup, get_or, join, sort_by, is_blank, if◌then◌else◌,
}
use nvsentinel_capi_remediat.Objects.{Library, Rule}
use nvsentinel_capi_remediat.World
use nvsentinel_capi_remediat.World.{
  M, pure, ◌>>=◌, ◌>>◌, read, write, Result, ok, err, ApiError, not_found, already_exists, Client,
  Mapping, mapped, no_match, created, seen,
}
use nvsentinel_capi_remediat.Capi.Note.{utf8}
use nvsentinel_capi_remediat.Quarantine.Device.{Device, device_text, device_lt}
use nvsentinel_capi_remediat.Quarantine.Request.{
  reason_device_taint_rule_unavailable, reason_device_taint_rule_conflict,
}
use nvsentinel_capi_remediat.Quarantine.Naming.{rule_name, label_value}
use nvsentinel_capi_remediat.Quarantine.Client.{Apis, Toolkit}
use nvsentinel_capi_remediat.Quarantine.Try.{
  Try, done, failed, Failure, rejection, api_error, T, and_then, is_api_not_found,
}

abbrev pub rule_versions : List String
rule_versions = "v1" ∷ "v1beta2" ∷ []

abbrev pub blocking_effects : List String
blocking_effects = "NoSchedule" ∷ "NoExecute" ∷ []

abbrev pub taint_key : String
taint_key = "nvsentinel.petasus.io/quarantined"

abbrev pub managed_by_label : String
managed_by_label = "app.kubernetes.io/managed-by"

abbrev pub managed_by : String
managed_by = "nvsentinel-capi-remediator"

abbrev pub machine_label : String
machine_label = "nvsentinel.petasus.io/machine"

abbrev pub machine_namespace_label : String
machine_namespace_label = "nvsentinel.petasus.io/machine-namespace"

abbrev pub cluster_label : String
cluster_label = "nvsentinel.petasus.io/cluster"

abbrev pub machine_annotation : String
machine_annotation = "nvsentinel.petasus.io/machine"

abbrev pub device_annotation : String
device_annotation = "nvsentinel.petasus.io/device"

abbrev pub requested_at_annotation : String
requested_at_annotation = "nvsentinel.petasus.io/requested-at"

pub record Owner : Type 0 where
  pub namespace : String
  pub name : String
  pub cluster : String

unfoldable pub is_blocking : String → Bool
is_blocking effect = exists_in (λ e. e == effect) blocking_effects

-- whether the rule selects the device and keeps it from being allocated
unfoldable pub blocks : Rule → Device → Bool
unfolding is_blocking get_or lookup
blocks rule d =
    get_or "" "driver" rule.selector == d.driver
    && get_or "" "pool" rule.selector == d.pool
    && get_or "" "device" rule.selector == d.name
    && is_blocking rule.effect

-- the device that a rule's selector names
unfoldable pub selected_device : Rule → Device
unfolding get_or lookup
selected_device rule = record {
  driver = get_or "" "driver" rule.selector;
  pool = get_or "" "pool" rule.selector;
  name = get_or "" "device" rule.selector;
}

abbrev pub owner_text : Owner → String
owner_text owner = owner.namespace ⧺ "/" ⧺ owner.name

module _ (tools : Toolkit) where
  -- the labels that `Of` asks for
  unfoldable pub owner_labels : Owner → Dict (List ℕ)
  unfolding label_value utf8
  owner_labels owner =
      (managed_by_label, utf8 managed_by)
      ∷ (machine_label, label_value tools.sha256 owner.name)
      ∷ (machine_namespace_label, label_value tools.sha256 owner.namespace)
      ∷ []

  -- the tests of the loop of `Of`
  unfoldable pub is_made_for : Owner → Rule → Bool
  unfolding selected_device is_blocking rule_name
  is_made_for owner rule =
      let d = selected_device rule in
      get_or "" machine_annotation rule.annotations == owner_text owner
      && not (
          is_blank d.driver
          || is_blank d.pool
          || is_blank d.name
          || not (is_blocking rule.effect)
          || not (rule.name == rule_name tools.sha256 d))

  unfoldable pub made_for : Owner → List Rule → List Device
  unfolding is_made_for selected_device sort_by device_lt
  made_for owner rules = sort_by device_lt (map selected_device (keep (is_made_for owner) rules))

  -- `ruleFor`, at the time `now`
  unfoldable pub rule_for : Library → String → Device → Owner → ℕ → Rule
  unfolding rule_name label_value utf8 device_text
  rule_for lib version d owner now = record {
    version = version;
    name = rule_name tools.sha256 d;
    labels =
        (managed_by_label, utf8 managed_by)
        ∷ (machine_label, label_value tools.sha256 owner.name)
        ∷ (machine_namespace_label, label_value tools.sha256 owner.namespace)
        ∷ (cluster_label, label_value tools.sha256 owner.cluster)
        ∷ [];
    annotations =
        (machine_annotation, owner_text owner)
        ∷ (device_annotation, device_text d)
        ∷ (requested_at_annotation, lib.format_time now)
        ∷ [];
    selector = ("driver", d.driver) ∷ ("pool", d.pool) ∷ ("device", d.name) ∷ [];
    taint_key = taint_key;
    taint_value = "true";
    effect = "NoSchedule";
  }

-- `Covers`
unfoldable pub covers : List Device → List String → Bool
covers devices names =
    not (is_empty devices)
    && not (exists_in (λ name. not (exists_in (λ d. d.name == name) devices)) names)

module _ {S : Type 0} (lib : Library) (tools : Toolkit) (client : Client S) (apis : Apis S) where
  unfoldable pub on_mapping : String → T S String → Mapping → T S String
  on_mapping version rest mapped = pure (done version)
  on_mapping version rest no_match = rest
  on_mapping version rest (Mapping.failed e) =
      pure (failed (api_error ("find DeviceTaintRule.resource.k8s.io in " ⧺ version ⧺ ": ") e))

  -- the loop of `kind`
  unfoldable pub find_version : List String → T S String
  find_version [] = pure (
      failed (
        rejection reason_device_taint_rule_unavailable (
          "the cluster serves DeviceTaintRule.resource.k8s.io in none of the versions "
          ⧺ join rule_versions ", "
          ⧺ "; Kubernetes 1.36 needs the DRADeviceTaintRules feature gate and the resource.k8s.io/v1beta2 API enabled")))
  find_version (version ∷ versions) =
      let rest = find_version versions in
      read (apis.map_rule version) >>= λ m. on_mapping version rest m

  -- `kind`: the version to use
  unfoldable pub kind : T S String
  kind = find_version rule_versions

  -- what a read of rules returned is recorded
  unfoldable pub note_seen : List Rule → M S (Unit {0})
  note_seen [] = pure tt
  note_seen (rule ∷ rules) = write (seen rule) (λ s. (tt, s)) >> note_seen rules

  -- the rest of `check`, on the result of the read
  unfoldable pub checked : Device → Result Rule → T S (Unit {0})
  checked d (err not_found) = pure (failed (api_error "" not_found))
  checked d (err e) = pure (
      failed (
        api_error
          ("get DeviceTaintRule " ⧺ rule_name tools.sha256 d ⧺ " for " ⧺ device_text d ⧺ ": ") e))
  checked d (ok rule) =
      note_seen (rule ∷ [])
      >> (if not (blocks rule d)
          then pure (
              failed (
                rejection reason_device_taint_rule_conflict (
                  "DeviceTaintRule "
                  ⧺ rule_name tools.sha256 d
                  ⧺ " exists but does not taint "
                  ⧺ device_text d
                  ⧺ " with one of "
                  ⧺ join blocking_effects ", ")))
          else pure (done tt))

  unfoldable pub check : String → Device → T S (Unit {0})
  check version d = do r ← read (apis.get_rule version (rule_name tools.sha256 d)); checked d r

  unfoldable pub was_there : Unit {0} → T S Bool
  was_there u = pure (done false)

  -- the rest of `Ensure`, on the result of the creation
  unfoldable pub ensured : String → Device → Result (Unit {0}) → T S Bool
  ensured version d (ok _) = pure (done true)
  ensured version d (err already_exists) = do r ← check version d; and_then was_there r
  ensured version d (err e) = pure (
      failed (
        api_error
          ("create DeviceTaintRule " ⧺ rule_name tools.sha256 d ⧺ " for " ⧺ device_text d ⧺ ": ")
          e))

  unfoldable pub ensure_in : Device → Owner → String → T S Bool
  ensure_in d owner version = do
    now ← read client.clock
    let rule = rule_for tools lib version d owner now
    r ← write (created rule) (apis.create_rule rule)
    ensured version d r

  unfoldable pub ensure : Device → Owner → T S Bool
  ensure d owner = do version ← kind; and_then (ensure_in d owner) version

  -- the rest of `Of`, on the result of the list call
  unfoldable pub listed : Owner → Result (List Rule) → T S (List Device)
  listed owner (err e) =
      pure (failed (api_error ("list the DeviceTaintRules of " ⧺ owner_text owner ⧺ ": ") e))
  listed owner (ok rules) = do note_seen rules; pure (done (made_for tools owner rules))

  unfoldable pub of_in : Owner → String → T S (List Device)
  of_in owner version = do
    r ← read (apis.list_rules version (owner_labels tools owner))
    listed owner r

  -- `Of`
  unfoldable pub of : Owner → T S (List Device)
  of owner = do version ← kind; and_then (of_in owner) version

  unfoldable pub exists_checked : Try (Unit {0}) → T S Bool
  exists_checked (done u) = pure (done true)
  exists_checked (failed e) = if is_api_not_found e then pure (done false) else pure (failed e)

  unfoldable pub exists_version : Device → String → T S Bool
  exists_version d version = do r ← check version d; exists_checked r

  -- `Exists`
  unfoldable pub exists_rule : Device → T S Bool
  exists_rule d = do version ← kind; and_then (exists_version d) version
