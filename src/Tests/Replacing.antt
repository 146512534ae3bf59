-- ===== src/Tests/Replacing.antt =====
-- The theorems on replace requests, at concrete inputs.
use nvsentinel_capi_remediat.Common.{
  ℕ, String, ◌≡◌, ◌≤◌, ◌<◌, ◌⊎◌, ◌↔◌, ◌||◌, ◌&&◌, ◌⧺◌, refl, true, false, [], ◌∷◌, ◌++◌, All,
  if◌then◌else◌, ◌==◌, insert, length, lookup, keep, List, insert_by, sort_by, join, some, is_empty,
  exists_in, split, trim, trim_left, trim_right, is_space, cut_prefix, str_lt, get_or, has,
}
use nvsentinel_capi_remediat.Capi.Note.{utf8, take}
use nvsentinel_capi_remediat.Quarantine.Device.{device_lt, same_device}
use nvsentinel_capi_remediat.Quarantine.Try.{rejection}
use nvsentinel_capi_remediat.Quarantine.Request.{
  select, select_only, select_named, select_match, candidates_of, gather, add_device, add_name,
  held_note, name_devices, status_quarantining, status_replacing, parse_request, parse_names,
  rejected_status,
}
use nvsentinel_capi_remediat.Quarantine.Request.Selection.{
  holds, lists, holds-select, covers-select,
}
use nvsentinel_capi_remediat.Quarantine.Request.Refusal.{IsRejection, IsRefusal, select-Refusal}
use nvsentinel_capi_remediat.Quarantine.Request.Parsing.{is_trimmed, parse_request-lists}
use nvsentinel_capi_remediat.Quarantine.Naming.{label_value, digest}
use nvsentinel_capi_remediat.Quarantine.Naming.Bounds.{label_value_fits}
use nvsentinel_capi_remediat.Quarantine.Rules.{
  is_made_for, selected_device, is_blocking, rule_for, blocks, made_for, covers, of, cluster_label,
}
use nvsentinel_capi_remediat.Quarantine.Rules.Listed.{carries, of-rule_for}
use nvsentinel_capi_remediat.Objects.{Rule, Machine}
use nvsentinel_capi_remediat.Quarantine.Client.{Apis}
use nvsentinel_capi_remediat.Quarantine.Device.{Device}
use nvsentinel_capi_remediat.Controller.Steps.{ended, next}
use nvsentinel_capi_remediat.Controller.Replace.{guard_replace, replace, with_status}
use nvsentinel_capi_remediat.Controller.Replace.Warrant.{IsDue}
use nvsentinel_capi_remediat.Controller.Replace.Order.{replace-IsDue}
use nvsentinel_capi_remediat.Controller.Replace.Outcomes.{replace-rejected}
use nvsentinel_capi_remediat.Controller.Watches.{
  updated, request_became_pending, replace_request_changed,
}
use nvsentinel_capi_remediat.Controller.Watches.Woken.{
  replace_request_changed-same, request_became_pending-with_given,
}
use nvsentinel_capi_remediat.Extrr.Answering.{with_given}
use nvsentinel_capi_remediat.Manager.{parse_drivers, parse_fields}
use nvsentinel_capi_remediat.Manager.Start.{IsValid, is_field, parse_drivers-lists}
use nvsentinel_capi_remediat.Quarantine.Request.Sorted.{IsSorted, select-IsSorted}
use nvsentinel_capi_remediat.Quarantine.Naming.Apart.{device_key-Injective}
use nvsentinel_capi_remediat.Controller.Replace.Resumed.{EndsInDeletion, replace-EndsInDeletion}
use nvsentinel_capi_remediat.Controller.Replace.Started.{IsReplacement, replace-IsReplacement}
use nvsentinel_capi_remediat.World
use nvsentinel_capi_remediat.World.{World, read, pure, ok, err, conflict, Client}
use nvsentinel_capi_remediat.Quarantine.Try.{done, and_then}
use nvsentinel_capi_remediat.Quarantine.Steps
use nvsentinel_capi_remediat.Quarantine.Steps.{give, reading}
use nvsentinel_capi_remediat.Quarantine.Locator.{
  devices, get, get_mapped, found, external_infra, has_secret_ref, machine_devices, reject_external,
  vm_namespace, running_devices, claims_of, pod_claims, is_active_pod, add_claim, add_claims,
  devices_of, claim_devices, add_allocated,
}
use nvsentinel_capi_remediat.Tests.Samples
use nvsentinel_capi_remediat.Tests.Depot.{
  library, tools, machine, quarantiner, client, apis, depot, device, other_device, owner, no_names,
  Depot, obliging_apis, held, device_rule, rules, settled_apis, replacing_machine, request_text,
  names, drivers_text, drivers, no_problems,
}

replace-IsDue_example :
    IsDue library tools quarantiner machine
      (replace library tools quarantiner client apis machine
        (record { server = depot; effects = [] })).1.effects
replace-IsDue_example = replace-IsDue library tools quarantiner client apis machine depot

replace-rejected_example :
    replace library tools quarantiner client apis
      (with_status machine (rejected_status "NoDevices"))
      (record { server = depot; effects = [] })
    ≡ (ended, record { server = depot; effects = [] })
unfolding lookup
replace-rejected_example =
    replace-rejected library tools quarantiner client apis machine "quarantine" "NoDevices"
      (record { server = depot; effects = [] }) refl

holds-select_example : holds (device ∷ []) other_device ≡ (
    lists ("gpu.nvidia.com" ∷ []) "net.example.com"
    && (is_empty no_names || lists no_names "nic-0")
    && holds (device ∷ other_device ∷ []) other_device)
unfolding select select_only candidates_of gather add_device same_device insert_by sort_by device_lt
    str_lt
holds-select_example =
    holds-select library.quote tools.decimal ("gpu.nvidia.com" ∷ []) (device ∷ other_device ∷ []) []
      (device ∷ []) refl other_device

covers-select_example : covers (device ∷ []) ("gpu-0" ∷ []) ≡ true
unfolding select select_named select_match candidates_of gather add_device same_device insert_by
    sort_by device_lt str_lt
covers-select_example =
    covers-select library.quote tools.decimal ("gpu.nvidia.com" ∷ []) (device ∷ other_device ∷ [])
      ("gpu-0" ∷ []) (device ∷ []) refl

select-Refusal_example :
    IsRejection (IsRefusal (candidates_of ("gpu.nvidia.com" ∷ []) (other_device ∷ [])) []) (
      rejection "NoDevices"
        "the Machine holds no device of gpu.nvidia.com; it holds net.example.com/host/nic-0")
unfolding select select_only candidates_of gather add_device same_device insert_by sort_by device_lt
    str_lt join held_note name_devices
select-Refusal_example =
    select-Refusal library.quote tools.decimal ("gpu.nvidia.com" ∷ []) (other_device ∷ []) []
      (rejection "NoDevices"
        "the Machine holds no device of gpu.nvidia.com; it holds net.example.com/host/nic-0")
      refl

parse_request-lists_example :
    ((request_text ≡ "quarantine") × (names ≡ []))
    ⊎ ((list : String) × (cut_prefix ("quarantine" ⧺ ":") request_text ≡ some list)
        × (exists_in (is_trimmed "") (split b',' list) ≡ false)
        × (lists names "gpu-1" ≡ exists_in (is_trimmed "gpu-1") (split b',' list)))
unfolding parse_request parse_names add_name trim trim_left trim_right is_space cut_prefix split
parse_request-lists_example =
    parse_request-lists library.quote tools.decimal request_text names "gpu-1" refl

abbrev made_rule : Rule
made_rule = rule_for tools library "v1" device owner 5

-- a server that has the rule beside another, and lists by labels
abbrev listing_apis : Apis Depot
listing_apis = record apis {
  list_rules = λ version labels s. (ok (keep (carries labels) (device_rule ∷ made_rule ∷ [])), s);
}

of-rule_for_example :
    (blocks made_rule device ≡ true)
    × (lookup cluster_label made_rule.labels ≡ some (label_value tools.sha256 "gpu"))
    × (ds : List Device) × ((of library tools client listing_apis owner
          (record { server = depot; effects = [] })).0
        ≡ done ds)
    × (exists_in (same_device device) ds ≡ true)
of-rule_for_example =
    of-rule_for library tools client listing_apis device owner "v1" 5 (device_rule ∷ []) []
      (λ version s. refl) (λ labels s. refl) refl (record { server = depot; effects = [] })

label_value_fits_example :
    (length (label_value tools.sha256 "worker-1") ≤ 63)
    × (((length (utf8 "worker-1") ≤ 63) × (label_value tools.sha256 "worker-1" ≡ utf8 "worker-1"))
        ⊎ ((63 < length (utf8 "worker-1"))
            × ((n : ℕ) × (label_value tools.sha256 "worker-1"
                  ≡ take n (utf8 "worker-1")
                    ++ utf8 "-"
                    ++ utf8 (digest tools.sha256 "worker-1")))))
label_value_fits_example = label_value_fits tools.sha256 "worker-1"

replace_request_changed-same_example :
    (replace_request_changed (updated machine.annotations []) ≡ false) ↔ (
      (lookup "nvsentinel.petasus.io/replace" machine.annotations
        ≡ lookup "nvsentinel.petasus.io/replace" [])
      × (lookup "nvsentinel.petasus.io/replace-status" machine.annotations
          ≡ lookup "nvsentinel.petasus.io/replace-status" []))
replace_request_changed-same_example = replace_request_changed-same machine.annotations []

request_became_pending-with_given_example :
    request_became_pending (
      updated
        (some Samples.request)
        (some (with_given library Samples.request true "Restarted" "done" 7)))
    ≡ false
request_became_pending-with_given_example =
    request_became_pending-with_given library Samples.request Samples.request true "Restarted"
      "done" 7

parse_drivers-lists_example :
    (is_empty drivers ≡ false)
    × All (IsValid no_problems) drivers
    × (lists drivers "b.com" ≡ exists_in (is_field "b.com") (split b',' drivers_text))
unfolding parse_drivers parse_fields add_name trim trim_left trim_right is_space split
parse_drivers-lists_example = parse_drivers-lists no_problems drivers_text drivers "b.com" refl

select-IsSorted_example : IsSorted (device ∷ [])
unfolding select select_only candidates_of gather add_device same_device insert_by sort_by device_lt
    str_lt
select-IsSorted_example =
    select-IsSorted library.quote tools.decimal ("gpu.nvidia.com" ∷ []) (device ∷ other_device ∷ [])
      no_names (device ∷ []) refl

device_key-Injective_example : device ≡ device
device_key-Injective_example = device_key-Injective device device refl refl refl

replace-EndsInDeletion_example :
    EndsInDeletion replacing_machine
      (replace library tools quarantiner client settled_apis replacing_machine
        (record { server = depot; effects = [] })).1.effects
unfolding lookup parse_request guard_replace covers made_for is_made_for selected_device is_blocking
    sort_by insert_by get_or has
replace-EndsInDeletion_example =
    replace-EndsInDeletion library tools quarantiner client settled_apis replacing_machine
      Samples.cluster rules "quarantine" no_names (λ s. refl) (λ version s. refl)
      (λ version labels s. refl) (λ s. refl) depot refl refl refl refl refl refl refl refl

-- a server that returns a new resource version with every patch, and deletes only the last one
abbrev versioned_client : Client Depot
versioned_client = record client {
  patch_machine = λ lock base updated s. (
    ok (record updated { resource_version = if base.resource_version == "2" then "3" else "2" }),
    s,
  );
}

abbrev versioned_apis : Apis Depot
versioned_apis = record obliging_apis {
  delete_machine = λ uid version m s. (if version == "3" then (ok tt, s) else (err conflict, s));
}

located_here :
    (w : World Depot)
    → (devices library tools versioned_apis Samples.cluster machine w).0 ≡ done held
unfolding devices get get_mapped found external_infra has_secret_ref machine_devices reject_external
    vm_namespace running_devices claims_of pod_claims is_active_pod has lookup add_claim add_claims
    add_name devices_of claim_devices add_allocated add_device same_device sort_by insert_by
    device_lt str_lt World.◌>>=◌ read pure Steps.◌>>=◌ give reading and_then
located_here w = refl

abbrev quarantining_machine : Machine
quarantining_machine = record (with_status machine status_quarantining) { resource_version = "2" }

abbrev turned_machine : Machine
turned_machine = record (with_status quarantining_machine status_replacing) {
  resource_version = "3";
}

replace-IsReplacement_example :
    let run =
      replace library tools quarantiner versioned_client versioned_apis machine
        (record { server = depot; effects = [] }) in
    (run.0 ≡ next tt)
    × IsReplacement library tools Samples.cluster machine quarantining_machine turned_machine
        (device ∷ [])
        (λ name. device_rule)
        run.1.effects
unfolding lookup parse_request guard_replace has get_or select select_only candidates_of gather
    add_device same_device insert_by sort_by device_lt str_lt blocks is_blocking with_status insert
replace-IsReplacement_example =
    replace-IsReplacement library tools quarantiner versioned_client versioned_apis machine
      quarantining_machine turned_machine Samples.cluster "quarantine" no_names held (device ∷ [])
      (λ name. device_rule) (λ s. refl) (λ s. refl) refl (λ s. refl) (λ version s. refl)
      (λ rule s. refl) (λ version name s. refl) (λ s. refl) located_here refl refl (refl, tt) refl
      depot refl refl refl refl refl
