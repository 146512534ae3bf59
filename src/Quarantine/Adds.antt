-- ===== src/Quarantine/Adds.antt =====
-- What the calls of internal/quarantine add to the record of effects.
use nvsentinel_capi_remediat.Common.{ℕ, String, List, [], ◌∷◌, Option, none, some}
use nvsentinel_capi_remediat.Objects.{
  Machine, Cluster, Library, Rule, Kubevirt, VirtualMachine, Claim,
}
use nvsentinel_capi_remediat.World.{
  Result, ok, err, not_found, already_exists, Client, Mapping, mapped, no_match, Effect, created,
  seen,
}
use nvsentinel_capi_remediat.World.Adds.{
  Adds, adds_rules, Adds-pure, Adds-bind, Adds-then, Adds-write, Adds-read,
}
use nvsentinel_capi_remediat.Quarantine.Device.{Device}
use nvsentinel_capi_remediat.Quarantine.Client.{Apis, Toolkit}
use nvsentinel_capi_remediat.Quarantine.Try.{Try, done, failed, T, and_then}
use nvsentinel_capi_remediat.Quarantine.Steps.{◌>>=◌, give, reject, reading}
use nvsentinel_capi_remediat.Quarantine.Rules.{
  Owner, rule_for, on_mapping, find_version, kind, note_seen, checked, check, was_there, ensured,
  ensure_in, ensure, listed, of_in, of, exists_checked, exists_version, exists_rule, rule_versions,
}
use nvsentinel_capi_remediat.Quarantine.Locator.{
  found, get_mapped, get, claims_of, external_infra, claim_devices, devices_of, running_devices,
  vm_namespace, reject_external, machine_devices, devices,
}

module _ {S : Type 0} {P : Effect → Type 0} where
  pub Adds-and_then :
      {A B : Type 0} (f : A → T S B) (t : Try A) → ((a : A) → Adds P (f a)) → Adds P (and_then f t)
  unfolding and_then
  Adds-and_then f (done a) h = h a
  Adds-and_then f (failed e) h = Adds-pure _

  pub Adds-steps :
      {A B : Type 0} (m : T S A) (f : A → T S B)
      → Adds P m
      → ((a : A) → Adds P (f a))
      → Adds P (m >>= f)
  unfolding ◌>>=◌
  Adds-steps m f am af = Adds-bind m _ am (λ r. Adds-and_then f r af)

  pub Adds-give : {A : Type 0} (a : A) → Adds P (give {S = S} a)
  unfolding give
  Adds-give a = Adds-pure _

  pub Adds-reject :
      {A : Type 0} (reason text : String) → Adds P (reject {S = S} {A = A} reason text)
  unfolding reject
  Adds-reject reason text = Adds-pure _

  pub Adds-reading :
      {A : Type 0} (context : String) (call : S → Result A × S) → Adds P (reading context call)
  unfolding reading
  Adds-reading context call = search adds_rules

pub ruleset steps_rules =
    (adds_rules, Adds-and_then, Adds-steps, Adds-give, Adds-reject, Adds-reading)

module _ {S : Type 0} {P : Effect → Type 0} (lib : Library) (tools : Toolkit) (apis : Apis S) where
  found-Adds :
      {A : Type 0} (context : String) (r : Result A) → Adds P (found lib tools apis context r)
  unfolding found
  found-Adds context (ok o) = Adds-give _
  found-Adds context (err not_found) = Adds-give _
  found-Adds context (err e) = Adds-pure _

  get_mapped-Adds :
      {A : Type 0} (group k key : String) (call : S → Result A × S) (m : Mapping)
      → Adds P (get_mapped lib tools apis group k key call m)
  unfolding get_mapped
  get_mapped-Adds group k key call mapped = search (steps_rules, found-Adds)
  get_mapped-Adds group k key call no_match = search steps_rules
  get_mapped-Adds group k key call (Mapping.failed e) = search steps_rules

  get-Adds :
      {A : Type 0} (group k key : String) (call : S → Result A × S)
      → Adds P (get lib tools apis group k key call)
  unfolding get
  get-Adds group k key call = search (steps_rules, get_mapped-Adds)

  claims_of-Adds : (vmi : VirtualMachine) → Adds P (claims_of lib tools apis vmi)
  unfolding claims_of
  claims_of-Adds vmi = search steps_rules

  external_infra-Adds :
      (cluster : Cluster) (kvm : Kubevirt) → Adds P (external_infra lib tools apis cluster kvm)
  unfolding external_infra
  external_infra-Adds cluster kvm = search (steps_rules, get-Adds)

  claim_devices-Adds :
      (key : String) (ds : List Device) (r : Result Claim)
      → Adds P (claim_devices lib tools apis key ds r)
  unfolding claim_devices
  claim_devices-Adds key ds (ok c) = Adds-give _
  claim_devices-Adds key ds (err not_found) = Adds-give _
  claim_devices-Adds key ds (err e) = Adds-pure _

  devices_of-Adds :
      (namespace : String) (ds : List Device) (names : List String)
      → Adds P (devices_of lib tools apis namespace ds names)
  unfolding devices_of
  devices_of-Adds namespace ds [] = Adds-give _
  devices_of-Adds namespace ds (name ∷ names) =
      Adds-steps _ _ (search (steps_rules, claim_devices-Adds))
        (λ more. devices_of-Adds namespace more names)

  running_devices-Adds :
      (namespace name : String) (vmi : Option VirtualMachine)
      → Adds P (running_devices lib tools apis namespace name vmi)
  unfolding running_devices
  running_devices-Adds namespace name none = Adds-reject _ _
  running_devices-Adds namespace name (some vmi) =
      search (steps_rules, claims_of-Adds, devices_of-Adds)

  vm_namespace-Adds :
      (kvm : Kubevirt) (o : Option String) → Adds P (vm_namespace lib tools apis kvm o)
  unfolding vm_namespace
  vm_namespace-Adds kvm none = Adds-pure _
  vm_namespace-Adds kvm (some namespace) = Adds-give _

  reject_external-Adds :
      (external : String) (kvm : Kubevirt) → Adds P (reject_external lib tools apis external kvm)
  unfolding reject_external
  reject_external-Adds external kvm =
      search (steps_rules, vm_namespace-Adds, get-Adds, running_devices-Adds)

  machine_devices-Adds :
      (cluster : Cluster) (m : Machine) (kvm : Option Kubevirt)
      → Adds P (machine_devices lib tools apis cluster m kvm)
  unfolding machine_devices
  machine_devices-Adds cluster m none = Adds-reject _ _
  machine_devices-Adds cluster m (some kvm) =
      search (steps_rules, external_infra-Adds, reject_external-Adds)

  pub devices-Adds : (cluster : Cluster) (m : Machine) → Adds P (devices lib tools apis cluster m)
  unfolding devices
  devices-Adds cluster m = search (steps_rules, get-Adds, machine_devices-Adds)

-- The calls on rules, where a read of a rule has the property.
module _ {S : Type 0} {P : Effect → Type 0} (see : (rule : Rule) → P (seen rule)) (lib : Library)
    (tools : Toolkit) (client : Client S) (apis : Apis S) where
  on_mapping-Adds :
      (version : String) (rest : T S String) (m : Mapping)
      → Adds P rest
      → Adds P (on_mapping lib tools client apis version rest m)
  unfolding on_mapping
  on_mapping-Adds version rest mapped h = Adds-pure _
  on_mapping-Adds version rest no_match h = h
  on_mapping-Adds version rest (Mapping.failed e) h = Adds-pure _

  find_version-Adds :
      (versions : List String) → Adds P (find_version lib tools client apis versions)
  unfolding find_version
  find_version-Adds [] = Adds-pure _
  find_version-Adds (version ∷ versions) =
      Adds-bind _ _ (Adds-read _) (λ m. on_mapping-Adds version _ m (find_version-Adds versions))

  pub kind-Adds : Adds P (kind lib tools client apis)
  unfolding kind
  kind-Adds = find_version-Adds rule_versions

  note_seen-Adds : (rules : List Rule) → Adds P (note_seen lib tools client apis rules)
  unfolding note_seen
  note_seen-Adds [] = Adds-pure _
  note_seen-Adds (rule ∷ rules) = Adds-then _ _ (Adds-write _ _ (see rule)) (note_seen-Adds rules)

  checked-Adds : (d : Device) (r : Result Rule) → Adds P (checked lib tools client apis d r)
  unfolding checked
  checked-Adds d (ok rule) = search (steps_rules, note_seen-Adds)
  checked-Adds d (err not_found) = Adds-pure _
  checked-Adds d (err e) = Adds-pure _

  check-Adds : (version : String) (d : Device) → Adds P (check lib tools client apis version d)
  unfolding check
  check-Adds version d = search (steps_rules, checked-Adds)

  ensured-Adds :
      (version : String) (d : Device) (r : Result (Unit {0}))
      → Adds P (ensured lib tools client apis version d r)
  unfolding ensured was_there
  ensured-Adds version d (ok u) = Adds-pure _
  ensured-Adds version d (err already_exists) = search (steps_rules, check-Adds)
  ensured-Adds version d (err e) = Adds-pure _

  ensure_in-Adds :
      (d : Device) (owner : Owner) (version : String)
      → ((now : ℕ) → P (created (rule_for tools lib version d owner now)))
      → Adds P (ensure_in lib tools client apis d owner version)
  unfolding ensure_in
  ensure_in-Adds d owner version make = search (steps_rules, ensured-Adds)

  pub ensure-Adds :
      (d : Device) (owner : Owner)
      → ((version : String) (now : ℕ) → P (created (rule_for tools lib version d owner now)))
      → Adds P (ensure lib tools client apis d owner)
  unfolding ensure
  ensure-Adds d owner make = search (steps_rules, kind-Adds, ensure_in-Adds)

  listed-Adds :
      (owner : Owner) (r : Result (List Rule)) → Adds P (listed lib tools client apis owner r)
  unfolding listed
  listed-Adds owner (ok rules) = search (steps_rules, note_seen-Adds)
  listed-Adds owner (err e) = Adds-pure _

  pub of-Adds : (owner : Owner) → Adds P (of lib tools client apis owner)
  unfolding of of_in
  of-Adds owner = search (steps_rules, kind-Adds, listed-Adds)

  exists_checked-Adds : (t : Try (Unit {0})) → Adds P (exists_checked lib tools client apis t)
  unfolding exists_checked
  exists_checked-Adds (done u) = Adds-pure _
  exists_checked-Adds (failed e) = search steps_rules

  pub exists_rule-Adds : (d : Device) → Adds P (exists_rule lib tools client apis d)
  unfolding exists_rule exists_version
  exists_rule-Adds d = search (steps_rules, kind-Adds, check-Adds, exists_checked-Adds)
