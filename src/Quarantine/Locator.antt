-- ===== src/Quarantine/Locator.antt =====
-- internal/quarantine/locator.go: the devices that the workload of a Machine holds.
use nvsentinel_capi_remediat.Common.{
  String, ◌⧺◌, ◌==◌, Bool, false, not, ◌&&◌, ◌||◌, List, [], ◌∷◌, is_empty, Option, none, some,
  Dict, has, sort_by, is_blank, if◌then◌else◌,
}
use nvsentinel_capi_remediat.Objects.{
  Machine, Cluster, Library, Kubevirt, VirtualMachine, Pod, Claim, Allocated,
}
use nvsentinel_capi_remediat.World.{
  M, pure, read, Result, ok, err, ApiError, not_found, Mapping, mapped, no_match,
}
use nvsentinel_capi_remediat.World
use nvsentinel_capi_remediat.Quarantine.Device.{Device, device_lt}
use nvsentinel_capi_remediat.Quarantine.Request.{
  reason_not_kubevirt, reason_external_infra_cluster, reason_no_devices, add_name, add_device,
}
use nvsentinel_capi_remediat.Quarantine.Client.{Apis, Toolkit}
use nvsentinel_capi_remediat.Quarantine.Try.{failed, api_error, plain_error, T}
use nvsentinel_capi_remediat.Quarantine.Steps.{◌>>=◌, give, reject, reading}

abbrev pub kubevirt_machine_kind : String
kubevirt_machine_kind = "KubevirtMachine"

abbrev pub kubevirt_cluster_kind : String
kubevirt_cluster_kind = "KubevirtCluster"

-- group and kind of a VirtualMachineInstance
abbrev pub vmi_kind : String × String
vmi_kind = ("kubevirt.io", "VirtualMachineInstance")

abbrev pub vmi_running : String
vmi_running = "Running"

abbrev path : String → String → String
path namespace name = namespace ⧺ "/" ⧺ name

-- `hasSecretRef`
unfoldable pub has_secret_ref : Kubevirt → Bool
has_secret_ref o = not (is_empty o.secret_ref)

-- `add` of `claimsOf`
unfoldable pub add_claim : List String → Option String → List String
unfolding add_name
add_claim claims none = claims
add_claim claims (some name) = if is_blank name then claims else add_name claims name

unfoldable pub add_claims : List String → List (Option String) → List String
unfolding add_claim
add_claims claims [] = claims
add_claims claims (name ∷ names) = add_claims (add_claim claims name) names

-- the tests of the loop of `claimsOf`
unfoldable pub is_active_pod : Dict String → Pod → Bool
unfolding has
is_active_pod active p =
    not (p.phase == "Succeeded" || p.phase == "Failed")
    && not (not (is_empty active) && not (has p.uid active))

-- the loop of `claimsOf`
unfoldable pub pod_claims : Dict String → List String → List Pod → List String
unfolding is_active_pod add_claims
pod_claims active claims [] = claims
pod_claims active claims (p ∷ pods) =
    pod_claims active
      (if is_active_pod active p
        then add_claims (add_claims claims p.claim_names) p.claim_status_names
        else claims)
      pods

-- `res.AdminAccess != nil && *res.AdminAccess`
abbrev pub is_admin : Option Bool → Bool
is_admin none = false
is_admin (some b) = b

-- the loop over the allocated devices of a claim
unfoldable pub add_allocated : List Device → List Allocated → List Device
unfolding add_device
add_allocated devices [] = devices
add_allocated devices (res ∷ results) =
    add_allocated
      (if is_admin res.admin_access
        then devices
        else add_device devices
            (record { driver = res.driver; pool = res.pool; name = res.device }))
      results

abbrev pub add_allocation : List Device → Option (List Allocated) → List Device
add_allocation devices none = devices
add_allocation devices (some results) = add_allocated devices results

module _ {S : Type 0} (lib : Library) (tools : Toolkit) (apis : Apis S) where
  -- `get`, on the result of the read
  unfoldable pub found : {A : Type 0} → String → Result A → T S (Option A)
  found context (ok o) = give (some o)
  found context (err not_found) = give none
  found context (err e) = pure (failed (api_error context e))

  -- `get`, on the mapping
  unfoldable pub get_mapped :
      {A : Type 0} → String → String → String → (S → Result A × S) → Mapping → T S (Option A)
  get_mapped group kind key call mapped =
      World.◌>>=◌ (read call) (λ r. found ("get " ⧺ kind ⧺ " " ⧺ key ⧺ ": ") r)
  get_mapped group kind key call no_match =
      reject reason_not_kubevirt ("the cluster does not serve " ⧺ kind ⧺ "." ⧺ group)
  get_mapped group kind key call (Mapping.failed e) =
      pure (failed (api_error ("find the version of " ⧺ kind ⧺ "." ⧺ group ⧺ ": ") e))

  -- `get`
  unfoldable pub get : {A : Type 0} → String → String → String → (S → Result A × S) → T S (Option A)
  get group kind key call =
      World.◌>>=◌ (read (apis.map_kind group kind)) (λ m. get_mapped group kind key call m)

  -- `claimsOf`
  unfoldable pub claims_of : VirtualMachine → T S (List String)
  unfolding pod_claims
  claims_of vmi = do
    pods ←
        reading ("list the virt-launcher pods of " ⧺ path vmi.namespace vmi.name ⧺ ": ")
          (apis.list_pods vmi.namespace vmi.uid)
    give (pod_claims vmi.active_pods [] pods)

  abbrev pub cluster_secret : Option Kubevirt → String
  cluster_secret none = ""
  cluster_secret (some o) = if has_secret_ref o then kubevirt_cluster_kind else ""

  -- `externalInfra`
  unfoldable pub external_infra : Cluster → Kubevirt → T S String
  unfolding has_secret_ref
  external_infra cluster kvm =
      if has_secret_ref kvm
      then give kubevirt_machine_kind
      else if not (
          cluster.infrastructure.api_group == tools.infrastructure_group
          && cluster.infrastructure.kind == kubevirt_cluster_kind)
      then give ""
      else do
        kvc ←
            get tools.infrastructure_group kubevirt_cluster_kind
              (path cluster.namespace cluster.infrastructure.name)
              (apis.get_kubevirt kubevirt_cluster_kind cluster.namespace
                cluster.infrastructure.name)
        give (cluster_secret kvc)

  -- the devices after a claim was read
  unfoldable pub claim_devices : String → List Device → Result Claim → T S (List Device)
  unfolding add_allocated
  claim_devices key devices (ok claim) = give (add_allocation devices claim.allocation)
  claim_devices key devices (err not_found) = give devices
  claim_devices key devices (err e) =
      pure (failed (api_error ("get ResourceClaim " ⧺ key ⧺ ": ") e))

  -- the loop over the claims
  unfoldable pub devices_of : String → List Device → List String → T S (List Device)
  devices_of namespace devices [] = give devices
  devices_of namespace devices (name ∷ names) = do
    more ←
        World.◌>>=◌ (read (apis.get_claim namespace name))
          (λ r. claim_devices (path namespace name) devices r)
    devices_of namespace more names

  -- the rest of `Devices`, on the VirtualMachineInstance
  unfoldable pub running_devices : String → String → Option VirtualMachine → T S (List Device)
  unfolding sort_by device_lt
  running_devices namespace name none =
      reject reason_no_devices ("the Machine's VM " ⧺ path namespace name ⧺ " is not running")
  running_devices namespace name (some vmi) =
      if vmi.deleting
      then reject reason_no_devices
          ("the Machine's VM " ⧺ path namespace name ⧺ " is being deleted")
      else if not (vmi.phase == vmi_running)
      then reject reason_no_devices (
          "the Machine's VM "
          ⧺ path namespace name
          ⧺ " is not running (phase "
          ⧺ lib.quote vmi.phase
          ⧺ ")")
      else do
        claims ← claims_of vmi
        devices ← devices_of namespace [] claims
        give (sort_by device_lt devices)

  -- the namespace of the VM
  unfoldable pub vm_namespace : Kubevirt → Option String → T S String
  vm_namespace kvm none = pure (
      failed (
        plain_error (
          "read the VM namespace of " ⧺ kubevirt_machine_kind ⧺ " " ⧺ path kvm.namespace kvm.name)))
  vm_namespace kvm (some namespace) = give (if is_blank namespace then kvm.namespace else namespace)

  -- the rest of `Devices`, on what `externalInfra` returned
  unfoldable pub reject_external : String → Kubevirt → T S (List Device)
  reject_external external kvm =
      if not (is_blank external)
      then reject reason_external_infra_cluster
          ("the Machine's VM runs in the cluster of the " ⧺ external ⧺ "'s infraClusterSecretRef")
      else do
        namespace ← vm_namespace kvm kvm.template_namespace
        vmi ←
            get vmi_kind.0 vmi_kind.1 (path namespace kvm.name)
              (apis.get_virtual_machine namespace kvm.name)
        running_devices namespace kvm.name vmi

  -- the rest of `Devices`, on the KubevirtMachine
  unfoldable pub machine_devices : Cluster → Machine → Option Kubevirt → T S (List Device)
  machine_devices cluster m none =
      reject reason_no_devices
        ("the Machine's " ⧺ kubevirt_machine_kind ⧺ " " ⧺ m.infrastructure.name ⧺ " does not exist")
  machine_devices cluster m (some kvm) = do
    external ← external_infra cluster kvm
    reject_external external kvm

  -- `Devices`
  unfoldable pub devices : Cluster → Machine → T S (List Device)
  devices cluster m =
      if not (
        m.infrastructure.api_group == tools.infrastructure_group
        && m.infrastructure.kind == kubevirt_machine_kind)
      then reject reason_not_kubevirt (
          "the Machine's infrastructure is a " ⧺ m.infrastructure.kind ⧺ " of "
          ⧺ m.infrastructure.api_group ⧺ ", not a " ⧺ kubevirt_machine_kind)
      else do
        kvm ←
            get tools.infrastructure_group kubevirt_machine_kind
              (path m.namespace m.infrastructure.name)
              (apis.get_kubevirt kubevirt_machine_kind m.namespace m.infrastructure.name)
        machine_devices cluster m kvm
