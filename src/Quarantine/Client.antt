-- ===== src/Quarantine/Client.antt =====
-- What internal/quarantine and its controller ask of the management cluster and of the libraries,
-- beside what `World.Client` and `Objects.Library` have. Every call may change the server's state in
-- any way.
use nvsentinel_capi_remediat.Common.{ℕ, String, List, Option, Dict}
use nvsentinel_capi_remediat.Objects.{
  Machine, OwnerReference, Rule, Kubevirt, VirtualMachine, Pod, Claim,
}
use nvsentinel_capi_remediat.World.{Result, ApiError, Mapping}

pub record Apis (S : Type 0) : Type 0 where
  -- the mapping of DeviceTaintRule in a version, and of a kind of a group in the preferred version
  pub map_rule : String → S → Mapping × S
  pub map_kind : String → String → S → Mapping × S
  pub create_rule : Rule → S → Result (Unit {0}) × S
  -- by version and name, and by version and labels
  pub get_rule : String → String → S → Result Rule × S
  pub list_rules : String → Dict (List ℕ) → S → Result (List Rule) × S
  -- on the conditions that the UID and the resource version of the Machine are these
  pub delete_machine : String → String → Machine → S → Result (Unit {0}) × S
  -- by kind, namespace and name
  pub get_kubevirt : String → String → String → S → Result Kubevirt × S
  pub get_virtual_machine : String → String → S → Result VirtualMachine × S
  -- by namespace and the value of the `kubevirt.io/created-by` label
  pub list_pods : String → String → S → Result (List Pod) × S
  pub get_claim : String → String → S → Result Claim × S

pub record Toolkit : Type 0 where
  pub sha256 : List ℕ → List ℕ
  -- `%d` of `fmt`
  pub decimal : ℕ → String
  -- `Error` of an error of the API
  pub error_text : ApiError → String
  -- `metav1.GetControllerOf`
  pub controller_of : List OwnerReference → Option OwnerReference
  -- `schema.ParseGroupVersion`: the group, or `none` for an error
  pub parse_group : String → Option String
  -- `clusterv1.GroupVersion.Group` and `clusterv1.GroupVersionInfrastructure.Group`
  pub cluster_group : String
  pub infrastructure_group : String
