-- ===== src/Objects.antt =====
-- The parts of the Kubernetes and Cluster API objects that the program reads and writes, and what
-- it takes from the libraries that define them. These types and functions are not in the
-- repository: the types list the fields used, and `Library` has the functions as parameters.
use nvsentinel_capi_remediat.Common.{ℕ, ℤ, String, Bool, List, Option, Dict}

-- annotations and labels, as docs/operations.md and the comments name them
abbrev pub remediate_machine_annotation : String
remediate_machine_annotation = "cluster.x-k8s.io/remediate-machine"

abbrev pub paused_annotation : String
paused_annotation = "cluster.x-k8s.io/paused"

abbrev pub skip_remediation_annotation : String
skip_remediation_annotation = "cluster.x-k8s.io/skip-remediation"

abbrev pub control_plane_label : String
control_plane_label = "cluster.x-k8s.io/control-plane"

abbrev pub health_check_succeeded_condition : String
health_check_succeeded_condition = "HealthCheckSucceeded"

-- a metav1.Condition, and a node's condition
pub record Condition : Type 0 where
  pub type : String
  pub status : String
  pub reason : String
  pub message : String

pub record OwnerReference : Type 0 where
  pub api_version : String
  pub kind : String
  pub name : String
  pub is_controller : Bool

pub record InfrastructureRef : Type 0 where
  pub api_group : String
  pub kind : String
  pub name : String

-- `deleting` is `!DeletionTimestamp.IsZero()`; `node_ref` is `Status.NodeRef.Name`
pub record Machine : Type 0 where
  pub namespace : String
  pub name : String
  pub uid : String
  pub resource_version : String
  pub labels : Dict String
  pub annotations : Dict String
  pub deleting : Bool
  pub cluster_name : String
  pub infrastructure : InfrastructureRef
  pub owners : List OwnerReference
  pub conditions : List Condition
  pub node_ref : String

pub record Cluster : Type 0 where
  pub namespace : String
  pub name : String
  pub labels : Dict String
  pub annotations : Dict String
  pub deleting : Bool
  pub spec_paused : Bool
  pub infrastructure : InfrastructureRef

pub record Node : Type 0 where
  pub name : String
  pub boot_id : String
  pub conditions : List Condition

pub record Requirement : Type 0 where
  pub key : String
  pub operator : String
  pub values : List String

pub record LabelSelector : Type 0 where
  pub match_labels : Dict String
  pub match_expressions : List Requirement

pub record TemplateRef : Type 0 where
  pub api_version : String
  pub kind : String
  pub name : String

pub record HealthCheck : Type 0 where
  pub namespace : String
  pub name : String
  pub cluster_name : String
  pub annotations : Dict String
  pub selector : LabelSelector
  pub template_ref : TemplateRef

-- what the program calls in the libraries, and one constant of theirs
pub record Library : Type 0 where
  -- `metav1.CloneSelectorAndAddLabel`
  pub add_label : LabelSelector → String → String → LabelSelector
  -- `metav1.LabelSelectorAsSelector`, with `Matches`; `none` when the selector does not parse
  pub as_selector : LabelSelector → Option (Dict String → Bool)
  -- `clusterv1.ClusterNameLabel`
  pub cluster_name_label : String
  -- `annotations.HasPaused`, on the annotations
  pub has_paused : Dict String → Bool
  -- `annotations.IsPaused(cluster, cluster)`
  pub is_paused : Cluster → Bool
  -- `TemplateRef.IsDefined`
  pub is_defined : TemplateRef → Bool
  -- `clusterv1.MachineHealthCheckHasRemediateAnnotationReason`
  pub has_remediate_annotation_reason : String
  -- `%q` of `fmt`
  pub quote : String → String
  -- a time in RFC 3339 form
  pub format_time : ℕ → String

-- what the reads of `unstructured` find where a request's recommended action stands; a float is
-- told by its integral value, if it has one
pub data ActionValue : Type 0 where
  text : String → ActionValue
  number : ℤ → ActionValue
  whole_float : ℤ → ActionValue
  fractional_float : ActionValue
  no_action : ActionValue

-- one of the entities that a health event names; fields that are no strings read as ""
pub record Entity : Type 0 where
  pub type : String
  pub value : String

-- the health event of a request, as the reads find it: a missing field is empty
pub record HealthEvent : Type 0 where
  pub node_name : String
  pub check_name : String
  pub id : String
  pub error_code : List String
  pub recommended_action : ActionValue
  pub custom_recommended_action : String
  pub entities_impacted : List Entity

-- a condition of a request
pub record Answered : Type 0 where
  pub type : String
  pub status : String
  pub reason : String
  pub message : String
  pub last_transition_time : String
  pub observed_generation : ℕ

-- an element of the request's list of conditions: a condition, or something else
pub data Item : Type 0 where
  item : Answered → Item
  no_condition : Item

-- an ExternalRemediationRequest
pub record Request : Type 0 where
  pub name : String
  pub generation : ℕ
  pub deleting : Bool
  pub health_event : HealthEvent
  pub conditions : List Item

-- A DeviceTaintRule, as the reads of `unstructured` find it. Label values are bytes, since the
-- program cuts them by bytes.
pub record Rule : Type 0 where
  pub version : String
  pub name : String
  pub labels : Dict (List ℕ)
  pub annotations : Dict String
  pub selector : Dict String
  pub taint_key : String
  pub taint_value : String
  pub effect : String

-- a KubevirtMachine or a KubevirtCluster; `template_namespace` is `none` when the field is no string
pub record Kubevirt : Type 0 where
  pub namespace : String
  pub name : String
  pub secret_ref : Dict String
  pub template_namespace : Option String

-- a VirtualMachineInstance; missing fields are empty
pub record VirtualMachine : Type 0 where
  pub namespace : String
  pub name : String
  pub uid : String
  pub deleting : Bool
  pub phase : String
  pub active_pods : Dict String

pub record Pod : Type 0 where
  pub uid : String
  pub phase : String
  pub claim_names : List (Option String)
  pub claim_status_names : List (Option String)

-- a device in the allocation of a ResourceClaim
pub record Allocated : Type 0 where
  pub driver : String
  pub pool : String
  pub device : String
  pub admin_access : Option Bool

pub record Claim : Type 0 where
  pub allocation : Option (List Allocated)
