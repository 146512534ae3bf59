-- ===== src/Tests/Depot.antt =====
-- A management cluster with one KubeVirt Machine that is to be replaced, the objects that lead to its
-- device, and a server that keeps the Machine and the rules as they were last written.
use nvsentinel_capi_remediat.Common.{
  String, ◌==◌, true, false, List, [], ◌∷◌, Option, none, some, exists_in, if◌then◌else◌,
}
use nvsentinel_capi_remediat.Objects.{
  Machine, InfrastructureRef, OwnerReference, Rule, Kubevirt, VirtualMachine, Pod, Claim,
}
use nvsentinel_capi_remediat.World.{
  Result, ok, err, not_found, already_exists, Client, mapped, connected,
}
use nvsentinel_capi_remediat.Quarantine.Device.{Device}
use nvsentinel_capi_remediat.Quarantine.Client.{Apis, Toolkit}
use nvsentinel_capi_remediat.Quarantine.Naming.{rule_name}
use nvsentinel_capi_remediat.Quarantine.Rules.{Owner}
use nvsentinel_capi_remediat.Controller.Replace.{Quarantiner}
use nvsentinel_capi_remediat.Tests.Samples
pub use nvsentinel_capi_remediat.Tests.Samples.{library}

abbrev pub tools : Toolkit
tools = record {
  sha256 = λ bs. bs;
  decimal = λ n. "2";
  error_text = λ e. "error";
  controller_of = λ os. first os;
  parse_group = λ s. some "cluster.x-k8s.io";
  cluster_group = "cluster.x-k8s.io";
  infrastructure_group = "infrastructure.cluster.x-k8s.io";
}
  where
    first : List OwnerReference → Option OwnerReference
    first [] = none
    first (o ∷ os) = some o

abbrev pub infrastructure : InfrastructureRef
infrastructure = record {
  api_group = "infrastructure.cluster.x-k8s.io";
  kind = "KubevirtMachine";
  name = "vm";
}

abbrev pub owner_set : OwnerReference
owner_set = record {
  api_version = "cluster.x-k8s.io/v1beta2";
  kind = "MachineSet";
  name = "workers";
  is_controller = true;
}

abbrev pub machine : Machine
machine = record Samples.machine {
  annotations = ("nvsentinel.petasus.io/replace", "quarantine") ∷ [];
  infrastructure = infrastructure;
  owners = owner_set ∷ [];
}

abbrev pub device : Device
device = record { driver = "gpu.nvidia.com"; pool = "host"; name = "gpu-0" }

abbrev pub other_device : Device
other_device = record { driver = "net.example.com"; pool = "host"; name = "nic-0" }

abbrev pub owner : Owner
owner = record { namespace = "fleet"; name = "worker-1"; cluster = "gpu" }

abbrev pub quarantiner : Quarantiner
quarantiner = record { drivers = "gpu.nvidia.com" ∷ []; dry_run = false; cluster_selector = none }

pub record Depot : Type 0 where
  pub machine : Machine
  pub rules : List Rule

abbrev pub depot : Depot
depot = record { machine = machine; rules = [] }

abbrev kvm : Kubevirt
kvm = record { namespace = "fleet"; name = "vm"; secret_ref = []; template_namespace = some "" }

abbrev vmi : VirtualMachine
vmi = record {
  namespace = "fleet";
  name = "vm";
  uid = "v1";
  deleting = false;
  phase = "Running";
  active_pods = [];
}

abbrev pod : Pod
pod = record {
  uid = "p1";
  phase = "Running";
  claim_names = some "gpus" ∷ [];
  claim_status_names = none ∷ some "gpus" ∷ [];
}

abbrev claim : Claim
claim = record {
  allocation = some (
      record { driver = "gpu.nvidia.com"; pool = "host"; device = "gpu-0"; admin_access = none }
      ∷ record {
        driver = "net.example.com";
        pool = "host";
        device = "nic-0";
        admin_access = some false;
      }
      ∷ []);
}

-- the rule of the name
abbrev pub find_rule : String → List Rule → Result Rule
find_rule name [] = err not_found
find_rule name (rule ∷ rules) = if rule.name == name then ok rule else find_rule name rules

abbrev pub client : Client Depot
client = record {
  patch_machine = λ lock base updated s. (ok updated, record s { machine = updated });
  get_machine = λ namespace name s. (ok s.machine, s);
  get_cluster = λ namespace name s. (ok Samples.cluster, s);
  list_machines = λ namespace name s. (ok (s.machine ∷ []), s);
  list_health_checks = λ namespace s. (ok [], s);
  connect = λ s. (connected, s);
  mapper = λ s. ((λ k. mapped), s);
  watch_requests = λ s. (ok tt, s);
  connect_uncached = λ s. (ok tt, s);
  list_nodes = λ s. (ok [], s);
  list_requests = λ s. (ok [], s);
  get_request = λ name s. (err not_found, s);
  patch_request_status = λ obj items s. (err not_found, s);
  clock = λ s. (90000000000, s);
}

abbrev pub apis : Apis Depot
apis = record {
  map_rule = λ version s. (mapped, s);
  map_kind = λ group kind s. (mapped, s);
  create_rule = λ rule s.
      (if exists_in (λ other. other.name == rule.name) s.rules
        then (err already_exists, s)
        else (ok tt, record s { rules = rule ∷ s.rules }));
  get_rule = λ version name s. (find_rule name s.rules, s);
  list_rules = λ version labels s. (ok s.rules, s);
  delete_machine = λ uid version m s. (ok tt, record s { machine = record m { deleting = true } });
  get_kubevirt = λ kind namespace name s. (ok kvm, s);
  get_virtual_machine = λ namespace name s. (ok vmi, s);
  list_pods = λ namespace uid s. (ok (pod ∷ []), s);
  get_claim = λ namespace name s. (ok claim, s);
}

abbrev pub no_names : List String
no_names = []

abbrev pub request_text : String
request_text = "quarantine: gpu-0,gpu-1"

abbrev pub names : List String
names = "gpu-0" ∷ "gpu-1" ∷ []

abbrev pub drivers_text : String
drivers_text = "a.com,, b.com"

abbrev pub drivers : List String
drivers = "a.com" ∷ "b.com" ∷ []

-- nothing is wrong with any name
abbrev pub no_problems : String → List String
no_problems name = []

-- the rule that was made for the device, and a server whose rules stay that way
abbrev pub device_rule : Rule
device_rule = record {
  version = "v1";
  name = rule_name tools.sha256 device;
  labels = [];
  annotations = ("nvsentinel.petasus.io/machine", "fleet/worker-1") ∷ [];
  selector = ("driver", "gpu.nvidia.com") ∷ ("pool", "host") ∷ ("device", "gpu-0") ∷ [];
  taint_key = "nvsentinel.petasus.io/quarantined";
  taint_value = "true";
  effect = "NoSchedule";
}

abbrev pub rules : List Rule
rules = device_rule ∷ []

abbrev pub settled_apis : Apis Depot
settled_apis = record apis { list_rules = λ version labels s. (ok rules, s) }

-- the Machine whose request was under way when the process stopped
abbrev pub replacing_machine : Machine
replacing_machine = record machine {
  annotations =
      ("nvsentinel.petasus.io/replace", "quarantine")
      ∷ ("nvsentinel.petasus.io/replace-status", "replacing")
      ∷ [];
}

-- a server that makes every rule and has the device's
abbrev pub obliging_apis : Apis Depot
obliging_apis = record apis {
  create_rule = λ rule s. (ok tt, s);
  get_rule = λ version name s. (ok device_rule, s);
}

abbrev pub held : List Device
held = device ∷ other_device ∷ []
