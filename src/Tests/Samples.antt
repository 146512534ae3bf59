-- ===== src/Tests/Samples.antt =====
-- A small workload cluster with one Machine, one node, one health check and one request, and a
-- server that keeps the Machine and the request as they were last written.
use nvsentinel_capi_remediat.Common.{pos, ◌==◌, true, false, [], ◌∷◌, none, some, has}
use nvsentinel_capi_remediat.Objects.{
  Machine, Cluster, Node, InfrastructureRef, HealthCheck, Library, number, item, Answered, Request,
  paused_annotation,
}
use nvsentinel_capi_remediat.World.{ok, Client, mapped, connected}
use nvsentinel_capi_remediat.Decision.{default}
use nvsentinel_capi_remediat.Controller.State.{Config, replace_fallback}
use nvsentinel_capi_remediat.Controller.Memory.{Memory}

abbrev pub library : Library
library = record {
  add_label = λ s k v. record s { match_labels = (k, v) ∷ s.match_labels };
  as_selector = λ s. some λ labels. true;
  cluster_name_label = "cluster.x-k8s.io/cluster-name";
  has_paused = λ d. has paused_annotation d;
  is_paused = λ c. c.spec_paused;
  is_defined = λ t. t.name == "reboot";
  has_remediate_annotation_reason = "HasRemediateAnnotation";
  quote = λ s. s;
  format_time = λ t. "1970-01-01T00:00:00Z";
}

abbrev pub infrastructure : InfrastructureRef
infrastructure = record { api_group = "infrastructure"; kind = "Metal"; name = "metal" }

abbrev pub machine : Machine
machine = record {
  namespace = "fleet";
  name = "worker-1";
  uid = "u1";
  resource_version = "7";
  labels = [];
  annotations = ("owner", "me") ∷ [];
  deleting = false;
  cluster_name = "gpu";
  infrastructure = infrastructure;
  owners = [];
  conditions = [];
  node_ref = "node-1";
}

-- the Machine while a check still shows an earlier mark
abbrev pub shown_machine : Machine
shown_machine = record machine {
  conditions =
      record {
        type = "HealthCheckSucceeded";
        status = "False";
        reason = "HasRemediateAnnotation";
        message = "";
      }
      ∷ [];
}

abbrev pub cluster : Cluster
cluster = record {
  namespace = "fleet";
  name = "gpu";
  labels = [];
  annotations = [];
  deleting = false;
  spec_paused = false;
  infrastructure = infrastructure;
}

abbrev pub node : Node
node = record {
  name = "node-1";
  boot_id = "boot-a";
  conditions = record { type = "Ready"; status = "True"; reason = ""; message = "" } ∷ [];
}

abbrev pub check : HealthCheck
check = record {
  namespace = "fleet";
  name = "mhc";
  cluster_name = "gpu";
  annotations = [];
  selector = record { match_labels = []; match_expressions = [] };
  template_ref = record { api_version = "v1"; kind = "RebootTemplate"; name = "reboot" };
}

abbrev pub released_condition : Answered
released_condition = record {
  type = "NVSentinelOwnershipReleased";
  status = "True";
  reason = "";
  message = "";
  last_transition_time = "";
  observed_generation = 1;
}

-- a request for a restart of the node
abbrev pub request : Request
request = record {
  name = "err-1";
  generation = 1;
  deleting = false;
  health_event = record {
    node_name = "node-1";
    check_name = "GpuXidError";
    id = "e1";
    error_code = "48" ∷ [];
    recommended_action = number (pos 24);
    custom_recommended_action = "";
    entities_impacted = [];
  };
  conditions = item released_condition ∷ [];
}

abbrev pub config : Config
config = record {
  table = default;
  dry_run = false;
  interval = 0;
  cluster_selector = none;
  fallback = replace_fallback;
}

pub record Server : Type 0 where
  pub machine : Machine
  pub request : Request

abbrev pub server : Server
server = record { machine = machine; request = request }

abbrev pub client : Client Server
client = record {
  patch_machine = λ lock base updated s. (ok updated, record s { machine = updated });
  get_machine = λ namespace name s. (ok s.machine, s);
  get_cluster = λ namespace name s. (ok cluster, s);
  list_machines = λ namespace name s. (ok (s.machine ∷ []), s);
  list_health_checks = λ namespace s. (ok (check ∷ []), s);
  connect = λ s. (connected, s);
  mapper = λ s. ((λ k. mapped), s);
  watch_requests = λ s. (ok tt, s);
  connect_uncached = λ s. (ok tt, s);
  list_nodes = λ s. (ok (node ∷ []), s);
  list_requests = λ s. (ok (s.request ∷ []), s);
  get_request = λ name s. (ok s.request, s);
  patch_request_status =
      λ obj items s. (ok tt, record s { request = record obj { conditions = items } });
  clock = λ s. (90000000000, s);
}

abbrev pub memory : Memory
memory = record { seen = []; would_release = []; modes = []; waiting = [] }
