-- ===== src/Controller/Mode.antt =====
-- internal/controller/mode.go: how a workload cluster is read, from the resources it serves.
use nvsentinel_capi_remediat.Common.{String, ◌==◌, Bool, true, false, ◌&&◌, not, if◌then◌else◌}
use nvsentinel_capi_remediat.Decision.{Decision, report, same_decision}
use nvsentinel_capi_remediat.World.{
  Result, ok, err, GroupVersionKind, Mapping, mapped, no_match, failed,
}

pub data Mode : Type 0 where
  external_remediation_request report_only_mode node_condition : Mode

unfoldable pub mode_name : Mode → String
mode_name external_remediation_request = "ExternalRemediationRequest"
mode_name report_only_mode = "ReportOnly"
mode_name node_condition = "NodeCondition"

unfoldable pub same_mode : Mode → Mode → Bool
unfolding mode_name
same_mode a b = mode_name a == mode_name b

abbrev pub request_kind : GroupVersionKind
request_kind = record {
  group = "nvsentinel.dgxc.nvidia.com";
  version = "v1";
  kind = "ExternalRemediationRequest";
}

abbrev pub janitor_kind : GroupVersionKind
janitor_kind = record {
  group = "janitor.dgxc.nvidia.com";
  version = "v1alpha1";
  kind = "RebootNode";
}

unfoldable pub is_served : Mapping → Result Bool
is_served mapped = ok true
is_served no_match = ok false
is_served (failed e) = err e

abbrev or_janitor : Result Bool → Result Mode
or_janitor (err e) = err e
or_janitor (ok true) = ok report_only_mode
or_janitor (ok false) = ok node_condition

unfoldable pub select_mode : (GroupVersionKind → Mapping) → Result Mode
unfolding is_served
select_mode mapper = elim (is_served (mapper request_kind)) [
  | err e ↦ err e
  | ok served ↦
      if served
      then ok external_remediation_request
      else or_janitor (is_served (mapper janitor_kind))
]

-- `Mode.describe`
unfoldable pub describe_mode : Mode → String
describe_mode external_remediation_request =
    "reading NVSentinel's ExternalRemediationRequests; faults not routed to one are left to NVSentinel's janitor"
describe_mode report_only_mode =
    "reading NVSentinel's node conditions and only reporting them, since NVSentinel's janitor remediates this cluster itself"
describe_mode node_condition = "reading NVSentinel's node conditions"

-- `reportOnly`: why a decision is only reported, or ""
unfoldable pub report_only : Mode → Decision → String
unfolding same_mode same_decision
report_only mode d =
    if same_mode mode report_only_mode && not (same_decision d report)
    then "NVSentinel's janitor remediates this cluster itself"
    else ""
