-- ===== src/Controller/Handle.antt =====
-- internal/controller/cluster_controller.go: `handle`, which decides one signal and acts on it. The log
-- lines are left out.
pub mod Completes
pub mod ReportOnly
use nvsentinel_capi_remediat.Common.{
  ℕ, zero, suc, String, ◌⧺◌, ◌==◌, Bool, true, false, ◌&&◌, ◌||◌, not, List, [], ◌∷◌, Option, none,
  some, Dict, lookup, get_or, is_blank, is_some, if◌then◌else◌,
}
use nvsentinel_capi_remediat.Signal.{Signal}
use nvsentinel_capi_remediat.Decision.{
  Decision, restart, replace, unset, Outcome, Table, decide, same_decision,
}
use nvsentinel_capi_remediat.Decision
use nvsentinel_capi_remediat.Objects.{Machine, Cluster, Node, HealthCheck, Library}
use nvsentinel_capi_remediat.World.{
  M, pure, ◌>>=◌, ◌>>◌, read, Result, ok, err, not_found, conflict, ApiError, Client, Event,
  Subject, normal, machine_subject, cluster_subject, record_event,
}
use nvsentinel_capi_remediat.Capi.Note.{
  utf8, event_note, remediation_boot_id_annotation, remediation_request_annotation,
}
use nvsentinel_capi_remediat.Capi.Actuator.{release, marked_action, annotation}
use nvsentinel_capi_remediat.Extrr
use nvsentinel_capi_remediat.Controller.Mode.{Mode, report_only}
use nvsentinel_capi_remediat.Controller.State.{
  Config, Answer, decline, Observation, no_answer, same_observation, describe,
}
use nvsentinel_capi_remediat.Capi.Guard.{not_skipped}
use nvsentinel_capi_remediat.Controller.Waits.{ChecksWait}
use nvsentinel_capi_remediat.Controller.Remediate.{remediate, report}
use nvsentinel_capi_remediat.Controller.Plan.{Case, Done}

abbrev pub answer_not_remediated : String
answer_not_remediated = "NotRemediated"

abbrev pub answer_machine_not_found : String
answer_machine_not_found = "MachineNotFound"

abbrev pub event_node_health_reported : String
event_node_health_reported = "NodeHealthReported"

abbrev pub event_machine_not_found : String
event_machine_not_found = "MachineNotFound"

abbrev pub action_report : String
action_report = "Report"

-- the outcome that `handle` works with: in report-only mode every decision is reported
unfoldable pub outcome_in : Table → Mode → Signal → Outcome
unfolding decide report_only
outcome_in t mode sig =
    let outcome = decide t sig in
    let why = report_only mode outcome.decision in
    if is_blank why then outcome else record outcome {
      decision = Decision.report;
      reason = outcome.reason ⧺ "; reported only since " ⧺ why;
    }

abbrev name_of : Option Machine → String
name_of none = ""
name_of (some m) = m.name

unfoldable pub first_observation : Outcome → Signal → Option Machine → Observation
first_observation outcome sig machine = record {
  decision = outcome.decision;
  action = outcome.action;
  truncated = sig.truncated;
  machine = name_of machine;
  request = sig.request;
  skip = not_skipped;
  coverage = "";
  fallback = "";
  answer = no_answer;
}

-- what `handle` is given and does not change
pub record Input : Type 0 where
  pub cluster : Cluster
  pub mode : Mode
  pub checks : List HealthCheck
  pub sig : Signal
  pub node : Option Node
  pub previous : Observation

-- what it concludes, and the Machine and the waits after it
pub record Handled : Type 0 where
  pub observation : Observation
  pub machine : Option Machine
  pub waits : Dict ChecksWait

abbrev pub case_of : Input → Outcome → Observation → Case
case_of i outcome obs = record {
  cluster = i.cluster;
  checks = i.checks;
  sig = i.sig;
  outcome = outcome;
  node = i.node;
  obs = obs;
  previous = i.previous;
}

module _ {S : Type 0} (lib : Library) (r : Config) (client : Client S) where
  abbrev pub handled : Observation → Option Machine → Dict ChecksWait → M S Handled
  handled obs machine waits = pure (record { observation = obs; machine = machine; waits = waits })

  abbrev pub unowned_message : Signal → String
  unowned_message sig = "node " ⧺ sig.node ⧺ " reports " ⧺ describe sig ⧺ " but no Machine owns it"

  -- the case of a node that no Machine owns
  unfoldable pub handle_unowned : Input → Observation → Dict ChecksWait → M S Handled
  handle_unowned i obs waits = do
    let message = unowned_message i.sig
    let told = record obs { answer = decline i.sig answer_machine_not_found message }
    report lib r client (not (same_observation told i.previous))
        (cluster_subject i.cluster.namespace i.cluster.name) event_machine_not_found action_report
        message
    handled told none waits

  -- the default case: the signal is reported
  unfoldable pub handle_reported :
      Input → Outcome → Observation → Machine → Dict ChecksWait → M S Handled
  handle_reported i outcome obs m waits = do
    let message = describe i.sig ⧺ " on node " ⧺ i.sig.node ⧺ ": " ⧺ outcome.reason
    let told = record obs { answer = decline i.sig answer_not_remediated message }
    report lib r client (not (same_observation told i.previous))
        (machine_subject m.namespace m.name) event_node_health_reported action_report message
    handled told (some m) waits

  unfoldable pub handle_owned :
      Input → Outcome → Observation → Machine → Dict ChecksWait → M S Handled
  handle_owned i outcome obs m waits =
      if not (same_decision outcome.decision replace || same_decision outcome.decision restart)
      then handle_reported i outcome obs m waits
      else do
        done ← remediate lib r client (case_of i outcome obs) m waits
        handled done.observation (some done.machine) done.waits

  unfoldable pub handle_present :
      Input → Outcome → Observation → Option Machine → Dict ChecksWait → M S Handled
  handle_present i outcome obs none waits = handle_unowned i obs waits
  handle_present i outcome obs (some m) waits = handle_owned i outcome obs m waits

  unfoldable pub handle : Input → Option Machine → Dict ChecksWait → M S Handled
  handle i machine waits =
      let outcome = outcome_in r.table i.mode i.sig in
      let obs = first_observation outcome i.sig machine in
      if not (is_some i.node) && not (is_blank i.sig.request)
      then handled obs machine waits
      else handle_present i outcome obs machine waits
