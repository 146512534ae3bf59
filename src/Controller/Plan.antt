-- ===== src/Controller/Plan.antt =====
-- internal/controller/cluster_controller.go, the parts of `remediate` that only compute: what it asks
-- for, what it concludes and the texts. The log lines are left out.
use nvsentinel_capi_remediat.Common.{
  String, ◌⧺◌, ◌==◌, Bool, true, ◌&&◌, ◌||◌, not, List, Option, none, some, Dict, is_blank,
  if◌then◌else◌,
}
use nvsentinel_capi_remediat.Signal.{Signal, origin_name}
use nvsentinel_capi_remediat.Decision.{restart, replace, Outcome, same_decision}
use nvsentinel_capi_remediat.Objects.{Machine, Cluster, Node, HealthCheck, Library}
use nvsentinel_capi_remediat.Capi.Note.{action_remediate, action_restart}
use nvsentinel_capi_remediat.Capi.Guard.{
  SkipReason, skip_paused, skip_name, in_progress, message, is_paused, is_opted_out,
}
use nvsentinel_capi_remediat.Capi.Coverage.{
  Coverage, covered, templates_only, ignoring_pause, coverage_of,
}
use nvsentinel_capi_remediat.Capi.Coverage
use nvsentinel_capi_remediat.Capi.Actuator.{RestartRecord, restart_completed, restart_answers}
use nvsentinel_capi_remediat.Controller.State.{
  Config, RestartFallback, unset_fallback, fallback_name, restart_fallback, decline, Observation,
  describe, unavailable,
}
use nvsentinel_capi_remediat.Controller.Waits.{ChecksWait}

abbrev pub answer_restarted : String
answer_restarted = "Restarted"

abbrev pub answer_remediation_unavailable : String
answer_remediation_unavailable = "RemediationUnavailable"

abbrev pub event_restart_unavailable : String
event_restart_unavailable = "RestartUnavailable"

abbrev pub event_replace_unavailable : String
event_replace_unavailable = "ReplaceUnavailable"

-- what `remediate` is given and does not change
pub record Case : Type 0 where
  pub cluster : Cluster
  pub checks : List HealthCheck
  pub sig : Signal
  pub outcome : Outcome
  pub node : Option Node
  pub obs : Observation
  pub previous : Observation

-- what it returns, and what it changes
pub record Done : Type 0 where
  pub observation : Observation
  pub machine : Machine
  pub waits : Dict ChecksWait

-- its local variables once the coverage is known; `reason` is that of the outcome, extended
pub record Plan : Type 0 where
  pub restart : Bool
  pub action : String
  pub reason : String
  pub coverage : Coverage
  pub restart_unavailable : Bool
  pub fallback : RestartFallback
  pub note : String

abbrev pub is_replace_fallback : RestartFallback → Bool
is_replace_fallback f = fallback_name f == "replace"

unfoldable pub plan_for : Library → Config → Case → Machine → Plan
plan_for lib r c m =
    let restart_called = same_decision c.outcome.decision restart in
    let cov = coverage_of lib c.checks m in
    let lacking = restart_called && not (templates_only cov) in
    let choice = if lacking then restart_fallback lib r c.cluster else (unset_fallback, "") in
    let falls_back = lacking && is_replace_fallback choice.0 && covered cov in
    let restarts = restart_called && not falls_back in
    record {
      restart = restarts;
      action = if restarts then action_restart else action_remediate;
      reason =
          if falls_back
          then c.outcome.reason
            ⧺ ", which no remediation template can carry out; falling back to a replacement"
            ⧺ choice.1
          else c.outcome.reason;
      coverage = cov;
      restart_unavailable = lacking;
      fallback = choice.0;
      note = choice.1;
    }

-- `sig.Origin describe(sig): reason`
unfoldable pub explained : Signal → String → String
unfolding describe origin_name
explained sig reason = origin_name sig.origin ⧺ " " ⧺ describe sig ⧺ ": " ⧺ reason

-- whether the restart asked for through the request is over, which answers it
unfoldable pub is_finished : Case → Machine → Bool
unfolding restart_completed restart_answers same_decision
is_finished c m =
    same_decision c.outcome.decision restart
    && not (is_blank c.sig.request)
    && restart_completed m c.node
    && restart_answers m c.sig.request

unfoldable pub finished : Case → Observation
finished c = record c.obs {
  answer = record {
    complete = true;
    reason = answer_restarted;
    message = "node " ⧺ c.sig.node ⧺ " restarted and is Ready";
  };
}

-- whether a restart mark is to be turned into a replacement mark
unfoldable pub escalates : Case → Plan → Machine → Bool
unfolding is_paused is_opted_out same_decision
escalates c p m =
    let held = is_paused m || is_opted_out m in
    not p.restart && (same_decision c.outcome.decision replace || not held)

unfoldable pub skipped : Case → SkipReason → Observation
unfolding in_progress decline message describe skip_name
skipped c skip = record c.obs {
  skip = skip;
  answer =
      if not (in_progress skip) && not (skip_name skip == skip_name skip_paused)
      then decline c.sig (skip_name skip) (
          describe c.sig
          ⧺ " on node "
          ⧺ c.sig.node
          ⧺ ": remediation skipped because "
          ⧺ message skip)
      else c.obs.answer;
}

-- the observation once the coverage is recorded
unfoldable pub with_coverage : Plan → Observation → Observation
unfolding fallback_name
with_coverage p obs = record obs {
  coverage = Coverage.describe p.coverage;
  fallback = if p.restart_unavailable then fallback_name p.fallback ⧺ p.note else obs.fallback;
}

-- whether unpausing checks would make the decision possible
unfoldable pub waiting_for_checks : Plan → Bool
unfolding covered templates_only ignoring_pause fallback_name
waiting_for_checks p =
    let unpaused = ignoring_pause p.coverage in
    if p.restart
    then templates_only unpaused || (is_replace_fallback p.fallback && covered unpaused)
    else covered unpaused

-- the test of the `switch` on what the checks cannot carry out
unfoldable pub is_unavailable : Plan → Bool
unfolding covered
is_unavailable p = if p.restart then p.restart_unavailable else not (covered p.coverage)

abbrev pub unavailable_message : Case → Plan → Observation → Bool → String
unavailable_message c p obs waiting =
    if p.restart
    then describe c.sig
      ⧺ " calls for a restart of node "
      ⧺ c.sig.node
      ⧺ ", but "
      ⧺ obs.coverage
      ⧺ "; "
      ⧺ unavailable waiting
      ⧺ " (restart fallback "
      ⧺ obs.fallback
      ⧺ ")"
    else describe c.sig
      ⧺ " calls for a replacement of node "
      ⧺ c.sig.node
      ⧺ ", but "
      ⧺ obs.coverage
      ⧺ "; "
      ⧺ unavailable waiting

unfoldable pub declined : Case → Observation → Bool → String → Observation
unfolding decline
declined c obs waiting message = record obs {
  answer = if waiting then obs.answer else decline c.sig answer_remediation_unavailable message;
}

abbrev pub boot_id_of : Option Node → String
boot_id_of none = ""
boot_id_of (some node) = node.boot_id

unfoldable pub record_for : Case → Plan → RestartRecord
record_for c p =
    if p.restart
    then record { boot_id = boot_id_of c.node; request = c.sig.request }
    else record { boot_id = ""; request = "" }
