-- ===== src/Controller/Answers.antt =====
-- internal/controller/cluster_controller.go, `answer` and `releaseAnswered`: how the outcome is
-- reported to the request that a signal was read from. The log lines are left out.
pub mod Retries
use nvsentinel_capi_remediat.Common.{
  ℕ, zero, suc, String, ◌⧺◌, ◌==◌, Bool, true, false, ◌&&◌, ◌||◌, not, List, [], ◌∷◌, Option, none,
  some, Dict, lookup, get_or, is_blank, is_some, if◌then◌else◌,
}
use nvsentinel_capi_remediat.Signal.{Signal}
use nvsentinel_capi_remediat.Decision.{
  Decision, restart, replace, unset, Outcome, Table, decide, same_decision,
}
use nvsentinel_capi_remediat.Decision
use nvsentinel_capi_remediat.Objects.{Machine, Cluster, Node, HealthCheck, Library}
use nvsentinel_capi_remediat.World.{
  M, pure, ◌>>=◌, ◌>>◌, read, Result, ok, err, not_found, conflict, ApiError, Client, Event,
  Subject, normal, machine_subject, cluster_subject, record_event,
}
use nvsentinel_capi_remediat.Capi.Note.{
  utf8, event_note, remediation_boot_id_annotation, remediation_request_annotation,
}
use nvsentinel_capi_remediat.Capi.Actuator.{release, marked_action, annotation}
use nvsentinel_capi_remediat.Extrr
use nvsentinel_capi_remediat.Controller.Mode.{Mode, report_only}
use nvsentinel_capi_remediat.Controller.State.{
  Config, Answer, decline, Observation, no_answer, same_observation, describe,
}
use nvsentinel_capi_remediat.Capi.Guard.{not_skipped}
use nvsentinel_capi_remediat.Controller.Waits.{ChecksWait}
use nvsentinel_capi_remediat.Controller.Remediate.{remediate, report}
use nvsentinel_capi_remediat.Controller.Plan.{Case, Done}

abbrev pub event_request_answered : String
event_request_answered = "ExternalRemediationRequestAnswered"

abbrev pub action_answer : String
action_answer = "Answer"

-- what identifies the restart a Machine is marked for
pub record RestartMark : Type 0 where
  pub action : String
  pub boot_id : String
  pub request : String
  pub marked : Bool

abbrev text_of : Option String → String
text_of none = ""
text_of (some s) = s

unfoldable pub restart_mark_of : Machine → RestartMark
unfolding marked_action
restart_mark_of m = record {
  action = text_of (marked_action m);
  boot_id = annotation remediation_boot_id_annotation m;
  request = annotation remediation_request_annotation m;
  marked = is_some (marked_action m);
}

unfoldable pub same_mark : RestartMark → RestartMark → Bool
same_mark a b =
    a.action == b.action
    && a.boot_id == b.boot_id
    && a.request == b.request
    && (if a.marked then b.marked else not b.marked)

-- the Machine as it is after an attempt to release it, and whether another is to be made
pub record Attempt : Type 0 where
  pub machine : Machine
  pub retry : Bool

module _ {S : Type 0} (lib : Library) (r : Config) (client : Client S) where
  unfoldable pub is_conflict : ApiError → Bool
  is_conflict conflict = true
  is_conflict _ = false

  unfoldable pub attempted : Result Bool × Machine → Attempt
  attempted (ok _, m) = record { machine = m; retry = false }
  attempted (err e, m) = record { machine = m; retry = is_conflict e }

  abbrev pub release_once : Machine → String → M S Attempt
  release_once m reason = do released ← release client r.dry_run m reason; pure (attempted released)

  -- an attempt after a conflict: on the Machine as it is by then, if that still has the mark
  unfoldable pub release_again : RestartMark → Machine → String → Result Machine → M S Attempt
  release_again answered m reason (err e) = pure (record { machine = m; retry = is_conflict e })
  release_again answered m reason (ok current) =
      if same_mark (restart_mark_of current) answered
      then release_once current reason
      else pure (record { machine = current; retry = false })

  -- the attempts after the first; `tries` is how many the backoff has left
  unfoldable pub retry_release : ℕ → RestartMark → Attempt → String → M S Machine
  retry_release zero answered a reason = pure a.machine
  retry_release (suc tries) answered a reason =
      let rest = λ (a' : Attempt). retry_release tries answered a' reason in
      if not a.retry then pure a.machine else do
        current ← read (client.get_machine a.machine.namespace a.machine.name)
        a' ← release_again answered a.machine reason current
        rest a'

  -- `releaseAnswered`; `tries` is the number of attempts of `retry.DefaultBackoff`
  unfoldable pub release_answered : ℕ → Machine → String → M S Machine
  release_answered zero m reason = pure m
  release_answered (suc tries) m reason = do
    a ← release_once m reason
    retry_release tries (restart_mark_of m) a reason

  unfoldable pub answered_subject : Cluster → Option Machine → Subject
  answered_subject cluster none = cluster_subject cluster.namespace cluster.name
  answered_subject cluster (some m) = machine_subject m.namespace m.name

  unfoldable pub answered_event : Cluster → Option Machine → Signal → Answer → Event
  answered_event cluster machine sig a = record {
    subject = answered_subject cluster machine;
    type = normal;
    reason = event_request_answered;
    action = action_answer;
    note = event_note (
        utf8 (
          "Answered ExternalRemediationRequest "
          ⧺ sig.request
          ⧺ ": "
          ⧺ (if a.complete then "True" else "False")
          ⧺ ", "
          ⧺ a.reason
          ⧺ ": "
          ⧺ a.message));
  }

  unfoldable pub release_owner : ℕ → Answer → Option Machine → M S (Option Machine)
  release_owner tries a none = pure none
  release_owner tries a (some m) =
      if not a.complete
      then pure (some m)
      else do m' ← release_answered tries m a.message; pure (some m')

  -- the rest of `answer`, on the result of `extrr.Answer`
  unfoldable pub after_answer :
      ℕ → Cluster → Option Machine → Signal → Answer → Result Bool → M S (Option Machine)
  after_answer tries cluster machine sig a (err e) = pure machine
  after_answer tries cluster machine sig a (ok answered) =
      if not answered
      then pure machine
      else do record_event (answered_event cluster machine sig a); release_owner tries a machine

  -- `answer`, with the Machine after it
  unfoldable pub answer : ℕ → Cluster → Option Machine → Signal → Answer → M S (Option Machine)
  answer tries cluster machine sig a = if r.dry_run then pure machine else do
    answered ← Extrr.answer lib client sig.request a.complete a.reason a.message
    after_answer tries cluster machine sig a answered
