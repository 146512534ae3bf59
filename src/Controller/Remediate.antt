-- ===== src/Controller/Remediate.antt =====
-- internal/controller/cluster_controller.go, `remediate`: how a Machine is handed to Cluster API.
-- The log lines are left out. The Machine, which is updated in place, and the waits of its Cluster
-- are passed in and returned.
pub mod CalledFor
pub mod Covered
use nvsentinel_capi_remediat.Common.{
  ℕ, String, ◌⧺◌, ◌==◌, Bool, true, false, ◌&&◌, ◌||◌, not, List, [], ◌∷◌, Option, none, some, Dict,
  is_blank, if◌then◌else◌,
}
use nvsentinel_capi_remediat.Signal.{Signal, origin_name}
use nvsentinel_capi_remediat.Decision.{Decision, restart, replace, Outcome, same_decision}
use nvsentinel_capi_remediat.Objects.{Machine, Cluster, Node, HealthCheck, Library}
use nvsentinel_capi_remediat.World.{
  M, pure, ◌>>=◌, ◌>>◌, read, Result, ok, err, ApiError, Client, Event, Subject, EventType, warning,
  machine_subject, record_event,
}
use nvsentinel_capi_remediat.Capi.Note.{utf8, event_note, action_remediate, action_restart}
use nvsentinel_capi_remediat.Capi.Guard.{
  SkipReason, not_skipped, skip_paused, skip_earlier_mark, skip_name, in_progress, message, guard,
  is_paused, is_opted_out, earlier_mark_pending, unless_skipped,
}
use nvsentinel_capi_remediat.Capi.Coverage.{
  Coverage, covered, templates_only, ignoring_pause, coverage_of,
}
use nvsentinel_capi_remediat.Capi.Coverage
use nvsentinel_capi_remediat.Capi.Actuator.{
  RestartRecord, restart_completed, restart_answers, mark_for_remediation, record_skipped, escalate,
}
use nvsentinel_capi_remediat.Controller.State.{
  Config, RestartFallback, replace_fallback, unset_fallback, fallback_name, restart_fallback,
  Answer, decline, Observation, no_observation, same_observation, describe, unavailable,
}
use nvsentinel_capi_remediat.Controller.Waits.{ChecksWait, Held, held_for_checks}
use nvsentinel_capi_remediat.Controller.Plan.{
  answer_restarted, answer_remediation_unavailable, event_restart_unavailable,
  event_replace_unavailable, Case, Done, Plan, plan_for, explained, is_finished, finished,
  escalates, skipped, with_coverage, waiting_for_checks, is_unavailable, unavailable_message,
  declined, boot_id_of, record_for, is_replace_fallback,
}

module _ {S : Type 0} (lib : Library) (r : Config) (client : Client S) where
  abbrev pub done : Observation → Machine → Dict ChecksWait → M S Done
  done obs m waits = pure (record { observation = obs; machine = m; waits = waits })

  -- `report` for an object that is not nil
  unfoldable pub report : Bool → Subject → String → String → String → M S (Unit {0})
  report news subject reason action message =
      if not news || r.dry_run
      then pure tt
      else record_event (record {
        subject = subject;
        type = warning;
        reason = reason;
        action = action;
        note = event_note (utf8 message);
      })

  abbrev pub on_machine : Machine → Subject
  on_machine m = machine_subject m.namespace m.name

  unfoldable pub after_mark : Observation → Dict ChecksWait → Result SkipReason × Machine → M S Done
  after_mark obs waits (ok _, m) = done obs m waits
  after_mark obs waits (err e, m) = done no_observation m waits

  -- the end of `remediate`: marks the Machine
  unfoldable pub mark : Case → Plan → Observation → Machine → Dict ChecksWait → M S Done
  mark c p obs m waits = if r.dry_run then done obs m waits else do
    marked ←
        mark_for_remediation client r.dry_run m p.action
          (explained c.sig (p.reason ⧺ "; " ⧺ obs.coverage)) (record_for c p)
    after_mark obs waits marked

  -- holds a restart back while the checks show an earlier mark
  unfoldable pub hold_or_mark : Case → Plan → Observation → Machine → Dict ChecksWait → M S Done
  hold_or_mark c p obs m waits = if not p.restart then mark c p obs m waits else do
    now ← if earlier_mark_pending lib m then read client.clock else pure 0
    let held = held_for_checks lib now waits m
    if held.held
        then done (record obs { skip = skip_earlier_mark }) m held.waits
        else mark c p obs m held.waits

  -- reports what the checks cannot carry out
  unfoldable pub remediate_covered :
      Case → Plan → Observation → Machine → Dict ChecksWait → M S Done
  remediate_covered c p obs m waits =
      if not (is_unavailable p) then hold_or_mark c p obs m waits else do
        let waiting = waiting_for_checks p
        let message = unavailable_message c p obs waiting
        let told = declined c obs waiting message
        report (not (same_observation told c.previous)) (on_machine m)
            (if p.restart then event_restart_unavailable else event_replace_unavailable)
            (if p.restart then action_restart else action_remediate) message
        done told m waits

  -- the guards
  unfoldable pub remediate_guarded : Case → Plan → Machine → Dict ChecksWait → M S Done
  remediate_guarded c p m waits =
      unless_skipped (guard m) (remediate_covered c p (with_coverage p c.obs) m waits) λ skip. do
        let obs = skipped c skip
        if same_observation obs c.previous
            then pure tt
            else record_skipped client r.dry_run m skip p.action (explained c.sig p.reason)
        done obs m waits

  unfoldable pub after_escalation : Case → Plan → Dict ChecksWait → Result Bool × Machine → M S Done
  after_escalation c p waits (ok _, m) = remediate_guarded c p m waits
  after_escalation c p waits (err e, m) = done no_observation m waits

  unfoldable pub remediate : Case → Machine → Dict ChecksWait → M S Done
  remediate c m waits = if is_finished c m then done (finished c) m waits else do
    let p = plan_for lib r c m
    escalated ←
        if escalates c p m
        then escalate client r.dry_run m (explained c.sig p.reason)
        else pure (ok false, m)
    after_escalation c p waits escalated
