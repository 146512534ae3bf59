-- ===== src/Controller/Writes.antt =====
-- What a pass writes and records, step by step.
use nvsentinel_capi_remediat.Common.{String, ◌≡◌, Bool, false, not, ◌||◌, Dict, arith}
use nvsentinel_capi_remediat.Objects.{Machine, Request, Library}
use nvsentinel_capi_remediat.World.{Result, ok, err, not_found, Client, Subject}
use nvsentinel_capi_remediat.World.Emits.{
  Emits, emits_rules, Emits-pure, Emits-read, Emits-write, Emits-if, Emits-bind, Emits-record_event,
}
use nvsentinel_capi_remediat.Capi.Note.{utf8}
use nvsentinel_capi_remediat.Capi.Note.Length.{event_note_fits}
use nvsentinel_capi_remediat.Capi.Guard.{SkipReason}
use nvsentinel_capi_remediat.Capi.Actuator.Writes.{
  IsAllowed, unless_skipped-Emits, mark_for_remediation-Emits, record_skipped-Emits, escalate-Emits,
}
use nvsentinel_capi_remediat.Extrr.{pending, answer_request}
use nvsentinel_capi_remediat.Extrr.Answering.{is_answered-given}
use nvsentinel_capi_remediat.Controller.State.{Config, Observation}
use nvsentinel_capi_remediat.Controller.Waits.{ChecksWait}
use nvsentinel_capi_remediat.Controller.Remediate.{
  report, after_mark, mark, hold_or_mark, remediate_covered, remediate_guarded, after_escalation,
  remediate,
}
use nvsentinel_capi_remediat.Controller.Plan.{Case, Plan}

module _ {S : Type 0} (lib : Library) (r : Config) (client : Client S) where
  pub answer_request-Emits :
      (complete : Bool) (reason message : String) (q : Result Request)
      → r.dry_run ≡ false
      → Emits (IsAllowed r.dry_run) (answer_request lib client complete reason message q)
  unfolding answer_request
  answer_request-Emits complete reason message (ok obj) live =
      Emits-if (not (pending obj)) _ _ (λ _. Emits-pure _)
        λ p. Emits-bind _ _ (Emits-read _) λ now.
          Emits-bind _ _
            (Emits-write _ _
              (live, ground (arith, p), is_answered-given lib obj complete reason message now))
            (λ sent. Emits-pure _)
  answer_request-Emits complete reason message (err not_found) live = Emits-pure _
  answer_request-Emits complete reason message (err e) live = Emits-pure _

  pub report-Emits :
      (news : Bool) (subject : Subject) (reason action message : String)
      → Emits (IsAllowed r.dry_run) (report lib r client news subject reason action message)
  unfolding report
  report-Emits news subject reason action message =
      Emits-if (not news || r.dry_run) _ _ (λ _. Emits-pure _)
        (λ d. Emits-record_event _ (ground arith, (event_note_fits (utf8 message)).0))

  after_mark-Emits :
      (obs : Observation) (waits : Dict ChecksWait) (m : Result SkipReason × Machine)
      → Emits (IsAllowed r.dry_run) (after_mark lib r client obs waits m)
  unfolding after_mark
  after_mark-Emits obs waits (ok _, m) = Emits-pure _
  after_mark-Emits obs waits (err _, m) = Emits-pure _

  mark-Emits :
      (c : Case) (p : Plan) (obs : Observation) (m : Machine) (waits : Dict ChecksWait)
      → Emits (IsAllowed r.dry_run) (mark lib r client c p obs m waits)
  unfolding mark
  mark-Emits c p obs m waits = search (emits_rules, mark_for_remediation-Emits, after_mark-Emits)

  hold_or_mark-Emits :
      (c : Case) (p : Plan) (obs : Observation) (m : Machine) (waits : Dict ChecksWait)
      → Emits (IsAllowed r.dry_run) (hold_or_mark lib r client c p obs m waits)
  unfolding hold_or_mark
  hold_or_mark-Emits c p obs m waits = search (emits_rules, mark-Emits)

  remediate_covered-Emits :
      (c : Case) (p : Plan) (obs : Observation) (m : Machine) (waits : Dict ChecksWait)
      → Emits (IsAllowed r.dry_run) (remediate_covered lib r client c p obs m waits)
  unfolding remediate_covered
  remediate_covered-Emits c p obs m waits = search (emits_rules, hold_or_mark-Emits, report-Emits)

  remediate_guarded-Emits :
      (c : Case) (p : Plan) (m : Machine) (waits : Dict ChecksWait)
      → Emits (IsAllowed r.dry_run) (remediate_guarded lib r client c p m waits)
  unfolding remediate_guarded
  remediate_guarded-Emits c p m waits =
      search (emits_rules, unless_skipped-Emits, remediate_covered-Emits, record_skipped-Emits)

  after_escalation-Emits :
      (c : Case) (p : Plan) (waits : Dict ChecksWait) (e : Result Bool × Machine)
      → Emits (IsAllowed r.dry_run) (after_escalation lib r client c p waits e)
  unfolding after_escalation
  after_escalation-Emits c p waits (ok _, m) = remediate_guarded-Emits c p m waits
  after_escalation-Emits c p waits (err _, m) = Emits-pure _

  pub remediate-Emits :
      (c : Case) (m : Machine) (waits : Dict ChecksWait)
      → Emits (IsAllowed r.dry_run) (remediate lib r client c m waits)
  unfolding remediate
  remediate-Emits c m waits = search (emits_rules, escalate-Emits, after_escalation-Emits)
