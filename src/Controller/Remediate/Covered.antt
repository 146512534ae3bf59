-- ===== src/Controller/Remediate/Covered.antt =====
-- A remediation asks Cluster API only for what the checks of the Machine can carry out.
use nvsentinel_capi_remediat.Common.{
  String, ◌≡◌, refl, Bool, true, false, not, ◌||◌, ◌⊎◌, [], some, Dict, All, arith,
}
use nvsentinel_capi_remediat.Objects.{Machine, Library}
use nvsentinel_capi_remediat.World.{
  M, patch, Result, ok, err, Client, patched, recorded, Event, EventType, Subject,
}
use nvsentinel_capi_remediat.World.Emits.{
  Emits, emits_rules, Emits-pure, Emits-write, Emits-if, Emits-bind,
}
use nvsentinel_capi_remediat.Capi.Note.{action_restart}
use nvsentinel_capi_remediat.Capi.Guard.{
  SkipReason, not_skipped, guard, unless_skipped, is_paused, is_opted_out,
}
use nvsentinel_capi_remediat.Capi.Actuator.{
  RestartRecord, marked_for, after_patch, mark_for_remediation, record_skipped, escalate,
}
use nvsentinel_capi_remediat.Capi.Actuator.Marks.{marked_action-stamp, marked_action-restamp}
use nvsentinel_capi_remediat.Controller.State.{Config, Observation}
use nvsentinel_capi_remediat.Controller.Waits.{ChecksWait}
use nvsentinel_capi_remediat.Controller.Remediate
use nvsentinel_capi_remediat.Controller.Remediate.{
  after_mark, mark, hold_or_mark, remediate_covered, remediate_guarded, after_escalation, remediate,
}
use nvsentinel_capi_remediat.Controller.Plan.{
  Case, Plan, escalates, is_finished, is_unavailable, plan_for,
}
use nvsentinel_capi_remediat.Controller.Remediate.CalledFor.{
  FallsBack, IsCalledFor, HasCover, planned, plan_coverage, IsCalledFor-Planned, turned_for-Planned,
  calls_restart,
}

module _ {S : Type 0} (lib : Library) (r : Config) (client : Client S) (c : Case)
    (m₀ : Machine) where
  abbrev Covers : {A : Type 0} → M S A → Type 0
  Covers a = Emits (HasCover lib r c m₀) a

  event-HasCover : (e : Event) → HasCover lib r c m₀ (recorded e)
  event-HasCover e = tt

  after_patch-Covers :
      {A : Type 0} (m : Machine) (a : A) (type : EventType) (reason action note : String)
      (q : Result Machine)
      → Covers (after_patch client r.dry_run m a type reason action note q)
  unfolding after_patch
  after_patch-Covers m a type reason action note (ok m') = search (emits_rules, event-HasCover)
  after_patch-Covers m a type reason action note (err e) = search emits_rules

  patch-Covers :
      (lock : Bool) (base updated : Machine)
      → HasCover lib r c m₀ (patched lock base updated)
      → Covers (patch client lock base updated)
  unfolding patch
  patch-Covers lock base updated h = Emits-write _ _ h

  unless_skipped-Covers :
      {A : Type 0} (s : SkipReason) (go : M S A) (stop : SkipReason → M S A)
      → Covers go
      → ((k : SkipReason) → Covers (stop k))
      → Covers (unless_skipped s go stop)
  unfolding unless_skipped
  unless_skipped-Covers not_skipped go stop g h = g
  unless_skipped-Covers s go stop g h = h s

  mark_for_remediation-Covers :
      (m : Machine) (action reason : String) (asked : RestartRecord)
      → IsCalledFor lib r c m₀ (some action)
      → Covers (mark_for_remediation client r.dry_run m action reason asked)
  unfolding mark_for_remediation
  mark_for_remediation-Covers m action reason asked called =
      unless_skipped-Covers (guard m) _ _
        (Emits-if r.dry_run _ _ (λ _. Emits-pure _)
          λ _.
            Emits-bind _ _
              (patch-Covers false m _ (rw (marked_action-stamp m action reason asked) called))
              (λ q. after_patch-Covers m _ _ _ _ _ q))
        (λ k. Emits-pure _)

  record_skipped-Covers :
      (m : Machine) (skip : SkipReason) (action reason : String)
      → Covers (record_skipped client r.dry_run m skip action reason)
  unfolding record_skipped
  record_skipped-Covers m not_skipped action reason = search emits_rules
  record_skipped-Covers m skip action reason = search (emits_rules, event-HasCover)

  escalate-Covers :
      (m : Machine) (reason : String)
      → (calls_restart lib r c m₀ ≡ false)
        ⊎ (FallsBack lib r c m₀ × (is_paused m₀ ≡ false) × (is_opted_out m₀ ≡ false))
      → Covers (escalate client r.dry_run m reason)
  unfolding escalate
  escalate-Covers m reason turned =
      Emits-if (not (marked_for m action_restart) || m.deleting) _ _ (λ _. Emits-pure _)
        λ ours.
          Emits-if r.dry_run _ _ (λ _. Emits-pure _)
            λ _.
              Emits-bind _ _
                (patch-Covers true m _
                  (ground arith, marked_action-restamp m reason (ground arith), turned))
                (λ q. after_patch-Covers m _ _ _ _ _ q)

  report-Covers :
      (news : Bool) (subject : Subject) (reason action message : String)
      → Covers (Remediate.report lib r client news subject reason action message)
  unfolding Remediate.report
  report-Covers news subject reason action message = search (emits_rules, event-HasCover)

  after_mark-Covers :
      (obs : Observation) (waits : Dict ChecksWait) (q : Result SkipReason × Machine)
      → Covers (after_mark lib r client obs waits q)
  unfolding after_mark
  after_mark-Covers obs waits (ok _, m) = Emits-pure _
  after_mark-Covers obs waits (err _, m) = Emits-pure _

  mark-Covers :
      (p : Plan) (obs : Observation) (m : Machine) (waits : Dict ChecksWait)
      → IsCalledFor lib r c m₀ (some p.action)
      → Covers (mark lib r client c p obs m waits)
  unfolding mark
  mark-Covers p obs m waits called =
      search (emits_rules, mark_for_remediation-Covers, after_mark-Covers)

  hold_or_mark-Covers :
      (p : Plan) (obs : Observation) (m : Machine) (waits : Dict ChecksWait)
      → IsCalledFor lib r c m₀ (some p.action)
      → Covers (hold_or_mark lib r client c p obs m waits)
  unfolding hold_or_mark
  hold_or_mark-Covers p obs m waits called = search (emits_rules, mark-Covers)

  remediate_covered-Covers :
      (obs : Observation) (m : Machine) (waits : Dict ChecksWait)
      → Covers (remediate_covered lib r client c (plan_for lib r c m₀) obs m waits)
  unfolding remediate_covered
  remediate_covered-Covers obs m waits =
      let p = plan_for lib r c m₀ in
      Emits-if (not (is_unavailable p)) _ _
        (λ available. hold_or_mark-Covers p obs m waits (
          IsCalledFor-Planned lib r c m₀ p _ (planned lib r c m₀) (plan_coverage lib r c m₀)
            (ground arith) refl))
        (λ _. search (emits_rules, report-Covers))

  remediate_guarded-Covers :
      (m : Machine) (waits : Dict ChecksWait)
      → Covers (remediate_guarded lib r client c (plan_for lib r c m₀) m waits)
  unfolding remediate_guarded
  remediate_guarded-Covers m waits =
      search (emits_rules, unless_skipped-Covers, remediate_covered-Covers, record_skipped-Covers)

  after_escalation-Covers :
      (waits : Dict ChecksWait) (q : Result Bool × Machine)
      → Covers (after_escalation lib r client c (plan_for lib r c m₀) waits q)
  unfolding after_escalation
  after_escalation-Covers waits (ok _, m) = remediate_guarded-Covers m waits
  after_escalation-Covers waits (err _, m) = Emits-pure _

  remediate-Covers : (waits : Dict ChecksWait) → Covers (remediate lib r client c m₀ waits)
  unfolding remediate
  remediate-Covers waits =
      Emits-if (is_finished c m₀) _ _ (λ _. Emits-pure _)
        λ _.
          Emits-bind _ _
            (Emits-if (escalates c (plan_for lib r c m₀) m₀) _ _
              (λ e.
                escalate-Covers m₀ _
                  (turned_for-Planned lib r c m₀ (plan_for lib r c m₀) (planned lib r c m₀) e))
              (λ _. Emits-pure _))
            (λ q. after_escalation-Covers waits q)

-- Whatever the server answers, a remediation of a Machine answers no request and patches it only
-- within what its checks carry out, by its coverage when the remediation starts. A mark it adds is
-- a restart mark for a signal that calls for a restart, when unpaused checks cover the Machine and
-- every check has a template; or a replacement mark when an unpaused check covers the Machine, for
-- a signal that does not call for a restart, or for a restart that the templates cannot carry out
-- on a Cluster whose restart fallback is a replacement. A mark it turns is a restart mark, for a
-- signal that does not call for a restart, or for one that falls back like that on a Machine that
-- is neither paused nor opted out.
pub remediate-HasCover :
    {S : Type 0} (lib : Library) (r : Config) (client : Client S) (c : Case) (m : Machine)
    (waits : Dict ChecksWait) (server : S)
    → All
        (HasCover lib r c m)
        (remediate lib r client c m waits (record { server = server; effects = [] })).1.effects
remediate-HasCover lib r client c m waits server =
    (remediate-Covers lib r client c m waits).at (record { server = server; effects = [] }) tt
