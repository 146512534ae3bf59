-- ===== src/Capi/Actuator/Writes.antt =====
-- What the actuator writes and records: only outside a dry run, only on Machines that it may touch,
-- and no annotation but the operator's.
use nvsentinel_capi_remediat.Common.{
  String, ◌≡◌, refl, Bool, true, false, not, ◌||◌, ◌≤◌, Option, none, some, length, arith,
}
use nvsentinel_capi_remediat.Objects.{Machine}
use nvsentinel_capi_remediat.World.{
  M, Result, ok, err, Client, patch, Effect, patched, answered, recorded, EventType,
}
use nvsentinel_capi_remediat.World.Emits.{
  Emits, emits_rules, Emits-pure, Emits-write, Emits-if, Emits-record_event, Emits-bind,
}
use nvsentinel_capi_remediat.Capi.Note.{utf8, event_note_limit, action_remediate, action_restart}
use nvsentinel_capi_remediat.Capi.Note.Length.{event_note_fits}
use nvsentinel_capi_remediat.Capi.Guard.{
  SkipReason, not_skipped, guard, unless_skipped, is_marked_for_remediation, in_progress,
}
use nvsentinel_capi_remediat.Extrr.{pending, is_answered}
use nvsentinel_capi_remediat.Capi.Actuator.{
  RestartRecord, marked_action, marked_for, machine_event, after_patch, mark_for_remediation,
  record_skipped, release, release_as, escalate,
}
use nvsentinel_capi_remediat.Capi.Actuator.Marks.{
  ChangesOwn, stamp-ChangesOwn, unstamp-ChangesOwn, restamp-ChangesOwn, is_marked-stamp,
  is_marked-unstamp, marked_action-restamp,
}

-- A patch marks a Machine that passes every guard, or releases one that this operator marked, or
-- turns this operator's restart mark into a replacement mark; the last two under the lock, on a
-- Machine that is not being deleted.
pub data IsSafePatch (lock : Bool) (base updated : Machine) : Type 0 where
  marks :
      guard base ≡ not_skipped
      → is_marked_for_remediation updated ≡ true
      → ChangesOwn base updated
      → IsSafePatch lock base updated
  releases :
      lock ≡ true
      → base.deleting ≡ false
      → (action : String) → marked_action base ≡ some action
      → is_marked_for_remediation updated ≡ false
      → ChangesOwn base updated
      → IsSafePatch lock base updated
  escalates :
      lock ≡ true
      → base.deleting ≡ false
      → marked_for base action_restart ≡ true
      → marked_action updated ≡ some action_remediate
      → ChangesOwn base updated
      → IsSafePatch lock base updated

-- An effect happens only outside a dry run; a patch is safe, an Event's note fits the events API,
-- an answer goes to a
-- pending request and answers it.
abbrev pub IsAllowed : Bool → Effect → Type 0
IsAllowed dry (patched lock base updated) = (dry ≡ false) × IsSafePatch lock base updated
IsAllowed dry (answered obj items) =
    (dry ≡ false) × (pending obj ≡ true) × (is_answered (record obj { conditions = items }) ≡ true)
IsAllowed dry (recorded e) = (dry ≡ false) × (length e.note ≤ event_note_limit)
IsAllowed dry _ = ⊥

machine_event-IsAllowed :
    (dry : Bool) (m : Machine) (type : EventType) (reason action note : String)
    → dry ≡ false
    → IsAllowed dry (recorded (machine_event m type reason action note))
unfolding machine_event
machine_event-IsAllowed dry m type reason action note d = (d, (event_note_fits (utf8 note)).0)

module _ {S : Type 0} (client : Client S) (dry : Bool) where
  pub unless_skipped-Emits :
      {A : Type 0} (s : SkipReason) (go : M S A) (stop : SkipReason → M S A)
      → (s ≡ not_skipped → Emits (IsAllowed dry) go)
      → ((k : SkipReason) → Emits (IsAllowed dry) (stop k))
      → Emits (IsAllowed dry) (unless_skipped s go stop)
  unfolding unless_skipped
  unless_skipped-Emits not_skipped go stop g h = g refl
  unless_skipped-Emits s go stop g h = h s

  patch-Emits :
      (lock : Bool) (base updated : Machine)
      → dry ≡ false
      → IsSafePatch lock base updated
      → Emits (IsAllowed dry) (patch client lock base updated)
  unfolding patch
  patch-Emits lock base updated d s = Emits-write _ _ (d, s)

  after_patch-Emits :
      {A : Type 0} (m : Machine) (a : A) (type : EventType) (reason action note : String)
      (r : Result Machine)
      → dry ≡ false
      → Emits (IsAllowed dry) (after_patch client dry m a type reason action note r)
  unfolding after_patch
  after_patch-Emits m a type reason action note (ok m') d =
      search (emits_rules, machine_event-IsAllowed)
  after_patch-Emits m a type reason action note (err e) d = search emits_rules

  -- what a marking does
  pub mark_for_remediation-Emits :
      (m : Machine) (action reason : String) (r : RestartRecord)
      → Emits (IsAllowed dry) (mark_for_remediation client dry m action reason r)
  unfolding mark_for_remediation
  mark_for_remediation-Emits m action reason r =
      unless_skipped-Emits (guard m) _ _
        (λ g.
          Emits-if dry _ _ (λ _. Emits-pure _)
            (λ d. search (
              emits_rules, patch-Emits, after_patch-Emits, IsSafePatch.marks, is_marked-stamp,
              stamp-ChangesOwn,
            )))
        (λ s. Emits-pure _)

  pub record_skipped-Emits :
      (m : Machine) (skip : SkipReason) (action reason : String)
      → Emits (IsAllowed dry) (record_skipped client dry m skip action reason)
  unfolding record_skipped
  record_skipped-Emits m not_skipped action reason = search emits_rules
  record_skipped-Emits m skip action reason =
      Emits-if (dry || in_progress skip) _ _ (λ _. Emits-pure _)
        (λ d. Emits-record_event _ (machine_event-IsAllowed dry m _ _ _ _ (ground arith)))

  release_as-Emits :
      (m : Machine) (reason : String) (mark : Option String)
      → marked_action m ≡ mark
      → Emits (IsAllowed dry) (release_as client dry m reason mark)
  release_as-Emits m reason none e = Emits-pure _
  release_as-Emits m reason (some a) e =
      Emits-if m.deleting _ _ (λ _. Emits-pure _)
        λ live.
          Emits-if dry _ _ (λ _. Emits-pure _)
            λ d. search (
              emits_rules, patch-Emits, after_patch-Emits, IsSafePatch.releases, is_marked-unstamp,
              unstamp-ChangesOwn,
            )

  pub release-Emits :
      (m : Machine) (reason : String) → Emits (IsAllowed dry) (release client dry m reason)
  unfolding release
  release-Emits m reason = release_as-Emits m reason (marked_action m) refl

  pub escalate-Emits :
      (m : Machine) (reason : String) → Emits (IsAllowed dry) (escalate client dry m reason)
  unfolding escalate
  escalate-Emits m reason =
      Emits-if (not (marked_for m action_restart) || m.deleting) _ _ (λ _. Emits-pure _)
        λ ours.
          Emits-if dry _ _ (λ _. Emits-pure _)
            λ d.
              Emits-bind _ _
                (patch-Emits _ _ _ d (
                  IsSafePatch.escalates refl (ground arith) (ground arith)
                    (marked_action-restamp m reason (ground arith)) (restamp-ChangesOwn m reason)))
                (λ r. after_patch-Emits _ _ _ _ _ _ r d)
