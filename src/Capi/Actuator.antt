-- ===== src/Capi/Actuator.antt =====
-- internal/capi/remediate.go and release.go: marking a Machine for remediation, releasing it, and
-- turning a restart mark into a replacement mark. The Machine that a call updates in place is
-- returned beside its result.
pub mod Marks
pub mod Writes
pub mod Restarts
use nvsentinel_capi_remediat.Common.{
  String, ◌⧺◌, ◌==◌, Bool, true, false, ◌&&◌, ◌||◌, not, List, [], ◌∷◌, Option, none, some, Dict,
  lookup, has, insert, remove, get_or, is_blank, if◌then◌else◌,
}
use nvsentinel_capi_remediat.Objects.{Machine, Node, Condition, remediate_machine_annotation}
use nvsentinel_capi_remediat.World.{
  M, pure, ◌>>=◌, ◌>>◌, Result, ok, err, Client, patch, Event, EventType, normal, warning,
  machine_subject, record_event,
}
use nvsentinel_capi_remediat.Capi.Note.{
  utf8, event_note, action_remediate, action_restart, remediation_reason_annotation,
  remediation_action_annotation, remediation_boot_id_annotation, remediation_request_annotation,
  event_marked_for_remediation, event_remediation_skipped, event_remediation_released,
}
use nvsentinel_capi_remediat.Capi.Guard.{
  SkipReason, not_skipped, guard, is_marked_for_remediation, message, in_progress, unless_skipped,
}

pub record RestartRecord : Type 0 where
  pub boot_id : String
  pub request : String

abbrev pub annotation : String → Machine → String
annotation key m = get_or "" key m.annotations

-- `MarkedAction`: the action of this operator's mark
unfoldable pub marked_action : Machine → Option String
marked_action m =
    if is_marked_for_remediation m then lookup remediation_action_annotation m.annotations else none

-- an Event on the Machine
unfoldable pub machine_event : Machine → EventType → String → String → String → Event
unfolding event_note utf8
machine_event m type reason action note = record {
  subject = machine_subject m.namespace m.name;
  type = type;
  reason = reason;
  action = action;
  note = event_note (utf8 note);
}

abbrev set_unless_blank : String → String → Dict String → Dict String
set_unless_blank key value d = if is_blank value then d else insert key value d

-- the Machine that `MarkForRemediation` asks for
unfoldable pub stamp : Machine → String → String → RestartRecord → Machine
stamp m action reason restart = record m {
  annotations = set_unless_blank remediation_request_annotation restart.request (
      set_unless_blank remediation_boot_id_annotation restart.boot_id (
        insert remediation_action_annotation action (
          insert remediation_reason_annotation reason
            (insert remediate_machine_annotation "" m.annotations))));
}

-- the Machine that `Release` asks for
unfoldable pub unstamp : Machine → Machine
unstamp m = record m {
  annotations = remove remediation_request_annotation (
      remove remediation_boot_id_annotation (
        remove remediation_action_annotation (
          remove remediation_reason_annotation
            (remove remediate_machine_annotation m.annotations))));
}

-- the Machine that `Escalate` asks for
unfoldable pub restamp : Machine → String → Machine
restamp m reason = record m {
  annotations = remove remediation_request_annotation (
      remove remediation_boot_id_annotation (
        insert remediation_reason_annotation reason
          (insert remediation_action_annotation action_remediate m.annotations)));
}

abbrev pub is_action : String → Option String → Bool
is_action action none = false
is_action action (some a) = a == action

-- whether the mark is this operator's, for the action
unfoldable pub marked_for : Machine → String → Bool
unfolding marked_action
marked_for m action = is_action action (marked_action m)

module _ {S : Type 0} (client : Client S) (dry_run : Bool) where
  -- what follows the patch: the Event on success, with the Machine as the server returned it
  unfoldable pub after_patch :
      {A : Type 0}
      → Machine
      → A
      → EventType
      → String
      → String
      → String
      → Result Machine
      → M S (Result A × Machine)
  after_patch m a type reason action note (ok m') = do
    record_event (machine_event m' type reason action note)
    pure (ok a, m')
  after_patch m a type reason action note (err e) = pure (err e, m)

  unfoldable pub mark_for_remediation :
      Machine → String → String → RestartRecord → M S (Result SkipReason × Machine)
  mark_for_remediation m action reason restart =
      unless_skipped (guard m)
        (if dry_run then pure (ok not_skipped, m) else do
          r ← patch client false m (stamp m action reason restart)
          after_patch m not_skipped warning event_marked_for_remediation action
              ("Marked for remediation: " ⧺ reason) r)
        (λ skip. pure (ok skip, m))

  -- `RecordSkipped`
  unfoldable pub record_skipped : Machine → SkipReason → String → String → M S (Unit {0})
  record_skipped m not_skipped action reason = pure tt
  record_skipped m skip action reason =
      if dry_run || in_progress skip
      then pure tt
      else record_event (
          machine_event m warning event_remediation_skipped action
            ("Remediation skipped because " ⧺ message skip ⧺ ": " ⧺ reason))

  abbrev pub release_as : Machine → String → Option String → M S (Result Bool × Machine)
  release_as m reason none = pure (ok false, m)
  release_as m reason (some action) =
      if m.deleting then pure (ok false, m) else if dry_run then pure (ok true, m) else do
        r ← patch client true m (unstamp m)
        after_patch m true normal event_remediation_released action
            ("Released from remediation: " ⧺ reason) r

  unfoldable pub release : Machine → String → M S (Result Bool × Machine)
  release m reason = release_as m reason (marked_action m)

  unfoldable pub escalate : Machine → String → M S (Result Bool × Machine)
  escalate m reason =
      if not (marked_for m action_restart) || m.deleting
      then pure (ok false, m)
      else if dry_run
      then pure (ok true, m)
      else do
        r ← patch client true m (restamp m reason)
        after_patch m true warning event_marked_for_remediation action_remediate
            ("Restart escalated to a replacement: " ⧺ reason) r

-- the first Ready condition of the node
unfoldable pub is_ready : List Condition → Bool
is_ready [] = false
is_ready (c ∷ cs) = if c.type == "Ready" then c.status == "True" else is_ready cs

unfoldable pub restart_completed : Machine → Option Node → Bool
unfolding marked_for is_ready
restart_completed m none = false
restart_completed m (some node) =
    let recorded = annotation remediation_boot_id_annotation m in
    let current = node.boot_id in
    if not (marked_for m action_restart)
    then false
    else if is_blank recorded || is_blank current || current == recorded
    then false
    else is_ready node.conditions

unfoldable pub restart_answers : Machine → String → Bool
restart_answers m request =
    let asked = annotation remediation_request_annotation m in is_blank asked || asked == request
