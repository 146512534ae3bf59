-- ===== src/Capi/Guard.antt =====
-- internal/capi/guard.go: why a Machine is left untouched.
use nvsentinel_capi_remediat.Common.{
  String, ◌==◌, Bool, true, false, ◌&&◌, List, [], ◌∷◌, Option, none, some, has, if◌then◌else◌,
}
use nvsentinel_capi_remediat.Objects.{
  Machine, Condition, Library, remediate_machine_annotation, paused_annotation,
  skip_remediation_annotation, control_plane_label, health_check_succeeded_condition,
}

-- `not_skipped` is the zero value.
pub data SkipReason : Type 0 where
  not_skipped skip_deleting skip_already_marked skip_control_plane skip_paused : SkipReason
  skip_opted_out skip_earlier_mark : SkipReason

-- the text of the constant
unfoldable pub skip_name : SkipReason → String
skip_name not_skipped = ""
skip_name skip_deleting = "MachineDeleting"
skip_name skip_already_marked = "AlreadyMarkedForRemediation"
skip_name skip_control_plane = "ControlPlaneMachine"
skip_name skip_paused = "MachinePaused"
skip_name skip_opted_out = "MachineOptedOutOfRemediation"
skip_name skip_earlier_mark = "EarlierRemediationNotCleared"

unfoldable pub message : SkipReason → String
unfolding skip_name
message skip_deleting = "the Machine is already being deleted"
message skip_already_marked = "the Machine is already marked for remediation"
message skip_control_plane = "the Machine is a control plane member"
message skip_paused = "the Machine is paused"
message skip_opted_out = "the Machine has opted out of remediation"
message skip_earlier_mark = "the MachineHealthChecks still show the mark the Machine carried before"
message s = skip_name s

unfoldable pub in_progress : SkipReason → Bool
in_progress skip_deleting = true
in_progress skip_already_marked = true
in_progress _ = false

unfoldable pub is_control_plane : Machine → Bool
is_control_plane m = has control_plane_label m.labels

unfoldable pub is_marked_for_remediation : Machine → Bool
is_marked_for_remediation m = has remediate_machine_annotation m.annotations

unfoldable pub is_paused : Machine → Bool
is_paused m = has paused_annotation m.annotations

unfoldable pub is_opted_out : Machine → Bool
is_opted_out m = has skip_remediation_annotation m.annotations

unfoldable pub guard : Machine → SkipReason
guard m =
    if m.deleting
    then skip_deleting
    else if is_marked_for_remediation m
    then skip_already_marked
    else if is_control_plane m
    then skip_control_plane
    else if is_paused m
    then skip_paused
    else if is_opted_out m
    then skip_opted_out
    else not_skipped

-- `meta.FindStatusCondition`: the first condition of the type
unfoldable pub find_condition : List Condition → String → Option Condition
find_condition [] type = none
find_condition (c ∷ cs) type = if c.type == type then some c else find_condition cs type

-- the test of the condition that was found
abbrev shows_mark : Library → Option Condition → Bool
shows_mark lib none = false
shows_mark lib (some c) = c.status == "False" && c.reason == lib.has_remediate_annotation_reason

unfoldable pub earlier_mark_pending : Library → Machine → Bool
unfolding find_condition
earlier_mark_pending lib m =
    if is_marked_for_remediation m
    then false
    else shows_mark lib (find_condition m.conditions health_check_succeeded_condition)

-- `if skip := Guard(m); skip != "" { return stop }`
unfoldable pub unless_skipped {ℓ} : {A : Type ℓ} → SkipReason → A → (SkipReason → A) → A
unless_skipped not_skipped go stop = go
unless_skipped skip go stop = stop skip
