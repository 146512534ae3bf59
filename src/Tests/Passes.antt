-- ===== src/Tests/Passes.antt =====
-- Whole passes over the sample cluster, run.
use nvsentinel_capi_remediat.Tests.Samples.{
  library, config, client, memory, machine, server, Server,
}
use nvsentinel_capi_remediat.Common.{◌≡◌, refl, length, [], true, none, some}
use nvsentinel_capi_remediat.Common.{
  lookup, has, insert, remove, get_or, insert_by, sort_by, join, is_space, trim_left, trim_right,
  trim, split, cut, cut_prefix, equal_fold, str_lt,
}
use nvsentinel_capi_remediat.World.{World, pure, ◌>>=◌, ◌>>◌, record_event, read, write, patch}
use nvsentinel_capi_remediat.Capi.Guard.{
  skip_name, message, in_progress, is_control_plane, is_marked_for_remediation, is_paused,
  is_opted_out, guard, find_condition, earlier_mark_pending, unless_skipped,
}
use nvsentinel_capi_remediat.Capi.Coverage.{
  covered, templates_only, ignoring_pause, describe_check, describe, selects, covering_check,
  coverage_of, list_health_checks,
}
use nvsentinel_capi_remediat.Capi.Note.{
  remediation_boot_id_annotation, remediation_request_annotation, utf8, byte_at, take, back_up,
  event_note,
}
use nvsentinel_capi_remediat.Capi.Actuator.{
  annotation, marked_action, machine_event, stamp, unstamp, restamp, marked_for, after_patch,
  mark_for_remediation, record_skipped, release, escalate, is_ready, restart_completed,
  restart_answers,
}
use nvsentinel_capi_remediat.Signal.{is_known_action, origin_name, key}
use nvsentinel_capi_remediat.Decision.{
  decision_name, rank, more_disruptive_than, same_decision, first_named, parse_decision, default,
  override, override_all, new, parse_pair, parse_pairs, parse_overrides, custom_actions,
  lookup_action, consider, consider_all, explain, decide,
}
use nvsentinel_capi_remediat.Extrr.{
  name_of, numbered_action, named_action, recommended_action, gpu_uuids, parse, condition_status,
  is_answered, pending, signals_of, collect, pending_result, replace_conditions, with_answer,
  answer_of, is_pending, sent, answer_request, answer,
}
use nvsentinel_capi_remediat.Controller.Mode.{
  mode_name, same_mode, is_served, select_mode, describe_mode, report_only,
}
use nvsentinel_capi_remediat.Controller.State.{
  fallback_name, parse_restart_fallback, poll_interval, given, decline, same_answer,
  same_observation, unavailable, restart_fallback,
}
use nvsentinel_capi_remediat.Controller.Waits.{
  within_grace, held_at, held_for_checks, sooner, next_look, forget_waits,
}
use nvsentinel_capi_remediat.Controller.Plan.{
  plan_for, explained, is_finished, finished, escalates, skipped, with_coverage, waiting_for_checks,
  is_unavailable, declined, record_for,
}
use nvsentinel_capi_remediat.Controller.Remediate.{
  report, after_mark, mark, hold_or_mark, remediate_covered, remediate_guarded, after_escalation,
  remediate,
}
use nvsentinel_capi_remediat.Controller.Handle.{
  outcome_in, first_observation, handle_unowned, handle_reported, handle_owned, handle_present,
  handle,
}
use nvsentinel_capi_remediat.Controller.Answers.{
  restart_mark_of, same_mark, is_conflict, attempted, release_again, retry_release,
  release_answered, answered_subject, answered_event, release_owner, after_answer,
}
use nvsentinel_capi_remediat.Controller.Release.{
  node_of, holds_nothing, calls, is_leftover, hold, hold_all, is_releasable, after_release,
  release_if, release_round, release_all, release_restarts,
}
use nvsentinel_capi_remediat.Controller.Memory.{
  forget, forget_waits_of, remember, remember_would_release, note_mode, nodes_by_name,
  machines_by_node, is_left_alone,
}
use nvsentinel_capi_remediat.Controller.Loop.{
  conclude, act, after_pending, round, rounds, release_unless,
}
use nvsentinel_capi_remediat.Controller.Reconcile.{
  work, after_live, with_live, with_nodes, with_checks, with_machines, with_signals, collected,
  note, watch, with_mode, with_connection, with_cluster, reconcile,
}
use nvsentinel_capi_remediat.Controller.State
use nvsentinel_capi_remediat.Controller.Answers
use nvsentinel_capi_remediat.Controller.Reconcile

abbrev pass : Server → World Server
pass s =
    (reconcile library config client 5 "fleet" "gpu" memory (record { server = s; effects = [] })).1

-- the Machine is marked for a restart, with the boot ID of its node and the request
first_pass :
    (length (pass server).effects ≡ 3)
    × (marked_action (pass server).server.machine ≡ some "Restart")
    × (annotation remediation_boot_id_annotation (pass server).server.machine ≡ "boot-a")
    × (annotation remediation_request_annotation (pass server).server.machine ≡ "err-1")
unfolding lookup has insert remove get_or insert_by sort_by join is_space trim_left trim_right trim
    split cut cut_prefix equal_fold str_lt pure ◌>>=◌ ◌>>◌ record_event read write patch skip_name
    message in_progress is_control_plane is_marked_for_remediation is_paused is_opted_out guard
    find_condition earlier_mark_pending unless_skipped covered templates_only ignoring_pause
    describe_check describe selects covering_check coverage_of list_health_checks utf8 byte_at take
    back_up event_note marked_action machine_event stamp unstamp restamp marked_for after_patch
    mark_for_remediation record_skipped release escalate is_ready restart_completed restart_answers
    is_known_action origin_name key decision_name rank more_disruptive_than same_decision
    first_named parse_decision default override override_all new parse_pair parse_pairs
    parse_overrides custom_actions lookup_action consider consider_all explain decide name_of
    numbered_action named_action recommended_action gpu_uuids parse condition_status is_answered
    pending signals_of collect pending_result replace_conditions with_answer answer_of is_pending
    sent answer_request answer mode_name same_mode is_served select_mode describe_mode report_only
    fallback_name parse_restart_fallback poll_interval given decline same_answer same_observation
    unavailable restart_fallback within_grace held_at held_for_checks sooner next_look forget_waits
    plan_for explained is_finished finished escalates skipped with_coverage waiting_for_checks
    is_unavailable declined record_for report after_mark mark hold_or_mark remediate_covered
    remediate_guarded after_escalation remediate outcome_in first_observation handle_unowned
    handle_reported handle_owned handle_present handle restart_mark_of same_mark is_conflict
    attempted release_again retry_release release_answered answered_subject answered_event
    release_owner after_answer node_of holds_nothing calls is_leftover hold hold_all is_releasable
    after_release release_if release_round release_all release_restarts forget forget_waits_of
    remember remember_would_release note_mode nodes_by_name machines_by_node is_left_alone conclude
    act after_pending round rounds release_unless work after_live with_live with_nodes with_checks
    with_machines with_signals collected note watch with_mode with_connection with_cluster reconcile
    State.describe Answers.answer Reconcile.collect
first_pass = (refl, refl, refl, refl)

-- the Machine was marked when its node showed another boot ID
abbrev restarted_server : Server
restarted_server = record server {
  machine = stamp machine "Restart" "a fault" (record { boot_id = "boot-0"; request = "err-1" });
}

-- the request is answered and the Machine released
second_pass :
    (length (pass restarted_server).effects ≡ 5)
    × (is_answered (pass restarted_server).server.request ≡ true)
    × (marked_action (pass restarted_server).server.machine ≡ none)
unfolding lookup has insert remove get_or insert_by sort_by join is_space trim_left trim_right trim
    split cut cut_prefix equal_fold str_lt pure ◌>>=◌ ◌>>◌ record_event read write patch skip_name
    message in_progress is_control_plane is_marked_for_remediation is_paused is_opted_out guard
    find_condition earlier_mark_pending unless_skipped covered templates_only ignoring_pause
    describe_check describe selects covering_check coverage_of list_health_checks utf8 byte_at take
    back_up event_note marked_action machine_event stamp unstamp restamp marked_for after_patch
    mark_for_remediation record_skipped release escalate is_ready restart_completed restart_answers
    is_known_action origin_name key decision_name rank more_disruptive_than same_decision
    first_named parse_decision default override override_all new parse_pair parse_pairs
    parse_overrides custom_actions lookup_action consider consider_all explain decide name_of
    numbered_action named_action recommended_action gpu_uuids parse condition_status is_answered
    pending signals_of collect pending_result replace_conditions with_answer answer_of is_pending
    sent answer_request answer mode_name same_mode is_served select_mode describe_mode report_only
    fallback_name parse_restart_fallback poll_interval given decline same_answer same_observation
    unavailable restart_fallback within_grace held_at held_for_checks sooner next_look forget_waits
    plan_for explained is_finished finished escalates skipped with_coverage waiting_for_checks
    is_unavailable declined record_for report after_mark mark hold_or_mark remediate_covered
    remediate_guarded after_escalation remediate outcome_in first_observation handle_unowned
    handle_reported handle_owned handle_present handle restart_mark_of same_mark is_conflict
    attempted release_again retry_release release_answered answered_subject answered_event
    release_owner after_answer node_of holds_nothing calls is_leftover hold hold_all is_releasable
    after_release release_if release_round release_all release_restarts forget forget_waits_of
    remember remember_would_release note_mode nodes_by_name machines_by_node is_left_alone conclude
    act after_pending round rounds release_unless work after_live with_live with_nodes with_checks
    with_machines with_signals collected note watch with_mode with_connection with_cluster reconcile
    State.describe Answers.answer Reconcile.collect
second_pass = (refl, refl, refl)
