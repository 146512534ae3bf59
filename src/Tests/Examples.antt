-- ===== src/Tests/Examples.antt =====
-- The theorems applied to the sample workload cluster.
use nvsentinel_capi_remediat.Common.{
  ℕ, zero, suc, ◌≡◌, ◌≢◌, refl, String, ◌==◌, ◌⧺◌, true, false, not, ◌&&◌, List, [], ◌∷◌, ◌++◌,
  none, some, Dict, lookup, has, insert, get_or, eq_iff, arith, All, length, ◌≤◌, ◌<◌, ◌⊎◌, ltb,
  ltb→lt, ◌+◌, exists_in, sort_by, map, str_lt, is_blank, if◌then◌else◌,
}
use nvsentinel_capi_remediat.Objects.{Machine, Node}
use nvsentinel_capi_remediat.Signal.{Signal, external_remediation_request, action_restart_vm}
use nvsentinel_capi_remediat.Decision.{decide, default, new, lookup_action, ok, truncation_note}
use nvsentinel_capi_remediat.Decision.Choice.{
  IsProper, IsFirstBest, decide-IsFirstBest, decide_truncated, whole,
}
use nvsentinel_capi_remediat.Decision.Overrides.{new-last_value, last_value}
use nvsentinel_capi_remediat.World.{World, pure, ◌>>=◌}
use nvsentinel_capi_remediat.Capi.Note.{event_note, event_note_limit, take, marker, action_restart}
use nvsentinel_capi_remediat.Capi.Note.Length.{event_note_fits, Cut}
use nvsentinel_capi_remediat.Capi.Guard.{earlier_mark_pending, is_marked_for_remediation}
use nvsentinel_capi_remediat.Capi.Actuator.{
  RestartRecord, stamp, unstamp, restart_completed, restart_answers, is_ready,
}
use nvsentinel_capi_remediat.Capi.Actuator.Marks.{unstamp-stamp}
use nvsentinel_capi_remediat.Capi.Actuator.Restarts.{restart_completed-stamp}
use nvsentinel_capi_remediat.Capi.Actuator.Writes.{IsAllowed}
use nvsentinel_capi_remediat.Capi.Coverage.{coverage_of, covered, templates_only, ignoring_pause}
use nvsentinel_capi_remediat.Capi.Coverage.Carried.{covered-coverage_of, some_check}
use nvsentinel_capi_remediat.Extrr
use nvsentinel_capi_remediat.Extrr.{condition_complete, condition_status, is_answered, pending}
use nvsentinel_capi_remediat.Extrr.Answering.{answered_not_pending, with_given}
use nvsentinel_capi_remediat.Extrr.Collected.{collect-pending, is_for, asks_for}
use nvsentinel_capi_remediat.Controller.Mode
use nvsentinel_capi_remediat.Controller.State.{Observation, no_observation}
use nvsentinel_capi_remediat.Controller.Waits.{
  ChecksWait, earlier_mark_grace, held_for_checks, next_look,
}
use nvsentinel_capi_remediat.Controller.Waits.Bounded.{
  held_exactly_for_grace, after_looks, next_look-IsInTime, IsInTime, EndsAfter,
}
use nvsentinel_capi_remediat.Controller.Release.{release_restarts}
use nvsentinel_capi_remediat.Controller.Release.Sent.{sent, all_releases, release_restarts-sent}
use nvsentinel_capi_remediat.Controller.Remediate.{remediate}
use nvsentinel_capi_remediat.Controller.Plan.{Case, is_finished, finished}
use nvsentinel_capi_remediat.Controller.Remediate.Covered.{remediate-HasCover}
use nvsentinel_capi_remediat.Controller.Remediate.CalledFor.{HasCover}
use nvsentinel_capi_remediat.Controller.Handle.{
  Input, handle, handle_present, handle_owned, outcome_in, first_observation,
}
use nvsentinel_capi_remediat.Controller.Answers.{release_answered, restart_mark_of}
use nvsentinel_capi_remediat.Controller.Answers.Retries.{release_answered-IsReleaseOf, IsReleaseOf}
use nvsentinel_capi_remediat.World.Sends.{patches}
use nvsentinel_capi_remediat.Controller.Handle.Completes.{handle_complete, IsRestarted}
use nvsentinel_capi_remediat.Controller.Reconcile.{reconcile}
use nvsentinel_capi_remediat.Controller.Safety.{reconcile-IsAllowed}
use nvsentinel_capi_remediat.Controller.Handle.ReportOnly.{handle-IsEvent, IsEvent}
use nvsentinel_capi_remediat.Conditions.{captures, all_captures, is_not_white}
use nvsentinel_capi_remediat.Conditions.Captured.{count-captures, count, stands_in}
use nvsentinel_capi_remediat.Tests.Samples.{
  library, machine, shown_machine, cluster, node, check, request, config, Server, server, client,
  memory,
}

abbrev start : World Server
start = record { server = server; effects = [] }

abbrev sig : Signal
sig = record {
  origin = external_remediation_request;
  node = "node-1";
  check = "GpuXidError";
  id = "e1";
  actions = "MYSTERY" ∷ "NONE" ∷ action_restart_vm ∷ "RESTART_BM" ∷ [];
  error_codes = "48" ∷ [];
  gpu_uuids = [];
  truncated = true;
  request = "err-1";
}

abbrev asked : RestartRecord
asked = record { boot_id = "boot-0"; request = "err-1" }

-- the Machine with a restart mark, whose node came back as boot-a
abbrev marked_machine : Machine
marked_machine = stamp machine action_restart "a fault" asked

reconcile-IsAllowed_example :
    All (IsAllowed false) (reconcile library config client 5 "fleet" "gpu" memory start).1.effects
reconcile-IsAllowed_example =
    reconcile-IsAllowed library config client 5 "fleet" "gpu" memory server

abbrev sample_case : Case
sample_case = record {
  cluster = cluster;
  checks = check ∷ [];
  sig = sig;
  outcome = outcome_in default Mode.external_remediation_request sig;
  node = some node;
  obs = no_observation;
  previous = no_observation;
}

remediate-HasCover_example :
    All
      (HasCover library config sample_case machine)
      (remediate library config client sample_case machine [] start).1.effects
remediate-HasCover_example = remediate-HasCover library config client sample_case machine [] server

abbrev sample_input : Input
sample_input = record {
  cluster = cluster;
  mode = Mode.external_remediation_request;
  checks = check ∷ [];
  sig = sig;
  node = some node;
  previous = no_observation;
}

abbrev machines : Dict Machine
machines = ("node-1", marked_machine) ∷ []

abbrev nodes : Dict Node
nodes = ("node-1", node) ∷ []

abbrev current : Dict Observation
current =
    (
      "node-1/GpuXidError",
      first_observation (outcome_in default Mode.external_remediation_request sig) sig
          (some marked_machine),
    )
    ∷ []

release_restarts-sent_example :
    sent (release_restarts config client "node" machines nodes [] [] start).1.effects
    ≡ sent start.effects
      ++ all_releases config client machines nodes [] []
          (sort_by str_lt (map {A = String × Machine} (λ e. e.0) machines))
release_restarts-sent_example =
    release_restarts-sent config client machines nodes [] [] "node" (refl, tt) start

release_answered-IsReleaseOf_example :
    (patches (release_answered library config client 5 marked_machine "over" start).1.effects ≤ 5)
    × All
        (IsReleaseOf (restart_mark_of marked_machine))
        (release_answered library config client 5 marked_machine "over" start).1.effects
release_answered-IsReleaseOf_example =
    release_answered-IsReleaseOf library config client 5 marked_machine "over" server

restarts_answered :
    (handle library config client sample_input
      (some marked_machine)
      []
      start).0.observation.answer.complete
    ≡ true
unfolding handle handle_present handle_owned pure ◌>>=◌ outcome_in remediate is_finished finished
    lookup default is_marked_for_remediation has stamp insert get_or
restarts_answered = refl

handle_complete_example :
    (m : Machine) × (some marked_machine ≡ some m) × IsRestarted config sample_input m
handle_complete_example =
    handle_complete library config client sample_input (some marked_machine) [] start
      restarts_answered

default_is_new : new [] ≡ ok default
unfolding new
default_is_new = refl

new-last_value_example :
    IsProper default
    × (lookup action_restart_vm default.entries
        ≡ last_value [] action_restart_vm
            (lookup action_restart_vm default.entries)
            (sort_by str_lt []))
new-last_value_example = new-last_value [] default action_restart_vm default_is_new

default-IsProper : IsProper default
default-IsProper = (new-last_value [] default "" default_is_new).0

some_actions : sig.actions ≢ []
some_actions e = cc

decide-IsFirstBest_example :
    IsFirstBest default sig.actions (decide default sig).action
    × ((decide default sig).decision ≡ (lookup_action default (decide default sig).action).0)
decide-IsFirstBest_example = decide-IsFirstBest default sig default-IsProper some_actions

decide_truncated_example :
    ((decide default sig).decision ≡ (decide default (whole sig)).decision)
    × ((decide default sig).action ≡ (decide default (whole sig)).action)
    × ((decide default sig).reason ≡ (
        if true
        then (decide default (whole sig)).reason ⧺ truncation_note
        else (decide default (whole sig)).reason))
decide_truncated_example = decide_truncated default sig

shown : earlier_mark_pending library shown_machine ≡ true
unfolding earlier_mark_pending is_marked_for_remediation has lookup
shown = refl

held_exactly_for_grace_example :
    ((held_for_checks library 10 [] shown_machine).held ≡ true)
    × ((held_for_checks library 61000000000
          (after_looks library shown_machine [] (10 ∷ 70000000000 ∷ 20 ∷ []))
          shown_machine).held
        ≡ ltb 61000000000 (10 + earlier_mark_grace))
unfolding lookup
held_exactly_for_grace_example =
    held_exactly_for_grace library shown_machine [] 10 61000000000 (70000000000 ∷ 20 ∷ []) shown
      refl

abbrev waits : Dict ChecksWait
waits = ("worker-1", record { since = 10; over = false }) ∷ []

next_look-IsInTime_example :
    (0 < next_look 100 120000000000 waits)
    × (next_look 100 120000000000 waits ≤ 120000000000)
    × All {A = String × ChecksWait} (λ e. IsInTime 100 (next_look 100 120000000000 waits) e.1) waits
    × ((next_look 100 120000000000 waits ≡ 120000000000)
        ⊎ EndsAfter 100 (next_look 100 120000000000 waits) waits)
next_look-IsInTime_example = next_look-IsInTime 100 120000000000 waits (ltb→lt 0 120000000000 refl)

released_is_other : "NVSentinelOwnershipReleased" ≢ condition_complete
released_is_other e = ground (arith, (eq_iff _ _).1 e)

answered_not_pending_example :
    (is_answered (with_given library request true "Restarted" "back" 7) ≡ true)
    × (pending (with_given library request true "Restarted" "back" 7) ≡ false)
    × (condition_status
          (with_given library request true "Restarted" "back" 7).conditions
          condition_complete
        ≡ "True")
    × (condition_status
          (with_given library request true "Restarted" "back" 7).conditions
          "NVSentinelOwnershipReleased"
        ≡ condition_status request.conditions "NVSentinelOwnershipReleased")
answered_not_pending_example =
    answered_not_pending library request true "Restarted" "back" 7 "NVSentinelOwnershipReleased"
      released_is_other

collect-pending_example :
    exists_in (is_for "err-1" "node-1") (Extrr.collect (request ∷ []))
    ≡ exists_in (asks_for "err-1" "node-1") (request ∷ [])
collect-pending_example = collect-pending "err-1" "node-1" (request ∷ [])

covered-coverage_of_example :
    (covered (coverage_of library (check ∷ []) machine)
      ≡ some_check library (check ∷ []) machine (λ mhc. not (library.has_paused mhc.annotations)))
    × (templates_only (coverage_of library (check ∷ []) machine) ≡ (
        some_check library (check ∷ []) machine (λ mhc. not (library.has_paused mhc.annotations))
        && not (
            some_check library
              (check ∷ [])
              machine
              (λ mhc. not (library.is_defined mhc.template_ref)))))
    × (covered (ignoring_pause (coverage_of library (check ∷ []) machine))
        ≡ some_check library (check ∷ []) machine (λ mhc. true))
covered-coverage_of_example = covered-coverage_of library (check ∷ []) machine

restart_completed-stamp_example :
    (restart_completed marked_machine (some node)
      ≡ (not (is_blank "boot-a") && not ("boot-a" == "boot-0") && is_ready node.conditions))
    × (restart_completed marked_machine none ≡ false)
    × (restart_answers marked_machine "err-2" ≡ ("err-1" == "err-2"))
restart_completed-stamp_example =
    restart_completed-stamp machine "a fault" "err-2" asked node refl refl

unstamp-stamp_example :
    lookup "owner" (unstamp marked_machine).annotations ≡ lookup "owner" machine.annotations
unfolding lookup
unstamp-stamp_example =
    unstamp-stamp machine action_restart "a fault" asked "owner" (refl, refl, refl, refl, refl)

abbrev bytes : ℕ → List ℕ
bytes zero = []
bytes (suc n) = 0xe2 ∷ 0x82 ∷ 0xac ∷ bytes n

event_note_fits_example :
    (length (event_note (bytes 400)) ≤ event_note_limit)
    × ((length (bytes 400) ≤ event_note_limit) × (event_note (bytes 400) ≡ bytes 400)
        ⊎ (event_note_limit < length (bytes 400))
          × ((cut : ℕ) × Cut (bytes 400) 1021 cut
              × (event_note (bytes 400) ≡ take cut (bytes 400) ++ marker)))
event_note_fits_example = event_note_fits (bytes 400)

abbrev report_only_input : Input
report_only_input = record sample_input { mode = Mode.report_only_mode }

handle-IsEvent_example :
    All IsEvent (handle library config client report_only_input (some machine) [] start).1.effects
handle-IsEvent_example =
    handle-IsEvent library config client report_only_input (some machine) [] server refl

abbrev some_events : List String
some_events = "ErrorCode:48 ErrorCode:79 x" ∷ "ErrorCode:48 y" ∷ []

count-captures_example :
    count "48" (captures "ErrorCode:" is_not_white some_events)
    ≡ (if stands_in "48" (all_captures "ErrorCode:" is_not_white some_events) then 1 else 0)
count-captures_example = count-captures "48" "ErrorCode:" is_not_white some_events
