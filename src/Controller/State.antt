-- ===== src/Controller/State.antt =====
-- internal/controller/cluster_controller.go: what the reconciler is configured with, what it
-- concludes about a signal, and the texts it makes.
use nvsentinel_capi_remediat.Common.{
  ℕ, ltb, String, ◌⧺◌, ◌==◌, Bool, true, false, ◌&&◌, not, Option, none, some, Dict, lookup,
  is_blank, is_empty, join, if◌then◌else◌,
}
use nvsentinel_capi_remediat.Signal.{Signal}
use nvsentinel_capi_remediat.Decision.{Decision, unset, same_decision, Table}
use nvsentinel_capi_remediat.Objects.{Cluster, Library}
use nvsentinel_capi_remediat.Capi.Guard.{SkipReason, not_skipped, skip_name}

-- `unset_fallback` is the zero value
pub data RestartFallback : Type 0 where
  report_fallback replace_fallback unset_fallback : RestartFallback

unfoldable pub fallback_name : RestartFallback → String
fallback_name report_fallback = "report"
fallback_name replace_fallback = "replace"
fallback_name unset_fallback = ""

unfoldable pub parse_restart_fallback : String → Option RestartFallback
unfolding fallback_name
parse_restart_fallback s =
    if s == fallback_name report_fallback
    then some report_fallback
    else if s == fallback_name replace_fallback
    then some replace_fallback
    else none

abbrev pub restart_fallback_annotation : String
restart_fallback_annotation = "nvsentinel.petasus.io/restart-fallback"

-- the reconciler's exported fields; a poll interval that is not positive counts as 0. Times are in
-- nanoseconds.
pub record Config : Type 0 where
  pub table : Table
  pub dry_run : Bool
  pub interval : ℕ
  pub cluster_selector : Option (Dict String → Bool)
  pub fallback : RestartFallback

abbrev pub default_poll_interval : ℕ
default_poll_interval = 120000000000

unfoldable pub poll_interval : Config → ℕ
poll_interval r = if ltb 0 r.interval then r.interval else default_poll_interval

pub record Answer : Type 0 where
  pub complete : Bool
  pub reason : String
  pub message : String

-- the zero value: nothing to report yet
abbrev pub no_answer : Answer
no_answer = record { complete = false; reason = ""; message = "" }

unfoldable pub given : Answer → Bool
given a = not (is_blank a.reason)

unfoldable pub decline : Signal → String → String → Answer
decline sig reason message =
    if is_blank sig.request
    then no_answer
    else record { complete = false; reason = reason; message = message }

pub record Observation : Type 0 where
  pub decision : Decision
  pub action : String
  pub truncated : Bool
  pub machine : String
  pub request : String
  pub skip : SkipReason
  pub coverage : String
  pub fallback : String
  pub answer : Answer

-- the zero value
abbrev pub no_observation : Observation
no_observation = record {
  decision = unset;
  action = "";
  truncated = false;
  machine = "";
  request = "";
  skip = not_skipped;
  coverage = "";
  fallback = "";
  answer = no_answer;
}

abbrev same_bool : Bool → Bool → Bool
same_bool true b = b
same_bool false b = not b

-- `a == b` of two answers
unfoldable pub same_answer : Answer → Answer → Bool
same_answer a b = same_bool a.complete b.complete && a.reason == b.reason && a.message == b.message

-- `a == b` of two observations
unfoldable pub same_observation : Observation → Observation → Bool
unfolding same_decision same_answer skip_name
same_observation a b =
    same_decision a.decision b.decision
    && a.action == b.action
    && same_bool a.truncated b.truncated
    && a.machine == b.machine
    && a.request == b.request
    && skip_name a.skip == skip_name b.skip
    && a.coverage == b.coverage
    && a.fallback == b.fallback
    && same_answer a.answer b.answer

-- `describe`: a summary of the signal
unfoldable pub describe : Signal → String
unfolding join
describe s =
    s.check
    ⧺ (if is_empty s.error_codes then "" else " " ⧺ join s.error_codes ",")
    ⧺ (if is_empty s.gpu_uuids then "" else " gpu " ⧺ join s.gpu_uuids ",")
    ⧺ (if is_empty s.actions then "" else " (" ⧺ join s.actions "," ⧺ ")")
    ⧺ (if s.truncated then " [truncated]" else "")

unfoldable pub unavailable : Bool → String
unavailable waiting = if waiting then "waiting for the paused checks" else "reported only"

abbrev operator_fallback : RestartFallback → RestartFallback
operator_fallback unset_fallback = report_fallback
operator_fallback f = f

abbrev ignored_note : Library → String → String
ignored_note lib value =
    "; the Cluster's "
    ⧺ restart_fallback_annotation
    ⧺ " annotation is ignored: restart fallback "
    ⧺ lib.quote value
    ⧺ " is neither "
    ⧺ lib.quote "report"
    ⧺ " nor "
    ⧺ lib.quote "replace"

abbrev overridden : Library → RestartFallback → Option String → RestartFallback × String
overridden lib fallback none = (fallback, "")
overridden lib fallback (some value) = elim (parse_restart_fallback value) [
  | none ↦ (fallback, ignored_note lib value)
  | some override ↦ (override, "")
]

-- `restartFallback`: the fallback for the Cluster, with a note on an override that was ignored
unfoldable pub restart_fallback : Library → Config → Cluster → RestartFallback × String
unfolding parse_restart_fallback
restart_fallback lib r cluster =
    overridden lib (operator_fallback r.fallback)
      (lookup restart_fallback_annotation cluster.annotations)
