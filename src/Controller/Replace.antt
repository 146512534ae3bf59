-- ===== src/Controller/Replace.antt =====
-- internal/controller/quarantine_controller.go: the replacement of a Machine whose devices are faulty.
pub mod Warrant
pub mod Sides
pub mod Calls
pub mod Due
pub mod Order
pub mod Outcomes
pub mod Resumed
pub mod Passing
pub mod Leads
pub mod Started
use nvsentinel_capi_remediat.Common.{
  ℕ, String, ◌⧺◌, ◌==◌, Bool, true, false, not, ◌&&◌, ◌||◌, List, [], ◌∷◌, map, Option, none, some,
  lookup, insert, remove, get_or, join, is_blank, Dict, if◌then◌else◌,
}
use nvsentinel_capi_remediat.Objects.{Machine, Cluster, OwnerReference, Library}
use nvsentinel_capi_remediat.World.{
  M, pure, read, write, record_event, Result, ok, err, not_found, ApiError, forbidden, Client,
  patch, deleted, warning,
}
use nvsentinel_capi_remediat.World
use nvsentinel_capi_remediat.Capi.Guard.{
  SkipReason, skip_already_marked, skip_control_plane, skip_paused, skip_opted_out, skip_name,
  message, is_control_plane, is_marked_for_remediation, is_paused, is_opted_out,
}
use nvsentinel_capi_remediat.Capi.Actuator.{machine_event}
use nvsentinel_capi_remediat.Quarantine.Device.{Device, device_text, list_devices}
use nvsentinel_capi_remediat.Quarantine.Request.{
  replace_annotation, replace_status_annotation, status_quarantining, status_replacing,
  rejected_status, is_rejected, reason_forbidden, parse_request, select,
}
use nvsentinel_capi_remediat.Quarantine.Naming.{rule_name}
use nvsentinel_capi_remediat.Quarantine.Client.{Apis, Toolkit}
use nvsentinel_capi_remediat.Quarantine.Try.{
  Try, done, failed, Failure, rejection, api_error, plain_error, is_api_conflict,
}
use nvsentinel_capi_remediat.Quarantine.Rules.{Owner, covers, ensure, exists_rule, of}
use nvsentinel_capi_remediat.Quarantine.Locator.{devices}
use nvsentinel_capi_remediat.Controller.Steps.{
  Step, next, ended, broken, P, ◌>>=◌, continue, end, break,
}

abbrev pub action_quarantine : String
action_quarantine = "Quarantine"

abbrev pub event_quarantine_rejected : String
event_quarantine_rejected = "QuarantineRejected"

abbrev pub event_devices_quarantined : String
event_devices_quarantined = "DevicesQuarantined"

abbrev pub event_machine_replaced : String
event_machine_replaced = "MachineReplaced"

abbrev pub quarantine_cluster_paused : String
quarantine_cluster_paused = "ClusterPaused"

abbrev pub quarantine_not_replaceable : String
quarantine_not_replaceable = "NotReplaceable"

-- in nanoseconds
abbrev pub conflict_retry : ℕ
conflict_retry = 1000000000

-- the reconciler's exported fields besides its clients
pub record Quarantiner : Type 0 where
  pub drivers : List String
  pub dry_run : Bool
  pub cluster_selector : Option (Dict String → Bool)

-- what a call of `Reconcile` returns: nothing more to do, another look after a while, or an error
pub data Verdict : Type 0 where
  settled : Verdict
  again_after : ℕ → Verdict
  error : Failure → Verdict

-- the lines of `ownedByMachineSet` on the controller that was found
abbrev pub is_machine_set : Toolkit → Option OwnerReference → Bool
is_machine_set tools none = false
is_machine_set tools (some ref) =
    ref.kind == "MachineSet" && is_group (tools.parse_group ref.api_version)
  where
    is_group : Option String → Bool
    is_group none = false
    is_group (some group) = group == tools.cluster_group

-- `ownedByMachineSet`
unfoldable pub owned_by_machine_set : Toolkit → Machine → Bool
owned_by_machine_set tools m = is_machine_set tools (tools.controller_of m.owners)

abbrev skipped_for : SkipReason → Option (String × String)
skipped_for skip = some (skip_name skip, message skip)

-- `guardReplace`: the reason and the message, or `none`
unfoldable pub guard_replace : Library → Toolkit → Cluster → Machine → Option (String × String)
unfolding owned_by_machine_set is_control_plane is_marked_for_remediation is_paused is_opted_out
    skip_name message
guard_replace lib tools cluster m =
    if lib.is_paused cluster
    then some (quarantine_cluster_paused, "the Cluster is paused")
    else if is_control_plane m
    then skipped_for skip_control_plane
    else if is_marked_for_remediation m
    then some (
      skip_name skip_already_marked,
      "the Machine is marked for remediation, so its VM may be restarted with other devices or replaced meanwhile; ask again once the mark is gone",
    )
    else if is_paused m
    then skipped_for skip_paused
    else if is_opted_out m
    then skipped_for skip_opted_out
    else if not (owned_by_machine_set tools m)
    then some
        (quarantine_not_replaceable, "no MachineSet owns the Machine, so nothing would replace it")
    else none

-- `ruleList`
unfoldable pub list_rules : Toolkit → List Device → String
unfolding join device_text rule_name
list_rules tools ds =
    join (map (λ d. device_text d ⧺ " (" ⧺ rule_name tools.sha256 d ⧺ ")") ds) ", "

-- whether the status annotation is as `setStatus` is to leave it
abbrev pub is_set_to : Option String → String → Bool
is_set_to none status = is_blank status
is_set_to (some current) status = current == status

-- the Machine that `setStatus` sends
unfoldable pub with_status : Machine → String → Machine
unfolding insert remove
with_status m status = record m {
  annotations =
      if is_blank status
      then remove replace_status_annotation m.annotations
      else insert replace_status_annotation status m.annotations;
}

abbrev pub is_selected : Option (Dict String → Bool) → Cluster → Bool
is_selected none cluster = true
is_selected (some matches) cluster = matches cluster.labels

abbrev pub machine_path : Machine → String
machine_path m = m.namespace ⧺ "/" ⧺ m.name

abbrev pub owner_of : Cluster → Machine → Owner
owner_of cluster m = record { namespace = m.namespace; name = m.name; cluster = cluster.name }

module _ {S : Type 0} (lib : Library) (tools : Toolkit) (r : Quarantiner) (client : Client S)
    (apis : Apis S) where
  -- an Event on the Machine
  unfoldable pub note_event : Machine → String → String → P S (Unit {0})
  note_event m reason note =
      World.◌>>=◌ (record_event (machine_event m warning reason action_quarantine note))
        (λ u. continue u)

  -- `setStatus`, on the result of the patch
  unfoldable pub status_set : Machine → Result Machine → P S Machine
  status_set m (ok m') = continue m'
  status_set m (err e) = break (api_error ("patch machine " ⧺ machine_path m ⧺ ": ") e)

  -- `setStatus`: the Machine after it
  unfoldable pub set_status : Machine → String → P S Machine
  unfolding lookup
  set_status m status =
      if is_set_to (lookup replace_status_annotation m.annotations) status
      then continue m
      else World.◌>>=◌ (patch client true m (with_status m status)) (λ q. status_set m q)

  -- `reject`
  unfoldable pub reject : {A : Type 0} → Machine → String → String → String → P S A
  reject m request reason text = if r.dry_run then end else do
    m' ← set_status m (rejected_status reason)
    u ←
        note_event m' event_quarantine_rejected
          ("Replace request " ⧺ lib.quote request ⧺ " rejected (" ⧺ reason ⧺ "): " ⧺ text)
    end

  -- `fail`
  unfoldable pub fail : {A : Type 0} → Machine → String → Failure → P S A
  fail m request (rejection reason text) = reject m request reason text
  fail m request (api_error context forbidden) =
      reject m request reason_forbidden (context ⧺ tools.error_text forbidden)
  fail m request e = break e

  -- `if err != nil { return r.fail(…) }`
  unfoldable pub or_fail : {A : Type 0} → Machine → String → Try A → P S A
  or_fail m request (done a) = continue a
  or_fail m request (failed e) = fail m request e

  unfoldable pub trying : {A : Type 0} → Machine → String → M S (Try A) → P S A
  trying m request m' = World.◌>>=◌ m' (λ t. or_fail m request t)

  -- the first loop of `quarantine`
  unfoldable pub ensure_all : Machine → String → Owner → List Device → P S (Unit {0})
  ensure_all m request owner [] = continue tt
  ensure_all m request owner (d ∷ ds) = do
    was_created ← trying m request (ensure lib tools client apis d owner)
    ensure_all m request owner ds

  unfoldable pub missing_unless : Device → Bool → P S (Unit {0})
  missing_unless d true = continue tt
  missing_unless d false = break (
      plain_error (
        "DeviceTaintRule "
        ⧺ rule_name tools.sha256 d
        ⧺ " for "
        ⧺ device_text d
        ⧺ " is missing right after it was made"))

  -- the second loop of `quarantine`
  unfoldable pub exist_all : Machine → String → List Device → P S (Unit {0})
  exist_all m request [] = continue tt
  exist_all m request (d ∷ ds) = do
    there ← trying m request (exists_rule lib tools client apis d)
    u ← missing_unless d there
    exist_all m request ds

  -- `if status != quarantine.StatusReplacing { … }`
  unfoldable pub set_unless_replacing : Machine → String → String → P S Machine
  set_unless_replacing m status wanted =
      if status == status_replacing then continue m else set_status m wanted

  -- `quarantine`: the Machine and its devices
  unfoldable pub quarantine :
      Cluster → Machine → String → List String → String → P S (Machine × List Device)
  unfolding list_rules
  quarantine cluster m request names status = do
    held ← trying m request (devices lib tools apis cluster m)
    ds ← or_fail m request (select lib.quote tools.decimal held r.drivers names)
    if r.dry_run then end else do
      m1 ← set_unless_replacing m status status_quarantining
      u1 ← ensure_all m1 request (owner_of cluster m1) ds
      u2 ← exist_all m1 request ds
      m2 ← set_unless_replacing m1 status status_replacing
      u3 ←
          note_event m2 event_devices_quarantined
            ("Quarantined with DeviceTaintRules: " ⧺ list_rules tools ds)
      continue (m2, ds)

  -- the rest of `replace`, on the result of the deletion
  unfoldable pub replaced : Machine → String → List Device → Result (Unit {0}) → P S (Unit {0})
  unfolding list_devices
  replaced m request ds (err not_found) = end
  replaced m request ds (err e) =
      fail m request (api_error ("delete machine " ⧺ machine_path m ⧺ ": ") e)
  replaced m request ds (ok _) =
      note_event m event_machine_replaced
        ("Deleted for its MachineSet to replace, with " ⧺ list_devices ds ⧺ " quarantined")

  -- the rest of `replace`, once the devices are quarantined
  unfoldable pub delete : Machine → String → List Device → P S (Unit {0})
  delete m request ds =
      World.◌>>=◌ (write (deleted m) (apis.delete_machine m.uid m.resource_version m))
        (λ q. replaced m request ds q)

  unfoldable pub quarantine_and_delete :
      Cluster → Machine → String → List String → String → P S (Unit {0})
  quarantine_and_delete cluster m request names status = do
    q ← quarantine cluster m request names status
    delete q.0 request q.1

  -- the rest of `replace`, on the devices that `Of` returned
  unfoldable pub with_made :
      Cluster → Machine → String → List String → String → List Device → P S (Unit {0})
  unfolding covers
  with_made cluster m request names status made =
      if covers made names
      then (if r.dry_run then end else delete m request made)
      else quarantine_and_delete cluster m request names status

  -- the rest of `replace`, on the names of the request
  unfoldable pub with_names : Cluster → Machine → String → String → List String → P S (Unit {0})
  with_names cluster m request status names =
      if status == status_replacing
      then (trying m request (of lib tools client apis (owner_of cluster m)) >>= λ made.
          with_made cluster m request names status made)
      else quarantine_and_delete cluster m request names status

  -- the rest of `replace`, on what `guardReplace` returned
  unfoldable pub with_guard :
      Cluster → Machine → String → String → Option (String × String) → P S (Unit {0})
  with_guard cluster m request status (some (reason, text)) = reject m request reason text
  with_guard cluster m request status none =
      or_fail m request (parse_request lib.quote tools.decimal request) >>= λ names.
      with_names cluster m request status names

  -- the rest of `replace`, on the Cluster
  unfoldable pub with_cluster : Machine → String → String → Result Cluster → P S (Unit {0})
  unfolding guard_replace
  with_cluster m request status (err not_found) = end
  with_cluster m request status (err e) =
      break (api_error ("get cluster " ⧺ m.namespace ⧺ "/" ⧺ m.cluster_name ⧺ ": ") e)
  with_cluster m request status (ok cluster) =
      if not (is_selected r.cluster_selector cluster)
      then end
      else with_guard cluster m request status (guard_replace lib tools cluster m)

  -- the `switch` of `replace`, on the annotations
  unfoldable pub on_request : Machine → String → Option String → P S (Unit {0})
  unfolding is_rejected
  on_request m status none =
      if is_blank status || r.dry_run then end else do m' ← set_status m ""; end
  on_request m status (some request) =
      if is_rejected status
      then end
      else World.◌>>=◌ (read (client.get_cluster m.namespace m.cluster_name))
          (λ q. with_cluster m request status q)

  -- `replace`
  unfoldable pub replace : Machine → P S (Unit {0})
  unfolding get_or lookup
  replace m =
      if m.deleting
      then end
      else on_request m (get_or "" replace_status_annotation m.annotations)
          (lookup replace_annotation m.annotations)

  unfoldable pub verdict : Step (Unit {0}) → Verdict
  unfolding is_api_conflict
  verdict (next u) = settled
  verdict ended = settled
  verdict (broken e) = if is_api_conflict e then again_after conflict_retry else error e

  unfoldable pub on_machine : Result Machine → M S Verdict
  on_machine (err not_found) = pure settled
  on_machine (err e) = pure (error (api_error "" e))
  on_machine (ok m) = World.◌>>=◌ (replace m) (λ s. pure (verdict s))

  -- `Reconcile`
  unfoldable pub reconcile : String → String → M S Verdict
  reconcile namespace name =
      World.◌>>=◌ (read (client.get_machine namespace name)) (λ q. on_machine q)
