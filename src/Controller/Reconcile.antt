-- ===== src/Controller/Reconcile.antt =====
-- internal/controller/cluster_controller.go: `Reconcile`, one pass over a workload cluster.
use nvsentinel_capi_remediat.Common.{
  ℕ, String, ◌⧺◌, false, ◌||◌, not, List, [], ◌∷◌, Dict, lookup, get_or, is_empty, if◌then◌else◌,
}
use nvsentinel_capi_remediat.Signal.{Signal}
use nvsentinel_capi_remediat.Objects.{Machine, Cluster, Node, HealthCheck, Library}
use nvsentinel_capi_remediat.World.{
  M, pure, ◌>>=◌, ◌>>◌, read, Result, ok, err, not_found, ApiError, Client, Connection, connected,
  not_connected, unreachable, normal, cluster_subject, record_event,
}
use nvsentinel_capi_remediat.Capi.Note.{utf8, event_note}
use nvsentinel_capi_remediat.Capi.Coverage.{list_health_checks}
use nvsentinel_capi_remediat.Conditions
use nvsentinel_capi_remediat.Extrr
use nvsentinel_capi_remediat.Controller.Mode.{
  Mode, external_remediation_request, mode_name, same_mode, select_mode, describe_mode,
}
use nvsentinel_capi_remediat.Controller.State.{Config, poll_interval}
use nvsentinel_capi_remediat.Controller.Waits.{next_look}
use nvsentinel_capi_remediat.Controller.Memory.{
  Memory, object_key, forget, store, forget_waits_of, remember, note_mode, is_known_as,
  nodes_by_name, machines_by_node, is_left_alone, values,
}
use nvsentinel_capi_remediat.Controller.Loop.{Pass, rounds, release_unless}

abbrev pub event_signal_source_selected : String
event_signal_source_selected = "SignalSourceSelected"

abbrev pub action_select_source : String
action_select_source = "SelectSource"

-- when to look again, or an error for the work queue's backoff
pub data Requeue : Type 0 where
  done : Requeue
  after : ℕ → Requeue
  fails : ApiError → Requeue

module _ {S : Type 0} (lib : Library) (r : Config) (client : Client S) (tries : ℕ) where
  -- from the loop over the signals to the end of the pass
  unfoldable pub work : String → Pass → Dict Machine → List Signal → Memory → M S (Requeue × Memory)
  work k pass machines signals mem = do
    p ← rounds lib r client tries pass signals (record {
      machines = machines;
      waits = get_or [] k mem.waiting;
      current = [];
      asking = [];
      unreadable = false;
    })
    released ←
        release_unless lib r client tries k pass p
          (record mem { waiting = store k p.waits mem.waiting })
    let mem' = forget_waits_of lib k (values released.0) (remember k p.current released.1)
    now ← read client.clock
    pure (after (next_look now (poll_interval r) (get_or [] k mem'.waiting)), mem')

  abbrev pub try_later : Memory → M S (Requeue × Memory)
  try_later mem = pure (after (poll_interval r), mem)

  unfoldable pub after_live :
      String
      → Pass
      → Dict Machine
      → List Signal
      → Memory
      → Result (Unit {0})
      → M S (Requeue × Memory)
  after_live k pass machines signals mem (err e) = try_later mem
  after_live k pass machines signals mem (ok _) = work k pass machines signals mem

  -- reads the requests uncached when there are any to act on
  unfoldable pub with_live :
      String → Pass → Dict Machine → List Signal → Memory → M S (Requeue × Memory)
  with_live k pass machines signals mem =
      if not (same_mode pass.mode external_remediation_request) || is_empty signals
      then work k pass machines signals mem
      else (read client.connect_uncached >>= λ live. after_live k pass machines signals mem live)

  unfoldable pub with_nodes :
      String
      → Pass
      → Dict Machine
      → List Signal
      → Memory
      → Result (List Node)
      → M S (Requeue × Memory)
  with_nodes k pass machines signals mem (err e) = try_later mem
  with_nodes k pass machines signals mem (ok nodes) =
      with_live k (record pass { nodes = nodes_by_name nodes }) machines signals mem

  unfoldable pub with_checks :
      String
      → Pass
      → Dict Machine
      → List Signal
      → Memory
      → Result (List HealthCheck)
      → M S (Requeue × Memory)
  with_checks k pass machines signals mem (err e) = pure (fails e, mem)
  with_checks k pass machines signals mem (ok items) = do
    nodes ← read client.list_nodes
    with_nodes k (record pass { checks = list_health_checks items pass.cluster }) machines signals
        mem nodes

  unfoldable pub with_machines :
      String → Pass → List Signal → Memory → Result (List Machine) → M S (Requeue × Memory)
  with_machines k pass signals mem (err e) = pure (fails e, mem)
  with_machines k pass [] mem (ok items) = work k pass (machines_by_node items) [] mem
  with_machines k pass (sig ∷ signals) mem (ok items) = do
    checks ← read (client.list_health_checks pass.cluster.namespace)
    with_checks k pass (machines_by_node items) (sig ∷ signals) mem checks

  unfoldable pub with_signals :
      String → Pass → Memory → Result (List Signal) → M S (Requeue × Memory)
  with_signals k pass mem (err e) = try_later mem
  with_signals k pass mem (ok signals) = do
    machines ← read (client.list_machines pass.cluster.namespace pass.cluster.name)
    with_machines k pass signals mem machines

  unfoldable pub collected {ℓ} :
      {A : Type ℓ} → (List A → List Signal) → Result (List A) → Result (List Signal)
  collected f (err e) = err e
  collected f (ok items) = ok (f items)

  -- `mode.source(workload)` and its `Collect`
  unfoldable pub collect : Mode → M S (Result (List Signal))
  collect external_remediation_request = do
    requests ← read client.list_requests
    pure (collected Extrr.collect requests)
  collect _ = do nodes ← read client.list_nodes; pure (collected Conditions.collect nodes)

  -- `noteMode`: the Event is recorded when the mode is new
  unfoldable pub note : Cluster → String → Mode → Memory → M S Memory
  note cluster k mode mem =
      if is_known_as (lookup k mem.modes) mode || r.dry_run then pure (note_mode k mode mem) else do
        record_event (record {
          subject = cluster_subject cluster.namespace cluster.name;
          type = normal;
          reason = event_signal_source_selected;
          action = action_select_source;
          note = event_note (utf8 (mode_name mode ⧺ ": " ⧺ describe_mode mode));
        })
        pure (note_mode k mode mem)

  -- a failed watch is only logged: the poll reads the requests anyway
  unfoldable pub watch : Mode → M S (Unit {0})
  watch external_remediation_request = read client.watch_requests >>= λ _. pure tt
  watch _ = pure tt

  unfoldable pub with_mode : Cluster → String → Memory → Result Mode → M S (Requeue × Memory)
  with_mode cluster k mem (err e) = try_later mem
  with_mode cluster k mem (ok mode) = do
    mem' ← note cluster k mode mem
    watch mode
    signals ← collect mode
    with_signals k
        (record {
          cluster = cluster;
          mode = mode;
          checks = [];
          nodes = [];
          previous = get_or [] k mem'.seen;
        })
        mem' signals

  unfoldable pub with_connection : Cluster → String → Memory → Connection → M S (Requeue × Memory)
  with_connection cluster k mem not_connected = try_later (forget_waits_of lib k [] mem)
  with_connection cluster k mem (unreachable e) = pure (fails e, mem)
  with_connection cluster k mem connected = do
    mapper ← read client.mapper
    with_mode cluster k mem (select_mode mapper)

  unfoldable pub with_cluster : String → Memory → Result Cluster → M S (Requeue × Memory)
  with_cluster k mem (err not_found) = pure (done, forget k mem)
  with_cluster k mem (err e) = pure (fails e, mem)
  with_cluster k mem (ok cluster) =
      if is_left_alone r cluster
      then pure (done, forget k mem)
      else if lib.is_paused cluster
      then try_later (forget_waits_of lib k [] mem)
      else (read client.connect >>= λ connection. with_connection cluster k mem connection)

  unfoldable pub reconcile : String → String → Memory → M S (Requeue × Memory)
  reconcile namespace name mem = do
    cluster ← read (client.get_cluster namespace name)
    with_cluster (object_key namespace name) mem cluster
