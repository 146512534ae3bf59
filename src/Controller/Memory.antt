-- ===== src/Controller/Memory.antt =====
-- internal/controller/cluster_controller.go: what the reconciler remembers between passes, and the
-- maps a pass starts from. The lock around the memory is left out: a pass of one Cluster is never run
-- beside another of the same Cluster.
use nvsentinel_capi_remediat.Common.{
  String, ◌⧺◌, Bool, false, ◌||◌, not, List, [], ◌∷◌, Option, none, some, Dict, lookup, insert,
  remove, get_or, is_blank, is_some, if◌then◌else◌,
}
use nvsentinel_capi_remediat.Objects.{Machine, Cluster, Node, Library}
use nvsentinel_capi_remediat.Controller.Mode.{Mode, same_mode}
use nvsentinel_capi_remediat.Controller.State.{Config, Observation}
use nvsentinel_capi_remediat.Controller.Waits.{ChecksWait, forget_waits}

-- the maps that the reconciler keeps, by Cluster
pub record Memory : Type 0 where
  pub seen : Dict (Dict Observation)
  pub would_release : Dict (Dict Bool)
  pub modes : Dict Mode
  pub waiting : Dict (Dict ChecksWait)

-- a Cluster's key in the maps; names hold no slash
abbrev pub object_key : String → String → String
object_key namespace name = namespace ⧺ "/" ⧺ name

unfoldable pub forget : String → Memory → Memory
forget k mem = record {
  seen = remove k mem.seen;
  would_release = remove k mem.would_release;
  modes = remove k mem.modes;
  waiting = remove k mem.waiting;
}

-- an empty map is dropped from the outer one
abbrev pub store {ℓ} : {V : Type ℓ} → String → Dict V → Dict (Dict V) → Dict (Dict V)
store k [] outer = remove k outer
store k (e ∷ inner) outer = insert k (e ∷ inner) outer

-- `forgetWaits`
unfoldable pub forget_waits_of : Library → String → List Machine → Memory → Memory
unfolding forget_waits
forget_waits_of lib k machines mem = record mem {
  waiting = store k (forget_waits lib machines (get_or [] k mem.waiting)) mem.waiting;
}

-- `remember`
unfoldable pub remember : String → Dict Observation → Memory → Memory
remember k current mem = record mem { seen = store k current mem.seen }

-- `rememberWouldRelease`
unfoldable pub remember_would_release : String → Dict Bool → Memory → Memory
remember_would_release k names mem = record mem { would_release = store k names mem.would_release }

abbrev pub changed_from : Option Mode → Mode → Bool
changed_from none mode = false
changed_from (some previous) mode = not (same_mode previous mode)

-- the part of `noteMode` under the lock
unfoldable pub note_mode : String → Mode → Memory → Memory
unfolding same_mode
note_mode k mode mem =
    let changed = changed_from (lookup k mem.modes) mode in
    record mem {
      modes = insert k mode mem.modes;
      seen = if changed then remove k mem.seen else mem.seen;
      would_release = if changed then remove k mem.would_release else mem.would_release;
    }

abbrev pub is_known_as : Option Mode → Mode → Bool
is_known_as none mode = false
is_known_as (some previous) mode = same_mode previous mode

-- `nodesByName`
unfoldable pub nodes_by_name : List Node → Dict Node
nodes_by_name [] = []
nodes_by_name (n ∷ nodes) =
    let rest = nodes_by_name nodes in
    if is_some (lookup n.name rest) then rest else insert n.name n rest

-- `machinesByNode`, on the Machines that the list call returned; a later one of the same node wins
unfoldable pub machines_by_node : List Machine → Dict Machine
machines_by_node [] = []
machines_by_node (m ∷ machines) =
    let rest = machines_by_node machines in
    if is_blank m.node_ref || is_some (lookup m.node_ref rest)
    then rest
    else insert m.node_ref m rest

-- a Cluster that is not acted on at all
unfoldable pub is_left_alone : Config → Cluster → Bool
is_left_alone r cluster = cluster.deleting || (elim r.cluster_selector as (λ _. Bool) [
  | none ↦ false
  | some matches ↦ not (matches cluster.labels)
])

abbrev pub values {ℓ} : {V : Type ℓ} → Dict V → List V
values [] = []
values ((k, v) ∷ m) = v ∷ values m
