-- ===== src/Controller/Release.antt =====
-- internal/controller/cluster_controller.go, `releaseRestarts`: which Machines marked for a restart
-- are released at the end of a pass. The log lines are left out.
pub mod Holds
pub mod Sent
use nvsentinel_capi_remediat.Common.{
  String, ◌⧺◌, ◌==◌, Bool, true, false, ◌&&◌, ◌||◌, not, List, [], ◌∷◌, map, Option, none, some,
  Dict, lookup, insert, get_or, has, is_blank, str_lt, sort_by, if◌then◌else◌,
}
use nvsentinel_capi_remediat.Decision.{Decision, restart, replace, same_decision}
use nvsentinel_capi_remediat.Objects.{Machine, Node}
use nvsentinel_capi_remediat.World.{M, pure, ◌>>=◌, Result, ok, err, Client}
use nvsentinel_capi_remediat.Capi.Note.{action_restart, remediation_request_annotation}
use nvsentinel_capi_remediat.Capi.Actuator.{release, marked_for, restart_completed, annotation}
use nvsentinel_capi_remediat.Controller.State.{Config, Observation}

-- `nodeOf`: the node of each Machine, by the Machine's name
unfoldable pub node_of : Dict Machine → Dict String
node_of [] = []
node_of ((node, m) ∷ machines) = insert m.name node (node_of machines)

-- the variables `held` and `leftover`
pub record Holding : Type 0 where
  pub held : Dict Bool
  pub leftover : Dict String

unfoldable pub holds_nothing : Holding
holds_nothing = record { held = []; leftover = [] }

-- whether an observation calls for a remediation of a Machine
unfoldable pub calls : Observation → Bool
unfolding same_decision
calls obs =
    not (is_blank obs.machine)
    && (same_decision obs.decision replace || same_decision obs.decision restart)

-- whether the mark is that of a finished restart that a request no longer asking asked for
unfoldable pub is_leftover : Observation → Option Machine → Option Node → Dict Bool → Bool
unfolding same_decision restart_completed
is_leftover obs none _ asking = false
is_leftover obs (some m) node asking =
    let asked = annotation remediation_request_annotation m in
    same_decision obs.decision restart
    && not (is_blank obs.request)
    && not (is_blank asked)
    && not (get_or false asked asking)
    && restart_completed m node

-- the first waiting request by name
abbrev first_waiting : String → Option String → String
first_waiting request none = request
first_waiting request (some waiting) = if str_lt request waiting then request else waiting

-- one round of the loop over the observations
unfoldable pub hold : Dict Machine → Dict Node → Dict Bool → Observation → Holding → Holding
unfolding calls is_leftover
hold machines nodes asking obs h =
    let node = get_or "" obs.machine (node_of machines) in
    if not (calls obs)
    then h
    else if is_leftover obs (lookup node machines) (lookup node nodes) asking
    then record h {
      leftover =
          insert obs.machine (first_waiting obs.request (lookup obs.machine h.leftover)) h.leftover;
    }
    else record h { held = insert obs.machine true h.held }

unfoldable pub hold_all :
    Dict Machine → Dict Node → Dict Bool → Holding → Dict Observation → Holding
unfolding hold
hold_all machines nodes asking h [] = h
hold_all machines nodes asking h ((key, obs) ∷ current) =
    hold_all machines nodes asking (hold machines nodes asking obs h) current

abbrev cleared_reason : String → String → String
cleared_reason source node =
    "no " ⧺ source ⧺ " signal this operator acts on calls for a restart or a replacement of node "
    ⧺ node ⧺ " any more"

abbrev release_reason : String → String → Machine → Option String → String
release_reason source node m none = cleared_reason source node
release_reason source node m (some waiting) =
    "the restart of node "
    ⧺ node
    ⧺ " that "
    ⧺ annotation remediation_request_annotation m
    ⧺ " asked for is over, and "
    ⧺ waiting
    ⧺ " waits for one of its own"

-- the Machines by node, and the names of those a dry run would release
pub record Released : Type 0 where
  pub machines : Dict Machine
  pub would_release : Dict Bool

-- whether the round for a Machine releases it
unfoldable pub is_releasable : Holding → Machine → Bool
unfolding marked_for
is_releasable h m = marked_for m action_restart && not (get_or false m.name h.held)

module _ {S : Type 0} (r : Config) (client : Client S) where
  unfoldable pub after_release : Released → String → String → Result Bool × Machine → Released
  after_release out node name (err e, m) = record out { machines = insert node m out.machines }
  after_release out node name (ok released, m) = record out {
    machines = insert node m out.machines;
    would_release =
        if released && r.dry_run then insert name true out.would_release else out.would_release;
  }

  unfoldable pub release_if : String → Holding → String → Released → Option Machine → M S Released
  release_if source h node out none = pure out
  release_if source h node out (some m) = if not (is_releasable h m) then pure out else do
    released ← release client r.dry_run m (release_reason source node m (lookup m.name h.leftover))
    pure (after_release out node m.name released)

  -- one round of the loop over the nodes
  unfoldable pub release_round : String → Holding → String → Released → M S Released
  release_round source h node out = release_if source h node out (lookup node out.machines)

  unfoldable pub release_all : String → Holding → List String → Released → M S Released
  release_all source h [] out = pure out
  release_all source h (node ∷ rest) out =
      release_round source h node out >>= λ out'. release_all source h rest out'

  unfoldable pub release_restarts :
      String → Dict Machine → Dict Node → Dict Observation → Dict Bool → M S Released
  release_restarts source machines nodes current asking =
      release_all source (hold_all machines nodes asking holds_nothing current)
        (sort_by str_lt (map (λ e. e.0) machines))
        (record { machines = machines; would_release = [] })
