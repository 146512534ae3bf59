-- ===== src/Controller/Loop.antt =====
-- internal/controller/cluster_controller.go, `Reconcile`: the loop over the signals of a pass, and the
-- releases after it.
use nvsentinel_capi_remediat.Common.{
  ℕ, String, Bool, true, not, List, [], ◌∷◌, Option, none, some, Dict, lookup, insert, get_or,
  is_blank, if◌then◌else◌,
}
use nvsentinel_capi_remediat.Signal.{Signal, key}
use nvsentinel_capi_remediat.Objects.{Machine, Cluster, Node, HealthCheck, Library}
use nvsentinel_capi_remediat.World.{M, pure, ◌>>=◌, Result, ok, err, Client}
use nvsentinel_capi_remediat.Extrr
use nvsentinel_capi_remediat.Controller.Mode.{Mode, external_remediation_request}
use nvsentinel_capi_remediat.Controller.State.{Config, Observation, no_observation, given}
use nvsentinel_capi_remediat.Controller.Waits.{ChecksWait}
use nvsentinel_capi_remediat.Controller.Handle.{Input, Handled, handle}
use nvsentinel_capi_remediat.Controller.Answers.{answer}
use nvsentinel_capi_remediat.Controller.Release.{Released, release_restarts}
use nvsentinel_capi_remediat.Controller.Memory.{Memory, remember_would_release}

-- what a pass knows of the workload cluster
pub record Pass : Type 0 where
  pub cluster : Cluster
  pub mode : Mode
  pub checks : List HealthCheck
  pub nodes : Dict Node
  pub previous : Dict Observation

-- what the loop over the signals changes
pub record Progress : Type 0 where
  pub machines : Dict Machine
  pub waits : Dict ChecksWait
  pub current : Dict Observation
  pub asking : Dict Bool
  pub unreadable : Bool

abbrev pub keep_previous : String → Option Observation → Progress → Progress
keep_previous k none p = record p { unreadable = true }
keep_previous k (some prev) p = record p { current = insert k prev p.current; unreadable = true }

abbrev pub set_machine : String → Option Machine → Dict Machine → Dict Machine
set_machine node none machines = machines
set_machine node (some m) machines = insert node m machines

abbrev pub source_name : Mode → String
source_name external_remediation_request = "ExternalRemediationRequest"
source_name _ = "NodeCondition"

module _ {S : Type 0} (lib : Library) (r : Config) (client : Client S) (tries : ℕ) where
  -- the end of a round of the loop over the signals: the answer is given and the result kept
  unfoldable pub conclude : Pass → Signal → Progress → Handled → M S Progress
  conclude pass sig p h = do
    machine ←
        if given h.observation.answer
        then answer lib r client tries pass.cluster h.machine sig h.observation.answer
        else pure h.machine
    pure (record p {
      machines = set_machine sig.node machine p.machines;
      waits = h.waits;
      current = insert (key sig) h.observation p.current;
    })

  abbrev pub input_of : Pass → Signal → Input
  input_of pass sig = record {
    cluster = pass.cluster;
    mode = pass.mode;
    checks = pass.checks;
    sig = sig;
    node = lookup sig.node pass.nodes;
    previous = get_or no_observation (key sig) pass.previous;
  }

  unfoldable pub act : Pass → Signal → Progress → M S Progress
  act pass sig p = do
    h ← handle lib r client (input_of pass sig) (lookup sig.node p.machines) p.waits
    conclude pass sig p h

  unfoldable pub after_pending : Pass → Signal → Progress → Result Bool → M S Progress
  after_pending pass sig p (err e) =
      pure (keep_previous (key sig) (lookup (key sig) pass.previous) p)
  after_pending pass sig p (ok pending) =
      if not pending
      then pure p
      else act pass sig (record p { asking = insert sig.request true p.asking })

  -- one round of the loop over the signals
  unfoldable pub round : Pass → Signal → Progress → M S Progress
  round pass sig p =
      if is_blank sig.request
      then act pass sig p
      else do pending ← Extrr.is_pending lib client sig.request; after_pending pass sig p pending

  unfoldable pub rounds : Pass → List Signal → Progress → M S Progress
  rounds pass [] p = pure p
  rounds pass (sig ∷ signals) p = round pass sig p >>= λ p'. rounds pass signals p'

  abbrev pub released_of : Pass → Progress → M S Released
  released_of pass p =
      release_restarts r client (source_name pass.mode) p.machines pass.nodes p.current p.asking

  -- releases unless a request could not be read
  unfoldable pub release_unless : String → Pass → Progress → Memory → M S (Dict Machine × Memory)
  release_unless k pass p mem = if p.unreadable then pure (p.machines, mem) else do
    out ← released_of pass p
    pure (out.machines, remember_would_release k out.would_release mem)
