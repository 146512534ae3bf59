-- ===== src/Controller/Safety.antt =====
-- What a whole reconcile writes and records.
use nvsentinel_capi_remediat.Common.{ℕ, String, Bool, ◌||◌, List, [], ◌∷◌, Dict, All, arith, lookup}
use nvsentinel_capi_remediat.Objects.{Machine, Cluster, Node, HealthCheck, Library}
use nvsentinel_capi_remediat.Signal.{Signal}
use nvsentinel_capi_remediat.World.{
  M, Result, ok, err, not_found, Client, Connection, connected, not_connected, unreachable,
}
use nvsentinel_capi_remediat.World.Emits.{
  Emits, emits_rules, Emits-pure, Emits-if, Emits-bind, Emits-record_event, Emits-then,
}
use nvsentinel_capi_remediat.Capi.Note.{utf8}
use nvsentinel_capi_remediat.Capi.Note.Length.{event_note_fits}
use nvsentinel_capi_remediat.Capi.Actuator.Writes.{IsAllowed}
use nvsentinel_capi_remediat.Extrr
use nvsentinel_capi_remediat.Controller.Mode.{Mode, external_remediation_request}
use nvsentinel_capi_remediat.Controller.State.{Config}
use nvsentinel_capi_remediat.Controller.Handle.{Handled}
use nvsentinel_capi_remediat.Controller.Release.{release_restarts}
use nvsentinel_capi_remediat.Controller.Reconcile.{
  work, after_live, with_live, with_nodes, with_checks, with_machines, with_signals, collect, note,
  watch, with_mode, with_connection, with_cluster, reconcile,
}
use nvsentinel_capi_remediat.Controller.Loop.{
  Pass, Progress, conclude, act, after_pending, round, rounds, release_unless,
}
use nvsentinel_capi_remediat.Controller.Memory.{Memory, is_known_as}
use nvsentinel_capi_remediat.Controller.PassWrites.{handle-Emits, answer-Emits, release_all-Emits}

module _ {S : Type 0} (lib : Library) (r : Config) (client : Client S) (tries : ℕ) where
  abbrev Allows : {A : Type 0} → M S A → Type 0
  Allows m = Emits (IsAllowed r.dry_run) m

  conclude-Emits :
      (pass : Pass) (sig : Signal) (p : Progress) (h : Handled)
      → Allows (conclude lib r client tries pass sig p h)
  unfolding conclude
  conclude-Emits pass sig p h = search (emits_rules, answer-Emits)

  act-Emits :
      (pass : Pass) (sig : Signal) (p : Progress) → Allows (act lib r client tries pass sig p)
  unfolding act
  act-Emits pass sig p = search (emits_rules, handle-Emits, conclude-Emits)

  after_pending-Emits :
      (pass : Pass) (sig : Signal) (p : Progress) (q : Result Bool)
      → Allows (after_pending lib r client tries pass sig p q)
  unfolding after_pending
  after_pending-Emits pass sig p (err e) = Emits-pure _
  after_pending-Emits pass sig p (ok b) = search (emits_rules, act-Emits)

  round-Emits :
      (pass : Pass) (sig : Signal) (p : Progress) → Allows (round lib r client tries pass sig p)
  unfolding round Extrr.is_pending
  round-Emits pass sig p = search (emits_rules, act-Emits, after_pending-Emits)

  rounds-Emits :
      (pass : Pass) (sigs : List Signal) (p : Progress)
      → Allows (rounds lib r client tries pass sigs p)
  unfolding rounds
  rounds-Emits pass [] p = Emits-pure _
  rounds-Emits pass (sig ∷ sigs) p =
      Emits-bind _ _ (round-Emits pass sig p) (λ q. rounds-Emits pass sigs q)

  release_unless-Emits :
      (k : String) (pass : Pass) (p : Progress) (mem : Memory)
      → Allows (release_unless lib r client tries k pass p mem)
  unfolding release_unless release_restarts
  release_unless-Emits k pass p mem = search (emits_rules, release_all-Emits)

  work-Emits :
      (k : String) (pass : Pass) (ms : Dict Machine) (sigs : List Signal) (mem : Memory)
      → Allows (work lib r client tries k pass ms sigs mem)
  unfolding work
  work-Emits k pass ms sigs mem = search (emits_rules, rounds-Emits, release_unless-Emits)

  after_live-Emits :
      (k : String) (pass : Pass) (ms : Dict Machine) (sigs : List Signal) (mem : Memory)
      (q : Result (Unit {0}))
      → Allows (after_live lib r client tries k pass ms sigs mem q)
  unfolding after_live
  after_live-Emits k pass ms sigs mem (err e) = Emits-pure _
  after_live-Emits k pass ms sigs mem (ok _) = work-Emits k pass ms sigs mem

  with_live-Emits :
      (k : String) (pass : Pass) (ms : Dict Machine) (sigs : List Signal) (mem : Memory)
      → Allows (with_live lib r client tries k pass ms sigs mem)
  unfolding with_live
  with_live-Emits k pass ms sigs mem = search (emits_rules, work-Emits, after_live-Emits)

  with_nodes-Emits :
      (k : String) (pass : Pass) (ms : Dict Machine) (sigs : List Signal) (mem : Memory)
      (q : Result (List Node))
      → Allows (with_nodes lib r client tries k pass ms sigs mem q)
  unfolding with_nodes
  with_nodes-Emits k pass ms sigs mem (err e) = Emits-pure _
  with_nodes-Emits k pass ms sigs mem (ok _) = with_live-Emits k _ ms sigs mem

  with_checks-Emits :
      (k : String) (pass : Pass) (ms : Dict Machine) (sigs : List Signal) (mem : Memory)
      (q : Result (List HealthCheck))
      → Allows (with_checks lib r client tries k pass ms sigs mem q)
  unfolding with_checks
  with_checks-Emits k pass ms sigs mem (err e) = Emits-pure _
  with_checks-Emits k pass ms sigs mem (ok _) = search (emits_rules, with_nodes-Emits)

  with_machines-Emits :
      (k : String) (pass : Pass) (sigs : List Signal) (mem : Memory) (q : Result (List Machine))
      → Allows (with_machines lib r client tries k pass sigs mem q)
  unfolding with_machines
  with_machines-Emits k pass [] mem (ok _) = work-Emits k pass _ [] mem
  with_machines-Emits k pass (sig ∷ sigs) mem (ok _) = search (emits_rules, with_checks-Emits)
  with_machines-Emits k pass sigs mem (err e) = Emits-pure _

  with_signals-Emits :
      (k : String) (pass : Pass) (mem : Memory) (q : Result (List Signal))
      → Allows (with_signals lib r client tries k pass mem q)
  unfolding with_signals
  with_signals-Emits k pass mem (err e) = Emits-pure _
  with_signals-Emits k pass mem (ok _) = search (emits_rules, with_machines-Emits)

  collect-Emits : (mode : Mode) → Allows (collect lib r client tries mode)
  unfolding collect
  collect-Emits external_remediation_request = search emits_rules
  collect-Emits _ = search emits_rules

  watch-Emits : (mode : Mode) → Allows (watch lib r client tries mode)
  unfolding watch
  watch-Emits external_remediation_request = search emits_rules
  watch-Emits _ = search emits_rules

  note-Emits :
      (cluster : Cluster) (k : String) (mode : Mode) (mem : Memory)
      → Allows (note lib r client tries cluster k mode mem)
  unfolding note
  note-Emits cluster k mode mem =
      Emits-if (is_known_as (lookup k mem.modes) mode || r.dry_run) _ _ (λ _. Emits-pure _)
        λ live.
          Emits-then _ _ (Emits-record_event _ (ground arith, (event_note_fits (utf8 _)).0))
            (Emits-pure _)

  with_mode-Emits :
      (cluster : Cluster) (k : String) (mem : Memory) (q : Result Mode)
      → Allows (with_mode lib r client tries cluster k mem q)
  unfolding with_mode
  with_mode-Emits cluster k mem (err e) = Emits-pure _
  with_mode-Emits cluster k mem (ok mode) =
      search (emits_rules, note-Emits, watch-Emits, collect-Emits, with_signals-Emits)

  with_connection-Emits :
      (cluster : Cluster) (k : String) (mem : Memory) (q : Connection)
      → Allows (with_connection lib r client tries cluster k mem q)
  unfolding with_connection
  with_connection-Emits cluster k mem not_connected = Emits-pure _
  with_connection-Emits cluster k mem (unreachable e) = Emits-pure _
  with_connection-Emits cluster k mem connected = search (emits_rules, with_mode-Emits)

  with_cluster-Emits :
      (k : String) (mem : Memory) (q : Result Cluster)
      → Allows (with_cluster lib r client tries k mem q)
  unfolding with_cluster
  with_cluster-Emits k mem (err not_found) = Emits-pure _
  with_cluster-Emits k mem (err e) = Emits-pure _
  with_cluster-Emits k mem (ok cluster) = search (emits_rules, with_connection-Emits)

  reconcile-Emits :
      (namespace name : String) (mem : Memory)
      → Allows (reconcile lib r client tries namespace name mem)
  unfolding reconcile
  reconcile-Emits namespace name mem = search (emits_rules, with_cluster-Emits)

  -- Whatever the API servers answer and others do meanwhile, and whatever the reconciler remembers,
  -- every effect of a reconcile is an allowed one: outside a dry run only; a patch marks a Machine
  -- that passes every guard, or releases one this operator marked, or escalates this operator's
  -- restart mark, and touches no annotation but the operator's five and no other field; an answer
  -- goes to a pending request and leaves it answered; an Event's note has at most 1024 bytes.
  pub reconcile-IsAllowed :
      (namespace name : String) (mem : Memory) (server : S)
      → All
          (IsAllowed r.dry_run)
          (reconcile lib r client tries namespace name mem
            (record { server = server; effects = [] })).1.effects
  reconcile-IsAllowed namespace name mem server =
      (reconcile-Emits namespace name mem).at (record { server = server; effects = [] }) tt
