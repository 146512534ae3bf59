-- ===== src/Controller/Release/Holds.antt =====
-- Which Machines the end of a pass holds back from release.
use nvsentinel_capi_remediat.Common.{
  String, ◌==◌, ◌≡◌, refl, Bool, true, false, not, ◌&&◌, ◌||◌, [], ◌∷◌, Dict, lookup, insert,
  get_or, lookup-insert, exists_in, arith,
}
use nvsentinel_capi_remediat.Objects.{Machine, Node}
use nvsentinel_capi_remediat.Capi.Note.{action_restart}
use nvsentinel_capi_remediat.Capi.Actuator.{marked_for}
use nvsentinel_capi_remediat.Controller.State.{Observation}
use nvsentinel_capi_remediat.Controller.Release.{
  Holding, holds_nothing, calls, is_leftover, node_of, hold, hold_all, is_releasable,
}

module _ (machines : Dict Machine) (nodes : Dict Node) (asking : Dict Bool) where
  -- whether the observation calls for a remediation of the Machine that its finished restart, if
  -- any, is not left over from
  abbrev pub holds : String → Observation → Bool
  holds name obs =
      let node = get_or "" obs.machine (node_of machines) in
      obs.machine == name
      && calls obs
      && not (is_leftover obs (lookup node machines) (lookup node nodes) asking)

  get_or-insert :
      (k name : String) (d : Dict Bool)
      → get_or false name (insert k true d) ≡ (k == name || get_or false name d)
  unfolding get_or
  get_or-insert k name d = ground (arith, lookup-insert k name true d)

  held_by-hold :
      (name : String) (obs : Observation) (h : Holding)
      → get_or false name (hold machines nodes asking obs h).held
        ≡ (holds name obs || get_or false name h.held)
  unfolding hold
  held_by-hold name obs h = ground (arith, get_or-insert obs.machine name h.held)

  held_by-hold_all :
      (name : String) (h : Holding) (current : Dict Observation)
      → get_or false name (hold_all machines nodes asking h current).held
        ≡ (exists_in (λ e. holds name e.1) current || get_or false name h.held)
  unfolding hold_all
  held_by-hold_all name h [] = refl
  held_by-hold_all name h ((key, obs) ∷ current) = ground (
    arith,
    held_by-hold_all name (hold machines nodes asking obs h) current,
    held_by-hold name obs h,
  )

  -- The loop over the Machines passes on to `release` exactly those that carry this operator's restart
  -- mark and that no observation of the pass holds back: none that names the Machine and calls for a
  -- restart or a replacement, other than one for which the mark is a leftover.
  pub is_releasable-hold_all :
      (m : Machine) (current : Dict Observation)
      → is_releasable (hold_all machines nodes asking holds_nothing current) m
        ≡ (marked_for m action_restart && not (exists_in (λ e. holds m.name e.1) current))
  unfolding is_releasable holds_nothing get_or lookup
  is_releasable-hold_all m current = ground (arith, held_by-hold_all m.name holds_nothing current)
