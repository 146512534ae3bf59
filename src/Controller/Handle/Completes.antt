-- ===== src/Controller/Handle/Completes.antt =====
-- When a request is told that its remediation is complete.
use nvsentinel_capi_remediat.Common.{
  String, ◌≡◌, refl, Bool, true, false, not, ◌&&◌, ◌||◌, inl, inr, Option, none, some, Dict, arith,
  is_blank, is_some, ◌⊎◌,
}
use nvsentinel_capi_remediat.Objects.{Machine, Library}
use nvsentinel_capi_remediat.Signal.{Signal}
use nvsentinel_capi_remediat.Decision.{restart, replace, Outcome, same_decision}
use nvsentinel_capi_remediat.World.{M, World, pure, ◌>>=◌, Result, ok, err, Client}
use nvsentinel_capi_remediat.World.Yields.{Yields, Yields-pure, Yields-bind, Yields-then, Yields-if}
use nvsentinel_capi_remediat.Capi.Guard.{SkipReason, not_skipped, guard, unless_skipped}
use nvsentinel_capi_remediat.Capi.Actuator.{restart_completed, restart_answers}
use nvsentinel_capi_remediat.Controller.State.{Config, Observation, decline}
use nvsentinel_capi_remediat.Controller.Waits.{ChecksWait, held_for_checks}
use nvsentinel_capi_remediat.Controller.Remediate.{
  after_mark, mark, hold_or_mark, remediate_covered, remediate_guarded, after_escalation, remediate,
}
use nvsentinel_capi_remediat.Controller.Plan.{
  Case, Plan, Done, is_finished, plan_for, is_unavailable, skipped, declined, with_coverage,
}
use nvsentinel_capi_remediat.Controller.Handle.{
  Input, Handled, case_of, outcome_in, first_observation, handle, handle_present, handle_owned,
  handle_unowned, handle_reported,
}

abbrev Open : Observation → Type 0
Open obs = obs.answer.complete ≡ false

abbrev OpenDone : Done → Type 0
OpenDone d = Open d.observation

decline-Open :
    (sig : Signal) (reason message : String) → (decline sig reason message).complete ≡ false
unfolding decline
decline-Open sig reason message = ground arith

skipped-Open : (c : Case) (skip : SkipReason) → Open c.obs → Open (skipped c skip)
unfolding skipped decline
skipped-Open c skip h = ground arith

declined-Open :
    (c : Case) (obs : Observation) (waiting : Bool) (message : String)
    → Open obs
    → Open (declined c obs waiting message)
unfolding declined decline
declined-Open c obs waiting message h = ground arith

module _ {S : Type 0} (lib : Library) (r : Config) (client : Client S) (c : Case) (p : Plan) where
  after_mark-Open :
      (obs : Observation) (waits : Dict ChecksWait) (q : Result SkipReason × Machine)
      → Open obs
      → Yields OpenDone (after_mark lib r client obs waits q)
  unfolding after_mark
  after_mark-Open obs waits (ok _, m) h = Yields-pure _ _ h
  after_mark-Open obs waits (err _, m) h = Yields-pure _ _ refl

  mark-Open :
      (obs : Observation) (m : Machine) (waits : Dict ChecksWait)
      → Open obs
      → Yields OpenDone (mark lib r client c p obs m waits)
  unfolding mark
  mark-Open obs m waits h =
      Yields-if _ r.dry_run _ _ (λ _. Yields-pure _ _ h)
        (λ _. Yields-bind _ _ _ (λ q. after_mark-Open obs waits q h))

  hold_or_mark-Open :
      (obs : Observation) (m : Machine) (waits : Dict ChecksWait)
      → Open obs
      → Yields OpenDone (hold_or_mark lib r client c p obs m waits)
  unfolding hold_or_mark
  hold_or_mark-Open obs m waits h =
      Yields-if _ (not p.restart) _ _ (λ _. mark-Open obs m waits h)
        λ _. Yields-bind _ _ _ λ now.
          Yields-if _ (held_for_checks lib now waits m).held _ _ (λ _. Yields-pure _ _ h)
            (λ _. mark-Open obs m _ h)

  remediate_covered-Open :
      (obs : Observation) (m : Machine) (waits : Dict ChecksWait)
      → Open obs
      → Yields OpenDone (remediate_covered lib r client c p obs m waits)
  unfolding remediate_covered
  remediate_covered-Open obs m waits h =
      Yields-if _ (not (is_unavailable p)) _ _ (λ _. hold_or_mark-Open obs m waits h)
        λ _. Yields-then _ _ _ (Yields-pure _ _ (declined-Open c obs _ _ h))

  unless_skipped-Open :
      (s : SkipReason) (go : M S Done) (stop : SkipReason → M S Done)
      → Yields OpenDone go
      → ((k : SkipReason) → Yields OpenDone (stop k))
      → Yields OpenDone (unless_skipped s go stop)
  unfolding unless_skipped
  unless_skipped-Open not_skipped go stop g h = g
  unless_skipped-Open s go stop g h = h s

  with_coverage-Open : (obs : Observation) → Open obs → Open (with_coverage p obs)
  unfolding with_coverage
  with_coverage-Open obs h = h

  remediate_guarded-Open :
      (m : Machine) (waits : Dict ChecksWait)
      → Open c.obs
      → Yields OpenDone (remediate_guarded lib r client c p m waits)
  unfolding remediate_guarded
  remediate_guarded-Open m waits h =
      unless_skipped-Open (guard m) _ _
        (remediate_covered-Open _ m waits (with_coverage-Open c.obs h))
        (λ k. Yields-then _ _ _ (Yields-pure _ _ (skipped-Open c k h)))

  after_escalation-Open :
      (waits : Dict ChecksWait) (q : Result Bool × Machine)
      → Open c.obs
      → Yields OpenDone (after_escalation lib r client c p waits q)
  unfolding after_escalation
  after_escalation-Open waits (ok _, m) h = remediate_guarded-Open m waits h
  after_escalation-Open waits (err _, m) h = Yields-pure _ _ refl

-- What the request is told is complete: the signal calls for a restart, and the node of the Machine
-- has come back from the restart that was asked for through this request.
pub record IsRestarted (r : Config) (i : Input) (m : Machine) : Type 0 where
  pub called : same_decision (outcome_in r.table i.mode i.sig).decision restart ≡ true
  pub asked : is_blank i.sig.request ≡ false
  pub completed : restart_completed m i.node ≡ true
  pub answers : restart_answers m i.sig.request ≡ true

-- a complete answer comes with the Machine that was restarted
abbrev pub IsJustified : Config → Input → Option Machine → Handled → Type 0
IsJustified r i machine h =
    Open h.observation ⊎ ((m : Machine) × (machine ≡ some m) × IsRestarted r i m)

module _ {S : Type 0} (lib : Library) (r : Config) (client : Client S) where
  abbrev OrFinished : Case → Machine → Done → Type 0
  OrFinished c m d = OpenDone d ⊎ (is_finished c m ≡ true)

  Open-OrFinished :
      (c : Case) (m : Machine) (a : M S Done) → Yields OpenDone a → Yields (OrFinished c m) a
  Open-OrFinished c m a y = record { at = λ w. inl (y.at w) }

  remediate-OrFinished :
      (c : Case) (m : Machine) (waits : Dict ChecksWait)
      → Open c.obs
      → Yields (OrFinished c m) (remediate lib r client c m waits)
  unfolding remediate
  remediate-OrFinished c m waits h =
      Yields-if _ (is_finished c m) _ _ (λ f. Yields-pure _ _ (inr f))
        λ _. Yields-bind _ _ _ λ q.
          Open-OrFinished c m _
            (after_escalation-Open lib r client c (plan_for lib r c m) waits q h)

  first-Open :
      (o : Outcome) (sig : Signal) (machine : Option Machine)
      → Open (first_observation o sig machine)
  unfolding first_observation
  first-Open o sig machine = refl

  handle_unowned-Open :
      (i : Input) (obs : Observation) (waits : Dict ChecksWait)
      → Yields (λ h. Open h.observation) (handle_unowned lib r client i obs waits)
  unfolding handle_unowned
  handle_unowned-Open i obs waits = Yields-then _ _ _ (Yields-pure _ _ (decline-Open i.sig _ _))

  handle_reported-Open :
      (i : Input) (o : Outcome) (obs : Observation) (m : Machine) (waits : Dict ChecksWait)
      → Yields (λ h. Open h.observation) (handle_reported lib r client i o obs m waits)
  unfolding handle_reported
  handle_reported-Open i o obs m waits =
      Yields-then _ _ _ (Yields-pure _ _ (decline-Open i.sig _ _))

  restarted :
      (i : Input) (o : Outcome) (obs : Observation) (m : Machine)
      → o ≡ outcome_in r.table i.mode i.sig
      → is_finished (case_of i o obs) m ≡ true
      → IsRestarted r i m
  unfolding is_finished
  restarted i o obs m e f = record {
    called = rw (← e) (ground arith);
    asked = ground arith;
    completed = ground arith;
    answers = ground arith;
  }

  handle_owned-IsJustified :
      (i : Input) (o : Outcome) (obs : Observation) (m : Machine) (waits : Dict ChecksWait)
      → o ≡ outcome_in r.table i.mode i.sig
      → Open obs
      → Yields (IsJustified r i (some m)) (handle_owned lib r client i o obs m waits)
  unfolding handle_owned ◌>>=◌ pure
  handle_owned-IsJustified i o obs m waits e h =
      Yields-if _ (not (same_decision o.decision replace || same_decision o.decision restart)) _ _
        (λ _. record { at = λ w. inl ((handle_reported-Open i o obs m waits).at w) })
        (λ _. record {
          at = λ w. elim ((remediate-OrFinished (case_of i o obs) m waits h).at w) [
            | inl u ↦ inl u
            | inr f ↦ inr (m, refl, restarted i o obs m e f)
          ];
        })

  handle-IsJustified :
      (i : Input) (machine : Option Machine) (waits : Dict ChecksWait)
      → Yields (IsJustified r i machine) (handle lib r client i machine waits)
  unfolding handle handle_present
  handle-IsJustified i none waits =
      let o = outcome_in r.table i.mode i.sig in
      let obs = first_observation o i.sig none in
      Yields-if _ (not (is_some i.node) && not (is_blank i.sig.request)) _
        (handle_unowned lib r client i obs waits)
        (λ _. Yields-pure _ _ (inl (first-Open o i.sig none)))
        (λ _. record { at = λ w. inl ((handle_unowned-Open i obs waits).at w) })
  handle-IsJustified i (some m) waits =
      let o = outcome_in r.table i.mode i.sig in
      let obs = first_observation o i.sig (some m) in
      Yields-if _ (not (is_some i.node) && not (is_blank i.sig.request)) _
        (handle_owned lib r client i o obs m waits)
        (λ _. Yields-pure _ _ (inl (first-Open o i.sig (some m))))
        (λ _. handle_owned-IsJustified i o obs m waits refl (first-Open o i.sig (some m)))

  -- If handling a signal concludes that its request is complete, a Machine owns the signal's node,
  -- the decision is a restart, the signal names a request, the node has restarted since the Machine
  -- was marked and is Ready, and the mark answers for that request.
  pub handle_complete :
      (i : Input) (machine : Option Machine) (waits : Dict ChecksWait) (w : World S)
      → (handle lib r client i machine waits w).0.observation.answer.complete ≡ true
      → (m : Machine) × (machine ≡ some m) × IsRestarted r i m
  handle_complete i machine waits w e = elim ((handle-IsJustified i machine waits).at w) [
    | inl u ↦ absurd (ground arith)
    | inr j ↦ j
  ]
