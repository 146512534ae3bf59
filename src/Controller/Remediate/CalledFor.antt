-- ===== src/Controller/Remediate/CalledFor.antt =====
-- What a remediation asks for, by what the signal and the checks of the Machine call for.
use nvsentinel_capi_remediat.Common.{
  String, ◌==◌, ◌≡◌, refl, sym, ap, ◌∙◌, Bool, true, false, not, ◌&&◌, Bool-cases, inl, inr, ◌⊎◌,
  Option, some, if◌then◌else◌, arith, eq_iff,
}
use nvsentinel_capi_remediat.Objects.{Machine, Library}
use nvsentinel_capi_remediat.Decision.{
  Decision, report, restart, replace, unset, same_decision, decision_name,
}
use nvsentinel_capi_remediat.World.{Effect, patched, answered, recorded}
use nvsentinel_capi_remediat.Capi.Note.{action_remediate, action_restart}
use nvsentinel_capi_remediat.Capi.Guard.{is_paused, is_opted_out}
use nvsentinel_capi_remediat.Capi.Coverage.{coverage_of, covered, templates_only}
use nvsentinel_capi_remediat.Capi.Actuator.{marked_action, marked_for}
use nvsentinel_capi_remediat.Controller.State.{
  Config, RestartFallback, restart_fallback, fallback_name,
}
use nvsentinel_capi_remediat.Controller.Plan.{Case, Plan, escalates, is_unavailable, plan_for}

restart_is_not_replace :
    (d : Decision) → same_decision d restart ≡ true → same_decision d replace ≡ false
unfolding same_decision decision_name
restart_is_not_replace restart e = refl
restart_is_not_replace report e = refl
restart_is_not_replace replace e = sym e
restart_is_not_replace unset e = refl

falls_back_if :
    (templates cov : Bool) (zero_value : RestartFallback × String)
    (choice : RestartFallback × String)
    → templates ≡ false
    → (true
        && not (
            true
            && not templates
            && (fallback_name (if true && not templates then choice else zero_value).0 == "replace")
            && cov))
      ≡ not ((fallback_name choice.0 == "replace") && cov)
falls_back_if true cov zero_value choice e = absurd (ground arith)
falls_back_if false cov zero_value choice e = refl

module _ (lib : Library) (r : Config) (c : Case) (m : Machine) where
  abbrev pub calls_restart : Bool
  calls_restart = same_decision c.outcome.decision restart

  -- a restart that no template carries out, on a Cluster that wants a replacement in its place
  abbrev pub FallsBack : Type 0
  FallsBack =
      (calls_restart ≡ true)
      × (templates_only (coverage_of lib c.checks m) ≡ false)
      × (fallback_name (restart_fallback lib r c.cluster).0 ≡ "replace")
      × (covered (coverage_of lib c.checks m) ≡ true)

  -- the marks that the signal and the checks call for
  pub data IsCalledFor (action : Option String) : Type 0 where
    restarts :
        calls_restart ≡ true
        → templates_only (coverage_of lib c.checks m) ≡ true
        → action ≡ some action_restart
        → IsCalledFor action
    replaces :
        calls_restart ≡ false
        → covered (coverage_of lib c.checks m) ≡ true
        → action ≡ some action_remediate
        → IsCalledFor action
    falls_back : FallsBack → action ≡ some action_remediate → IsCalledFor action

  -- A new mark is called for; a mark that is turned is a restart mark turned into a replacement
  -- mark, for a signal that calls for no restart, or whose restart falls back on a Machine that is
  -- neither paused nor opted out.
  abbrev pub HasCover : Effect → Type 0
  HasCover (patched false base updated) = IsCalledFor (marked_action updated)
  HasCover (patched true base updated) =
      (marked_for base action_restart ≡ true)
      × (marked_action updated ≡ some action_remediate)
      × ((calls_restart ≡ false) ⊎ (FallsBack × (is_paused m ≡ false) × (is_opted_out m ≡ false)))
  HasCover (answered obj items) = ⊥
  HasCover (recorded e) = Unit {0}
  HasCover _ = ⊥

  pub data Planned (p : Plan) : Type 0 where
    plain : calls_restart ≡ false → p.restart ≡ false → p.action ≡ action_remediate → Planned p
    restarting :
        calls_restart ≡ true
        → templates_only (coverage_of lib c.checks m) ≡ true
        → p.restart ≡ true
        → p.action ≡ action_restart
        → Planned p
    falling_back : FallsBack → p.restart ≡ false → p.action ≡ action_remediate → Planned p
    reporting : p.restart ≡ true → p.restart_unavailable ≡ true → Planned p

  plan_restart :
      (b v : Bool)
      → calls_restart ≡ true
      → templates_only (coverage_of lib c.checks m) ≡ false
      → (fallback_name (restart_fallback lib r c.cluster).0 == "replace") ≡ b
      → covered (coverage_of lib c.checks m) ≡ v
      → (plan_for lib r c m).restart ≡ not (b && v)
  unfolding plan_for
  plan_restart b v called short f g = rw called (
      falls_back_if _ _ _ (restart_fallback lib r c.cluster) short
      ∙ ap (λ x. not (x && covered (coverage_of lib c.checks m))) f
      ∙ ap (λ x. not (b && x)) g)

  plan_unavailable :
      calls_restart ≡ true
      → templates_only (coverage_of lib c.checks m) ≡ false
      → (plan_for lib r c m).restart_unavailable ≡ true
  unfolding plan_for
  plan_unavailable called short =
      ap (λ x. x && not (templates_only (coverage_of lib c.checks m))) called ∙ ap not short

  plan_action :
      (plan_for lib r c m).action
      ≡ (if (plan_for lib r c m).restart then action_restart else action_remediate)
  unfolding plan_for
  plan_action = refl

  lacking :
      calls_restart ≡ true
      → templates_only (coverage_of lib c.checks m) ≡ false
      → Planned (plan_for lib r c m)
  lacking called short =
      elim (Bool-cases (fallback_name (restart_fallback lib r c.cluster).0 == "replace")) [
        | inr f ↦ reporting (plan_restart _ _ called short f refl) (plan_unavailable called short)
        | inl f ↦ elim (Bool-cases (covered (coverage_of lib c.checks m))) [
          | inr u ↦ reporting (plan_restart _ _ called short f u) (plan_unavailable called short)
          | inl v ↦
              let rest = plan_restart _ _ called short f v in
              falling_back (called, short, (eq_iff _ _).0 f, v) rest
                (plan_action ∙ ap (λ x. if x then action_restart else action_remediate) rest)
        ]
      ]

  pub planned : Planned (plan_for lib r c m)
  unfolding plan_for
  planned = elim (Bool-cases calls_restart) [
    | inr n ↦ plain n (rw n refl) (rw n refl)
    | inl called ↦ elim (Bool-cases (templates_only (coverage_of lib c.checks m))) [
      | inl all ↦ restarting called all (rw (called, all) refl) (rw (called, all) refl)
      | inr short ↦ lacking called short
    ]
  ]

  pub plan_coverage : (plan_for lib r c m).coverage ≡ coverage_of lib c.checks m
  unfolding plan_for
  plan_coverage = refl

  available_covered :
      (p : Plan) → is_unavailable p ≡ false → p.restart ≡ false → covered p.coverage ≡ true
  unfolding is_unavailable
  available_covered p available rest = ground arith

  pub IsCalledFor-Planned :
      (p : Plan) (action : Option String)
      → Planned p
      → p.coverage ≡ coverage_of lib c.checks m
      → is_unavailable p ≡ false
      → action ≡ some p.action
      → IsCalledFor action
  unfolding is_unavailable
  IsCalledFor-Planned p action (plain n rest act) cov available e =
      replaces n (rw (← cov) (available_covered p available rest)) (rw (← act) e)
  IsCalledFor-Planned p action (restarting called all rest act) cov available e =
      restarts called all (rw (← act) e)
  IsCalledFor-Planned p action (falling_back f rest act) cov available e =
      falls_back f (rw (← act) e)
  IsCalledFor-Planned p action (reporting rest u) cov available e = absurd (ground arith)

  pub turned_for-Planned :
      (p : Plan)
      → Planned p
      → escalates c p m ≡ true
      → (calls_restart ≡ false) ⊎ (FallsBack × (is_paused m ≡ false) × (is_opted_out m ≡ false))
  unfolding escalates
  turned_for-Planned p (plain n rest act) e = inl n
  turned_for-Planned p (restarting called all rest act) e = absurd (ground arith)
  turned_for-Planned p (falling_back f rest act) e =
      let other = restart_is_not_replace c.outcome.decision f.0 in
      inr (f, ground (arith, other), ground (arith, other))
  turned_for-Planned p (reporting rest u) e = absurd (ground arith)
