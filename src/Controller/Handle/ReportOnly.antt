-- ===== src/Controller/Handle/ReportOnly.antt =====
-- What handling a signal does to a cluster that NVSentinel's janitor remediates itself.
use nvsentinel_capi_remediat.Common.{
  String, ◌≡◌, refl, Bool, true, false, not, ◌&&◌, ◌||◌, Bool-cases, inl, inr, [], Option, none,
  some, Dict, All, arith, is_blank, is_some,
}
use nvsentinel_capi_remediat.Objects.{Machine, Library}
use nvsentinel_capi_remediat.Signal.{Signal}
use nvsentinel_capi_remediat.Decision.{
  Decision, restart, replace, unset, Outcome, Table, same_decision, decision_name, decide,
}
use nvsentinel_capi_remediat.World.{M, Client, Effect, recorded, Event, Subject}
use nvsentinel_capi_remediat.World.Emits.{Emits, emits_rules, Emits-pure, Emits-if}
use nvsentinel_capi_remediat.Controller.Mode.{report_only_mode, report_only, mode_name}
use nvsentinel_capi_remediat.Controller.State.{Config, Observation}
use nvsentinel_capi_remediat.Controller.Waits.{ChecksWait}
use nvsentinel_capi_remediat.Controller.Remediate
use nvsentinel_capi_remediat.Controller.Handle.{
  Input, outcome_in, first_observation, handle, handle_present, handle_owned, handle_unowned,
  handle_reported,
}

abbrev pub IsEvent : Effect → Type 0
IsEvent (recorded e) = Unit {0}
IsEvent _ = ⊥

abbrev acts : Decision → Bool
acts d = same_decision d replace || same_decision d restart

reported_rests : (d : Decision) → same_decision d Decision.report ≡ true → acts d ≡ false
unfolding same_decision decision_name
reported_rests Decision.report e = refl
reported_rests restart e = absurd (ground arith)
reported_rests replace e = absurd (ground arith)
reported_rests unset e = refl

outcome_rests :
    (t : Table) (sig : Signal) → acts (outcome_in t report_only_mode sig).decision ≡ false
unfolding outcome_in report_only mode_name
outcome_rests t sig = elim (Bool-cases (same_decision (decide t sig).decision Decision.report)) [
  | inl e ↦ rw e (reported_rests (decide t sig).decision e)
  | inr e ↦ rw e (reported_rests Decision.report refl)
]

event-IsEvent : (e : Event) → IsEvent (recorded e)
event-IsEvent e = tt

module _ {S : Type 0} (lib : Library) (r : Config) (client : Client S) where
  abbrev Reports : {A : Type 0} → M S A → Type 0
  Reports a = Emits IsEvent a

  report-Reports :
      (news : Bool) (subject : Subject) (reason action message : String)
      → Reports (Remediate.report lib r client news subject reason action message)
  unfolding Remediate.report
  report-Reports news subject reason action message = search (emits_rules, event-IsEvent)

  handle_unowned-Reports :
      (i : Input) (obs : Observation) (waits : Dict ChecksWait)
      → Reports (handle_unowned lib r client i obs waits)
  unfolding handle_unowned
  handle_unowned-Reports i obs waits = search (emits_rules, report-Reports)

  handle_reported-Reports :
      (i : Input) (o : Outcome) (obs : Observation) (m : Machine) (waits : Dict ChecksWait)
      → Reports (handle_reported lib r client i o obs m waits)
  unfolding handle_reported
  handle_reported-Reports i o obs m waits = search (emits_rules, report-Reports)

  handle_owned-Reports :
      (i : Input) (o : Outcome) (obs : Observation) (m : Machine) (waits : Dict ChecksWait)
      → acts o.decision ≡ false
      → Reports (handle_owned lib r client i o obs m waits)
  unfolding handle_owned
  handle_owned-Reports i o obs m waits rests =
      Emits-if (not (acts o.decision)) _ _ (λ _. handle_reported-Reports i o obs m waits)
        (λ e. absurd (ground (arith, rests, e)))

  handle_present-Reports :
      (i : Input) (o : Outcome) (obs : Observation) (machine : Option Machine)
      (waits : Dict ChecksWait)
      → acts o.decision ≡ false
      → Reports (handle_present lib r client i o obs machine waits)
  unfolding handle_present
  handle_present-Reports i o obs none waits rests = handle_unowned-Reports i obs waits
  handle_present-Reports i o obs (some m) waits rests = handle_owned-Reports i o obs m waits rests

  handle-Reports :
      (i : Input) (machine : Option Machine) (waits : Dict ChecksWait)
      → acts (outcome_in r.table i.mode i.sig).decision ≡ false
      → Reports (handle lib r client i machine waits)
  unfolding handle
  handle-Reports i machine waits rests =
      let o = outcome_in r.table i.mode i.sig in
      Emits-if (not (is_some i.node) && not (is_blank i.sig.request)) _
        (handle_present lib r client i o (first_observation o i.sig machine) machine waits)
        (λ _. Emits-pure _) (λ _. handle_present-Reports i o _ machine waits rests)

  -- In report-only mode, whatever the table says and the checks could carry out, handling a signal
  -- patches no Machine and answers no request: it only records Events.
  pub handle-IsEvent :
      (i : Input) (machine : Option Machine) (waits : Dict ChecksWait) (server : S)
      → i.mode ≡ report_only_mode
      → All IsEvent
          (handle lib r client i machine waits (record { server = server; effects = [] })).1.effects
  handle-IsEvent i machine waits server mode =
      (handle-Reports i machine waits (rw mode (outcome_rests r.table i.sig))).at
        (record { server = server; effects = [] }) tt
