-- ===== src/Controller/PassWrites.antt =====
-- What handling, answering and releasing write and record.
use nvsentinel_capi_remediat.Common.{
  ℕ, zero, suc, String, ◌≡◌, Bool, false, List, [], ◌∷◌, Option, none, some, Dict,
}
use nvsentinel_capi_remediat.Objects.{Machine, Cluster, Library}
use nvsentinel_capi_remediat.Signal.{Signal}
use nvsentinel_capi_remediat.Decision.{Outcome}
use nvsentinel_capi_remediat.World.{Result, ok, err, Client, recorded}
use nvsentinel_capi_remediat.World.Emits.{Emits, emits_rules, Emits-pure, Emits-if, Emits-bind}
use nvsentinel_capi_remediat.Capi.Note.{utf8}
use nvsentinel_capi_remediat.Capi.Note.Length.{event_note_fits}
use nvsentinel_capi_remediat.Capi.Actuator.Writes.{IsAllowed, release-Emits}
use nvsentinel_capi_remediat.Extrr
use nvsentinel_capi_remediat.Controller.State.{Config, Observation, Answer}
use nvsentinel_capi_remediat.Controller.Waits.{ChecksWait}
use nvsentinel_capi_remediat.Controller.Handle.{
  Input, handle, handle_unowned, handle_reported, handle_owned, handle_present,
}
use nvsentinel_capi_remediat.Controller.Answers.{
  Attempt, RestartMark, release_again, retry_release, release_answered, answered_event,
  release_owner, after_answer, answer,
}
use nvsentinel_capi_remediat.Controller.Release.{
  Released, Holding, release_if, release_round, release_all,
}
use nvsentinel_capi_remediat.Controller.Writes.{answer_request-Emits, report-Emits, remediate-Emits}

module _ {S : Type 0} (lib : Library) (r : Config) (client : Client S) where
  handle_unowned-Emits :
      (i : Input) (obs : Observation) (waits : Dict ChecksWait)
      → Emits (IsAllowed r.dry_run) (handle_unowned lib r client i obs waits)
  unfolding handle_unowned
  handle_unowned-Emits i obs waits = search (emits_rules, report-Emits)

  handle_reported-Emits :
      (i : Input) (o : Outcome) (obs : Observation) (m : Machine) (waits : Dict ChecksWait)
      → Emits (IsAllowed r.dry_run) (handle_reported lib r client i o obs m waits)
  unfolding handle_reported
  handle_reported-Emits i o obs m waits = search (emits_rules, report-Emits)

  handle_owned-Emits :
      (i : Input) (o : Outcome) (obs : Observation) (m : Machine) (waits : Dict ChecksWait)
      → Emits (IsAllowed r.dry_run) (handle_owned lib r client i o obs m waits)
  unfolding handle_owned
  handle_owned-Emits i o obs m waits = search (emits_rules, handle_reported-Emits, remediate-Emits)

  handle_present-Emits :
      (i : Input) (o : Outcome) (obs : Observation) (m : Option Machine) (waits : Dict ChecksWait)
      → Emits (IsAllowed r.dry_run) (handle_present lib r client i o obs m waits)
  unfolding handle_present
  handle_present-Emits i o obs none waits = handle_unowned-Emits i obs waits
  handle_present-Emits i o obs (some m) waits = handle_owned-Emits i o obs m waits

  pub handle-Emits :
      (i : Input) (m : Option Machine) (waits : Dict ChecksWait)
      → Emits (IsAllowed r.dry_run) (handle lib r client i m waits)
  unfolding handle
  handle-Emits i m waits = search (emits_rules, handle_present-Emits)

  release_again-Emits :
      (mark : RestartMark) (m : Machine) (reason : String) (q : Result Machine)
      → Emits (IsAllowed r.dry_run) (release_again lib r client mark m reason q)
  unfolding release_again
  release_again-Emits mark m reason (ok current) = search (emits_rules, release-Emits)
  release_again-Emits mark m reason (err e) = Emits-pure _

  retry_release-Emits :
      (tries : ℕ) (mark : RestartMark) (a : Attempt) (reason : String)
      → Emits (IsAllowed r.dry_run) (retry_release lib r client tries mark a reason)
  unfolding retry_release
  retry_release-Emits zero mark a reason = Emits-pure _
  retry_release-Emits (suc tries) mark a reason =
      let rest = λ (b : Attempt). retry_release-Emits tries mark b reason in
      search (emits_rules, release_again-Emits, rest)

  release_answered-Emits :
      (tries : ℕ) (m : Machine) (reason : String)
      → Emits (IsAllowed r.dry_run) (release_answered lib r client tries m reason)
  unfolding release_answered
  release_answered-Emits zero m reason = Emits-pure _
  release_answered-Emits (suc tries) m reason =
      search (emits_rules, release-Emits, retry_release-Emits)

  release_owner-Emits :
      (tries : ℕ) (a : Answer) (m : Option Machine)
      → Emits (IsAllowed r.dry_run) (release_owner lib r client tries a m)
  unfolding release_owner
  release_owner-Emits tries a none = Emits-pure _
  release_owner-Emits tries a (some m) = search (emits_rules, release_answered-Emits)

  answered_event-IsAllowed :
      (cluster : Cluster) (m : Option Machine) (sig : Signal) (a : Answer)
      → r.dry_run ≡ false
      → IsAllowed r.dry_run (recorded (answered_event lib r client cluster m sig a))
  unfolding answered_event
  answered_event-IsAllowed cluster m sig a live = (live, (event_note_fits (utf8 _)).0)

  after_answer-Emits :
      (tries : ℕ) (cluster : Cluster) (m : Option Machine) (sig : Signal) (a : Answer)
      (q : Result Bool)
      → r.dry_run ≡ false
      → Emits (IsAllowed r.dry_run) (after_answer lib r client tries cluster m sig a q)
  unfolding after_answer
  after_answer-Emits tries cluster m sig a (err e) live = Emits-pure _
  after_answer-Emits tries cluster m sig a (ok answered) live =
      search (emits_rules, answered_event-IsAllowed, release_owner-Emits)

  pub answer-Emits :
      (tries : ℕ) (cluster : Cluster) (m : Option Machine) (sig : Signal) (a : Answer)
      → Emits (IsAllowed r.dry_run) (answer lib r client tries cluster m sig a)
  unfolding answer Extrr.answer
  answer-Emits tries cluster m sig a =
      Emits-if r.dry_run _ _ (λ _. Emits-pure _)
        λ live. search (emits_rules, answer_request-Emits, after_answer-Emits)

  release_if-Emits :
      (source : String) (h : Holding) (node : String) (out : Released) (m : Option Machine)
      → Emits (IsAllowed r.dry_run) (release_if r client source h node out m)
  unfolding release_if
  release_if-Emits source h node out none = Emits-pure _
  release_if-Emits source h node out (some m) = search (emits_rules, release-Emits)

  pub release_all-Emits :
      (source : String) (h : Holding) (nodes : List String) (out : Released)
      → Emits (IsAllowed r.dry_run) (release_all r client source h nodes out)
  unfolding release_all release_round
  release_all-Emits source h [] out = Emits-pure _
  release_all-Emits source h (node ∷ nodes) out =
      Emits-bind _ _ (release_if-Emits source h node out _)
        (λ o. release_all-Emits source h nodes o)
