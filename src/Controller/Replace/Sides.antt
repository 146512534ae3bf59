-- ===== src/Controller/Replace/Sides.antt =====
-- The calls of a replace request whose effects need nothing of those before them.
use nvsentinel_capi_remediat.Common.{
  String, ◌≡◌, ◌≢◌, refl, sym, ◌∙◌, Bool, true, false, ◌||◌, List, [], ◌∷◌, All, is_empty, none,
  some, lookup, lookup-insert_self, lookup-remove, is_blank, Bool-cases, inl, inr,
}
use nvsentinel_capi_remediat.Objects.{Machine, Library}
use nvsentinel_capi_remediat.World.{
  M, Result, ok, err, forbidden, not_found, Client, patch, patched,
}
use nvsentinel_capi_remediat.World.Adds.{Adds, Adds-bind, Adds-write, Adds-record_event}
use nvsentinel_capi_remediat.Capi.Note.{utf8}
use nvsentinel_capi_remediat.Capi.Note.Length.{event_note_fits}
use nvsentinel_capi_remediat.Capi.Actuator.{machine_event}
use nvsentinel_capi_remediat.Quarantine.Device.{Device}
use nvsentinel_capi_remediat.Quarantine.Client.{Apis, Toolkit}
use nvsentinel_capi_remediat.Quarantine.Try.{
  Try, done, failed, Failure, rejection, api_error, plain_error,
}
use nvsentinel_capi_remediat.Quarantine.Request.{replace_status_annotation, status_replacing}
use nvsentinel_capi_remediat.Quarantine.Request.Selection.{lists}
use nvsentinel_capi_remediat.Quarantine.Request.Parsing.{rejected_not_replacing}
use nvsentinel_capi_remediat.Quarantine.Rules.{Owner}
use nvsentinel_capi_remediat.Quarantine.Adds.{ensure-Adds}
use nvsentinel_capi_remediat.Controller.Steps.Carry.{
  carry_rules, Adds-continue, Adds-break, Adds-end, Adds-steps,
}
use nvsentinel_capi_remediat.Controller.Replace.{
  Quarantiner, with_status, note_event, status_set, set_status, reject, fail, or_fail, trying,
  ensure_all, missing_unless, replaced,
}
use nvsentinel_capi_remediat.Controller.Replace.Warrant.{Announces, IsSide, IsRequested}

some_same : (a b : String) → some a ≡ some b → a ≡ b
some_same a b h = cc h

pub status_found :
    (m : Machine) (status : String)
    → is_blank status ≡ false
    → lookup replace_status_annotation (with_status m status).annotations ≡ some status
unfolding with_status
status_found m status b = rw b (lookup-insert_self replace_status_annotation status m.annotations)

status_gone :
    (m : Machine) (status : String)
    → is_blank status ≡ true
    → lookup replace_status_annotation (with_status m status).annotations ≡ none
unfolding with_status
status_gone m status b =
    rw b (lookup-remove replace_status_annotation replace_status_annotation m.annotations)

-- a status that is not the last one does not announce the replacement
quiet_status :
    (m : Machine) (status : String)
    → status ≢ status_replacing
    → Announces (with_status m status)
    → ⊥
quiet_status m status n a = elim (Bool-cases (is_blank status)) [
  | inl b ↦ cc (a, status_gone m status b)
  | inr b ↦ n (some_same _ _ (sym (status_found m status b) ∙ a))
]

module _ {S : Type 0} (lib : Library) (tools : Toolkit) (r : Quarantiner) (client : Client S)
    (apis : Apis S) (m0 : Machine) where
  -- every effect of the call needs nothing of those before it
  abbrev pub IsSided : {A : Type 0} → M S A → Type 0
  IsSided a = Adds (IsSide lib tools r m0) a

  pub note_event-Sided :
      (m : Machine) (reason note : String)
      → r.dry_run ≡ false
      → IsSided (note_event lib tools r client apis m reason note)
  unfolding note_event machine_event
  note_event-Sided m reason note live =
      Adds-bind _ _ (Adds-record_event _ (live, (event_note_fits (utf8 note)).0))
        (λ u. Adds-continue u)

  status_set-Sided :
      (m : Machine) (q : Result Machine) → IsSided (status_set lib tools r client apis m q)
  unfolding status_set
  status_set-Sided m (ok m') = Adds-continue m'
  status_set-Sided m (err e) = Adds-break _

  sent-Sided :
      (m : Machine) (status : String)
      → r.dry_run ≡ false
      → status ≢ status_replacing
      → IsSided (patch client true m (with_status m status))
  unfolding patch
  sent-Sided m status live n =
      Adds-write (patched true m (with_status m status)) _
        (live, (refl, (status, refl)), quiet_status m status n)

  pub set_status-Sided :
      (m : Machine) (status : String)
      → r.dry_run ≡ false
      → status ≢ status_replacing
      → IsSided (set_status lib tools r client apis m status)
  unfolding set_status
  set_status-Sided m status live n = search (carry_rules, status_set-Sided, sent-Sided)

  pub reject-Sided :
      {A : Type 0} (m : Machine) (request reason text : String)
      → IsSided (reject lib tools r client apis {A = A} m request reason text)
  unfolding reject
  reject-Sided m request reason text =
      search (carry_rules, set_status-Sided, note_event-Sided, rejected_not_replacing reason)

  pub fail-Sided :
      {A : Type 0} (m : Machine) (request : String) (e : Failure)
      → IsSided (fail lib tools r client apis {A = A} m request e)
  unfolding fail
  fail-Sided m request (rejection reason text) = reject-Sided m request reason text
  fail-Sided m request (api_error context forbidden) = reject-Sided m request _ _
  fail-Sided m request (api_error context e) = Adds-break _
  fail-Sided m request (plain_error text) = Adds-break _

  pub or_fail-Sided :
      {A : Type 0} (m : Machine) (request : String) (t : Try A)
      → IsSided (or_fail lib tools r client apis m request t)
  unfolding or_fail
  or_fail-Sided m request (done a) = Adds-continue a
  or_fail-Sided m request (failed e) = fail-Sided m request e

  pub trying-Sided :
      {A : Type 0} (m : Machine) (request : String) (a : M S (Try A))
      → IsSided a
      → IsSided (trying lib tools r client apis m request a)
  unfolding trying
  trying-Sided m request a h = Adds-bind _ _ h (λ t. or_fail-Sided m request t)

  pub ensure_all-Sided :
      (m : Machine) (request : String) (owner : Owner) (names : List String) (ds : List Device)
      → r.dry_run ≡ false
      → IsRequested lib tools r m0 names
      → All
          (λ d. (lists r.drivers d.driver ≡ true) × ((is_empty names || lists names d.name) ≡ true))
          ds
      → IsSided (ensure_all lib tools r client apis m request owner ds)
  unfolding ensure_all
  ensure_all-Sided m request owner names [] live asked h = Adds-continue tt
  ensure_all-Sided m request owner names (d ∷ ds) live asked h =
      Adds-steps _ _
        (trying-Sided m request _ (
          ensure-Adds (λ rule. tt) lib tools client apis d owner
            (λ version now. (live, (names, asked, (version, d, owner, now, refl, h.0.0, h.0.1))))))
        (λ b. ensure_all-Sided m request owner names ds live asked h.1)

  pub missing_unless-Sided :
      (d : Device) (there : Bool) → IsSided (missing_unless lib tools r client apis d there)
  unfolding missing_unless
  missing_unless-Sided d true = Adds-continue tt
  missing_unless-Sided d false = Adds-break _

  pub replaced-Sided :
      (m : Machine) (request : String) (ds : List Device) (q : Result (Unit {0}))
      → r.dry_run ≡ false
      → IsSided (replaced lib tools r client apis m request ds q)
  unfolding replaced
  replaced-Sided m request ds (ok u) live = note_event-Sided _ _ _ live
  replaced-Sided m request ds (err not_found) live = Adds-end
  replaced-Sided m request ds (err e) live = fail-Sided m request _
