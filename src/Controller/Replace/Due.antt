-- ===== src/Controller/Replace/Due.antt =====
-- That the effects of the quarantine and of the deletion are warranted by those before them.
use nvsentinel_capi_remediat.Common.{
  String, ◌⧺◌, ◌≡◌, refl, true, false, ◌||◌, List, ◌∷◌, All, is_empty, arith, inr,
}
use nvsentinel_capi_remediat.Objects.{Machine, Cluster, Library}
use nvsentinel_capi_remediat.World.{Client, patch, Effect, patched, deleted}
use nvsentinel_capi_remediat.World.Adds.{Adds-if}
use nvsentinel_capi_remediat.World.Ensures.{
  Ensures, Keeps-both, Ensures-bind, Ensures-write, Ensures-weaken, Ensures-if, Ensures-from,
  Ensures-known,
}
use nvsentinel_capi_remediat.Quarantine.Device.{Device}
use nvsentinel_capi_remediat.Quarantine.Client.{Apis, Toolkit}
use nvsentinel_capi_remediat.Quarantine.Try.{done}
use nvsentinel_capi_remediat.Quarantine.Request.{status_replacing, status_quarantining, select}
use nvsentinel_capi_remediat.Quarantine.Request.Selection.{
  lists, holds-select, covers-select, All-holds,
}
use nvsentinel_capi_remediat.Quarantine.Request.Parsing.{quarantining_not_replacing}
use nvsentinel_capi_remediat.Quarantine.Rules.{covers}
use nvsentinel_capi_remediat.Quarantine.Adds.{devices-Adds}
use nvsentinel_capi_remediat.Quarantine.Confirmed.{AllConfirmed, Keeps-AllConfirmed}
use nvsentinel_capi_remediat.Controller.Steps.{◌>>=◌, continue}
use nvsentinel_capi_remediat.Controller.Steps.Carry.{
  OnNext, Ensures-steps, Ensures-continue, Ensures-end, Adds-continue,
}
use nvsentinel_capi_remediat.Controller.Replace.{
  Quarantiner, event_devices_quarantined, list_rules, owner_of, with_status, note_event, set_status,
  ensure_all, exist_all, set_unless_replacing, quarantine, delete,
}
use nvsentinel_capi_remediat.Controller.Replace.Warrant.{IsRequested, IsDue, Keeps-IsDue}
use nvsentinel_capi_remediat.Controller.Replace.Calls.{
  IsKept, regroup, sided, after_sided, known-Ensures, exist_all-AllConfirmed, status_set-Ensures,
}
use nvsentinel_capi_remediat.Controller.Replace.Sides.{
  IsSided, note_event-Sided, set_status-Sided, trying-Sided, ensure_all-Sided, replaced-Sided,
}

module _ {S : Type 0} (lib : Library) (tools : Toolkit) (r : Quarantiner) (client : Client S)
    (apis : Apis S) (m0 : Machine) where
  abbrev pub Due : List Effect → Type 0
  Due es = IsDue lib tools r m0 es

  module _ (names : List String) (asked : IsRequested lib tools r m0 names)
      (live : r.dry_run ≡ false) where
    -- the record after the patch that announces the replacement
    announced :
        (m : Machine) (ds : List Device) (es : List Effect)
        → covers ds names ≡ true
        → Due es × AllConfirmed ds es
        → Due (patched true m (with_status m status_replacing) ∷ es)
          × AllConfirmed ds (patched true m (with_status m status_replacing) ∷ es)
    announced m ds es c p = (
      ((live, (refl, (status_replacing, refl)), inr (names, asked, (ds, c, p.1))), p.0),
      (Keeps-AllConfirmed {H = λ e. Unit} ds).step (patched true m (with_status m status_replacing))
          es tt p.1,
    )

    sent-Ensures :
        (m : Machine) (ds : List Device)
        → covers ds names ≡ true
        → Ensures
            (λ es. Due es × AllConfirmed ds es)
            (patch client true m (with_status m status_replacing))
            (λ _ es. Due es × AllConfirmed ds es)
    unfolding patch
    sent-Ensures m ds c = Ensures-write _ _ _ (λ es p. announced m ds es c p)

    -- The status that announces the replacement is set once the devices are confirmed.
    announce-Ensures :
        (m : Machine) (ds : List Device)
        → covers ds names ≡ true
        → Ensures
            (λ es. Due es × AllConfirmed ds es)
            (set_status lib tools r client apis m status_replacing)
            (OnNext (λ es. Due es × AllConfirmed ds es) (λ _ es. Unit {0}))
    unfolding set_status
    announce-Ensures m ds c =
        Ensures-if _ _ _ _ (λ same. Ensures-continue _ m (λ es p. (p, tt)))
          (λ differs.
            Ensures-bind _ _ _ _ (sent-Ensures m ds c)
              (λ q. status_set-Ensures lib tools r client apis m0 m q))

    announce_unless-Ensures :
        (m : Machine) (status : String) (ds : List Device)
        → covers ds names ≡ true
        → Ensures
            (λ es. Due es × AllConfirmed ds es)
            (set_unless_replacing lib tools r client apis m status status_replacing)
            (OnNext (λ es. Due es × AllConfirmed ds es) (λ _ es. Unit {0}))
    unfolding set_unless_replacing
    announce_unless-Ensures m status ds c =
        Ensures-if _ _ _ _ (λ same. Ensures-continue _ m (λ es p. (p, tt)))
          (λ differs. announce-Ensures m ds c)

    -- the deletion, and what follows it
    pub delete-Ensures :
        (m : Machine) (request : String) (ds : List Device)
        → covers ds names ≡ true
        → Ensures
            (λ es. Due es × AllConfirmed ds es)
            (delete lib tools r client apis m request ds)
            (OnNext Due (λ _ es. Unit {0}))
    unfolding delete
    delete-Ensures m request ds c =
        Ensures-bind (λ _. Due) _ _ _
          (Ensures-write Due (deleted m) _ (λ es p. ((live, (names, asked, (ds, c, p.1))), p.0)))
          (λ q.
            sided lib tools r client apis m0 _ (Keeps-IsDue lib tools r m0)
              (replaced-Sided lib tools r client apis m0 m request ds q live))

  -- What the devices that a request selects have in common.
  asked_devices :
      (held ds : List Device) (names : List String)
      → select lib.quote tools.decimal held r.drivers names ≡ done ds
      → All
          (λ d. (lists r.drivers d.driver ≡ true) × ((is_empty names || lists names d.name) ≡ true))
          ds
  asked_devices held ds names e = All-holds _ ds (λ d h.
      let same = holds-select lib.quote tools.decimal r.drivers held names ds e d in
      (ground (arith, same, h), ground (arith, same, h)))

  module _ (names : List String) (asked : IsRequested lib tools r m0 names) where
    pub kept : IsKept lib tools r client apis m0 Due
    kept = Keeps-IsDue lib tools r m0

    -- what is known of the devices when they are quarantined
    abbrev pub IsQuarantined : Machine × List Device → List Effect → Type 0
    IsQuarantined q es = (r.dry_run ≡ false) × (covers q.1 names ≡ true) × AllConfirmed q.1 es

    finish-Ensures :
        (m : Machine) (ds : List Device) (note : String)
        → r.dry_run ≡ false
        → covers ds names ≡ true
        → Ensures
            (λ es. Due es × AllConfirmed ds es)
            (note_event lib tools r client apis m event_devices_quarantined note >>= λ u.
              continue (m, ds))
            (OnNext Due IsQuarantined)
    finish-Ensures m ds note live c =
        Ensures-steps (λ u es. AllConfirmed ds es × Unit {0}) _ _ _
          (Ensures-weaken _ _ _ (λ s es p. regroup lib tools r client apis m0 _ _ _ s es p)
            (sided lib tools r client apis m0 _ (Keeps-both kept (Keeps-AllConfirmed ds))
              (note_event-Sided lib tools r client apis m0 m _ note live)))
          (λ u. Ensures-continue _ (m, ds) (λ es p. (p.0, (live, c, p.1.0))))

    set_down-Sided :
        (m : Machine) (status : String)
        → r.dry_run ≡ false
        → IsSided lib tools r client apis m0
            (set_unless_replacing lib tools r client apis m status status_quarantining)
    unfolding set_unless_replacing
    set_down-Sided m status live =
        Adds-if _ _ _ (λ same. Adds-continue m)
          (λ differs.
            set_status-Sided lib tools r client apis m0 m _ live quarantining_not_replacing)

    -- `quarantine`, from the selection of the devices on
    carry_out-Ensures :
        (cluster : Cluster) (m : Machine) (request status : String) (held ds : List Device)
        → select lib.quote tools.decimal held r.drivers names ≡ done ds
        → r.dry_run ≡ false
        → Ensures Due
            (set_unless_replacing lib tools r client apis m status status_quarantining >>= λ m1.
              ensure_all lib tools r client apis m1 request (owner_of cluster m1) ds >>= λ u1.
              exist_all lib tools r client apis m1 request ds >>= λ u2.
              set_unless_replacing lib tools r client apis m1 status status_replacing >>= λ m2.
              note_event lib tools r client apis m2 event_devices_quarantined
                ("Quarantined with DeviceTaintRules: " ⧺ list_rules tools ds)
              >>= λ u3. continue (m2, ds))
            (OnNext Due IsQuarantined)
    carry_out-Ensures cluster m request status held ds e live =
        let c = covers-select lib.quote tools.decimal r.drivers held names ds e in
        after_sided lib tools r client apis m0 _ _ _ kept (set_down-Sided m status live) (λ m1.
          after_sided lib tools r client apis m0 _ _ _ kept
            (ensure_all-Sided lib tools r client apis m0 m1 request (owner_of cluster m1) names ds
              live asked (asked_devices held ds names e))
            (λ u1.
              Ensures-steps _ _ _ _
                (exist_all-AllConfirmed lib tools r client apis m0 ds Due m1 request kept)
                (λ u2.
                  Ensures-steps (λ m2 es. AllConfirmed ds es × Unit {0}) _ _ _
                    (Ensures-weaken _ _ _
                      (λ s es p. regroup lib tools r client apis m0 _ _ _ s es p)
                      (announce_unless-Ensures names asked live m1 status ds c))
                    (λ m2.
                      Ensures-from _ _ _ (λ es p. (p.0, p.1.0)) (finish-Ensures m2 ds _ live c)))))

    pub quarantine-Ensures :
        (cluster : Cluster) (m : Machine) (request status : String)
        → Ensures Due
            (quarantine lib tools r client apis cluster m request names status)
            (OnNext Due IsQuarantined)
    unfolding quarantine
    quarantine-Ensures cluster m request status =
        after_sided lib tools r client apis m0 _ _ _ kept
          (trying-Sided lib tools r client apis m0 m request _
            (devices-Adds lib tools apis cluster m))
          (λ held.
            Ensures-steps _ _ _ _
              (known-Ensures lib tools r client apis m0 m request
                (select lib.quote tools.decimal held r.drivers names) kept)
              (λ ds. Ensures-known _ _ _ (λ e.
                Ensures-if _ r.dry_run _ _ (λ dry. Ensures-end _ (λ es p. p))
                  (λ live. carry_out-Ensures cluster m request status held ds e live))))
