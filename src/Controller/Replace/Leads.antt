-- ===== src/Controller/Replace/Leads.antt =====
-- What the functions that a replace request runs through leave of the record of effects, when the
-- servers answer well.
use nvsentinel_capi_remediat.Common.{
  String, ◌==◌, ◌≡◌, refl, sym, true, false, List, [], ◌∷◌, All, lookup, arith,
}
use nvsentinel_capi_remediat.Objects.{Machine, Library, Rule}
use nvsentinel_capi_remediat.World.{
  M, ok, Client, mapped, Effect, recorded, patched, seen, machine_subject, ◌>>=◌, patch,
  record_event, pure,
}
use nvsentinel_capi_remediat.World.Ensures.{Ensures-if}
use nvsentinel_capi_remediat.Capi.Actuator.{machine_event}
use nvsentinel_capi_remediat.Quarantine.Device.{Device}
use nvsentinel_capi_remediat.Quarantine.Client.{Apis, Toolkit}
use nvsentinel_capi_remediat.Quarantine.Try.{Try, done, failed, done_same}
use nvsentinel_capi_remediat.Quarantine.Request.{status_replacing, replace_status_annotation}
use nvsentinel_capi_remediat.Quarantine.Naming.{rule_name}
use nvsentinel_capi_remediat.Quarantine.Rules.{Owner, blocks}
use nvsentinel_capi_remediat.Quarantine.Leaves.{
  Then, Leaves, IsMade, bind_left, Leaves-write, ensure-Leaves, exists_rule-Leaves,
}
use nvsentinel_capi_remediat.Controller.Steps.{continue}
use nvsentinel_capi_remediat.Controller.Replace.{
  Quarantiner, is_set_to, with_status, note_event, status_set, set_status, or_fail, trying,
  ensure_all, missing_unless, exist_all, set_unless_replacing,
}
use nvsentinel_capi_remediat.Controller.Replace.Passing.{Leads, lead_on, Leads-continue}

-- an Event on the Machine, for the reason
abbrev pub IsEventOn : Machine → String → Effect → Type 0
IsEventOn m reason (recorded e) =
    (e.subject ≡ machine_subject m.namespace m.name) × (e.reason ≡ reason)
IsEventOn m reason e = ⊥

module _ (lib : Library) (tools : Toolkit) where
  -- the rules of the devices were made, one after the other
  abbrev pub Made : Owner → List Device → (List Effect → Type 0) → List Effect → Type 0
  Made owner [] K = K
  Made owner (d ∷ ds) K = Made owner ds (Then (IsMade lib tools owner d) K)

  -- the rules of the devices were read, one after the other
  abbrev pub Seen : (String → Rule) → List Device → (List Effect → Type 0) → List Effect → Type 0
  Seen stored [] K = K
  Seen stored (d ∷ ds) K =
      Seen stored ds (Then (λ e. e ≡ seen (stored (rule_name tools.sha256 d))) K)

module _ {S : Type 0} (lib : Library) (tools : Toolkit) (r : Quarantiner) (client : Client S)
    (apis : Apis S) (m : Machine) (request : String) where
  pub or_fail-Leads :
      {A : Type 0} (K : List Effect → Type 0) (x : A) (t : Try A)
      → t ≡ done x
      → Leads K (or_fail lib tools r client apis m request t) x K
  unfolding or_fail
  or_fail-Leads K x (done a) e = rw (done_same a x (sym e)) (Leads-continue K x)
  or_fail-Leads K x (failed f) e = absurd (cc e)

  pub trying-Leads :
      {A : Type 0} (K L : List Effect → Type 0) (x : A) (a : M S (Try A))
      → Leaves K a (done x) L
      → Leads K (trying lib tools r client apis m request a) x L
  unfolding trying
  trying-Leads K L x a h =
      bind_left K L (done x) _ _ (λ t. or_fail lib tools r client apis m request t) h
        (or_fail-Leads L x (done x) refl)

  pub set_status-Leads :
      (K : List Effect → Type 0) (m' : Machine) (status : String)
      → is_set_to (lookup replace_status_annotation m.annotations) status ≡ false
      → ((s : S) → (client.patch_machine true m (with_status m status) s).0 ≡ ok m')
      → Leads K
          (set_status lib tools r client apis m status)
          m'
          (Then (λ e. e ≡ patched true m (with_status m status)) K)
  unfolding set_status patch status_set
  set_status-Leads K m' status other answers =
      let Sent : List Effect → Type 0 = Then (λ e. e ≡ patched true m (with_status m status)) K in
      Ensures-if _ (is_set_to (lookup replace_status_annotation m.annotations) status) _ _
        (λ same. absurd (ground (arith, same, other)))
        (λ differs.
          bind_left K Sent (ok m') _ _ (λ q. status_set lib tools r client apis m q)
            (Leaves-write K (λ e. e ≡ patched true m (with_status m status)) _ _ (ok m') refl
              answers)
            (Leads-continue Sent m'))

  pub set_unless-Leads :
      (K : List Effect → Type 0) (m' : Machine) (status wanted : String)
      → (status == status_replacing) ≡ false
      → is_set_to (lookup replace_status_annotation m.annotations) wanted ≡ false
      → ((s : S) → (client.patch_machine true m (with_status m wanted) s).0 ≡ ok m')
      → Leads K
          (set_unless_replacing lib tools r client apis m status wanted)
          m'
          (Then (λ e. e ≡ patched true m (with_status m wanted)) K)
  unfolding set_unless_replacing
  set_unless-Leads K m' status wanted started other answers =
      Ensures-if _ (status == status_replacing) _ _
        (λ replacing. absurd (ground (arith, replacing, started)))
        (λ differs. set_status-Leads K m' wanted other answers)

  pub note-Leads :
      (K : List Effect → Type 0) (reason note : String)
      → Leads K (note_event lib tools r client apis m reason note) tt (Then (IsEventOn m reason) K)
  unfolding note_event continue record_event machine_event ◌>>=◌ pure
  note-Leads K reason note = record { at = λ w k. (refl, ((refl, refl), k)) }

  module _ (serves : (version : String) (s : S) → (apis.map_rule version s).0 ≡ mapped) where
    pub ensure_all-Leads :
        (K : List Effect → Type 0) (owner : Owner) (ds : List Device)
        → ((rule : Rule) (s : S) → (apis.create_rule rule s).0 ≡ ok tt)
        → Leads K
            (ensure_all lib tools r client apis m request owner ds)
            tt
            (Made lib tools owner ds K)
    unfolding ensure_all
    ensure_all-Leads K owner [] creates = Leads-continue K tt
    ensure_all-Leads K owner (d ∷ ds) creates =
        let K' : List Effect → Type 0 = Then (IsMade lib tools owner d) K in
        lead_on K K' true _ _ _
          (trying-Leads K K' true _ (ensure-Leaves K lib tools client apis serves d owner creates))
          (ensure_all-Leads K' owner ds creates)

    pub exist_all-Leads :
        (K : List Effect → Type 0) (stored : String → Rule) (ds : List Device)
        → ((version name : String) (s : S) → (apis.get_rule version name s).0 ≡ ok (stored name))
        → All (λ d. blocks (stored (rule_name tools.sha256 d)) d ≡ true) ds
        → Leads K (exist_all lib tools r client apis m request ds) tt (Seen lib tools stored ds K)
    unfolding exist_all missing_unless
    exist_all-Leads K stored [] reads b = Leads-continue K tt
    exist_all-Leads K stored (d ∷ ds) reads b =
        let K' : List Effect → Type 0 =
          Then (λ e. e ≡ seen (stored (rule_name tools.sha256 d))) K in
        lead_on K K' true _ _ _
          (trying-Leads K K' true _ (
            exists_rule-Leaves K lib tools client apis serves d _ (λ version s. reads version _ s)
              b.0))
          (lead_on K' K' tt _ _ _ (Leads-continue K' tt) (exist_all-Leads K' stored ds reads b.1))
