-- ===== src/Controller/Replace/Started.antt =====
-- A request on which nothing fails is carried out to the deletion.
use nvsentinel_capi_remediat.Common.{
  String, ◌⧺◌, ◌≡◌, refl, not, true, false, List, [], All, none, some, lookup, get_or, cut_prefix,
  arith,
}
use nvsentinel_capi_remediat.Objects.{Machine, Cluster, Library, Rule}
use nvsentinel_capi_remediat.World.{World, ok, Client, mapped, Effect, patched, deleted}
use nvsentinel_capi_remediat.World.Ensures.{Ensures-if}
use nvsentinel_capi_remediat.Quarantine.Device.{Device}
use nvsentinel_capi_remediat.Quarantine.Client.{Apis, Toolkit}
use nvsentinel_capi_remediat.Quarantine.Try.{done}
use nvsentinel_capi_remediat.Quarantine.Request.{
  replace_annotation, replace_status_annotation, status_replacing, status_quarantining, is_rejected,
  parse_request, select,
}
use nvsentinel_capi_remediat.Quarantine.Naming.{rule_name}
use nvsentinel_capi_remediat.Quarantine.Rules.{blocks}
use nvsentinel_capi_remediat.Quarantine.Adds.{devices-Adds}
use nvsentinel_capi_remediat.Quarantine.Leaves.{
  Then, bind_left, Leaves-quiet, Leaves-read, Leaves-write,
}
use nvsentinel_capi_remediat.Quarantine.Locator.{devices}
use nvsentinel_capi_remediat.Controller.Steps
use nvsentinel_capi_remediat.Controller.Steps.{Step, P, continue, next}
use nvsentinel_capi_remediat.Controller.Replace.{
  Quarantiner, list_rules, event_devices_quarantined, event_machine_replaced, is_selected,
  guard_replace, owner_of, with_status, note_event, ensure_all, exist_all, set_unless_replacing,
  quarantine, replaced, delete, quarantine_and_delete, with_names, with_guard, with_cluster,
  on_request, replace,
}
use nvsentinel_capi_remediat.Controller.Replace.Passing.{IsNext, Leads, lead_on, Leads-continue}
use nvsentinel_capi_remediat.Controller.Replace.Leads.{
  IsEventOn, Made, Seen, or_fail-Leads, trying-Leads, set_unless-Leads, note-Leads,
  ensure_all-Leads, exist_all-Leads,
}

is_next : (s : Step (Unit {0})) → IsNext (λ u. u ≡ tt) s → s ≡ next tt
is_next (next u) h = refl
is_next Steps.ended h = absurd h
is_next (Steps.broken e) h = absurd h

abbrev IsNothing : List Effect → Type 0
IsNothing es = es ≡ []

module _ (lib : Library) (tools : Toolkit) (cluster : Cluster) (m m1 m2 : Machine)
    (ds : List Device) (stored : String → Rule) where
  -- the first patch was sent
  abbrev Begun : List Effect → Type 0
  Begun = Then (λ e. e ≡ patched true m (with_status m status_quarantining)) IsNothing

  -- and every rule was made, and read afterwards
  abbrev Ruled : List Effect → Type 0
  Ruled = Seen lib tools stored ds (Made lib tools (owner_of cluster m1) ds Begun)

  -- and the second patch was sent
  abbrev Turned : List Effect → Type 0
  Turned = Then (λ e. e ≡ patched true m1 (with_status m1 status_replacing)) Ruled

  abbrev Told : List Effect → Type 0
  Told = Then (IsEventOn m2 event_devices_quarantined) Turned

  -- The record of a replacement, from the first effect to the last: the status is set, under the
  -- lock; a rule is made for each device; each rule is read; the status of the Machine, as the first
  -- patch returned it, is set again; an Event; the deletion of the Machine as the second patch
  -- returned it; an Event.
  abbrev pub IsReplacement : List Effect → Type 0
  IsReplacement = Then (IsEventOn m2 event_machine_replaced) (Then (λ e. e ≡ deleted m2) Told)

module _ {S : Type 0} (lib : Library) (tools : Toolkit) (r : Quarantiner) (client : Client S)
    (apis : Apis S) (m m1 m2 : Machine) (cluster : Cluster) (request : String) (names : List String)
    (held ds : List Device) (stored : String → Rule)
    (finds : (s : S) → (client.get_cluster m.namespace m.cluster_name s).0 ≡ ok cluster)
    (starts : (s : S)
      → (client.patch_machine true m (with_status m status_quarantining) s).0 ≡ ok m1)
    (started : lookup replace_status_annotation m1.annotations ≡ some status_quarantining)
    (turns : (s : S) → (client.patch_machine true m1 (with_status m1 status_replacing) s).0 ≡ ok m2)
    (serves : (version : String) (s : S) → (apis.map_rule version s).0 ≡ mapped)
    (creates : (rule : Rule) (s : S) → (apis.create_rule rule s).0 ≡ ok tt)
    (reads : (version name : String) (s : S) → (apis.get_rule version name s).0 ≡ ok (stored name))
    (deletes : (s : S) → (apis.delete_machine m2.uid m2.resource_version m2 s).0 ≡ ok tt)
    (located : (w : World S) → (devices lib tools apis cluster m w).0 ≡ done held) where
  Done : List Effect → Type 0
  Done = IsReplacement lib tools cluster m m1 m2 ds stored

  Carries : (List Effect → Type 0) → P S (Unit {0}) → Type 0
  Carries K a = Leads K a tt Done

  delete-Carries :
      Carries
        (Told lib tools cluster m m1 m2 ds stored)
        (delete lib tools r client apis m2 request ds)
  unfolding Carries Done delete replaced
  delete-Carries =
      let K : List Effect → Type 0 = Told lib tools cluster m m1 m2 ds stored in
      let L : List Effect → Type 0 = Then (λ e. e ≡ deleted m2) K in
      bind_left K L (ok tt) _ _ (λ q. replaced lib tools r client apis m2 request ds q)
        (Leaves-write K (λ e. e ≡ deleted m2) _ _ (ok tt) refl deletes)
        (note-Leads lib tools r client apis m2 request L _ _)

  module _ (picked : select lib.quote tools.decimal held r.drivers names ≡ done ds)
      (live : r.dry_run ≡ false)
      (blocked : All (λ e. blocks (stored (rule_name tools.sha256 e)) e ≡ true) ds)
      (fresh : lookup replace_status_annotation m.annotations ≡ none) where
    -- the devices are quarantined
    quarantined_all :
        Leads {A = Machine × List Device} IsNothing
          (Steps.◌>>=◌
            (set_unless_replacing lib tools r client apis m "" status_quarantining)
            λ m1'.
              Steps.◌>>=◌
                (ensure_all lib tools r client apis m1' request (owner_of cluster m1') ds)
                λ u1. Steps.◌>>=◌ (exist_all lib tools r client apis m1' request ds) λ u2.
                  Steps.◌>>=◌
                    (set_unless_replacing lib tools r client apis m1' "" status_replacing)
                    λ m2'.
                      Steps.◌>>=◌
                        (note_event lib tools r client apis m2' event_devices_quarantined
                          ("Quarantined with DeviceTaintRules: " ⧺ list_rules tools ds))
                        λ u3. continue (m2', ds))
          (m2, ds)
          (Told lib tools cluster m m1 m2 ds stored)
    quarantined_all =
        let K1 = Begun lib tools cluster m m1 m2 ds stored in
        let K2 = Made lib tools (owner_of cluster m1) ds K1 in
        let K3 = Ruled lib tools cluster m m1 m2 ds stored in
        let K4 = Turned lib tools cluster m m1 m2 ds stored in
        let K5 = Told lib tools cluster m m1 m2 ds stored in
        lead_on IsNothing K1 m1 _ _ _
          (set_unless-Leads lib tools r client apis m request IsNothing m1 "" status_quarantining
            refl (rw fresh refl) starts)
          (lead_on K1 K2 tt _ _ _
            (ensure_all-Leads lib tools r client apis m1 request serves K1 (owner_of cluster m1) ds
              creates)
            (lead_on K2 K3 tt _ _ _
              (exist_all-Leads lib tools r client apis m1 request serves K2 stored ds reads blocked)
              (lead_on K3 K4 m2 _ _ _
                (set_unless-Leads lib tools r client apis m1 request K3 m2 "" status_replacing refl
                  (rw started refl) turns)
                (lead_on K4 K5 tt _ _ _ (note-Leads lib tools r client apis m2 request K4 _ _)
                  (Leads-continue K5 (m2, ds))))))

    quarantine-Leads :
        Leads {A = Machine × List Device} IsNothing
          (quarantine lib tools r client apis cluster m request names "")
          (m2, ds)
          (Told lib tools cluster m m1 m2 ds stored)
    unfolding quarantine
    quarantine-Leads =
        lead_on IsNothing IsNothing held _ _ _
          (trying-Leads lib tools r client apis m request IsNothing IsNothing held _ (
            Leaves-quiet IsNothing _ (done held) (record { at = λ w p. located w })
              (devices-Adds lib tools apis cluster m)))
          (lead_on IsNothing IsNothing ds _ _ _
            (or_fail-Leads lib tools r client apis m request IsNothing ds _ picked)
            (Ensures-if _ r.dry_run _ _ (λ dry. absurd (ground (arith, dry, live)))
              (λ lives. quarantined_all)))

    with_names-Carries :
        Carries IsNothing (with_names lib tools r client apis cluster m request "" names)
    unfolding with_names quarantine_and_delete Carries
    with_names-Carries =
        lead_on IsNothing (Told lib tools cluster m m1 m2 ds stored) (m2, ds) _ _ _ quarantine-Leads
          delete-Carries

    with_cluster-Carries :
        parse_request lib.quote tools.decimal request ≡ done names
        → is_selected r.cluster_selector cluster ≡ true
        → guard_replace lib tools cluster m ≡ none
        → Carries IsNothing (with_cluster lib tools r client apis m request "" (ok cluster))
    unfolding with_cluster with_guard Carries
    with_cluster-Carries parsed selected unguarded =
        Ensures-if _ (not (is_selected r.cluster_selector cluster)) _ _
          (λ other. absurd (ground (arith, other, selected)))
          (λ same. rw unguarded (
            lead_on IsNothing IsNothing names _ _ _
              (or_fail-Leads lib tools r client apis m request IsNothing names _ parsed)
              with_names-Carries))

    replace-Carries :
        m.deleting ≡ false
        → lookup replace_annotation m.annotations ≡ some request
        → Carries IsNothing (with_cluster lib tools r client apis m request "" (ok cluster))
        → Carries IsNothing (replace lib tools r client apis m)
    unfolding replace on_request get_or is_rejected cut_prefix Carries
    replace-Carries there asked run =
        Ensures-if _ m.deleting _ _ (λ gone. absurd (ground (arith, gone, there)))
          (λ here.
            rw (asked, fresh)
              (bind_left IsNothing IsNothing (ok cluster) _ _
                (λ q. with_cluster lib tools r client apis m request "" q)
                (Leaves-read IsNothing _ (ok cluster) finds) run))

    -- A new request on which nothing fails is carried out from the start to the end, by these effects
    -- and no other: the status is set to quarantining, under the lock; a rule is made for each device
    -- that was selected; each rule is read; the status of the Machine, as the first patch returned it,
    -- is set to replacing; an Event; the deletion of the Machine, as the second patch returned it; an
    -- Event. No error is returned. This is so when: the Machine is not being deleted and has no
    -- status, its request parses, this is no dry run, the Cluster is found and selected and no guard
    -- stands against the Machine, the devices are found and selected; the cluster serves the rules,
    -- makes them and returns ones that keep the devices from being allocated; both patches succeed, and
    -- the first returns a Machine with the status that was sent; and the deletion succeeds.
    pub replace-IsReplacement :
        (server : S)
        → m.deleting ≡ false
        → lookup replace_annotation m.annotations ≡ some request
        → parse_request lib.quote tools.decimal request ≡ done names
        → is_selected r.cluster_selector cluster ≡ true
        → guard_replace lib tools cluster m ≡ none
        → let run = replace lib tools r client apis m (record { server = server; effects = [] }) in
          (run.0 ≡ next tt) × IsReplacement lib tools cluster m m1 m2 ds stored run.1.effects
    unfolding Carries Done
    replace-IsReplacement server there asked parsed selected unguarded =
        let h =
          (replace-Carries there asked (with_cluster-Carries parsed selected unguarded)).at
            (record { server = server; effects = [] }) refl in
        (is_next _ h.0, h.1)
