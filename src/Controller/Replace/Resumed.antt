-- ===== src/Controller/Replace/Resumed.antt =====
-- A request that is picked up again once its rules were made goes straight on to the deletion.
use nvsentinel_capi_remediat.Common.{
  ℕ, String, ◌≡◌, refl, true, false, List, [], ◌∷◌, Dict, none, some, lookup, get_or, cut_prefix,
  arith,
}
use nvsentinel_capi_remediat.Objects.{Machine, Cluster, Library, Rule}
use nvsentinel_capi_remediat.World.{
  ok, Client, mapped, Effect, recorded, deleted, ◌>>=◌, pure, write, record_event,
}
use nvsentinel_capi_remediat.World.Ensures.{Ensures, Ensures-if}
use nvsentinel_capi_remediat.Quarantine.Device.{Device}
use nvsentinel_capi_remediat.Quarantine.Client.{Apis, Toolkit}
use nvsentinel_capi_remediat.Quarantine.Try.{done}
use nvsentinel_capi_remediat.Quarantine.Request.{
  replace_annotation, replace_status_annotation, status_replacing, is_rejected, parse_request,
}
use nvsentinel_capi_remediat.Quarantine.Rules.{of, made_for, covers}
use nvsentinel_capi_remediat.Quarantine.Runs
use nvsentinel_capi_remediat.Quarantine.Runs.{
  Any, Gives, Gives-read, bind_given, Gives-pure, kind-Gives, seen-Gives,
}
use nvsentinel_capi_remediat.Controller.Steps
use nvsentinel_capi_remediat.Controller.Steps.{Step, next, ended, P, go_on, continue, end}
use nvsentinel_capi_remediat.Controller.Replace.{
  Quarantiner, is_selected, guard_replace, owner_of, note_event, or_fail, trying, replaced, delete,
  with_made, with_names, with_guard, with_cluster, on_request, replace,
}

-- The last thing that was done is the deletion of the Machine, and an Event about it.
abbrev pub EndsInDeletion : Machine → List Effect → Type 0
EndsInDeletion m (recorded e ∷ deleted d ∷ es) = d ≡ m
EndsInDeletion m es = ⊥

module _ {S : Type 0} (lib : Library) (tools : Toolkit) (r : Quarantiner) (client : Client S)
    (apis : Apis S) (m : Machine) (cluster : Cluster) (rules : List Rule) (request : String)
    (names : List String)
    (finds : (s : S) → (client.get_cluster m.namespace m.cluster_name s).0 ≡ ok cluster)
    (serves : (version : String) (s : S) → (apis.map_rule version s).0 ≡ mapped)
    (has_rules : (version : String) (labels : Dict (List ℕ)) (s : S)
      → (apis.list_rules version labels s).0 ≡ ok rules)
    (deletes : (s : S) → (apis.delete_machine m.uid m.resource_version m s).0 ≡ ok tt) where
  made : List Device
  made = made_for tools (owner_of cluster m) rules

  of-Gives : Gives (of lib tools client apis (owner_of cluster m)) (done made)
  unfolding made
  of-Gives =
      Runs.of-Gives lib tools client apis serves (owner_of cluster m) rules (has_rules "v1" _)

  trying-Gives :
      Gives
        (trying lib tools r client apis m request (of lib tools client apis (owner_of cluster m)))
        (next made)
  unfolding trying or_fail continue
  trying-Gives = bind_given (done made) _ _ _ of-Gives (Gives-pure (next made))

  Deletes : P S (Unit {0}) → Type 0
  Deletes a = Ensures Any a (λ s es. EndsInDeletion m es)

  delete-Deletes : (ds : List Device) → Deletes (delete lib tools r client apis m request ds)
  unfolding Deletes delete replaced note_event continue ◌>>=◌ write record_event pure
  delete-Deletes ds = record { at = λ w p. rw (deletes w.server) refl }

  with_made-Deletes :
      (status : String)
      → r.dry_run ≡ false
      → covers made names ≡ true
      → Deletes (with_made lib tools r client apis cluster m request names status made)
  unfolding with_made Deletes
  with_made-Deletes status live c =
      Ensures-if _ (covers made names) _ _
        (λ same.
          Ensures-if _ r.dry_run _ _ (λ dry. absurd (ground (arith, dry, live)))
            (λ lives. delete-Deletes made))
        (λ differs. absurd (ground (arith, differs, c)))

  with_names-Deletes :
      r.dry_run ≡ false
      → covers made names ≡ true
      → Deletes (with_names lib tools r client apis cluster m request status_replacing names)
  unfolding with_names Deletes go_on Steps.◌>>=◌
  with_names-Deletes live c =
      bind_given (next made) _ _
        (λ s.
          go_on
            (λ ds. with_made lib tools r client apis cluster m request names status_replacing ds) s)
        trying-Gives (with_made-Deletes status_replacing live c)

  with_guard-Deletes :
      parse_request lib.quote tools.decimal request ≡ done names
      → r.dry_run ≡ false
      → covers made names ≡ true
      → Deletes (with_guard lib tools r client apis cluster m request status_replacing none)
  unfolding with_guard Deletes go_on Steps.◌>>=◌ or_fail continue
  with_guard-Deletes parsed live c =
      bind_given (next names) _ _
        (λ s.
          go_on (λ ns. with_names lib tools r client apis cluster m request status_replacing ns) s)
        (rw parsed (Gives-pure (next names))) (with_names-Deletes live c)

  with_cluster-Deletes :
      is_selected r.cluster_selector cluster ≡ true
      → guard_replace lib tools cluster m ≡ none
      → Deletes (with_guard lib tools r client apis cluster m request status_replacing none)
      → Deletes (with_cluster lib tools r client apis m request status_replacing (ok cluster))
  unfolding with_cluster
  with_cluster-Deletes selected unguarded h = rw selected (rw unguarded h)

  on_request-Deletes :
      Deletes (with_cluster lib tools r client apis m request status_replacing (ok cluster))
      → Deletes (on_request lib tools r client apis m status_replacing (some request))
  unfolding on_request Deletes is_rejected cut_prefix
  on_request-Deletes h = bind_given (ok cluster) _ _ _ (Gives-read _ (ok cluster) finds) h

  -- A request whose status says that the Machine is being replaced goes straight on to the deletion
  -- of the Machine, when: the Machine is not being deleted, the request parses, this is no dry run,
  -- the Cluster is found and selected and no guard stands against the Machine; the cluster serves the
  -- rules, those that are listed cover the request, and the deletion succeeds. The deletion and the
  -- Event about it are then the last effects.
  pub replace-EndsInDeletion :
      (server : S)
      → m.deleting ≡ false
      → lookup replace_annotation m.annotations ≡ some request
      → lookup replace_status_annotation m.annotations ≡ some status_replacing
      → parse_request lib.quote tools.decimal request ≡ done names
      → r.dry_run ≡ false
      → is_selected r.cluster_selector cluster ≡ true
      → guard_replace lib tools cluster m ≡ none
      → covers (made_for tools (owner_of cluster m) rules) names ≡ true
      → EndsInDeletion m
          (replace lib tools r client apis m (record { server = server; effects = [] })).1.effects
  unfolding replace get_or Deletes made
  replace-EndsInDeletion server there asked had parsed live selected unguarded c =
      let run =
        on_request-Deletes
          (with_cluster-Deletes selected unguarded (with_guard-Deletes parsed live c)) in
      let answered : Deletes (replace lib tools r client apis m) =
        Ensures-if _ m.deleting _ _ (λ gone. absurd (ground (arith, gone, there)))
          (λ here. rw asked (rw had run)) in
      answered.at (record { server = server; effects = [] }) tt
