-- ===== src/Controller/Replace/Order.antt =====
-- The order of a replace request's effects: every one is warranted by those before it.
use nvsentinel_capi_remediat.Common.{
  String, ◌≡◌, refl, true, false, List, [], Option, none, some, lookup, get_or, arith,
}
use nvsentinel_capi_remediat.Objects.{Machine, Cluster, Library}
use nvsentinel_capi_remediat.World.{Result, ok, err, not_found, Client, Effect}
use nvsentinel_capi_remediat.World.Adds.{Adds-read}
use nvsentinel_capi_remediat.World.Ensures.{
  Ensures, Ensures-frame, Ensures-bind, Ensures-if, Ensures-from, Ensures-known,
}
use nvsentinel_capi_remediat.Quarantine.Device.{Device}
use nvsentinel_capi_remediat.Quarantine.Client.{Apis, Toolkit}
use nvsentinel_capi_remediat.Quarantine.Request.{
  replace_annotation, replace_status_annotation, is_rejected, parse_request,
}
use nvsentinel_capi_remediat.Quarantine.Request.Parsing.{blank_not_replacing}
use nvsentinel_capi_remediat.Quarantine.Rules.{covers}
use nvsentinel_capi_remediat.Quarantine.Confirmed.{AllConfirmed}
use nvsentinel_capi_remediat.Quarantine.Reads.{of-AllConfirmed}
use nvsentinel_capi_remediat.Controller.Steps.{Step, next, ended, broken, P}
use nvsentinel_capi_remediat.Controller.Steps.Carry.{
  OnNext, Ensures-steps, Ensures-end, Ensures-break,
}
use nvsentinel_capi_remediat.Controller.Replace.{
  Quarantiner, guard_replace, is_selected, owner_of, quarantine_and_delete, with_made, with_names,
  with_guard, with_cluster, on_request, replace,
}
use nvsentinel_capi_remediat.Controller.Replace.Warrant.{IsRequested, IsDue, Keeps-IsDue}
use nvsentinel_capi_remediat.Controller.Replace.Calls.{
  IsKept, after_sided, reject-Ends, trying-Ensures, known-Ensures,
}
use nvsentinel_capi_remediat.Controller.Replace.Sides.{set_status-Sided}
use nvsentinel_capi_remediat.Controller.Replace.Due.{delete-Ensures, quarantine-Ensures}

module _ {S : Type 0} (lib : Library) (tools : Toolkit) (r : Quarantiner) (client : Client S)
    (apis : Apis S) (m : Machine) where
  -- the call leaves the record with every effect warranted
  abbrev Leaves : P S (Unit {0}) → (List Effect → Type 0) → Type 0
  Leaves a K = Ensures K a (OnNext (IsDue lib tools r m) (λ _ es. Unit {0}))

  abbrev Good : List Effect → Type 0
  Good = IsDue lib tools r m

  safe : IsKept lib tools r client apis m Good
  safe = Keeps-IsDue lib tools r m

  module _ (names : List String) (asked : IsRequested lib tools r m names) where
    quarantine_and_delete-Leaves :
        (cluster : Cluster) (request status : String)
        → Leaves (quarantine_and_delete lib tools r client apis cluster m request names status) Good
    unfolding quarantine_and_delete
    quarantine_and_delete-Leaves cluster request status =
        Ensures-steps _ _ _ _
          (quarantine-Ensures lib tools r client apis m names asked cluster m request status)
          (λ q.
            Ensures-from _ _ _ (λ es p. ((p.0, p.1.2), (p.1.0, p.1.1)))
              (Ensures-known ((r.dry_run ≡ false) × (covers q.1 names ≡ true)) _ _ (λ known.
                delete-Ensures lib tools r client apis m names asked known.0 q.0 request q.1
                  known.1)))

    with_made-Leaves :
        (cluster : Cluster) (request status : String) (made : List Device)
        → Leaves
            (with_made lib tools r client apis cluster m request names status made)
            (λ es. Good es × AllConfirmed made es)
    unfolding with_made
    with_made-Leaves cluster request status made =
        Ensures-if _ (covers made names) _ _
          (λ c.
            Ensures-if _ r.dry_run _ _ (λ dry. Ensures-end _ (λ es p. p.0))
              (λ live. delete-Ensures lib tools r client apis m names asked live m request made c))
          (λ c.
            Ensures-from _ _ _ (λ es p. p.0) (quarantine_and_delete-Leaves cluster request status))

    with_names-Leaves :
        (cluster : Cluster) (request status : String)
        → Leaves (with_names lib tools r client apis cluster m request status names) Good
    unfolding with_names
    with_names-Leaves cluster request status =
        Ensures-if _ _ _ _
          (λ replacing.
            Ensures-steps _ _ _ _
              (trying-Ensures lib tools r client apis m _ m request _ safe
                (of-AllConfirmed (λ rule. tt) lib tools client apis safe (owner_of cluster m)))
              (λ made. with_made-Leaves cluster request status made))
          (λ differs. quarantine_and_delete-Leaves cluster request status)

  module _ (status request : String) (there : m.deleting ≡ false)
      (asked : lookup replace_annotation m.annotations ≡ some request)
      (open_request : is_rejected (get_or "" replace_status_annotation m.annotations) ≡ false) where
    with_guard-Leaves :
        (cluster : Cluster) (g : Option (String × String))
        → guard_replace lib tools cluster m ≡ g
        → is_selected r.cluster_selector cluster ≡ true
        → Leaves (with_guard lib tools r client apis cluster m request status g) Good
    unfolding with_guard
    with_guard-Leaves cluster (some (reason, text)) e selected =
        reject-Ends lib tools r client apis m _ m request reason text safe
    with_guard-Leaves cluster none e selected =
        Ensures-steps _ _ _ _
          (known-Ensures lib tools r client apis m m request
            (parse_request lib.quote tools.decimal request) safe)
          (λ names. Ensures-known _ _ _ (λ parsed.
            with_names-Leaves names
              (request, cluster, there, asked, open_request, selected, e, parsed) cluster request
              status))

    with_cluster-Leaves :
        (q : Result Cluster) → Leaves (with_cluster lib tools r client apis m request status q) Good
    unfolding with_cluster
    with_cluster-Leaves (err not_found) = Ensures-end _ (λ es p. p)
    with_cluster-Leaves (err e) = Ensures-break _ _ (λ es p. p)
    with_cluster-Leaves (ok cluster) =
        Ensures-if _ _ _ _ (λ other. Ensures-end _ (λ es p. p))
          (λ selected.
            with_guard-Leaves cluster (guard_replace lib tools cluster m) refl
              (ground (arith, selected)))

  on_request-Leaves :
      (o : Option String)
      → m.deleting ≡ false
      → lookup replace_annotation m.annotations ≡ o
      → Leaves
          (on_request lib tools r client apis m
            (get_or "" replace_status_annotation m.annotations)
            o)
          Good
  unfolding on_request
  on_request-Leaves none there e =
      Ensures-if _ _ _ _ (λ nothing. Ensures-end _ (λ es p. p))
        (λ something.
          after_sided lib tools r client apis m _ _ _ safe
            (set_status-Sided lib tools r client apis m m "" (ground (arith, something))
              blank_not_replacing)
            (λ m'. Ensures-end _ (λ es p. p)))
  on_request-Leaves (some request) there e =
      Ensures-if _ _ _ _ (λ rejected. Ensures-end _ (λ es p. p))
        (λ open_request.
          Ensures-bind _ _ _ _ (Ensures-frame _ safe (Adds-read _))
            (λ q. with_cluster-Leaves _ request there e open_request q))

  replace-Leaves : Leaves (replace lib tools r client apis m) Good
  unfolding replace
  replace-Leaves =
      Ensures-if _ m.deleting _ _ (λ gone. Ensures-end _ (λ es p. p))
        (λ there. on_request-Leaves (lookup replace_annotation m.annotations) there refl)

  due_after :
      (s : Step (Unit {0})) (es : List Effect) → OnNext Good (λ _ es. Unit {0}) s es → Good es
  due_after (next u) es p = p.0
  due_after ended es p = p
  due_after (broken e) es p = p

  -- Whatever the servers answer and others do meanwhile, every effect of a replace request is
  -- warranted by those before it: apart from reads of rules it is outside a dry run; a deletion is
  -- sent, and a status that announces it, only after, for each of a list of devices that covers the
  -- request (it is not empty and has every name that the request lists), a rule was read that keeps
  -- the device from being allocated; this, and the creation of a rule, only where the Machine as it
  -- was read is not being deleted, its request parses and was not rejected, a Cluster is selected and
  -- no guard stands against it; a rule is made for a device of the configured drivers that the
  -- request asks for; a patch is locked and changes the status annotation only; an Event's note has
  -- at most 1024 bytes; no request of a workload cluster is answered.
  pub replace-IsDue :
      (server : S)
      → IsDue lib tools r m
          (replace lib tools r client apis m (record { server = server; effects = [] })).1.effects
  replace-IsDue server =
      due_after _ _ (replace-Leaves.at (record { server = server; effects = [] }) tt)
