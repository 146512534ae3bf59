-- ===== src/Controller/Watches.antt =====
-- Which watched changes wake the reconcilers: `requestBecamePending` and
-- `clusterToRequest` of internal/controller/cluster_controller.go, `replaceRequestChanged` of
-- internal/controller/quarantine_controller.go.
pub mod Woken
use nvsentinel_capi_remediat.Common.{
  String, ◌==◌, Bool, true, false, not, ◌&&◌, ◌||◌, List, [], ◌∷◌, exists_in, Dict, has, lookup,
  or_else, is_some, Option, none, some,
}
use nvsentinel_capi_remediat.Objects.{Cluster, Machine, Request}
use nvsentinel_capi_remediat.Extrr.{pending}
use nvsentinel_capi_remediat.Quarantine.Request.{replace_annotation, replace_status_annotation}

-- the events that a watch delivers
pub data Change (A : Type 0) : Type 0 where
  appeared : A → Change A
  updated : A → A → Change A
  removed : A → Change A
  other_change : A → Change A

-- `pending` of `requestBecamePending`, on what may be an object of another kind
abbrev pub pending_object : Option Request → Bool
pending_object none = false
pending_object (some request) = pending request

-- `requestBecamePending`
unfoldable pub request_became_pending : Change (Option Request) → Bool
unfolding pending
request_became_pending (appeared o) = pending_object o
request_became_pending (updated old new) = not (pending_object old) && pending_object new
request_became_pending _ = false

-- `clusterToRequest`: the namespaces and names to reconcile
unfoldable pub cluster_to_request : Cluster → List (String × String)
cluster_to_request cluster = (cluster.namespace, cluster.name) ∷ []

abbrev pub replace_keys : List String
replace_keys = replace_annotation ∷ replace_status_annotation ∷ []

abbrev differ : Bool → Bool → Bool
differ true b = not b
differ false b = b

-- the test of `UpdateFunc`, on what the annotation was and is
abbrev pub value_changed : Option String → Option String → Bool
value_changed was is = differ (is_some was) (is_some is) || not (or_else "" was == or_else "" is)

-- `replaceRequestChanged`, on the Machines' annotations
unfoldable pub replace_request_changed : Change (Dict String) → Bool
unfolding has lookup
replace_request_changed (appeared annotations) = exists_in (λ k. has k annotations) replace_keys
replace_request_changed (updated old new) =
    exists_in (λ k. value_changed (lookup k old) (lookup k new)) replace_keys
replace_request_changed _ = false
