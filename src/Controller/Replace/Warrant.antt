-- ===== src/Controller/Replace/Warrant.antt =====
-- What each effect of a replace request has to be warranted by.
use nvsentinel_capi_remediat.Common.{
  ℕ, ◌≤◌, String, ◌≡◌, ◌⊎◌, inl, Bool, true, false, ◌||◌, List, [], ◌∷◌, length, is_empty, none,
  some, lookup, get_or,
}
use nvsentinel_capi_remediat.Objects.{Machine, Cluster, Library, Rule}
use nvsentinel_capi_remediat.World.{Effect, patched, answered, recorded, created, deleted, seen}
use nvsentinel_capi_remediat.World.Ensures.{Keeps}
use nvsentinel_capi_remediat.Quarantine.Device.{Device}
use nvsentinel_capi_remediat.Quarantine.Client.{Toolkit}
use nvsentinel_capi_remediat.Quarantine.Try.{done}
use nvsentinel_capi_remediat.Quarantine.Request.{
  replace_annotation, replace_status_annotation, status_replacing, is_rejected, parse_request,
}
use nvsentinel_capi_remediat.Quarantine.Request.Selection.{lists}
use nvsentinel_capi_remediat.Quarantine.Rules.{Owner, rule_for, covers}
use nvsentinel_capi_remediat.Quarantine.Confirmed.{AllConfirmed}
use nvsentinel_capi_remediat.Controller.Replace.{
  Quarantiner, is_selected, guard_replace, with_status,
}

-- the status annotation of the Machine says that it is being replaced
abbrev pub Announces : Machine → Type 0
Announces updated = lookup replace_status_annotation updated.annotations ≡ some status_replacing

-- a locked patch of the status annotation and of nothing else
abbrev pub IsStatusPatch : Bool → Machine → Machine → Type 0
IsStatusPatch lock base updated =
    (lock ≡ true) × ((status : String) × (updated ≡ with_status base status))

module _ (lib : Library) (tools : Toolkit) (r : Quarantiner) (m : Machine) where
  -- The Machine is not being deleted and carries a request for the names that was not rejected, its
  -- Cluster is selected, and no guard stands against it.
  abbrev pub IsRequested : List String → Type 0
  IsRequested names =
      (request : String) × (cluster : Cluster) × (m.deleting ≡ false)
      × (lookup replace_annotation m.annotations ≡ some request)
      × (is_rejected (get_or "" replace_status_annotation m.annotations) ≡ false)
      × (is_selected r.cluster_selector cluster ≡ true)
      × (guard_replace lib tools cluster m ≡ none)
      × (parse_request lib.quote tools.decimal request ≡ done names)

  -- The rule is one for a device of the drivers that the request asks for.
  abbrev pub IsRuleFor : List String → Rule → Type 0
  IsRuleFor names rule =
      (version : String) × (d : Device) × (owner : Owner) × (now : ℕ) × (rule
        ≡ rule_for tools lib version d owner now)
      × (lists r.drivers d.driver ≡ true)
      × ((is_empty names || lists names d.name) ≡ true)

  -- There is a request, and for each of its devices a rule has been read that keeps it from being
  -- allocated.
  abbrev pub IsBacked : List Effect → Type 0
  IsBacked es =
      (names : List String) × IsRequested names
      × ((ds : List Device) × (covers ds names ≡ true) × AllConfirmed ds es)

  -- What an effect has to be warranted by, where the effects before it are these.
  abbrev pub IsWarranted : Effect → List Effect → Type 0
  IsWarranted (seen rule) es = Unit
  IsWarranted (recorded e) es = (r.dry_run ≡ false) × (length e.note ≤ 1024)
  IsWarranted (patched lock base updated) es =
      (r.dry_run ≡ false)
      × IsStatusPatch lock base updated
      × ((Announces updated → ⊥) ⊎ IsBacked es)
  IsWarranted (created rule) es =
      (r.dry_run ≡ false) × ((names : List String) × IsRequested names × IsRuleFor names rule)
  IsWarranted (deleted m') es = (r.dry_run ≡ false) × IsBacked es
  IsWarranted (answered obj items) es = ⊥

  -- Each effect is warranted by those before it.
  abbrev pub IsDue : List Effect → Type 0
  IsDue [] = Unit
  IsDue (e ∷ es) = IsWarranted e es × IsDue es

  -- an effect that needs nothing of those before it
  abbrev pub IsSide : Effect → Type 0
  IsSide (seen rule) = Unit
  IsSide (recorded e) = (r.dry_run ≡ false) × (length e.note ≤ 1024)
  IsSide (patched lock base updated) =
      (r.dry_run ≡ false) × IsStatusPatch lock base updated × (Announces updated → ⊥)
  IsSide (created rule) =
      (r.dry_run ≡ false) × ((names : List String) × IsRequested names × IsRuleFor names rule)
  IsSide (deleted m') = ⊥
  IsSide (answered obj items) = ⊥

  side-IsWarranted : (e : Effect) (es : List Effect) → IsSide e → IsWarranted e es
  side-IsWarranted (seen rule) es h = tt
  side-IsWarranted (recorded e) es h = h
  side-IsWarranted (patched lock base updated) es h = (h.0, h.1, inl h.2)
  side-IsWarranted (created rule) es h = h
  side-IsWarranted (deleted m') es h = absurd h
  side-IsWarranted (answered obj items) es h = absurd h

  pub Keeps-IsDue : Keeps IsSide IsDue
  Keeps-IsDue = record { step = λ e es h p. (side-IsWarranted e es h, p) }
