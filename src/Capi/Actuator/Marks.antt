-- ===== src/Capi/Actuator/Marks.antt =====
-- What the Machines that the actuator asks for carry: marks that are set, removed and turned.
use nvsentinel_capi_remediat.Common.{
  String, ◌==◌, ◌≡◌, refl, true, false, not, List, [], ◌∷◌, none, some, Dict, lookup, has, insert,
  remove, keep, get_or, lookup-insert, lookup-remove, exists_in, is_blank, eq_iff, if◌then◌else◌,
  arith,
}
use nvsentinel_capi_remediat.Objects.{Machine, remediate_machine_annotation}
use nvsentinel_capi_remediat.Capi.Note.{
  action_remediate, action_restart, remediation_reason_annotation, remediation_action_annotation,
  remediation_boot_id_annotation, remediation_request_annotation,
}
use nvsentinel_capi_remediat.Capi.Guard.{is_marked_for_remediation}
use nvsentinel_capi_remediat.Capi.Actuator.{
  RestartRecord, annotation, set_unless_blank, marked_action, marked_for, stamp, unstamp, restamp,
}

-- the annotations that the operator writes
abbrev pub own_annotations : List String
own_annotations =
    remediate_machine_annotation ∷ remediation_reason_annotation ∷ remediation_action_annotation
    ∷ remediation_boot_id_annotation ∷ remediation_request_annotation ∷ []

-- the annotations that are not the operator's
abbrev pub foreign : Dict String → Dict String
foreign d = keep (λ e. not (exists_in (λ j. j == e.0) own_annotations)) d

-- Nothing of the Machine differs but its annotations, and of those only the operator's.
pub record ChangesOwn (base updated : Machine) : Type 0 where
  pub rest : updated ≡ record base { annotations = updated.annotations }
  pub others : foreign updated.annotations ≡ foreign base.annotations

foreign-insert :
    (k v : String) (d : Dict String)
    → exists_in (λ j. j == k) own_annotations ≡ true
    → foreign (insert k v d) ≡ foreign d
unfolding insert
foreign-insert k v [] own = ground (arith, own)
foreign-insert k v ((j, w) ∷ d) own = ground (arith, own, eq_iff j k, foreign-insert k v d own)

foreign-remove :
    (k : String) (d : Dict String)
    → exists_in (λ j. j == k) own_annotations ≡ true
    → foreign (remove k d) ≡ foreign d
unfolding remove
foreign-remove k [] own = refl
foreign-remove k ((j, w) ∷ d) own = ground (arith, own, eq_iff j k, foreign-remove k d own)

foreign-set_unless_blank :
    (k v : String) (d : Dict String)
    → exists_in (λ j. j == k) own_annotations ≡ true
    → foreign (set_unless_blank k v d) ≡ foreign d
foreign-set_unless_blank k v d own = ground (arith, foreign-insert k v d own)

ruleset foreign_rules = (foreign-insert, foreign-remove, foreign-set_unless_blank)

lookup-set_unless_blank :
    (k j v : String) (d : Dict String)
    → lookup j (set_unless_blank k v d)
      ≡ (if k == j then (if is_blank v then lookup j d else some v) else lookup j d)
lookup-set_unless_blank k j v d = ground (arith, lookup-insert k j v d)

ruleset lookups = (lookup-insert, lookup-remove, lookup-set_unless_blank)

pub stamp-ChangesOwn :
    (m : Machine) (action reason : String) (r : RestartRecord)
    → ChangesOwn m (stamp m action reason r)
unfolding stamp
stamp-ChangesOwn m action reason r = record { rest = refl; others = simp foreign_rules }

pub unstamp-ChangesOwn : (m : Machine) → ChangesOwn m (unstamp m)
unfolding unstamp
unstamp-ChangesOwn m = record { rest = refl; others = simp foreign_rules }

pub restamp-ChangesOwn : (m : Machine) (reason : String) → ChangesOwn m (restamp m reason)
unfolding restamp
restamp-ChangesOwn m reason = record { rest = refl; others = simp foreign_rules }

pub is_marked-stamp :
    (m : Machine) (action reason : String) (r : RestartRecord)
    → is_marked_for_remediation (stamp m action reason r) ≡ true
unfolding is_marked_for_remediation has stamp
is_marked-stamp m action reason r = simp lookups

pub marked_action-stamp :
    (m : Machine) (action reason : String) (r : RestartRecord)
    → marked_action (stamp m action reason r) ≡ some action
unfolding marked_action
marked_action-stamp m action reason r =
    rw (is_marked-stamp m action reason r) (unfold stamp in simp lookups)

pub is_marked-unstamp : (m : Machine) → is_marked_for_remediation (unstamp m) ≡ false
unfolding is_marked_for_remediation has unstamp
is_marked-unstamp m = simp lookups

is_marked_of_marked_for :
    (m : Machine) (action : String)
    → marked_for m action ≡ true
    → is_marked_for_remediation m ≡ true
unfolding marked_for marked_action
is_marked_of_marked_for m action h = ground arith

is_marked-restamp :
    (m : Machine) (reason : String)
    → is_marked_for_remediation m ≡ true
    → is_marked_for_remediation (restamp m reason) ≡ true
unfolding is_marked_for_remediation has restamp
is_marked-restamp m reason h = simp lookups h

pub marked_action-restamp :
    (m : Machine) (reason : String)
    → marked_for m action_restart ≡ true
    → marked_action (restamp m reason) ≡ some action_remediate
unfolding marked_action
marked_action-restamp m reason h =
    rw (is_marked-restamp m reason (is_marked_of_marked_for m action_restart h))
      (unfold restamp in simp lookups)

pub annotation-stamp_boot_id :
    (m : Machine) (action reason : String) (r : RestartRecord)
    → annotation remediation_boot_id_annotation (stamp m action reason r)
      ≡ (if is_blank r.boot_id then annotation remediation_boot_id_annotation m else r.boot_id)
unfolding get_or stamp
annotation-stamp_boot_id m action reason r = simp lookups (ground arith)

pub annotation-stamp_request :
    (m : Machine) (action reason : String) (r : RestartRecord)
    → annotation remediation_request_annotation (stamp m action reason r)
      ≡ (if is_blank r.request then annotation remediation_request_annotation m else r.request)
unfolding get_or stamp
annotation-stamp_request m action reason r = simp lookups (ground arith)

-- whether the Machine carries none of the operator's annotations
abbrev pub IsClean : Machine → Type 0
IsClean m =
    (lookup remediate_machine_annotation m.annotations ≡ none)
    × (lookup remediation_reason_annotation m.annotations ≡ none)
    × (lookup remediation_action_annotation m.annotations ≡ none)
    × (lookup remediation_boot_id_annotation m.annotations ≡ none)
    × (lookup remediation_request_annotation m.annotations ≡ none)

-- Releasing undoes marking: a Machine with none of the operator's annotations that is marked and
-- then released has every annotation as it was, whatever the mark recorded.
pub unstamp-stamp :
    (m : Machine) (action reason : String) (r : RestartRecord) (k : String)
    → IsClean m
    → lookup k (unstamp (stamp m action reason r)).annotations ≡ lookup k m.annotations
unfolding unstamp stamp
unstamp-stamp m action reason r k c = simp lookups (
    ground (
      arith,
      eq_iff remediate_machine_annotation k,
      eq_iff remediation_reason_annotation k,
      eq_iff remediation_action_annotation k,
      eq_iff remediation_boot_id_annotation k,
      eq_iff remediation_request_annotation k,
    ))
