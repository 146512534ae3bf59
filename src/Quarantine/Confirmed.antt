-- ===== src/Quarantine/Confirmed.antt =====
-- That a device is quarantined, told from the rules that were read: what `Exists` and `Of` of
-- internal/quarantine/rules.go leave in the record of effects.
use nvsentinel_capi_remediat.Common.{
  ◌≡◌, Bool, true, false, List, [], ◌∷◌, map, keep, exists_in, insert_by, sort_by, All, arith,
  get_or, Bool-cases, inl, inr,
}
use text.Mathlib.TextPositions.{eq_refl}
use nvsentinel_capi_remediat.Objects.{Rule}
use nvsentinel_capi_remediat.World.{Effect, seen}
use nvsentinel_capi_remediat.World.Ensures.{Keeps}
use nvsentinel_capi_remediat.Quarantine.Device.{Device, device_lt}
use nvsentinel_capi_remediat.Quarantine.Client.{Toolkit}
use nvsentinel_capi_remediat.Quarantine.Rules.{
  Owner, blocks, selected_device, is_made_for, made_for,
}

-- whether the effect is a read of a rule that keeps the device from being allocated
abbrev pub shows_rule : Device → Effect → Bool
shows_rule d (seen rule) = blocks rule d
shows_rule d e = false

-- A rule that keeps the device from being allocated has been read.
abbrev pub IsConfirmed : Device → List Effect → Type 0
IsConfirmed d es = exists_in (shows_rule d) es ≡ true

-- A rule that keeps each device from being allocated has been read.
abbrev pub AllConfirmed : List Device → List Effect → Type 0
AllConfirmed ds es = All (λ d. IsConfirmed d es) ds

pub Keeps-IsConfirmed : {H : Effect → Type 0} (d : Device) → Keeps H (IsConfirmed d)
Keeps-IsConfirmed d = record { step = λ e es h p. ground (arith, p) }

still_confirmed :
    (e : Effect) (es : List Effect) (ds : List Device)
    → AllConfirmed ds es
    → AllConfirmed ds (e ∷ es)
still_confirmed e es [] h = tt
still_confirmed e es (d ∷ ds) h = (ground (arith, h.0), still_confirmed e es ds h.1)

pub Keeps-AllConfirmed : {H : Effect → Type 0} (ds : List Device) → Keeps H (AllConfirmed ds)
Keeps-AllConfirmed ds = record { step = λ e es h p. still_confirmed e es ds p }

All-insert_by :
    (P : Device → Type 0) (d : Device) (ds : List Device)
    → P d
    → All P ds
    → All P (insert_by device_lt d ds)
unfolding insert_by
All-insert_by P d [] p h = (p, tt)
All-insert_by P d (c ∷ ds) p h = elim (Bool-cases (device_lt c d)) [
  | inl e ↦ rw e (h.0, All-insert_by P d ds p h.1)
  | inr e ↦ rw e (p, h)
]

All-sort_by : (P : Device → Type 0) (ds : List Device) → All P ds → All P (sort_by device_lt ds)
unfolding sort_by
All-sort_by P [] h = tt
All-sort_by P (d ∷ ds) h = All-insert_by P d (sort_by device_lt ds) h.0 (All-sort_by P ds h.1)

-- A rule that `Of` takes for one that was made keeps the device of its selector from being allocated.
pub blocks_selected :
    (tools : Toolkit) (owner : Owner) (rule : Rule)
    → is_made_for tools owner rule ≡ true
    → blocks rule (selected_device rule) ≡ true
unfolding is_made_for blocks selected_device
blocks_selected tools owner rule h = ground (
  arith,
  h,
  eq_refl (get_or "" "driver" rule.selector),
  eq_refl (get_or "" "pool" rule.selector),
  eq_refl (get_or "" "device" rule.selector),
)

-- every rule of the list is in the record
abbrev pub AllSeen : List Rule → List Effect → Type 0
AllSeen rules es = All (λ rule. (d : Device) → blocks rule d ≡ true → IsConfirmed d es) rules

made-AllConfirmed :
    (tools : Toolkit) (owner : Owner) (rules : List Rule) (es : List Effect)
    → AllSeen rules es
    → All (λ d. IsConfirmed d es) (map selected_device (keep (is_made_for tools owner) rules))
made-AllConfirmed tools owner [] es h = tt
made-AllConfirmed tools owner (rule ∷ rules) es h =
    elim (Bool-cases (is_made_for tools owner rule)) [
      | inl e ↦ rw e (
        h.0 (selected_device rule) (blocks_selected tools owner rule e),
        made-AllConfirmed tools owner rules es h.1,
      )
      | inr e ↦ rw e (made-AllConfirmed tools owner rules es h.1)
    ]

pub made_for-AllConfirmed :
    (tools : Toolkit) (owner : Owner) (rules : List Rule) (es : List Effect)
    → AllSeen rules es
    → AllConfirmed (made_for tools owner rules) es
unfolding made_for
made_for-AllConfirmed tools owner rules es h =
    All-sort_by (λ d. IsConfirmed d es) _ (made-AllConfirmed tools owner rules es h)
