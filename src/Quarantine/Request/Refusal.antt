-- ===== src/Quarantine/Request/Refusal.antt =====
-- Why `Select` refuses a request.
use nvsentinel_capi_remediat.Common.{
  ℕ, ◌≤◌, String, ◌==◌, ◌≡◌, refl, ◌⊎◌, inl, inr, true, List, [], ◌∷◌, keep, length, sort_by, arith,
}
use text.Mathlib.TextPositions.{eq_refl}
use nvsentinel_capi_remediat.Quarantine.Device.{Device, device_lt}
use nvsentinel_capi_remediat.Quarantine.Try.{Try, done, failed, Failure, rejection, failed_of_bind}
use nvsentinel_capi_remediat.Quarantine.Request.{
  candidates_of, select_only, select_match, select_named, select, reason_no_devices,
  reason_ambiguous_devices, reason_unknown_device,
}
use nvsentinel_capi_remediat.Quarantine.Request.Selection.{lists}

-- There is no device where one is wanted, and the reason is the given one; or there are several, and
-- the request is ambiguous.
abbrev pub IsMisfit : String → List Device → String → Type 0
IsMisfit none_reason found reason =
    ((length found ≡ 0) × (reason ≡ none_reason))
    ⊎ ((2 ≤ length found) × (reason ≡ reason_ambiguous_devices))

-- the candidates of a name
abbrev pub of_name : List Device → String → List Device
of_name cs name = keep (λ c. c.name == name) cs

-- A request without names misfits all candidates; one with names misfits those of one of its names.
abbrev pub IsRefusal : List Device → List String → String → Type 0
IsRefusal cs [] reason = IsMisfit reason_no_devices cs reason
IsRefusal cs (n ∷ ns) reason =
    (name : String) × (lists (n ∷ ns) name ≡ true)
    × IsMisfit reason_unknown_device (of_name cs name) reason

-- The failure is a rejection for a reason with the property.
abbrev pub IsRejection : (String → Type 0) → Failure → Type 0
IsRejection Q e = (reason : String) × (text : String) × (e ≡ rejection reason text) × Q reason

failed_same : (e e' : Failure) (t : Try (List Device)) → t ≡ failed e → t ≡ failed e' → e' ≡ e
failed_same e e' t h h' = cc (h, h')

module _ (quote : String → String) (decimal : ℕ → String) (drivers : List String) where
  only-Refusal :
      (all cs : List Device) (e : Failure)
      → select_only quote decimal all drivers cs ≡ failed e
      → IsRejection (IsMisfit reason_no_devices cs) e
  unfolding select_only
  only-Refusal all [] e h = (reason_no_devices, _, failed_same _ e _ refl h, inl (refl, refl))
  only-Refusal all (c ∷ []) e h = absurd (cc h)
  only-Refusal all (c ∷ c2 ∷ more) e h =
      (reason_ambiguous_devices, _, failed_same _ e _ refl h, inr (ground arith, refl))

  match-Refusal :
      (cs selected : List Device) (name : String) (found : List Device) (e : Failure)
      → select_match quote decimal drivers cs name selected found ≡ failed e
      → IsRejection (IsMisfit reason_unknown_device found) e
  unfolding select_match
  match-Refusal cs selected name [] e h =
      (reason_unknown_device, _, failed_same _ e _ refl h, inl (refl, refl))
  match-Refusal cs selected name (c ∷ []) e h = absurd (cc h)
  match-Refusal cs selected name (c ∷ c2 ∷ more) e h =
      (reason_ambiguous_devices, _, failed_same _ e _ refl h, inr (ground arith, refl))

  -- a name whose candidates do not fit
  abbrev IsNamedMisfit : List Device → List String → String → Type 0
  IsNamedMisfit cs names reason =
      (name : String) × (lists names name ≡ true)
      × IsMisfit reason_unknown_device (of_name cs name) reason

  named-Refusal :
      (cs selected : List Device) (names : List String) (e : Failure)
      → select_named quote decimal drivers cs selected names ≡ failed e
      → IsRejection (IsNamedMisfit cs names) e
  unfolding select_named
  named-Refusal cs selected [] e h = absurd (cc h)
  named-Refusal cs selected (name ∷ names) e h =
      elim (failed_of_bind (select_match quote decimal drivers cs name selected (of_name cs name))
        (λ s. select_named quote decimal drivers cs s names) e h) [
          | inl f ↦
              let q = match-Refusal cs selected name (of_name cs name) e f in
              (q.0, q.1, q.2, (name, ground (arith, eq_refl name), q.3))
          | inr m ↦
              let q = named-Refusal cs m.0 names e m.2 in
              (q.0, q.1, q.2, (q.3.0, ground (arith, q.3.1), q.3.2))
        ]

  -- A request is refused only with a reason that fits the Machine's devices of the drivers: a request
  -- that lists no name, because there is no such device, or because there are several; one that lists
  -- names, because one of its names is that of no such device, or of several.
  pub select-Refusal :
      (all : List Device) (names : List String) (e : Failure)
      → select quote decimal all drivers names ≡ failed e
      → IsRejection (IsRefusal (candidates_of drivers all) names) e
  unfolding select
  select-Refusal all [] e h = only-Refusal all (candidates_of drivers all) e h
  select-Refusal all (name ∷ names) e h =
      elim (failed_of_bind
        (select_named quote decimal drivers (candidates_of drivers all) [] (name ∷ names))
        (λ s. done (sort_by device_lt s)) e h) [
          | inl f ↦ named-Refusal (candidates_of drivers all) [] (name ∷ names) e f
          | inr m ↦ absurd (cc m.2)
        ]
