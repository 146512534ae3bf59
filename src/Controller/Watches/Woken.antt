-- ===== src/Controller/Watches/Woken.antt =====
-- Which changes wake the reconcilers, and which need not.
use nvsentinel_capi_remediat.Common.{
  ℕ, String, ◌≡◌, ◌↔◌, refl, ap, Bool, false, Dict, lookup, Option, none, some, eq_iff, arith,
}
use nvsentinel_capi_remediat.Extrr.Answering.{with_given, not_pending}
use nvsentinel_capi_remediat.Objects.{Library, Request}
use nvsentinel_capi_remediat.Quarantine.Request.{replace_annotation, replace_status_annotation}
use nvsentinel_capi_remediat.Controller.Watches.{
  value_changed, updated, request_became_pending, replace_request_changed,
}

some_same : (a b : String) → some a ≡ some b → a ≡ b
some_same a b h = cc h

value_changed-same : (was is : Option String) → (value_changed was is ≡ false) ↔ (was ≡ is)
value_changed-same none none = (λ h. refl, λ h. refl)
value_changed-same none (some b) = (λ h. absurd (cc h), λ h. absurd (cc h))
value_changed-same (some a) none = (λ h. absurd (cc h), λ h. absurd (cc h))
value_changed-same (some a) (some b) = (
  λ h. ap some ((eq_iff a b).0 (ground (arith, h))),
  λ h. ground (arith, (eq_iff a b).1 (some_same a b h)),
)

-- An update of a Machine is passed over exactly when it leaves both annotations of its replace
-- request as they were, whether they are set included.
pub replace_request_changed-same :
    (old new : Dict String)
    → (replace_request_changed (updated old new) ≡ false) ↔ (
        (lookup replace_annotation old ≡ lookup replace_annotation new)
        × (lookup replace_status_annotation old ≡ lookup replace_status_annotation new))
unfolding replace_request_changed
replace_request_changed-same old new =
    let request =
      value_changed-same (lookup replace_annotation old) (lookup replace_annotation new) in
    let status =
      value_changed-same (lookup replace_status_annotation old)
        (lookup replace_status_annotation new) in
    (
      λ h. (request.0 (ground (arith, h)), status.0 (ground (arith, h))),
      λ h. ground (arith, request.1 h.0, status.1 h.1),
    )

-- Answering a request wakes nothing: the update that the answer is, to the request as it was read or
-- as anyone left it meanwhile, is passed over.
pub request_became_pending-with_given :
    (lib : Library) (was obj : Request) (complete : Bool) (reason text : String) (now : ℕ)
    → request_became_pending
        (updated (some was) (some (with_given lib obj complete reason text now)))
      ≡ false
unfolding request_became_pending
request_became_pending-with_given lib was obj complete reason text now =
    ground (arith, not_pending lib obj complete reason text now)
