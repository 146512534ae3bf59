-- ===== src/Controller/Replace/Outcomes.antt =====
-- Requests that nothing more is done about.
use nvsentinel_capi_remediat.Common.{
  String, ◌≡◌, refl, ◌∙◌, true, false, some, lookup, get_or, is_blank, cut_prefix, lookup-insert,
  Bool-cases, inl, inr,
}
use nvsentinel_capi_remediat.Objects.{Machine, Library}
use nvsentinel_capi_remediat.World.{World, pure, Client}
use nvsentinel_capi_remediat.Quarantine.Client.{Apis, Toolkit}
use nvsentinel_capi_remediat.Quarantine.Request.{
  replace_annotation, replace_status_annotation, rejected_status, is_rejected,
}
use nvsentinel_capi_remediat.Quarantine.Request.Parsing.{is_rejected-rejected_status}
use nvsentinel_capi_remediat.Controller.Steps.{ended, end}
use nvsentinel_capi_remediat.Controller.Replace.{Quarantiner, with_status, on_request, replace}
use nvsentinel_capi_remediat.Controller.Replace.Sides.{status_found}

module _ {S : Type 0} (lib : Library) (tools : Toolkit) (r : Quarantiner) (client : Client S)
    (apis : Apis S) (m : Machine) where
  -- a Machine whose status rejects its request is left alone
  left_alone :
      (request status : String) (w : World S)
      → lookup replace_annotation m.annotations ≡ some request
      → lookup replace_status_annotation m.annotations ≡ some status
      → is_rejected status ≡ true
      → replace lib tools r client apis m w ≡ (ended, w)
  unfolding replace on_request get_or end pure
  left_alone request status w asked had rejected = elim (Bool-cases m.deleting) [
    | inl e ↦ rw e refl
    | inr e ↦ rw e (rw asked (rw had (rw rejected refl)))
  ]

rejected_not_blank : (status : String) → is_rejected status ≡ true → is_blank status ≡ false
unfolding is_rejected cut_prefix
rejected_not_blank String.[] h = absurd (cc h)
rejected_not_blank (String.◌∷◌ c s) h = refl

-- setting a status leaves the request as it was
request_kept :
    (m : Machine) (status : String)
    → is_blank status ≡ false
    → lookup replace_annotation (with_status m status).annotations
      ≡ lookup replace_annotation m.annotations
unfolding with_status
request_kept m status b =
    rw b (lookup-insert replace_status_annotation replace_annotation status m.annotations)

module _ {S : Type 0} (lib : Library) (tools : Toolkit) (r : Quarantiner) (client : Client S)
    (apis : Apis S) (m : Machine) where
  -- A request that was rejected stays rejected, whatever the reason was: once the status is set,
  -- nothing is read, written or recorded for it, and no error is returned.
  pub replace-rejected :
      (request reason : String) (w : World S)
      → lookup replace_annotation m.annotations ≡ some request
      → replace lib tools r client apis (with_status m (rejected_status reason)) w ≡ (ended, w)
  replace-rejected request reason w h =
      let status = rejected_status reason in
      let rejected = is_rejected-rejected_status reason in
      let b = rejected_not_blank status rejected in
      left_alone lib tools r client apis (with_status m status) request status w
        (request_kept m status b ∙ h) (status_found m status b) rejected
