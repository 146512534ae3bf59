-- ===== src/Controller/Replace/Calls.antt =====
-- What the calls of a replace request keep of the record of effects, and what they leave known.
use nvsentinel_capi_remediat.Common.{String, ◌≡◌, refl, Bool, true, false, List, [], ◌∷◌}
use nvsentinel_capi_remediat.Objects.{Machine, Library}
use nvsentinel_capi_remediat.World.{M, Result, ok, err, forbidden, Client, Effect}
use nvsentinel_capi_remediat.World.Ensures.{
  Ensures, Keeps, Keeps-both, Ensures-frame, Ensures-pure, Ensures-bind, Ensures-weaken, Ensures-if,
  Ensures-from,
}
use nvsentinel_capi_remediat.Quarantine.Device.{Device}
use nvsentinel_capi_remediat.Quarantine.Client.{Apis, Toolkit}
use nvsentinel_capi_remediat.Quarantine.Try.{
  Try, done, failed, Failure, rejection, api_error, plain_error,
}
use nvsentinel_capi_remediat.Quarantine.Request.Parsing.{rejected_not_replacing}
use nvsentinel_capi_remediat.Quarantine.Confirmed.{IsConfirmed, AllConfirmed, Keeps-IsConfirmed}
use nvsentinel_capi_remediat.Quarantine.Reads.{OnDone, exists_rule-IsConfirmed}
use nvsentinel_capi_remediat.Controller.Steps.{
  Step, next, ended, broken, P, ◌>>=◌, continue, end, break,
}
use nvsentinel_capi_remediat.Controller.Steps.Carry.{OnNext, Ensures-steps}
use nvsentinel_capi_remediat.Controller.Replace.{
  Quarantiner, status_set, reject, fail, or_fail, trying, missing_unless, exist_all,
}
use nvsentinel_capi_remediat.Controller.Replace.Warrant.{IsSide}
use nvsentinel_capi_remediat.Controller.Replace.Sides.{IsSided, note_event-Sided, set_status-Sided}

module _ {S : Type 0} (lib : Library) (tools : Toolkit) (r : Quarantiner) (client : Client S)
    (apis : Apis S) (m0 : Machine) where
  -- what is kept by effects that need nothing of those before them
  abbrev pub IsKept : (List Effect → Type 0) → Type 0
  IsKept K = Keeps (IsSide lib tools r m0) K

  -- A call whose effects need nothing leaves what is kept.
  pub sided :
      {A : Type 0} {K : List Effect → Type 0} (m : P S A)
      → IsKept K
      → IsSided lib tools r client apis m0 m
      → Ensures K m (OnNext K (λ _ es. Unit {0}))
  sided {A = A} {K = K} m k h = Ensures-weaken _ _ _ on_any (Ensures-frame m k h)
    where
      on_any : (s : Step A) (es : List Effect) → K es → OnNext K (λ _ es. Unit {0}) s es
      on_any (next a) es p = (p, tt)
      on_any ended es p = p
      on_any (broken e) es p = p

  -- the rest of a function, after a call whose effects need nothing
  pub after_sided :
      {A B : Type 0} {K : List Effect → Type 0} (R : B → List Effect → Type 0) (m : P S A)
      (f : A → P S B)
      → IsKept K
      → IsSided lib tools r client apis m0 m
      → ((a : A) → Ensures K (f a) (OnNext K R))
      → Ensures K (m >>= f) (OnNext K R)
  after_sided R m f k h ef =
      Ensures-steps _ R m f (sided m k h) (λ a. Ensures-from _ _ _ (λ es p. p.0) (ef a))

  -- `reject` and `fail` never go on.
  pub reject-Ends :
      {A : Type 0} {K : List Effect → Type 0} (R : A → List Effect → Type 0) (m : Machine)
      (request reason text : String)
      → IsKept K
      → Ensures K (reject lib tools r client apis {A = A} m request reason text) (OnNext K R)
  unfolding reject end
  reject-Ends R m request reason text k =
      Ensures-if _ r.dry_run _ _ (λ dry. Ensures-pure _ _ (λ es p. p))
        (λ live.
          after_sided _ _ _ k
            (set_status-Sided lib tools r client apis m0 m _ live (rejected_not_replacing reason))
            (λ m'.
              after_sided _ _ _ k (note_event-Sided lib tools r client apis m0 m' _ _ live)
                (λ u. Ensures-pure _ _ (λ es p. p))))

  pub fail-Ends :
      {A : Type 0} {K : List Effect → Type 0} (R : A → List Effect → Type 0) (m : Machine)
      (request : String) (e : Failure)
      → IsKept K
      → Ensures K (fail lib tools r client apis {A = A} m request e) (OnNext K R)
  unfolding fail break
  fail-Ends R m request (rejection reason text) k = reject-Ends R m request reason text k
  fail-Ends R m request (api_error context forbidden) k = reject-Ends R m request _ _ k
  fail-Ends R m request (api_error context e) k = Ensures-pure _ _ (λ es p. p)
  fail-Ends R m request (plain_error text) k = Ensures-pure _ _ (λ es p. p)

  -- What `fail` makes of an attempt.
  pub or_fail-Ensures :
      {A : Type 0} {K : List Effect → Type 0} (Q : A → List Effect → Type 0) (m : Machine)
      (request : String) (t : Try A)
      → IsKept K
      → Ensures (OnDone K Q t) (or_fail lib tools r client apis m request t) (OnNext K Q)
  unfolding or_fail continue
  or_fail-Ensures Q m request (done a) k = Ensures-pure _ _ (λ es p. p)
  or_fail-Ensures Q m request (failed e) k = fail-Ends Q m request e k

  pub trying-Ensures :
      {A : Type 0} {K : List Effect → Type 0} (Q : A → List Effect → Type 0) (m : Machine)
      (request : String) (a : M S (Try A))
      → IsKept K
      → Ensures K a (OnDone K Q)
      → Ensures K (trying lib tools r client apis m request a) (OnNext K Q)
  unfolding trying
  trying-Ensures Q m request a k h = Ensures-bind _ _ _ _ h (λ t. or_fail-Ensures Q m request t k)

  -- the value of an attempt, where it goes on
  pub known-Ensures :
      {A : Type 0} {K : List Effect → Type 0} (m : Machine) (request : String) (t : Try A)
      → IsKept K
      → Ensures K (or_fail lib tools r client apis m request t) (OnNext K (λ a es. t ≡ done a))
  unfolding or_fail continue
  known-Ensures m request (done a) k = Ensures-pure _ _ (λ es p. (p, refl))
  known-Ensures m request (failed e) k = fail-Ends _ m request e k

  -- what is kept on the way belongs to what is known at the end
  pub regroup :
      {A : Type 0} (K L : List Effect → Type 0) (Q : A → List Effect → Type 0) (s : Step A)
      (es : List Effect)
      → OnNext (λ es. K es × L es) Q s es
      → OnNext K (λ a es. L es × Q a es) s es
  regroup K L Q (next a) es p = (p.0.0, (p.0.1, p.1))
  regroup K L Q ended es p = p.0
  regroup K L Q (broken e) es p = p.0

  missing_unless-IsConfirmed :
      {K : List Effect → Type 0} (d : Device) (there : Bool)
      → Ensures
          (λ es. K es × (there ≡ true → IsConfirmed d es))
          (missing_unless lib tools r client apis d there)
          (OnNext K (λ _. IsConfirmed d))
  unfolding missing_unless continue break
  missing_unless-IsConfirmed d true = Ensures-pure _ _ (λ es p. (p.0, p.1 refl))
  missing_unless-IsConfirmed d false = Ensures-pure _ _ (λ es p. p.0)

  -- The second loop of `quarantine` ends well only where every device is confirmed.
  pub exist_all-AllConfirmed :
      (ds : List Device) (K : List Effect → Type 0) (m : Machine) (request : String)
      → IsKept K
      → Ensures K (exist_all lib tools r client apis m request ds) (OnNext K (λ _. AllConfirmed ds))
  unfolding exist_all continue
  exist_all-AllConfirmed [] K m request k = Ensures-pure _ _ (λ es p. (p, tt))
  exist_all-AllConfirmed (d ∷ ds) K m request k =
      Ensures-steps _ _ _ _
        (trying-Ensures _ m request _ k
          (exists_rule-IsConfirmed (λ rule. tt) lib tools client apis k d))
        (λ there. Ensures-steps _ _ _ _ (missing_unless-IsConfirmed d there) (λ u.
          Ensures-weaken _ _ _ (λ s es p. regroup _ _ _ s es p)
            (exist_all-AllConfirmed ds _ m request (Keeps-both k (Keeps-IsConfirmed d)))))

  pub status_set-Ensures :
      {K : List Effect → Type 0} (m : Machine) (q : Result Machine)
      → Ensures K (status_set lib tools r client apis m q) (OnNext K (λ _ es. Unit {0}))
  unfolding status_set continue break
  status_set-Ensures m (ok m') = Ensures-pure _ _ (λ es p. (p, tt))
  status_set-Ensures m (err e) = Ensures-pure _ _ (λ es p. p)
