-- ===== src/Quarantine/Reads.antt =====
-- What `Exists` and `Of` of internal/quarantine/rules.go have read when they return.
use nvsentinel_capi_remediat.Common.{not, ◌≡◌, true, String, List, [], ◌∷◌, arith}
use nvsentinel_capi_remediat.Objects.{Library, Rule}
use nvsentinel_capi_remediat.World.{◌>>=◌, Result, ok, err, not_found, Client, Effect, seen}
use nvsentinel_capi_remediat.World.Adds.{Adds-read}
use nvsentinel_capi_remediat.World.Ensures.{
  Ensures, Keeps, Keeps-both, Ensures-frame, Ensures-pure, Ensures-bind, Ensures-then,
  Ensures-write, Ensures-weaken, Ensures-if, Ensures-from,
}
use nvsentinel_capi_remediat.Quarantine.Device.{Device}
use nvsentinel_capi_remediat.Quarantine.Client.{Apis, Toolkit}
use nvsentinel_capi_remediat.Quarantine.Try.{Try, done, failed, T, and_then, is_api_not_found}
use nvsentinel_capi_remediat.Quarantine.Rules.{
  Owner, blocks, kind, note_seen, checked, check, listed, of_in, of, exists_checked, exists_version,
  exists_rule,
}
use nvsentinel_capi_remediat.Quarantine.Adds.{kind-Adds}
use nvsentinel_capi_remediat.Quarantine.Confirmed.{
  IsConfirmed, AllConfirmed, AllSeen, made_for-AllConfirmed,
}

-- What holds of the record, and with the value when the call succeeds.
abbrev pub OnDone :
    {A : Type 0}
    → (List Effect → Type 0)
    → (A → List Effect → Type 0)
    → Try A
    → List Effect
    → Type 0
OnDone K Q (done a) es = K es × Q a es
OnDone K Q (failed e) es = K es

still_seen :
    (e : Effect) (es : List Effect) (rules : List Rule) → AllSeen rules es → AllSeen rules (e ∷ es)
still_seen e es [] h = tt
still_seen e es (rule ∷ rules) h = (λ d b. ground (arith, h.0 d b), still_seen e es rules h.1)

module _ {S : Type 0} {K : List Effect → Type 0} where
  pub Ensures-and_then :
      {A B : Type 0} (Q : A → List Effect → Type 0) (R : B → List Effect → Type 0) (m : T S A)
      (f : A → T S B)
      → Ensures K m (OnDone K Q)
      → ((a : A) → Ensures (λ es. K es × Q a es) (f a) (OnDone K R))
      → Ensures K (m >>= λ t. and_then f t) (OnDone K R)
  unfolding and_then
  Ensures-and_then {A = A} Q R m f em ef = Ensures-bind (OnDone K Q) _ _ _ em (λ t. after t)
    where
      after : (t : Try A) → Ensures (OnDone K Q t) (and_then f t) (OnDone K R)
      after (done a) = ef a
      after (failed e) = Ensures-pure _ _ (λ es p. p)

module _ {S : Type 0} {H : Effect → Type 0} (see : (rule : Rule) → H (seen rule)) (lib : Library)
    (tools : Toolkit) (client : Client S) (apis : Apis S) where
  note_seen-AllSeen :
      (rules : List Rule) (K : List Effect → Type 0)
      → Keeps H K
      → Ensures K (note_seen lib tools client apis rules) (λ _ es. K es × AllSeen rules es)
  unfolding note_seen
  note_seen-AllSeen [] K k = Ensures-pure _ _ (λ es p. (p, tt))
  note_seen-AllSeen (rule ∷ rules) K k =
      Ensures-then (λ es. K es × ((d : Device) → blocks rule d ≡ true → IsConfirmed d es)) _ _ _
        (Ensures-write _ _ _ (λ es p. (k.step _ es (see rule) p, λ d b. ground (arith, b))))
        (Ensures-weaken _ _ _ (λ a es q. (q.0.0, (q.0.1, q.1)))
          (note_seen-AllSeen rules _
            (Keeps-both k (record { step = λ e es h p d b. ground (arith, p d b) }))))

  module _ {K : List Effect → Type 0} (k : Keeps H K) where
    checked-IsConfirmed :
        (d : Device) (r : Result Rule)
        → Ensures K (checked lib tools client apis d r) (OnDone K (λ _. IsConfirmed d))
    unfolding checked
    checked-IsConfirmed d (ok rule) = Ensures-then _ _ _ _ (note_seen-AllSeen (rule ∷ []) K k) (
        Ensures-if _ (not (blocks rule d)) _ _ (λ e. Ensures-pure _ _ (λ es p. p.0))
          (λ e. Ensures-pure _ _ (λ es p. (p.0, p.1.0 d (ground (arith, e))))))
    checked-IsConfirmed d (err not_found) = Ensures-pure _ _ (λ es p. p)
    checked-IsConfirmed d (err e) = Ensures-pure _ _ (λ es p. p)

    check-IsConfirmed :
        (version : String) (d : Device)
        → Ensures K (check lib tools client apis version d) (OnDone K (λ _. IsConfirmed d))
    unfolding check
    check-IsConfirmed version d =
        Ensures-bind _ _ _ _ (Ensures-frame _ k (Adds-read _)) (λ r. checked-IsConfirmed d r)

    -- what is known once the version of the rules is found
    kind_known : Ensures K (kind lib tools client apis) (OnDone K (λ _ es. Unit {0}))
    kind_known =
        Ensures-weaken _ _ _ (λ t es p. on_any t es p)
          (Ensures-frame _ k (kind-Adds see lib tools client apis))
      where
        on_any : (t : Try String) (es : List Effect) → K es → OnDone K (λ _ es. Unit {0}) t es
        on_any (done a) es p = (p, tt)
        on_any (failed e) es p = p

    exists_checked-IsConfirmed :
        (d : Device) (t : Try (Unit {0}))
        → Ensures
            (OnDone K (λ _. IsConfirmed d) t)
            (exists_checked lib tools client apis t)
            (OnDone K (λ there es. there ≡ true → IsConfirmed d es))
    unfolding exists_checked
    exists_checked-IsConfirmed d (done u) = Ensures-pure _ _ (λ es p. (p.0, λ e. p.1))
    exists_checked-IsConfirmed d (failed e) =
        Ensures-if _ (is_api_not_found e) _ _
          (λ b. Ensures-pure _ _ (λ es p. (p, λ f. absurd (cc f))))
          (λ b. Ensures-pure _ _ (λ es p. p))

    -- When `Exists` says that the device's rule is there, a rule has been read that keeps the device
    -- from being allocated.
    pub exists_rule-IsConfirmed :
        (d : Device)
        → Ensures K
            (exists_rule lib tools client apis d)
            (OnDone K (λ there es. there ≡ true → IsConfirmed d es))
    unfolding exists_rule exists_version
    exists_rule-IsConfirmed d = Ensures-and_then _ _ _ _ kind_known (λ version.
        Ensures-from _ _ _ (λ es p. p.0)
          (Ensures-bind _ _ _ _ (check-IsConfirmed version d)
            (λ t. exists_checked-IsConfirmed d t)))

    listed-AllConfirmed :
        (owner : Owner) (r : Result (List Rule))
        → Ensures K (listed lib tools client apis owner r) (OnDone K AllConfirmed)
    unfolding listed
    listed-AllConfirmed owner (err e) = Ensures-pure _ _ (λ es p. p)
    listed-AllConfirmed owner (ok rules) =
        Ensures-then _ _ _ _ (note_seen-AllSeen rules K k)
          (Ensures-pure _ _ (λ es p. (p.0, made_for-AllConfirmed tools owner rules es p.1)))

    -- For each device that `Of` returns, a rule has been read that keeps it from being allocated.
    pub of-AllConfirmed :
        (owner : Owner) → Ensures K (of lib tools client apis owner) (OnDone K AllConfirmed)
    unfolding of of_in
    of-AllConfirmed owner = Ensures-and_then _ _ _ _ kind_known (λ version.
        Ensures-from _ _ _ (λ es p. p.0)
          (Ensures-bind _ _ _ _ (Ensures-frame _ k (Adds-read _))
            (λ r. listed-AllConfirmed owner r)))
