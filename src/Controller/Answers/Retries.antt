-- ===== src/Controller/Answers/Retries.antt =====
-- What the retries after a completed answer may release, and how often they try.
use nvsentinel_capi_remediat.Common.{
  ℕ, zero, suc, ◌≤◌, String, ◌≡◌, refl, Bool, true, not, [], Option, none, some, All, arith, eq_iff,
}
use nvsentinel_capi_remediat.Objects.{Library, Machine}
use nvsentinel_capi_remediat.World.{
  M, World, pure, ◌>>◌, write, patch, Result, ok, err, Client, Effect, patched, recorded, EventType,
  record_event,
}
use nvsentinel_capi_remediat.World.Emits.{
  Emits, emits_rules, Emits-pure, Emits-write, Emits-if, Emits-bind, Emits-read,
}
use nvsentinel_capi_remediat.Capi.Actuator.{
  release, release_as, after_patch, marked_action, unstamp,
}
use nvsentinel_capi_remediat.Controller.State.{Config}
use nvsentinel_capi_remediat.Controller.Answers.{
  RestartMark, restart_mark_of, same_mark, Attempt, release_once, release_again, retry_release,
  release_answered,
}
use nvsentinel_capi_remediat.World.Sends.{
  patches, Sends, Sends-pure, Sends-read, Sends-bind, Sends-if,
}

-- a release of a Machine that carries the mark, under the lock
abbrev pub IsReleaseOf : RestartMark → Effect → Type 0
IsReleaseOf mark (patched lock base updated) =
    (lock ≡ true) × (same_mark (restart_mark_of base) mark ≡ true) × (updated ≡ unstamp base)
IsReleaseOf mark (recorded e) = Unit {0}
IsReleaseOf mark _ = ⊥

same_mark_self : (a : RestartMark) → same_mark a a ≡ true
unfolding same_mark
same_mark_self a =
    ground (arith, eq_iff a.action a.action, eq_iff a.boot_id a.boot_id, eq_iff a.request a.request)

module _ {S : Type 0} (lib : Library) (r : Config) (client : Client S) (mark : RestartMark) where
  abbrev Releases : {A : Type 0} → M S A → Type 0
  Releases m = Emits (IsReleaseOf mark) m

  after_patch-Releases :
      {A : Type 0} (m : Machine) (a : A) (type : EventType) (reason action note : String)
      (q : Result Machine)
      → Releases (after_patch client r.dry_run m a type reason action note q)
  unfolding after_patch
  after_patch-Releases m a type reason action note (ok m') = search emits_rules
  after_patch-Releases m a type reason action note (err e) = search emits_rules

  patch-Releases :
      (m : Machine)
      → same_mark (restart_mark_of m) mark ≡ true
      → Releases (patch client true m (unstamp m))
  unfolding patch
  patch-Releases m same = Emits-write _ _ (refl, same, refl)

  release_as-Releases :
      (m : Machine) (reason : String) (own : Option String)
      → same_mark (restart_mark_of m) mark ≡ true
      → Releases (release_as client r.dry_run m reason own)
  release_as-Releases m reason none same = Emits-pure _
  release_as-Releases m reason (some a) same =
      Emits-if m.deleting _ _ (λ _. Emits-pure _)
        λ live.
          Emits-if r.dry_run _ _ (λ _. Emits-pure _)
            λ d. Emits-bind _ _ (patch-Releases m same) (λ q. after_patch-Releases m _ _ _ _ _ q)

  release_once-Releases :
      (m : Machine) (reason : String)
      → same_mark (restart_mark_of m) mark ≡ true
      → Releases (release_once lib r client m reason)
  unfolding release
  release_once-Releases m reason same =
      Emits-bind _ _ (release_as-Releases m reason (marked_action m) same) (λ a. Emits-pure _)

  release_again-Releases :
      (m : Machine) (reason : String) (q : Result Machine)
      → Releases (release_again lib r client mark m reason q)
  unfolding release_again
  release_again-Releases m reason (err e) = Emits-pure _
  release_again-Releases m reason (ok current) =
      Emits-if (same_mark (restart_mark_of current) mark) _ _
        (λ same. release_once-Releases current reason same) (λ _. Emits-pure _)

  retry_release-Releases :
      (tries : ℕ) (a : Attempt) (reason : String)
      → Releases (retry_release lib r client tries mark a reason)
  unfolding retry_release
  retry_release-Releases zero a reason = Emits-pure _
  retry_release-Releases (suc tries) a reason =
      Emits-if (not a.retry) _ _ (λ _. Emits-pure _)
        λ _. Emits-bind _ _ (Emits-read _) λ q.
          Emits-bind _ _ (release_again-Releases a.machine reason q)
            (λ a'. retry_release-Releases tries a' reason)

module _ {S : Type 0} (lib : Library) (r : Config) (client : Client S) where
  after_patch-Sends :
      {A : Type 0} (m : Machine) (a : A) (type : EventType) (reason action note : String)
      (q : Result Machine)
      → Sends 0 (after_patch client r.dry_run m a type reason action note q)
  unfolding after_patch ◌>>◌ record_event pure
  after_patch-Sends m a type reason action note (ok m') = record { at = λ w. omega arith }
  after_patch-Sends m a type reason action note (err e) = record { at = λ w. omega arith }

  patch-Sends : (lock : Bool) (base updated : Machine) → Sends 1 (patch client lock base updated)
  unfolding patch write
  patch-Sends lock base updated = record { at = λ w. omega arith }

  release_as-Sends :
      (m : Machine) (reason : String) (own : Option String)
      → Sends 1 (release_as client r.dry_run m reason own)
  release_as-Sends m reason none = Sends-pure 1 _
  release_as-Sends m reason (some a) = Sends-if 1 m.deleting _ _ (Sends-pure 1 _) (
      Sends-if 1 r.dry_run _ _ (Sends-pure 1 _) (
        Sends-bind 1 0 1 _ _ (patch-Sends true m (unstamp m)) (λ q. after_patch-Sends m _ _ _ _ _ q)
          (omega arith)))

  release_once-Sends :
      (m : Machine) (reason : String) → Sends 1 (release_once lib r client m reason)
  unfolding release
  release_once-Sends m reason =
      Sends-bind 1 0 1 _ _ (release_as-Sends m reason (marked_action m)) (λ a. Sends-pure 0 _)
        (omega arith)

  release_again-Sends :
      (mark : RestartMark) (m : Machine) (reason : String) (q : Result Machine)
      → Sends 1 (release_again lib r client mark m reason q)
  unfolding release_again
  release_again-Sends mark m reason (err e) = Sends-pure 1 _
  release_again-Sends mark m reason (ok current) =
      Sends-if 1 (same_mark (restart_mark_of current) mark) _ _ (release_once-Sends current reason)
        (Sends-pure 1 _)

  retry_release-Sends :
      (tries : ℕ) (mark : RestartMark) (a : Attempt) (reason : String)
      → Sends tries (retry_release lib r client tries mark a reason)
  unfolding retry_release
  retry_release-Sends zero mark a reason = Sends-pure 0 _
  retry_release-Sends (suc tries) mark a reason =
      Sends-if (suc tries) (not a.retry) _ _ (Sends-pure (suc tries) _) (
        Sends-bind 0 (suc tries) (suc tries) _ _ (Sends-read _)
          (λ q.
            Sends-bind 1 tries (suc tries) _ _ (release_again-Sends mark a.machine reason q)
              (λ a'. retry_release-Sends tries mark a' reason) (omega arith))
          (omega arith))

  release_answered-Sends :
      (tries : ℕ) (m : Machine) (reason : String)
      → Sends tries (release_answered lib r client tries m reason)
  unfolding release_answered
  release_answered-Sends zero m reason = Sends-pure 0 _
  release_answered-Sends (suc tries) m reason =
      Sends-bind 1 tries (suc tries) _ _ (release_once-Sends m reason)
        (λ a. retry_release-Sends tries (restart_mark_of m) a reason) (omega arith)

  release_answered-Releases :
      (tries : ℕ) (m : Machine) (reason : String)
      → Emits (IsReleaseOf (restart_mark_of m)) (release_answered lib r client tries m reason)
  unfolding release_answered
  release_answered-Releases zero m reason = Emits-pure _
  release_answered-Releases (suc tries) m reason =
      let mark = restart_mark_of m in
      Emits-bind _ _ (release_once-Releases lib r client mark m reason (same_mark_self mark))
        (λ a. retry_release-Releases lib r client mark tries a reason)

  -- Releasing a Machine whose restart a request was told to be complete, with `tries` attempts:
  -- whatever the server answers and others do meanwhile, at most `tries` patches are sent, and each
  -- is a release under the lock of a Machine that carries, as it is read by then, the mark that was
  -- answered: the same action, boot ID and request. No answer to a request is sent.
  pub release_answered-IsReleaseOf :
      (tries : ℕ) (m : Machine) (reason : String) (server : S)
      → let after =
          (release_answered lib r client tries m reason
            (record { server = server; effects = [] })).1.effects in
        (patches after ≤ tries) × All (IsReleaseOf (restart_mark_of m)) after
  release_answered-IsReleaseOf tries m reason server =
      let w : World S = record { server = server; effects = [] } in
      (
        omega (arith, (release_answered-Sends tries m reason).at w),
        (release_answered-Releases tries m reason).at w tt,
      )
