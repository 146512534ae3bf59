-- ===== src/Controller/Release/Sent.antt =====
-- What the end of a pass sends.
use mathlib.Core.List.{append_assoc, append-nil}
use nvsentinel_capi_remediat.Common.{
  String, ◌==◌, ◌≡◌, refl, sym, ap, ◌∙◌, Bool, true, false, not, ◌&&◌, List, [], ◌∷◌, ◌++◌, map,
  All, Option, none, some, Dict, lookup, lookup-insert, exists_in, sort_by, IsDistinct,
  sort_by-IsDistinct, str_lt, if◌then◌else◌, arith,
}
use nvsentinel_capi_remediat.Objects.{Machine, Node}
use nvsentinel_capi_remediat.World.{
  World, ◌>>◌, EventType, Result, ok, err, Client, Effect, patched, patch, pure, ◌>>=◌,
  record_event,
}
use nvsentinel_capi_remediat.World.Ensures.{
  Ensures, Ensures-pure, Ensures-bind, Ensures-write, Ensures-if, Ensures-weaken,
}
use nvsentinel_capi_remediat.Capi.Note.{action_restart}
use nvsentinel_capi_remediat.Capi.Actuator.{
  marked_action, marked_for, is_action, unstamp, after_patch, release, release_as,
}
use nvsentinel_capi_remediat.Controller.State.{Config, Observation}
use nvsentinel_capi_remediat.Controller.Release.{
  Holding, holds_nothing, hold_all, is_releasable, Released, after_release, release_if,
  release_round, release_all, release_restarts,
}
use nvsentinel_capi_remediat.Controller.Release.Holds.{holds, is_releasable-hold_all}

-- the patches of Machines that were sent, in their order
abbrev pub sent : List Effect → List Effect
sent [] = []
sent (patched lock base updated ∷ es) = sent es ++ (patched lock base updated ∷ [])
sent (e ∷ es) = sent es

abbrev IsSent : List Effect → List Effect → Type 0
IsSent k es = sent es ≡ k

-- adding what is sent under a test
add_if : (b : Bool) (k one : List Effect) → b ≡ true → k ++ one ≡ k ++ (if b then one else [])
add_if true k one h = refl
add_if false k one h = absurd (cc h)

add_nothing : (b : Bool) (k one : List Effect) → b ≡ false → k ≡ k ++ (if b then one else [])
add_nothing true k one h = absurd (cc h)
add_nothing false k one h = sym (append-nil k)

module _ {S : Type 0} (client : Client S) (dry_run : Bool) (m : Machine) (reason : String)
    (k : List Effect) where
  abbrev one : List Effect
  one = patched true m (unstamp m) ∷ []

  after_patch-IsSent :
      {A : Type 0} (type : EventType) (why action note : String) (a : A) (j : List Effect)
      (q : Result Machine)
      → Ensures (IsSent j) (after_patch client dry_run m a type why action note q) (λ x. IsSent j)
  unfolding after_patch record_event pure ◌>>=◌ ◌>>◌
  after_patch-IsSent type why action note a j (ok m') = record { at = λ w p. p }
  after_patch-IsSent type why action note a j (err e) = record { at = λ w p. p }

  patch-IsSent : Ensures (IsSent k) (patch client true m (unstamp m)) (λ q. IsSent (k ++ one))
  unfolding patch
  patch-IsSent = Ensures-write _ _ _ (λ es p. ap (λ x. x ++ one) p)

  release_as-IsSent :
      (o : Option String)
      → is_action action_restart o ≡ true
      → Ensures
          (IsSent k)
          (release_as client dry_run m reason o)
          (λ x. IsSent (k ++ (if not dry_run && not m.deleting then one else [])))
  release_as-IsSent none h = absurd (cc h)
  release_as-IsSent (some action) h =
      Ensures-if _ m.deleting _ _
        (λ gone. Ensures-pure _ _ (λ es p. p ∙ add_nothing _ k one (ground (arith, gone))))
        (λ here.
          Ensures-if _ dry_run _ _
            (λ dry. Ensures-pure _ _ (λ es p. p ∙ add_nothing _ k one (ground (arith, dry))))
            (λ live.
              Ensures-weaken (λ x. IsSent (k ++ one)) _ _
                (λ x es p. p ∙ add_if _ k one (ground (arith, here, live)))
                (Ensures-bind (λ q. IsSent (k ++ one)) _ _ _ patch-IsSent
                  (λ q. after_patch-IsSent _ _ _ _ true (k ++ one) q))))

  release-IsSent :
      marked_for m action_restart ≡ true
      → Ensures
          (IsSent k)
          (release client dry_run m reason)
          (λ x. IsSent (k ++ (if not dry_run && not m.deleting then one else [])))
  unfolding release marked_for
  release-IsSent h = release_as-IsSent (marked_action m) h

-- the Machines by node that an action left as they were, but for one node
abbrev Others : String → Released → Released → Type 0
Others node out out' =
    (n : String) → (node == n) ≡ false → lookup n out'.machines ≡ lookup n out.machines

module _ {S : Type 0} (r : Config) (client : Client S) (machines : Dict Machine) (nodes : Dict Node)
    (current : Dict Observation) (asking : Dict Bool) where
  -- whether the Machine is to be released
  abbrev pub is_due : Machine → Bool
  is_due m =
      marked_for m action_restart
      && not (exists_in (λ e. holds machines nodes asking m.name e.1) current)
      && not r.dry_run
      && not m.deleting

  -- the release of the Machine, when it is to be released
  abbrev pub releases : Option Machine → List Effect
  releases none = []
  releases (some m) = if is_due m then patched true m (unstamp m) ∷ [] else []

  abbrev pub all_releases : List String → List Effect
  all_releases [] = []
  all_releases (node ∷ rest) = releases (lookup node machines) ++ all_releases rest

  holding : Holding
  holding = hold_all machines nodes asking holds_nothing current

  after_release-Others :
      (out : Released) (node name : String) (q : Result Bool × Machine)
      → Others node out (after_release r client out node name q)
  unfolding after_release
  after_release-Others out node name (ok b, m) n h =
      rw (lookup-insert node n m out.machines, h) refl
  after_release-Others out node name (err e, m) n h =
      rw (lookup-insert node n m out.machines, h) refl

  -- what a round leaves
  abbrev AfterRound : List Effect → String → Released → Released → List Effect → Type 0
  AfterRound k node out out' es = IsSent k es × Others node out out'

  release_if-Sent :
      (source node : String) (out : Released) (k : List Effect) (o : Option Machine)
      → Ensures
          (IsSent k)
          (release_if r client source holding node out o)
          (AfterRound (k ++ releases o) node out)
  unfolding release_if holding
  release_if-Sent source node out k none =
      Ensures-pure _ _ (λ es p. (p ∙ sym (append-nil k), λ n h. refl))
  release_if-Sent source node out k (some m) =
      let one = patched true m (unstamp m) ∷ [] in
      let by_held = is_releasable-hold_all machines nodes asking m current in
      Ensures-if _ (not (is_releasable holding m)) _ _
        (λ held.
          Ensures-pure _ _ (λ es p.
            (p ∙ add_nothing (is_due m) k one (ground (arith, held, by_held)), λ n h. refl)))
        (λ free.
          Ensures-bind (λ q. IsSent (k ++ releases (some m))) _ _ _
            (Ensures-weaken _ _ _
              (λ a es p. p ∙ ap (λ b. k ++ (if b then one else [])) (ground (arith, free, by_held)))
              (release-IsSent client r.dry_run m _ k (ground (arith, free, by_held))))
            (λ q. Ensures-pure _ _ (λ es p. (p, after_release-Others out node m.name q))))

  round-Sent :
      (source node : String) (out : Released) (k : List Effect)
      → lookup node out.machines ≡ lookup node machines
      → Ensures
          (IsSent k)
          (release_round r client source holding node out)
          (AfterRound (k ++ releases (lookup node machines)) node out)
  unfolding release_round
  round-Sent source node out k h = rw h (release_if-Sent source node out k (lookup node machines))

  -- what the rounds before leave of the Machines
  left_by_round :
      (node : String) (names : List String) (out out' : Released)
      → exists_in (λ other. node == other) names ≡ false
      → Others node out out'
      → All (λ n. lookup n out.machines ≡ lookup n machines) names
      → All (λ n. lookup n out'.machines ≡ lookup n machines) names
  left_by_round node [] out out' d o h = tt
  left_by_round node (name ∷ names) out out' d o h = (
    o name (ground (arith, d)) ∙ h.0,
    left_by_round node names out out' (ground (arith, d)) o h.1,
  )

  release_all-Sent :
      (source : String) (names : List String) (out : Released) (k : List Effect)
      → IsDistinct names
      → All (λ n. lookup n out.machines ≡ lookup n machines) names
      → Ensures
          (IsSent k)
          (release_all r client source holding names out)
          (λ out'. IsSent (k ++ all_releases names))
  unfolding release_all
  release_all-Sent source [] out k d h = Ensures-pure _ _ (λ es p. p ∙ sym (append-nil k))
  release_all-Sent source (node ∷ names) out k d h =
      Ensures-bind (AfterRound (k ++ releases (lookup node machines)) node out) _ _ _
        (round-Sent source node out k h.0)
        (λ out'. record {
          at = λ w q.
              ((release_all-Sent source names out' (k ++ releases (lookup node machines)) d.1
                  (left_by_round node names out out' d.0 q.1 h.1)).at
                w q.0)
              ∙ append_assoc k (releases (lookup node machines)) (all_releases names);
        })

  unchanged_at_first :
      (names : List String) → All (λ n. lookup n machines ≡ lookup n machines) names
  unchanged_at_first [] = tt
  unchanged_at_first (name ∷ names) = (refl, unchanged_at_first names)

  -- Where no node has two Machines, releasing restarts sends, whatever the server answers, the
  -- releases of these Machines and no other patch, in the order of their nodes, each once and under
  -- the lock: those that carry this operator's restart mark, are not being deleted, and that no
  -- observation of the pass holds back. One holds a Machine back that names it and calls for a restart
  -- or a replacement, unless the mark is a leftover for it. In a dry run nothing is sent.
  pub release_restarts-sent :
      (source : String)
      → IsDistinct (map (λ e. e.0) machines)
      → (w : World S)
      → sent (release_restarts r client source machines nodes current asking w).1.effects
        ≡ sent w.effects ++ all_releases (sort_by str_lt (map (λ e. e.0) machines))
  unfolding release_restarts holding
  release_restarts-sent source d w =
      (release_all-Sent source (sort_by str_lt (map (λ e. e.0) machines)) _ (sent w.effects)
          (sort_by-IsDistinct _ d) (unchanged_at_first _)).at
        w refl
