-- ===== src/Decision/Choice.antt =====
-- Which action `decide` names, and that truncation does not escalate.
use mathlib.Core.List.{append-nil, append_assoc}
use mathlib.Core.Path.{subst}
use nvsentinel_capi_remediat.Common.{
  ℕ, ◌+◌, ◌*◌, ◌<◌, ◌≤◌, ltb, ◌≡◌, ◌≢◌, refl, sym, ap, ◌∙◌, String, ◌⧺◌, Bool, true, false, not,
  ◌&&◌, ◌||◌, List, [], ◌∷◌, ◌++◌, some, lookup, All, All-append, All-weaken, if◌then◌else◌, arith,
  Bool-cases, Option-cases, inl, inr,
}
use nvsentinel_capi_remediat.Signal.{Signal}
use nvsentinel_capi_remediat.Decision.{
  Decision, report, restart, replace, unset, decision_name, rank, more_disruptive_than,
  same_decision, Table, lookup_action, Best, nothing_yet, consider, consider_all, explain, decide,
  truncation_note,
}

-- No entry holds the zero value, which no configuration can write.
pub record IsProper (t : Table) : Type 0 where
  pub set : (a : String) → lookup a t.entries ≢ some unset

abbrev bit : Bool → ℕ
bit true = 1
bit false = 0

-- how much a decision counts: by its rank, and at equal rank the table's own entry first
abbrev weight : Decision × Bool → ℕ
weight p = 2 * rank p.0 + bit p.1

abbrev pub weigh : Table → String → ℕ
weigh t a = weight (lookup_action t a)

-- `best` is the first action of the list that no other outweighs.
pub record IsFirstBest (t : Table) (actions : List String) (best : String) : Type 0 where
  pub before : List String
  pub after : List String
  pub here : actions ≡ before ++ best ∷ after
  pub heavier : All (λ a. weigh t a < weigh t best) before
  pub not_lighter : All (λ a. weigh t a ≤ weigh t best) after

lookup_action_set : (t : Table) (a : String) → IsProper t → (lookup_action t a).0 ≢ unset
unfolding lookup_action
lookup_action_set t a p = elim (Option-cases (lookup a t.entries)) [
  | inl e ↦ rw e (λ h. cc)
  | inr (d, e) ↦ rw e (λ h. p.set a (e ∙ ap some h))
]

beats : Decision → Bool → Decision → Bool → Bool
unfolding more_disruptive_than same_decision
beats d k e l = more_disruptive_than d e || (k && not l && same_decision d e)

beats-weight :
    (d : Decision) (k : Bool) (e : Decision) (l : Bool)
    → d ≢ unset
    → e ≢ unset
    → beats d k e l ≡ ltb (weight (e, l)) (weight (d, k))
unfolding beats rank decision_name
beats-weight report k report l h g = ground arith
beats-weight report k _ l h g = ground arith
beats-weight restart k report l h g = ground arith
beats-weight restart k _ l h g = ground arith
beats-weight replace k report l h g = ground arith
beats-weight replace k _ l h g = ground arith
beats-weight unset k report l h g = ground arith
beats-weight unset k _ l h g = ground arith

module _ (t : Table) (seen : List String) (b a : String) (h : IsFirstBest t seen b) where
  not_outweighed : weigh t a ≤ weigh t b → IsFirstBest t (seen ++ a ∷ []) b
  not_outweighed le = record {
    before = h.before;
    after = h.after ++ a ∷ [];
    here = ap (λ xs. xs ++ a ∷ []) h.here ∙ append_assoc h.before (b ∷ h.after) (a ∷ []);
    heavier = h.heavier;
    not_lighter = All-append _ h.after (a ∷ []) h.not_lighter (le, tt);
  }

  seen_lighter : weigh t b < weigh t a → All (λ c. weigh t c < weigh t a) seen
  seen_lighter lt = subst (All (λ c. weigh t c < weigh t a)) (sym h.here) (
      All-append _ h.before (b ∷ h.after) (All-weaken _ _ h.before (λ c e. omega arith) h.heavier)
        (lt, All-weaken _ _ h.after (λ c e. omega arith) h.not_lighter))

  outweighed : weigh t b < weigh t a → IsFirstBest t (seen ++ a ∷ []) a
  outweighed lt = record {
    before = seen;
    after = [];
    here = refl;
    heavier = seen_lighter lt;
    not_lighter = tt;
  }

-- the loop's variables stand for the best action of what was looked at
record Holds (t : Table) (seen : List String) (b : Best) : Type 0 where
  found : b.found ≡ true
  looked_up : lookup_action t b.action ≡ (b.decision, b.known)
  first_best : IsFirstBest t seen b.action

test_of_weights :
    (t : Table) (seen : List String) (b : Best) (a : String)
    → IsProper t
    → Holds t seen b
    → beats (lookup_action t a).0 (lookup_action t a).1 b.decision b.known
      ≡ ltb (weigh t b.action) (weigh t a)
test_of_weights t seen b a p h = rw h.looked_up (
    beats-weight (lookup_action t a).0 (lookup_action t a).1 b.decision b.known
      (lookup_action_set t a p)
      (subst (λ q. q.0 ≢ unset) h.looked_up (lookup_action_set t b.action p)))

Holds-consider :
    (t : Table) (seen : List String) (b : Best) (a : String)
    → IsProper t
    → Holds t seen b
    → Holds t (seen ++ a ∷ []) (consider t b a)
unfolding consider beats
Holds-consider t seen b a p h =
    let e = test_of_weights t seen b a p h in
    elim (Bool-cases (ltb (weigh t b.action) (weigh t a))) [
      | inl lt ↦
          rw (h.found, e, lt)
            (record {
              found = refl;
              looked_up = refl;
              first_best = outweighed t seen b.action a h.first_best (ground arith);
            })
      | inr ge ↦
          rw (h.found, e, ge)
            (record {
              found = refl;
              looked_up = h.looked_up;
              first_best = not_outweighed t seen b.action a h.first_best (ground arith);
            })
    ]

Holds-consider_all :
    (t : Table) (seen : List String) (b : Best) (rest : List String)
    → IsProper t
    → Holds t seen b
    → Holds t (seen ++ rest) (consider_all t b rest)
unfolding consider_all
Holds-consider_all t seen b [] p h = rw append-nil h
Holds-consider_all t seen b (a ∷ rest) p h =
    rw (← append_assoc seen (a ∷ []) rest) (
      Holds-consider_all t (seen ++ a ∷ []) (consider t b a) rest p (Holds-consider t seen b a p h))

Holds-first : (t : Table) (a : String) → Holds t (a ∷ []) (consider t nothing_yet a)
unfolding consider
Holds-first t a = record {
  found = refl;
  looked_up = refl;
  first_best = record { before = []; after = []; here = refl; heavier = tt; not_lighter = tt };
}

Holds-decide :
    (t : Table) (a : String) (rest : List String)
    → IsProper t
    → Holds t (a ∷ rest) (consider_all t nothing_yet (a ∷ rest))
unfolding consider_all
Holds-decide t a rest p =
    Holds-consider_all t (a ∷ []) (consider t nothing_yet a) rest p (Holds-first t a)

explain-found :
    (b : Best)
    → b.found ≡ true
    → ((explain b).decision ≡ b.decision) × ((explain b).action ≡ b.action)
unfolding explain
explain-found b f = ground arith

module _ (t : Table) where
  abbrev after_loop : List String → Best
  after_loop = consider_all t nothing_yet

  choice :
      (actions : List String)
      → IsProper t
      → actions ≢ []
      → IsFirstBest t actions (explain (after_loop actions)).action
        × ((explain (after_loop actions)).decision
            ≡ (lookup_action t (explain (after_loop actions)).action).0)
  choice [] p ne = absurd (ne refl)
  choice (a ∷ rest) p ne =
      let h = Holds-decide t a rest p in
      let e = explain-found (after_loop (a ∷ rest)) h.found in
      rw (e.1, e.0) (h.first_best, sym (ap (λ q. q.0) h.looked_up))

  decide-explain :
      (s : Signal)
      → ((decide t s).action ≡ (explain (after_loop s.actions)).action)
        × ((decide t s).decision ≡ (explain (after_loop s.actions)).decision)
  unfolding decide
  decide-explain s = ground arith

-- With a proper table, a signal that carries actions gets the decision of the action it names,
-- and that action is the first one that no other outweighs: a higher rank outweighs a lower one,
-- and at equal rank an action that the table lists outweighs one that it does not.
pub decide-IsFirstBest :
    (t : Table) (s : Signal)
    → IsProper t
    → s.actions ≢ []
    → IsFirstBest t s.actions (decide t s).action
      × ((decide t s).decision ≡ (lookup_action t (decide t s).action).0)
decide-IsFirstBest t s p ne =
    rw ((decide-explain t s).0, (decide-explain t s).1) (choice t s.actions p ne)

abbrev pub whole : Signal → Signal
whole s = record s { truncated = false }

-- A truncated signal is decided like the same signal untruncated, in decision and action, and its
-- reason is that signal's reason, with the note that a more disruptive action may have been lost
-- put behind it exactly when it is truncated.
pub decide_truncated :
    (t : Table) (s : Signal)
    → ((decide t s).decision ≡ (decide t (whole s)).decision)
      × ((decide t s).action ≡ (decide t (whole s)).action)
      × ((decide t s).reason ≡ (
          if s.truncated
          then (decide t (whole s)).reason ⧺ truncation_note
          else (decide t (whole s)).reason))
unfolding decide
decide_truncated t s = ground arith
