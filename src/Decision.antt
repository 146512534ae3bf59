-- ===== src/Decision.antt =====
-- internal/decision/decision.go: the table from recommended actions to decisions, and how a
-- signal is reduced to one outcome. Errors carry the offending text and not the wording.
pub mod Choice
pub mod Overrides
use nvsentinel_capi_remediat.Common.{
  ℕ, ltb, String, ◌⧺◌, ◌==◌, Bool, true, false, ◌&&◌, ◌||◌, not, List, [], ◌∷◌, map, keep, sort_by,
  Option, none, some, Dict, lookup, has, insert, get_or, if◌then◌else◌, trim, is_blank, split, cut,
  equal_fold, str_lt,
}
use nvsentinel_capi_remediat.Signal.{
  Signal, action_none, action_component_reset, action_contact_support, action_run_field_diag,
  action_restart_vm, action_restart_bm, action_replace_vm, action_run_dcgm_eud, action_custom,
  action_unknown, is_known_action,
}

-- `unset` is the zero value of the Go string type.
pub data Decision : Type 0 where
  report restart replace unset : Decision

unfoldable pub decision_name : Decision → String
decision_name report = "Report"
decision_name restart = "Restart"
decision_name replace = "Replace"
decision_name unset = ""

-- a decision that the map does not hold has rank 0
unfoldable pub rank : Decision → ℕ
rank report = 0
rank restart = 1
rank replace = 2
rank unset = 0

unfoldable pub more_disruptive_than : Decision → Decision → Bool
unfolding rank
more_disruptive_than d o = ltb (rank o) (rank d)

-- `d == o`
unfoldable pub same_decision : Decision → Decision → Bool
unfolding decision_name
same_decision d o = decision_name d == decision_name o

unfoldable pub first_named : List Decision → String → Option Decision
unfolding decision_name equal_fold
first_named [] name = none
first_named (d ∷ ds) name =
    if equal_fold name (decision_name d) then some d else first_named ds name

unfoldable pub parse_decision : String → Option Decision
unfolding first_named
parse_decision = first_named (report ∷ restart ∷ replace ∷ [])

abbrev pub defaults : Dict Decision
defaults =
    (action_replace_vm, replace)
    ∷ (action_restart_vm, restart)
    ∷ (action_restart_bm, restart)
    ∷ (action_none, report)
    ∷ (action_component_reset, report)
    ∷ (action_contact_support, report)
    ∷ (action_run_field_diag, report)
    ∷ (action_run_dcgm_eud, report)
    ∷ (action_custom, report)
    ∷ (action_unknown, report)
    ∷ []

pub record Table : Type 0 where
  pub entries : Dict Decision

unfoldable pub default : Table
default = record { entries = defaults }

pub data TableError : Type 0 where
  empty_action : TableError
  unknown_decision : String → TableError
  not_a_pair : String → TableError
  listed_twice : String → TableError

pub data Result {ℓ} (A : Type ℓ) : Type ℓ where
  ok : A → Result A
  err : TableError → Result A

infixl 5 ◌>>=◌
abbrev pub ◌>>=◌ {ℓ κ} : {A : Type ℓ} {B : Type κ} → Result A → (A → Result B) → Result B
err why >>= next = err why
ok x >>= next = next x

-- `if !test { return nil, why }`
infixl 5 ◌>>◌
abbrev pub ◌>>◌ {ℓ} : {B : Type ℓ} → Result (Unit {0}) → Result B → Result B
test >> next = test >>= λ u. next

abbrev pub require : Bool → TableError → Result (Unit {0})
require test why = if test then ok tt else err why

abbrev pub or_fail {ℓ} : {A : Type ℓ} → Option A → TableError → Result A
or_fail none e = err e
or_fail (some a) e = ok a

-- one round of the loop of `New`, on the override (action, value)
unfoldable pub override : Table → String → String → Result Table
unfolding parse_decision trim
override t action value = do
  let name = trim action
  require (not (is_blank name)) empty_action
  d ← or_fail (parse_decision value) (unknown_decision name)
  ok (record { entries = insert name d t.entries })

-- the loop of `New` over the sorted actions, which reads each value from the map
unfoldable pub override_all : Table → Dict String → List String → Result Table
unfolding override get_or
override_all t overrides [] = ok t
override_all t overrides (action ∷ actions) =
    override t action (get_or "" action overrides) >>= λ t'. override_all t' overrides actions

unfoldable pub new : Dict String → Result Table
unfolding override_all default sort_by str_lt
new overrides = override_all default overrides (sort_by str_lt (map (λ e. e.0) overrides))

-- one round of the loop of `ParseOverrides`
unfoldable pub parse_pair : Dict String → String → Result (Dict String)
unfolding trim cut has
parse_pair out field =
    let pair = trim field in
    if is_blank pair then ok out else do
      parts ← or_fail (cut b'=' pair) (not_a_pair pair)
      let action = trim parts.0
      require (not (is_blank action)) (not_a_pair pair)
      require (not (has action out)) (listed_twice action)
      ok (insert action (trim parts.1) out)

unfoldable pub parse_pairs : Dict String → List String → Result (Dict String)
unfolding parse_pair
parse_pairs out [] = ok out
parse_pairs out (field ∷ fields) = parse_pair out field >>= λ out'. parse_pairs out' fields

unfoldable pub parse_overrides : String → Result (Dict String)
unfolding parse_pairs split
parse_overrides s = parse_pairs [] (split b',' s)

unfoldable pub custom_actions : Table → List String
unfolding is_known_action
custom_actions t = sort_by str_lt (keep (λ a. not (is_known_action a)) (map (λ e. e.0) t.entries))

-- `Lookup`, on the result of the map's read
abbrev pub or_report : Option Decision → Decision × Bool
or_report none = (report, false)
or_report (some d) = (d, true)

unfoldable pub lookup_action : Table → String → Decision × Bool
lookup_action t action = or_report (lookup action t.entries)

pub record Outcome : Type 0 where
  pub decision : Decision
  pub action : String
  pub reason : String

-- the variables `best`, `bestKnown` and `found` of `Decide`
pub record Best : Type 0 where
  pub decision : Decision
  pub action : String
  pub known : Bool
  pub found : Bool

unfoldable pub consider : Table → Best → String → Best
unfolding lookup_action more_disruptive_than same_decision
consider t b action =
    let (d, known) = lookup_action t action in
    if not b.found
      || more_disruptive_than d b.decision
      || (known && not b.known && same_decision d b.decision)
    then record { decision = d; action = action; known = known; found = true }
    else b

unfoldable pub consider_all : Table → Best → List String → Best
unfolding consider
consider_all t b [] = b
consider_all t b (action ∷ actions) = consider_all t (consider t b action) actions

abbrev pub nothing_yet : Best
nothing_yet = record { decision = unset; action = ""; known = false; found = false }

-- the `switch` after the loop
unfoldable pub explain : Best → Outcome
unfolding decision_name
explain b =
    if not b.found
    then record {
      decision = report;
      action = "";
      reason = "the signal carries no recommended action";
    }
    else if b.known
    then record {
      decision = b.decision;
      action = b.action;
      reason = b.action ⧺ " maps to " ⧺ decision_name b.decision;
    }
    else record {
      decision = b.decision;
      action = b.action;
      reason = b.action ⧺ " is not in the decision table";
    }

abbrev pub truncation_note : String
truncation_note =
    "; the source dropped trailing events, so a more disruptive action may have been lost"

unfoldable pub decide : Table → Signal → Outcome
unfolding consider_all explain
decide t s =
    let best = explain (consider_all t nothing_yet s.actions) in
    if s.truncated then record best { reason = best.reason ⧺ truncation_note } else best
