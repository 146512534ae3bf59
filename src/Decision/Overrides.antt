-- ===== src/Decision/Overrides.antt =====
-- What a table built from overrides says of an action.
use mathlib.Core.Path.{subst}
use nvsentinel_capi_remediat.Common.{
  String, ◌==◌, ◌≡◌, ◌≢◌, refl, sym, ◌∙◌, ap, true, false, Bool-cases, inl, inr, List, [], ◌∷◌, map,
  Option, none, some, Option-cases, Dict, lookup, insert, get_or, lookup-insert, All, trim,
  is_blank, sort_by, str_lt, if◌then◌else◌, if_both, equal_fold,
}
use nvsentinel_capi_remediat.Decision.{
  Decision, report, restart, replace, unset, Table, TableError, Result, ok, err, ◌>>=◌,
  parse_decision, first_named, decision_name, empty_action, unknown_decision, override,
  override_all, new, default,
}
use nvsentinel_capi_remediat.Decision.Choice.{IsProper}

-- the value of the last of the actions that names this one, or else what it was before
abbrev pub last_value : Dict String → String → Option Decision → List String → Option Decision
last_value overrides a before [] = before
last_value overrides a before (action ∷ actions) =
    last_value overrides a
      (if trim action == a then parse_decision (get_or "" action overrides) else before) actions

data Overridden (t : Table) (name value : String) (t' : Table) : Type 0 where
  overridden :
      (d : Decision)
      → parse_decision value ≡ some d
      → t' ≡ record { entries = insert name d t.entries }
      → Overridden t name value t'

override_blank :
    (t : Table) (action value : String)
    → is_blank (trim action) ≡ true
    → override t action value ≡ err empty_action
unfolding override
override_blank t action value b = rw b refl

override_unparsed :
    (t : Table) (action value : String)
    → is_blank (trim action) ≡ false
    → parse_decision value ≡ none
    → override t action value ≡ err (unknown_decision (trim action))
unfolding override
override_unparsed t action value b n = rw b (rw n refl)

override_parsed :
    (t : Table) (action value : String) (d : Decision)
    → is_blank (trim action) ≡ false
    → parse_decision value ≡ some d
    → override t action value ≡ ok (record { entries = insert (trim action) d t.entries })
unfolding override
override_parsed t action value d b s = rw b (rw s refl)

ok_same : (t t' : Table) (x : Result Table) → x ≡ ok t → x ≡ ok t' → t' ≡ t
ok_same t t' x e f = cc

err_not_ok : (u : TableError) (t : Table) (x : Result Table) → x ≡ err u → x ≡ ok t → ⊥
err_not_ok u t x e f = cc

override-Overridden :
    (t : Table) (action value : String) (t' : Table)
    → override t action value ≡ ok t'
    → Overridden t (trim action) value t'
override-Overridden t action value t' e = elim (Bool-cases (is_blank (trim action))) [
  | inl b ↦ absurd (err_not_ok _ _ _ (override_blank t action value b) e)
  | inr b ↦ elim (Option-cases (parse_decision value)) [
    | inl n ↦ absurd (err_not_ok _ _ _ (override_unparsed t action value b n) e)
    | inr (d, s) ↦ overridden d s (ok_same _ _ _ (override_parsed t action value d b s) e)
  ]
]

-- no entry of the list holds the zero value
abbrev Set : Dict Decision → Type 0
Set entries = All (λ e. e.1 ≢ unset) entries

abbrev OrSet : Option Decision → Type 0
OrSet none = Unit {0}
OrSet (some d) = d ≢ unset

first_named-OrSet :
    (ds : List Decision) (name : String) → All (λ x. x ≢ unset) ds → OrSet (first_named ds name)
unfolding first_named
first_named-OrSet [] name h = tt
first_named-OrSet (x ∷ ds) name h =
    if_both OrSet (equal_fold name (decision_name x)) _ _ (λ _. h.0)
      (λ _. first_named-OrSet ds name h.1)

parse_decision-OrSet : (name : String) → OrSet (parse_decision name)
unfolding parse_decision
parse_decision-OrSet name =
    first_named-OrSet (report ∷ restart ∷ replace ∷ []) name
      ((λ e. cc), ((λ e. cc), ((λ e. cc), tt)))

lookup-OrSet : (a : String) (entries : Dict Decision) → Set entries → OrSet (lookup a entries)
unfolding lookup
lookup-OrSet a [] h = tt
lookup-OrSet a ((j, d) ∷ entries) h =
    if_both OrSet (j == a) _ _ (λ _. h.0) (λ _. lookup-OrSet a entries h.1)

insert-Set :
    (k : String) (d : Decision) (entries : Dict Decision)
    → d ≢ unset
    → Set entries
    → Set (insert k d entries)
unfolding insert
insert-Set k d [] ne h = (ne, tt)
insert-Set k d ((j, w) ∷ entries) ne h =
    if_both (λ (x : Dict Decision). Set x) (j == k) _ _ (λ _. (ne, h.1))
      (λ _. (h.0, insert-Set k d entries ne h.1))

IsProper-Set : (t : Table) → Set t.entries → IsProper t
IsProper-Set t h = record { set = λ a e. subst OrSet e (lookup-OrSet a t.entries h) refl }

Set-default : Set default.entries
unfolding default
Set-default = (
  (λ e. cc),
  (
    (λ e. cc),
    (
      (λ e. cc),
      ((λ e. cc), ((λ e. cc), ((λ e. cc), ((λ e. cc), ((λ e. cc), ((λ e. cc), ((λ e. cc), tt))))))),
    ),
  ),
)

-- the table `t'` is as `t` after the actions
record IsAfter (overrides : Dict String) (t t' : Table) (actions : List String) : Type 0 where
  proper : Set t.entries → Set t'.entries
  values : (a : String) → lookup a t'.entries ≡ last_value overrides a (lookup a t.entries) actions

bind_ok :
    (x : Result Table) (f : Table → Result Table) (t' : Table)
    → (x >>= f) ≡ ok t'
    → (t : Table) × (x ≡ ok t) × (f t ≡ ok t')
bind_ok (ok t) f t' e = (t, refl, e)
bind_ok (err u) f t' e = absurd (err_not_ok u t' (err u) refl e)

value_after :
    (overrides : Dict String) (t s : Table) (action a : String)
    → Overridden t (trim action) (get_or "" action overrides) s
    → lookup a s.entries ≡ (
        if trim action == a
        then parse_decision (get_or "" action overrides)
        else lookup a t.entries)
value_after overrides t s action a (overridden d p e) =
    rw (e, p) (lookup-insert (trim action) a d t.entries)

set_after :
    (overrides : Dict String) (t s : Table) (action : String)
    → Overridden t (trim action) (get_or "" action overrides) s
    → Set t.entries
    → Set s.entries
set_after overrides t s action (overridden d p e) h =
    subst (λ (x : Table). Set x.entries) (sym e)
      (insert-Set (trim action) d t.entries
        (subst OrSet p (parse_decision-OrSet (get_or "" action overrides))) h)

override_all-IsAfter :
    (overrides : Dict String) (t t' : Table) (actions : List String)
    → override_all t overrides actions ≡ ok t'
    → IsAfter overrides t t' actions
unfolding override_all
override_all-IsAfter overrides t t' [] e =
    let same = ok_same t t' (ok t) refl e in
    record {
      proper = λ h. subst (λ (x : Table). Set x.entries) (sym same) h;
      values = λ a. rw same refl;
    }
override_all-IsAfter overrides t t' (action ∷ actions) e =
    let (s, first, rest) = bind_ok (override t action (get_or "" action overrides)) _ t' e in
    let o = override-Overridden t action (get_or "" action overrides) s first in
    let later = override_all-IsAfter overrides s t' actions rest in
    record {
      proper = λ h. later.proper (set_after overrides t s action o h);
      values = λ a.
          later.values a
          ∙ ap (λ x. last_value overrides a x actions) (value_after overrides t s action a o);
    }

-- A table that overrides give has no entry without a decision, and says of every action what the
-- last override says that names it, spaces around the name aside, in the order of the names; or
-- what the default table says, when no override names it.
pub new-last_value :
    (overrides : Dict String) (t : Table) (a : String)
    → new overrides ≡ ok t
    → IsProper t
      × (lookup a t.entries
          ≡ last_value overrides a
              (lookup a default.entries)
              (sort_by str_lt (map (λ e. e.0) overrides)))
unfolding new
new-last_value overrides t a e =
    let h =
      override_all-IsAfter overrides default t (sort_by str_lt (map (λ e. e.0) overrides)) e in
    (IsProper-Set t (h.proper Set-default), h.values a)
