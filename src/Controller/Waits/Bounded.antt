-- ===== src/Controller/Waits/Bounded.antt =====
-- The wait of a restart for the checks is bounded, and the next look comes when a wait is over.
use nvsentinel_capi_remediat.Common.{
  ℕ, ◌+◌, ◌-◌, ◌≤◌, ◌<◌, false, not, ◌&&◌, ◌∙◌, ltb, ltb→le, String, ◌≡◌, refl, true, Bool-cases,
  inl, inr, List, [], ◌∷◌, Option, none, some, Dict, lookup, if_both, lookup-insert_self, arith,
  All, ◌⊎◌,
}
use nvsentinel_capi_remediat.Objects.{Machine, Library}
use nvsentinel_capi_remediat.Capi.Guard.{earlier_mark_pending}
use nvsentinel_capi_remediat.Controller.Waits.{
  ChecksWait, Held, earlier_mark_grace, within_grace, held_at, held_for_checks, sooner, next_look,
}

-- the waits after looks at the given times, none of which finds the checks done
abbrev pub after_looks : Library → Machine → Dict ChecksWait → List ℕ → Dict ChecksWait
after_looks lib m waits [] = waits
after_looks lib m waits (t ∷ ts) = after_looks lib m (held_for_checks lib t waits m).waits ts

abbrev SinceIs : ℕ → Option ChecksWait → Type 0
SinceIs t none = ⊥
SinceIs t (some wait) = wait.since ≡ t

-- the wait that was begun is found again, whatever is looked up after it
held_at-since :
    (now t : ℕ) (name : String) (waits : Dict ChecksWait) (o : Option ChecksWait)
    → lookup name waits ≡ o
    → SinceIs t o
    → SinceIs t (lookup name (held_at now name waits o).waits)
unfolding held_at within_grace
held_at-since now t name waits none e h = absurd h
held_at-since now t name waits (some wait) e h =
    if_both (λ (x : Held). SinceIs t (lookup name x.waits))
      (ltb now (wait.since + earlier_mark_grace)) _ _ (λ _. rw e h)
      λ _.
        if_both (λ (x : Held). SinceIs t (lookup name x.waits)) wait.over _ _ (λ _. rw e h)
          (λ _. rw lookup-insert_self h)

look-since :
    (lib : Library) (m : Machine) (now t : ℕ) (waits : Dict ChecksWait)
    → earlier_mark_pending lib m ≡ true
    → SinceIs t (lookup m.name waits)
    → SinceIs t (lookup m.name (held_for_checks lib now waits m).waits)
unfolding held_for_checks
look-since lib m now t waits shown h =
    rw shown (held_at-since now t m.name waits (lookup m.name waits) refl h)

looks-since :
    (lib : Library) (m : Machine) (t : ℕ) (waits : Dict ChecksWait) (ts : List ℕ)
    → earlier_mark_pending lib m ≡ true
    → SinceIs t (lookup m.name waits)
    → SinceIs t (lookup m.name (after_looks lib m waits ts))
looks-since lib m t waits [] shown h = h
looks-since lib m t waits (now ∷ ts) shown h =
    looks-since lib m t (held_for_checks lib now waits m).waits ts shown
      (look-since lib m now t waits shown h)

held_at-held :
    (now t : ℕ) (name : String) (waits : Dict ChecksWait) (o : Option ChecksWait)
    → SinceIs t o
    → (held_at now name waits o).held ≡ within_grace now t
unfolding held_at
held_at-held now t name waits none h = absurd h
held_at-held now t name waits (some wait) h = ground arith

begun :
    (lib : Library) (m : Machine) (now : ℕ) (waits : Dict ChecksWait)
    → earlier_mark_pending lib m ≡ true
    → lookup m.name waits ≡ none
    → SinceIs now (lookup m.name (held_for_checks lib now waits m).waits)
unfolding held_for_checks held_at
begun lib m now waits shown new = rw (shown, new) (rw lookup-insert_self refl)

look-held :
    (lib : Library) (m : Machine) (now t : ℕ) (waits : Dict ChecksWait)
    → earlier_mark_pending lib m ≡ true
    → SinceIs t (lookup m.name waits)
    → (held_for_checks lib now waits m).held ≡ within_grace now t
unfolding held_for_checks
look-held lib m now t waits shown h =
    rw shown (held_at-held now t m.name waits (lookup m.name waits) h)

held_at_first :
    (lib : Library) (m : Machine) (now : ℕ) (waits : Dict ChecksWait)
    → earlier_mark_pending lib m ≡ true
    → lookup m.name waits ≡ none
    → (held_for_checks lib now waits m).held ≡ true
unfolding held_for_checks held_at
held_at_first lib m now waits shown new = rw (shown, new) refl

-- A Machine that still shows its earlier mark, and is not waited for yet, is held at the first look.
-- After that look at time `start` and any further looks, in any order, a look at `now` holds it
-- exactly while less than a minute has passed since `start`: no wait lasts longer, and none starts
-- over.
pub held_exactly_for_grace :
    (lib : Library) (m : Machine) (waits : Dict ChecksWait) (start now : ℕ) (ts : List ℕ)
    → earlier_mark_pending lib m ≡ true
    → lookup m.name waits ≡ none
    → ((held_for_checks lib start waits m).held ≡ true)
      × ((held_for_checks lib now (after_looks lib m waits (start ∷ ts)) m).held
          ≡ ltb now (start + earlier_mark_grace))
unfolding within_grace
held_exactly_for_grace lib m waits start now ts shown new = (
  held_at_first lib m start waits shown new,
  look-held lib m now start (after_looks lib m waits (start ∷ ts)) shown (
      looks-since lib m start (held_for_checks lib start waits m).waits ts shown
        (begun lib m start waits shown new)),
)

-- a wait that no longer holds, or one that a look in `next` comes in time for
abbrev pub IsInTime : ℕ → ℕ → ChecksWait → Type 0
IsInTime now next wait =
    (wait.over ≡ true)
    ⊎ (wait.since + earlier_mark_grace ≤ now)
    ⊎ (now + next ≤ wait.since + earlier_mark_grace)

sooner-le : (now next : ℕ) (wait : ChecksWait) → sooner now next wait ≤ next
unfolding sooner
sooner-le now next wait = ground arith

sooner-IsInTime : (now next : ℕ) (wait : ChecksWait) → IsInTime now (sooner now next wait) wait
unfolding sooner within_grace
sooner-IsInTime now next wait = elim (Bool-cases wait.over) [
  | inl o ↦ inl o
  | inr o ↦ elim (Bool-cases (ltb now (wait.since + earlier_mark_grace))) [
    | inl w ↦ rw (o, w) (inr (inr (ground arith)))
    | inr w ↦ inr (inl (ltb→le _ _ w))
  ]
]

next_look-le : (now poll : ℕ) (waits : Dict ChecksWait) → next_look now poll waits ≤ poll
unfolding next_look
next_look-le now poll [] = omega arith
next_look-le now poll ((name, wait) ∷ waits) =
    omega (arith, next_look-le now (sooner now poll wait) waits, sooner-le now poll wait)

IsInTime-mono :
    (now a b : ℕ) (wait : ChecksWait) → b ≤ a → IsInTime now a wait → IsInTime now b wait
IsInTime-mono now a b wait le (inl o) = inl o
IsInTime-mono now a b wait le (inr (inl o)) = inr (inl o)
IsInTime-mono now a b wait le (inr (inr o)) = inr (inr (omega arith))

sooner-pos : (now next : ℕ) (wait : ChecksWait) → 0 < next → 0 < sooner now next wait
unfolding sooner within_grace
sooner-pos now next wait h = ground arith

next_look-pos : (now poll : ℕ) (waits : Dict ChecksWait) → 0 < poll → 0 < next_look now poll waits
unfolding next_look
next_look-pos now poll [] h = h
next_look-pos now poll ((name, wait) ∷ waits) h =
    next_look-pos now (sooner now poll wait) waits (sooner-pos now poll wait h)

-- one of the waits still holds, and is over after `next`
abbrev pub EndsAfter : ℕ → ℕ → Dict ChecksWait → Type 0
EndsAfter now next [] = ⊥
EndsAfter now next ((name, wait) ∷ waits) =
    ((wait.over ≡ false) × (now + next ≡ wait.since + earlier_mark_grace))
    ⊎ EndsAfter now next waits

sooner-cases :
    (now next : ℕ) (wait : ChecksWait)
    → (sooner now next wait ≡ next)
      ⊎ ((wait.over ≡ false) × (now + sooner now next wait ≡ wait.since + earlier_mark_grace))
unfolding sooner within_grace
sooner-cases now next wait =
    elim (Bool-cases (
      not wait.over
      && ltb now (wait.since + earlier_mark_grace)
      && ltb (wait.since + earlier_mark_grace - now) next)) [
        | inl e ↦ rw e (inr (ground (arith, e), ground (arith, e)))
        | inr e ↦ rw e (inl refl)
      ]

next_look-cases :
    (now poll : ℕ) (waits : Dict ChecksWait)
    → (next_look now poll waits ≡ poll) ⊎ EndsAfter now (next_look now poll waits) waits
unfolding next_look
next_look-cases now poll [] = inl refl
next_look-cases now poll ((name, wait) ∷ waits) =
    elim (next_look-cases now (sooner now poll wait) waits) [
      | inr e ↦ inr (inr e)
      | inl e ↦ elim (sooner-cases now poll wait) [
        | inl same ↦ inl (e ∙ same)
        | inr ends ↦ inr (inl (ends.0, rw e ends.1))
      ]
    ]

times :
    (now poll : ℕ) (waits : Dict ChecksWait)
    → All (λ e. IsInTime now (next_look now poll waits) e.1) waits
unfolding next_look
times now poll [] = tt
times now poll ((name, wait) ∷ waits) = (
  IsInTime-mono now (sooner now poll wait) _ wait (next_look-le now (sooner now poll wait) waits)
      (sooner-IsInTime now poll wait),
  times now (sooner now poll wait) waits,
)

-- Under a positive poll interval there is always a next look: it comes after a positive time, never
-- later than the poll, and no later than the end of any wait that still holds a restart back. It
-- comes with the poll or exactly at the end of such a wait, never for anything else.
pub next_look-IsInTime :
    (now poll : ℕ) (waits : Dict ChecksWait)
    → 0 < poll
    → (0 < next_look now poll waits)
      × (next_look now poll waits ≤ poll)
      × All (λ e. IsInTime now (next_look now poll waits) e.1) waits
      × ((next_look now poll waits ≡ poll) ⊎ EndsAfter now (next_look now poll waits) waits)
next_look-IsInTime now poll waits h = (
  next_look-pos now poll waits h,
  next_look-le now poll waits,
  times now poll waits,
  next_look-cases now poll waits,
)
