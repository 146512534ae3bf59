-- ===== src/Controller/Waits.antt =====
-- internal/controller/cluster_controller.go: the bounded wait of a restart for the checks to drop
-- the mark the Machine carried before.
pub mod Bounded
use nvsentinel_capi_remediat.Common.{
  ℕ, ◌+◌, ◌-◌, ltb, String, ◌==◌, Bool, true, false, ◌&&◌, not, List, [], ◌∷◌, map, keep, exists_in,
  Option, none, some, Dict, lookup, insert, remove, if◌then◌else◌,
}
use nvsentinel_capi_remediat.Objects.{Machine, Library}
use nvsentinel_capi_remediat.Capi.Guard.{earlier_mark_pending}

abbrev pub earlier_mark_grace : ℕ
earlier_mark_grace = 60000000000

pub record ChecksWait : Type 0 where
  pub since : ℕ
  pub over : Bool

-- what `heldForChecks` returns, and the waits after it
pub record Held : Type 0 where
  pub held : Bool
  pub shown : ℕ
  pub waits : Dict ChecksWait

-- `now.Sub(since) < earlierMarkGrace`, for any two times
unfoldable pub within_grace : ℕ → ℕ → Bool
within_grace now since = ltb now (since + earlier_mark_grace)

unfoldable pub held_at : ℕ → String → Dict ChecksWait → Option ChecksWait → Held
unfolding within_grace
held_at now name waits none = record {
  held = true;
  shown = 0;
  waits = insert name (record { since = now; over = false }) waits;
}
held_at now name waits (some wait) =
    if within_grace now wait.since
    then record { held = true; shown = 0; waits = waits }
    else if wait.over
    then record { held = false; shown = 0; waits = waits }
    else record {
      held = false;
      shown = now - wait.since;
      waits = insert name (record wait { over = true }) waits;
    }

-- `heldForChecks`, on the waits of the Machine's Cluster
unfoldable pub held_for_checks : Library → ℕ → Dict ChecksWait → Machine → Held
unfolding held_at
held_for_checks lib now waits m =
    if not (earlier_mark_pending lib m)
    then record { held = false; shown = 0; waits = remove m.name waits }
    else held_at now m.name waits (lookup m.name waits)

-- one round of the loop of `nextLook`
unfoldable pub sooner : ℕ → ℕ → ChecksWait → ℕ
unfolding within_grace
sooner now next wait =
    let left = wait.since + earlier_mark_grace - now in
    if not wait.over && within_grace now wait.since && ltb left next then left else next

-- `nextLook`, on the poll interval and the waits of the Cluster
unfoldable pub next_look : ℕ → ℕ → Dict ChecksWait → ℕ
unfolding sooner
next_look now next [] = next
next_look now next ((name, wait) ∷ waits) = next_look now (sooner now next wait) waits

-- `forgetWaits`: keeps the waits of the Machines that are still as when the wait began
unfoldable pub forget_waits : Library → List Machine → Dict ChecksWait → Dict ChecksWait
forget_waits lib machines waits =
    keep (λ e. exists_in (λ m. earlier_mark_pending lib m && m.name == e.0) machines) waits
