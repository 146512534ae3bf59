-- ===== src/Manager.antt =====
-- cmd/manager/main.go: what the flags of the command line make of the reconcilers. The parser of label
-- selectors and the check of driver names are the libraries', and parameters here.
pub mod Start
pub mod Agree
use nvsentinel_capi_remediat.Common.{
  ℕ, String, Bool, true, false, List, [], ◌∷◌, is_empty, Option, none, some, Dict, split, trim,
  is_blank, if◌then◌else◌,
}
use nvsentinel_capi_remediat.Decision
use nvsentinel_capi_remediat.Decision.{Table, TableError, parse_overrides, new}
use nvsentinel_capi_remediat.Controller.State.{Config, RestartFallback, parse_restart_fallback}
use nvsentinel_capi_remediat.Controller.Replace.{Quarantiner}
use nvsentinel_capi_remediat.Quarantine.Request.{add_name}

-- the flags that the reconcilers are made from; the poll interval in nanoseconds
pub record Flags : Type 0 where
  pub cluster_selector : String
  pub restart_fallback : String
  pub decisions : String
  pub quarantine_drivers : String
  pub dry_run : Bool
  pub device_quarantine : Bool
  pub poll_interval : ℕ

pub data DriverError : Type 0 where
  -- the name and what is wrong with it
  bad_driver : String → List String → DriverError
  no_driver : DriverError

-- why the process exits before it makes a manager
pub data FlagError : Type 0 where
  bad_cluster_selector bad_restart_fallback : FlagError
  bad_decisions : TableError → FlagError
  bad_quarantine_drivers : DriverError → FlagError

pub data Parsed {ℓ} (A : Type ℓ) (E : Type 0) : Type ℓ where
  good : A → Parsed A E
  bad : E → Parsed A E

infixl 5 ◌>>=◌
abbrev pub ◌>>=◌ {ℓ κ} :
    {A : Type ℓ} {B : Type κ} {E : Type 0} → Parsed A E → (A → Parsed B E) → Parsed B E
good a >>= f = f a
bad e >>= f = bad e

-- The reconcilers that are set up, the second one only with `--device-quarantine`.
pub record Reconcilers : Type 0 where
  pub clusters : Config
  pub machines : Option Quarantiner

abbrev pub or_else_bad {ℓ} : {A : Type ℓ} → Option A → FlagError → Parsed A FlagError
or_else_bad none e = bad e
or_else_bad (some a) e = good a

abbrev pub table_result {ℓ} : {A : Type ℓ} → Decision.Result A → Parsed A FlagError
table_result (Decision.ok a) = good a
table_result (Decision.err e) = bad (bad_decisions e)

module _ (problems : String → List String) where
  -- the loop of `parseDrivers`
  unfoldable pub parse_fields : List String → List String → Parsed (List String) DriverError
  unfolding trim add_name
  parse_fields drivers [] = if is_empty drivers then bad no_driver else good drivers
  parse_fields drivers (field ∷ fields) =
      let name = trim field in
      let skipping = parse_fields drivers fields in
      let inserting = parse_fields (add_name drivers name) fields in
      if is_blank name
      then skipping
      else if is_empty (problems name)
      then inserting
      else bad (bad_driver name (problems name))

  unfoldable pub parse_drivers : String → Parsed (List String) DriverError
  unfolding parse_fields split
  parse_drivers s = parse_fields [] (split b',' s)

  abbrev pub driver_result :
      Parsed (List String) DriverError → Parsed (Option (List String)) FlagError
  driver_result (good drivers) = good (some drivers)
  driver_result (bad e) = bad (bad_quarantine_drivers e)

  -- the drivers, when devices are quarantined
  unfoldable pub drivers_of : Flags → Parsed (Option (List String)) FlagError
  unfolding parse_drivers
  drivers_of flags =
      if flags.device_quarantine
      then driver_result (parse_drivers flags.quarantine_drivers)
      else good none

  module _ (parse_selector : String → Option (Dict String → Bool)) where
    abbrev given_selector :
        Option (Dict String → Bool) → Parsed (Option (Dict String → Bool)) FlagError
    given_selector none = bad bad_cluster_selector
    given_selector (some selector) = good (some selector)

    -- the selector, `none` for an empty flag
    unfoldable pub selector_of : Flags → Parsed (Option (Dict String → Bool)) FlagError
    selector_of flags =
        if is_blank flags.cluster_selector
        then good none
        else given_selector (parse_selector flags.cluster_selector)

    abbrev pub quarantiner :
        Flags → Option (Dict String → Bool) → Option (List String) → Option Quarantiner
    quarantiner flags selector none = none
    quarantiner flags selector (some drivers) =
        some (record { drivers = drivers; dry_run = flags.dry_run; cluster_selector = selector })

    -- `main`, up to and with the reconcilers
    unfoldable pub reconcilers_of : Flags → Parsed Reconcilers FlagError
    unfolding parse_restart_fallback parse_overrides new selector_of drivers_of
    reconcilers_of flags = do
      selector ← selector_of flags
      fallback ← or_else_bad (parse_restart_fallback flags.restart_fallback) bad_restart_fallback
      overrides ← table_result (parse_overrides flags.decisions)
      table ← table_result (new overrides)
      drivers ← drivers_of flags
      good (record {
        clusters = record {
          table = table;
          dry_run = flags.dry_run;
          interval = flags.poll_interval;
          cluster_selector = selector;
          fallback = fallback;
        };
        machines = quarantiner flags selector drivers;
      })
