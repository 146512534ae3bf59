-- ===== src/Manager/Agree.antt =====
-- That the reconcilers which a process sets up agree with each other and with the flags.
use nvsentinel_capi_remediat.Common.{
  String, ◌≡◌, refl, sym, Bool, true, false, List, All, is_empty, Option, none, some, Dict,
  if◌then◌else◌,
}
use nvsentinel_capi_remediat.Decision
use nvsentinel_capi_remediat.Decision.{Table, new, parse_overrides}
use nvsentinel_capi_remediat.Decision.Choice.{IsProper}
use nvsentinel_capi_remediat.Decision.Overrides.{new-last_value}
use nvsentinel_capi_remediat.Controller.State.{Config, parse_restart_fallback}
use nvsentinel_capi_remediat.Controller.Replace.{Quarantiner}
use nvsentinel_capi_remediat.Manager.{
  Flags, Parsed, good, bad, bad_restart_fallback, DriverError, Reconcilers, ◌>>=◌, or_else_bad,
  table_result, parse_drivers, drivers_of, driver_result, selector_of, quarantiner, reconcilers_of,
}
use nvsentinel_capi_remediat.Manager.Start.{IsValid, parse_drivers-lists}

good_of_bind {ℓ κ} :
    {A : Type ℓ} {B : Type κ} {E : Type 0} (p : Parsed A E) (f : A → Parsed B E) (b : B)
    → (p >>= f) ≡ good b
    → (a : A) × (p ≡ good a) × (f a ≡ good b)
good_of_bind (good a) f b h = (a, refl, h)
good_of_bind (bad e) f b h = absurd (cc h)

good_value {ℓ} :
    {A : Type ℓ} {E : Type 0} (p : Parsed A E) (a b : A) → p ≡ good a → p ≡ good b → b ≡ a
good_value p a b h k = cc (h, k)

table_ok : (q : Decision.Result Table) (t : Table) → table_result q ≡ good t → q ≡ Decision.ok t
table_ok (Decision.ok u) t h = cc h
table_ok (Decision.err e) t h = absurd (cc h)

module _ (problems : String → List String)
    (parse_selector : String → Option (Dict String → Bool)) where
  -- The second reconciler is there or not as the flag says. Where it is, it has the dry run and the
  -- selector of the first, and at least one driver, each with nothing wrong with its name.
  abbrev pub IsAgreed : Flags → Config → Option Quarantiner → Type 0
  IsAgreed flags c none = flags.device_quarantine ≡ false
  IsAgreed flags c (some q) =
      (flags.device_quarantine ≡ true)
      × (q.dry_run ≡ c.dry_run)
      × (q.cluster_selector ≡ c.cluster_selector)
      × (is_empty q.drivers ≡ false)
      × All (IsValid problems) q.drivers

  -- what the drivers are, by the flags
  abbrev IsGiven : Flags → Option (List String) → Type 0
  IsGiven flags none = flags.device_quarantine ≡ false
  IsGiven flags (some ds) =
      (flags.device_quarantine ≡ true) × (is_empty ds ≡ false) × All (IsValid problems) ds

  result-IsGiven :
      (flags : Flags) (p : Parsed (List String) DriverError) (o : Option (List String))
      → flags.device_quarantine ≡ true
      → parse_drivers problems flags.quarantine_drivers ≡ p
      → driver_result problems p ≡ good o
      → IsGiven flags o
  result-IsGiven flags (good ds) o on e h =
      let v = parse_drivers-lists problems flags.quarantine_drivers ds "" e in
      rw (good_value _ (some ds) o refl h) (on, v.0, v.1)
  result-IsGiven flags (bad x) o on e h = absurd (cc h)

  IsGiven-if :
      (flags : Flags) (o : Option (List String)) (b : Bool)
      → flags.device_quarantine ≡ b
      → (if b
          then driver_result problems (parse_drivers problems flags.quarantine_drivers)
          else good none)
        ≡ good o
      → IsGiven flags o
  IsGiven-if flags o true on h =
      result-IsGiven flags (parse_drivers problems flags.quarantine_drivers) o on refl h
  IsGiven-if flags o false off h = rw (good_value _ none o refl h) off

  drivers-IsGiven :
      (flags : Flags) (o : Option (List String))
      → drivers_of problems flags ≡ good o
      → IsGiven flags o
  unfolding drivers_of
  drivers-IsGiven flags o h = IsGiven-if flags o flags.device_quarantine refl h

  agreed :
      (flags : Flags) (c : Config) (o : Option (List String))
      → c.dry_run ≡ flags.dry_run
      → IsGiven flags o
      → IsAgreed flags c (quarantiner problems parse_selector flags c.cluster_selector o)
  agreed flags c none e h = h
  agreed flags c (some ds) e h = (h.0, sym e, refl, h.1, h.2)

  -- The reconcilers that a process sets up agree with the flags and with each other: the table is
  -- proper, the dry run is the flag's, and devices are quarantined exactly when the flag says so, with
  -- the same dry run and selector and with at least one driver, nothing being wrong with any's name.
  pub reconcilers_of-IsAgreed :
      (flags : Flags) (rs : Reconcilers)
      → reconcilers_of problems parse_selector flags ≡ good rs
      → IsProper rs.clusters.table
        × (rs.clusters.dry_run ≡ flags.dry_run)
        × IsAgreed flags rs.clusters rs.machines
  unfolding reconcilers_of
  reconcilers_of-IsAgreed flags rs h =
      let a = good_of_bind (selector_of problems parse_selector flags) _ rs h in
      let b =
        good_of_bind
          (or_else_bad (parse_restart_fallback flags.restart_fallback) bad_restart_fallback) _ rs
          a.2 in
      let c = good_of_bind (table_result (parse_overrides flags.decisions)) _ rs b.2 in
      let d = good_of_bind (table_result (new c.0)) _ rs c.2 in
      let e = good_of_bind (drivers_of problems flags) _ rs d.2 in
      let config : Config = record {
        table = d.0;
        dry_run = flags.dry_run;
        interval = flags.poll_interval;
        cluster_selector = a.0;
        fallback = b.0;
      } in
      let made : Reconcilers = record {
        clusters = config;
        machines = quarantiner problems parse_selector flags a.0 e.0;
      } in
      let same : rs ≡ made = good_value _ made rs refl e.2 in
      rw same (
        (new-last_value c.0 d.0 "" (table_ok (new c.0) d.0 d.1)).0,
        refl,
        agreed flags config e.0 refl (drivers-IsGiven flags e.0 e.1),
      )
