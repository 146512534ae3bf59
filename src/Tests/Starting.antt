-- ===== src/Tests/Starting.antt =====
-- What the flags give, at one command line.
use nvsentinel_capi_remediat.Common.{
  String, Bool, ◌≡◌, refl, true, false, Option, none, some, Dict, split, trim, trim_left,
  trim_right, is_space, sort_by,
}
use nvsentinel_capi_remediat.Decision.{
  default, new, override, override_all, parse_decision, parse_pair, parse_pairs, parse_overrides,
}
use nvsentinel_capi_remediat.Decision.Choice.{IsProper}
use nvsentinel_capi_remediat.Controller.State.{
  report_fallback, fallback_name, parse_restart_fallback,
}
use nvsentinel_capi_remediat.Quarantine.Request.{add_name}
use nvsentinel_capi_remediat.Manager.{
  Flags, Reconcilers, parse_fields, parse_drivers, drivers_of, selector_of, reconcilers_of,
}
use nvsentinel_capi_remediat.Manager.Agree.{IsAgreed, reconcilers_of-IsAgreed}
use nvsentinel_capi_remediat.Tests.Depot.{drivers_text, drivers, no_problems}

abbrev flags : Flags
flags = record {
  cluster_selector = "";
  restart_fallback = "report";
  decisions = "";
  quarantine_drivers = drivers_text;
  dry_run = false;
  device_quarantine = true;
  poll_interval = 60000000000;
}

abbrev no_selector : String → Option (Dict String → Bool)
no_selector s = none

abbrev reconcilers : Reconcilers
reconcilers = record {
  clusters = record {
    table = default;
    dry_run = false;
    interval = 60000000000;
    cluster_selector = none;
    fallback = report_fallback;
  };
  machines = some (record { drivers = drivers; dry_run = false; cluster_selector = none });
}

reconcilers_of-IsAgreed_example :
    IsProper reconcilers.clusters.table
    × (reconcilers.clusters.dry_run ≡ flags.dry_run)
    × IsAgreed no_problems no_selector flags reconcilers.clusters reconcilers.machines
unfolding reconcilers_of selector_of drivers_of parse_drivers parse_fields add_name
    parse_restart_fallback fallback_name parse_overrides parse_pairs parse_pair new override_all
    override parse_decision default trim trim_left trim_right is_space split sort_by
reconcilers_of-IsAgreed_example =
    reconcilers_of-IsAgreed no_problems no_selector flags reconcilers refl
