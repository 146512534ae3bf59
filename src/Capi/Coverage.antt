-- ===== src/Capi/Coverage.antt =====
-- internal/capi/coverage.go: which MachineHealthChecks act on a mark, and how.
pub mod Carried
use nvsentinel_capi_remediat.Common.{
  String, ◌⧺◌, ◌==◌, Bool, true, false, ◌&&◌, ◌||◌, not, List, [], ◌∷◌, map, Option, none, some,
  is_some, exists_in, keep, sort_by, join, str_lt, is_empty, if◌then◌else◌,
}
use nvsentinel_capi_remediat.Objects.{Machine, Cluster, HealthCheck, TemplateRef, Library}

pub record CoveringCheck : Type 0 where
  pub name : String
  pub template : Option TemplateRef
  pub paused : Bool

pub record Coverage : Type 0 where
  pub checks : List CoveringCheck

unfoldable pub covered : Coverage → Bool
covered c = exists_in (λ check. not check.paused) c.checks

unfoldable pub templates_only : Coverage → Bool
unfolding covered
templates_only c =
    if not (covered c)
    then false
    else not (exists_in (λ check. not (is_some check.template)) c.checks)

unfoldable pub ignoring_pause : Coverage → Coverage
ignoring_pause c = record {
  checks =
      map {A = CoveringCheck} {B = CoveringCheck} (λ check. record check { paused = false })
        c.checks;
}

abbrev how : Option TemplateRef → String
how none = "remediates by replacement"
how (some t) = "remediates through " ⧺ t.kind ⧺ " " ⧺ t.name

-- one round of the loop of `Describe`
unfoldable pub describe_check : CoveringCheck → String
describe_check c =
    "MachineHealthCheck " ⧺ c.name ⧺ " " ⧺ how c.template ⧺ (if c.paused then " (paused)" else "")

unfoldable pub describe : Coverage → String
unfolding describe_check join
describe c =
    if is_empty c.checks
    then "no MachineHealthCheck selects the Machine"
    else join (map describe_check c.checks) "; "

-- a selector that does not parse matches nothing
abbrev matches : Option (List (String × String) → Bool) → List (String × String) → Bool
matches none labels = false
matches (some test) labels = test labels

-- the two tests at the head of the loop of `CoverageOf`
unfoldable pub selects : Library → Machine → HealthCheck → Bool
selects lib m mhc =
    mhc.namespace == m.namespace
    && mhc.cluster_name == m.cluster_name
    && matches
        (lib.as_selector (lib.add_label mhc.selector lib.cluster_name_label mhc.cluster_name))
        m.labels

-- the rest of the round
unfoldable pub covering_check : Library → HealthCheck → CoveringCheck
covering_check lib mhc = record {
  name = mhc.name;
  template = if lib.is_defined mhc.template_ref then some mhc.template_ref else none;
  paused = lib.has_paused mhc.annotations;
}

unfoldable pub coverage_of : Library → List HealthCheck → Machine → Coverage
unfolding selects covering_check sort_by str_lt
coverage_of lib checks m = record {
  checks =
      sort_by (λ a b. str_lt a.name b.name)
        (map (covering_check lib) (keep (selects lib m) checks));
}

-- `ListHealthChecks`, on the checks that the list call returned for the Cluster's namespace
unfoldable pub list_health_checks : List HealthCheck → Cluster → List HealthCheck
list_health_checks items cluster = keep (λ mhc. mhc.cluster_name == cluster.name) items
