-- ===== src/Capi/Coverage/Carried.antt =====
-- The coverage of a Machine, by the checks themselves.
use nvsentinel_capi_remediat.Common.{
  ◌≡◌, ◌∙◌, Bool, true, false, not, ◌&&◌, List, map, is_some, exists_in, keep, exists_in-sort_by,
  exists_in-keep, exists_in-map, exists_in-same, arith,
}
use nvsentinel_capi_remediat.Objects.{Machine, HealthCheck, Library}
use nvsentinel_capi_remediat.Capi.Coverage.{
  CoveringCheck, covered, templates_only, ignoring_pause, selects, covering_check, coverage_of,
}

module _ (lib : Library) (checks : List HealthCheck) (m : Machine) where
  -- whether some check that selects the Machine passes the test
  abbrev pub some_check : (HealthCheck → Bool) → Bool
  some_check test = exists_in (λ mhc. selects lib m mhc && test mhc) checks

  search_checks :
      (test : CoveringCheck → Bool)
      → exists_in test (coverage_of lib checks m).checks
        ≡ some_check (λ mhc. test (covering_check lib mhc))
  unfolding coverage_of
  search_checks test =
      exists_in-sort_by test _ (map (covering_check lib) (keep (selects lib m) checks))
      ∙ exists_in-map test (covering_check lib) (keep (selects lib m) checks)
      ∙ exists_in-keep (λ mhc. test (covering_check lib mhc)) (selects lib m) checks

  is_covered :
      covered (coverage_of lib checks m) ≡ some_check (λ mhc. not (lib.has_paused mhc.annotations))
  unfolding covered covering_check
  is_covered = search_checks (λ check. not check.paused)

  lacks_template :
      exists_in (λ check. not (is_some check.template)) (coverage_of lib checks m).checks
      ≡ some_check (λ mhc. not (lib.is_defined mhc.template_ref))
  unfolding covering_check
  lacks_template =
      search_checks (λ check. not (is_some check.template))
      ∙ exists_in-same _ _ (λ mhc. ground arith) checks

  unpaused_covered : covered (ignoring_pause (coverage_of lib checks m)) ≡ some_check (λ mhc. true)
  unfolding covered ignoring_pause
  unpaused_covered =
      exists_in-map {A = CoveringCheck} {B = CoveringCheck} (λ check. not check.paused)
        (λ check. record check { paused = false }) (coverage_of lib checks m).checks
      ∙ search_checks (λ check. true)

  -- A Machine is covered exactly when a check that selects it is not paused; it is covered by
  -- templates only exactly when, besides, every check that selects it, a paused one included, names
  -- a template; and with the pauses ignored it is covered exactly when any check selects it.
  pub covered-coverage_of :
      (covered (coverage_of lib checks m)
        ≡ some_check (λ mhc. not (lib.has_paused mhc.annotations)))
      × (templates_only (coverage_of lib checks m) ≡ (
          some_check (λ mhc. not (lib.has_paused mhc.annotations))
          && not (some_check (λ mhc. not (lib.is_defined mhc.template_ref)))))
      × (covered (ignoring_pause (coverage_of lib checks m)) ≡ some_check (λ mhc. true))
  unfolding templates_only
  covered-coverage_of =
      (is_covered, rw (is_covered, lacks_template) (ground arith), unpaused_covered)
