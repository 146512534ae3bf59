-- ===== src/Signal.antt =====
-- internal/signal/signal.go: the signal that every source is reduced to.
use nvsentinel_capi_remediat.Common.{String, ◌⧺◌, ◌==◌, Bool, List, [], ◌∷◌, exists_in}

abbrev pub action_none : String
action_none = "NONE"

abbrev pub action_component_reset : String
action_component_reset = "COMPONENT_RESET"

abbrev pub action_contact_support : String
action_contact_support = "CONTACT_SUPPORT"

abbrev pub action_run_field_diag : String
action_run_field_diag = "RUN_FIELDDIAG"

abbrev pub action_restart_vm : String
action_restart_vm = "RESTART_VM"

abbrev pub action_restart_bm : String
action_restart_bm = "RESTART_BM"

abbrev pub action_replace_vm : String
action_replace_vm = "REPLACE_VM"

abbrev pub action_run_dcgm_eud : String
action_run_dcgm_eud = "RUN_DCGMEUD"

abbrev pub action_custom : String
action_custom = "CUSTOM"

abbrev pub action_unknown : String
action_unknown = "UNKNOWN"

abbrev pub known_actions : List String
known_actions =
    action_none ∷ action_component_reset ∷ action_contact_support ∷ action_run_field_diag
    ∷ action_restart_vm ∷ action_restart_bm ∷ action_replace_vm ∷ action_run_dcgm_eud
    ∷ action_custom ∷ action_unknown ∷ []

unfoldable pub is_known_action : String → Bool
is_known_action name = exists_in (λ a. a == name) known_actions

pub data Origin : Type 0 where
  node_condition external_remediation_request : Origin

unfoldable pub origin_name : Origin → String
origin_name node_condition = "NodeCondition"
origin_name external_remediation_request = "ExternalRemediationRequest"

pub record Signal : Type 0 where
  pub origin : Origin
  pub node : String
  pub check : String
  pub id : String
  pub actions : List String
  pub error_codes : List String
  pub gpu_uuids : List String
  pub truncated : Bool
  pub request : String

unfoldable pub key : Signal → String
key s = s.node ⧺ "/" ⧺ s.check
