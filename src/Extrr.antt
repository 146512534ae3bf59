-- ===== src/Extrr.antt =====
-- internal/signal/extrr: the signals read from ExternalRemediationRequests, and the answers.
pub mod Answering
pub mod Collected
use nvsentinel_capi_remediat.Common.{
  ℕ, ℤ, pos, negsuc, String, ◌==◌, Bool, true, false, ◌&&◌, ◌||◌, not, List, [], ◌∷◌, ◌++◌, map,
  Option, none, some, keep, exists_in, same_code, sort_by, str_lt, is_blank, if◌then◌else◌,
}
use nvsentinel_capi_remediat.Objects.{
  ActionValue, text, number, whole_float, fractional_float, no_action, Entity, HealthEvent, Item,
  item, no_condition, Answered, Request, Library,
}
use nvsentinel_capi_remediat.World.{
  M, pure, ◌>>=◌, ◌>>◌, read, write, Result, ok, err, not_found, ApiError, Client, answered,
}
use nvsentinel_capi_remediat.Signal.{
  Signal, external_remediation_request, action_none, action_component_reset, action_contact_support,
  action_run_field_diag, action_restart_vm, action_restart_bm, action_replace_vm,
  action_run_dcgm_eud, action_custom, action_unknown,
}

abbrev pub condition_ownership_released : String
condition_ownership_released = "NVSentinelOwnershipReleased"

abbrev pub condition_complete : String
condition_complete = "ExternalRemediationComplete"

abbrev pub gpu_uuid_entity : String
gpu_uuid_entity = "GPU_UUID"

abbrev pub action_names : List (ℕ × String)
action_names =
    (0, action_none)
    ∷ (2, action_component_reset)
    ∷ (5, action_contact_support)
    ∷ (6, action_run_field_diag)
    ∷ (15, action_restart_vm)
    ∷ (24, action_restart_bm)
    ∷ (25, action_replace_vm)
    ∷ (26, action_run_dcgm_eud)
    ∷ (27, action_custom)
    ∷ (99, action_unknown)
    ∷ []

unfoldable pub name_of : List (ℕ × String) → ℕ → String
name_of [] v = action_unknown
name_of ((n, name) ∷ rest) v = if same_code n v then name else name_of rest v

unfoldable pub numbered_action : ℤ → String
unfolding name_of
numbered_action (pos v) = name_of action_names v
numbered_action (negsuc v) = action_unknown

-- the `switch` on the value's type; `none` is its default case
unfoldable pub named_action : ActionValue → Option String
unfolding numbered_action
named_action (text v) = some v
named_action (number v) = some (numbered_action v)
named_action (whole_float v) = some (numbered_action v)
named_action fractional_float = some action_unknown
named_action no_action = none

abbrev custom_or : String → String → Option String
custom_or custom name =
    if name == action_custom && not (is_blank custom)
    then some custom
    else if is_blank name
    then none
    else some name

unfoldable pub recommended_action : HealthEvent → Option String
unfolding named_action
recommended_action event = elim (named_action event.recommended_action) [
  | none ↦ none
  | some name ↦ custom_or event.custom_recommended_action name
]

unfoldable pub gpu_uuids : HealthEvent → List String
gpu_uuids event =
    map (λ e. e.value)
      (keep (λ e. e.type == gpu_uuid_entity && not (is_blank e.value)) event.entities_impacted)

abbrev actions_of : Option String → List String
actions_of none = []
actions_of (some action) = action ∷ []

unfoldable pub parse : Request → Option Signal
unfolding gpu_uuids recommended_action
parse obj =
    let event = obj.health_event in
    if is_blank event.node_name
    then none
    else some (record {
      origin = external_remediation_request;
      node = event.node_name;
      check = if is_blank event.check_name then obj.name else event.check_name;
      id = event.id;
      actions = actions_of (recommended_action event);
      error_codes = event.error_code;
      gpu_uuids = gpu_uuids event;
      truncated = false;
      request = obj.name;
    })

unfoldable pub condition_status : List Item → String → String
condition_status [] type = ""
condition_status (no_condition ∷ cs) type = condition_status cs type
condition_status (item c ∷ cs) type = if c.type == type then c.status else condition_status cs type

-- `Answered`
unfoldable pub is_answered : Request → Bool
is_answered obj =
    let status = condition_status obj.conditions condition_complete in
    status == "True" || status == "False"

unfoldable pub pending : Request → Bool
unfolding is_answered
pending obj =
    not obj.deleting
    && condition_status obj.conditions condition_ownership_released == "True"
    && not (is_answered obj)

-- the order of the signals
abbrev signal_less : Signal → Signal → Bool
signal_less a b =
    if not (a.node == b.node)
    then str_lt a.node b.node
    else if not (a.check == b.check)
    then str_lt a.check b.check
    else str_lt a.request b.request

abbrev parsed : Option Signal → List Signal → List Signal
parsed none out = out
parsed (some sig) out = sig ∷ out

-- the loop of `Collect`
unfoldable pub signals_of : List Request → List Signal
unfolding parse pending
signals_of [] = []
signals_of (obj ∷ items) =
    let rest = signals_of items in if pending obj then parsed (parse obj) rest else rest

-- `Collect`, on the requests that the list call returned
unfoldable pub collect : List Request → List Signal
unfolding signals_of sort_by str_lt
collect items = sort_by signal_less (signals_of items)

-- `IsPending`, on the result of the read
unfoldable pub pending_result : Result Request → Result Bool
unfolding pending
pending_result (ok obj) = ok (pending obj)
pending_result (err not_found) = ok false
pending_result (err e) = err e

-- replaces every condition of the type
unfoldable pub replace_conditions : Answered → List Item → List Item
replace_conditions answer [] = []
replace_conditions answer (no_condition ∷ cs) = no_condition ∷ replace_conditions answer cs
replace_conditions answer (item c ∷ cs) =
    (if c.type == condition_complete then item answer else item c) ∷ replace_conditions answer cs

abbrev is_complete : Item → Bool
is_complete no_condition = false
is_complete (item c) = c.type == condition_complete

-- the conditions that `Answer` asks for
unfoldable pub with_answer : Answered → List Item → List Item
unfolding replace_conditions
with_answer answer cs =
    if exists_in is_complete cs then replace_conditions answer cs else cs ++ item answer ∷ []

-- the condition that `Answer` builds
unfoldable pub answer_of : Library → Request → Bool → String → String → ℕ → Answered
answer_of lib obj complete reason message now = record {
  type = condition_complete;
  status = if complete then "True" else "False";
  reason = reason;
  message = message;
  last_transition_time = lib.format_time now;
  observed_generation = obj.generation;
}

module _ {S : Type 0} (lib : Library) (client : Client S) where
  unfoldable pub is_pending : String → M S (Result Bool)
  is_pending name = do r ← read (client.get_request name); pure (pending_result r)

  unfoldable pub sent : Result (Unit {0}) → Result Bool
  sent (ok _) = ok true
  sent (err e) = err e

  unfoldable pub answer_request : Bool → String → String → Result Request → M S (Result Bool)
  answer_request complete reason message (err not_found) = pure (ok false)
  answer_request complete reason message (err e) = pure (err e)
  answer_request complete reason message (ok obj) =
      if not (pending obj) then pure (ok false) else do
        now ← read client.clock
        let conditions = with_answer (answer_of lib obj complete reason message now) obj.conditions
        r ← write (answered obj conditions) (client.patch_request_status obj conditions)
        pure (sent r)

  unfoldable pub answer : String → Bool → String → String → M S (Result Bool)
  answer name complete reason message = do
    r ← read (client.get_request name)
    answer_request complete reason message r
