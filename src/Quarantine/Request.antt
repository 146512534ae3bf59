-- ===== src/Quarantine/Request.antt =====
-- internal/quarantine/quarantine.go: the request to replace a Machine, and the devices it selects.
pub mod Selection
pub mod Parsing
pub mod Refusal
pub mod Sorted
use nvsentinel_capi_remediat.Common.{
  ℕ, String, ◌⧺◌, ◌==◌, Bool, true, false, not, ◌&&◌, ◌||◌, List, [], ◌∷◌, ◌++◌, map, keep,
  exists_in, length, is_empty, is_some, Option, none, some, join, sort_by, str_lt, split, trim,
  is_blank, cut_prefix, if◌then◌else◌,
}
use nvsentinel_capi_remediat.Quarantine.Device.{
  Device, device_text, same_device, device_lt, list_devices,
}
use nvsentinel_capi_remediat.Quarantine.Try.{
  Try, done, failed, Failure, rejection, ◌>>=◌, ◌>>◌, reject_unless,
}

abbrev pub replace_annotation : String
replace_annotation = "nvsentinel.petasus.io/replace"

abbrev pub replace_status_annotation : String
replace_status_annotation = "nvsentinel.petasus.io/replace-status"

abbrev pub request_quarantine : String
request_quarantine = "quarantine"

abbrev pub status_quarantining : String
status_quarantining = "quarantining"

abbrev pub status_replacing : String
status_replacing = "replacing"

abbrev pub rejected_prefix : String
rejected_prefix = "rejected: "

unfoldable pub rejected_status : String → String
rejected_status reason = rejected_prefix ⧺ reason

unfoldable pub is_rejected : String → Bool
unfolding cut_prefix
is_rejected status = is_some (cut_prefix rejected_prefix status)

abbrev pub reason_invalid_request : String
reason_invalid_request = "InvalidRequest"

abbrev pub reason_not_kubevirt : String
reason_not_kubevirt = "NotKubeVirt"

abbrev pub reason_external_infra_cluster : String
reason_external_infra_cluster = "ExternalInfraCluster"

abbrev pub reason_no_devices : String
reason_no_devices = "NoDevices"

abbrev pub reason_ambiguous_devices : String
reason_ambiguous_devices = "AmbiguousDevices"

abbrev pub reason_unknown_device : String
reason_unknown_device = "UnknownDevice"

abbrev pub reason_device_taint_rule_unavailable : String
reason_device_taint_rule_unavailable = "DeviceTaintRuleUnavailable"

abbrev pub reason_device_taint_rule_conflict : String
reason_device_taint_rule_conflict = "DeviceTaintRuleConflict"

abbrev pub reason_forbidden : String
reason_forbidden = "Forbidden"

-- appends what is not in the list
unfoldable pub add_name : List String → String → List String
add_name names name = if exists_in (λ n. n == name) names then names else names ++ name ∷ []

-- `heldNote`
unfoldable pub held_note : List Device → String
unfolding list_devices
held_note all = if is_empty all then "" else "; it holds " ⧺ list_devices all

-- `names`
unfoldable pub name_devices : List Device → String
unfolding join
name_devices ds = if is_empty ds then "none" else join (map (λ d. d.name) ds) ", "

-- `sets.List`, on a set given by its elements
abbrev pub list_set : List String → String
list_set set = join (sort_by str_lt set) ", "

unfoldable pub add_device : List Device → Device → List Device
unfolding same_device
add_device ds d = if exists_in (λ c. same_device c d) ds then ds else ds ++ d ∷ []

-- the loop that gathers the devices of the drivers
unfoldable pub gather : List String → List Device → List Device → List Device
unfolding add_device
gather drivers found [] = found
gather drivers found (d ∷ all) =
    gather drivers (if exists_in (λ s. s == d.driver) drivers then add_device found d else found)
      all

unfoldable pub candidates_of : List String → List Device → List Device
unfolding gather sort_by device_lt
candidates_of drivers all = sort_by device_lt (gather drivers [] all)

-- `%q` and `%d` of `fmt`
module _ (quote : String → String) (decimal : ℕ → String) where
  -- the loop of `ParseRequest` over the names
  unfoldable pub parse_names : String → List String → List String → Try (List String)
  unfolding add_name trim
  parse_names value names [] = done names
  parse_names value names (field ∷ fields) = do
    let name = trim field
    reject_unless (not (is_blank name)) reason_invalid_request
        (quote value ⧺ " lists an empty device name")
    parse_names value (add_name names name) fields

  abbrev pub parse_list : String → Option String → Try (List String)
  parse_list value none = failed (
      rejection reason_invalid_request (
        quote value
        ⧺ " is neither "
        ⧺ quote request_quarantine
        ⧺ " nor "
        ⧺ quote (request_quarantine ⧺ ":")
        ⧺ " followed by device names"))
  parse_list value (some list) = parse_names value [] (split b',' list)

  unfoldable pub parse_request : String → Try (List String)
  unfolding parse_names cut_prefix split
  parse_request value =
      if value == request_quarantine
      then done []
      else parse_list value (cut_prefix (request_quarantine ⧺ ":") value)

  -- the `switch` on the candidates of a request that lists no names
  unfoldable pub select_only : List Device → List String → List Device → Try (List Device)
  unfolding held_note name_devices sort_by join
  select_only all drivers [] = failed (
      rejection reason_no_devices
        ("the Machine holds no device of " ⧺ list_set drivers ⧺ held_note all))
  select_only all drivers (d ∷ []) = done (d ∷ [])
  select_only all drivers ds = failed (
      rejection reason_ambiguous_devices (
        "the Machine holds "
        ⧺ decimal (length ds)
        ⧺ " devices of "
        ⧺ list_set drivers
        ⧺ ": "
        ⧺ name_devices ds
        ⧺ "; list the ones to quarantine as "
        ⧺ request_quarantine
        ⧺ ":<device>[,<device>]"))

  -- the `switch` on the candidates of a name
  unfoldable pub select_match :
      List String → List Device → String → List Device → List Device → Try (List Device)
  unfolding add_device name_devices list_devices sort_by join
  select_match drivers candidates name selected [] = failed (
      rejection reason_unknown_device (
        quote name
        ⧺ " is not among the devices of "
        ⧺ list_set drivers
        ⧺ " the Machine holds: "
        ⧺ name_devices candidates))
  select_match drivers candidates name selected (d ∷ []) = done (add_device selected d)
  select_match drivers candidates name selected ds = failed (
      rejection reason_ambiguous_devices
        (quote name ⧺ " names more than one device the Machine holds: " ⧺ list_devices ds))

  -- the loop over the requested names
  unfoldable pub select_named :
      List String → List Device → List Device → List String → Try (List Device)
  unfolding select_match
  select_named drivers candidates selected [] = done selected
  select_named drivers candidates selected (name ∷ names) =
      select_match drivers candidates name selected (keep (λ d. d.name == name) candidates)
      >>= λ selected'. select_named drivers candidates selected' names

  unfoldable pub select : List Device → List String → List String → Try (List Device)
  unfolding candidates_of select_only select_named sort_by device_lt
  select all drivers [] = select_only all drivers (candidates_of drivers all)
  select all drivers (name ∷ names) = do
    selected ← select_named drivers (candidates_of drivers all) [] (name ∷ names)
    done (sort_by device_lt selected)
