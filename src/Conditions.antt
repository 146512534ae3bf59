-- ===== src/Conditions.antt =====
-- internal/signal/condition: the signals parsed out of NVSentinel's node conditions. The regular
-- expressions are scanners: the leftmost match first, the class repeated as often as it fits.
pub mod Captured
use Prim.Native.Char.{Char, code}
use nvsentinel_capi_remediat.Common.{
  ℕ, zero, suc, ◌+◌, ◌-◌, leb, String, ◌⧺◌, ◌==◌, Bool, true, false, ◌&&◌, ◌||◌, not, List, [], ◌∷◌,
  ◌++◌, Option, none, some, keep, exists_in, sort_by, str_lt, same_code, is_blank, trim, split,
  cut_prefix, if◌then◌else◌,
}
use nvsentinel_capi_remediat.Objects.{Condition, Node}
use nvsentinel_capi_remediat.Signal.{Signal, node_condition, is_known_action}

abbrev pub truncation_suffix : String
truncation_suffix = "..."

abbrev pub action_marker : String
action_marker = "Recommended Action="

-- `[A-Z_]`
abbrev pub is_action_char : Char → Bool
is_action_char c = leb b'A' (code c) && leb (code c) b'Z' || same_code (code c) b'_'

-- `\s`
abbrev pub is_white : Char → Bool
is_white c =
    same_code (code c) 9
    || same_code (code c) 10
    || same_code (code c) 12
    || same_code (code c) 13
    || same_code (code c) 32

-- `\S`
abbrev pub is_not_white : Char → Bool
is_not_white c = not (is_white c)

-- the longest prefix of characters of the class
unfoldable pub span : (Char → Bool) → String → String
span cls String.[] = ""
span cls (String.◌∷◌ c s) = let rest = span cls s in if cls c then String.◌∷◌ c rest else ""

unfoldable pub count_chars : String → ℕ
count_chars String.[] = 0
count_chars (String.◌∷◌ c s) = suc (count_chars s)

unfoldable pub drop_chars : ℕ → String → String
drop_chars zero s = s
drop_chars (suc n) String.[] = ""
drop_chars (suc n) (String.◌∷◌ c s) = drop_chars n s

abbrev span_of : (Char → Bool) → Option String → String
span_of cls none = ""
span_of cls (some rest) = span cls rest

-- the submatch of `prefix([cls]+)` at the head of the text, "" for no match there
unfoldable pub capture : String → (Char → Bool) → String → String
unfolding cut_prefix span
capture prefix cls s = span_of cls (cut_prefix prefix s)

abbrev skip_after : String → String → ℕ
skip_after prefix found = if is_blank found then 0 else count_chars prefix + count_chars found - 1

abbrev put_found : String → List String → List String
put_found found rest = if is_blank found then rest else found ∷ rest

-- the submatches of all matches from left to right; `skip` characters belong to the last match
unfoldable pub find_all : String → (Char → Bool) → ℕ → String → List String
unfolding capture count_chars
find_all prefix cls skip String.[] = []
find_all prefix cls (suc skip) (String.◌∷◌ c s) = find_all prefix cls skip s
find_all prefix cls zero (String.◌∷◌ c s) =
    let found = capture prefix cls (String.◌∷◌ c s) in
    let rest = find_all prefix cls (skip_after prefix found) s in put_found found rest

-- `strings.Contains`
unfoldable pub contains_text : String → String → Bool
unfolding cut_prefix
contains_text part String.[] = is_blank part
contains_text part (String.◌∷◌ c s) =
    (elim (cut_prefix part (String.◌∷◌ c s)) as (λ _. Bool) [ none ↦ false | some _ ↦ true ])
    || contains_text part s

-- `strings.CutSuffix`: what stands before the suffix, if the text ends in it
unfoldable pub cut_suffix : String → String → Option String
cut_suffix suffix String.[] = if suffix == "" then some "" else none
cut_suffix suffix (String.◌∷◌ c s) =
    let rest = cut_suffix suffix s in
    if suffix == String.◌∷◌ c s
    then some ""
    else elim rest [ none ↦ none | some before ↦ some (String.◌∷◌ c before) ]

-- whether what follows the match is white space to the end
unfoldable pub all_white : String → Bool
all_white String.[] = true
all_white (String.◌∷◌ c s) = is_white c && all_white s

abbrev ends_after : String → Option String → Bool
ends_after found none = false
ends_after found (some rest) =
    not (is_blank found) && all_white (drop_chars (count_chars found) rest)

-- the submatch of `Recommended Action=([A-Z_]+)\s*$`, "" for none
unfoldable pub terminal_action : String → String
unfolding capture all_white drop_chars count_chars
terminal_action String.[] = ""
terminal_action (String.◌∷◌ c s) =
    let found = capture action_marker is_action_char (String.◌∷◌ c s) in
    let later = terminal_action s in
    if ends_after found (cut_prefix action_marker (String.◌∷◌ c s)) then found else later

unfoldable pub is_complete : String → Bool
unfolding terminal_action is_known_action
is_complete event =
    let found = terminal_action event in not (is_blank found) && is_known_action found

-- the last event is dropped unless it is complete
unfoldable pub drop_incomplete : List String → List String
unfolding is_complete
drop_incomplete [] = []
drop_incomplete (ev ∷ []) = if is_complete ev then ev ∷ [] else []
drop_incomplete (ev ∷ next ∷ rest) = ev ∷ drop_incomplete (next ∷ rest)

abbrev or_whole : String → Option String → String
or_whole message none = message
or_whole message (some before) = before

unfoldable pub events : String → Bool → List String
unfolding drop_incomplete cut_suffix split trim
events message truncated =
    let body =
      if truncated then or_whole message (cut_suffix truncation_suffix message) else message in
    let out = keep (λ ev. not (is_blank (trim ev))) (split b';' body) in
    if truncated then drop_incomplete out else out

-- the texts of a list that are not among those seen, once each
unfoldable pub unseen : List String → List String → List String
unseen seen [] = []
unseen seen (x ∷ xs) =
    let dup = exists_in (λ y. y == x) seen in
    let rest = unseen (if dup then seen else x ∷ seen) xs in if dup then rest else x ∷ rest

unfoldable pub all_captures : String → (Char → Bool) → List String → List String
unfolding find_all
all_captures prefix cls [] = []
all_captures prefix cls (ev ∷ evs) = find_all prefix cls 0 ev ++ all_captures prefix cls evs

unfoldable pub captures : String → (Char → Bool) → List String → List String
unfolding all_captures unseen
captures prefix cls evs = unseen [] (all_captures prefix cls evs)

-- `Parse`: the condition's type and message
unfoldable pub parse : String → String → Option Signal
unfolding events captures contains_text cut_suffix
parse condition_type message =
    let truncated = (elim (cut_suffix (";" ⧺ truncation_suffix) message) as (λ _. Bool) [
      | none ↦ false
      | some _ ↦ true
    ]) in
    let evs = events message truncated in
    if not (contains_text action_marker message)
    then none
    else some (record {
      origin = node_condition;
      node = "";
      check = condition_type;
      id = "";
      actions = captures action_marker is_action_char evs;
      error_codes = captures "ErrorCode:" is_not_white evs;
      gpu_uuids = captures "GPU_UUID:" is_not_white evs;
      truncated = truncated;
      request = "";
    })

abbrev signal_less : Signal → Signal → Bool
signal_less a b = if not (a.node == b.node) then str_lt a.node b.node else str_lt a.check b.check

abbrev raised : String → Option Signal → List Signal → List Signal
raised node none out = out
raised node (some sig) out = record sig { node = node } ∷ out

-- the loop over one node's conditions
unfoldable pub signals_of_node : String → List Condition → List Signal
unfolding parse
signals_of_node node [] = []
signals_of_node node (cond ∷ conds) =
    let rest = signals_of_node node conds in
    if cond.status == "True" then raised node (parse cond.type cond.message) rest else rest

unfoldable pub signals_of : List Node → List Signal
unfolding signals_of_node
signals_of [] = []
signals_of (node ∷ nodes) = signals_of_node node.name node.conditions ++ signals_of nodes

-- `Collect`, on the nodes that the list call returned
unfoldable pub collect : List Node → List Signal
unfolding signals_of sort_by str_lt
collect nodes = sort_by signal_less (signals_of nodes)
