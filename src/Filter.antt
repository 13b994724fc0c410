-- ===== src/Filter.antt =====
-- dix/filter.go: the choice of the events of an address out of the extrinsics of a block. A `Value` is
-- what `json.Unmarshal` makes of a text: an object is the list of its fields in the order of the
-- iteration, a slice that nothing was appended to is the empty list.
pub mod Cases
pub mod Events
pub mod Kept
pub mod Pruned
pub mod Process
pub mod Address
mod Tests
use dotidx.Prelude.{
  ◌≡◌, Bool, true, false, not, ◌&&◌, ◌||◌, Option, none, some, String, str_eq, ◌>>=◌, if◌then◌else◌,
}

mutual
  pub data Value : Type 0 where
    null : Value
    bool : Bool → Value
    number : String → Value
    text : String → Value
    array : Values → Value
    object : Fields → Value

  pub data Values : Type 0 where
    no_values : Values
    value : Value → Values → Values

  pub data Fields : Type 0 where
    no_fields : Fields
    field : String → Value → Fields → Fields

pub record Matcher : Type 0 where
  pub address : String
  pub method : String
  pub pallet : String

-- `v[key]`, which is nil where the key is missing.
unfoldable pub get_field : Fields → String → Value
get_field no_fields key = null
get_field (field k v fs) key = let rest = get_field fs key in if str_eq k key then v else rest

abbrev pub is_null : Value → Bool
is_null null = true
is_null _ = false

-- A comparison of an interface with a string.
abbrev pub is_text : Value → String → Bool
is_text (text t) s = str_eq t s
is_text _ s = false

-- `matcher.Address == "" || a == matcher.Address`
abbrev pub is_address : Matcher → Value → Bool
is_address matcher (text a) = str_eq matcher.address "" || str_eq a matcher.address
is_address matcher _ = false

unfoldable pub any_address : Matcher → Values → Bool
any_address matcher no_values = false
any_address matcher (value v vs) = is_address matcher v || any_address matcher vs

-- The method and the pallet of an event, where the matcher names one.
unfoldable pub is_method : Matcher → Value → Bool
unfolding get_field
is_method matcher (object m) =
    (str_eq matcher.method "" || is_text (get_field m "method") matcher.method)
    && (str_eq matcher.pallet "" || is_text (get_field m "pallet") matcher.pallet)
is_method matcher _ = false

abbrev pub data_matches : Matcher → Value → Bool
data_matches matcher (array items) = any_address matcher items
data_matches matcher _ = false

unfoldable pub event_match_method_data : Value → Matcher → Bool
unfolding get_field is_method any_address
event_match_method_data (object v) matcher =
    if is_null (get_field v "data") || is_null (get_field v "method")
    then false
    else is_method matcher (get_field v "method") && data_matches matcher (get_field v "data")
event_match_method_data _ matcher = false

-- The loop over the fields of the target.
unfoldable pub id_matches : Matcher → Fields → Bool
id_matches matcher no_fields = false
id_matches matcher (field k v fs) = str_eq k "id" && is_address matcher v || id_matches matcher fs

abbrev pub target_matches : Matcher → Value → Bool
target_matches matcher (object target) = id_matches matcher target
target_matches matcher _ = false

abbrev pub args_match : Matcher → Value → Bool
args_match matcher (object args) = target_matches matcher (get_field args "target")
args_match matcher _ = false

unfoldable pub event_match_method_target_id : Value → Matcher → Bool
unfolding get_field is_method id_matches
event_match_method_target_id (object v) matcher =
    if is_null (get_field v "args") || is_null (get_field v "method")
    then false
    else is_method matcher (get_field v "method") && args_match matcher (get_field v "args")
event_match_method_target_id _ matcher = false

unfoldable pub event_match : Value → Matcher → Bool
unfolding event_match_method_data event_match_method_target_id
event_match v matcher =
    if str_eq matcher.pallet "staking"
    then event_match_method_data v matcher
    else if str_eq matcher.pallet "balances"
    then event_match_method_data v matcher
    else if str_eq matcher.pallet "vesting"
    then event_match_method_target_id v matcher
    else false

-- `EventProcess`, whose error is always nil.
unfoldable mutual
  unfolding event_match

  pub event_process : Matcher → Value → Value × Bool
  event_process matcher (array items) =
      let (w, found) = process_items matcher items in (array w, found)
  event_process matcher (object fs) =
      let (w, found) = process_fields matcher fs in (object w, found)
  event_process matcher null = (null, false)
  event_process matcher (bool b) = (bool b, false)
  event_process matcher (number n) = (number n, false)
  event_process matcher (text t) = (text t, false)

  pub process_items : Matcher → Values → Values × Bool
  process_items matcher no_values = (no_values, false)
  process_items matcher (value v vs) =
      let (processed, found_down) = event_process matcher v in
      let (rest, found) = process_items matcher vs in
      if event_match v matcher
      then (value v rest, true)
      else if found_down
      then (value processed rest, true)
      else (rest, found)

  pub process_fields : Matcher → Fields → Fields × Bool
  process_fields matcher no_fields = (no_fields, false)
  process_fields matcher (field k v fs) =
      let (processed, found_down) = event_process matcher v in
      let (rest, found) = process_fields matcher fs in
      if event_match v matcher
      then (field k v rest, true)
      else if found_down
      then (field k processed rest, true)
      else (rest, found)

-- `EventsBalance.Process` and `EventsStaking.Process` for a pallet, over the `Unmarshal` into a slice
-- and the `MarshalIndent` of encoding/json.
module _ {Raw : Type 0} (unmarshal : Raw → Option Values) (marshal : Value → Option Raw) where
  unfoldable pub process : String → String → Raw → Option (Raw × Bool)
  unfolding event_process
  process pallet address extrinsics = do
    items ← unmarshal extrinsics
    let (selection, found) =
        event_process (record { address = address; method = ""; pallet = pallet }) (array items)
    filtered ← marshal selection
    some (filtered, found)
