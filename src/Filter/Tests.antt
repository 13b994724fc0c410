-- ===== src/Filter/Tests.antt =====
-- The events of an extrinsic: a transfer, and a fee of someone else.
use dotidx.Prelude.{◌≡◌, refl, sym, inl, Bool, true, false, Option, none, some, List, String, All}
use mathlib.Core.List.{Mem}
use dotidx.Filter.{
  Value, Values, number, text, array, object, no_values, value, no_fields, field, event_process,
  process, event_match, event_match_method_data, get_field, is_method, any_address,
}
use dotidx.Filter.Events.{events, is_cons}
use dotidx.Filter.Pruned.{IsPruned}
use dotidx.Filter.Process.{matcher_of, event_process-events}
use dotidx.Filter.Address.{extract_addresses_from_extrinsics}
use dotidx.Filter.Address.Occurs.{Occurs, extract_addresses_from_extrinsics_lem}

abbrev alice : String
alice = "12e1d9wD5hpQuE7EMP8h78giqB8z7pU8pUrw8RGxuVtozNRZ"

abbrev event_of : String → Value
event_of address = object (
    field "method" (object (field "pallet" (text "balances") no_fields))
      (field "data" (array (value (text address) no_values)) no_fields))

abbrev items : Values
items =
    value
      (object (
        field "events" (array (value (event_of alice) (value (event_of "bob") no_values)))
          no_fields))
      (value (number "7") no_values)

abbrev read_values : Values → Option Values
read_values vs = some vs

abbrev write_array : Value → Option Values
write_array (array vs) = some vs
write_array _ = none

abbrev selected : Values
selected =
    value (object (field "events" (array (value (event_of alice) no_values)) no_fields)) no_values

selects : process read_values write_array "balances" alice items ≡ some (selected, true)
unfolding process event_process event_match event_match_method_data get_field is_method any_address
selects = refl

event_process-events_example :
    let matcher = matcher_of "balances" alice in
    let (selection, found) = event_process matcher (array items) in
    (events matcher selection ≡ events matcher (array items))
    × (found ≡ is_cons (events matcher (array items)))
    × IsPruned matcher selection
event_process-events_example = event_process-events "balances" alice (array items) (inl refl)

reads_back : (vs r : Values) → write_array (array vs) ≡ some r → read_values r ≡ some vs
reads_back vs r e = sym e

abbrev lower : String → String
lower s = s

abbrev never_empty : Value → Bool
never_empty v = false

abbrev parsed : Value → Option Value
parsed v = some v

extract_addresses_from_extrinsics_lem_example :
    (addresses : List String) × (extract_addresses_from_extrinsics lower never_empty parsed
        (array items)
      ≡ some addresses)
    × All (λ a. Occurs lower a (array items)) addresses
    × ((a : String) → Occurs lower a (array items) → Mem a addresses)
extract_addresses_from_extrinsics_lem_example =
    extract_addresses_from_extrinsics_lem lower never_empty parsed (array items) (array items) refl
      refl
