-- ===== src/Rpc/Block.antt =====
-- dix/chainreader_rpc.go: `buildBlockData`, which merges the decoded extrinsics and events of a block.
use dotidx.Prelude.{
  ℕ, suc, Bool, true, false, Option, none, some, ◌>>=◌, List, [], ◌∷◌, ◌++◌, map, String, str_eq,
  Dict, lookup, insert, delete, get_elem?, if◌then◌else◌,
}
use dotidx.Filter.{
  Value, Values, Fields, text, number, array, object, no_values, value, no_fields, field, get_field,
}

-- A header and the extrinsics of a block; the logs are those of its digest.
pub record EncodedBlock : Type 0 where
  pub number : String
  pub parent_hash : String
  pub state_root : String
  pub extrinsics_root : String
  pub logs : List String
  pub extrinsics : List String

-- The parts of `BlockData` that are built; `timestamp` is none where it stays zero.
pub record BlockParts : Type 0 where
  pub id : ℕ
  pub hash : String
  pub parent_hash : String
  pub state_root : String
  pub extrinsics_root : String
  pub timestamp : Option String
  pub logs : Value
  pub extrinsics : Value

-- `bytes v` is a `[]byte` with the JSON of `v`.
pub data Entry : Type 0 where
  json bytes : Value → Entry

-- `decode_mortal` gives the period and the phase, `decode_log_digest` the logs, `seconds` the number of
-- milliseconds as a text in seconds, and `base64` the encoding of the JSON of a value.
pub record Codec : Type 0 where
  pub decode_mortal : String → Option (String × String)
  pub decode_log_digest : List String → Option Value
  pub seconds : String → String
  pub parse_timestamp : String → Option String
  pub base64 : Value → String

-- `v.(string)`
abbrev pub text_of : Value → Option String
text_of (text t) = some t
text_of _ = none

-- The texts of entries that a decoder gave.
abbrev pub entry_text : Option Entry → Option String
entry_text (some (json v)) = text_of v
entry_text _ = none

abbrev pub call_module : Dict Entry → Option String
call_module x = entry_text (lookup "call_module" x)

-- `len(k) > 4 && k[len(k)-4:] == "_raw"`
unfoldable pub is_raw : String → Bool
is_raw String.[] = false
is_raw (String.◌∷◌ c s) = if str_eq s "_raw" then true else is_raw s

unfoldable pub remove_raw : Dict Entry → Dict Entry
unfolding is_raw
remove_raw [] = []
remove_raw ((k, v) ∷ x) = let rest = remove_raw x in if is_raw k then rest else (k, v) ∷ rest

-- The positions of the events of each module.
unfoldable pub events_set : ℕ → List Fields → Dict (List ℕ) → Dict (List ℕ)
unfolding lookup insert get_field
events_set i [] set = set
events_set i (e ∷ events) set =
    events_set (suc i) events (elim (text_of (get_field e "call_module")) [
      | none ↦ set
      | some key ↦ insert key (elim (lookup key set) [ none ↦ i ∷ [] | some is ↦ is ++ i ∷ [] ]) set
    ])

abbrev pub objects : List Fields → Values
objects [] = no_values
objects (e ∷ es) = value (object e) (objects es)

-- The events at the given positions.
unfoldable pub events_at : List Fields → List ℕ → List Fields
events_at events [] = []
events_at events (i ∷ is) = elim (get_elem? events i) [
  | none ↦ events_at events is
  | some e ↦ e ∷ events_at events is
]

unfoldable pub merge_events : List Fields → Dict Entry → Dict Entry
unfolding events_set events_at insert lookup
merge_events events x = elim (call_module x >>= λ key. lookup key (events_set 0 events [])) [
  | some (i ∷ is) ↦ insert "events" (bytes (array (objects (events_at events (i ∷ is))))) x
  | _ ↦ x
]

module _ (codec : Codec) where
  unfoldable pub block_mortal : Option (String × String) → Value
  block_mortal none = object (field "immortalArea" (text "0x00") no_fields)
  block_mortal (some (period, phase)) = object (
      field "mortalArea" (array (value (number period) (value (number phase) no_values))) no_fields)

  unfoldable pub set_era : Dict Entry → Dict Entry
  unfolding block_mortal insert delete lookup
  set_era x =
      let encoded : String = elim (entry_text (lookup "era" x)) [ none ↦ "" | some era ↦ era ] in
      insert "era" (json (block_mortal (codec.decode_mortal encoded))) (delete "era" x)

  unfoldable pub process_extrinsic : List Fields → Dict Value → Dict Entry
  unfolding set_era merge_events remove_raw
  process_extrinsic events x =
      remove_raw (merge_events events (set_era (map (λ entry. (entry.0, json entry.1)) x)))

  -- The time of an extrinsic of the module Timestamp.
  abbrev pub value_of_params : Option Value → Option String
  value_of_params (some (array (value (object fs) vs))) = elim (get_field fs "value") [
    | number now ↦ codec.parse_timestamp (codec.seconds now)
    | _ ↦ none
  ]
  value_of_params _ = none

  unfoldable pub block_timestamp : Option String → List (Dict Value) → Option String
  unfolding lookup get_field
  block_timestamp t [] = t
  block_timestamp t (x ∷ extrinsics) =
      block_timestamp
        (elim (lookup "call_module" x >>= text_of) [
          | none ↦ t
          | some key ↦
              if str_eq key "Timestamp"
              then elim (value_of_params (lookup "params" x)) [ none ↦ t | some t' ↦ some t' ]
              else t
        ])
        extrinsics

  -- `json.Marshal`, which writes a `[]byte` as a text in base64.
  unfoldable pub marshal_entries : Dict Entry → Fields
  marshal_entries [] = no_fields
  marshal_entries ((k, json v) ∷ x) = field k v (marshal_entries x)
  marshal_entries ((k, bytes v) ∷ x) = field k (text (codec.base64 v)) (marshal_entries x)

  unfoldable pub build_block_data :
      ℕ → String → EncodedBlock → List (Dict Value) → List Fields → BlockParts
  unfolding process_extrinsic block_timestamp marshal_entries
  build_block_data id hash encoded extrinsics events = record {
    id = id;
    hash = hash;
    parent_hash = encoded.parent_hash;
    state_root = encoded.state_root;
    extrinsics_root = encoded.extrinsics_root;
    timestamp = block_timestamp none extrinsics;
    logs = elim (codec.decode_log_digest encoded.logs) [ none ↦ array no_values | some v ↦ v ];
    extrinsics =
        array (objects (map (λ x. marshal_entries (process_extrinsic events x)) extrinsics));
  }
