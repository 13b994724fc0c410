-- ===== src/Rpc/Hidden.antt =====
-- dix/chainreader_rpc.go and dix/filter.go: the filters on the extrinsics that `buildBlockData` makes.
use dotidx.Prelude.{
  ℕ, ◌≡◌, refl, sym, ap, ◌∙◌, inl, inr, Bool, Bool-cases, true, false, Option, none, some, ◌>>=◌,
  List, [], ◌∷◌, String, str_eq, Dict, lookup, insert, if◌then◌else◌, arith,
}
use mathlib.Core.Option
use mathlib.Core.Option.{none-ne-some}
use dotidx.Filter
use dotidx.Filter.{
  Value, Fields, array, object, text, Matcher, event_match, event_match_method_data,
  event_match_method_target_id, event_process, process_fields,
}
use dotidx.Rpc.Block.{
  Entry, json, bytes, Codec, call_module, is_raw, remove_raw, events_set, objects, events_at,
  merge_events, set_era, process_extrinsic, marshal_entries,
}
use dotidx.Rpc.Merged.{entries, lookup-set_era, lookup-entries}

-- A text is no event, for any matcher.
event_match-text : (matcher : Matcher) (t : String) → event_match (text t) matcher ≡ false
unfolding event_match
event_match-text matcher t = ground arith

module _ (codec : Codec) (matcher : Matcher) where
  abbrev Selected : Dict Entry → Fields × Bool
  Selected d = process_fields matcher (marshal_entries codec (remove_raw d))

  -- A field of bytes is written as a text, and so is dropped by a filter.
  bytes_dropped :
      (k : String) (v : Value) (d : Dict Entry) → Selected ((k, bytes v) ∷ d) ≡ Selected d
  unfolding remove_raw marshal_entries event_process
  bytes_dropped k v d = elim (Bool-cases (is_raw k)) [
    | inl raw ↦ rw raw refl
    | inr kept ↦ rw kept (rw (event_match-text matcher (codec.base64 v)) refl)
  ]

  abbrev add_field : String → Entry → Fields × Bool → Fields × Bool
  add_field k (bytes v) rest = rest
  add_field k (json v) (w, found) =
      if event_match v matcher
      then (Filter.field k v w, true)
      else if (event_process matcher v).1
      then (Filter.field k (event_process matcher v).0 w, true)
      else (w, found)

  Selected-cons :
      (k : String) (e : Entry) (d : Dict Entry)
      → Selected ((k, e) ∷ d) ≡ (if is_raw k then Selected d else add_field k e (Selected d))
  unfolding remove_raw marshal_entries event_process
  Selected-cons k (bytes v) d =
      bytes_dropped k v d
      ∙ elim (Bool-cases (is_raw k)) [ inl raw ↦ rw raw refl | inr kept ↦ rw kept refl ]
  Selected-cons k (json v) d = elim (Bool-cases (is_raw k)) [
    | inl raw ↦ rw raw refl
    | inr kept ↦ rw kept refl
  ]

  insert_dropped :
      (k : String) (v : Value) (d : Dict Entry)
      → lookup k d ≡ none
      → Selected (insert k (bytes v) d) ≡ Selected d
  unfolding insert lookup
  insert_dropped k v [] absent = bytes_dropped k v []
  insert_dropped k v ((j, e) ∷ d) absent = elim (Bool-cases (str_eq j k)) [
    | inl same ↦ elim (none-ne-some e (sym (rw same at absent))) [ ]
    | inr other ↦ rw other (
        Selected-cons j e (insert k (bytes v) d)
        ∙ ap (λ rest. if is_raw j then rest else add_field j e rest)
            (insert_dropped k v d (rw other at absent))
        ∙ sym (Selected-cons j e d))
  ]

  cases_dropped :
      (events : List Fields) (d : Dict Entry) (o : Option (List ℕ))
      → lookup "events" d ≡ none
      → Selected (elim o as (λ _. Dict Entry) [
        | some (i ∷ is) ↦ insert "events" (bytes (array (objects (events_at events (i ∷ is))))) d
        | _ ↦ d
      ])
        ≡ Selected d
  cases_dropped events d none absent = refl
  cases_dropped events d (some []) absent = refl
  cases_dropped events d (some (i ∷ is)) absent =
      insert_dropped "events" (array (objects (events_at events (i ∷ is)))) d absent

  merge_dropped :
      (events : List Fields) (d : Dict Entry)
      → lookup "events" d ≡ none
      → Selected (merge_events events d) ≡ Selected d
  unfolding merge_events
  merge_dropped events d absent =
      cases_dropped events d (call_module d >>= λ key. lookup key (events_set 0 events [])) absent

  -- The events that are merged into an extrinsic are written as a text in base64, and so are hidden from
  -- the filters: where the decoded extrinsic has no field `events`, whatever the events of the block are,
  -- a filter selects from the extrinsic, and finds, what it does where the block has no events at all.
  pub event_process-process_extrinsic :
      (events : List Fields) (x : Dict Value)
      → lookup "events" x ≡ none
      → event_process matcher (object (marshal_entries codec (process_extrinsic codec events x)))
        ≡ event_process matcher (object (marshal_entries codec (process_extrinsic codec [] x)))
  unfolding process_extrinsic event_process
  event_process-process_extrinsic events x absent =
      let d = set_era codec (entries x) in
      let none_there : lookup "events" d ≡ none =
        lookup-set_era codec "events" (entries x) (cc)
        ∙ lookup-entries "events" x
        ∙ ap (Option.map json) absent in
      ap (λ (s : Fields × Bool). (object s.0, s.1))
        (merge_dropped events d none_there ∙ sym (merge_dropped [] d none_there))
