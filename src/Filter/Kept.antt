-- ===== src/Filter/Kept.antt =====
-- dix/filter.go: what `EventProcess` keeps, for the pallets whose events name an address in their data,
-- which are those of `EventsBalance` and `EventsStaking`.
use dotidx.Prelude.{
  ◌≡◌, refl, sym, ap, ap₂, ◌∙◌, true, false, true≢false, Bool-cases, inl, inr, ◌∷◌, ◌++◌, String,
  str_eq, arith,
}
use dotidx.Filter.{
  Value, Values, Fields, null, bool, number, text, array, object, no_values, value, no_fields,
  field, Matcher, get_field, is_address, any_address, data_matches, event_match_method_data,
  event_match, event_process, process_items, process_fields,
}
use dotidx.Filter.Cases.{
  matched, found, dropped, fate, items_matched, items_found, items_dropped, fields_matched,
  fields_found, fields_dropped,
}
use dotidx.Filter.Events.{
  events, events_items, events_fields, items_events, items_no_event, fields_events, fields_no_event,
  nil_of, found-events,
}

module _ (matcher : Matcher)
    (of_data : (v : Value) → event_match v matcher ≡ event_match_method_data v matcher) where
  -- An event is an object, and so neither an address nor a list of some.
  event_not_address :
      (v : Value)
      → event_match v matcher ≡ true
      → (is_address matcher v ≡ false) × (data_matches matcher v ≡ false)
  unfolding event_match_method_data
  event_not_address (object fs) e = (refl, refl)
  event_not_address null e = (refl, refl)
  event_not_address (bool b) e = (refl, refl)
  event_not_address (number n) e = (refl, refl)
  event_not_address (text t) e = elim (true≢false (sym e ∙ of_data (text t))) [ ]
  event_not_address (array items) e = elim (true≢false (sym e ∙ of_data (array items))) [ ]

  processed_not_address :
      (v : Value)
      → (event_process matcher v).1 ≡ true
      → is_address matcher (event_process matcher v).0 ≡ false
  unfolding event_process
  processed_not_address (text t) e = elim (true≢false (sym e)) [ ]
  processed_not_address null e = refl
  processed_not_address (bool b) e = refl
  processed_not_address (number n) e = refl
  processed_not_address (array items) e = refl
  processed_not_address (object fs) e = refl

  -- No address is left in a list that is filtered.
  any_address-process : (vs : Values) → any_address matcher (process_items matcher vs).0 ≡ false
  unfolding any_address event_process
  any_address-process no_values = refl
  any_address-process (value v vs) = elim (fate matcher v) [
    | matched e ↦
        rw (items_matched matcher v vs e) (rw ((event_not_address v e).0) (any_address-process vs))
    | found e f ↦
        rw (items_found matcher v vs e f) (rw (processed_not_address v f) (any_address-process vs))
    | dropped e f ↦ rw (items_dropped matcher v vs e f) (any_address-process vs)
  ]

  data_matches-process : (v : Value) → data_matches matcher (event_process matcher v).0 ≡ false
  unfolding event_process
  data_matches-process (array items) = any_address-process items
  data_matches-process (object fs) = refl
  data_matches-process null = refl
  data_matches-process (bool b) = refl
  data_matches-process (number n) = refl
  data_matches-process (text t) = refl

  get_field-process :
      (fs : Fields) (key : String)
      → data_matches matcher (get_field (process_fields matcher fs).0 key) ≡ false
  unfolding get_field event_process
  get_field-process no_fields key = refl
  get_field-process (field k v fs) key = elim (fate matcher v) [
    | matched e ↦ rw (fields_matched matcher v k fs e) (elim (Bool-cases (str_eq k key)) [
      | inl s ↦ rw s ((event_not_address v e).1)
      | inr s ↦ rw s (get_field-process fs key)
    ])
    | found e f ↦ rw (fields_found matcher v k fs e f) (elim (Bool-cases (str_eq k key)) [
      | inl s ↦ rw s (data_matches-process v)
      | inr s ↦ rw s (get_field-process fs key)
    ])
    | dropped e f ↦ rw (fields_dropped matcher v k fs e f) (get_field-process fs key)
  ]

  no_event_data : (v : Value) → event_match_method_data (event_process matcher v).0 matcher ≡ false
  unfolding event_match_method_data event_process
  no_event_data (object fs) = let e = get_field-process fs "data" in ground arith
  no_event_data (array items) = refl
  no_event_data null = refl
  no_event_data (bool b) = refl
  no_event_data (number n) = refl
  no_event_data (text t) = refl

  -- What is filtered is not itself an event.
  processed_no_event : (v : Value) → event_match (event_process matcher v).0 matcher ≡ false
  processed_no_event v = of_data _ ∙ no_event_data v

  mutual
    unfolding event_process

    pub event_process-event_process :
        (v : Value) → event_process matcher (event_process matcher v).0 ≡ event_process matcher v
    event_process-event_process null = refl
    event_process-event_process (bool b) = refl
    event_process-event_process (number n) = refl
    event_process-event_process (text t) = refl
    event_process-event_process (array items) =
        ap (λ r. (array r.0, r.1)) (process_items-process_items items)
    event_process-event_process (object fs) =
        ap (λ r. (object r.0, r.1)) (process_fields-process_fields fs)

    process_items-process_items :
        (vs : Values)
        → process_items matcher (process_items matcher vs).0 ≡ process_items matcher vs
    process_items-process_items no_values = refl
    process_items-process_items (value v vs) = elim (fate matcher v) [
      | matched e ↦ rw (items_matched matcher v vs e) (
          rw (items_matched matcher v (process_items matcher vs).0 e)
            (ap (λ r. (value v r.0, true)) (process_items-process_items vs)))
      | found e f ↦
          let again = event_process-event_process v in
          rw (items_found matcher v vs e f) (
            rw
              (items_found matcher (event_process matcher v).0 (process_items matcher vs).0
                (processed_no_event v) (ap (λ r. r.1) again ∙ f))
              (ap₂ (λ p r. (value p.0 r.0, true)) again (process_items-process_items vs)))
      | dropped e f ↦ rw (items_dropped matcher v vs e f) (process_items-process_items vs)
    ]

    process_fields-process_fields :
        (fs : Fields)
        → process_fields matcher (process_fields matcher fs).0 ≡ process_fields matcher fs
    process_fields-process_fields no_fields = refl
    process_fields-process_fields (field k v fs) = elim (fate matcher v) [
      | matched e ↦ rw (fields_matched matcher v k fs e) (
          rw (fields_matched matcher v k (process_fields matcher fs).0 e)
            (ap (λ r. (field k v r.0, true)) (process_fields-process_fields fs)))
      | found e f ↦
          let again = event_process-event_process v in
          rw (fields_found matcher v k fs e f) (
            rw
              (fields_found matcher (event_process matcher v).0 k (process_fields matcher fs).0
                (processed_no_event v) (ap (λ r. r.1) again ∙ f))
              (ap₂ (λ p r. (field k p.0 r.0, true)) again (process_fields-process_fields fs)))
      | dropped e f ↦ rw (fields_dropped matcher v k fs e f) (process_fields-process_fields fs)
    ]

  mutual
    unfolding event_process events

    pub events-process : (v : Value) → events matcher (event_process matcher v).0 ≡ events matcher v
    events-process null = refl
    events-process (bool b) = refl
    events-process (number n) = refl
    events-process (text t) = refl
    events-process (array items) = events-process_items items
    events-process (object fs) = events-process_fields fs

    events-process_items :
        (vs : Values) → events_items matcher (process_items matcher vs).0 ≡ events_items matcher vs
    events-process_items no_values = refl
    events-process_items (value v vs) = elim (fate matcher v) [
      | matched e ↦ rw (items_matched matcher v vs e) (
          items_events matcher v (process_items matcher vs).0 e
          ∙ ap (◌∷◌ v) (events-process_items vs)
          ∙ sym (items_events matcher v vs e))
      | found e f ↦ rw (items_found matcher v vs e f) (
          items_no_event matcher _ (process_items matcher vs).0 (processed_no_event v)
          ∙ ap₂ ◌++◌ (events-process v) (events-process_items vs)
          ∙ sym (items_no_event matcher v vs e))
      | dropped e f ↦ rw (items_dropped matcher v vs e f) (
          events-process_items vs
          ∙ ap (λ below. below ++ events_items matcher vs)
              (sym (nil_of (events matcher v) (sym (found-events matcher v) ∙ f)))
          ∙ sym (items_no_event matcher v vs e))
    ]

    events-process_fields :
        (fs : Fields)
        → events_fields matcher (process_fields matcher fs).0 ≡ events_fields matcher fs
    events-process_fields no_fields = refl
    events-process_fields (field k v fs) = elim (fate matcher v) [
      | matched e ↦ rw (fields_matched matcher v k fs e) (
          fields_events matcher v k (process_fields matcher fs).0 e
          ∙ ap (◌∷◌ v) (events-process_fields fs)
          ∙ sym (fields_events matcher v k fs e))
      | found e f ↦ rw (fields_found matcher v k fs e f) (
          fields_no_event matcher _ k (process_fields matcher fs).0 (processed_no_event v)
          ∙ ap₂ ◌++◌ (events-process v) (events-process_fields fs)
          ∙ sym (fields_no_event matcher v k fs e))
      | dropped e f ↦ rw (fields_dropped matcher v k fs e f) (
          events-process_fields fs
          ∙ ap (λ below. below ++ events_fields matcher fs)
              (sym (nil_of (events matcher v) (sym (found-events matcher v) ∙ f)))
          ∙ sym (fields_no_event matcher v k fs e))
    ]
