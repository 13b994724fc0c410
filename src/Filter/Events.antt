-- ===== src/Filter/Events.antt =====
-- dix/filter.go: the events that `EventProcess` finds.
use dotidx.Prelude.{
  ◌≡◌, refl, sym, ap, ◌∙◌, Bool, true, false, true≢false, ◌||◌, List, [], ◌∷◌, ◌++◌, String,
  if◌then◌else◌,
}
use dotidx.Filter.{
  Value, Values, Fields, null, bool, number, text, array, object, no_values, value, no_fields,
  field, Matcher, event_match, event_process, process_items, process_fields,
}
use dotidx.Filter.Cases.{
  matched, found, dropped, fate, items_matched, items_found, items_dropped, fields_matched,
  fields_found, fields_dropped,
}

-- The events of a tree that the matcher is for, from left to right, the outermost ones only.
unfoldable mutual
  pub events : Matcher → Value → List Value
  events matcher (array items) = events_items matcher items
  events matcher (object fs) = events_fields matcher fs
  events matcher _ = []

  pub events_items : Matcher → Values → List Value
  events_items matcher no_values = []
  events_items matcher (value v vs) =
      let below = events matcher v in
      let rest = events_items matcher vs in
      if event_match v matcher then v ∷ rest else below ++ rest

  pub events_fields : Matcher → Fields → List Value
  events_fields matcher no_fields = []
  events_fields matcher (field k v fs) =
      let below = events matcher v in
      let rest = events_fields matcher fs in
      if event_match v matcher then v ∷ rest else below ++ rest

module _ (matcher : Matcher) (v : Value) where
  pub items_events :
      (vs : Values)
      → event_match v matcher ≡ true
      → events_items matcher (value v vs) ≡ v ∷ events_items matcher vs
  unfolding events
  items_events vs e = rw e refl

  pub items_no_event :
      (vs : Values)
      → event_match v matcher ≡ false
      → events_items matcher (value v vs) ≡ events matcher v ++ events_items matcher vs
  unfolding events
  items_no_event vs e = rw e refl

  pub fields_events :
      (k : String) (fs : Fields)
      → event_match v matcher ≡ true
      → events_fields matcher (field k v fs) ≡ v ∷ events_fields matcher fs
  unfolding events
  fields_events k fs e = rw e refl

  pub fields_no_event :
      (k : String) (fs : Fields)
      → event_match v matcher ≡ false
      → events_fields matcher (field k v fs) ≡ events matcher v ++ events_fields matcher fs
  unfolding events
  fields_no_event k fs e = rw e refl

abbrev pub is_cons : List Value → Bool
is_cons [] = false
is_cons (v ∷ vs) = true

is_cons_append : (xs ys : List Value) → is_cons (xs ++ ys) ≡ (is_cons xs || is_cons ys)
is_cons_append [] ys = refl
is_cons_append (x ∷ xs) ys = refl

pub nil_of : (xs : List Value) → is_cons xs ≡ false → xs ≡ []
nil_of [] e = refl
nil_of (x ∷ xs) e = elim (true≢false e) [ ]

module _ (matcher : Matcher) where
  -- `found` says whether there are any events.
  mutual
    unfolding event_process events

    pub found-events : (v : Value) → (event_process matcher v).1 ≡ is_cons (events matcher v)
    found-events null = refl
    found-events (bool b) = refl
    found-events (number n) = refl
    found-events (text t) = refl
    found-events (array items) = found-events_items items
    found-events (object fs) = found-events_fields fs

    pub found-events_items :
        (vs : Values) → (process_items matcher vs).1 ≡ is_cons (events_items matcher vs)
    found-events_items no_values = refl
    found-events_items (value v vs) = elim (fate matcher v) [
      | matched e ↦ rw (items_matched matcher v vs e) (rw (items_events matcher v vs e) refl)
      | found e f ↦ rw (items_found matcher v vs e f) (
          rw (items_no_event matcher v vs e) (
            sym (
              is_cons_append (events matcher v) _
              ∙ ap (λ b. b || is_cons (events_items matcher vs)) (sym (found-events v) ∙ f))))
      | dropped e f ↦ rw (items_dropped matcher v vs e f) (
          rw (items_no_event matcher v vs e)
            (rw (nil_of (events matcher v) (sym (found-events v) ∙ f)) (found-events_items vs)))
    ]

    pub found-events_fields :
        (fs : Fields) → (process_fields matcher fs).1 ≡ is_cons (events_fields matcher fs)
    found-events_fields no_fields = refl
    found-events_fields (field k v fs) = elim (fate matcher v) [
      | matched e ↦ rw (fields_matched matcher v k fs e) (rw (fields_events matcher v k fs e) refl)
      | found e f ↦ rw (fields_found matcher v k fs e f) (
          rw (fields_no_event matcher v k fs e) (
            sym (
              is_cons_append (events matcher v) _
              ∙ ap (λ b. b || is_cons (events_fields matcher fs)) (sym (found-events v) ∙ f))))
      | dropped e f ↦ rw (fields_dropped matcher v k fs e f) (
          rw (fields_no_event matcher v k fs e)
            (rw (nil_of (events matcher v) (sym (found-events v) ∙ f)) (found-events_fields fs)))
    ]
