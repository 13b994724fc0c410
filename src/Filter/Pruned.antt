-- ===== src/Filter/Pruned.antt =====
-- dix/filter.go: what `EventProcess` leaves out.
use dotidx.Prelude.{◌≡◌, refl, sym, ◌⊎◌, inl, inr, true, false, true≢false, Bool}
use dotidx.Filter.{
  Value, Values, Fields, null, bool, number, text, array, object, no_values, value, no_fields,
  field, Matcher, event_match, event_process, process_items, process_fields,
}
use dotidx.Filter.Cases.{
  matched, found, dropped, fate, items_matched, items_found, items_dropped, fields_matched,
  fields_found, fields_dropped,
}

-- A list or an object that is not empty.
abbrev pub is_filled : Value → Bool
is_filled (array (value v vs)) = true
is_filled (object (field k v fs)) = true
is_filled _ = false

-- Every item of a list and every field of an object is an event that the matcher is for, or it is a list or
-- an object that is not empty and of this kind itself.
unfoldable mutual
  pub IsPruned : Matcher → Value → Type 0
  IsPruned matcher (array items) = ArePruned matcher items
  IsPruned matcher (object fs) = HavePruned matcher fs
  IsPruned matcher _ = Unit

  pub ArePruned : Matcher → Values → Type 0
  ArePruned matcher no_values = Unit
  ArePruned matcher (value v vs) =
      ((event_match v matcher ≡ true) ⊎ (IsPruned matcher v × (is_filled v ≡ true)))
      × ArePruned matcher vs

  pub HavePruned : Matcher → Fields → Type 0
  HavePruned matcher no_fields = Unit
  HavePruned matcher (field k v fs) =
      ((event_match v matcher ≡ true) ⊎ (IsPruned matcher v × (is_filled v ≡ true)))
      × HavePruned matcher fs

module _ (matcher : Matcher) where
  items_filled :
      (vs : Values)
      → (process_items matcher vs).1 ≡ true
      → is_filled (array (process_items matcher vs).0) ≡ true
  unfolding event_process IsPruned
  items_filled no_values e = elim (true≢false (sym e)) [ ]
  items_filled (value v vs) e = elim (fate matcher v) [
    | matched m ↦ rw (items_matched matcher v vs m) refl
    | found m f ↦ rw (items_found matcher v vs m f) refl
    | dropped m f ↦
        rw (items_dropped matcher v vs m f)
          (items_filled vs (rw (items_dropped matcher v vs m f) at e))
  ]

  fields_filled :
      (fs : Fields)
      → (process_fields matcher fs).1 ≡ true
      → is_filled (object (process_fields matcher fs).0) ≡ true
  unfolding event_process IsPruned
  fields_filled no_fields e = elim (true≢false (sym e)) [ ]
  fields_filled (field k v fs) e = elim (fate matcher v) [
    | matched m ↦ rw (fields_matched matcher v k fs m) refl
    | found m f ↦ rw (fields_found matcher v k fs m f) refl
    | dropped m f ↦
        rw (fields_dropped matcher v k fs m f)
          (fields_filled fs (rw (fields_dropped matcher v k fs m f) at e))
  ]

  found_filled :
      (v : Value)
      → (event_process matcher v).1 ≡ true
      → is_filled (event_process matcher v).0 ≡ true
  unfolding event_process
  found_filled (array items) e = items_filled items e
  found_filled (object fs) e = fields_filled fs e
  found_filled null e = elim (true≢false (sym e)) [ ]
  found_filled (bool b) e = elim (true≢false (sym e)) [ ]
  found_filled (number n) e = elim (true≢false (sym e)) [ ]
  found_filled (text t) e = elim (true≢false (sym e)) [ ]

  mutual
    unfolding event_process IsPruned

    pub event_process-IsPruned : (v : Value) → IsPruned matcher (event_process matcher v).0
    event_process-IsPruned (array items) = process_items-ArePruned items
    event_process-IsPruned (object fs) = process_fields-HavePruned fs
    event_process-IsPruned null = tt
    event_process-IsPruned (bool b) = tt
    event_process-IsPruned (number n) = tt
    event_process-IsPruned (text t) = tt

    process_items-ArePruned : (vs : Values) → ArePruned matcher (process_items matcher vs).0
    process_items-ArePruned no_values = tt
    process_items-ArePruned (value v vs) = elim (fate matcher v) [
      | matched m ↦ rw (items_matched matcher v vs m) (inl m, process_items-ArePruned vs)
      | found m f ↦
          rw (items_found matcher v vs m f)
            (inr (event_process-IsPruned v, found_filled v f), process_items-ArePruned vs)
      | dropped m f ↦ rw (items_dropped matcher v vs m f) (process_items-ArePruned vs)
    ]

    process_fields-HavePruned : (fs : Fields) → HavePruned matcher (process_fields matcher fs).0
    process_fields-HavePruned no_fields = tt
    process_fields-HavePruned (field k v fs) = elim (fate matcher v) [
      | matched m ↦ rw (fields_matched matcher v k fs m) (inl m, process_fields-HavePruned fs)
      | found m f ↦
          rw (fields_found matcher v k fs m f)
            (inr (event_process-IsPruned v, found_filled v f), process_fields-HavePruned fs)
      | dropped m f ↦ rw (fields_dropped matcher v k fs m f) (process_fields-HavePruned fs)
    ]
