-- ===== src/Filter/Cases.antt =====
-- dix/filter.go: the cases of `EventProcess` for one item.
use dotidx.Prelude.{◌≡◌, refl, true, false, Bool-cases, inl, inr, String}
use dotidx.Filter.{
  Value, Values, Fields, value, field, Matcher, event_match, event_process, process_items,
  process_fields,
}

-- The three cases of an item of a list, and of a field of an object.
module _ (matcher : Matcher) (v : Value) where
  pub items_matched :
      (vs : Values)
      → event_match v matcher ≡ true
      → process_items matcher (value v vs) ≡ (value v (process_items matcher vs).0, true)
  unfolding event_process
  items_matched vs e = rw e refl

  pub items_found :
      (vs : Values)
      → event_match v matcher ≡ false
      → (event_process matcher v).1 ≡ true
      → process_items matcher (value v vs)
        ≡ (value (event_process matcher v).0 (process_items matcher vs).0, true)
  unfolding event_process
  items_found vs e f = rw e (rw f refl)

  pub items_dropped :
      (vs : Values)
      → event_match v matcher ≡ false
      → (event_process matcher v).1 ≡ false
      → process_items matcher (value v vs) ≡ process_items matcher vs
  unfolding event_process
  items_dropped vs e f = rw e (rw f refl)

  pub fields_matched :
      (k : String) (fs : Fields)
      → event_match v matcher ≡ true
      → process_fields matcher (field k v fs) ≡ (field k v (process_fields matcher fs).0, true)
  unfolding event_process
  fields_matched k fs e = rw e refl

  pub fields_found :
      (k : String) (fs : Fields)
      → event_match v matcher ≡ false
      → (event_process matcher v).1 ≡ true
      → process_fields matcher (field k v fs)
        ≡ (field k (event_process matcher v).0 (process_fields matcher fs).0, true)
  unfolding event_process
  fields_found k fs e f = rw e (rw f refl)

  pub fields_dropped :
      (k : String) (fs : Fields)
      → event_match v matcher ≡ false
      → (event_process matcher v).1 ≡ false
      → process_fields matcher (field k v fs) ≡ process_fields matcher fs
  unfolding event_process
  fields_dropped k fs e f = rw e (rw f refl)

-- What becomes of the first item, as cases.
pub data Fate (matcher : Matcher) (v : Value) : Type 0 where
  matched : event_match v matcher ≡ true → Fate matcher v
  found : event_match v matcher ≡ false → (event_process matcher v).1 ≡ true → Fate matcher v
  dropped : event_match v matcher ≡ false → (event_process matcher v).1 ≡ false → Fate matcher v

pub fate : (matcher : Matcher) (v : Value) → Fate matcher v
fate matcher v = elim (Bool-cases (event_match v matcher)) [
  | inl e ↦ matched e
  | inr e ↦ elim (Bool-cases (event_process matcher v).1) [
    | inl f ↦ found e f
    | inr f ↦ dropped e f
  ]
]
