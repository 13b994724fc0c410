-- ===== src/Filter/Address/Occurs.antt =====
-- dix/blocks.go: which addresses a block is indexed under.
use dotidx.Prelude.{
  ◌≡◌, refl, sym, subst, inl, inr, Bool, true, false, Bool-cases, Option, some, List, [], ◌∷◌,
  String, All, All-map, All-append,
}
use mathlib.Core.List.{Mem, mem-cons_self, mem-append_left, mem-append_right}
use dotidx.Filter.{
  Value, Values, Fields, null, bool, number, text, array, object, no_values, value, no_fields,
  field,
}
use dotidx.Filter.Address.{
  is_valid_address, contains, valid_text, item_or_below, field_of_valid, find_addresses,
  find_in_fields, find_in_items, extract_addresses_from_extrinsics,
}

module _ (to_lower : String → String) where
  -- Where an address occurs: as an item of a list, or as the value of a field with `id` in its name.
  mutual
    pub data Occurs (a : String) : Value → Type 0 where
      in_items : {vs : Values} → OccursItems a vs → Occurs a (array vs)
      in_fields : {fs : Fields} → OccursFields a fs → Occurs a (object fs)

    pub data OccursItems (a : String) : Values → Type 0 where
      item_here : {vs : Values} → is_valid_address a ≡ true → OccursItems a (value (text a) vs)
      item_below : {v : Value} {vs : Values} → Occurs a v → OccursItems a (value v vs)
      item_later : {v : Value} {vs : Values} → OccursItems a vs → OccursItems a (value v vs)

    pub data OccursFields (a : String) : Fields → Type 0 where
      field_here :
          {k : String} {fs : Fields}
          → contains (to_lower k) "id" ≡ true
          → is_valid_address a ≡ true
          → OccursFields a (field k (text a) fs)
      field_below :
          {k : String} {v : Value} {fs : Fields} → Occurs a v → OccursFields a (field k v fs)
      field_later :
          {k : String} {v : Value} {fs : Fields} → OccursFields a fs → OccursFields a (field k v fs)

  -- A valid address that is met as a text.
  valid_text-All :
      (P : String → Type 0) (v : Value)
      → ((a : String) → v ≡ text a → is_valid_address a ≡ true → P a)
      → All P (valid_text v)
  valid_text-All P (text t) p = elim (Bool-cases (is_valid_address t)) [
    | inl e ↦ rw e (p t refl e, tt)
    | inr e ↦ rw e tt
  ]
  valid_text-All P null p = tt
  valid_text-All P (bool b) p = tt
  valid_text-All P (number n) p = tt
  valid_text-All P (array vs) p = tt
  valid_text-All P (object fs) p = tt

  item_of_valid : (v : Value) (vs : Values) → All (λ a. OccursItems a (value v vs)) (valid_text v)
  item_of_valid v vs =
      valid_text-All _ v
        (λ a e valid. subst (λ w. OccursItems a (value w vs)) (sym e) (item_here valid))

  item_or_below-All :
      (P : String → Type 0) (xs ys : List String)
      → All P xs
      → All P ys
      → All P (item_or_below xs ys)
  item_or_below-All P [] ys px py = py
  item_or_below-All P (x ∷ xs) ys px py = px

  field_of_valid-Occurs :
      (k : String) (v : Value) (fs : Fields)
      → All (λ a. OccursFields a (field k v fs)) (field_of_valid to_lower k v)
  field_of_valid-Occurs k v fs = elim (Bool-cases (contains (to_lower k) "id")) [
    | inl e ↦ rw e (
        valid_text-All _ v (λ a same valid.
          subst (λ w. OccursFields a (field k w fs)) (sym same) (field_here e valid)))
    | inr e ↦ rw e tt
  ]

  mutual
    unfolding find_addresses

    find_addresses-Occurs : (v : Value) → All (λ a. Occurs a v) (find_addresses to_lower v)
    find_addresses-Occurs (object fs) = All-map (λ a. in_fields) _ (find_in_fields-Occurs fs)
    find_addresses-Occurs (array vs) = All-map (λ a. in_items) _ (find_in_items-Occurs vs)
    find_addresses-Occurs null = tt
    find_addresses-Occurs (bool b) = tt
    find_addresses-Occurs (number n) = tt
    find_addresses-Occurs (text t) = tt

    find_in_items-Occurs : (vs : Values) → All (λ a. OccursItems a vs) (find_in_items to_lower vs)
    find_in_items-Occurs no_values = tt
    find_in_items-Occurs (value v vs) =
        All-append _ (item_or_below (valid_text v) (find_addresses to_lower v)) _
          (item_or_below-All _ (valid_text v) _ (item_of_valid v vs)
            (All-map (λ a. item_below) _ (find_addresses-Occurs v)))
          (All-map (λ a. item_later) _ (find_in_items-Occurs vs))

    find_in_fields-Occurs :
        (fs : Fields) → All (λ a. OccursFields a fs) (find_in_fields to_lower fs)
    find_in_fields-Occurs no_fields = tt
    find_in_fields-Occurs (field k v fs) =
        All-append _ (field_of_valid to_lower k v) _ (field_of_valid-Occurs k v fs) (
          All-append _ (find_addresses to_lower v) _
            (All-map (λ a. field_below) _ (find_addresses-Occurs v))
            (All-map (λ a. field_later) _ (find_in_fields-Occurs fs)))

  mutual
    unfolding find_addresses

    Mem-find_addresses : (a : String) (v : Value) → Occurs a v → Mem a (find_addresses to_lower v)
    Mem-find_addresses a null o = elim o [ ]
    Mem-find_addresses a (bool b) o = elim o [ ]
    Mem-find_addresses a (number n) o = elim o [ ]
    Mem-find_addresses a (text t) o = elim o [ ]
    Mem-find_addresses a (array vs) (in_items o) = Mem-find_in_items a vs o
    Mem-find_addresses a (object fs) (in_fields o) = Mem-find_in_fields a fs o

    Mem-find_in_items :
        (a : String) (vs : Values) → OccursItems a vs → Mem a (find_in_items to_lower vs)
    Mem-find_in_items a no_values o = elim o [ ]
    Mem-find_in_items a (value v vs) (item_here e) = rw e mem-cons_self
    Mem-find_in_items a (value v vs) (item_below (in_items o)) =
        mem-append_left _ (Mem-find_in_items a _ o)
    Mem-find_in_items a (value v vs) (item_below (in_fields o)) =
        mem-append_left _ (Mem-find_in_fields a _ o)
    Mem-find_in_items a (value v vs) (item_later o) = mem-append_right _ (Mem-find_in_items a vs o)

    Mem-find_in_fields :
        (a : String) (fs : Fields) → OccursFields a fs → Mem a (find_in_fields to_lower fs)
    Mem-find_in_fields a no_fields o = elim o [ ]
    Mem-find_in_fields a (field k v fs) (field_here c e) = rw c (rw e mem-cons_self)
    Mem-find_in_fields a (field k v fs) (field_below o) =
        mem-append_right _ (mem-append_left _ (Mem-find_addresses a v o))
    Mem-find_in_fields a (field k v fs) (field_later o) =
        mem-append_right _ (mem-append_right _ (Mem-find_in_fields a fs o))

  -- For extrinsics that are not empty and can be parsed, the addresses that are extracted are the valid
  -- addresses that occur in them, all of those and no others: as items of lists, or in fields with `id`
  -- in their names, at any depth.
  pub extract_addresses_from_extrinsics_lem :
      {Raw : Type 0} (is_empty : Raw → Bool) (unmarshal : Raw → Option Value) (raw : Raw)
      (v : Value)
      → is_empty raw ≡ false
      → unmarshal raw ≡ some v
      → (addresses : List String) × (extract_addresses_from_extrinsics to_lower is_empty unmarshal
            raw
          ≡ some addresses)
        × All (λ a. Occurs a v) addresses
        × ((a : String) → Occurs a v → Mem a addresses)
  unfolding extract_addresses_from_extrinsics
  extract_addresses_from_extrinsics_lem is_empty unmarshal raw v some_bytes parsed = (
    find_addresses to_lower v,
    rw (some_bytes, extract_addresses_from_extrinsics)
        (rw (parsed, extract_addresses_from_extrinsics) refl),
    find_addresses-Occurs v,
    λ a o. Mem-find_addresses a v o,
  )
