-- ===== src/Filter/Address.antt =====
-- dix/blocks.go: the addresses under which a block is indexed. Lengths are in bytes; a set is the list
-- of its elements, in which they may be repeated. `to_lower` is `strings.ToLower`.
pub mod Occurs
use package.text.Mathlib.Text.{starts_with, find?}
use Prim.Native.String.{len}
use dotidx.Prelude.{
  ◌≡◌, refl, Bool, true, false, true≢false, Bool-cases, sym, ◌∙◌, inl, inr, ◌⊎◌, ◌&&◌, ◌||◌, List,
  [], ◌∷◌, ◌++◌, Option, none, some, String, ltb, if◌then◌else◌, arith,
}
use dotidx.Filter.{
  Value, Values, Fields, null, bool, number, text, array, object, no_values, value, no_fields,
  field,
}

unfoldable pub has_prefix : String → List String → Bool
has_prefix address [] = false
has_prefix address (prefix ∷ prefixes) = starts_with address prefix || has_prefix address prefixes

unfoldable pub is_valid_address : String → Bool
unfolding has_prefix
is_valid_address address =
    if ltb (len address) 45 || ltb 50 (len address)
    then false
    else has_prefix address ("1" ∷ "5F" ∷ "5G" ∷ "5D" ∷ "5E" ∷ "5H" ∷ [])

abbrev pub contains : String → String → Bool
contains s t = elim (find? s t) [ none ↦ false | some i ↦ true ]

-- A value that is a text and a valid address.
abbrev pub valid_text : Value → List String
valid_text (text t) = if is_valid_address t then t ∷ [] else []
valid_text _ = []

-- The item where it is an address, and else what is found in it.
abbrev pub item_or_below : List String → List String → List String
item_or_below [] below = below
item_or_below (a ∷ rest) below = a ∷ rest

module _ (to_lower : String → String) where
  -- `strings.Contains(strings.ToLower(key), "id")`
  abbrev pub field_of_valid : String → Value → List String
  field_of_valid k v = if contains (to_lower k) "id" then valid_text v else []

  unfoldable mutual
    unfolding is_valid_address

    pub find_addresses : Value → List String
    find_addresses (object fs) = find_in_fields fs
    find_addresses (array items) = find_in_items items
    find_addresses _ = []

    pub find_in_fields : Fields → List String
    find_in_fields no_fields = []
    find_in_fields (field k v fs) = field_of_valid k v ++ (find_addresses v ++ find_in_fields fs)

    pub find_in_items : Values → List String
    find_in_items no_values = []
    find_in_items (value v vs) = item_or_below (valid_text v) (find_addresses v) ++ find_in_items vs

  -- `unmarshal` is that of encoding/json, and `is_empty` whether there are no bytes; an error is `none`.
  unfoldable pub extract_addresses_from_extrinsics :
      {Raw : Type 0} → (Raw → Bool) → (Raw → Option Value) → Raw → Option (List String)
  unfolding find_addresses
  extract_addresses_from_extrinsics is_empty unmarshal extrinsics =
      if is_empty extrinsics
      then some []
      else elim (unmarshal extrinsics) [ none ↦ none | some v ↦ some (find_addresses v) ]
