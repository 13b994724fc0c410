-- ===== src/Rpc/Merged.antt =====
-- dix/chainreader_rpc.go: the events that `buildBlockData` merges into an extrinsic.
use dotidx.Prelude.{
  ℕ, zero, suc, ◌+◌, ◌≡◌, ◌≢◌, refl, sym, ap, ◌∙◌, inl, inr, Bool, Bool-cases, Option-cases, false,
  true≢false, Option, none, some, List, [], ◌∷◌, ◌++◌, map, String, str_eq, eq_iff, Dict, lookup,
  insert, delete, lookup-insert, lookup-insert_self, lookup-insert_ne, lookup-delete_ne, get_elem?,
  length, if◌then◌else◌, arith,
}
use mathlib.Core.List.{append_assoc, append-nil}
use mathlib.Core.Option
use dotidx.Filter.{Value, Fields, array, text, get_field}
use dotidx.Rpc.Block.{
  Entry, json, bytes, Codec, text_of, entry_text, call_module, is_raw, remove_raw, events_set,
  objects, events_at, merge_events, set_era, process_extrinsic,
}

abbrev pub module_of : Fields → Option String
module_of e = text_of (get_field e "call_module")

abbrev pub is_module : String → Option String → Bool
is_module m none = false
is_module m (some key) = str_eq key m

-- The events of a module, in their order.
abbrev pub events_of : String → List Fields → List Fields
events_of m [] = []
events_of m (e ∷ es) = if is_module m (module_of e) then e ∷ events_of m es else events_of m es

-- The field `events` of an extrinsic whose module has the given events.
abbrev pub merged_field : Option Entry → List Fields → Option Entry
merged_field old [] = old
merged_field old (e ∷ es) = some (bytes (array (objects (e ∷ es))))

abbrev positions : String → ℕ → List Fields → List ℕ
positions m i [] = []
positions m i (e ∷ es) =
    if is_module m (module_of e) then i ∷ positions m (suc i) es else positions m (suc i) es

abbrev indices : Option (List ℕ) → List ℕ
indices none = []
indices (some is) = is

-- The positions of a module with one more.
abbrev with_index : ℕ → Option (List ℕ) → List ℕ
with_index i o = elim o [ none ↦ i ∷ [] | some is ↦ is ++ i ∷ [] ]

with_index_lem : (i : ℕ) (o : Option (List ℕ)) → with_index i o ≡ indices o ++ i ∷ []
with_index_lem i none = refl
with_index_lem i (some is) = refl

indices-insert :
    (key m : String) (i : ℕ) (set : Dict (List ℕ))
    → indices (lookup m (insert key (with_index i (lookup key set)) set))
      ≡ (if str_eq key m then indices (lookup m set) ++ i ∷ [] else indices (lookup m set))
indices-insert key m i set =
    ap indices (lookup-insert key m (with_index i (lookup key set)) set)
    ∙ elim (Bool-cases (str_eq key m)) [
      | inr other ↦ rw other refl
      | inl same ↦ rw same (
          with_index_lem i (lookup key set)
          ∙ ap (λ k. indices (lookup k set) ++ i ∷ []) ((eq_iff key m).0 same))
    ]

lookup-events_set :
    (m : String) (i : ℕ) (events : List Fields) (set : Dict (List ℕ))
    → indices (lookup m (events_set i events set)) ≡ indices (lookup m set) ++ positions m i events
unfolding events_set
lookup-events_set m i [] set = sym (append-nil _)
lookup-events_set m i (e ∷ es) set = elim (Option-cases (module_of e)) [
  | inl unnamed ↦ rw unnamed (lookup-events_set m (suc i) es set)
  | inr (key, named) ↦
      let ih = lookup-events_set m (suc i) es (insert key (with_index i (lookup key set)) set) in
      let added = ap (λ is. is ++ positions m (suc i) es) (indices-insert key m i set) in
      rw named (
        ih ∙ added ∙ elim (Bool-cases (str_eq key m)) [
          | inl same ↦ rw same (append_assoc (indices (lookup m set)) (i ∷ []) _)
          | inr other ↦ rw other refl
        ])
]

events_at-positions :
    (m : String) (all : List Fields) (i : ℕ) (es : List Fields)
    → ((j : ℕ) → get_elem? all (i + j) ≡ get_elem? es j)
    → events_at all (positions m i es) ≡ events_of m es
unfolding events_at
events_at-positions m all i [] at = refl
events_at-positions m all i (e ∷ es) at =
    let first : get_elem? all i ≡ some e = ap (get_elem? all) (omega arith) ∙ at zero in
    let ih =
      events_at-positions m all (suc i) es (λ j. ap (get_elem? all) (omega arith) ∙ at (suc j)) in
    elim (Bool-cases (is_module m (module_of e))) [
      | inl here ↦ rw here (rw (first, events_at) (ap (λ rest. e ∷ rest) ih))
      | inr other ↦ rw other ih
    ]

lookup-remove_raw :
    (k : String) (x : Dict Entry) → is_raw k ≡ false → lookup k (remove_raw x) ≡ lookup k x
unfolding lookup remove_raw
lookup-remove_raw k [] kept = refl
lookup-remove_raw k ((j, v) ∷ x) kept =
    let ih = lookup-remove_raw k x kept in
    elim (Bool-cases (is_raw j)) [
      | inr keep ↦ rw keep (ap (λ rest. if str_eq j k then some v else rest) ih)
      | inl raw ↦ rw raw (elim (Bool-cases (str_eq j k)) [
        | inl same ↦ elim (true≢false (sym raw ∙ ap is_raw ((eq_iff j k).0 same) ∙ kept)) [ ]
        | inr other ↦ rw other ih
      ])
    ]

pub lookup-set_era :
    (codec : Codec) (k : String) (x : Dict Entry)
    → "era" ≢ k
    → lookup k (set_era codec x) ≡ lookup k x
unfolding set_era
lookup-set_era codec k x apart =
    lookup-insert_ne "era" k _ (delete "era" x) apart ∙ lookup-delete_ne "era" k x apart

abbrev pub entries : Dict Value → Dict Entry
entries x = map (λ entry. (entry.0, json entry.1)) x

pub lookup-entries :
    (k : String) (x : Dict Value) → lookup k (entries x) ≡ Option.map json (lookup k x)
unfolding lookup
lookup-entries k [] = refl
lookup-entries k ((j, v) ∷ x) =
    let ih = lookup-entries k x in
    elim (Bool-cases (str_eq j k)) [ inl e ↦ rw e refl | inr e ↦ rw e ih ]

abbrev merged : List Fields → List ℕ → Dict Entry → Dict Entry
merged events [] x = x
merged events (i ∷ is) x = insert "events" (bytes (array (objects (events_at events (i ∷ is))))) x

-- The two cases of `mergeEvents` on the positions.
merged-cases :
    (events : List Fields) (x : Dict Entry) (o : Option (List ℕ))
    → (elim o as (λ _. Dict Entry) [
      | some (i ∷ is) ↦ insert "events" (bytes (array (objects (events_at events (i ∷ is))))) x
      | _ ↦ x
    ])
      ≡ merged events (indices o) x
merged-cases events x none = refl
merged-cases events x (some []) = refl
merged-cases events x (some (i ∷ is)) = refl

merge_events-merged :
    (events : List Fields) (x : Dict Entry) (m : String)
    → call_module x ≡ some m
    → merge_events events x ≡ merged events (positions m 0 events) x
unfolding merge_events
merge_events-merged events x m named =
    rw (named, merge_events) (merged-cases events x (lookup m (events_set 0 events [])))
    ∙ ap (λ is. merged events is x) (lookup-events_set m 0 events [])

length-positions :
    (m : String) (i : ℕ) (es : List Fields) → length (positions m i es) ≡ length (events_of m es)
length-positions m i [] = refl
length-positions m i (e ∷ es) = ground (arith, length-positions m (suc i) es)

lookup-merged :
    (events all : List Fields) (is : List ℕ) (x : Dict Entry)
    → events_at all is ≡ events
    → length is ≡ length events
    → lookup "events" (merged all is x) ≡ merged_field (lookup "events" x) events
lookup-merged [] all [] x at same = refl
lookup-merged (e ∷ es) all [] x at same = absurd (omega arith)
lookup-merged [] all (i ∷ is) x at same = absurd (omega arith)
lookup-merged (e ∷ es) all (i ∷ is) x at same =
    lookup-insert_self "events" (bytes (array (objects (events_at all (i ∷ is))))) x
    ∙ ap (λ found. some (bytes (array (objects found)))) at

-- An extrinsic of module `m` gets the events of that module, of the whole block and in their order, as
-- its field `events`; where there are none that field is left as it is.
pub process_extrinsic-events :
    (codec : Codec) (events : List Fields) (x : Dict Value) (m : String)
    → lookup "call_module" x ≡ some (text m)
    → lookup "events" (process_extrinsic codec events x)
      ≡ merged_field (Option.map json (lookup "events" x)) (events_of m events)
unfolding process_extrinsic is_raw
process_extrinsic-events codec events x m named =
    let d = set_era codec (entries x) in
    let module_is : call_module d ≡ some m = ap entry_text (
      lookup-set_era codec "call_module" (entries x) (cc)
      ∙ lookup-entries "call_module" x
      ∙ ap (Option.map json) named) in
    let old : lookup "events" d ≡ Option.map json (lookup "events" x) =
      lookup-set_era codec "events" (entries x) (cc) ∙ lookup-entries "events" x in
    lookup-remove_raw "events" (merge_events events d) refl
    ∙ ap (lookup "events") (merge_events-merged events d m module_is)
    ∙ lookup-merged (events_of m events) events (positions m 0 events) d
        (events_at-positions m events 0 events (λ j. ap (get_elem? events) (omega arith)))
        (length-positions m 0 events)
    ∙ ap (λ o. merged_field o (events_of m events)) old
