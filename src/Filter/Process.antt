-- ===== src/Filter/Process.antt =====
-- dix/filter.go: `EventsBalance.Process` and `EventsStaking.Process`.
use dotidx.Prelude.{◌≡◌, refl, ap, ◌∙◌, ◌⊎◌, inl, inr, Bool, Option, some, String, bind-some}
use mathlib.Core.Option.{some-injective}
use dotidx.Filter.{
  Value, Values, array, Matcher, event_match_method_data, event_match, event_process, process,
}
use dotidx.Filter.Events.{events, is_cons, found-events}
use dotidx.Filter.Pruned.{IsPruned, event_process-IsPruned}
use dotidx.Filter.Kept.{events-process, event_process-event_process}

-- The two pallets of the filters.
abbrev pub IsFiltered : String → Type 0
IsFiltered pallet = (pallet ≡ "balances") ⊎ (pallet ≡ "staking")

abbrev pub matcher_of : String → String → Matcher
matcher_of pallet address = record { address = address; method = ""; pallet = pallet }

event_match_data :
    (pallet address : String)
    → IsFiltered pallet
    → (v : Value)
    → event_match v (matcher_of pallet address)
      ≡ event_match_method_data v (matcher_of pallet address)
unfolding event_match
event_match_data pallet address (inl e) v = rw (e, event_match) refl
event_match_data pallet address (inr e) v = rw (e, event_match) refl

-- For the pallets of the two filters, the selection from a tree has the events for the address that the
-- tree has, in their order, and nothing beside them: every item and every field that is left in it is
-- such an event, or a list or an object that is not empty and of which the same is true. `found` says
-- whether there are any.
pub event_process-events :
    (pallet address : String) (v : Value)
    → IsFiltered pallet
    → let matcher = matcher_of pallet address in
      let (selection, found) = event_process matcher v in
      (events matcher selection ≡ events matcher v)
      × (found ≡ is_cons (events matcher v))
      × IsPruned matcher selection
event_process-events pallet address v f =
    let matcher = matcher_of pallet address in
    (
      events-process matcher (event_match_data pallet address f) v,
      found-events matcher v,
      event_process-IsPruned matcher v,
    )

module _ {Raw : Type 0} (unmarshal : Raw → Option Values) (marshal : Value → Option Raw) where
  -- What `process` gives where it succeeds.
  record Processed (matcher : Matcher) (raw filtered : Raw) (found : Bool) : Type 0 where
    items : Values
    read : unmarshal raw ≡ some items
    written : marshal (event_process matcher (array items)).0 ≡ some filtered
    same : (event_process matcher (array items)).1 ≡ found

  process-Processed :
      (pallet address : String) (raw filtered : Raw) (found : Bool)
      → process unmarshal marshal pallet address raw ≡ some (filtered, found)
      → Processed (matcher_of pallet address) raw filtered found
  unfolding process
  process-Processed pallet address raw filtered found e =
      let (items, read, rest) = bind-some (unmarshal raw) _ (filtered, found) e in
      let (w, written, last) = bind-some (marshal _) _ (filtered, found) rest in
      let both = some-injective _ _ last in
      record {
        items = items;
        read = read;
        written = written ∙ ap some (ap (λ r. r.0) both);
        same = ap (λ r. r.1) both;
      }

  process_reads :
      (pallet address : String) (raw filtered : Raw) (found : Bool) (items : Values)
      → unmarshal raw ≡ some items
      → marshal (event_process (matcher_of pallet address) (array items)).0 ≡ some filtered
      → (event_process (matcher_of pallet address) (array items)).1 ≡ found
      → process unmarshal marshal pallet address raw ≡ some (filtered, found)
  unfolding process
  process_reads pallet address raw filtered found items read written same =
      rw (read, process) (rw (written, process) (rw (same, process) refl))

  -- Where encoding/json reads back the slices that it writes, what the filter for an address gives is
  -- not changed when it is filtered again, and again something is found in it or not.
  process-process :
      (pallet address : String) (raw filtered : Raw) (found : Bool)
      → ((items : Values) (r : Raw) → marshal (array items) ≡ some r → unmarshal r ≡ some items)
      → IsFiltered pallet
      → process unmarshal marshal pallet address raw ≡ some (filtered, found)
      → process unmarshal marshal pallet address filtered ≡ some (filtered, found)
  unfolding event_process
  process-process pallet address raw filtered found reads f e =
      let p = process-Processed pallet address raw filtered found e in
      let again =
        event_process-event_process (matcher_of pallet address) (event_match_data pallet address f)
          (array p.items) in
      process_reads pallet address filtered filtered found _ (reads _ filtered p.written)
        (ap (λ r. marshal r.0) again ∙ p.written) (ap (λ r. r.1) again ∙ p.same)
