-- ===== src/Rpc/Tests.antt =====
-- A node whose blocks have one extrinsic of the module Balances, with one event.
use dotidx.Prelude.{
  ℕ, ◌≡◌, refl, true, false, none, some, [], ◌∷◌, Dict, lookup, ◌==◌, if◌then◌else◌,
}
use dotidx.Filter.{
  Value, Fields, text, array, object, no_fields, field, Matcher, event_process, get_field,
}
use dotidx.Rpc.{
  Node, result, new_substrate_rpc_reader, get_metadata, first_runtime, fetch_block, read_block,
  get_chain_head_id,
}
use dotidx.Rpc.Block.{Codec, bytes, objects, is_raw, process_extrinsic, marshal_entries}
use dotidx.Rpc.Runtime.{head, after_all, fetch_block-first_runtime}
use dotidx.Rpc.Merged.{process_extrinsic-events}
use dotidx.Rpc.Hidden.{event_process-process_extrinsic}

raw_fields : is_raw "signature_raw" ≡ true
unfolding is_raw
raw_fields = refl

short_raw : is_raw "_raw" ≡ false
unfolding is_raw
short_raw = refl

abbrev codec : Codec
codec = record {
  decode_mortal = λ era. none;
  decode_log_digest = λ logs. none;
  seconds = λ ms. ms;
  parse_timestamp = λ s. some s;
  base64 = λ v. "W10=";
}

abbrev extrinsic : Dict Value
extrinsic = ("call_module", text "Balances") ∷ ("era", text "00") ∷ ("nonce_raw", text "01") ∷ []

abbrev event : Fields
event = field "call_module" (text "Balances") (field "event_id" (text "Transfer") no_fields)

abbrev other_event : Fields
other_event = field "call_module" (text "System") no_fields

-- All blocks have one runtime.
abbrev node : Node ℕ
node = record {
  block_hash =
      λ id. elim id [ none ↦ some "head" | some n ↦ if n == 1 then some "first" else some "later" ];
  get_runtime_version = λ hash. result (text hash);
  as_runtime = λ v. some (record { spec_name = "polkadot"; spec_version = 9001 });
  get_metadata = λ hash. some hash;
  new_metadata = λ spec raw. some spec;
  get_block = λ hash. result (object no_fields);
  as_block = λ v. some (record {
    number = "0x10";
    parent_hash = "";
    state_root = "";
    extrinsics_root = "";
    logs = [];
    extrinsics = [];
  });
  parse_number = λ s. some 16;
  get_events = λ hash. result (text "0x01");
  as_hex = λ v. some "0x01";
  decode_extrinsic = λ xs meta spec. some (extrinsic ∷ []);
  decode_event = λ hex meta spec. some (array (objects (other_event ∷ event ∷ [])));
  codec = codec;
}

head_is : (get_chain_head_id node new_substrate_rpc_reader).0 ≡ some 16
unfolding get_chain_head_id
head_is = refl

fetch_block-first_runtime_example :
    (fetch_block node 12 (after_all (head node ∷ []) new_substrate_rpc_reader)).0
    ≡ read_block node 12 9001 9001
unfolding first_runtime get_metadata
fetch_block-first_runtime_example =
    fetch_block-first_runtime (head node) node 1 "first"
      (record { spec_name = "polkadot"; spec_version = 9001 }) 9001 refl refl refl [] node 12

process_extrinsic-events_example :
    lookup "events" (process_extrinsic codec (other_event ∷ event ∷ []) extrinsic)
    ≡ some (bytes (array (objects (event ∷ []))))
unfolding lookup get_field
process_extrinsic-events_example =
    process_extrinsic-events codec (other_event ∷ event ∷ []) extrinsic "Balances" refl

abbrev balances : Matcher
balances = record { address = ""; method = ""; pallet = "balances" }

event_process-process_extrinsic_example :
    event_process balances
      (object (marshal_entries codec (process_extrinsic codec (event ∷ []) extrinsic)))
    ≡ event_process balances (object (marshal_entries codec (process_extrinsic codec [] extrinsic)))
unfolding lookup
event_process-process_extrinsic_example =
    event_process-process_extrinsic codec balances (event ∷ []) extrinsic refl
