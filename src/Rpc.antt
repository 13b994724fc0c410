-- ===== src/Rpc.antt =====
-- dix/chainreader_rpc.go: `SubstrateRPCReader`, which reads blocks from a node by the library
-- substrate-api-rpc. The node and that library are given by their answers (`Node`). JSON values are
-- those of `Filter`; an error is `none`. Latencies are left out: see `Metrics`.
pub mod Block
pub mod Runtime
pub mod Merged
pub mod Hidden
mod Tests
use dotidx.Prelude.{
  ℕ, Bool, true, false, Option, none, some, ◌>>=◌, List, [], ◌∷◌, ◌++◌, String, str_eq, ◌==◌, Dict,
  lookup, insert, if◌then◌else◌,
}
use dotidx.Filter.{Value, Values, array, object, no_values, value, Fields}
use dotidx.Rpc.Block.{EncodedBlock, BlockParts, Codec, build_block_data}

-- The fields that are looked at.
pub record RuntimeVersion : Type 0 where
  pub spec_name : String
  pub spec_version : ℕ

-- `model.JsonRpcResult` after `SendWsRequest`.
pub data Reply : Type 0 where
  not_sent rpc_error nil_result : Reply
  result : Value → Reply

abbrev pub result_of : Reply → Option Value
result_of (result v) = some v
result_of _ = none

-- A node at the time of a call; `block_hash none` is the hash of the head. The `as` functions read a
-- result by `json.Unmarshal`, and `parse_number` is `strconv.ParseInt` with the base of the prefix.
pub record Node (Meta : Type 0) : Type 0 where
  pub block_hash : Option ℕ → Option String
  pub get_runtime_version : String → Reply
  pub as_runtime : Value → Option RuntimeVersion
  pub get_metadata : String → Option String
  pub new_metadata : ℕ → String → Option Meta
  pub get_block : String → Reply
  pub as_block : Value → Option EncodedBlock
  pub parse_number : String → Option ℕ
  pub get_events : String → Reply
  pub as_hex : Value → Option String
  pub decode_extrinsic : List String → Meta → ℕ → Option (List (Dict Value))
  pub decode_event : String → Meta → ℕ → Option Value
  pub codec : Codec

-- The entry of a map `metadatas` that was set last stands first.
pub record SubstrateRpcReader (Meta : Type 0) : Type 0 where
  pub metadatas : List (ℕ × Meta)
  pub runtimes : Dict RuntimeVersion
  pub initialized : Bool

abbrev pub metadata_of : {Meta : Type 0} → ℕ → List (ℕ × Meta) → Option Meta
metadata_of spec [] = none
metadata_of spec ((s, m) ∷ metadatas) = if s == spec then some m else metadata_of spec metadatas

abbrev pub new_substrate_rpc_reader : {Meta : Type 0} → SubstrateRpcReader Meta
new_substrate_rpc_reader = record { metadatas = []; runtimes = []; initialized = false }

abbrev pub is_object : Value → Bool
is_object (object fs) = true
is_object _ = false

-- The elements that are maps; the others are skipped.
unfoldable pub maps_of : Values → List Fields
maps_of no_values = []
maps_of (value (object fs) vs) = fs ∷ maps_of vs
maps_of (value v vs) = maps_of vs

module _ {Meta : Type 0} (node : Node Meta) where
  unfoldable pub get_runtime : String → Option RuntimeVersion
  get_runtime hash = do
    v ← result_of (node.get_runtime_version hash)
    runtime ← node.as_runtime v
    if runtime.spec_version == 0 then none else some runtime

  unfoldable pub get_metadata : ℕ → String → Option Meta
  get_metadata spec hash = do
    raw ← node.get_metadata hash
    if str_eq raw "" then none else node.new_metadata spec raw

  unfoldable pub first_runtime : ℕ → Option (String × RuntimeVersion)
  unfolding get_runtime
  first_runtime id = do
    hash ← node.block_hash (some id)
    runtime ← get_runtime hash
    some (hash, runtime)

  -- Whether it succeeds, and the reader after it.
  unfoldable pub initialize : ℕ → SubstrateRpcReader Meta → Bool × SubstrateRpcReader Meta
  unfolding first_runtime get_metadata insert
  initialize id r = if r.initialized then (true, r) else elim (first_runtime id) [
    | none ↦ (false, r)
    | some (hash, runtime) ↦
        let runtimes = insert "relay-chain" runtime r.runtimes in
        elim (get_metadata runtime.spec_version hash) [
          | none ↦ (false, record r { runtimes = runtimes })
          | some meta ↦ (
            true,
            record {
              metadatas = (runtime.spec_version, meta) ∷ r.metadatas;
              runtimes = runtimes;
              initialized = true;
            },
          )
        ]
  ]

  unfoldable pub fetch_block_details : String → Option EncodedBlock
  fetch_block_details hash = do
    v ← result_of (node.get_block hash)
    if is_object v then node.as_block v else none

  unfoldable pub head_number : Option ℕ
  unfolding fetch_block_details
  head_number = do
    hash ← node.block_hash none
    encoded ← fetch_block_details hash
    node.parse_number encoded.number

  unfoldable pub get_chain_head_id : SubstrateRpcReader Meta → Option ℕ × SubstrateRpcReader Meta
  unfolding initialize head_number
  get_chain_head_id r =
      let (ok, r') = initialize 1 r in if ok then (head_number, r') else (none, r')

  -- Without a result, or with one that is no text, there are no events.
  abbrev pub events_hex : Reply → Option String
  events_hex not_sent = none
  events_hex rpc_error = none
  events_hex nil_result = some ""
  events_hex (result v) = elim (node.as_hex v) [ none ↦ some "" | some hex ↦ some hex ]

  -- An error of the decoding is not passed on either.
  unfoldable pub decode_events : String → Meta → ℕ → List Fields
  unfolding maps_of
  decode_events hex meta spec =
      if str_eq hex ""
      then []
      else if str_eq hex "0x"
      then []
      else elim (node.decode_event hex meta spec) [ some (array vs) ↦ maps_of vs | _ ↦ [] ]

  -- What is read of a block and decoded with a runtime and its metadata.
  unfoldable pub read_block : ℕ → ℕ → Meta → Option BlockParts
  unfolding fetch_block_details decode_events build_block_data
  read_block id spec meta = do
    hash ← node.block_hash (some id)
    encoded ← fetch_block_details hash
    hex ← events_hex (node.get_events hash)
    extrinsics ← node.decode_extrinsic encoded.extrinsics meta spec
    some (build_block_data node.codec id hash encoded extrinsics (decode_events hex meta spec))

  unfoldable pub decoded_block : ℕ → SubstrateRpcReader Meta → Option BlockParts
  unfolding read_block lookup
  decoded_block id r = do
    runtime ← lookup "relay-chain" r.runtimes
    meta ← metadata_of runtime.spec_version r.metadatas
    read_block id runtime.spec_version meta

  unfoldable pub fetch_block :
      ℕ → SubstrateRpcReader Meta → Option BlockParts × SubstrateRpcReader Meta
  unfolding initialize decoded_block
  fetch_block id r =
      let (ok, r') = initialize id r in if ok then (decoded_block id r', r') else (none, r')

  -- `cancelled` is whether the context is done before the block is fetched.
  unfoldable pub fetch_block_range :
      List (ℕ × Bool)
      → SubstrateRpcReader Meta
      → Option (List BlockParts × Bool) × SubstrateRpcReader Meta
  unfolding fetch_block
  fetch_block_range [] r = (some ([], true), r)
  fetch_block_range ((id, cancelled) ∷ ids) r =
      let (fetched, r') = fetch_block id r in
      let (rest, r'') = fetch_block_range ids r' in
      if cancelled then (some ([], false), r) else elim fetched [
        | none ↦ (none, r')
        | some b ↦ elim rest [ none ↦ (none, r'') | some (bs, whole) ↦ (some (b ∷ bs, whole), r'') ]
      ]
