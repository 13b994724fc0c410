-- ===== src/Rpc/Runtime.antt =====
-- dix/chainreader_rpc.go: the runtime and the metadata by which blocks are decoded.
use dotidx.Prelude.{
  ℕ, ◌≡◌, refl, ap, ◌∙◌, Bool, true, false, Option, none, some, List, [], ◌∷◌, String, lookup,
  if◌then◌else◌, arith,
}
use mathlib.Core.Option.{some-injective}
use dotidx.Rpc.{
  RuntimeVersion, Node, SubstrateRpcReader, metadata_of, new_substrate_rpc_reader, first_runtime,
  get_metadata, initialize, get_chain_head_id, read_block, decoded_block, fetch_block,
  fetch_block_range,
}

-- A call of a reader, with the node at that time.
pub data Call (Meta : Type 0) : Type 0 where
  head : Node Meta → Call Meta
  fetch : Node Meta → ℕ → Call Meta
  fetch_range : Node Meta → List (ℕ × Bool) → Call Meta

module _ {Meta : Type 0} where
  unfoldable pub after : Call Meta → SubstrateRpcReader Meta → SubstrateRpcReader Meta
  unfolding get_chain_head_id fetch_block fetch_block_range
  after (head node) r = (get_chain_head_id node r).1
  after (fetch node id) r = (fetch_block node id r).1
  after (fetch_range node ids) r = (fetch_block_range node ids r).1

  unfoldable pub after_all : List (Call Meta) → SubstrateRpcReader Meta → SubstrateRpcReader Meta
  unfolding after
  after_all [] r = r
  after_all (c ∷ calls) r = after_all calls (after c r)

  -- A reader that has been initialised is left as it is by every call.
  fetch_block-reader :
      (node : Node Meta) (id : ℕ) (r : SubstrateRpcReader Meta)
      → r.initialized ≡ true
      → (fetch_block node id r).1 ≡ r
  unfolding fetch_block initialize
  fetch_block-reader node id r done = ground arith

  fetch_block_range-reader :
      (node : Node Meta) (ids : List (ℕ × Bool)) (r : SubstrateRpcReader Meta)
      → r.initialized ≡ true
      → (fetch_block_range node ids r).1 ≡ r
  unfolding fetch_block_range
  fetch_block_range-reader node [] r done = refl
  fetch_block_range-reader node ((id, cancelled) ∷ ids) r done =
      let e = fetch_block-reader node id r done in
      let ih =
        ap (λ s. (fetch_block_range node ids s).1) e ∙ fetch_block_range-reader node ids r done in
      ground (arith, e, ih)

  after-reader :
      (c : Call Meta) (r : SubstrateRpcReader Meta) → r.initialized ≡ true → after c r ≡ r
  unfolding after get_chain_head_id initialize
  after-reader (head node) r done = ground arith
  after-reader (fetch node id) r done = fetch_block-reader node id r done
  after-reader (fetch_range node ids) r done = fetch_block_range-reader node ids r done

  after_all-reader :
      (calls : List (Call Meta)) (r : SubstrateRpcReader Meta)
      → r.initialized ≡ true
      → after_all calls r ≡ r
  unfolding after_all
  after_all-reader [] r done = refl
  after_all-reader (c ∷ calls) r done =
      ap (after_all calls) (after-reader c r done) ∙ after_all-reader calls r done

  -- What a reader has that was initialised: one runtime, with its metadata.
  pub record Holds (r : SubstrateRpcReader Meta) (runtime : RuntimeVersion) (meta : Meta)
      : Type 0 where
    pub done : r.initialized ≡ true
    pub runtime_is : lookup "relay-chain" r.runtimes ≡ some runtime
    pub metadata_is : metadata_of runtime.spec_version r.metadatas ≡ some meta

  fetch_block-Holds :
      (node : Node Meta) (id : ℕ) (r : SubstrateRpcReader Meta) (runtime : RuntimeVersion)
      (meta : Meta)
      → Holds r runtime meta
      → fetch_block node id r ≡ (read_block node id runtime.spec_version meta, r)
  unfolding fetch_block initialize decoded_block
  fetch_block-Holds node id r runtime meta h = rw h.done (rw h.runtime_is (rw h.metadata_is refl))

  if-reader :
      {A : Type 0} (b : Bool) (x y : A) (r : SubstrateRpcReader Meta)
      → (if◌then◌else◌ {A = A × SubstrateRpcReader Meta} b (x, r) (y, r)).1 ≡ r
  if-reader true x y r = refl
  if-reader false x y r = refl

  -- The node and the block by which a call initialises a new reader.
  abbrev pub opens : Call Meta → Option (Node Meta × ℕ)
  opens (head node) = some (node, 1)
  opens (fetch node id) = some (node, id)
  opens (fetch_range node ids) = none

  after-opens :
      (c : Call Meta) (node : Node Meta) (id : ℕ)
      → opens c ≡ some (node, id)
      → (r : SubstrateRpcReader Meta) → after c r ≡ (initialize node id r).1
  unfolding after get_chain_head_id fetch_block
  after-opens (head n) node id e r =
      if-reader _ _ _ _ ∙ ap (λ p. (initialize p.0 p.1 r).1) (some-injective (n, 1) (node, id) e)
  after-opens (fetch n i) node id e r =
      if-reader _ _ _ _ ∙ ap (λ p. (initialize p.0 p.1 r).1) (some-injective (n, i) (node, id) e)
  after-opens (fetch_range n ids) node id e r = cc

  metadata_of-first : (spec : ℕ) (meta : Meta) → metadata_of spec ((spec, meta) ∷ []) ≡ some meta
  metadata_of-first spec meta = ground arith

  initialize-Holds :
      (node : Node Meta) (id : ℕ) (hash : String) (runtime : RuntimeVersion) (meta : Meta)
      → first_runtime node id ≡ some (hash, runtime)
      → get_metadata node runtime.spec_version hash ≡ some meta
      → Holds (initialize node id new_substrate_rpc_reader).1 runtime meta
  unfolding initialize lookup
  initialize-Holds node id hash runtime meta found read = rw found (
      rw read (record {
        done = refl;
        runtime_is = refl;
        metadata_is = metadata_of-first runtime.spec_version meta;
      }))

  -- A reader decodes every block with the runtime version and the metadata of the block by which it was
  -- initialised: if the first call of a new reader, for the head or for a block, reads these of its block,
  -- which for the head is block 1, then, whatever the calls in between, a block that is fetched is what
  -- its data give under that runtime, and not under the runtime of the block itself.
  pub fetch_block-first_runtime :
      (first : Call Meta) (node : Node Meta) (id : ℕ) (hash : String) (runtime : RuntimeVersion)
      (meta : Meta)
      → opens first ≡ some (node, id)
      → first_runtime node id ≡ some (hash, runtime)
      → get_metadata node runtime.spec_version hash ≡ some meta
      → (calls : List (Call Meta)) (later : Node Meta) (asked : ℕ)
      → (fetch_block later asked (after_all (first ∷ calls) new_substrate_rpc_reader)).0
        ≡ read_block later asked runtime.spec_version meta
  unfolding after_all
  fetch_block-first_runtime first node id hash runtime meta opened found read calls later asked =
      let r = (initialize node id new_substrate_rpc_reader).1 in
      let holds = initialize-Holds node id hash runtime meta found read in
      let same = after-opens first node id opened new_substrate_rpc_reader in
      ap (λ s. (fetch_block later asked (after_all calls s)).0) same
      ∙ ap (λ s. (fetch_block later asked s).0) (after_all-reader calls r holds.done)
      ∙ ap (λ s. s.0) (fetch_block-Holds later asked r runtime meta holds)
