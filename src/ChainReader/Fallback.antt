-- ===== src/ChainReader/Fallback.antt =====
-- dix/chainreader_fallback.go: `FallbackChainReader`, a reader over two readers.
use dotidx.Prelude.{ℕ, ◌≡◌, refl, ◌↔◌, true, false, Option, none, some, List, map, arith}
use dotidx.ChainReader.{ChainReader}

-- The answer of the primary reader, or of the secondary one if the first gives an error.
abbrev pub or_secondary {ℓ} : {A : Type ℓ} → Option A → Option A → Option A
or_secondary (some a) secondary = some a
or_secondary none secondary = secondary

unfoldable pub fallback : {B : Type 0} → ChainReader B → ChainReader B → ChainReader B
fallback primary secondary = record {
  get_chain_head_id = or_secondary primary.get_chain_head_id secondary.get_chain_head_id;
  fetch_block = λ id. or_secondary (primary.fetch_block id) (secondary.fetch_block id);
  fetch_block_range =
      λ ids. or_secondary (primary.fetch_block_range ids) (secondary.fetch_block_range ids);
  ping = elim primary.ping [ true ↦ true | false ↦ secondary.ping ];
}

-- A reader that gives the blocks of the chain or an error, and a head that satisfies `Head`.
pub record IsFaithful {B : Type 0} (chain : ℕ → B) (Head : ℕ → Type 0) (r : ChainReader B)
    : Type 0 where
  pub head : (id : ℕ) → r.get_chain_head_id ≡ some id → Head id
  pub block : (id : ℕ) (b : B) → r.fetch_block id ≡ some b → b ≡ chain id
  pub range : (ids : List ℕ) (bs : List B) → r.fetch_block_range ids ≡ some bs → bs ≡ map chain ids

module _ {ℓ κ} {A : Type ℓ} (P : A → Type κ) where
  or_secondary-keeps :
      (p s : Option A)
      → ((a : A) → p ≡ some a → P a)
      → ((a : A) → s ≡ some a → P a)
      → (a : A) → or_secondary p s ≡ some a
      → P a
  or_secondary-keeps (some b) s hp hs a e = hp a e
  or_secondary-keeps none s hp hs a e = hs a e

-- Over two readers of one chain the fallback reader is one again: what it answers is the chain's,
-- for a head, a block and a range of blocks.
fallback-IsFaithful :
    {B : Type 0} (chain : ℕ → B) (Head : ℕ → Type 0) (primary secondary : ChainReader B)
    → IsFaithful chain Head primary
    → IsFaithful chain Head secondary
    → IsFaithful chain Head (fallback primary secondary)
unfolding fallback
fallback-IsFaithful chain Head primary secondary p s = record {
  head =
      or_secondary-keeps Head primary.get_chain_head_id secondary.get_chain_head_id p.head s.head;
  block = λ id.
      or_secondary-keeps (λ b. b ≡ chain id) (primary.fetch_block id) (secondary.fetch_block id)
        (p.block id) (s.block id);
  range = λ ids.
      or_secondary-keeps (λ bs. bs ≡ map chain ids) (primary.fetch_block_range ids)
        (secondary.fetch_block_range ids) (p.range ids) (s.range ids);
}

-- An operation of the interface at its arguments, and that it gives an error.
pub data Operation : Type 0 where
  head ping : Operation
  block : ℕ → Operation
  range : List ℕ → Operation

abbrev pub Fails : {B : Type 0} → Operation → ChainReader B → Type 0
Fails head r = r.get_chain_head_id ≡ none
Fails ping r = r.ping ≡ false
Fails (block id) r = r.fetch_block id ≡ none
Fails (range ids) r = r.fetch_block_range ids ≡ none

or_secondary-none {ℓ} :
    {A : Type ℓ} (p s : Option A) → (or_secondary p s ≡ none) ↔ ((p ≡ none) × (s ≡ none))
or_secondary-none (some a) s = (λ e. cc, λ e. cc)
or_secondary-none none s = (λ e. (refl, e), λ e. e.1)

-- Each operation of the fallback reader fails exactly where that operation fails, at the same
-- arguments, for both readers.
fallback-Fails :
    {B : Type 0} (op : Operation) (primary secondary : ChainReader B)
    → Fails op (fallback primary secondary) ↔ (Fails op primary × Fails op secondary)
unfolding fallback
fallback-Fails head p s = or_secondary-none p.get_chain_head_id s.get_chain_head_id
fallback-Fails ping p s = (λ e. (ground arith, ground arith), λ e. ground arith)
fallback-Fails (block id) p s = or_secondary-none (p.fetch_block id) (s.fetch_block id)
fallback-Fails (range ids) p s =
    or_secondary-none (p.fetch_block_range ids) (s.fetch_block_range ids)
