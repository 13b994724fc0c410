-- ===== src/ChainReader.antt =====
-- dix/chainreader.go: the interface `ChainReader`, and `Sidecar`, which implements it by HTTP
-- requests; the fallback reader is in the child `Fallback`. An error is `none`: no caller looks at
-- what an error says. The HTTP client and the JSON parser are the parameter `Http`. Latencies, which
-- are recorded in another goroutine, are left out: see `Metrics`.
pub mod Sequential
pub mod Fallback
mod Tests
use dotidx.Prelude.{
  ℕ, zero, suc, ◌+◌, Bool, true, false, not, ◌&&◌, Option, none, some, List, [], ◌∷◌, ltb, ◌==◌,
  length, if◌then◌else◌,
}

pub record ChainReader (B : Type 0) : Type 0 where
  pub get_chain_head_id : Option ℕ
  pub fetch_block : ℕ → Option B
  pub fetch_block_range : List ℕ → Option (List B)
  pub ping : Bool

-- The paths that are requested from a sidecar.
pub data Url : Type 0 where
  root blocks_head : Url
  block : ℕ → Url
  block_range : ℕ → ℕ → Url

-- `get` is the status code and the body of the response. `block_id` is `strconv.Atoi(block.ID)`.
pub record Http (B : Type 0) : Type 1 where
  pub Body : Type 0
  pub get : Url → Option (ℕ × Body)
  pub parse_block : Body → Option B
  pub parse_blocks : Body → Option (List B)
  pub block_id : B → Option ℕ

abbrev pub bind {ℓ κ} : {A : Type ℓ} {C : Type κ} → Option A → (A → Option C) → Option C
bind none f = none
bind (some a) f = f a

-- `resp.StatusCode != http.StatusOK`
abbrev pub status_ok {ℓ} : {A : Type ℓ} → ℕ × A → Option A
status_ok (status, body) = if status == 200 then some body else none

-- The check of `FetchBlockRange` that each number is one more than the one before.
unfoldable pub sequential_from : ℕ → List ℕ → Bool
sequential_from prev [] = true
sequential_from prev (id ∷ ids) = id == prev + 1 && sequential_from id ids

-- `blockIDs[len(blockIDs)-1]` of the list `id ∷ ids`
unfoldable pub last_of : ℕ → List ℕ → ℕ
last_of id [] = id
last_of id (next ∷ ids) = last_of next ids

module _ {B : Type 0} where
  -- The loop that fetches one block after another, up to the first error.
  unfoldable pub fetch_each : (ℕ → Option B) → List ℕ → Option (List B)
  fetch_each fetch [] = some []
  fetch_each fetch (id ∷ ids) =
      bind (fetch id) (λ b. bind (fetch_each fetch ids) (λ bs. some (b ∷ bs)))

  unfoldable pub sidecar_head : Http B → Option ℕ
  sidecar_head http =
      bind (http.get blocks_head)
        λ response. bind (status_ok response) λ body. bind (http.parse_block body) http.block_id

  unfoldable pub sidecar_block : Http B → ℕ → Option B
  sidecar_block http id =
      bind (http.get (block id)) λ response. bind (status_ok response) http.parse_block

  unfoldable pub sidecar_range : Http B → ℕ → ℕ → Option (List B)
  sidecar_range http first last =
      bind (http.get (block_range first last))
        λ response. bind (status_ok response) http.parse_blocks

  unfoldable pub sidecar_block_range : Http B → List ℕ → Option (List B)
  sidecar_block_range http [] = some []
  sidecar_block_range http (id ∷ ids) =
      if sequential_from id ids && ltb 1 (length (id ∷ ids))
      then sidecar_range http id (last_of id ids)
      else fetch_each (sidecar_block http) (id ∷ ids)

  unfoldable pub sidecar_ping : Http B → Bool
  sidecar_ping http = elim (bind (http.get root) status_ok) [ none ↦ false | some body ↦ true ]

  unfoldable pub sidecar : Http B → ChainReader B
  unfolding sidecar_head sidecar_block sidecar_block_range sidecar_ping
  sidecar http = record {
    get_chain_head_id = sidecar_head http;
    fetch_block = sidecar_block http;
    fetch_block_range = sidecar_block_range http;
    ping = sidecar_ping http;
  }
