-- ===== src/Activities/Tests.antt =====
-- A sidecar that has one and the same block under every number, and a healthy endpoint.
use dotidx.Prelude.{
  ℕ, zero, suc, ◌-◌, ◌≡◌, ◌↔◌, refl, true, false, Option, none, some, List, [], ◌∷◌, String,
}
use dotidx.Filter.{Value, bool, object, field, no_fields}
use dotidx.ChainReader.{
  Url, root, blocks_head, block, block_range, Http, sidecar_range, sequential_from, last_of,
}
use dotidx.Database.{BlockData, SqlDatabase, Driver}
use dotidx.Activities.{completed, panics, process_block_batch, process_single_block}
use dotidx.Activities.Stores.{Leaves, process_block_batch-Leaves}
use dotidx.Activities.Health.{HttpHealthCheckConfig, answered, check_http_endpoint}
use dotidx.Activities.Healthy.{IsHealthy, check_http_endpoint-IsHealthy}

abbrev only_block : BlockData String
only_block = record { id = "1"; hash = "0x1"; extrinsics = "alice" }

abbrev copies : ℕ → List (BlockData String)
copies zero = []
copies (suc n) = only_block ∷ copies n

abbrev serve : Url → Option (ℕ × List (BlockData String))
serve root = some (200, [])
serve blocks_head = some (200, copies 1)
serve (block id) = some (200, copies 1)
serve (block_range first last) = some (200, copies (suc last - first))

abbrev one_of : List (BlockData String) → Option (BlockData String)
one_of [] = none
one_of (b ∷ bs) = some b

abbrev server : Http (BlockData String)
server = record {
  Body = List (BlockData String);
  get = serve;
  parse_block = one_of;
  parse_blocks = λ bs. some bs;
  block_id = λ b. some 1;
}

abbrev at : BlockData String → String
at b = "2024-01-01 00:00:00.0000"

abbrev found : String → Option (List String)
found raw = some (raw ∷ [])

abbrev driver : Driver String
driver = record { begins = true; accepts = λ s. true; commits = true }

abbrev empty : SqlDatabase String
empty = record { max_open_conns = 1; in_use = 0; blocks = []; address2blocks = [] }

completes : (process_block_batch at found server true driver (5 ∷ 6 ∷ []) empty).0 ≡ completed
unfolding process_block_batch sequential_from sidecar_range last_of
completes = refl

single_completes : (process_single_block at found server true driver 5 empty).0 ≡ completed
unfolding process_single_block
single_completes = refl

empty_panics : (process_block_batch at found server true driver [] empty).0 ≡ panics
unfolding process_block_batch sequential_from sidecar_range last_of
empty_panics = refl

process_block_batch-Leaves_example :
    let (end, db) = process_block_batch at found server true driver (5 ∷ 6 ∷ []) empty in
    Leaves at found server (5 ∷ 6 ∷ []) empty db end
process_block_batch-Leaves_example =
    process_block_batch-Leaves at found server true driver (5 ∷ 6 ∷ []) empty

abbrev parse : String → Option Value
parse body = some (object (field "status" (object (field "ready" (bool true) no_fields)) no_fields))

abbrev config : HttpHealthCheckConfig
config = record {
  method = "";
  expected_status = 0;
  timeout = 0;
  response_contains = "ready";
  json_path = "status.ready";
}

abbrev body : String
body = "{status: {ready: true}}"

passes :
    (check_http_endpoint parse (λ n. true) (λ n s. s) config (answered 200 (some body))).healthy
    ≡ true
unfolding check_http_endpoint
passes = refl

no_content_fails :
    (check_http_endpoint parse (λ n. true) (λ n s. s) config (answered 204 (some body))).healthy
    ≡ false
unfolding check_http_endpoint
no_content_fails = refl

check_http_endpoint-IsHealthy_example :
    ((check_http_endpoint parse (λ n. true) (λ n s. s) config (answered 200 (some body))).healthy
      ≡ true)
    ↔ IsHealthy parse (λ n. true) (λ n s. s) config (answered 200 (some body))
check_http_endpoint-IsHealthy_example =
    check_http_endpoint-IsHealthy parse (λ n. true) (λ n s. s) config (answered 200 (some body))
