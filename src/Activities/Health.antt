-- ===== src/Activities/Health.antt =====
-- cmd/dixmgr/activities_healthcheck.go: the check of an HTTP endpoint, and activities_sync.go: that of a
-- node. The request is given by its answer, the parser of JSON by `unmarshal`, `io.LimitReader` by
-- `limit_reader`, which has a number of bytes, and `positive` is whether a JSON number is above 0.
use Prim.Native.String
use Prim.Native.Char.{code}
use dotidx.Prelude.{
  ℕ, Bool, true, false, not, ◌&&◌, ◌||◌, Option, none, some, ◌>>=◌, List, [], ◌∷◌, String, str_eq,
  ◌==◌, leb, if◌then◌else◌,
}
use dotidx.Filter.{Value, Fields, null, bool, number, text, array, object, no_fields, field}

-- `strings.HasPrefix`
unfoldable pub has_prefix : String → String → Bool
has_prefix s String.[] = true
has_prefix String.[] (String.◌∷◌ c p) = false
has_prefix (String.◌∷◌ d s) (String.◌∷◌ c p) = code d == code c && has_prefix s p

-- `strings.Contains`
unfoldable pub contains : String → String → Bool
unfolding has_prefix
contains String.[] p = has_prefix "" p
contains (String.◌∷◌ c s) p = has_prefix (String.◌∷◌ c s) p || contains s p

-- `strings.Split(path, ".")`
abbrev push : String → List String → List String
push part [] = part ∷ []
push part (first ∷ parts) = String.◌++◌ part first ∷ parts

unfoldable pub split_dots : String → List String
split_dots String.[] = "" ∷ []
split_dots (String.◌∷◌ c s) =
    let parts = split_dots s in
    if code c == b'.' then "" ∷ parts else push (String.◌∷◌ c String.[]) parts

-- `current, ok = v[part]`
unfoldable pub find_field : Fields → String → Option Value
find_field no_fields key = none
find_field (field k v fs) key =
    let rest = find_field fs key in if str_eq k key then some v else rest

unfoldable pub traverse : List String → Value → Option Value
unfolding find_field
traverse [] v = some v
traverse (part ∷ parts) (object fs) = find_field fs part >>= traverse parts
traverse (part ∷ parts) v = none

pub record HttpHealthCheckConfig : Type 0 where
  pub method : String
  pub expected_status : ℕ
  pub timeout : ℕ
  pub response_contains : String
  pub json_path : String

-- What becomes of a request: `answered` has the status and the body, or none where it cannot be read.
pub data HttpAnswer : Type 0 where
  no_request no_answer : HttpAnswer
  answered : ℕ → Option String → HttpAnswer

pub record HttpHealthCheckResult : Type 0 where
  pub healthy : Bool
  pub status_code : ℕ
  pub response_body : String

-- `IsSyncing` of the answer to `system_health`, where it can be read.
unfoldable pub check_node_sync : (String → Option Bool) → HttpAnswer → Option Bool
check_node_sync is_syncing (answered status (some body)) =
    if status == 200 then (is_syncing body >>= λ syncing. some (not syncing)) else none
check_node_sync is_syncing _ = none

unfoldable pub set_defaults : HttpHealthCheckConfig → HttpHealthCheckConfig
set_defaults config = record config {
  method = if str_eq config.method "" then "GET" else config.method;
  timeout = if config.timeout == 0 then 5_000_000_000 else config.timeout;
  expected_status = if config.expected_status == 0 then 200 else config.expected_status;
}

abbrev pub in_2xx : ℕ → Bool
in_2xx status = not (leb status 199) && not (leb 300 status)

-- The check of the status; `0` is not left by `set_defaults`.
unfoldable pub status_passes : ℕ → ℕ → Bool
status_passes expected status = if expected == 0 then in_2xx status else status == expected

abbrev pub is_true : Option Bool → Bool
is_true none = false
is_true (some b) = b

module _ (unmarshal : String → Option Value) (positive : String → Bool) where
  -- An error is `none`.
  unfoldable pub health_of : Value → Option Bool
  health_of (bool b) = some b
  health_of (text t) = some (
      str_eq t "healthy"
      || (str_eq t "ok" || (str_eq t "up" || (str_eq t "ready" || str_eq t "true"))))
  health_of (number n) = some (positive n)
  health_of null = none
  health_of (array vs) = none
  health_of (object fs) = none

  unfoldable pub check_json_path : String → String → Option Bool
  unfolding split_dots traverse health_of
  check_json_path body path = do
    v ← unmarshal body
    current ← traverse (split_dots path) v
    health_of current

  -- The checks of a body that has been read.
  unfoldable pub body_passes : HttpHealthCheckConfig → String → Bool
  unfolding contains check_json_path
  body_passes config body =
      if not (str_eq config.response_contains "") && not (contains body config.response_contains)
      then false
      else if str_eq config.json_path ""
      then true
      else is_true (check_json_path body config.json_path)

  unfoldable pub check_http_endpoint :
      (ℕ → String → String) → HttpHealthCheckConfig → HttpAnswer → HttpHealthCheckResult
  unfolding set_defaults status_passes body_passes
  check_http_endpoint limit_reader config no_request = record {
    healthy = false;
    status_code = 0;
    response_body = "";
  }
  check_http_endpoint limit_reader config no_answer = record {
    healthy = false;
    status_code = 0;
    response_body = "";
  }
  check_http_endpoint limit_reader config (answered status none) = record {
    healthy = false;
    status_code = status;
    response_body = "";
  }
  check_http_endpoint limit_reader config (answered status (some body)) =
      let kept = limit_reader 1_024 body in
      record {
        healthy =
            if status_passes (set_defaults config).expected_status status
            then body_passes config kept
            else false;
        status_code = status;
        response_body = kept;
      }
