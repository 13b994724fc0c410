-- ===== src/DynamicConfig/Server.antt =====
-- cmd/dixmgr/dynamic_config.go: `Update` and the HTTP server, with the read-write lock of the settings.
-- A call that waits for the lock is `blocks`, with the state it leaves.
use dotidx.Prelude.{
  ℕ, ◌+◌, ◌-◌, Bool, true, false, ◌||◌, Option, none, some, List, [], ◌∷◌, String, str_eq, ltb,
  if◌then◌else◌, Dict,
}
use dotidx.DynamicConfig.{Value, DynamicConfig, set, get, updated, unknown_key, panicked}
use dotidx.DynamicConfig.Saved.{saved}

-- A `sync.RWMutex`.
pub record RwMutex : Type 0 where
  pub writer : Bool
  pub readers : ℕ

pub record World : Type 0 where
  pub mu : RwMutex
  pub config : DynamicConfig

pub data Run (A : Type 0) : Type 0 where
  returns : A → World → Run A
  blocks panics : World → Run A

abbrev pub M : Type 0 → Type 0
M A = World → Run A

infixl 5 ◌>>=◌ ◌>>◌
abbrev pub ◌>>=◌ : {A B : Type 0} → M A → (A → M B) → M B
◌>>=◌ m f w = elim (m w) [ returns a w' ↦ f a w' | blocks w' ↦ blocks w' | panics w' ↦ panics w' ]

abbrev pub ◌>>◌ : {A B : Type 0} → M A → M B → M B
m >> n = m >>= (λ a. n)

abbrev pub pure : {A : Type 0} → A → M A
pure a w = returns a w

unfoldable pub lock : M Unit
lock w =
    if w.mu.writer || ltb 0 w.mu.readers
    then blocks w
    else returns tt (record w { mu = record w.mu { writer = true } })

unfoldable pub unlock : M Unit
unlock w = returns tt (record w { mu = record w.mu { writer = false } })

unfoldable pub r_lock : M Unit
r_lock w =
    if w.mu.writer
    then blocks w
    else returns tt (record w { mu = record w.mu { readers = w.mu.readers + 1 } })

unfoldable pub r_unlock : M Unit
r_unlock w = returns tt (record w { mu = record w.mu { readers = w.mu.readers - 1 } })

unfoldable pub read_config : M DynamicConfig
read_config w = returns w.config w

-- The copy of all fields.
unfoldable pub clone : M DynamicConfig
unfolding r_lock r_unlock read_config
clone = do r_lock; copy ← read_config; r_unlock; pure copy

-- `set` inside its lock, which is released also by a panic; `false` is an error.
unfoldable pub assign : String → Value → M Bool
unfolding unlock
assign key v w = elim (set key v w.config) [
  | updated c ↦ (unlock >> pure true) (record w { config = c })
  | unknown_key ↦ (unlock >> pure false) w
  | panicked ↦ (unlock >> panics) w
]

unfoldable pub set_locked : String → Value → M Bool
unfolding lock assign
set_locked key v = do lock; assign key v

-- The loop over the updates, in the order of the iteration.
unfoldable pub apply_updates : Dict Value → M Bool
unfolding set_locked
apply_updates [] = pure true
apply_updates ((key, v) ∷ updates) = do
  done ← set_locked key v
  elim done [ true ↦ apply_updates updates | false ↦ pure false ]

-- The callbacks do not change the settings here.
unfoldable pub update : Dict Value → M Bool
unfolding lock clone unlock apply_updates r_lock r_unlock
update updates = do
  lock
  old_config ← clone
  unlock
  done ← apply_updates updates
  elim done [ true ↦ r_lock >> r_unlock >> pure true | false ↦ pure false ]

-- `Get` inside its lock.
unfoldable pub get_locked : String → M (Option Value)
unfolding r_lock r_unlock read_config
get_locked key = do r_lock; config ← read_config; r_unlock; pure (get key config)

unfoldable pub on_change : M Unit
unfolding lock unlock
on_change = do
  lock
  (λ w. returns tt (record w { config = record w.config { on_change = w.config.on_change + 1 } }))
  unlock

-- What `ToJSON` writes.
unfoldable pub to_json : (ℕ → String) → M (Dict Value)
unfolding r_lock r_unlock read_config saved
to_json duration_string = do
  r_lock
  config ← read_config
  r_unlock
  pure (saved duration_string config)

-- The answers of the server, by their codes.
pub data Status : Type 0 where
  status_ok method_not_allowed bad_request internal_server_error : Status

-- What a request brings: its method, and the bytes of the body, or the content of the file that the
-- query names; `none` is that they cannot be read, and `some none` that they cannot be parsed.
pub data Request : Type 0 where
  get_config : String → Request
  update_config : String → Option (Option (Dict Value)) → Request
  reload_config : String → String → Option (Option (Dict Value)) → Request

abbrev pub status_of : Status → Bool → Status
status_of failure true = status_ok
status_of failure false = failure

-- `LoadFromFile`
unfoldable pub load_from_file : Option (Option (Dict Value)) → M Bool
unfolding update
load_from_file none = pure false
load_from_file (some none) = pure false
load_from_file (some (some updates)) = update updates

-- The three handlers. `json.MarshalIndent` of the settings has no error.
unfoldable pub handle : (ℕ → String) → Request → M Status
unfolding update load_from_file to_json
handle duration_string (get_config method) =
    if str_eq method "GET"
    then (to_json duration_string >> pure status_ok)
    else pure method_not_allowed
handle duration_string (update_config method none) =
    if str_eq method "POST" || str_eq method "PUT"
    then pure bad_request
    else pure method_not_allowed
handle duration_string (update_config method (some none)) =
    if str_eq method "POST" || str_eq method "PUT"
    then pure bad_request
    else pure method_not_allowed
handle duration_string (update_config method (some (some updates))) =
    if str_eq method "POST" || str_eq method "PUT"
    then (update updates >>= (λ done. pure (status_of bad_request done)))
    else pure method_not_allowed
handle duration_string (reload_config method path file) =
    if str_eq method "POST"
    then (if str_eq path ""
        then pure bad_request
        else (load_from_file file >>= (λ done. pure (status_of internal_server_error done))))
    else pure method_not_allowed

-- Requests one after another; one that is blocked or panics has no answer, and the server goes on.
unfoldable pub serve : (ℕ → String) → List Request → World → List (Option Status)
unfolding handle
serve duration_string [] w = []
serve duration_string (r ∷ requests) w = elim (handle duration_string r w) [
  | returns code w' ↦ some code ∷ serve duration_string requests w'
  | blocks w' ↦ none ∷ serve duration_string requests w'
  | panics w' ↦ none ∷ serve duration_string requests w'
]
