-- ===== src/DynamicConfig/Blocked.antt =====
-- cmd/dixmgr/dynamic_config.go: what becomes of `Update`, which copies the settings under its own lock.
use dotidx.Prelude.{
  ℕ, ◌≡◌, ◌≢◌, refl, sym, ap, ◌∙◌, subst, Bool, true, false, true≢false, ◌||◌, Option, none, some,
  List, [], ◌∷◌, All, String, str_eq, if◌then◌else◌, Dict,
}
use mathlib.Core.Option.{none-ne-some, some-injective}
use dotidx.DynamicConfig.{Value}
use dotidx.DynamicConfig.Server.{
  World, Run, M, returns, blocks, panics, ◌>>=◌, ◌>>◌, pure, lock, r_lock, clone, update, to_json,
  Status, status_ok, method_not_allowed, bad_request, internal_server_error, Request, get_config,
  update_config, reload_config, status_of, load_from_file, handle, serve,
}

-- The lock as `Update` leaves it.
abbrev pub held : World → World
held w = record w { mu = record { writer = true; readers = 0 } }

-- Called while nobody holds the lock, `Update` waits for its own lock, whatever the updates are; nobody
-- else can release it.
pub update-blocks :
    (updates : Dict Value) (w : World)
    → w.mu ≡ record { writer = false; readers = 0 }
    → update updates w ≡ blocks (held w)
unfolding update lock clone r_lock
update-blocks updates w free = rw free refl

-- An outcome that is not a success, and changes nothing.
data Fails (w : World) : Run Status → Type 0 where
  waits : Fails w (blocks w)
  refuses : (status : Status) → status ≢ status_ok → Fails w (returns status w)

abbrev is_ok : Status → Bool
is_ok status_ok = true
is_ok _ = false

not_ok : (code : Status) → is_ok code ≡ false → code ≢ status_ok
not_ok code e same = true≢false (ap is_ok (sym same) ∙ e)

bind_blocks :
    {A B : Type 0} (m : M A) (f : A → M B) (w w' : World)
    → m w ≡ blocks w'
    → (m >>= f) w ≡ blocks w'
bind_blocks m f w w' e = rw (e, ◌>>=◌) refl

waiting : (w : World) (run : Run Status) → run ≡ blocks w → Fails w run
waiting w run e = subst (Fails w) (sym e) waits

Fails-if :
    (w : World) (b : Bool) (x y : M Status)
    → Fails w (x w)
    → Fails w (y w)
    → Fails w ((if b then x else y) w)
Fails-if w true x y fx fy = fx
Fails-if w false x y fx fy = fy

refused : (w : World) (status : Status) → is_ok status ≡ false → Fails w (pure status w)
refused w status e = refuses status (not_ok status e)

module _ (w : World) (locked : w.mu.writer ≡ true) where
  lock_waits : lock w ≡ blocks w
  unfolding lock
  lock_waits = rw locked refl

  r_lock_waits : r_lock w ≡ blocks w
  unfolding r_lock
  r_lock_waits = rw locked refl

  update_waits : (updates : Dict Value) → update updates w ≡ blocks w
  unfolding update
  update_waits updates = bind_blocks lock _ w w lock_waits

  load_from_file_waits :
      (file : Option (Option (Dict Value)))
      → Fails w ((load_from_file file >>= (λ done. pure (status_of internal_server_error done))) w)
  unfolding load_from_file
  load_from_file_waits none = refused w internal_server_error refl
  load_from_file_waits (some none) = refused w internal_server_error refl
  load_from_file_waits (some (some updates)) =
      waiting w _ (bind_blocks (update updates) _ w w (update_waits updates))

  refuses_update :
      (method : String)
      → Fails w (
          (if str_eq method "POST" || str_eq method "PUT"
              then pure bad_request
              else pure method_not_allowed)
            w)
  refuses_update method =
      Fails-if w (str_eq method "POST" || str_eq method "PUT") (pure bad_request)
        (pure method_not_allowed) (refused w bad_request refl) (refused w method_not_allowed refl)

  module _ (duration_string : ℕ → String) where
    handle-Fails : (r : Request) → Fails w (handle duration_string r w)
    unfolding handle to_json
    handle-Fails (get_config method) =
        Fails-if w (str_eq method "GET") (to_json duration_string >> pure status_ok)
          (pure method_not_allowed)
          (waiting w _ (
            bind_blocks (to_json duration_string) (λ entries. pure status_ok) w w
              (bind_blocks r_lock _ w w r_lock_waits)))
          (refused w method_not_allowed refl)
    handle-Fails (update_config method none) = refuses_update method
    handle-Fails (update_config method (some none)) = refuses_update method
    handle-Fails (update_config method (some (some updates))) =
        let answer : Bool → M Status = λ done. pure (status_of bad_request done) in
        Fails-if w (str_eq method "POST" || str_eq method "PUT") (update updates >>= answer)
          (pure method_not_allowed)
          (waiting w _ (bind_blocks (update updates) answer w w (update_waits updates)))
          (refused w method_not_allowed refl)
    handle-Fails (reload_config method path file) =
        let load : M Status =
          load_from_file file >>= (λ done. pure (status_of internal_server_error done)) in
        Fails-if w (str_eq method "POST") (if str_eq path "" then pure bad_request else load)
          (pure method_not_allowed)
          (Fails-if w (str_eq path "") (pure bad_request) load (refused w bad_request refl)
            (load_from_file_waits file))
          (refused w method_not_allowed refl)

abbrev pub NoSuccess : Option Status → Type 0
NoSuccess answer = answer ≢ some status_ok

serve-held :
    (duration_string : ℕ → String) (requests : List Request) (w : World)
    → w.mu.writer ≡ true
    → All NoSuccess (serve duration_string requests w)
unfolding serve
serve-held duration_string [] w locked = tt
serve-held duration_string (r ∷ requests) w locked =
    elim (handle-Fails w locked duration_string r)
      as (λ run fails. All NoSuccess (elim run [
        | returns code w' ↦ some code ∷ serve duration_string requests w'
        | blocks w' ↦ none ∷ serve duration_string requests w'
        | panics w' ↦ none ∷ serve duration_string requests w'
      ])) [
        | waits ↦ (none-ne-some status_ok, serve-held duration_string requests w locked)
        | refuses code bad ↦
            (λ e. bad (some-injective _ _ e), serve-held duration_string requests w locked)
      ]

-- After a request to update the settings, to a server whose lock is free, neither that request nor any
-- later one of any kind succeeds.
pub serve-NoSuccess :
    (duration_string : ℕ → String) (updates : Dict Value) (requests : List Request) (w : World)
    → w.mu ≡ record { writer = false; readers = 0 }
    → All NoSuccess
        (serve duration_string (update_config "POST" (some (some updates)) ∷ requests) w)
unfolding serve handle
serve-NoSuccess duration_string updates requests w free =
    rw (update-blocks updates w free)
      (none-ne-some status_ok, serve-held duration_string requests (held w) refl)
