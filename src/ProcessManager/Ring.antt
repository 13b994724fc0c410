-- ===== src/ProcessManager/Ring.antt =====
-- cmd/dixmgr/process_manager_direct.go: `RingBuffer`, the last lines of a process's output. A number of
-- lines to get is not negative.
pub mod Lines
pub mod History
use mathlib.Core.List.{append_assoc, append-nil}
use dotidx.Prelude.{
  All, subst, ℕ, zero, suc, ◌+◌, ◌-◌, ◌%◌, ◌≤◌, ◌<◌, ◌≡◌, ◌≢◌, refl, sym, ap, ◌∙◌, Bool, true,
  false, Option, none, some, List, [], ◌∷◌, ◌++◌, ltb, leb, ◌==◌, if◌then◌else◌, length, get_elem?,
  String, str_eq, arith, min, Bool-cases, inl, inr, length-append, drop, take,
}

pub record RingBuffer : Type 0 where
  pub lines : List String
  pub size : ℕ
  pub position : ℕ

abbrev pub repeat : ℕ → String → List String
repeat zero line = []
repeat (suc n) line = line ∷ repeat n line

unfoldable pub new_ring_buffer : ℕ → RingBuffer
new_ring_buffer size = record { lines = repeat size ""; size = size; position = 0 }

-- xs[i] = x
unfoldable pub set_elem : List String → ℕ → String → List String
set_elem [] i x = []
set_elem (y ∷ ys) zero x = x ∷ ys
set_elem (y ∷ ys) (suc i) x = y ∷ set_elem ys i x

-- `none` is the panic of an index out of range, or of a remainder by 0.
unfoldable pub add : String → RingBuffer → Option RingBuffer
unfolding set_elem
add line rb =
    if ltb rb.position (length rb.lines)
    then some (record rb {
      lines = set_elem rb.lines rb.position line;
      position = (rb.position + 1) % rb.size;
    })
    else none

abbrev pub line_at : List String → ℕ → String
line_at lines i = elim (get_elem? lines i) [ none ↦ "" | some line ↦ line ]

-- The loop of `GetLines`, `k` rounds that end with the index before `position`.
unfoldable pub collect : RingBuffer → ℕ → List String
collect rb zero = []
collect rb (suc k) =
    let rest = collect rb k in
    let line = line_at rb.lines ((rb.position + rb.size - suc k) % rb.size) in
    if str_eq line "" then rest else line ∷ rest

unfoldable pub get_lines : ℕ → RingBuffer → List String
unfolding collect
get_lines n rb = collect rb (min n rb.size)
