-- ===== src/ProcessManager/Ring/History.antt =====
-- cmd/dixmgr/process_manager_direct.go: `RingBuffer` against the list of all lines written to it.
use mathlib.Core.List.{append_assoc, append-nil}
use dotidx.Prelude.{
  All, subst, ℕ, zero, suc, ◌+◌, ◌-◌, ◌%◌, ◌≤◌, ◌<◌, ◌≡◌, refl, sym, ap, ◌∙◌, false, Option, none,
  some, List, [], ◌∷◌, ◌++◌, leb, ◌==◌, if◌then◌else◌, length, String, str_eq, arith, min,
  Bool-cases, inl, inr, length-append, drop,
}
use dotidx.ProcessManager.Ring.{
  RingBuffer, new_ring_buffer, set_elem, add, line_at, collect, get_lines,
}
use dotidx.ProcessManager.Ring.Lines.{
  length-set_elem, line_at-set_elem, line_at-append, line_at-repeat, length-repeat, drop-line_at,
  drop-all, line_at-All, next_index, same_index, other_index, wrapped,
}

-- The line that was added as the last but `k - 1`, if there were so many.
abbrev from_end : List String → ℕ → String
from_end history k = if leb k (length history) then line_at history (length history - k) else ""

from_end-append :
    (history : List String) (line : String) (k : ℕ)
    → from_end (history ++ line ∷ []) (suc k) ≡ (if k == 0 then line else from_end history k)
from_end-append history line k = ground (
  arith,
  length-append history (line ∷ []),
  line_at-append history line (length history + 1 - suc k),
)

-- The buffer after the lines of a history.
pub record Tracks (history : List String) (rb : RingBuffer) : Type 0 where
  full : length rb.lines ≡ rb.size
  inside : rb.position < rb.size
  kept :
      (k : ℕ)
      → 0 < k
      → k ≤ rb.size
      → line_at rb.lines ((rb.position + rb.size - k) % rb.size) ≡ from_end history k

new_ring_buffer-Tracks : (size : ℕ) → 0 < size → Tracks [] (new_ring_buffer size)
unfolding new_ring_buffer
new_ring_buffer-Tracks size p = record {
  full = length-repeat size;
  inside = p;
  kept = λ k h l. line_at-repeat size _ ∙ ground arith;
}

kept_after :
    (history : List String) (line : String) (rb : RingBuffer)
    → Tracks history rb
    → (j : ℕ) → suc j ≤ rb.size
    → line_at (set_elem rb.lines rb.position line) ((rb.position + rb.size - j) % rb.size)
      ≡ from_end (history ++ line ∷ []) (suc j)
kept_after history line rb t zero l =
    line_at-set_elem rb.lines rb.position _ line (omega (arith, t.full, t.inside))
    ∙ ground (arith, same_index rb.position rb.size t.inside, from_end-append history line 0)
kept_after history line rb t (suc j) l =
    line_at-set_elem rb.lines rb.position _ line (omega (arith, t.full, t.inside))
    ∙ ground (
      arith,
      other_index rb.position rb.size (suc j) t.inside (omega arith) (omega arith),
      from_end-append history line (suc j),
      t.kept (suc j) (omega arith) (omega arith),
    )

kept_all :
    (history : List String) (line : String) (rb : RingBuffer)
    → Tracks history rb
    → (k : ℕ) → 0 < k
    → k ≤ rb.size
    → line_at
        (set_elem rb.lines rb.position line)
        (((rb.position + 1) % rb.size + rb.size - k) % rb.size)
      ≡ from_end (history ++ line ∷ []) k
kept_all history line rb t zero h l = absurd (omega arith)
kept_all history line rb t (suc j) h l =
    ap (line_at (set_elem rb.lines rb.position line)) (next_index rb.position rb.size j t.inside l)
    ∙ kept_after history line rb t j l

add-Tracks :
    (history : List String) (line : String) (rb : RingBuffer)
    → Tracks history rb
    → (rb' : RingBuffer) × (add line rb ≡ some rb')
      × Tracks (history ++ line ∷ []) rb'
      × (rb'.size ≡ rb.size)
unfolding add
add-Tracks history line rb t =
    let rb' : RingBuffer = record rb {
      lines = set_elem rb.lines rb.position line;
      position = (rb.position + 1) % rb.size;
    } in
    (
      rb',
      ground (arith, t.full, t.inside),
      record {
        full = length-set_elem rb.lines rb.position line ∙ t.full;
        inside = wrapped (rb.position + 1) rb.size (omega (arith, t.inside));
        kept = λ k. kept_all history line rb t k;
      },
      refl,
    )

-- The lines of a history added one after another.
unfoldable pub add_all : List String → RingBuffer → Option RingBuffer
add_all [] rb = some rb
add_all (line ∷ lines) rb = elim (add line rb) [ none ↦ none | some rb' ↦ add_all lines rb' ]

add_all-Tracks :
    (history lines : List String) (rb : RingBuffer)
    → Tracks history rb
    → (rb' : RingBuffer) × (add_all lines rb ≡ some rb')
      × Tracks (history ++ lines) rb'
      × (rb'.size ≡ rb.size)
unfolding add_all
add_all-Tracks history [] rb t =
    (rb, refl, subst (λ h. Tracks h rb) (sym (append-nil history)) t, refl)
add_all-Tracks history (line ∷ lines) rb t =
    let (rb', e, t', z) = add-Tracks history line rb t in
    let (rb'', e', t'', z') = add_all-Tracks (history ++ line ∷ []) lines rb' t' in
    (
      rb'',
      rw (e, add_all) e',
      subst (λ h. Tracks h rb'') (append_assoc history (line ∷ []) lines) t'',
      z' ∙ z,
    )

collect-drop :
    (history : List String) (rb : RingBuffer)
    → Tracks history rb
    → All (λ line. str_eq line "" ≡ false) history
    → (k : ℕ) → k ≤ rb.size
    → collect rb k ≡ drop (length history - k) history
unfolding collect
collect-drop history rb t a zero l = sym (drop-all history (length history - 0) (omega arith))
collect-drop history rb t a (suc k) l =
    let ih = collect-drop history rb t a k (omega arith) in
    elim (Bool-cases (leb (suc k) (length history))) [
      | inl e ↦
          let i : length history - suc k < length history = ground arith in
          let w : suc (length history - suc k) ≡ length history - k = ground arith in
          let line = t.kept (suc k) (omega arith) l in
          let v : line_at rb.lines ((rb.position + rb.size - suc k) % rb.size)
              ≡ line_at history (length history - suc k) =
            line ∙ rw e refl in
          let f = line_at-All history _ i a in
          rw (v, f)
            (ap (◌∷◌ (line_at history (length history - suc k))) ih
              ∙ sym (drop-line_at history _ i ∙ rw w refl))
      | inr e ↦
          let line = t.kept (suc k) (omega arith) l in
          let v : line_at rb.lines ((rb.position + rb.size - suc k) % rb.size) ≡ "" =
            line ∙ rw e refl in
          let w : length history - suc k ≡ length history - k = ground arith in rw (v, w) ih
    ]

-- After any lines, none of them empty, are written to a new buffer that has room for one or more, no
-- write panics and the last `n` lines are read back in their order: as many as were written, and no
-- more than the size of the buffer.
pub get_lines-add_all :
    (size n : ℕ) (lines : List String)
    → 0 < size
    → All (λ line. str_eq line "" ≡ false) lines
    → (rb : RingBuffer) × (add_all lines (new_ring_buffer size) ≡ some rb)
      × (get_lines n rb ≡ drop (length lines - min n size) lines)
unfolding get_lines new_ring_buffer
get_lines-add_all size n lines p a =
    let (rb, e, t, z) =
      add_all-Tracks [] lines (new_ring_buffer size) (new_ring_buffer-Tracks size p) in
    (
      rb,
      e,
      let same : rb.size ≡ size = z in
          rw same (collect-drop lines rb t a (min n size) (omega (arith, same))),
    )
