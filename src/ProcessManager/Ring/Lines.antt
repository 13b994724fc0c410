-- ===== src/ProcessManager/Ring/Lines.antt =====
-- The lines of a ring buffer by their index, and the indices that the buffer goes through.
use dotidx.Prelude.{
  All, ℕ, zero, suc, ◌+◌, ◌-◌, ◌%◌, ◌≤◌, ◌<◌, ◌≡◌, ◌≢◌, refl, sym, ap, ◌∙◌, false, List, [], ◌∷◌,
  ◌++◌, ltb, ◌==◌, if◌then◌else◌, length, String, str_eq, arith, Bool-cases, inl, inr, drop,
}
use dotidx.ProcessManager.Ring.{repeat, set_elem, line_at}

pub wrap : (a n : ℕ) → a < n → a % n ≡ a
wrap a n h = grind arith

pub wrap_once : (a n : ℕ) → n ≤ a → a < n + n → a % n ≡ a - n
wrap_once a n h k = grind arith

pub length-set_elem : (xs : List String) (i : ℕ) (x : String) → length (set_elem xs i x) ≡ length xs
unfolding set_elem
length-set_elem [] i x = refl
length-set_elem (y ∷ ys) zero x = refl
length-set_elem (y ∷ ys) (suc i) x = ap suc (length-set_elem ys i x)

pub line_at-set_elem :
    (xs : List String) (i j : ℕ) (x : String)
    → i < length xs
    → line_at (set_elem xs i x) j ≡ (if i == j then x else line_at xs j)
unfolding set_elem
line_at-set_elem [] i j x h = absurd (omega arith)
line_at-set_elem (y ∷ ys) zero zero x h = ground arith
line_at-set_elem (y ∷ ys) zero (suc j) x h = ground arith
line_at-set_elem (y ∷ ys) (suc i) zero x h = ground arith
line_at-set_elem (y ∷ ys) (suc i) (suc j) x h =
    ground (arith, line_at-set_elem ys i j x (omega arith))

pub line_at-append :
    (xs : List String) (x : String) (i : ℕ)
    → line_at (xs ++ x ∷ []) i ≡ (if i == length xs then x else line_at xs i)
line_at-append [] x zero = ground arith
line_at-append [] x (suc i) = ground arith
line_at-append (y ∷ ys) x zero = ground arith
line_at-append (y ∷ ys) x (suc i) = ground (arith, line_at-append ys x i)

pub line_at-repeat : (n : ℕ) (i : ℕ) → line_at (repeat n "") i ≡ ""
line_at-repeat zero i = refl
line_at-repeat (suc n) zero = refl
line_at-repeat (suc n) (suc i) = line_at-repeat n i

pub length-repeat : (n : ℕ) → length (repeat n "") ≡ n
length-repeat zero = refl
length-repeat (suc n) = ap suc (length-repeat n)

pub drop-line_at :
    (xs : List String) (i : ℕ) → i < length xs → drop i xs ≡ line_at xs i ∷ drop (suc i) xs
drop-line_at [] i h = absurd (omega arith)
drop-line_at (x ∷ xs) zero h = refl
drop-line_at (x ∷ xs) (suc i) h = drop-line_at xs i (omega arith)

pub drop-all : (xs : List String) (i : ℕ) → length xs ≤ i → drop i xs ≡ []
drop-all [] zero h = refl
drop-all [] (suc i) h = refl
drop-all (x ∷ xs) zero h = absurd (omega arith)
drop-all (x ∷ xs) (suc i) h = drop-all xs i (omega arith)

pub line_at-All :
    (xs : List String) (i : ℕ)
    → i < length xs
    → All (λ line. str_eq line "" ≡ false) xs
    → str_eq (line_at xs i) "" ≡ false
line_at-All [] i h a = absurd (omega arith)
line_at-All (x ∷ xs) zero h a = a.0
line_at-All (x ∷ xs) (suc i) h a = line_at-All xs i (omega arith) a.1

pub next_index :
    (p size j : ℕ)
    → p < size
    → suc j ≤ size
    → ((p + 1) % size + size - suc j) % size ≡ (p + size - j) % size
next_index p size j h l = elim (Bool-cases (ltb (p + 1) size)) [
  | inl e ↦
      let q : (p + 1) % size ≡ p + 1 = wrap (p + 1) size (ground arith) in
      let d : p + 1 + size - suc j ≡ p + size - j = omega arith in rw (q, d) refl
  | inr e ↦
      let q : (p + 1) % size ≡ 0 =
        wrap_once (p + 1) size (ground arith) (omega arith) ∙ ground arith in
      rw q (
        wrap (0 + size - suc j) size (omega arith)
        ∙ sym (wrap_once (p + size - j) size (ground arith) (omega arith) ∙ ground arith))
]

pub same_index : (p size : ℕ) → p < size → (p + size - 0) % size ≡ p
same_index p size h = wrap_once (p + size - 0) size (omega arith) (omega arith) ∙ omega arith

pub other_index : (p size j : ℕ) → p < size → 0 < j → j < size → (p + size - j) % size ≢ p
other_index p size j h a b e = elim (Bool-cases (ltb (p + size - j) size)) [
  | inl q ↦
      let near : p + size - j < size = ground arith in
      absurd (omega (arith, wrap (p + size - j) size near, e))
  | inr q ↦
      let far : size ≤ p + size - j = ground arith in
      absurd (omega (arith, wrap_once (p + size - j) size far (omega arith), e))
]

pub wrapped : (a n : ℕ) → 0 < n → a % n < n
wrapped a n h = grind arith
