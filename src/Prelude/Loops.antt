-- ===== src/Prelude/Loops.antt =====
-- Loops that run over a range of numbers or over a list, as functions of the state that they change.
use Prim.Native.Nat.{ℕ, zero, suc, ◌+◌, ◌-◌, ◌≤◌, ◌<◌}
use mathlib.Core.Path.{◌≡◌, refl, ap, ◌∙◌}
use mathlib.Core.Logic.{◌⊎◌, inl, inr}
use mathlib.Core.List.{List, [], ◌∷◌}
use native.Mathlib.Omega.{arith}
use dotidx.Prelude.Lists.{All}

module _ {ℓ} {S : Type ℓ} where
  unfoldable pub for_rounds : ℕ → ℕ → (ℕ → S → S) → S → S
  for_rounds zero i body s = s
  for_rounds (suc n) i body s = for_rounds n (suc i) body (body i s)

  -- `for i := first; i <= last; i++`
  abbrev pub for_range : ℕ → ℕ → (ℕ → S → S) → S → S
  for_range first last body s = for_rounds (suc last - first) first body s

  -- What each round keeps, the loop keeps.
  pub for_rounds-keeps {κ} :
      (P : S → Type κ) (body : ℕ → S → S)
      → ((i : ℕ) (s : S) → P s → P (body i s))
      → (n i : ℕ) (s : S) → P s
      → P (for_rounds n i body s)
  unfolding for_rounds
  for_rounds-keeps P body keep zero i s h = h
  for_rounds-keeps P body keep (suc n) i s h =
      for_rounds-keeps P body keep n (suc i) (body i s) (keep i s h)

  -- What one round sets and each round keeps holds after the loop.
  pub for_rounds-sets {κ} :
      (P : S → Type κ) (body : ℕ → S → S)
      → ((i : ℕ) (s : S) → P s → P (body i s))
      → (k : ℕ) → ((s : S) → P (body k s))
      → (n i : ℕ) → i ≤ k
      → k < i + n
      → (s : S) → P (for_rounds n i body s)
  unfolding for_rounds
  for_rounds-sets P body keep k sets zero i low high s = absurd (omega arith)
  for_rounds-sets P body keep k sets (suc n) i low high s =
      let split : (i ≡ k) ⊎ (suc i ≤ k) = i-or-later low in
      elim split [
        | inl e ↦ for_rounds-keeps P body keep n (suc i) (body i s) (rw e (sets s))
        | inr later ↦ for_rounds-sets P body keep k sets n (suc i) later (omega arith) (body i s)
      ]
    where
      i-or-later : i ≤ k → (i ≡ k) ⊎ (suc i ≤ k)
      i-or-later h = ground arith

  -- Rounds that do the same.
  pub for_rounds-ext :
      (body body' : ℕ → S → S) (n i : ℕ)
      → ((j : ℕ) (s : S) → i ≤ j → j < i + n → body j s ≡ body' j s)
      → (s : S) → for_rounds n i body s ≡ for_rounds n i body' s
  unfolding for_rounds
  for_rounds-ext body body' zero i same s = refl
  for_rounds-ext body body' (suc n) i same s =
      ap (for_rounds n (suc i) body) (same i s (omega arith) (omega arith))
      ∙ for_rounds-ext body body' n (suc i) (λ j s' low high. same j s' (omega arith) (omega arith))
          (body' i s)

  -- A state that every round leaves as it is.
  pub for_rounds-fixed :
      (body : ℕ → S → S) (n i : ℕ) (s : S)
      → ((j : ℕ) → i ≤ j → j < i + n → body j s ≡ s)
      → for_rounds n i body s ≡ s
  unfolding for_rounds
  for_rounds-fixed body zero i s fixed = refl
  for_rounds-fixed body (suc n) i s fixed =
      ap (for_rounds n (suc i) body) (fixed i (omega arith) (omega arith))
      ∙ for_rounds-fixed body n (suc i) s (λ j low high. fixed j (omega arith) (omega arith))

  pub for_rounds-append :
      (body : ℕ → S → S) (n m i : ℕ) (s : S)
      → for_rounds (n + m) i body s ≡ for_rounds m (i + n) body (for_rounds n i body s)
  unfolding for_rounds
  for_rounds-append body zero m i s =
      let rounds : zero + m ≡ m = omega arith in
      let first : i ≡ i + zero = omega arith in
      ap (λ n. for_rounds n i body s) rounds ∙ ap (λ j. for_rounds m j body s) first
  for_rounds-append body (suc n) m i s =
      let rounds : suc n + m ≡ suc (n + m) = omega arith in
      let first : suc i + n ≡ i + suc n = omega arith in
      let done = for_rounds n (suc i) body (body i s) in
      ap (λ k. for_rounds k i body s) rounds
      ∙ for_rounds-append body n m (suc i) (body i s)
      ∙ ap (λ j. for_rounds m j body done) first

module _ {ℓ κ} {A : Type ℓ} {S : Type κ} where
  -- `for _, x := range xs`
  unfoldable pub for_each : (A → S → S) → List A → S → S
  for_each body [] s = s
  for_each body (x ∷ xs) s = for_each body xs (body x s)

  pub for_each-keeps {ι} :
      (P : S → Type ι) (body : A → S → S)
      → ((a : A) (s : S) → P s → P (body a s))
      → (xs : List A) (s : S) → P s
      → P (for_each body xs s)
  unfolding for_each
  for_each-keeps P body keep [] s h = h
  for_each-keeps P body keep (x ∷ xs) s h = for_each-keeps P body keep xs (body x s) (keep x s h)

  -- What the round of an element sets and each round keeps holds of all elements after the loop.
  pub for_each-sets {ι} :
      (P : A → S → Type ι) (body : A → S → S)
      → ((a b : A) (s : S) → P a s → P a (body b s))
      → (xs : List A) → All (λ a. (s : S) → P a (body a s)) xs
      → (s : S) → All (λ a. P a (for_each body xs s)) xs
  unfolding for_each
  for_each-sets P body keep [] sets s = tt
  for_each-sets P body keep (x ∷ xs) sets s = (
    for_each-keeps (P x) body (keep x) xs (body x s) (sets.0 s),
    for_each-sets P body keep xs sets.1 (body x s),
  )

  pub for_each-ext :
      (body body' : A → S → S)
      → ((a : A) (s : S) → body a s ≡ body' a s)
      → (xs : List A) (s : S) → for_each body xs s ≡ for_each body' xs s
  unfolding for_each
  for_each-ext body body' same [] s = refl
  for_each-ext body body' same (x ∷ xs) s =
      ap (for_each body xs) (same x s) ∙ for_each-ext body body' same xs (body' x s)

  -- A state that every round leaves as it is.
  pub for_each-fixed :
      (body : A → S → S) (xs : List A) (s : S) → All (λ a. body a s ≡ s) xs → for_each body xs s ≡ s
  unfolding for_each
  for_each-fixed body [] s fixed = refl
  for_each-fixed body (x ∷ xs) s fixed =
      ap (for_each body xs) fixed.0 ∙ for_each-fixed body xs s fixed.1
