-- ===== src/Metrics/Percentile.antt =====
-- dix/metrics.go: averages and percentiles of a list of durations.
use dotidx.Prelude.{
  ℕ, zero, suc, ◌*◌, ◌/◌, ◌≤◌, ◌<◌, ◌≡◌, refl, List, [], ◌∷◌, leb, leb→le, length, get_elem?, All,
  arith, Bool-cases, inl, inr, some, subst,
}
use dotidx.Metrics.{
  insert_sorted, sort, percentile_index, calculate_percentile, total_of, calculate_average_duration,
}

-- Each element is at most the later ones.
abbrev pub IsSorted : List ℕ → Type 0
IsSorted [] = Unit
IsSorted (x ∷ xs) = All (λ y. x ≤ y) xs × IsSorted xs

length-insert_sorted : (d : ℕ) (xs : List ℕ) → length (insert_sorted d xs) ≡ suc (length xs)
unfolding insert_sorted
length-insert_sorted d [] = refl
length-insert_sorted d (x ∷ xs) = ground (arith, length-insert_sorted d xs)

length-sort : (xs : List ℕ) → length (sort xs) ≡ length xs
unfolding sort
length-sort [] = refl
length-sort (x ∷ xs) = omega (arith, length-insert_sorted x (sort xs), length-sort xs)

insert_sorted-All :
    (P : ℕ → Type 0) (d : ℕ) (xs : List ℕ) → P d → All P xs → All P (insert_sorted d xs)
unfolding insert_sorted
insert_sorted-All P d [] p ps = (p, tt)
insert_sorted-All P d (x ∷ xs) p ps = elim (Bool-cases (leb d x)) [
  | inl e ↦ rw e (p, ps)
  | inr e ↦ rw e (ps.0, insert_sorted-All P d xs p ps.1)
]

sort-All : (P : ℕ → Type 0) (xs : List ℕ) → All P xs → All P (sort xs)
unfolding sort
sort-All P [] ps = tt
sort-All P (x ∷ xs) ps = insert_sorted-All P x (sort xs) ps.0 (sort-All P xs ps.1)

All-le : (d x : ℕ) (xs : List ℕ) → d ≤ x → All (λ y. x ≤ y) xs → All (λ y. d ≤ y) xs
All-le d x [] h ps = tt
All-le d x (y ∷ xs) h ps = (omega arith, All-le d x xs h ps.1)

insert_sorted-IsSorted : (d : ℕ) (xs : List ℕ) → IsSorted xs → IsSorted (insert_sorted d xs)
unfolding insert_sorted
insert_sorted-IsSorted d [] s = (tt, tt)
insert_sorted-IsSorted d (x ∷ xs) s = elim (Bool-cases (leb d x)) [
  | inl e ↦ rw e ((leb→le d x e, All-le d x xs (leb→le d x e) s.0), s)
  | inr e ↦
      rw e (insert_sorted-All (λ y. x ≤ y) d xs (ground arith) s.0, insert_sorted-IsSorted d xs s.1)
]

pub sort-IsSorted : (xs : List ℕ) → IsSorted (sort xs)
unfolding sort
sort-IsSorted [] = tt
sort-IsSorted (x ∷ xs) = insert_sorted-IsSorted x (sort xs) (sort-IsSorted xs)

get_elem?-All :
    (P : ℕ → Type 0) (xs : List ℕ) (i : ℕ)
    → i < length xs
    → All P xs
    → (x : ℕ) × (get_elem? xs i ≡ some x) × P x
get_elem?-All P [] i h ps = elim h [ ]
get_elem?-All P (x ∷ xs) zero h ps = (x, refl, ps.0)
get_elem?-All P (x ∷ xs) (suc i) h ps = get_elem?-All P xs i (omega arith) ps.1

All-at : (P : ℕ → Type 0) (xs : List ℕ) (i x : ℕ) → All P xs → get_elem? xs i ≡ some x → P x
All-at P [] i x ps e = absurd (ground arith)
All-at P (y ∷ xs) zero x ps e = let q : y ≡ x = ground arith in subst P q ps.0
All-at P (y ∷ xs) (suc i) x ps e = All-at P xs i x ps.1 e

-- In a sorted list a later index has the greater element.
get_elem?-mono :
    (xs : List ℕ) (i j x y : ℕ)
    → IsSorted xs
    → i ≤ j
    → get_elem? xs i ≡ some x
    → get_elem? xs j ≡ some y
    → x ≤ y
get_elem?-mono [] i j x y s h e f = absurd (ground arith)
get_elem?-mono (z ∷ xs) zero zero x y s h e f = ground arith
get_elem?-mono (z ∷ xs) zero (suc j) x y s h e f =
    let q : z ≡ x = ground arith in omega (arith, q, All-at (λ y. z ≤ y) xs j y s.0 f)
get_elem?-mono (z ∷ xs) (suc i) zero x y s h e f = absurd (omega arith)
get_elem?-mono (z ∷ xs) (suc i) (suc j) x y s h e f =
    get_elem?-mono xs i j x y s.1 (omega arith) e f

percentile_index-lt : (n percentile : ℕ) → 0 < n → percentile_index n percentile < n
unfolding percentile_index
percentile_index-lt n percentile h = ground arith

mul_mono : (n p q : ℕ) → p ≤ q → n * p ≤ n * q
mul_mono n p q h = grind arith

percentile_index_mono : (n p q : ℕ) → p ≤ q → percentile_index n p ≤ percentile_index n q
unfolding percentile_index
percentile_index_mono n p q h = ground (arith, mul_mono n p q h)

at_index :
    (P : ℕ → Type 0) (durations : List ℕ) (percentile : ℕ)
    → 0 < length durations
    → All P durations
    → (x : ℕ) × (calculate_percentile durations percentile ≡ some x) × P x
unfolding calculate_percentile
at_index P durations percentile h ps =
    let (x, e, p) =
      get_elem?-All P (sort durations) (percentile_index (length durations) percentile)
        (omega (arith, length-sort durations, percentile_index-lt (length durations) percentile h))
        (sort-All P durations ps) in
    (x, ground arith, p)

opened :
    (durations : List ℕ) (r z : ℕ)
    → 0 < length durations
    → calculate_percentile durations r ≡ some z
    → get_elem? (sort durations) (percentile_index (length durations) r) ≡ some z
unfolding calculate_percentile
opened durations r z h e = ground arith

-- A percentile of a list that is not empty is never out of the list's bounds, whatever the number
-- asked for; it has every property that all the durations have; and a higher percentile is not a
-- smaller duration.
calculate_percentile_lem :
    (P : ℕ → Type 0) (durations : List ℕ) (p q : ℕ)
    → 0 < length durations
    → All P durations
    → p ≤ q
    → (x : ℕ) × (y : ℕ) × (calculate_percentile durations p ≡ some x)
      × (calculate_percentile durations q ≡ some y)
      × P x
      × P y
      × (x ≤ y)
calculate_percentile_lem P durations p q h ps k =
    let (x, e, px) = at_index P durations p h ps in
    let (y, f, py) = at_index P durations q h ps in (x, y, e, f, px, py, in_order x y e f)
  where
    in_order :
        (x y : ℕ)
        → calculate_percentile durations p ≡ some x
        → calculate_percentile durations q ≡ some y
        → x ≤ y
    in_order x y e f =
        get_elem?-mono (sort durations) (percentile_index (length durations) p)
          (percentile_index (length durations) q) x y (sort-IsSorted durations)
          (percentile_index_mono (length durations) p q k) (opened durations p x h e)
          (opened durations q y h f)

total_bounds :
    (lo hi : ℕ) (durations : List ℕ)
    → All (λ d. lo ≤ d) durations
    → All (λ d. d ≤ hi) durations
    → (lo * length durations ≤ total_of durations) × (total_of durations ≤ hi * length durations)
unfolding total_of
total_bounds lo hi [] ls hs = (omega arith, omega arith)
total_bounds lo hi (d ∷ durations) ls hs =
    let (l, h) = total_bounds lo hi durations ls.1 hs.1 in (grind arith, grind arith)

div_bounds : (lo hi n t : ℕ) → 0 < n → lo * n ≤ t → t ≤ hi * n → (lo ≤ t / n) × (t / n ≤ hi)
div_bounds lo hi n t p l h = (grind arith, grind arith)

-- The average of durations that are not none lies between any bounds of them.
calculate_average_duration_bounds :
    (lo hi : ℕ) (durations : List ℕ)
    → 0 < length durations
    → All (λ d. lo ≤ d) durations
    → All (λ d. d ≤ hi) durations
    → (lo ≤ calculate_average_duration durations) × (calculate_average_duration durations ≤ hi)
unfolding calculate_average_duration
calculate_average_duration_bounds lo hi durations p ls hs =
    let (l, h) = total_bounds lo hi durations ls hs in
    let (l', h') = div_bounds lo hi (length durations) (total_of durations) p l h in ground arith
