-- ===== src/Index/Metrics/Percentile.antt =====
-- The percentiles of a window of latencies.
use opcda_bridge.Base.{
  ℕ, zero, suc, ◌+◌, ◌*◌, ◌≤◌, ◌<◌, ◌≡◌, refl, subst, ◌∙◌, some, List, [], ◌∷◌, arith, ltb, leb,
  if◌then◌else◌, length, Bool-cases, inl, inr,
}
use opcda_bridge.Index.Metrics.{get_elem?, place, sort, rank_index, percentile}

-- How many values are at most, and how many are below the given one.
unfoldable pub count_le : ℕ → List ℕ → ℕ
count_le v [] = 0
count_le v (x ∷ xs) = (if leb x v then 1 else 0) + count_le v xs

unfoldable pub count_lt : ℕ → List ℕ → ℕ
count_lt v [] = 0
count_lt v (x ∷ xs) = (if ltb x v then 1 else 0) + count_lt v xs

abbrev IsBelowAll : ℕ → List ℕ → Type 0
IsBelowAll v [] = Unit {0}
IsBelowAll v (x ∷ xs) = (v ≤ x) × IsBelowAll v xs

abbrev IsSorted : List ℕ → Type 0
IsSorted [] = Unit {0}
IsSorted (x ∷ xs) = IsBelowAll x xs × IsSorted xs

count_le-place : (v x : ℕ) (xs : List ℕ) → count_le v (place x xs) ≡ count_le v (x ∷ xs)
unfolding count_le place
count_le-place v x [] = refl
count_le-place v x (y ∷ xs) = ground (arith, count_le-place v x xs)

count_lt-place : (v x : ℕ) (xs : List ℕ) → count_lt v (place x xs) ≡ count_lt v (x ∷ xs)
unfolding count_lt place
count_lt-place v x [] = refl
count_lt-place v x (y ∷ xs) = ground (arith, count_lt-place v x xs)

count_le-sort : (v : ℕ) (xs : List ℕ) → count_le v (sort xs) ≡ count_le v xs
unfolding count_le sort
count_le-sort v [] = refl
count_le-sort v (x ∷ xs) = ground (arith, count_le-place v x (sort xs), count_le-sort v xs)

count_lt-sort : (v : ℕ) (xs : List ℕ) → count_lt v (sort xs) ≡ count_lt v xs
unfolding count_lt sort
count_lt-sort v [] = refl
count_lt-sort v (x ∷ xs) = ground (arith, count_lt-place v x (sort xs), count_lt-sort v xs)

length-place : (x : ℕ) (xs : List ℕ) → length (place x xs) ≡ length xs + 1
unfolding place
length-place x [] = omega arith
length-place x (y ∷ xs) = ground (arith, length-place x xs)

length-sort : (xs : List ℕ) → length (sort xs) ≡ length xs
unfolding sort
length-sort [] = refl
length-sort (x ∷ xs) = ground (arith, length-place x (sort xs), length-sort xs)

IsBelowAll-le : (v w : ℕ) (xs : List ℕ) → v ≤ w → IsBelowAll w xs → IsBelowAll v xs
IsBelowAll-le v w [] h b = tt
IsBelowAll-le v w (x ∷ xs) h b = (omega arith, IsBelowAll-le v w xs h b.1)

place-IsBelowAll : (v x : ℕ) (xs : List ℕ) → v ≤ x → IsBelowAll v xs → IsBelowAll v (place x xs)
unfolding place
place-IsBelowAll v x [] h b = (h, tt)
place-IsBelowAll v x (y ∷ xs) h b = ground (arith, place-IsBelowAll v x xs h b.1)

place-IsSorted : (x : ℕ) (xs : List ℕ) → IsSorted xs → IsSorted (place x xs)
unfolding place
place-IsSorted x [] s = (tt, tt)
place-IsSorted x (y ∷ xs) s = elim (Bool-cases (leb x y)) [
  | inl e ↦ rw e ((ground arith, IsBelowAll-le x y xs (ground arith) s.0), s)
  | inr e ↦ rw e (place-IsBelowAll y x xs (ground arith) s.0, place-IsSorted x xs s.1)
]

sort-IsSorted : (xs : List ℕ) → IsSorted (sort xs)
unfolding sort
sort-IsSorted [] = tt
sort-IsSorted (x ∷ xs) = place-IsSorted x (sort xs) (sort-IsSorted xs)

get-below : (v w i : ℕ) (xs : List ℕ) → IsBelowAll w xs → get_elem? xs i ≡ some v → w ≤ v
unfolding get_elem?
get-below v w i [] b e = absurd (ground arith)
get-below v w zero (x ∷ xs) b e = ground arith
get-below v w (suc i) (x ∷ xs) b e = get-below v w i xs b.1 e

count_lt-below : (v : ℕ) (xs : List ℕ) → IsBelowAll v xs → count_lt v xs ≡ 0
unfolding count_lt
count_lt-below v [] b = refl
count_lt-below v (x ∷ xs) b = ground (arith, count_lt-below v xs b.1)

-- In a sorted list, the value at an index has that many values below it at most, and more than
-- that many at most it.
get-counts :
    (v i : ℕ) (xs : List ℕ)
    → IsSorted xs
    → get_elem? xs i ≡ some v
    → (i < count_le v xs) × (count_lt v xs ≤ i)
unfolding get_elem? count_le count_lt
get-counts v i [] s e = absurd (ground arith)
get-counts v zero (x ∷ xs) s e =
    let same : x ≡ v = ground arith in
    ground (arith, count_lt-below v xs (subst (λ y. IsBelowAll y xs) same s.0))
get-counts v (suc i) (x ∷ xs) s e =
    let rest = get-counts v i xs s.1 e in ground (arith, get-below v x i xs s.0 e)

get-some : (i : ℕ) (xs : List ℕ) → i < length xs → (v : ℕ) × (get_elem? xs i ≡ some v)
unfolding get_elem?
get-some i [] h = absurd (omega arith)
get-some zero (x ∷ xs) h = (x, refl)
get-some (suc i) (x ∷ xs) h = get-some i xs (omega arith)

percentile-index :
    (xs : List ℕ) (p : ℕ)
    → 0 < length xs
    → percentile xs p ≡ get_elem? xs (rank_index (length xs) p)
unfolding percentile
percentile-index [] p h = absurd (omega arith)
percentile-index (x ∷ xs) p h = refl

rank_index-lt : (n p : ℕ) → 0 < n → rank_index n p < n
unfolding rank_index
rank_index-lt n p h = omega arith

rank_bounds :
    (n p i k : ℕ)
    → 0 < n
    → 1 ≤ p
    → p ≤ 100
    → rank_index n p < k
    → i ≤ rank_index n p
    → (n * p ≤ 100 * k) × (100 * i < n * p)
unfolding rank_index
rank_bounds n p i k h l u a b =
    let t : ℕ = n * p in
    let low : 1 ≤ n * p = grind arith in let high : n * p ≤ n * 100 = grind arith in omega arith

-- The least value that at least `p` percent of the values are at most.
pub record IsRank (p v : ℕ) (xs : List ℕ) : Type 0 where
  pub enough : length xs * p ≤ 100 * count_le v xs
  pub least : 100 * count_lt v xs < length xs * p

pub percentile-IsRank :
    (xs : List ℕ) (p : ℕ)
    → 0 < length xs
    → 1 ≤ p
    → p ≤ 100
    → (v : ℕ) × (percentile (sort xs) p ≡ some v) × IsRank p v xs
percentile-IsRank xs p h l u =
    let n = length-sort xs in
    let i = rank_index (length (sort xs)) p in
    let (v, e) = get-some i (sort xs) (rank_index-lt (length (sort xs)) p (omega (arith, n))) in
    let c = get-counts v i (sort xs) (sort-IsSorted xs) e in
    let b =
      rank_bounds (length (sort xs)) p (count_lt v (sort xs)) (count_le v (sort xs))
        (omega (arith, n)) l u c.0 c.1 in
    (
      v,
      percentile-index (sort xs) p (omega (arith, n)) ∙ e,
      record {
        enough =
            subst (λ k. k * p ≤ 100 * count_le v xs) n
              (subst (λ k. length (sort xs) * p ≤ 100 * k) (count_le-sort v xs) b.0);
        least =
            subst (λ k. 100 * count_lt v xs < k * p) n
              (subst (λ k. 100 * k < length (sort xs) * p) (count_lt-sort v xs) b.1);
      },
    )
