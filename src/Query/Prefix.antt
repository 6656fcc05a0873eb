-- ===== src/Query/Prefix.antt =====
-- `prefix_upper_bound` of query.rs: a prefix is a range of the scalar order.
use opcda_bridge.Base.{
  ℕ, zero, suc, ◌≤◌, ◌≡◌, refl, ap, Bool, true, false, not, ◌&&◌, ◌||◌, Option, none, some, List,
  [], ◌∷◌, arith, leb, ltb, ◌==◌, length, inl, inr, Option-cases, ◌∙◌,
}
use opcda_bridge.Query.{starts_with, from_u32, next_char, next_at, bound_loop, prefix_upper_bound}

-- A Unicode scalar value, and a text of such.
abbrev pub IsScalar : ℕ → Type 0
IsScalar c = (from_u32 c ≡ some c)

abbrev pub IsText : List ℕ → Type 0
IsText [] = Unit {0}
IsText (c ∷ s) = IsScalar c × IsText s

-- The order by which SQLite compares texts: scalar by scalar.
abbrev pub text_lt : List ℕ → List ℕ → Bool
text_lt s [] = false
text_lt [] (d ∷ t) = true
text_lt (c ∷ s) (d ∷ t) = ltb c d || (c == d && text_lt s t)

-- The bound by recursion from the front.
bound : List ℕ → Option (List ℕ)
bound [] = none
bound (c ∷ s) = elim (bound s) [
  | some u ↦ some (c ∷ u)
  | none ↦ elim (next_char c) [ some n ↦ some (n ∷ []) | none ↦ none ]
]

-- Which texts are in the range of the query, with its bound or without. Without one the query of the
-- source also compares the start of the text with the prefix, which changes nothing then.
abbrev pub in_range : List ℕ → Option (List ℕ) → List ℕ → Bool
in_range p none s = not (text_lt s p)
in_range p (some u) s = not (text_lt s p) && text_lt s u

bound_loop-cons :
    (c : ℕ) (s : List ℕ) (n : ℕ)
    → bound_loop (c ∷ s) (suc n) ≡ elim (bound_loop s n) [
      | some u ↦ some (c ∷ u)
      | none ↦ elim (next_char c) [ some m ↦ some (m ∷ []) | none ↦ none ]
    ]
unfolding bound_loop
bound_loop-cons c s zero = ground arith
bound_loop-cons c s (suc n) = elim (Option-cases (next_at s n)) [
  | inl e ↦ rw (e, bound_loop) (bound_loop-cons c s n)
  | inr (m, e) ↦ rw (e, bound_loop) refl
]

bound-eq-loop : (s : List ℕ) → prefix_upper_bound s ≡ bound s
unfolding prefix_upper_bound bound bound_loop
bound-eq-loop [] = refl
bound-eq-loop (c ∷ s) =
    bound_loop-cons c s (length s)
    ∙ ap
        (λ (r : Option (List ℕ)). elim r [
          | some u ↦ some (c ∷ u)
          | none ↦ elim (next_char c) [ some m ↦ some (m ∷ []) | none ↦ none ]
        ])
        (bound-eq-loop s)

-- Only the largest scalar has no successor.
next_char-none : (c d : ℕ) → IsScalar c → IsScalar d → next_char c ≡ none → d ≤ c
unfolding next_char from_u32
next_char-none c d hc hd e = ground arith

-- No scalar lies between a scalar and its successor.
next_char-some : (c d n : ℕ) → IsScalar c → IsScalar d → next_char c ≡ some n → ltb d n ≡ leb d c
unfolding next_char from_u32
next_char-some c d n hc hd e = ground arith

range-bound : (p s : List ℕ) → IsText p → IsText s → in_range p (bound p) s ≡ starts_with p s
unfolding bound starts_with
range-bound [] [] tp ts = refl
range-bound [] (d ∷ s) tp ts = refl
range-bound (c ∷ p) [] tp ts = ground arith
range-bound (c ∷ p) (d ∷ s) tp ts = elim (Option-cases (next_char c)) [
  | inl e ↦ ground (arith, range-bound p s tp.1 ts.1, next_char-none c d tp.0 ts.0 e)
  | inr (n, e) ↦ ground (arith, range-bound p s tp.1 ts.1, next_char-some c d n tp.0 ts.0 e)
]

-- For every prefix and every text of Unicode scalar values, the text starts with the prefix
-- exactly when the range query accepts it: the text is not below the prefix in the scalar order,
-- and below the bound that `prefix_upper_bound` computes where it computes one.
pub prefix-range :
    (p s : List ℕ) → IsText p → IsText s → in_range p (prefix_upper_bound p) s ≡ starts_with p s
prefix-range p s tp ts = rw (bound-eq-loop p) (range-bound p s tp ts)
