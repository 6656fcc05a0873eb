-- ===== src/Query/Rank.antt =====
-- `search_rank` of query.rs: what each tier says of the texts.
use opcda_bridge.Base.{ℕ, ◌≤◌, ◌≡◌, refl, true, ◌||◌, List, [], ◌∷◌, arith, leb, ◌==◌}
use opcda_bridge.Query.{starts_with, text_contains, text_eq, search_rank}

text_eq-starts_with : (s q : List ℕ) → text_eq s q ≡ true → starts_with q s ≡ true
unfolding text_eq starts_with
text_eq-starts_with [] [] e = refl
text_eq-starts_with [] (c ∷ q) e = cc
text_eq-starts_with (d ∷ s) [] e = refl
text_eq-starts_with (d ∷ s) (c ∷ q) e = ground (arith, text_eq-starts_with s q)

starts_with-contains : (q s : List ℕ) → starts_with q s ≡ true → text_contains q s ≡ true
unfolding text_contains
starts_with-contains q [] e = e
starts_with-contains q (d ∷ s) e = ground arith

-- For every query and every pair of texts: a rank is at most six; it is at most three exactly when
-- one of the texts starts with the query, and at most five exactly when one contains it; and it is
-- zero exactly when the display name equals the query.
pub search_rank_lem :
    (q d i : List ℕ)
    → (search_rank q d i ≤ 6)
      × (leb (search_rank q d i) 3 ≡ (starts_with q d || starts_with q i))
      × (leb (search_rank q d i) 5 ≡ (text_contains q d || text_contains q i))
      × ((search_rank q d i == 0) ≡ text_eq d q)
unfolding search_rank
search_rank_lem q d i = ground (
  arith,
  text_eq-starts_with d q,
  text_eq-starts_with i q,
  starts_with-contains q d,
  starts_with-contains q i,
)
