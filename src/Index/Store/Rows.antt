-- ===== src/Index/Store/Rows.antt =====
-- The number of rows with a property, and the active generation, under UPDATE, DELETE and INSERT.
use Prim.Native.String.{String}
use opcda_bridge.Base.{
  ℕ, ◌+◌, ◌≤◌, ◌<◌, ◌≡◌, refl, Bool, false, ◌&&◌, Option, none, some, List, [], ◌∷◌, ◌++◌, arith,
  ite, if◌then◌else◌, ◌==◌, String-discrete,
}
use opcda_bridge.Index.Store.{
  Generation, update_where, delete_where, count_where, of_server, is_staged, is_active_of,
  is_active, supersede, activate, Promotion, latest,
}

abbrev pub has_key : String → ℕ → Generation → Bool
has_key server generation r = of_server server r && r.generation == generation

-- The generation of the first active row of a server.
unfoldable pub active_of : String → List Generation → Option ℕ
active_of t [] = none
active_of t (r ∷ rows) = if is_active_of t r then some r.generation else active_of t rows

pub count-update :
    (q p : Generation → Bool) (f : Generation → Generation) (rows : List Generation)
    → ((r : Generation) → q (if p r then f r else r) ≡ q r)
    → count_where q (update_where p f rows) ≡ count_where q rows
unfolding count_where update_where
count-update q p f [] h = refl
count-update q p f (r ∷ rows) h = ground (arith, h r, count-update q p f rows h)

pub count-delete-le :
    (q p : Generation → Bool) (rows : List Generation)
    → count_where q (delete_where p rows) ≤ count_where q rows
unfolding count_where delete_where
count-delete-le q p [] = omega arith
count-delete-le q p (r ∷ rows) = ground (arith, count-delete-le q p rows)

pub count-append :
    (q : Generation → Bool) (rows : List Generation) (r : Generation)
    → count_where q (rows ++ r ∷ []) ≡ count_where q rows + (if q r then 1 else 0)
unfolding count_where
count-append q [] r = ground arith
count-append q (x ∷ rows) r = ground (arith, count-append q rows r)

pub count_active-supersede :
    (s t : String) (rows : List Generation)
    → count_where (is_active_of t) (update_where (is_active_of s) supersede rows)
      ≡ ite (String-discrete s t) 0 (count_where (is_active_of t) rows)
unfolding count_where update_where
count_active-supersede s t [] = ground arith
count_active-supersede s t (r ∷ rows) = ground (arith, count_active-supersede s t rows)

pub count_active-activate :
    (s t : String) (g : ℕ) (p : Promotion) (rows : List Generation)
    → count_where (is_active_of t) (update_where (is_staged s g) (activate p) rows)
      ≡ count_where (is_active_of t) rows
        + ite (String-discrete s t) (count_where (is_staged s g) rows) 0
unfolding count_where update_where
count_active-activate s t g p [] = ground arith
count_active-activate s t g p (r ∷ rows) = ground (arith, count_active-activate s t g p rows)

pub active_of-update :
    (t : String) (p : Generation → Bool) (f : Generation → Generation) (rows : List Generation)
    → ((r : Generation) → is_active_of t (if p r then f r else r) ≡ is_active_of t r)
    → ((r : Generation) → (if p r then f r else r).generation ≡ r.generation)
    → active_of t (update_where p f rows) ≡ active_of t rows
unfolding active_of update_where
active_of-update t p f [] h k = refl
active_of-update t p f (r ∷ rows) h k = rw (h r, k r, active_of-update t p f rows h k) refl

pub active_of-delete :
    (t : String) (p : Generation → Bool) (rows : List Generation)
    → ((r : Generation) → (p r && is_active_of t r) ≡ false)
    → active_of t (delete_where p rows) ≡ active_of t rows
unfolding active_of delete_where
active_of-delete t p [] h = refl
active_of-delete t p (r ∷ rows) h = ground (arith, h r, active_of-delete t p rows h)

pub active_of-delete_server :
    (s t : String) (rows : List Generation)
    → active_of t (delete_where (of_server s) rows)
      ≡ ite (String-discrete s t) none (active_of t rows)
unfolding active_of delete_where
active_of-delete_server s t [] = ground arith
active_of-delete_server s t (r ∷ rows) = ground (arith, active_of-delete_server s t rows)

pub active_of-append :
    (t : String) (rows : List Generation) (r : Generation)
    → is_active r.state ≡ false
    → active_of t (rows ++ r ∷ []) ≡ active_of t rows
unfolding active_of
active_of-append t [] r h = ground arith
active_of-append t (x ∷ rows) r h = ground (arith, active_of-append t rows r h)

pub active_of-supersede :
    (s t : String) (rows : List Generation)
    → active_of t (update_where (is_active_of s) supersede rows)
      ≡ ite (String-discrete s t) none (active_of t rows)
unfolding active_of update_where
active_of-supersede s t [] = ground arith
active_of-supersede s t (r ∷ rows) = ground (arith, active_of-supersede s t rows)

pub active_of-activate :
    (s t : String) (g : ℕ) (p : Promotion) (rows : List Generation)
    → active_of s rows ≡ none
    → active_of t (update_where (is_staged s g) (activate p) rows)
      ≡ ite
          (String-discrete s t)
          (if count_where (is_staged s g) rows == 0 then none else some g)
          (active_of t rows)
unfolding active_of update_where count_where
active_of-activate s t g p [] h = ground arith
active_of-activate s t g p (r ∷ rows) h = ground (arith, active_of-activate s t g p rows)

-- A number above the latest is no generation of the server.
pub count-above_latest :
    (s : String) (g : ℕ) (rows : List Generation)
    → latest s rows < g
    → count_where (has_key s g) rows ≡ 0
unfolding latest count_where
count-above_latest s g [] h = refl
count-above_latest s g (r ∷ rows) h = ground (arith, count-above_latest s g rows)
