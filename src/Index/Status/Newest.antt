-- ===== src/Index/Status/Newest.antt =====
-- What StatusRows finds in the rows of a server: its active generation and its newest failure.
use Prim.Native.String.{String}
use opcda_bridge.Base.{
  ℕ, ◌≤◌, ◌≡◌, refl, Bool, true, false, ◌&&◌, ◌||◌, Option, none, some, List, [], ◌∷◌, ltb, arith,
  find, any, is_some_and, Bool-cases, inl, inr,
}
use opcda_bridge.Index.Store.{Generation, is_active, is_active_of, of_server, count_where}
use opcda_bridge.Index.Store.Rows.{active_of}
use opcda_bridge.Index.Status.Rows.{is_failed, is_status_row, insert_row, status_rows}

abbrev pub generation_of : Option Generation → Option ℕ
generation_of none = none
generation_of (some r) = some r.generation

find-insert_other :
    (p : Generation → Bool) (r : Generation) (rows : List Generation)
    → p r ≡ false
    → find p (insert_row r rows) ≡ find p rows
unfolding find insert_row
find-insert_other p r [] h = rw h
find-insert_other p r (x ∷ rows) h = ground (arith, find-insert_other p r rows h)

find-insert_first :
    (p : Generation → Bool) (r : Generation) (rows : List Generation)
    → p r ≡ true
    → find p rows ≡ none
    → find p (insert_row r rows) ≡ some r
unfolding find insert_row
find-insert_first p r [] h n = rw h
find-insert_first p r (x ∷ rows) h n = ground (arith, find-insert_first p r rows h)

abbrev pub active_row : List Generation → Option Generation
active_row = find (λ r. is_active r.state)

no_active :
    (s : String) (gs : List Generation)
    → count_where (is_active_of s) gs ≡ 0
    → active_row (status_rows s gs) ≡ none
unfolding status_rows count_where find
no_active s [] c = refl
no_active s (r ∷ gs) c =
    ground (arith, no_active s gs, find-insert_other (λ r. is_active r.state) r (status_rows s gs))

-- The row that is found to be active is that of the server.
pub active_row_lem :
    (s : String) (gs : List Generation)
    → count_where (is_active_of s) gs ≤ 1
    → active_row (status_rows s gs) ≡ find (is_active_of s) gs
unfolding status_rows count_where find
active_row_lem s [] c = refl
active_row_lem s (r ∷ gs) c = elim (Bool-cases (is_active_of s r)) [
  | inl here ↦
      ground
        (arith, no_active s gs, find-insert_first (λ r. is_active r.state) r (status_rows s gs))
  | inr other ↦
      ground (
        arith,
        active_row_lem s gs,
        find-insert_other (λ r. is_active r.state) r (status_rows s gs),
      )
]

pub active_of-find :
    (s : String) (gs : List Generation) → active_of s gs ≡ generation_of (find (is_active_of s) gs)
unfolding active_of find
active_of-find s [] = refl
active_of-find s (r ∷ gs) = ground (arith, active_of-find s gs)

abbrev pub failed_row : List Generation → Option Generation
failed_row = find (λ r. is_failed r.state)

abbrev pub newer_failure : ℕ → List Generation → Bool
newer_failure g rows = is_some_and (failed_row rows) (λ f. ltb g f.generation)

abbrev AreStatusRows : String → List Generation → Type 0
AreStatusRows s [] = Unit {0}
AreStatusRows s (r ∷ rows) = (is_status_row s r ≡ true) × AreStatusRows s rows

insert_row-AreStatusRows :
    (s : String) (r : Generation) (rows : List Generation)
    → is_status_row s r ≡ true
    → AreStatusRows s rows
    → AreStatusRows s (insert_row r rows)
unfolding insert_row
insert_row-AreStatusRows s r [] h a = (h, tt)
insert_row-AreStatusRows s r (x ∷ rows) h a =
    ground (arith, insert_row-AreStatusRows s r rows h a.1)

status_rows-AreStatusRows : (s : String) (gs : List Generation) → AreStatusRows s (status_rows s gs)
unfolding status_rows
status_rows-AreStatusRows s [] = tt
status_rows-AreStatusRows s (r ∷ gs) =
    ground (arith, status_rows-AreStatusRows s gs, insert_row-AreStatusRows s r (status_rows s gs))

newer_failure-insert :
    (s : String) (g : ℕ) (r : Generation) (rows : List Generation)
    → is_failed r.state ≡ true
    → AreStatusRows s rows
    → newer_failure g (insert_row r rows) ≡ (ltb g r.generation || newer_failure g rows)
unfolding find insert_row
newer_failure-insert s g r [] h a = ground arith
newer_failure-insert s g r (x ∷ rows) h a = ground (arith, newer_failure-insert s g r rows h a.1)

-- Whether a failed generation of the server is newer than a generation.
abbrev pub fails_after : String → ℕ → List Generation → Bool
fails_after s g = any (λ r. of_server s r && (is_failed r.state && ltb g r.generation))

pub newer_failure-fails_after :
    (s : String) (g : ℕ) (gs : List Generation)
    → newer_failure g (status_rows s gs) ≡ fails_after s g gs
unfolding status_rows find any
newer_failure-fails_after s g [] = refl
newer_failure-fails_after s g (r ∷ gs) = elim (Bool-cases (is_failed r.state)) [
  | inl failure ↦ ground (
    arith,
    newer_failure-fails_after s g gs,
    newer_failure-insert s g r (status_rows s gs) failure (status_rows-AreStatusRows s gs),
  )
  | inr other ↦ ground (
    arith,
    newer_failure-fails_after s g gs,
    find-insert_other (λ r. is_failed r.state) r (status_rows s gs) other,
  )
]

pub find-holds :
    (p : Generation → Bool) (rows : List Generation) (r : Generation)
    → find p rows ≡ some r
    → p r ≡ true
unfolding find
find-holds p [] r e = cc
find-holds p (x ∷ rows) r e = ground (arith, find-holds p rows r)
