-- ===== src/Index/Status/Rows.antt =====
-- The rows that a status is made of: IndexDb::status_rows and StatusRows of index/store.rs.
use Prim.Native.String.{String}
use opcda_bridge.Base.{
  ℕ, Bool, true, false, ◌&&◌, ◌||◌, Option, none, some, List, [], ◌∷◌, ltb, ◌==◌, if◌then◌else◌,
  find,
}
use opcda_bridge.Index.Store.{Generation, GenerationState, is_active, is_staging, of_server}

abbrev pub is_failed : GenerationState → Bool
is_failed GenerationState.failed = true
is_failed _ = false

-- The key of `ORDER BY CASE state ...`.
abbrev pub state_rank : GenerationState → ℕ
state_rank GenerationState.active = 0
state_rank GenerationState.staging = 1
state_rank _ = 2

abbrev pub is_status_row : String → Generation → Bool
is_status_row server r =
    of_server server r && (is_active r.state || is_staging r.state || is_failed r.state)

-- ORDER BY state rank, then the newest generation first.
abbrev pub row_before : Generation → Generation → Bool
row_before a b =
    ltb (state_rank a.state) (state_rank b.state)
    || (state_rank a.state == state_rank b.state && ltb b.generation a.generation)

unfoldable pub insert_row : Generation → List Generation → List Generation
insert_row r [] = r ∷ []
insert_row r (x ∷ rows) = if row_before x r then x ∷ insert_row r rows else r ∷ x ∷ rows

unfoldable pub status_rows : String → List Generation → List Generation
unfolding insert_row
status_rows server [] = []
status_rows server (r ∷ rows) =
    if is_status_row server r
    then insert_row r (status_rows server rows)
    else status_rows server rows

pub record StatusRows : Type 0 where
  pub active : Option Generation
  pub staging : Option Generation
  pub failed : Option Generation
  pub failed_after_active : Option Generation

abbrev pub later_failure : Option Generation → Option Generation → Option Generation
later_failure (some active) (some failed) =
    if ltb active.generation failed.generation then some failed else none
later_failure _ _ = none

unfoldable pub from_rows : List Generation → StatusRows
from_rows rows =
    let active = find (λ r. is_active r.state) rows in
    let failed = find (λ r. is_failed r.state) rows in
    record {
      active = active;
      staging = find (λ r. is_staging r.state) rows;
      failed = failed;
      failed_after_active = later_failure active failed;
    }
