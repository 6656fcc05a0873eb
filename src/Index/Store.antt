-- ===== src/Index/Store.antt =====
-- index/store.rs: the generations of a server's index, and the enrolled servers. A table is the list
-- of its rows; an SQL statement is a function of the list, and a transaction that fails leaves the
-- tables as they are. The generations stay below the largest INTEGER of SQLite, and no statement
-- fails for the sake of the file.
pub mod Recovery
pub mod Statements
pub mod Rows
pub mod Active
pub mod Refinement
mod Tests
use Prim.Native.String.{String}
use opcda_bridge.Base.{
  ℕ, ◌+◌, max, Bool, true, false, not, ◌&&◌, ◌||◌, Option, none, some, List, [], ◌∷◌, ◌++◌, ltb,
  ◌==◌, if◌then◌else◌, ite, String-discrete, get, insert, remove, is_some, unwrap_or,
}
use opcda_bridge.Browse.{
  NamespaceOrganization, BrowseSource, unspecified_organization, unspecified_source, da3, da2,
}

pub data GenerationState : Type 0 where
  staging active superseded failed : GenerationState

pub record Generation : Type 0 where
  pub server : String
  pub generation : ℕ
  pub state : GenerationState
  pub organization : NamespaceOrganization
  pub source : BrowseSource
  pub started_at : String
  pub completed_at : Option String
  pub entry_count : ℕ
  pub unique_item_count : ℕ
  pub last_error : Option String
  pub compatibility_fallback : Bool

-- Of an enrolled server, whether it is refreshed automatically.
pub record Store : Type 0 where
  pub generations : List Generation
  pub enrolled_servers : List (String × Bool)

-- UPDATE and DELETE of the rows with a property, and their number.
unfoldable pub update_where :
    (Generation → Bool) → (Generation → Generation) → List Generation → List Generation
update_where p f [] = []
update_where p f (r ∷ rows) = (if p r then f r else r) ∷ update_where p f rows

unfoldable pub delete_where : (Generation → Bool) → List Generation → List Generation
delete_where p [] = []
delete_where p (r ∷ rows) = if p r then delete_where p rows else r ∷ delete_where p rows

unfoldable pub count_where : (Generation → Bool) → List Generation → ℕ
count_where p [] = 0
count_where p (r ∷ rows) = (if p r then 1 else 0) + count_where p rows

abbrev pub is_staging : GenerationState → Bool
is_staging staging = true
is_staging _ = false

abbrev pub is_active : GenerationState → Bool
is_active active = true
is_active _ = false

abbrev pub of_server : String → Generation → Bool
of_server server r = ite (String-discrete r.server server) true false

abbrev pub is_staged : String → ℕ → Generation → Bool
is_staged server generation r =
    of_server server r && r.generation == generation && is_staging r.state

abbrev pub is_active_of : String → Generation → Bool
is_active_of server r = of_server server r && is_active r.state

-- `COALESCE(MAX(generation), 0)` of a server.
unfoldable pub latest : String → List Generation → ℕ
latest server [] = 0
latest server (r ∷ rows) = max (if of_server server r then r.generation else 0) (latest server rows)

-- INSERT OR IGNORE.
unfoldable pub enroll : String → Store → Store
enroll server s = record s {
  enrolled_servers =
      if is_some (get String-discrete server s.enrolled_servers)
      then s.enrolled_servers
      else insert String-discrete server false s.enrolled_servers;
}

abbrev pub staged_row : String → ℕ → NamespaceOrganization → BrowseSource → String → Generation
staged_row server generation organization source started_at = record {
  server = server;
  generation = generation;
  state = staging;
  organization = organization;
  source = source;
  started_at = started_at;
  completed_at = none;
  entry_count = 0;
  unique_item_count = 0;
  last_error = none;
  compatibility_fallback = false;
}

unfoldable pub start_generation :
    String → NamespaceOrganization → BrowseSource → String → Store → Store × ℕ
start_generation server organization source started_at s =
    let enrolled = enroll server s in
    let generation = latest server s.generations + 1 in
    (
      record enrolled {
        generations =
            enrolled.generations
            ++ staged_row server generation organization source started_at ∷ [];
      },
      generation,
    )

unfoldable pub record_failed_attempt : String → String → String → Store → Store
record_failed_attempt server timestamp error s = record s {
  generations =
      s.generations
      ++ record (staged_row server (latest server s.generations + 1) unspecified_organization
          unspecified_source timestamp) { state = failed; last_error = some error }
        ∷ [];
}

-- The largest INTEGER of SQLite.
abbrev pub i64_max : ℕ
i64_max = 9_223_372_036_854_775_807

abbrev pub supersede : Generation → Generation
supersede r = record r { state = superseded }

abbrev pub is_da3 : BrowseSource → Bool
is_da3 da3 = true
is_da3 _ = false

abbrev pub is_da2 : Option (NamespaceOrganization × BrowseSource) → Bool
is_da2 (some (o, da2)) = true
is_da2 _ = false

abbrev pub organization_of :
    Option (NamespaceOrganization × BrowseSource) → NamespaceOrganization → NamespaceOrganization
organization_of none old = old
organization_of (some (organization, source)) old = organization

abbrev pub source_of : Option (NamespaceOrganization × BrowseSource) → BrowseSource → BrowseSource
source_of none old = old
source_of (some (organization, source)) old = source

-- What a promotion is given beside the generation.
pub record Promotion : Type 0 where
  pub completed_at : String
  pub searchable_item_count : ℕ
  pub profile : Option (NamespaceOrganization × BrowseSource)
  pub warning : Option String

abbrev pub activate : Promotion → Generation → Generation
activate p r = record r {
  state = active;
  completed_at = some p.completed_at;
  entry_count = p.searchable_item_count;
  unique_item_count = p.searchable_item_count;
  organization = organization_of p.profile r.organization;
  compatibility_fallback = is_da3 r.source && is_da2 p.profile;
  source = source_of p.profile r.source;
  last_error = p.warning;
}

-- Whether the promotion was committed.
unfoldable pub promote_with_profile : String → ℕ → Promotion → Store → Store × Bool
promote_with_profile server generation p s =
    let others = update_where (is_active_of server) supersede s.generations in
    if ltb i64_max p.searchable_item_count || ltb i64_max generation
    then (s, false)
    else if count_where (is_staged server generation) others == 1
    then (
      record s { generations = update_where (is_staged server generation) (activate p) others },
      true,
    )
    else (s, false)

abbrev pub fail : String → Generation → Generation
fail error r = record r { state = failed; last_error = some error }

unfoldable pub fail_generation : String → ℕ → String → Store → Store
fail_generation server generation error s = record s {
  generations = update_where (is_staged server generation) (fail error) s.generations;
}

-- `has_entries` says of which generations there are entries. The result is whether a row went.
unfoldable pub discard_empty_generation : (String → ℕ → Bool) → String → ℕ → Store → Store × Bool
discard_empty_generation has_entries server generation s =
    let is_empty = λ (r : Generation).
      is_staged server generation r && not (has_entries r.server r.generation) in
    (
      record s { generations = delete_where is_empty s.generations },
      count_where is_empty s.generations == 1,
    )

abbrev pub with_counts : ℕ → ℕ → Generation → Generation
with_counts entries items r = record r { entry_count = entries; unique_item_count = items }

-- Whether the counts were written.
unfoldable pub update_progress : String → ℕ → ℕ → ℕ → Store → Store × Bool
update_progress server generation entries_seen unique_items s =
    if ltb i64_max entries_seen || ltb i64_max unique_items || ltb i64_max generation
    then (s, false)
    else (
      record s {
        generations =
            update_where (is_staged server generation) (with_counts entries_seen unique_items)
              s.generations;
      },
      true,
    )

unfoldable pub clear_server : String → Store → Store
clear_server server s = record s { generations = delete_where (of_server server) s.generations }

unfoldable pub delete_index : String → Store → Store
delete_index server s = record s {
  generations = delete_where (of_server server) s.generations;
  enrolled_servers = remove String-discrete server s.enrolled_servers;
}

-- Whether the server was enrolled.
unfoldable pub set_auto_refresh : String → Bool → Store → Store × Bool
set_auto_refresh server enabled s =
    if is_some (get String-discrete server s.enrolled_servers)
    then (
      record s { enrolled_servers = insert String-discrete server enabled s.enrolled_servers },
      true,
    )
    else (s, false)
