-- ===== src/Live.antt =====
-- crates/opcda-bridge-gateway/src/server/search.rs: the search of a live namespace. It browses the
-- scopes of a queue page by page and sends events to the client. The answers of BrowseManager::browse
-- are a parameter, for each number of calls made before; so is how many events the client takes
-- before it closes the stream, and the case folding of a query.
pub mod Loops
pub mod Events
pub mod Matches
pub mod Stream
pub mod Ends
pub mod Scopes
pub mod Answers
mod Tests
use Prim.Native.String.{String, count}
use opcda_bridge.Base.{
  ℕ, ◌+◌, Bool, true, false, not, ◌&&◌, ◌||◌, Option, none, some, List, [], ◌∷◌, ◌++◌, ite, ltb,
  leb, ◌==◌, if◌then◌else◌, is_some, is_some_and, is_none_or, saturating_add, u32_max, length,
  String-discrete, member, text,
}
use opcda_bridge.Compat.{Int32}
use opcda_bridge.Browse.{
  BrowseNode, BrowseNodeKind, BrowsePage, Status, branch, item, branch_and_item,
}
use opcda_bridge.Browse as Browse
use opcda_bridge.Query.{starts_with, text_contains, text_eq}
use opcda_bridge.Wire.Enums.{ProtoSearchMatchMode, match_mode_of}
use opcda_bridge.Wire.Messages.{
  ProtoSearchRequest, ProtoBrowseBreadcrumb, ProtoSearchMatch, ProtoEvent, found, progress,
  completed,
}
use opcda_bridge.Wire.Gateway.{map_browse_node}

abbrev pub default_search_results : ℕ
default_search_results = 200

abbrev pub max_search_results : ℕ
max_search_results = 1_000

abbrev pub max_search_visited : ℕ
max_search_visited = 50_000

-- The messages of an invalid argument.
pub data Rejection : Type 0 where
  empty_query unknown_mode too_short too_many_results : Rejection

pub data Validated : Type 0 where
  valid : ProtoSearchMatchMode → ℕ → Validated
  rejected : Rejection → Validated

abbrev pub or_contains : ProtoSearchMatchMode → ProtoSearchMatchMode
or_contains ProtoSearchMatchMode.unspecified = ProtoSearchMatchMode.contains
or_contains mode = mode

unfoldable pub search_mode : Int32 → Option ProtoSearchMatchMode
search_mode mode = elim (match_mode_of mode) [ none ↦ none | some m ↦ some (or_contains m) ]

abbrev pub is_contains : ProtoSearchMatchMode → Bool
is_contains ProtoSearchMatchMode.contains = true
is_contains _ = false

abbrev pub limited : ProtoSearchMatchMode → ℕ → Validated
limited mode max_results =
    if ltb max_search_results max_results then rejected too_many_results else valid mode max_results

abbrev pub validate_mode : ProtoSearchRequest → Option ProtoSearchMatchMode → Validated
validate_mode request none = rejected unknown_mode
validate_mode request (some mode) =
    if is_contains mode && ltb (count request.query) 2
    then rejected too_short
    else limited mode
        (if request.max_results == 0 then default_search_results else request.max_results)

unfoldable pub validate_search : (String → String) → ProtoSearchRequest → Validated
validate_search normalize_query request =
    ite (String-discrete (normalize_query request.query) "") (rejected empty_query)
      (validate_mode request (search_mode request.match_mode))

abbrev pub matches_text : ProtoSearchMatchMode → String → String → Bool
matches_text ProtoSearchMatchMode.exact query value = text_eq (text value) (text query)
matches_text ProtoSearchMatchMode.prefix query value = starts_with (text query) (text value)
matches_text _ query value = text_contains (text query) (text value)

unfoldable pub search_matches : BrowseNode → String → ProtoSearchMatchMode → Bool
search_matches node query mode =
    matches_text mode query node.display_name || is_some_and node.item_id (matches_text mode query)

abbrev pub is_expandable : BrowseNodeKind → Bool
is_expandable branch = true
is_expandable item = false
is_expandable branch_and_item = true

abbrev pub Breadcrumbs : Type 0
Breadcrumbs = List ProtoBrowseBreadcrumb

pub record SearchScope : Type 0 where
  pub parent_node_key : Option String
  pub breadcrumbs : Breadcrumbs
  pub refresh : Bool

pub record SearchState : Type 0 where
  pub matched_item_ids : List String
  pub visited_nodes : ℕ
  pub matches : ℕ

abbrev pub crumb : BrowseNode → ProtoBrowseBreadcrumb
crumb node = record { node_key = node.node_key; display_name = node.display_name }

-- Of a node without an ItemID nothing is known to be old.
abbrev pub is_new : SearchState → Option String → Bool
is_new s id = is_none_or id (λ i. not (member String-discrete i s.matched_item_ids))

abbrev pub remember : Option String → List String → List String
remember none ids = ids
remember (some id) ids = id ∷ ids

-- Whether a node is a match that has not been found before.
abbrev pub is_match : ProtoSearchRequest → ProtoSearchMatchMode → SearchState → BrowseNode → Bool
is_match request mode s node =
    let item_match = search_matches node request.query mode in
    item_match
    && (is_new s node.item_id && (is_some node.item_id || (request.include_branches && item_match)))

unfoldable pub match_node :
    ProtoSearchRequest
    → ProtoSearchMatchMode
    → BrowseNode
    → Breadcrumbs
    → SearchState
    → SearchState × Option ProtoSearchMatch
match_node request mode node breadcrumbs s =
    if is_match request mode s node
    then (
      record s {
        matched_item_ids = remember node.item_id s.matched_item_ids;
        matches = saturating_add u32_max s.matches 1;
      },
      some (record {
        node = some (map_browse_node node);
        breadcrumbs = breadcrumbs ++ crumb node ∷ [];
      }),
    )
    else (s, none)

abbrev pub scope_breadcrumbs : Option String → Breadcrumbs
scope_breadcrumbs none = []
scope_breadcrumbs (some key) = record { node_key = key; display_name = "" } ∷ []

unfoldable pub initial_search_scopes : ProtoSearchRequest → List SearchScope
initial_search_scopes request =
    record {
      parent_node_key = request.scope_node_key;
      breadcrumbs = scope_breadcrumbs request.scope_node_key;
      refresh = request.refresh;
    }
    ∷ []

unfoldable pub child_search_scope : BrowseNode → Breadcrumbs → Option SearchScope
child_search_scope node breadcrumbs =
    if is_expandable node.kind
    then some (record {
      parent_node_key = some node.node_key;
      breadcrumbs = breadcrumbs ++ crumb node ∷ [];
      refresh = false;
    })
    else none

pub data SearchError : Type 0 where
  browse_failed : Status → SearchError
  stream_closed : SearchError

-- What a search changes: its state, the scopes still to be browsed, the events sent, and the number
-- of browse calls made.
pub record SearchContext : Type 0 where
  pub state : SearchState
  pub scopes : List SearchScope
  pub sent : List ProtoEvent
  pub calls : ℕ

-- What a search is given. `room` is the number of events that the client takes, if it closes the
-- stream; a browse call of a scope names the parent, the page token and whether to refresh.
pub record Given : Type 0 where
  pub request : ProtoSearchRequest
  pub mode : ProtoSearchMatchMode
  pub max_results : ℕ
  pub room : Option ℕ
  pub browse : ℕ → Option String → Option String → Bool → Browse.Result BrowsePage

-- SearchStep with the error of a `Result`, and the loops' end of fuel, which is none of the source.
pub data Step : Type 0 where
  continue stop out_of_fuel : Step
  failed : SearchError → Step
