-- ===== src/Live/Tests.antt =====
-- A live search of a namespace that has one item, for a client that reads two events.
use opcda_bridge.Base.{
  ◌-◌, ◌≡◌, refl, true, false, none, some, [], ◌∷◌, arith, member, String-discrete,
}
use opcda_bridge.Compat.{nonneg}
use opcda_bridge.Browse.{item, hierarchical, da3, BrowsePage}
use opcda_bridge.Browse as Browse
use opcda_bridge.Wire.Enums.{ProtoSearchMatchMode}
use opcda_bridge.Wire.Messages.{ProtoSearchRequest}
use opcda_bridge.Live.{
  max_search_visited, initial_search_scopes, child_search_scope, match_node, search_matches, Given,
}
use opcda_bridge.Live.Loops.{
  queue_children, process_node, process_nodes, process_page, process_pages, process_scope,
  process_scopes, run_search_inner, run_search,
}
use opcda_bridge.Live.Events.{founds}
use opcda_bridge.Query.{text_contains, starts_with}
use opcda_bridge.Live.Ends.{HasStalls}
use opcda_bridge.Live.Answers.{IsStream, run_search-IsStream}

abbrev request : ProtoSearchRequest
request = record {
  server = "plant";
  query = "pump";
  match_mode = nonneg 1;
  session_id = some "session";
  scope_node_key = none;
  max_results = 10;
  include_branches = false;
  refresh = false;
}

abbrev page : BrowsePage
page = record {
  nodes =
      record { node_key = "node"; display_name = "pump"; kind = item; item_id = some "plant.pump" }
      ∷ [];
  next_page_token = none;
  complete = true;
  organization = hierarchical;
  source = da3;
  warning = none;
}

abbrev given : Given
given = record {
  request = request;
  mode = ProtoSearchMatchMode.contains;
  max_results = 10;
  room = some 2;
  browse = λ k parent token refresh. Browse.ok page;
}

run_search-IsStream_example :
    IsStream given
      (HasStalls given (50_001 - max_search_visited))
      (run_search given 50_002 50_001).0
      (run_search given 50_002 50_001).1
run_search-IsStream_example =
    run_search-IsStream given 50_002 50_001 (omega arith) (omega arith) (omega arith)

-- The client reads the first progress and the match; the next event ends the search.
closed_test : (founds (run_search given 3 3).0 ≡ 1) × ((run_search given 3 3).1 ≡ none)
unfolding run_search run_search_inner process_scopes process_scope process_pages process_page
    process_nodes process_node queue_children match_node search_matches initial_search_scopes
    child_search_scope founds text_contains starts_with member String-discrete
closed_test = (refl, refl)
