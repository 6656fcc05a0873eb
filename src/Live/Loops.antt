-- ===== src/Live/Loops.antt =====
-- The loops of a search: SearchContext and run_search_inner of server/search.rs. They run on fuel:
-- one for the pages of a scope, and one for the scopes. `run_search` closes a session of its own after
-- that, which the stream does not show, and is left out.
use Prim.Native.String.{String}
use opcda_bridge.Base.{
  ℕ, zero, suc, ◌+◌, Bool, true, false, ◌&&◌, Option, none, some, List, [], ◌∷◌, ◌++◌, ltb, leb,
  if◌then◌else◌, is_some, is_none_or, saturating_add, u32_max, length,
}
use opcda_bridge.Browse as Browse
use opcda_bridge.Browse.{BrowseNode, BrowsePage}
use opcda_bridge.Wire.Messages.{ProtoSearchMatch, ProtoEvent, found, progress, completed}
use opcda_bridge.Live.{
  Breadcrumbs, SearchScope, SearchState, SearchError, browse_failed, stream_closed, SearchContext,
  Given, Step, continue, stop, out_of_fuel, failed, match_node, initial_search_scopes,
  child_search_scope, max_search_visited,
}

abbrev pub is_open : Given → SearchContext → Bool
is_open given c = is_none_or given.room (λ n. ltb (length c.sent) n)

abbrev pub sending : ProtoEvent → SearchContext → SearchContext
sending event c = record c { sent = c.sent ++ event ∷ [] }

-- `tx.send`, and what follows a success and a failure.
abbrev pub send :
    Given
    → ProtoEvent
    → SearchContext
    → (SearchContext → SearchContext × Step)
    → SearchContext × Step
    → SearchContext × Step
send given event c next closed = if is_open given c then next (sending event c) else closed

abbrev pub completion : Bool → Bool → Option String → ProtoEvent
completion complete truncated warning =
    completed
      (record { complete = complete; cancelled = false; truncated = truncated; warning = warning })

-- send_search_completion, after which the search stops.
abbrev pub complete_with :
    Given → Bool → Bool → Option String → SearchContext → SearchContext × Step
complete_with given complete truncated warning c =
    send given (completion complete truncated warning) c (λ d. (d, stop)) (c, failed stream_closed)

abbrev pub queued : Option SearchScope → List SearchScope → List SearchScope
queued none scopes = scopes
queued (some scope) scopes = scopes ++ scope ∷ []

module _ (given : Given) where
  -- What follows the match of a node.
  unfoldable pub queue_children : BrowseNode → Breadcrumbs → SearchContext → SearchContext × Step
  queue_children node breadcrumbs c =
      let d = record c { scopes = queued (child_search_scope node breadcrumbs) c.scopes } in
      if leb max_search_visited d.state.visited_nodes
      then complete_with given false true (some "search visit limit reached") d
      else (d, continue)

  abbrev pub report_match :
      BrowseNode → Breadcrumbs → Option ProtoSearchMatch → SearchContext → SearchContext × Step
  report_match node breadcrumbs none c = queue_children node breadcrumbs c
  report_match node breadcrumbs (some m) c =
      send given (found m) c
        (λ d.
          if leb given.max_results d.state.matches
          then complete_with given false true (some "search result limit reached") d
          else queue_children node breadcrumbs d)
        (c, stop)

  unfoldable pub process_node : BrowseNode → Breadcrumbs → SearchContext → SearchContext × Step
  unfolding queue_children
  process_node node breadcrumbs c =
      let visited = record c.state {
        visited_nodes = saturating_add u32_max c.state.visited_nodes 1;
      } in
      let (state, m) = match_node given.request given.mode node breadcrumbs visited in
      report_match node breadcrumbs m (record c { state = state })

  -- The call goes on if the step is to continue.
  abbrev pub continuing :
      SearchContext × Step → (SearchContext → SearchContext × Step) → SearchContext × Step
  continuing (c, continue) next = next c
  continuing (c, other) next = (c, other)

  unfoldable pub process_nodes :
      List BrowseNode → Breadcrumbs → SearchContext → SearchContext × Step
  process_nodes [] breadcrumbs c = (c, continue)
  process_nodes (node ∷ nodes) breadcrumbs c =
      continuing (process_node node breadcrumbs c) (process_nodes nodes breadcrumbs)

  abbrev pub progress_of : SearchState → Bool → ProtoEvent
  progress_of s partial =
      progress (record { visited_nodes = s.visited_nodes; matches = s.matches; partial = partial })

  unfoldable pub process_page :
      List BrowseNode → Bool → Breadcrumbs → SearchContext → SearchContext × Step
  unfolding process_nodes
  process_page nodes partial breadcrumbs c =
      continuing (process_nodes nodes breadcrumbs c)
        (λ d. send given (progress_of d.state partial) d (λ e. (e, continue)) (d, stop))

  abbrev pub browsed : SearchContext → SearchContext
  browsed c = record c { calls = c.calls + 1 }

  -- The pages of a scope from a page token on.
  unfoldable pub process_pages :
      ℕ → SearchScope → Option String → Bool → SearchContext → SearchContext × Step
  process_pages zero scope token first c = (c, out_of_fuel)
  process_pages (suc fuel) scope token first c =
      elim (given.browse c.calls scope.parent_node_key token (scope.refresh && first)) [
        | Browse.err e ↦ (browsed c, failed (browse_failed e))
        | Browse.ok page ↦
            continuing
              (process_page page.nodes (is_some page.next_page_token) scope.breadcrumbs (browsed c))
              (λ d. elim page.next_page_token [
                | none ↦ (d, continue)
                | some next ↦ process_pages fuel scope (some next) false d
              ])
      ]

  unfoldable pub process_scope : ℕ → SearchScope → SearchContext → SearchContext × Step
  process_scope fuel scope = process_pages fuel scope none true

  -- `while let Some(scope) = scopes.pop_front()`, and the completion after it.
  unfoldable pub process_scopes : ℕ → ℕ → SearchContext → SearchContext × Step
  unfolding process_scope
  process_scopes zero pages c = (c, out_of_fuel)
  process_scopes (suc fuel) pages c = elim c.scopes [
    | [] ↦ complete_with given true false none c
    | scope ∷ rest ↦
        continuing (process_scope pages scope (record c { scopes = rest }))
          (λ d. process_scopes fuel pages d)
  ]

  abbrev pub blank : SearchContext
  blank = record {
    state = record { matched_item_ids = []; visited_nodes = 0; matches = 0 };
    scopes = initial_search_scopes given.request;
    sent = [];
    calls = 0;
  }

  unfoldable pub run_search_inner : ℕ → ℕ → SearchContext × Step
  unfolding process_scopes
  run_search_inner fuel pages =
      send given (progress_of blank.state false) blank (process_scopes fuel pages) (blank, stop)

  -- run_search: the events of the stream, and the error that ends it. (A temporary session is closed
  -- after.)
  abbrev pub error_of : SearchContext → Step → Option SearchError
  error_of c (failed e) = if is_open given c then some e else none
  error_of c _ = none

  unfoldable pub run_search : ℕ → ℕ → List ProtoEvent × Option SearchError
  unfolding run_search_inner
  run_search fuel pages = let (c, step) = run_search_inner fuel pages in (c.sent, error_of c step)
