-- ===== src/Live/Stream.antt =====
-- The stream of a search, from its first event to its last.
use Prim.Native.String.{String}
use opcda_bridge.Base.{
  ℕ, zero, suc, ◌≤◌, ◌≡◌, refl, ◌⊎◌, inl, inr, Bool, false, ◌&&◌, Option, none, some, List, [], ◌∷◌,
  is_some, u32_max,
}
use opcda_bridge.Browse.{BrowseNode, BrowsePage}
use opcda_bridge.Browse as Browse
use opcda_bridge.Live.{Breadcrumbs, SearchScope, SearchContext, Given, continue}
use opcda_bridge.Live.Loops.{process_node, process_nodes, process_page, process_pages, browsed}
use opcda_bridge.Live.Events.{Going, Outcome, continuing-Outcome, progress-Outcome}
use opcda_bridge.Live.Matches.{process_node-Outcome}

pub Result-cases :
    (r : Browse.Result BrowsePage)
    → ((e : Browse.Status) × (r ≡ Browse.err e)) ⊎ ((page : BrowsePage) × (r ≡ Browse.ok page))
Result-cases (Browse.err e) = inl (e, refl)
Result-cases (Browse.ok page) = inr (page, refl)

module _ (given : Given) (small : given.max_results ≤ u32_max) where
  process_nodes-Outcome :
      (nodes : List BrowseNode) (crumbs : Breadcrumbs) (c : SearchContext)
      → Going given c
      → Outcome given (process_nodes given nodes crumbs c)
  unfolding process_nodes
  process_nodes-Outcome [] crumbs c g = g
  process_nodes-Outcome (node ∷ nodes) crumbs c g =
      continuing-Outcome given (process_node given node crumbs c) _
        (process_node-Outcome given small node crumbs c g) (process_nodes-Outcome nodes crumbs)

  process_page-Outcome :
      (nodes : List BrowseNode) (partial : Bool) (crumbs : Breadcrumbs) (c : SearchContext)
      → Going given c
      → Outcome given (process_page given nodes partial crumbs c)
  unfolding process_page
  process_page-Outcome nodes partial crumbs c g =
      continuing-Outcome given (process_nodes given nodes crumbs c) _
        (process_nodes-Outcome nodes crumbs c g) (progress-Outcome given partial)

  browsed-Going : (c : SearchContext) → Going given c → Going given (browsed given c)
  browsed-Going c g = record {
    fine = g.fine;
    open_ended = g.open_ended;
    counted = g.counted;
    below = g.below;
    covered = g.covered;
  }

  next_pages-Outcome :
      (fuel : ℕ) (scope : SearchScope) (next : Option String)
      → ((t : String) (d : SearchContext)
          → Going given d
          → Outcome given (process_pages given fuel scope (some t) false d))
      → (d : SearchContext) → Going given d
      → Outcome given (elim next [
        | none ↦ (d, continue)
        | some t ↦ process_pages given fuel scope (some t) false d
      ])
  next_pages-Outcome fuel scope none k d g = g
  next_pages-Outcome fuel scope (some t) k d g = k t d g

  pub process_pages-Outcome :
      (fuel : ℕ) (scope : SearchScope) (token : Option String) (first : Bool) (c : SearchContext)
      → Going given c
      → Outcome given (process_pages given fuel scope token first c)
  unfolding process_pages
  process_pages-Outcome zero scope token first c g = (g.fine, g.open_ended)
  process_pages-Outcome (suc fuel) scope token first c g =
      elim (Result-cases
        (given.browse c.calls scope.parent_node_key token (scope.refresh && first))) [
          | inl (e, h) ↦ rw (h, process_pages) (g.fine, g.open_ended)
          | inr (page, h) ↦
              rw (h, process_pages)
                (continuing-Outcome given
                  (process_page given page.nodes (is_some page.next_page_token) scope.breadcrumbs
                    (browsed given c))
                  _
                  (process_page-Outcome page.nodes (is_some page.next_page_token) scope.breadcrumbs
                    (browsed given c) (browsed-Going c g))
                  (next_pages-Outcome fuel scope page.next_page_token
                    (λ t d. process_pages-Outcome fuel scope (some t) false d)))
        ]
