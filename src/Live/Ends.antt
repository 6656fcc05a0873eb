-- ===== src/Live/Ends.antt =====
-- How the loops of a search end: every node that is visited brings the search closer to the visit limit,
-- and a page without nodes does not.
use Prim.Native.String.{String}
use opcda_bridge.Base.{
  ◌&&◌, ℕ, zero, suc, ◌+◌, ◌≤◌, ◌<◌, ◌≡◌, refl, inl, inr, Bool, true, false, Option, none, some,
  List, [], ◌∷◌, arith, u32_max, length, length-append, leb, Bool-cases, ap, saturating_add,
}
use opcda_bridge.Browse.{BrowseNode, BrowsePage}
use opcda_bridge.Browse as Browse
use opcda_bridge.Wire.Messages.{ProtoSearchMatch, ProtoSearchRequest, found}
use opcda_bridge.Wire.Enums.{ProtoSearchMatchMode}
use opcda_bridge.Live.{
  Breadcrumbs, SearchScope, SearchState, SearchContext, Given, Step, continue, stop, out_of_fuel,
  failed, match_node, child_search_scope, max_search_visited, is_match,
}
use opcda_bridge.Live.Loops.{
  is_open, process_node, process_nodes, process_page, continuing, sending, queued, queue_children,
  complete_with, report_match,
}

-- What holds if the fuel runs out, and what if the search goes on.
abbrev pub Ends : Type 0 → (SearchContext → Type 0) → SearchContext × Step → Type 0
Ends O P (c, continue) = P c
Ends O P (c, stop) = Unit {0}
Ends O P (c, out_of_fuel) = O
Ends O P (c, failed e) = Unit {0}

-- The pages of a scope from call number `k` on, each asked for by the token that the one before names:
-- at least `n` of them are empty and name a next page.
pub data Stalls (given : Given) (parent : Option String) (refresh : Bool)
    : ℕ → ℕ → Option String → Bool → Type 0 where
  none_yet :
      {k : ℕ} {token : Option String} {first : Bool}
      → Stalls given parent refresh zero k token first
  answered :
      {n k : ℕ} {token : Option String} {first : Bool} (page : BrowsePage) (next : String)
      → given.browse k parent token (refresh && first) ≡ Browse.ok page
      → page.next_page_token ≡ some next
      → Stalls given parent refresh n (k + 1) (some next) false
      → Stalls given parent refresh n k token first
  stalled :
      {n k : ℕ} {token : Option String} {first : Bool} (page : BrowsePage) (next : String)
      → given.browse k parent token (refresh && first) ≡ Browse.ok page
      → page.next_page_token ≡ some next
      → length page.nodes ≡ 0
      → Stalls given parent refresh n (k + 1) (some next) false
      → Stalls given parent refresh (suc n) k token first

pub Stalls-fewer :
    {given : Given} {parent : Option String} {refresh : Bool} {n k : ℕ} {token : Option String}
    {first : Bool}
    → Stalls given parent refresh (suc n) k token first
    → Stalls given parent refresh n k token first
Stalls-fewer (answered page next e t s) = answered page next e t (Stalls-fewer s)
Stalls-fewer (stalled page next e t l s) = answered page next e t s

-- Some scope has such pages from its first one on.
abbrev pub HasStalls : Given → ℕ → Type 0
HasStalls given n =
    (parent : Option String) × (refresh : Bool) × (k : ℕ) × Stalls given parent refresh n k none
      true

-- After `n` more nodes the limit is not reached, and at most as many scopes have joined the queue.
pub record Visited (n : ℕ) (c d : SearchContext) : Type 0 where
  pub count : d.state.visited_nodes ≡ c.state.visited_nodes + n
  pub below : d.state.visited_nodes < max_search_visited
  pub scopes : length d.scopes ≤ length c.scopes + n
  pub calls : d.calls ≡ c.calls

length-queued :
    (o : Option SearchScope) (scopes : List SearchScope)
    → length (queued o scopes) ≤ length scopes + 1
length-queued none scopes = omega arith
length-queued (some scope) scopes = omega (arith, length-append scopes (scope ∷ []))

visited-match_node :
    (request : ProtoSearchRequest) (mode : ProtoSearchMatchMode) (node : BrowseNode)
    (crumbs : Breadcrumbs) (s : SearchState)
    → (match_node request mode node crumbs s).0.visited_nodes ≡ s.visited_nodes
unfolding match_node
visited-match_node request mode node crumbs s = elim (Bool-cases (is_match request mode s node)) [
  | inl h ↦ rw h refl
  | inr h ↦ rw h refl
]

module _ (given : Given) (O : Type 0) where
  pub continuing-Ends :
      (P Q : SearchContext → Type 0) (r : SearchContext × Step)
      (next : SearchContext → SearchContext × Step)
      → Ends O P r
      → ((d : SearchContext) → P d → Ends O Q (next d))
      → Ends O Q (continuing given r next)
  continuing-Ends P Q (c, continue) next o k = k c o
  continuing-Ends P Q (c, stop) next o k = tt
  continuing-Ends P Q (c, out_of_fuel) next o k = o
  continuing-Ends P Q (c, failed e) next o k = tt

  pub complete_with-Ends :
      (P : SearchContext → Type 0) (complete truncated : Bool) (warning : Option String)
      (c : SearchContext)
      → Ends O P (complete_with given complete truncated warning c)
  complete_with-Ends P complete truncated warning c = elim (Bool-cases (is_open given c)) [
    | inl h ↦ rw h tt
    | inr h ↦ rw h tt
  ]

  queue_children-Ends :
      (node : BrowseNode) (crumbs : Breadcrumbs) (b c : SearchContext)
      → c.state.visited_nodes ≡ b.state.visited_nodes + 1
      → c.scopes ≡ b.scopes
      → c.calls ≡ b.calls
      → Ends O (Visited 1 b) (queue_children given node crumbs c)
  unfolding queue_children child_search_scope
  queue_children-Ends node crumbs b c v e q =
      let d = record c { scopes = queued (child_search_scope node crumbs) c.scopes } in
      elim (Bool-cases (leb max_search_visited d.state.visited_nodes)) [
        | inl full ↦
            rw full
              (complete_with-Ends (Visited 1 b) false true (some "search visit limit reached") d)
        | inr free ↦ rw free (record {
          count = v;
          below = ground arith;
          scopes =
              omega (arith, length-queued (child_search_scope node crumbs) c.scopes, ap length e);
          calls = q;
        })
      ]

  report-Ends :
      (node : BrowseNode) (crumbs : Breadcrumbs) (m : Option ProtoSearchMatch) (b c : SearchContext)
      → c.state.visited_nodes ≡ b.state.visited_nodes + 1
      → c.scopes ≡ b.scopes
      → c.calls ≡ b.calls
      → Ends O (Visited 1 b) (report_match given node crumbs m c)
  report-Ends node crumbs none b c v e q = queue_children-Ends node crumbs b c v e q
  report-Ends node crumbs (some m) b c v e q = elim (Bool-cases (is_open given c)) [
    | inr closed ↦ rw closed tt
    | inl open_stream ↦ rw open_stream (elim (Bool-cases (leb given.max_results c.state.matches)) [
      | inl full ↦ rw full (
          complete_with-Ends (Visited 1 b) false true (some "search result limit reached")
            (sending (found m) c))
      | inr below ↦ rw below (queue_children-Ends node crumbs b (sending (found m) c) v e q)
    ])
  ]

  process_node-Ends :
      (node : BrowseNode) (crumbs : Breadcrumbs) (c : SearchContext)
      → c.state.visited_nodes < max_search_visited
      → Ends O (Visited 1 c) (process_node given node crumbs c)
  unfolding process_node match_node
  process_node-Ends node crumbs c h =
      let s = record c.state { visited_nodes = saturating_add u32_max c.state.visited_nodes 1 } in
      let (state, m) = match_node given.request given.mode node crumbs s in
      report-Ends node crumbs m c (record c { state = state })
        (omega (arith, visited-match_node given.request given.mode node crumbs s)) refl refl

  process_nodes-Ends :
      (nodes : List BrowseNode) (crumbs : Breadcrumbs) (c : SearchContext)
      → c.state.visited_nodes < max_search_visited
      → Ends O (Visited (length nodes) c) (process_nodes given nodes crumbs c)
  unfolding process_nodes
  process_nodes-Ends [] crumbs c h = record {
    count = omega arith;
    below = h;
    scopes = omega arith;
    calls = refl;
  }
  process_nodes-Ends (node ∷ nodes) crumbs c h =
      continuing-Ends (Visited 1 c) (Visited (length (node ∷ nodes)) c)
        (process_node given node crumbs c) _ (process_node-Ends node crumbs c h)
        (λ d v.
          after d v (process_nodes given nodes crumbs d)
            (process_nodes-Ends nodes crumbs d v.below))
    where
      after :
          (d : SearchContext)
          → Visited 1 c d
          → (r : SearchContext × Step) → Ends O (Visited (length nodes) d) r
          → Ends O (Visited (length (node ∷ nodes)) c) r
      after d v (e, continue) w =
          omega (arith, v.count, w.count, w.below, v.scopes, w.scopes, v.calls, w.calls)
      after d v (e, stop) w = tt
      after d v (e, out_of_fuel) w = w
      after d v (e, failed x) w = tt

  pub process_page-Ends :
      (nodes : List BrowseNode) (partial : Bool) (crumbs : Breadcrumbs) (c : SearchContext)
      → c.state.visited_nodes < max_search_visited
      → Ends O (Visited (length nodes) c) (process_page given nodes partial crumbs c)
  unfolding process_page
  process_page-Ends nodes partial crumbs c h =
      continuing-Ends (Visited (length nodes) c) (Visited (length nodes) c)
        (process_nodes given nodes crumbs c) _ (process_nodes-Ends nodes crumbs c h)
        (λ d v. elim (Bool-cases (is_open given d)) [
          | inl o ↦
              rw o (record { count = v.count; below = v.below; scopes = v.scopes; calls = v.calls })
          | inr o ↦ rw o tt
        ])
