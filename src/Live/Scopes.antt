-- ===== src/Live/Scopes.antt =====
-- The pages of a scope and the scopes of a search: what it means that their fuel runs out.
use Prim.Native.String.{String}
use opcda_bridge.Base.{
  ◌-◌, ◌==◌, subst, Option-cases, ℕ, zero, suc, ◌+◌, ◌≤◌, ◌<◌, ◌≡◌, refl, ◌⊎◌, inl, inr, Bool, true,
  false, ◌&&◌, Option, none, some, List, [], ◌∷◌, arith, is_some, length, Bool-cases, ap,
}
use opcda_bridge.Browse.{BrowsePage}
use opcda_bridge.Browse as Browse
use opcda_bridge.Live.{
  SearchScope, SearchContext, Given, Step, continue, stop, out_of_fuel, failed, max_search_visited,
}
use opcda_bridge.Live.Loops.{process_page, process_pages, process_scope, process_scopes, browsed}
use opcda_bridge.Live.Stream.{Result-cases}
use opcda_bridge.Live.Ends.{
  Ends, Stalls, none_yet, answered, stalled, Stalls-fewer, HasStalls, Visited, continuing-Ends,
  complete_with-Ends, process_page-Ends,
}

pub List-cases {ℓ} :
    {A : Type ℓ} (xs : List A) → (xs ≡ []) ⊎ ((x : A) × (rest : List A) × (xs ≡ x ∷ rest))
List-cases [] = inl refl
List-cases (x ∷ xs) = inr (x, xs, refl)

-- How far a scope has brought the search: no scope joins the queue without a node visited.
record Advanced (c d : SearchContext) : Type 0 where
  grown : c.state.visited_nodes ≤ d.state.visited_nodes
  below : d.state.visited_nodes < max_search_visited
  scopes : length d.scopes + c.state.visited_nodes ≤ length c.scopes + d.state.visited_nodes

Stalls-at_most :
    {given : Given} {parent token : Option String} {refresh first : Bool} {k : ℕ} (m n : ℕ)
    → m ≤ n
    → Stalls given parent refresh n k token first
    → Stalls given parent refresh m k token first
Stalls-at_most {given} {parent} {token} {refresh} {first} {k} m zero h s =
    let same : zero ≡ m = omega arith in
    subst (λ x. Stalls given parent refresh x k token first) same s
Stalls-at_most {given} {parent} {token} {refresh} {first} {k} m (suc n) h s =
    elim (Bool-cases (m == suc n)) [
      | inl e ↦
          let same : suc n ≡ m = ground arith in
          subst (λ x. Stalls given parent refresh x k token first) same s
      | inr e ↦ Stalls-at_most m n (ground arith) (Stalls-fewer s)
    ]

module _ (given : Given) where
  -- What out of fuel means for the pages of a scope.
  abbrev Stalled : ℕ → SearchScope → Option String → Bool → SearchContext → Type 0
  Stalled fuel scope token first c =
      Stalls given scope.parent_node_key scope.refresh
        (c.state.visited_nodes + fuel - max_search_visited) c.calls token first

  further :
      (O : Type 0) (c d : SearchContext)
      → Advanced c d
      → (r : SearchContext × Step) → Ends O (Advanced d) r
      → Ends O (Advanced c) r
  further O c d v (e, continue) w = omega (arith, v.grown, w.grown, w.below, v.scopes, w.scopes)
  further O c d v (e, stop) w = tt
  further O c d v (e, out_of_fuel) w = w
  further O c d v (e, failed x) w = tt

  relaxed :
      (O O' : Type 0) (P : SearchContext → Type 0)
      → (O → O')
      → (r : SearchContext × Step) → Ends O P r
      → Ends O' P r
  relaxed O O' P f (c, continue) w = w
  relaxed O O' P f (c, stop) w = tt
  relaxed O O' P f (c, out_of_fuel) w = f w
  relaxed O O' P f (c, failed x) w = tt

  -- A page with nodes brings the visit limit closer, and one without is a stall.
  page-Stalled :
      (fuel : ℕ) (scope : SearchScope) (token : Option String) (first : Bool)
      (page : Browse.BrowsePage) (next : String) (c d : SearchContext)
      → given.browse c.calls scope.parent_node_key token (scope.refresh && first) ≡ Browse.ok page
      → page.next_page_token ≡ some next
      → Visited (length page.nodes) (browsed given c) d
      → c.state.visited_nodes < max_search_visited
      → Stalled fuel scope (some next) false d
      → Stalled (suc fuel) scope token first c
  page-Stalled fuel scope token first page next c d e t v h s =
      let later : Stalls given scope.parent_node_key scope.refresh
          (d.state.visited_nodes + fuel - max_search_visited) (c.calls + 1) (some next) false =
        subst
          (λ k.
            Stalls given scope.parent_node_key scope.refresh
              (d.state.visited_nodes + fuel - max_search_visited) k (some next) false)
          v.calls s in
      elim (Bool-cases (length page.nodes == 0)) [
        | inl empty ↦
            Stalls-at_most _ _ (omega (arith, v.count)) (stalled page next e t (ground arith) later)
        | inr full ↦ Stalls-at_most _ _ (ground (arith, v.count)) (answered page next e t later)
      ]

  next_page :
      (fuel : ℕ) (scope : SearchScope) (token : Option String) (first : Bool)
      (page : Browse.BrowsePage) (c d : SearchContext)
      → c.state.visited_nodes < max_search_visited
      → given.browse c.calls scope.parent_node_key token (scope.refresh && first) ≡ Browse.ok page
      → ((t : String)
          → d.state.visited_nodes < max_search_visited
          → Ends
              (Stalled fuel scope (some t) false d)
              (Advanced d)
              (process_pages given fuel scope (some t) false d))
      → Visited (length page.nodes) (browsed given c) d
      → Ends (Stalled (suc fuel) scope token first c) (Advanced c) (elim page.next_page_token [
        | none ↦ (d, continue)
        | some t ↦ process_pages given fuel scope (some t) false d
      ])
  next_page fuel scope token first page c d h e k v = elim (Option-cases page.next_page_token) [
    | inl last ↦ rw last (omega (arith, v.count, v.below, v.scopes))
    | inr (t, more) ↦
        let r = process_pages given fuel scope (some t) false d in
        let out = Stalled (suc fuel) scope token first c in
        rw more (
          further out c d (omega (arith, v.count, v.below, v.scopes)) r (
            relaxed (Stalled fuel scope (some t) false d) out (Advanced d)
              (page-Stalled fuel scope token first page t c d e more v h) r (k t v.below)))
  ]

  process_pages-Ends :
      (fuel : ℕ) (scope : SearchScope) (token : Option String) (first : Bool) (c : SearchContext)
      → c.state.visited_nodes < max_search_visited
      → Ends
          (Stalled fuel scope token first c)
          (Advanced c)
          (process_pages given fuel scope token first c)
  unfolding process_pages
  process_pages-Ends zero scope token first c h = Stalls-at_most _ 0 (omega arith) none_yet
  process_pages-Ends (suc fuel) scope token first c h =
      elim (Result-cases
        (given.browse c.calls scope.parent_node_key token (scope.refresh && first))) [
          | inl (e, eq) ↦ rw (eq, process_pages) tt
          | inr (page, eq) ↦
              let out = Stalled (suc fuel) scope token first c in
              rw (eq, process_pages)
                (continuing-Ends given out (Visited (length page.nodes) (browsed given c))
                  (Advanced c)
                  (process_page given page.nodes (is_some page.next_page_token) scope.breadcrumbs
                    (browsed given c))
                  _
                  (process_page-Ends given out page.nodes (is_some page.next_page_token)
                    scope.breadcrumbs (browsed given c) h)
                  (λ d v.
                    next_page fuel scope token first page c d h eq
                      (λ t. process_pages-Ends fuel scope (some t) false d) v))
        ]

  -- What out of fuel means for the search.
  abbrev pub Endless : ℕ → Type 0
  Endless pages = HasStalls given (pages - max_search_visited)

  pub process_scopes-Ends :
      (fuel pages : ℕ) (c : SearchContext)
      → c.state.visited_nodes < max_search_visited
      → max_search_visited + length c.scopes < c.state.visited_nodes + fuel
      → Ends (Endless pages) (λ d. ⊥) (process_scopes given fuel pages c)
  unfolding process_scopes process_scope
  process_scopes-Ends zero pages c h f = absurd (omega arith)
  process_scopes-Ends (suc fuel) pages c h f = elim (List-cases c.scopes) [
    | inl e ↦
        rw (e, process_scopes) (complete_with-Ends given (Endless pages) (λ d. ⊥) true false none c)
    | inr (scope, rest, e) ↦
        let size : length c.scopes ≡ suc (length rest) = ap length e in
        let popped = record c { scopes = rest } in
        let r = process_pages given pages scope none true popped in
        rw (e, process_scopes)
          (continuing-Ends given (Endless pages) (Advanced popped) (λ d. ⊥) r _
            (relaxed (Stalled pages scope none true popped) (Endless pages) (Advanced popped)
              (λ s.
                (scope.parent_node_key, scope.refresh, c.calls, Stalls-at_most _ _ (omega arith) s))
              r (process_pages-Ends pages scope none true popped h))
            (λ d v.
              process_scopes-Ends fuel pages d v.below (omega (arith, v.grown, v.scopes, size))))
  ]
