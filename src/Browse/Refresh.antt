-- ===== src/Browse/Refresh.antt =====
-- browse.rs: which page tokens a session accepts, and what a refresh of a parent forgets.
use Prim.Native.String.{String}
use opcda_bridge.Base.{
  ℕ, ◌≡◌, ◌≢◌, ◌↔◌, Bool, true, Option, none, some, arith, String-discrete, get, get-retain_keys,
  get-retain_entries, Option-cases, inl, inr,
}
use opcda_bridge.Browse.{BrowsePage, PageKey, PageKey-discrete, PageBinding, Session, ok}
use opcda_bridge.Browse.Sessions.{invalidate_parent, is_other_parent, touch}
use opcda_bridge.Browse.Locks.{Prepared, native_token, check_binding, look_up, prepare}
use opcda_bridge.Browse.Caches.{Inv, touch-Inv}

-- The binding of a token that fits the page asked for.
abbrev pub Fits : PageKey → Option String → PageBinding → Type 0
Fits key native b =
    (b.page_size ≡ key.page_size)
    × (b.parent_node_key ≡ key.parent_node_key)
    × (native ≡ some b.native_page_token)

-- A page token is accepted, and translated to a native token, exactly if it is bound in the
-- session, with the page size and the parent of the request, and to that native token.
pub native_token_lem :
    (s : Session) (key : PageKey) (token : String) (native : Option String)
    → (native_token s key (some token) ≡ ok native) ↔ (
        (b : PageBinding) × (get String-discrete token s.page_bindings ≡ some b)
        × Fits key native b)
unfolding native_token check_binding
native_token_lem s key token native =
    elim (Option-cases (get String-discrete token s.page_bindings)) [
      | inl e ↦ (λ h. ground (arith, e, h), λ (b, f, fits). ground (arith, e, f))
      | inr (b, e) ↦ (λ h. (b, e, ground (arith, e, h)), λ (c, f, fits). ground (arith, e, f, fits))
    ]

prepared-refresh :
    (now : ℕ) (server : String) (key : PageKey) (s after : Session) (p : Prepared)
    → prepare now server key true s ≡ (after, ok p)
    → (after ≡ invalidate_parent key.parent_node_key (touch now s)) × (p.cached ≡ none)
unfolding prepare look_up
prepared-refresh now server key s after p e = (ground arith, ground arith)

invalidated :
    (parent : Option String) (s : Session)
    → Inv s
    → ((k : PageKey) (page : BrowsePage)
        → (get PageKey-discrete k (invalidate_parent parent s).pages ≡ some page)
          ↔ ((get PageKey-discrete k s.pages ≡ some page) × (k.parent_node_key ≢ parent)))
      × ((t : String) (b : PageBinding)
          → (get String-discrete t (invalidate_parent parent s).page_bindings ≡ some b)
            ↔ ((get String-discrete t s.page_bindings ≡ some b) × (b.parent_node_key ≢ parent)))
unfolding invalidate_parent
invalidated parent s i =
    let stays : PageKey → Bool = λ key. is_other_parent parent key.parent_node_key in
    let bound : String → PageBinding → Bool = λ _ b. is_other_parent parent b.parent_node_key in
    (
      λ k page.
          let e = get-retain_keys PageKey-discrete stays k s.pages in
          (λ h. ground (arith, e, h), λ h. ground (arith, e, h)),
      λ t b.
          let e = get-retain_entries String-discrete bound t s.page_bindings i.tokens_unique in
          (λ h. ground (arith, e, h), λ h. ground (arith, e, h)),
    )

-- A refresh that is prepared answers from no cache, and leaves in the session exactly the pages
-- and the page tokens of other parents than the refreshed one.
pub refresh_forgets :
    (now : ℕ) (server : String) (key : PageKey) (s after : Session) (p : Prepared)
    → Inv s
    → prepare now server key true s ≡ (after, ok p)
    → (p.cached ≡ none)
      × ((k : PageKey) (page : BrowsePage)
          → (get PageKey-discrete k after.pages ≡ some page) ↔ (
              (get PageKey-discrete k s.pages ≡ some page)
              × (k.parent_node_key ≢ key.parent_node_key)))
      × ((t : String) (b : PageBinding)
          → (get String-discrete t after.page_bindings ≡ some b) ↔ (
              (get String-discrete t s.page_bindings ≡ some b)
              × (b.parent_node_key ≢ key.parent_node_key)))
refresh_forgets now server key s after p i e =
    let f = prepared-refresh now server key s after p e in
    let g = invalidated key.parent_node_key (touch now s) (touch-Inv now s i) in
    rw (f.0) (f.1, g.0, g.1)
