-- ===== src/Browse/Sessions.antt =====
-- browse.rs: the methods of Session.
use Prim.Native.String.{String}
use opcda_bridge.Base.{
  ℕ, Bool, true, false, Option, List, [], ◌∷◌, ◌++◌, ite, is_some, if◌then◌else◌, String-discrete,
  without, retain, get, insert, retain_keys, retain_entries, evict,
}
use opcda_bridge.Browse.{
  BrowsePage, PageKey, PageKey-discrete, Parent-discrete, PageBinding, Session,
  max_cached_pages_per_session, max_page_bindings_per_session,
}

unfoldable pub new_session : ℕ → String → String → Session
new_session now server native_session_id = record {
  server = server;
  native_session_id = native_session_id;
  last_used = now;
  node_bindings = [];
  page_bindings = [];
  page_binding_order = [];
  pages = [];
  page_order = [];
}

abbrev pub touch : ℕ → Session → Session
touch now s = record s { last_used = now }

-- The queue is purged of the key only if the key has a page.
abbrev pub purged : PageKey → Session → List PageKey
purged key s =
    if is_some (get PageKey-discrete key s.pages)
    then without PageKey-discrete key s.page_order
    else s.page_order

unfoldable pub cache_page : PageKey → BrowsePage → Session → Session
cache_page key page s =
    let kept =
      evict PageKey-discrete max_cached_pages_per_session (insert PageKey-discrete key page s.pages)
        (purged key s ++ key ∷ []) in
    record s { pages = kept.0; page_order = kept.1 }

abbrev pub is_other_parent : Option String → Option String → Bool
is_other_parent parent p = ite (Parent-discrete p parent) false true

unfoldable pub invalidate_parent : Option String → Session → Session
invalidate_parent parent s =
    let bindings =
      retain_entries String-discrete (λ _ b. is_other_parent parent b.parent_node_key)
        s.page_bindings in
    record s {
      pages =
          retain_keys PageKey-discrete (λ key. is_other_parent parent key.parent_node_key) s.pages;
      page_order = retain (λ key. is_other_parent parent key.parent_node_key) s.page_order;
      page_bindings = bindings;
      page_binding_order =
          retain (λ token. is_some (get String-discrete token bindings)) s.page_binding_order;
    }

unfoldable pub bind_page : String → PageBinding → Session → Session
bind_page token binding s =
    let kept =
      evict String-discrete max_page_bindings_per_session
        (insert String-discrete token binding s.page_bindings)
        (s.page_binding_order ++ token ∷ []) in
    record s { page_bindings = kept.0; page_binding_order = kept.1 }
