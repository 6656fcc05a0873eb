-- ===== src/Browse/Locks.antt =====
-- browse.rs: the three parts of `browse_existing` that run under the lock of the table.
use Prim.Native.String.{String}
use opcda_bridge.Base.{
  ℕ, suc, ◌+◌, Bool, true, false, not, ◌&&◌, Option, none, some, List, [], ◌∷◌, ite, is_some, ltb,
  ◌==◌, if◌then◌else◌, String-discrete, get, insert, length,
}
use opcda_bridge.Browse.{
  BrowseNode, BrowsePage, PageKey, PageKey-discrete, Parent-discrete, PageBinding, Session, Status,
  parent_not_found, other_server, invalid_page_token, other_page_size, other_parent, too_many_nodes,
  complete_with_token, incomplete_without_token, Result, ok, err, ◌>>=◌,
  max_node_bindings_per_session,
}
use opcda_bridge.Browse.Sessions.{touch, cache_page, invalidate_parent, bind_page}

abbrev pub or_status {ℓ} : {A : Type ℓ} → Status → Option A → Result A
or_status e none = err e
or_status e (some a) = ok a

-- The native key of the parent, if a parent is named.
unfoldable pub native_parent : Session → Option String → Result (Option String)
native_parent s none = ok none
native_parent s (some key) = do
  native ← or_status parent_not_found (get String-discrete key s.node_bindings)
  ok (some native)

unfoldable pub check_binding : PageKey → PageBinding → Result String
check_binding key b =
    if b.page_size == key.page_size
    then ite (Parent-discrete b.parent_node_key key.parent_node_key) (ok b.native_page_token)
        (err other_parent)
    else err other_page_size

-- The native token of the page, if the key names a token.
unfoldable pub native_token : Session → PageKey → Option String → Result (Option String)
native_token s key none = ok none
native_token s key (some token) = do
  binding ← or_status invalid_page_token (get String-discrete token s.page_bindings)
  native ← check_binding key binding
  ok (some native)

pub record Prepared : Type 0 where
  pub native_session : String
  pub parent : Option String
  pub token : Option String
  pub cached : Option BrowsePage

unfoldable pub native_keys : PageKey → Session → Result (Option String × Option String)
native_keys key s = do
  parent ← native_parent s key.parent_node_key
  token ← native_token s key key.page_token
  ok (parent, token)

unfoldable pub look_up :
    PageKey → Bool → Session → Result (Option String × Option String) → Session × Result Prepared
look_up key refresh s (err e) = (s, err e)
look_up key true s (ok (parent, token)) = (
  invalidate_parent key.parent_node_key s,
  ok (record {
    native_session = s.native_session_id;
    parent = parent;
    token = token;
    cached = none;
  }),
)
look_up key false s (ok (parent, token)) = (
  s,
  ok (record {
    native_session = s.native_session_id;
    parent = parent;
    token = token;
    cached = get PageKey-discrete key s.pages;
  }),
)

-- The first lock of `browse_existing`.
unfoldable pub prepare : ℕ → String → PageKey → Bool → Session → Session × Result Prepared
prepare now server key refresh s =
    ite (String-discrete s.server server)
      (look_up key refresh (touch now s) (native_keys key (touch now s))) (s, err other_server)

-- The second lock: another call may have stored the page.
unfoldable pub recheck : ℕ → PageKey → Bool → Session → Session × Result (Option BrowsePage)
recheck now key refresh s =
    (touch now s, ok (if refresh then none else get PageKey-discrete key s.pages))

-- The checks of the native page before the last lock.
unfoldable pub check_page : BrowsePage → Result BrowsePage
check_page p =
    if p.complete && is_some p.next_page_token
    then err complete_with_token
    else if not p.complete && not (is_some p.next_page_token)
    then err incomplete_without_token
    else ok p

-- Each node gets a token of its own, bound to its native key.
unfoldable pub bind_nodes :
    (ℕ → String)
    → ℕ
    → List BrowseNode
    → List (String × String)
    → List BrowseNode × List (String × String)
bind_nodes fresh i [] bindings = ([], bindings)
bind_nodes fresh i (n ∷ ns) bindings =
    let rest = bind_nodes fresh (suc i) ns (insert String-discrete (fresh i) n.node_key bindings) in
    (record n { node_key = fresh i } ∷ rest.0, rest.1)

abbrev pub bind_next : String → PageKey → Option String → Session → Session × Option String
bind_next token key none s = (s, none)
bind_next token key (some native) s = (
  bind_page token
      (record {
        native_page_token = native;
        parent_node_key = key.parent_node_key;
        page_size = key.page_size;
      })
      s,
  some token,
)

-- The last lock of `browse_existing`.
unfoldable pub record_page :
    ℕ → (ℕ → String) → PageKey → BrowsePage → Session → Session × Result BrowsePage
record_page now fresh key native found =
    if ltb max_node_bindings_per_session (length found.node_bindings + length native.nodes)
    then (touch now found, err too_many_nodes)
    else (let bound = bind_nodes fresh 0 native.nodes found.node_bindings in
        let s = record (touch now found) { node_bindings = bound.1 } in
        let next = bind_next (fresh (length native.nodes)) key native.next_page_token s in
        let page = record native { nodes = bound.0; next_page_token = next.1 } in
        (cache_page key page next.0, ok page))
