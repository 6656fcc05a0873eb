-- ===== src/Browse/Caches.antt =====
-- Session of browse.rs: what its caches of pages and of page tokens hold, and how many.
use Prim.Native.String.{String}
use opcda_bridge.Base.{
  ℕ, ◌-◌, ◌≤◌, ◌≡◌, refl, Bool, true, false, not, Option, none, some, List, [], ◌∷◌, ◌++◌, ite,
  arith, is_some, if◌then◌else◌, length, drop, length-drop-last, retain_entries, String-discrete,
  member, IsUnique, member-append, member-without, without-IsUnique, snoc-IsUnique, drop-IsUnique,
  member-drop, member-retain, retain-IsUnique, length-retain-le, get, insert, get-insert,
  get-retain_keys, HasUniqueKeys, evict-order, get-evict, evict-covered, insert-HasUniqueKeys,
  evict-HasUniqueKeys, retain_entries-HasUniqueKeys, get-retain_entries, member-drop-snoc,
  length-append,
}
use opcda_bridge.Browse.{
  BrowsePage, PageKey, PageKey-discrete, PageBinding, Session, max_cached_pages_per_session,
  max_page_bindings_per_session,
}
use opcda_bridge.Browse.Sessions.{
  new_session, purged, cache_page, invalidate_parent, is_other_parent, bind_page, touch,
}

-- A page says that it is the last one exactly if it names no next page.
abbrev pub IsConsistent : BrowsePage → Type 0
IsConsistent p = p.complete ≡ not (is_some p.next_page_token)

-- The queue names each page once, and exactly the pages held; no more pages and page tokens are
-- held than the limits; and each page is consistent.
pub record Inv (s : Session) : Type 0 where
  pub unique : IsUnique PageKey-discrete s.page_order
  pub agree :
      (k : PageKey)
      → member PageKey-discrete k s.page_order ≡ is_some (get PageKey-discrete k s.pages)
  pub bounded : length s.page_order ≤ max_cached_pages_per_session
  pub consistent :
      (k : PageKey) (p : BrowsePage) → get PageKey-discrete k s.pages ≡ some p → IsConsistent p
  pub tokens_unique : HasUniqueKeys String-discrete s.page_bindings
  pub tokens_covered :
      (t : String)
      → is_some (get String-discrete t s.page_bindings) ≡ true
      → member String-discrete t s.page_binding_order ≡ true
  pub tokens_bounded : length s.page_binding_order ≤ max_page_bindings_per_session

pub new_session-Inv : (now : ℕ) (server native : String) → Inv (new_session now server native)
unfolding new_session member get
new_session-Inv now server native = record {
  unique = tt;
  agree = λ k. refl;
  bounded = omega arith;
  consistent = λ k p e. ground arith;
  tokens_unique = tt;
  tokens_covered = λ t e. ground arith;
  tokens_bounded = omega arith;
}

abbrev queued : PageKey → List PageKey → Bool
queued = member PageKey-discrete

member-purged :
    (key j : PageKey) (s : Session)
    → Inv s
    → queued j (purged key s) ≡ ite (PageKey-discrete key j) false (queued j s.page_order)
member-purged key j s i =
    ground (arith, i.agree key, member-without PageKey-discrete j key s.page_order)

moved-IsUnique :
    (key : PageKey) (s : Session) → Inv s → IsUnique PageKey-discrete (purged key s ++ key ∷ [])
moved-IsUnique key s i =
    snoc-IsUnique PageKey-discrete key (purged key s)
      (ground (arith, i.unique, without-IsUnique PageKey-discrete key s.page_order i.unique))
      (ground (arith, member-purged key key s i))

member-moved :
    (key j : PageKey) (s : Session)
    → Inv s
    → queued j (purged key s ++ key ∷ [])
      ≡ ite (PageKey-discrete key j) true (queued j s.page_order)
member-moved key j s i =
    rw (member-append PageKey-discrete j (purged key s) (key ∷ []))
      (unfold member in ground (arith, member-purged key j s i))

cache_page-order :
    (key : PageKey) (page : BrowsePage) (s : Session)
    → let moved = purged key s ++ key ∷ [] in
      (cache_page key page s).page_order ≡ drop (length moved - max_cached_pages_per_session) moved
unfolding cache_page
cache_page-order key page s = evict-order PageKey-discrete max_cached_pages_per_session _ _

pub cache_page-pages :
    (key j : PageKey) (page : BrowsePage) (s : Session)
    → Inv s
    → get PageKey-discrete j (cache_page key page s).pages ≡ (
        if queued j (cache_page key page s).page_order
        then ite (PageKey-discrete key j) (some page) (get PageKey-discrete j s.pages)
        else none)
unfolding cache_page
cache_page-pages key j page s i = ground (
  arith,
  get-evict PageKey-discrete max_cached_pages_per_session (insert PageKey-discrete key page s.pages)
      _ j (moved-IsUnique key s i),
  get-insert PageKey-discrete key j page s.pages,
  member-moved key j s i,
  i.agree j,
)

pub cache_page-present :
    (key : PageKey) (page : BrowsePage) (s : Session)
    → Inv s
    → queued key (cache_page key page s).page_order ≡ true
cache_page-present key page s i = rw (cache_page-order key page s) (
    member-drop-snoc PageKey-discrete key _ (purged key s)
      (omega (arith, length-append (purged key s) (key ∷ []))))

cache_page-queued :
    (key j : PageKey) (page : BrowsePage) (s : Session)
    → Inv s
    → queued j (cache_page key page s).page_order ≡ true
    → ite (PageKey-discrete key j) true (queued j s.page_order) ≡ true
cache_page-queued key j page s i m =
    let moved : List PageKey = purged key s ++ key ∷ [] in
    ground (
      arith,
      cache_page-order key page s,
      member-moved key j s i,
      member-drop PageKey-discrete j (length moved - max_cached_pages_per_session) moved,
    )

pub cache_page-Inv :
    (key : PageKey) (page : BrowsePage) (s : Session)
    → IsConsistent page
    → Inv s
    → Inv (cache_page key page s)
cache_page-Inv key page s c i = record {
  unique =
      rw (cache_page-order key page s)
        (drop-IsUnique PageKey-discrete _ _ (moved-IsUnique key s i));
  agree = λ j.
      ground (arith, cache_page-pages key j page s i, cache_page-queued key j page s i, i.agree j);
  bounded =
      rw (cache_page-order key page s)
        (length-drop-last max_cached_pages_per_session (purged key s ++ key ∷ []));
  consistent = λ j p e. ground (arith, cache_page-pages key j page s i, i.consistent j p, c);
  tokens_unique = unfold cache_page in i.tokens_unique;
  tokens_covered = unfold cache_page in i.tokens_covered;
  tokens_bounded = unfold cache_page in i.tokens_bounded;
}

pub bind_page-Inv :
    (token : String) (b : PageBinding) (s : Session) → Inv s → Inv (bind_page token b s)
unfolding bind_page
bind_page-Inv token b s i =
    let size = max_page_bindings_per_session in
    let bindings = insert String-discrete token b s.page_bindings in
    let order = s.page_binding_order ++ token ∷ [] in
    record {
      unique = i.unique;
      agree = i.agree;
      bounded = i.bounded;
      consistent = i.consistent;
      tokens_unique =
          evict-HasUniqueKeys String-discrete size bindings order
            (insert-HasUniqueKeys String-discrete token b s.page_bindings i.tokens_unique);
      tokens_covered = evict-covered String-discrete size bindings order (λ t h.
          rw (member-append String-discrete t s.page_binding_order (token ∷ [])) (
            unfold member in
            ground
              (arith, get-insert String-discrete token t b s.page_bindings, i.tokens_covered t)));
      tokens_bounded =
          rw (evict-order String-discrete size bindings order) (length-drop-last size order);
    }

pub invalidate_parent-Inv :
    (parent : Option String) (s : Session) → Inv s → Inv (invalidate_parent parent s)
unfolding invalidate_parent
invalidate_parent-Inv parent s i =
    let stays : PageKey → Bool = λ key. is_other_parent parent key.parent_node_key in
    let bindings : List (String × PageBinding) =
      retain_entries String-discrete (λ _ b. is_other_parent parent b.parent_node_key)
        s.page_bindings in
    record {
      unique = retain-IsUnique PageKey-discrete stays s.page_order i.unique;
      agree = λ k. ground (
        arith,
        member-retain PageKey-discrete stays k s.page_order,
        get-retain_keys PageKey-discrete stays k s.pages,
        i.agree k,
      );
      bounded = omega (arith, length-retain-le {0} stays s.page_order, i.bounded);
      consistent = λ k p e.
          ground (arith, get-retain_keys PageKey-discrete stays k s.pages, i.consistent k p);
      tokens_unique =
          retain_entries-HasUniqueKeys String-discrete
            (λ _ b. is_other_parent parent b.parent_node_key) s.page_bindings i.tokens_unique;
      tokens_covered = λ t h. ground (
        arith,
        member-retain String-discrete (λ u. is_some (get String-discrete u bindings)) t
            s.page_binding_order,
        get-retain_entries String-discrete (λ _ b. is_other_parent parent b.parent_node_key) t
            s.page_bindings i.tokens_unique,
        i.tokens_covered t,
      );
      tokens_bounded = omega (
        arith,
        length-retain-le {0} (λ u. is_some (get String-discrete u bindings)) s.page_binding_order,
        i.tokens_bounded,
      );
    }

pub touch-Inv : (now : ℕ) (s : Session) → Inv s → Inv (touch now s)
touch-Inv now s i = record {
  unique = i.unique;
  agree = i.agree;
  bounded = i.bounded;
  consistent = i.consistent;
  tokens_unique = i.tokens_unique;
  tokens_covered = i.tokens_covered;
  tokens_bounded = i.tokens_bounded;
}
