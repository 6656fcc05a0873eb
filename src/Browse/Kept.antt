-- ===== src/Browse/Kept.antt =====
-- BrowseManager of browse.rs: what each step of a call keeps of the table of sessions.
use Prim.Native.String.{String}
use opcda_bridge.Base.{
  ℕ, ◌+◌, ◌≤◌, ◌≡◌, refl, ◌∙◌, ap, sym, Bool, true, false, not, Option, none, some, List, [], ◌∷◌,
  ite-both, if-both, arith, is_some, leb, ltb, length, String-discrete, get, insert, remove,
  get-insert, get-remove, HasUniqueKeys, insert-HasUniqueKeys, remove-HasUniqueKeys,
  retain_entries-HasUniqueKeys, get-retain_entries, length-insert-le, length-remove-le,
  length-retain_entries-le, Option-cases, inl, inr,
}
use opcda_bridge.Browse.{
  BrowsePage, PageKey, Session, Status, Result, ok, err, max_active_sessions, too_many_nodes,
  max_node_bindings_per_session,
}
use opcda_bridge.Browse.Sessions.{new_session, touch}
use opcda_bridge.Browse.Calls.{Sessions, session, put, Call, continue, update, with_session}
use opcda_bridge.Browse.Locks.{
  Prepared, look_up, prepare, recheck, bind_nodes, bind_next, record_page,
}
use opcda_bridge.Browse.Manager.{is_alive, remove_expired}
use opcda_bridge.Browse.Caches.{
  Inv, IsConsistent, new_session-Inv, cache_page-Inv, bind_page-Inv, invalidate_parent-Inv,
  touch-Inv,
}

-- Each session has one entry, there are no more than the limit, and each keeps its caches well.
pub record TableInv (m : Sessions) : Type 0 where
  pub unique : HasUniqueKeys String-discrete m
  pub bounded : length m ≤ max_active_sessions
  pub sessions : (id : String) (s : Session) → session m id ≡ some s → Inv s

pub length-insert-found :
    (k : String) (v w : Session) (m : Sessions)
    → get String-discrete k m ≡ some w
    → length (insert String-discrete k v m) ≡ length m
unfolding get insert
length-insert-found k v w [] e = ground arith
length-insert-found k v w ((j, u) ∷ m) e = ground (arith, length-insert-found k v w m)

pub put-TableInv :
    (k : String) (v w : Session) (m : Sessions)
    → session m k ≡ some w
    → Inv v
    → TableInv m
    → TableInv (put k v m)
put-TableInv k v w m e iv i = record {
  unique = insert-HasUniqueKeys String-discrete k v m i.unique;
  bounded = omega (arith, length-insert-found k v w m e, i.bounded);
  sessions = λ id s h. ground (arith, get-insert String-discrete k id v m, i.sessions id s, iv);
}

pub remove_expired-TableInv :
    (now : ℕ) (m : Sessions) → TableInv m → TableInv (remove_expired now m)
unfolding remove_expired
remove_expired-TableInv now m i = record {
  unique = retain_entries-HasUniqueKeys String-discrete (λ _ s. is_alive now s) m i.unique;
  bounded =
      omega (arith, length-retain_entries-le String-discrete (λ _ s. is_alive now s) m, i.bounded);
  sessions = λ id s h. ground (
    arith,
    get-retain_entries String-discrete (λ _ s. is_alive now s) id m i.unique,
    i.sessions id s,
  );
}

pub opened-TableInv :
    (now : ℕ) (server token native : String) (m : Sessions)
    → leb max_active_sessions (length m) ≡ false
    → TableInv m
    → TableInv (put token (new_session now server native) m)
opened-TableInv now server token native m free i = record {
  unique = insert-HasUniqueKeys String-discrete token (new_session now server native) m i.unique;
  bounded =
      ground (arith, length-insert-le String-discrete token (new_session now server native) m);
  sessions = λ id s h. ground (
    arith,
    get-insert String-discrete token id (new_session now server native) m,
    i.sessions id s,
    new_session-Inv now server native,
  );
}

pub remove-TableInv :
    (id : String) (m : Sessions) → TableInv m → TableInv (remove String-discrete id m)
remove-TableInv id m i = record {
  unique = remove-HasUniqueKeys String-discrete id m i.unique;
  bounded = omega (arith, length-remove-le String-discrete id m, i.bounded);
  sessions = λ j s h. ground (arith, get-remove String-discrete id j m, i.sessions j s);
}

-- A result of a call: the table is kept well, and a value has the property.
abbrev pub Keeps : {A : Type 0} → (A → Type 0) → Sessions × Result A → Type 0
Keeps P (m, ok a) = TableInv m × P a
Keeps P (m, err e) = TableInv m

pub Keeps-table : {A : Type 0} (P : A → Type 0) (r : Sessions × Result A) → Keeps P r → TableInv r.0
Keeps-table P (m, ok a) k = k.0
Keeps-table P (m, err e) k = k

pub Keeps-and_then :
    {A B : Type 0} (P : A → Type 0) (Q : B → Type 0) (f : A → Call B) (r : Sessions × Result A)
    → Keeps P r
    → ((a : A) (m : Sessions) → P a → TableInv m → Keeps Q (f a m))
    → Keeps Q (continue f r)
Keeps-and_then P Q f (m, ok a) k step = step a m k.1 k.0
Keeps-and_then P Q f (m, err e) k step = k

-- What a step under the lock has to keep of the session.
abbrev pub SessionKeeps : {A : Type 0} → (A → Type 0) → Session × Result A → Type 0
SessionKeeps P (s, ok a) = Inv s × P a
SessionKeeps P (s, err e) = Inv s

put-Keeps :
    {A : Type 0} (P : A → Type 0) (id : String) (m : Sessions) (s : Session)
    (r : Session × Result A)
    → session m id ≡ some s
    → TableInv m
    → SessionKeeps P r
    → Keeps P (put id r.0 m, r.1)
put-Keeps P id m s (t, ok a) h i k = (put-TableInv id t s m h k.0 i, k.1)
put-Keeps P id m s (t, err x) h i k = put-TableInv id t s m h k i

pub update-Keeps :
    {A : Type 0} (P : A → Type 0) (e : Status) (id : String) (f : Session → Session × Result A)
    (m : Sessions)
    → ((s : Session) → Inv s → SessionKeeps P (f s))
    → TableInv m
    → Keeps P (with_session e id f m)
update-Keeps P e id f m step i = elim (Option-cases (session m id)) [
  | inl h ↦ rw (h, update) i
  | inr (s, h) ↦ rw (h, update) (put-Keeps P id m s (f s) h i (step s (i.sessions id s h)))
]

-- The steps under the lock.

abbrev pub PreparedKeeps : Prepared → Type 0
PreparedKeeps p = (page : BrowsePage) → p.cached ≡ some page → IsConsistent page

look_up-Keeps :
    (key : PageKey) (refresh : Bool) (s : Session) (keys : Result (Option String × Option String))
    → Inv s
    → SessionKeeps PreparedKeeps (look_up key refresh s keys)
unfolding look_up
look_up-Keeps key refresh s (err e) i = i
look_up-Keeps key true s (ok keys) i =
    (invalidate_parent-Inv key.parent_node_key s i, λ page e. ground arith)
look_up-Keeps key false s (ok keys) i = (i, λ page e. i.consistent key page e)

pub prepare-Keeps :
    (now : ℕ) (server : String) (key : PageKey) (refresh : Bool) (s : Session)
    → Inv s
    → SessionKeeps PreparedKeeps (prepare now server key refresh s)
unfolding prepare
prepare-Keeps now server key refresh s i =
    ite-both (SessionKeeps PreparedKeeps) (String-discrete s.server server) _ _
      (look_up-Keeps key refresh (touch now s) _ (touch-Inv now s i)) i

abbrev pub OptionKeeps : Option BrowsePage → Type 0
OptionKeeps o = (page : BrowsePage) → o ≡ some page → IsConsistent page

pub recheck-Keeps :
    (now : ℕ) (key : PageKey) (refresh : Bool) (s : Session)
    → Inv s
    → SessionKeeps OptionKeeps (recheck now key refresh s)
unfolding recheck
recheck-Keeps now key refresh s i =
    (touch-Inv now s i, λ page e. ground (arith, i.consistent key page))

pub bind_next-Inv :
    (token : String) (key : PageKey) (o : Option String) (s : Session)
    → Inv s
    → Inv (bind_next token key o s).0 × (is_some (bind_next token key o s).1 ≡ is_some o)
bind_next-Inv token key none s i = (i, refl)
bind_next-Inv token key (some native) s i = (bind_page-Inv token _ s i, refl)

pub nodes-Inv :
    (bindings : List (String × String)) (s : Session)
    → Inv s
    → Inv (record s { node_bindings = bindings })
nodes-Inv bindings s i = record {
  unique = i.unique;
  agree = i.agree;
  bounded = i.bounded;
  consistent = i.consistent;
  tokens_unique = i.tokens_unique;
  tokens_covered = i.tokens_covered;
  tokens_bounded = i.tokens_bounded;
}

pub record_page-Keeps :
    (now : ℕ) (fresh : ℕ → String) (key : PageKey) (native : BrowsePage) (s : Session)
    → IsConsistent native
    → Inv s
    → SessionKeeps IsConsistent (record_page now fresh key native s)
unfolding record_page
record_page-Keeps now fresh key native s c i =
    let bindings : List (String × String) = (bind_nodes fresh 0 native.nodes s.node_bindings).1 in
    let n =
      bind_next-Inv (fresh (length native.nodes)) key native.next_page_token
        (record (touch now s) { node_bindings = bindings })
        (nodes-Inv bindings (touch now s) (touch-Inv now s i)) in
    let consistent : native.complete ≡ not (is_some _) = c ∙ ap not (sym (n.1)) in
    let full : Bool =
      ltb max_node_bindings_per_session (length s.node_bindings + length native.nodes) in
    if-both (SessionKeeps IsConsistent) full (touch now s, err too_many_nodes) _ (touch-Inv now s i)
      (cache_page-Inv key _ _ consistent (n.0), consistent)
