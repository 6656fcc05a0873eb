-- ===== src/Browse/Tests.antt =====
-- Browsing at concrete inputs, with a client that answers every request with one page.
use Prim.Native.String.{String}
use opcda_bridge.Base.{
  ℕ, ◌+◌, ◌≡◌, ◌≢◌, ◌↔◌, refl, Bool, true, Option, none, some, [], ◌∷◌, arith, String-discrete, get,
}
use opcda_bridge.Browse.{
  item, hierarchical, da3, BrowsePage, PageKey, PageKey-discrete, PageBinding, Session, ok,
}
use opcda_bridge.Browse.Sessions.{new_session, touch, cache_page, bind_page, invalidate_parent}
use opcda_bridge.Browse.Calls.{Sessions, answers, Surroundings}
use opcda_bridge.Browse.Locks.{native_keys, native_token, native_parent, prepare, look_up, Prepared}
use opcda_bridge.Browse.Manager.{browse, close_session}
use opcda_bridge.Browse.Caches.{Inv, IsConsistent, new_session-Inv, bind_page-Inv}
use opcda_bridge.Browse.Kept.{TableInv, Keeps}
use opcda_bridge.Browse.Capacity.{calls_keep_table}
use opcda_bridge.Browse.Refresh.{Fits, native_token_lem, refresh_forgets}

abbrev native_page : BrowsePage
native_page = record {
  nodes =
      record {
        node_key = "native-pump";
        display_name = "pump";
        kind = item;
        item_id = some "plant.pump";
      }
      ∷ [];
  next_page_token = none;
  complete = true;
  organization = hierarchical;
  source = da3;
  warning = none;
}

abbrev surroundings : Surroundings
surroundings = record {
  client = record {
    open_browse_session = λ server. answers "native-session";
    browse_page = λ id parent token size refresh. answers native_page;
    close_browse_session = λ id. answers tt;
  };
  clock = λ n. 100 + n;
  session_token = "session";
  fresh = λ n. "node";
  others = λ k m. m;
}

abbrev root : PageKey
root = record { parent_node_key = none; page_token = none; page_size = 200 }

abbrev binding : PageBinding
binding = record { native_page_token = "native-token"; parent_node_key = none; page_size = 200 }

abbrev opened : Session
opened = new_session 100 "plant" "native-session"

abbrev bound : Session
bound = bind_page "token" binding opened

bound-Inv : Inv bound
bound-Inv = bind_page-Inv "token" binding opened (new_session-Inv 100 "plant" "native-session")

abbrev table : Sessions
table = ("session", bound) ∷ []

table-TableInv : TableInv table
unfolding get
table-TableInv = record {
  unique = (refl, tt);
  bounded = omega arith;
  sessions = λ id s e. ground (arith, e, bound-Inv);
}

calls_keep_table_example :
    ((server : String) (id parent token : Option String) (page_size : ℕ) (refresh : Bool)
      → Keeps
          (λ answer. IsConsistent answer.1)
          (browse surroundings server id parent token page_size refresh table))
    × ((id : String) → TableInv (close_session surroundings id table).0)
calls_keep_table_example = calls_keep_table surroundings (λ k m i. i) table table-TableInv

native_token_lem_example :
    (native_token bound (record root { page_token = some "token" }) (some "token")
      ≡ ok (some "native-token"))
    ↔ ((b : PageBinding) × (get String-discrete "token" bound.page_bindings ≡ some b)
        × Fits (record root { page_token = some "token" }) (some "native-token") b)
native_token_lem_example =
    native_token_lem bound (record root { page_token = some "token" }) "token" (some "native-token")

abbrev refreshed : Session
refreshed = invalidate_parent none (touch 102 bound)

abbrev prepared_root : Prepared
prepared_root = record {
  native_session = "native-session";
  parent = none;
  token = none;
  cached = none;
}

refresh_forgets_example :
    (prepared_root.cached ≡ none)
    × ((k : PageKey) (page : BrowsePage)
        → (get PageKey-discrete k refreshed.pages ≡ some page)
          ↔ ((get PageKey-discrete k bound.pages ≡ some page) × (k.parent_node_key ≢ none)))
    × ((t : String) (b : PageBinding)
        → (get String-discrete t refreshed.page_bindings ≡ some b)
          ↔ ((get String-discrete t bound.page_bindings ≡ some b) × (b.parent_node_key ≢ none)))
unfolding prepare look_up native_keys native_parent native_token String-discrete new_session
    bind_page
refresh_forgets_example =
    refresh_forgets 102 "plant" root bound refreshed prepared_root bound-Inv refl

abbrev answer : BrowsePage
answer = record native_page {
  nodes =
      record { node_key = "node"; display_name = "pump"; kind = item; item_id = some "plant.pump" }
      ∷ [];
}

abbrev browsed : Session
browsed =
    cache_page root answer
      (record opened { last_used = 104; node_bindings = ("node", "native-pump") ∷ [] })
