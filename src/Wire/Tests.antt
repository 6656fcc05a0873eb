-- ===== src/Wire/Tests.antt =====
-- Messages of a concrete gateway: a page of one item, an empty status, and a manager that refuses.
use opcda_bridge.Base.{
  ◌+◌, ◌≡◌, refl, true, false, none, some, [], ◌∷◌, arith, all, if◌then◌else◌, get, insert, member,
  retain_entries, String-discrete, evict, without, remove,
}
use opcda_bridge.Browse as Browse
use opcda_bridge.Browse.{BrowsePage, item, hierarchical, da3}
use opcda_bridge.Browse.Sessions.{new_session, cache_page}
use opcda_bridge.Browse.Locks.{
  native_parent, native_token, native_keys, look_up, prepare, recheck, check_page, bind_nodes,
  record_page,
}
use opcda_bridge.Browse.Manager.{
  normalize_page_size, remove_expired, new_entry, open_session, fetch, store_page, fetch_page,
  browse_uncached, browse_existing, close_on_error, browse_in, browse_sized, browse,
}
use opcda_bridge.Browse.Calls.{Sessions, answers, Surroundings}
use opcda_bridge.Browse.Kept.{TableInv}
use opcda_bridge.Query.Search.{IndexState}
use opcda_bridge.Index.Status.{IndexStatus, empty_status}
use opcda_bridge.Wire.Library as Library
use opcda_bridge.Wire.Library.{SearchMatchMode, SearchIndexRequest}
use opcda_bridge.Wire.Gateway.{map_index_status, map_browse_page}
use opcda_bridge.Wire.Read.{ok, err, selectable_without_item_id}
use opcda_bridge.Wire.Convert.{convert_page, convert_status}
use opcda_bridge.Wire.Pages.{is_named, client_page, browse-client_page}
use opcda_bridge.Wire.Restored.{gateway_status, without_reason}
use opcda_bridge.Wire.Survives.{status-survives}
use opcda_bridge.Wire.Service as Service
use opcda_bridge.Wire.Service.{IndexManager, IndexOperationError, not_enrolled}

abbrev page : BrowsePage
page = record {
  nodes =
      record {
        node_key = "native-pump";
        display_name = "pump";
        kind = item;
        item_id = some "plant.pump";
      }
      ∷ [];
  next_page_token = none;
  complete = true;
  organization = hierarchical;
  source = da3;
  warning = none;
}

abbrev surroundings : Surroundings
surroundings = record {
  client = record {
    open_browse_session = λ server. answers "native-session";
    browse_page = λ id parent token size refresh. answers page;
    close_browse_session = λ id. answers tt;
  };
  clock = λ n. 100 + n;
  session_token = "session";
  fresh = λ n. "node";
  others = λ k m. m;
}

abbrev no_sessions : Sessions
no_sessions = []

no_sessions-TableInv : TableInv no_sessions
unfolding get
no_sessions-TableInv = record {
  unique = tt;
  bounded = omega arith;
  sessions = λ id s e. ground arith;
}

abbrev sent_page : BrowsePage
sent_page = record page {
  nodes =
      record { node_key = "node"; display_name = "pump"; kind = item; item_id = some "plant.pump" }
      ∷ [];
}

first_page :
    (browse surroundings "plant" none none none 200 false no_sessions).1
    ≡ Browse.ok ("session", sent_page)
unfolding browse browse_sized browse_in close_on_error open_session new_entry remove_expired
    normalize_page_size browse_existing browse_uncached fetch_page store_page fetch native_parent
    native_token native_keys look_up prepare recheck check_page bind_nodes record_page new_session
    cache_page get insert member retain_entries String-discrete evict without remove
first_page = refl

browse-client_page_example : convert_page (map_browse_page "session" sent_page) ≡ (
    if all is_named sent_page.nodes
    then ok (client_page "session" sent_page)
    else err selectable_without_item_id)
browse-client_page_example =
    browse-client_page surroundings (λ k m i. i) no_sessions no_sessions-TableInv "plant" none none
      none 200 false "session" sent_page first_page

abbrev index_status : IndexStatus Unit
index_status = record (empty_status Unit "plant" IndexState.promoting) { active_generation = 3 }

status-survives_example :
    (t : Library.SearchIndexStatus Unit) × (convert_status (map_index_status index_status) ≡ ok t)
    × (gateway_status t
        ≡ record index_status { controller_state = without_reason index_status.controller_state })
status-survives_example = status-survives index_status

abbrev manager : IndexManager Unit
manager = record {
  State = Unit {0};
  status = λ server s. (s, Service.ok index_status);
  refresh = λ server force s. (s, Service.err (not_enrolled server));
  control = λ server action s. (s, Service.err (not_enrolled server));
  search = λ server query mode limit s. (s, Service.err "no database");
  normalize_query = λ query. query;
  quoted = λ name. name;
}

abbrev request : SearchIndexRequest
request = record {
  server = "plant";
  query = "pump";
  match_mode = SearchMatchMode.contains;
  max_results = 10;
}
