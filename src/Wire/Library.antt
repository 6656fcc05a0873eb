-- ===== src/Wire/Library.antt =====
-- crates/opcda-bridge/src/types: what the client library gives its callers. `V` stands for `f64`.
use Prim.Native.String.{String}
use opcda_bridge.Base.{ℕ, Bool, true, false, Option, List}

pub data NamespaceOrganization : Type 0 where
  unspecified flat hierarchical : NamespaceOrganization

pub data BrowseSource : Type 0 where
  unspecified da3 da2 flat derived : BrowseSource

pub data BrowseNodeKind : Type 0 where
  unspecified branch item branch_and_item : BrowseNodeKind

pub data SearchMatchMode : Type 0 where
  exact prefix contains : SearchMatchMode

pub data SearchIndexState : Type 0 where
  unspecified not_indexed partial ready stale refreshing promoting failed deleting :
      SearchIndexState

pub data SearchIndexControlAction : Type 0 where
  pause resume cancel enable_auto_refresh disable_auto_refresh delete : SearchIndexControlAction

pub data IndexControllerState : Type 0 where
  unspecified ramping steady throttled paused : IndexControllerState

pub data IndexPauseReason : Type 0 where
  unspecified foreground opc_health host_cpu memory disk database operator circuit :
      IndexPauseReason

pub data IndexHealthState : Type 0 where
  unspecified healthy unhealthy unavailable : IndexHealthState

pub record Capabilities : Type 0 where
  pub application_version : String
  pub protocol_version : String
  pub max_page_size : ℕ
  pub supports_browse_sessions : Bool
  pub supports_search : Bool
  pub organization : NamespaceOrganization
  pub source : BrowseSource
  pub supports_indexed_search : Bool
  pub indexed_search_protocol_version : String
  pub max_indexed_search_results : ℕ
  pub search_index_state : SearchIndexState
  pub search_index_promoting : Bool

pub record BrowseNode : Type 0 where
  pub node_key : String
  pub display_name : String
  pub kind : BrowseNodeKind
  pub item_id : Option String

pub record BrowsePage : Type 0 where
  pub session_id : String
  pub nodes : List BrowseNode
  pub next_page_token : Option String
  pub complete : Bool
  pub organization : NamespaceOrganization
  pub source : BrowseSource
  pub warning : Option String

pub record BrowsePageRequest : Type 0 where
  pub server : String
  pub session_id : Option String
  pub parent_node_key : Option String
  pub page_token : Option String
  pub page_size : ℕ
  pub refresh : Bool

pub record BrowseBreadcrumb : Type 0 where
  pub node_key : String
  pub display_name : String

pub record SearchRequest : Type 0 where
  pub server : String
  pub query : String
  pub match_mode : SearchMatchMode
  pub session_id : Option String
  pub scope_node_key : Option String
  pub max_results : ℕ
  pub include_branches : Bool
  pub refresh : Bool

pub record SearchMatch : Type 0 where
  pub node : BrowseNode
  pub breadcrumbs : List BrowseBreadcrumb

pub record SearchProgress : Type 0 where
  pub visited_nodes : ℕ
  pub matches : ℕ
  pub partial : Bool

pub record SearchCompleted : Type 0 where
  pub complete : Bool
  pub cancelled : Bool
  pub truncated : Bool
  pub warning : Option String

pub record IndexInventoryLimits : Type 0 where
  pub item_rate_per_second : ℕ
  pub batch_size : ℕ
  pub duty_cycle_percent : ℕ

pub record IndexForegroundDiagnostics : Type 0 where
  pub active_count : ℕ
  pub operations : ℕ
  pub errors : ℕ
  pub bad_quality : ℕ
  pub latency_p50_ms : Option ℕ
  pub latency_p95_ms : Option ℕ
  pub latency_max_ms : Option ℕ
  pub last_error : Bool
  pub last_bad_quality : Bool

pub record IndexHostDiagnostics (V : Type 0) : Type 0 where
  pub cpu_percent : Option V
  pub available_memory_percent : Option V
  pub disk_active_percent : Option V
  pub disk_queue : Option V
  pub process_working_set_bytes : Option ℕ
  pub process_private_bytes : Option ℕ
  pub process_read_bytes_per_second : Option ℕ
  pub process_write_bytes_per_second : Option ℕ
  pub disk_free_bytes : Option ℕ

pub record IndexStorageDiagnostics : Type 0 where
  pub main_bytes : ℕ
  pub wal_bytes : ℕ
  pub shm_bytes : ℕ
  pub free_bytes : Option ℕ
  pub last_commit_latency_ms : Option ℕ

pub record IndexSchedulerDiagnostics : Type 0 where
  pub next_refresh_at : Option String
  pub last_attempt_at : Option String
  pub last_success_at : Option String
  pub last_success_duration_ms : Option ℕ
  pub retry_after : Option String
  pub consecutive_failures : ℕ
  pub circuit_open : Bool

pub record IndexHealthDiagnostics : Type 0 where
  pub state : IndexHealthState
  pub sentinel_configured : Bool

pub record IndexedSearchProgress (V : Type 0) : Type 0 where
  pub branches_visited : ℕ
  pub entries_seen : ℕ
  pub unique_items : ℕ
  pub active_time_ms : ℕ
  pub paused_time_ms : ℕ
  pub items_per_second : V
  pub estimated_remaining_ms : Option ℕ

pub record SearchIndexStatus (V : Type 0) : Type 0 where
  pub server : String
  pub state : SearchIndexState
  pub auto_refresh_enabled : Bool
  pub active_generation : ℕ
  pub entry_count : ℕ
  pub unique_item_count : ℕ
  pub started_at : Option String
  pub completed_at : Option String
  pub last_error : Option String
  pub database_bytes : ℕ
  pub organization : NamespaceOrganization
  pub source : BrowseSource
  pub progress : Option (IndexedSearchProgress V)
  pub effective_limits : Option IndexInventoryLimits
  pub controller_state : IndexControllerState
  pub pause_reason : Option IndexPauseReason
  pub recovery_deadline : Option String
  pub pause_reason_detail : Option String
  pub foreground : IndexForegroundDiagnostics
  pub host : IndexHostDiagnostics V
  pub storage : IndexStorageDiagnostics
  pub scheduler : IndexSchedulerDiagnostics
  pub health : IndexHealthDiagnostics
  pub promoting : Bool

pub record SearchIndexRequest : Type 0 where
  pub server : String
  pub query : String
  pub match_mode : SearchMatchMode
  pub max_results : ℕ

pub record IndexedSearchMatch : Type 0 where
  pub item_id : String
  pub display_name : String
  pub kind : BrowseNodeKind
  pub breadcrumbs : List String

pub record SearchIndexResponse (V : Type 0) : Type 0 where
  pub matches : List IndexedSearchMatch
  pub has_more : Bool
  pub status : SearchIndexStatus V

pub data SearchEvent : Type 0 where
  found : SearchMatch → SearchEvent
  progress : SearchProgress → SearchEvent
  completed : SearchCompleted → SearchEvent

abbrev pub is_item : BrowseNodeKind → Bool
is_item BrowseNodeKind.item = true
is_item BrowseNodeKind.branch_and_item = true
is_item _ = false
