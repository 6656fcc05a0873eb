-- ===== src/Wire/Messages.antt =====
-- crates/opcda-bridge-proto/proto/bridge.proto: the messages of the protocol, as the generated types
-- have them: an `optional` field, and a field that is a message, may be missing. `V` stands for `f64`.
use Prim.Native.String.{String}
use opcda_bridge.Base.{ℕ, Bool, Option, List}
use opcda_bridge.Compat.{Int32}

pub record ProtoGetCapabilitiesResponse : Type 0 where
  pub application_version : String
  pub protocol_version : String
  pub max_page_size : ℕ
  pub supports_browse_sessions : Bool
  pub supports_search : Bool
  pub organization : Int32
  pub source : Int32
  pub supports_indexed_search : Bool
  pub indexed_search_protocol_version : String
  pub max_indexed_search_results : ℕ
  pub search_index_state : Int32
  pub search_index_promoting : Bool

pub record ProtoBrowseRequest : Type 0 where
  pub server : String
  pub session_id : Option String
  pub parent_node_key : Option String
  pub page_token : Option String
  pub page_size : ℕ
  pub refresh : Bool

pub record ProtoBrowseNode : Type 0 where
  pub node_key : String
  pub display_name : String
  pub kind : Int32
  pub item_id : Option String

pub record ProtoBrowsePage : Type 0 where
  pub session_id : String
  pub nodes : List ProtoBrowseNode
  pub next_page_token : Option String
  pub complete : Bool
  pub organization : Int32
  pub source : Int32
  pub warning : Option String

pub record ProtoSearchRequest : Type 0 where
  pub server : String
  pub query : String
  pub match_mode : Int32
  pub session_id : Option String
  pub scope_node_key : Option String
  pub max_results : ℕ
  pub include_branches : Bool
  pub refresh : Bool

pub record ProtoBrowseBreadcrumb : Type 0 where
  pub node_key : String
  pub display_name : String

pub record ProtoSearchMatch : Type 0 where
  pub node : Option ProtoBrowseNode
  pub breadcrumbs : List ProtoBrowseBreadcrumb

pub record ProtoSearchProgress : Type 0 where
  pub visited_nodes : ℕ
  pub matches : ℕ
  pub partial : Bool

pub record ProtoSearchCompleted : Type 0 where
  pub complete : Bool
  pub cancelled : Bool
  pub truncated : Bool
  pub warning : Option String

pub record ProtoSearchIndexRequest : Type 0 where
  pub server : String
  pub query : String
  pub match_mode : Int32
  pub max_results : ℕ

pub record ProtoIndexInventoryLimits : Type 0 where
  pub item_rate_per_second : ℕ
  pub batch_size : ℕ
  pub duty_cycle_percent : ℕ

pub record ProtoIndexForegroundDiagnostics : Type 0 where
  pub active_count : ℕ
  pub operations : ℕ
  pub errors : ℕ
  pub bad_quality : ℕ
  pub latency_p50_ms : Option ℕ
  pub latency_p95_ms : Option ℕ
  pub latency_max_ms : Option ℕ
  pub last_error : Bool
  pub last_bad_quality : Bool

pub record ProtoIndexHostDiagnostics (V : Type 0) : Type 0 where
  pub cpu_percent : Option V
  pub available_memory_percent : Option V
  pub disk_active_percent : Option V
  pub disk_queue : Option V
  pub process_working_set_bytes : Option ℕ
  pub process_private_bytes : Option ℕ
  pub process_read_bytes_per_second : Option ℕ
  pub process_write_bytes_per_second : Option ℕ
  pub disk_free_bytes : Option ℕ

pub record ProtoIndexStorageDiagnostics : Type 0 where
  pub main_bytes : ℕ
  pub wal_bytes : ℕ
  pub shm_bytes : ℕ
  pub free_bytes : Option ℕ
  pub last_commit_latency_ms : Option ℕ

pub record ProtoIndexSchedulerDiagnostics : Type 0 where
  pub next_refresh_at : Option String
  pub last_attempt_at : Option String
  pub last_success_at : Option String
  pub last_success_duration_ms : Option ℕ
  pub retry_after : Option String
  pub consecutive_failures : ℕ
  pub circuit_open : Bool

pub record ProtoIndexHealthDiagnostics : Type 0 where
  pub state : Int32
  pub sentinel_configured : Bool

pub record ProtoIndexedSearchProgress (V : Type 0) : Type 0 where
  pub branches_visited : ℕ
  pub entries_seen : ℕ
  pub unique_items : ℕ
  pub active_time_ms : ℕ
  pub paused_time_ms : ℕ
  pub items_per_second : V
  pub estimated_remaining_ms : Option ℕ

pub record ProtoSearchIndexStatus (V : Type 0) : Type 0 where
  pub server : String
  pub state : Int32
  pub configured : Bool
  pub active_generation : ℕ
  pub entry_count : ℕ
  pub unique_item_count : ℕ
  pub started_at : Option String
  pub completed_at : Option String
  pub last_error : Option String
  pub database_bytes : ℕ
  pub organization : Int32
  pub source : Int32
  pub progress : Option (ProtoIndexedSearchProgress V)
  pub effective_limits : Option ProtoIndexInventoryLimits
  pub controller_state : Int32
  pub pause_reason : Option Int32
  pub recovery_deadline : Option String
  pub foreground : Option ProtoIndexForegroundDiagnostics
  pub host : Option (ProtoIndexHostDiagnostics V)
  pub storage : Option ProtoIndexStorageDiagnostics
  pub scheduler : Option ProtoIndexSchedulerDiagnostics
  pub health : Option ProtoIndexHealthDiagnostics
  pub promoting : Bool
  pub pause_reason_detail : Option String

pub record ProtoIndexedSearchMatch : Type 0 where
  pub item_id : String
  pub display_name : String
  pub kind : Int32
  pub breadcrumbs : List String

pub record ProtoSearchIndexResponse (V : Type 0) : Type 0 where
  pub matches : List ProtoIndexedSearchMatch
  pub has_more : Bool
  pub status : Option (ProtoSearchIndexStatus V)

-- The messages of a search stream: the `oneof` of SearchEvent, which may be missing.
pub data ProtoEvent : Type 0 where
  found : ProtoSearchMatch → ProtoEvent
  progress : ProtoSearchProgress → ProtoEvent
  completed : ProtoSearchCompleted → ProtoEvent

pub record ProtoSearchEvent : Type 0 where
  pub event : Option ProtoEvent
