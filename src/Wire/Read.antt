-- ===== src/Wire/Read.antt =====
-- crates/opcda-bridge/src/types/conversions.rs: how the client library reads the gateway's messages.
-- A protocol error is a constructor for each message of the file.
use opcda_bridge.Base.{Bool, true, false, Option, none, some, List, [], ◌∷◌}
use opcda_bridge.Compat.{Int32}
use opcda_bridge.Wire.Enums.{
  ProtoNamespaceOrganization, organization_of, ProtoBrowseSource, source_of, ProtoBrowseNodeKind,
  node_kind_of, ProtoSearchIndexState, index_state_of, ProtoIndexControllerState,
  controller_state_of, ProtoIndexPauseReason, pause_reason_of, ProtoIndexHealthState,
  health_state_of,
}
use opcda_bridge.Wire.Library.{
  NamespaceOrganization, BrowseSource, BrowseNodeKind, SearchIndexState, IndexControllerState,
  IndexPauseReason, IndexHealthState,
}

pub data ProtocolError : Type 0 where
  unknown_organization unknown_source unknown_node_kind unknown_index_state : Int32 → ProtocolError
  unknown_controller_state unknown_pause_reason unknown_health_state : Int32 → ProtocolError
  selectable_without_item_id item_id_without_selectable : ProtocolError
  complete_with_token incomplete_without_token : ProtocolError
  match_not_selectable match_without_item_id results_without_status : ProtocolError
  match_without_node empty_event : ProtocolError

pub data Result (A : Type 0) : Type 0 where
  ok : A → Result A
  err : ProtocolError → Result A

infixl 5 ◌>>=◌
abbrev pub ◌>>=◌ : {A B : Type 0} → Result A → (A → Result B) → Result B
ok a >>= f = f a
err e >>= f = err e

abbrev pub ok_or : {A : Type 0} → Option A → ProtocolError → Result A
ok_or none e = err e
ok_or (some a) e = ok a

abbrev pub guard : Bool → ProtocolError → Result (Unit {0})
guard true e = err e
guard false e = ok tt

abbrev pub mapped : {A B : Type 0} → (A → B) → Option A → Option B
mapped f none = none
mapped f (some a) = some (f a)

-- `map(f).transpose()`.
abbrev pub transposed : {A B : Type 0} → (A → Result B) → Option A → Result (Option B)
transposed f none = ok none
transposed f (some a) = f a >>= λ b. ok (some b)

-- `map(f).collect()`: the first error ends it.
unfoldable pub collect : {A B : Type 0} → (A → Result B) → List A → Result (List B)
collect f [] = ok []
collect f (x ∷ xs) = do y ← f x; ys ← collect f xs; ok (y ∷ ys)

abbrev organization_value : ProtoNamespaceOrganization → NamespaceOrganization
organization_value ProtoNamespaceOrganization.unspecified = NamespaceOrganization.unspecified
organization_value ProtoNamespaceOrganization.flat = NamespaceOrganization.flat
organization_value ProtoNamespaceOrganization.hierarchical = NamespaceOrganization.hierarchical

unfoldable pub organization : Int32 → Result NamespaceOrganization
organization value = do
  known ← ok_or (organization_of value) (unknown_organization value)
  ok (organization_value known)

abbrev source_value : ProtoBrowseSource → BrowseSource
source_value ProtoBrowseSource.unspecified = BrowseSource.unspecified
source_value ProtoBrowseSource.da3 = BrowseSource.da3
source_value ProtoBrowseSource.da2 = BrowseSource.da2
source_value ProtoBrowseSource.flat = BrowseSource.flat
source_value ProtoBrowseSource.derived = BrowseSource.derived

unfoldable pub source : Int32 → Result BrowseSource
source value = do known ← ok_or (source_of value) (unknown_source value); ok (source_value known)

abbrev node_kind_value : ProtoBrowseNodeKind → BrowseNodeKind
node_kind_value ProtoBrowseNodeKind.unspecified = BrowseNodeKind.unspecified
node_kind_value ProtoBrowseNodeKind.branch = BrowseNodeKind.branch
node_kind_value ProtoBrowseNodeKind.item = BrowseNodeKind.item
node_kind_value ProtoBrowseNodeKind.branch_and_item = BrowseNodeKind.branch_and_item

unfoldable pub node_kind : Int32 → Result BrowseNodeKind
node_kind value = do
  known ← ok_or (node_kind_of value) (unknown_node_kind value)
  ok (node_kind_value known)

abbrev search_index_state_value : ProtoSearchIndexState → SearchIndexState
search_index_state_value ProtoSearchIndexState.unspecified = SearchIndexState.unspecified
search_index_state_value ProtoSearchIndexState.not_indexed = SearchIndexState.not_indexed
search_index_state_value ProtoSearchIndexState.partial = SearchIndexState.partial
search_index_state_value ProtoSearchIndexState.ready = SearchIndexState.ready
search_index_state_value ProtoSearchIndexState.stale = SearchIndexState.stale
search_index_state_value ProtoSearchIndexState.refreshing = SearchIndexState.refreshing
search_index_state_value ProtoSearchIndexState.failed = SearchIndexState.failed
search_index_state_value ProtoSearchIndexState.promoting = SearchIndexState.promoting
search_index_state_value ProtoSearchIndexState.deleting = SearchIndexState.deleting

unfoldable pub search_index_state : Int32 → Result SearchIndexState
search_index_state value = do
  known ← ok_or (index_state_of value) (unknown_index_state value)
  ok (search_index_state_value known)

abbrev index_controller_state_value : ProtoIndexControllerState → IndexControllerState
index_controller_state_value ProtoIndexControllerState.unspecified =
    IndexControllerState.unspecified
index_controller_state_value ProtoIndexControllerState.ramping = IndexControllerState.ramping
index_controller_state_value ProtoIndexControllerState.steady = IndexControllerState.steady
index_controller_state_value ProtoIndexControllerState.throttled = IndexControllerState.throttled
index_controller_state_value ProtoIndexControllerState.paused = IndexControllerState.paused

unfoldable pub index_controller_state : Int32 → Result IndexControllerState
index_controller_state value = do
  known ← ok_or (controller_state_of value) (unknown_controller_state value)
  ok (index_controller_state_value known)

abbrev index_pause_reason_value : ProtoIndexPauseReason → IndexPauseReason
index_pause_reason_value ProtoIndexPauseReason.unspecified = IndexPauseReason.unspecified
index_pause_reason_value ProtoIndexPauseReason.foreground = IndexPauseReason.foreground
index_pause_reason_value ProtoIndexPauseReason.opc_health = IndexPauseReason.opc_health
index_pause_reason_value ProtoIndexPauseReason.host_cpu = IndexPauseReason.host_cpu
index_pause_reason_value ProtoIndexPauseReason.memory = IndexPauseReason.memory
index_pause_reason_value ProtoIndexPauseReason.disk = IndexPauseReason.disk
index_pause_reason_value ProtoIndexPauseReason.database = IndexPauseReason.database
index_pause_reason_value ProtoIndexPauseReason.operator = IndexPauseReason.operator
index_pause_reason_value ProtoIndexPauseReason.circuit = IndexPauseReason.circuit

unfoldable pub index_pause_reason : Int32 → Result IndexPauseReason
index_pause_reason value = do
  known ← ok_or (pause_reason_of value) (unknown_pause_reason value)
  ok (index_pause_reason_value known)

abbrev index_health_state_value : ProtoIndexHealthState → IndexHealthState
index_health_state_value ProtoIndexHealthState.unspecified = IndexHealthState.unspecified
index_health_state_value ProtoIndexHealthState.healthy = IndexHealthState.healthy
index_health_state_value ProtoIndexHealthState.unhealthy = IndexHealthState.unhealthy
index_health_state_value ProtoIndexHealthState.unavailable = IndexHealthState.unavailable

unfoldable pub index_health_state : Int32 → Result IndexHealthState
index_health_state value = do
  known ← ok_or (health_state_of value) (unknown_health_state value)
  ok (index_health_state_value known)
