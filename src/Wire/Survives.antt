-- ===== src/Wire/Survives.antt =====
-- What a client can tell of the gateway's status of an index.
use opcda_bridge.Base.{◌≡◌, refl, Option, none, some}
use opcda_bridge.Browse.{NamespaceOrganization, BrowseSource}
use opcda_bridge.Controller.{PauseReason, ControllerState, InventoryLimits}
use opcda_bridge.Query.Search.{IndexState}
use opcda_bridge.Index.{HealthProbeState}
use opcda_bridge.Index.Status.{InventoryProgress, IndexStatus}
use opcda_bridge.Wire.Statuses.{
  client_status, convert_status-map, client_state, client_controller, client_reason, client_health,
  client_progress, client_limits,
}
use opcda_bridge.Wire.Library as Library
use opcda_bridge.Wire.Gateway.{mapped, is_promoting_state, reason_text, map_index_status}
use opcda_bridge.Wire.Read.{ok}
use opcda_bridge.Wire.Convert.{convert_status}
use opcda_bridge.Wire.Pages.{client_organization, client_source}
use opcda_bridge.Wire.Restored.{
  gateway_state, gateway_organization, gateway_source, gateway_controller, gateway_reason,
  gateway_health, gateway_progress, gateway_limits, gateway_status, without_reason,
}

gateway-client_state : (x : IndexState) → gateway_state (client_state x) (is_promoting_state x) ≡ x
gateway-client_state IndexState.not_indexed = refl
gateway-client_state IndexState.partial = refl
gateway-client_state IndexState.ready = refl
gateway-client_state IndexState.stale = refl
gateway-client_state IndexState.refreshing = refl
gateway-client_state IndexState.promoting = refl
gateway-client_state IndexState.failed = refl
gateway-client_state IndexState.deleting = refl

gateway-client_organization :
    (x : NamespaceOrganization) → gateway_organization (client_organization x) ≡ x
gateway-client_organization NamespaceOrganization.unspecified_organization = refl
gateway-client_organization NamespaceOrganization.flat = refl
gateway-client_organization NamespaceOrganization.hierarchical = refl

gateway-client_source : (x : BrowseSource) → gateway_source (client_source x) ≡ x
gateway-client_source BrowseSource.unspecified_source = refl
gateway-client_source BrowseSource.da3 = refl
gateway-client_source BrowseSource.da2 = refl
gateway-client_source BrowseSource.flat_source = refl
gateway-client_source BrowseSource.derived = refl

gateway-client_controller :
    (x : Option ControllerState) → gateway_controller (client_controller x) ≡ without_reason x
gateway-client_controller none = refl
gateway-client_controller (some ControllerState.ramping) = refl
gateway-client_controller (some ControllerState.steady) = refl
gateway-client_controller (some ControllerState.throttled) = refl
gateway-client_controller (some (ControllerState.paused reason)) = refl

gateway-client_reason :
    (x : Option PauseReason) → gateway_reason (client_reason x) (mapped reason_text x) ≡ x
gateway-client_reason none = refl
gateway-client_reason (some PauseReason.foreground) = refl
gateway-client_reason (some PauseReason.opc_health) = refl
gateway-client_reason (some PauseReason.host_cpu) = refl
gateway-client_reason (some PauseReason.memory) = refl
gateway-client_reason (some PauseReason.disk) = refl
gateway-client_reason (some PauseReason.database) = refl
gateway-client_reason (some PauseReason.operator) = refl
gateway-client_reason (some PauseReason.circuit) = refl
gateway-client_reason (some PauseReason.maintenance) = refl

gateway-client_health : (x : HealthProbeState) → gateway_health (client_health x) ≡ x
gateway-client_health HealthProbeState.unavailable = refl
gateway-client_health HealthProbeState.healthy = refl
gateway-client_health HealthProbeState.unhealthy = refl

gateway-client_progress :
    {V : Type 0} (p : Option (InventoryProgress V))
    → mapped gateway_progress (mapped client_progress p) ≡ p
gateway-client_progress none = refl
gateway-client_progress (some p) = refl

gateway-client_limits :
    (l : Option InventoryLimits) → mapped gateway_limits (mapped client_limits l) ≡ l
gateway-client_limits none = refl
gateway-client_limits (some l) = refl

-- The client reads every status that the gateway sends, and every field of the gateway's status can be
-- found again in what it reads, but for the reason that a paused controller's state carries: a
-- promotion, and a pause for maintenance, which have no value of their own on the wire, included.
pub status-survives :
    {V : Type 0} (s : IndexStatus V)
    → (t : Library.SearchIndexStatus V) × (convert_status (map_index_status s) ≡ ok t)
      × (gateway_status t ≡ record s { controller_state = without_reason s.controller_state })
status-survives s = (
  client_status s,
  convert_status-map s,
  rw
      (
        gateway-client_state s.state,
        gateway-client_organization s.organization,
        gateway-client_source s.source,
        gateway-client_controller s.controller_state,
        gateway-client_reason s.pause_reason,
        gateway-client_health s.health,
        gateway-client_progress s.progress,
        gateway-client_limits s.effective_limits,
      )
      refl,
)
