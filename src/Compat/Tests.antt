-- ===== src/Compat/Tests.antt =====
-- The comparison of versions at concrete inputs.
use opcda_bridge.Base.{
  ℕ, ◌≤◌, ◌≡◌, ◌↔◌, refl, none, some, [], ◌∷◌, arith, text, Text-discrete, ℕ_discrete, split,
  parse_unsigned, parse_digits, find,
}
use opcda_bridge.Compat.{
  core, ProtocolVersionRange, negotiated_version, nonneg, GetGatewayInfoResponse, GatewayInfo,
  ProtocolProfile, gateway_info,
}
use opcda_bridge.Compat.Catalog.{
  Catalog, ReleaseLine, catalog_evidence, contract_boundary_tested, version_parts, version_tuple,
  version_le, contains_version, release_line_for, evidence_status, first_status, line_evidence,
}
use opcda_bridge.Compat.Evaluate.{full, evaluate_compatibility}
use opcda_bridge.Compat.Ranges.{InRange, negotiated_version_lem}
use opcda_bridge.Compat.Report.{AllShare, FirstShares, evaluate-full}
use opcda_bridge.Compat.Evidence.{IsBacked, catalog_evidence-IsBacked}

abbrev old : ProtocolVersionRange
old = record { lowest = 1; highest = 3 }

abbrev recent : ProtocolVersionRange
recent = record { lowest = 2; highest = 5 }

negotiated_version_lem_example :
    ((v : ℕ)
      → negotiated_version old recent ≡ some v
        ↔ (InRange v old × InRange v recent × ((w : ℕ) → InRange w old → InRange w recent → v ≤ w)))
    × (negotiated_version old recent ≡ none ↔ ((w : ℕ) → InRange w old → ¬ InRange w recent))
    × (negotiated_version old recent ≡ negotiated_version recent old)
negotiated_version_lem_example = negotiated_version_lem old recent (omega arith) (omega arith)

abbrev response : GetGatewayInfoResponse
response = record {
  application_version = text "0.4.0";
  compatibility_schema_version = 1;
  features = record { kind = nonneg 1; min_version = 2; max_version = 5 } ∷ [];
}

abbrev info : GatewayInfo
info = record {
  application_version = text "0.4.0";
  compatibility_schema_version = 1;
  features = record { feature = core; versions = recent } ∷ [];
}

abbrev line : ReleaseLine
line = record {
  name = text "four";
  min_version = text "0.4.0";
  max_version = text "0.4.9";
  core_protocol = 2;
  namespace_protocol = 2;
  indexed_search_protocol = 1;
}

abbrev catalog : Catalog
catalog = record {
  release_lines = line ∷ [];
  evidence =
      record {
        client_line = text "four";
        gateway_line = text "four";
        status = text "contract-boundary-tested";
        exact_client = [];
        exact_gateway = [];
      }
      ∷ [];
  core_protocol_version = 2;
  library_version = text "0.4.0";
}

abbrev profile : ProtocolProfile
profile = record {
  application_version = some (text "0.4.0");
  source = gateway_info;
  features = record { feature = core; versions = recent } ∷ [];
}

evaluate-full_example : ((evaluate_compatibility catalog profile profile).status ≡ full) ↔ (
    FirstShares profile.features core profile.features × AllShare profile.features profile.features)
evaluate-full_example = evaluate-full catalog profile profile (omega arith, tt) (omega arith, tt)

evidence_test :
    catalog_evidence catalog (some (text "0.4.1")) (some (text "0.4.0")) ≡ contract_boundary_tested
unfolding catalog_evidence release_line_for version_tuple version_parts version_le contains_version
    line_evidence first_status evidence_status parse_unsigned parse_digits split find Text-discrete
    ℕ_discrete
evidence_test = refl

catalog_evidence-IsBacked_example :
    IsBacked catalog (text "0.4.1") (text "0.4.0") contract_boundary_tested
catalog_evidence-IsBacked_example =
    catalog_evidence-IsBacked catalog (text "0.4.1") (text "0.4.0") contract_boundary_tested
      evidence_test (λ e. cc e)
