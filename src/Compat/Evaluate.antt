-- ===== src/Compat/Evaluate.antt =====
-- crates/opcda-bridge/src/compatibility.rs: the comparison of two profiles and its report. The
-- text of a reason is a constructor for each format string.
use opcda_bridge.Base.{
  ℕ, Bool, true, false, ◌&&◌, Option, none, some, List, [], ◌∷◌, if◌then◌else◌, Text, text,
  is_some_and, unwrap_or,
}
use opcda_bridge.Compat.{
  CompatibilityFeature, core, indexed_search, same_feature, ProtocolVersionRange, overlaps,
  negotiated_version, ProtocolFeatureSupport, CompatibilitySource, unknown_source, ProtocolProfile,
  feature_versions,
}
use opcda_bridge.Compat.Catalog.{Catalog, CompatibilityEvidence, unverified, catalog_evidence}

pub data FeatureCompatibilityStatus : Type 0 where
  compatible unsupported incompatible unknown : FeatureCompatibilityStatus

pub data CompatibilityStatus : Type 0 where
  full partial report_incompatible report_unknown : CompatibilityStatus

pub data Reason : Type 0 where
  ranges_overlap : CompatibilityFeature → Reason
  ranges_do_not_overlap :
      CompatibilityFeature → ProtocolVersionRange → ProtocolVersionRange → Reason
  no_indexed_search : Reason
  not_advertised : CompatibilityFeature → Reason

pub record FeatureCompatibility : Type 0 where
  pub feature : CompatibilityFeature
  pub status : FeatureCompatibilityStatus
  pub client_versions : ProtocolVersionRange
  pub gateway_versions : Option ProtocolVersionRange
  pub negotiated : Option ℕ
  pub reason : Reason

pub record CompatibilityReport : Type 0 where
  pub client_version : Text
  pub library_version : Text
  pub gateway_version : Option Text
  pub source : CompatibilitySource
  pub status : CompatibilityStatus
  pub evidence : CompatibilityEvidence
  pub features : List FeatureCompatibility

-- The `match` of the loop, at what the gateway advertises of the client's feature.
unfoldable pub compare_feature :
    ProtocolFeatureSupport → Option ProtocolVersionRange → FeatureCompatibility
compare_feature c (some g) =
    if overlaps c.versions g
    then record {
      feature = c.feature;
      status = compatible;
      client_versions = c.versions;
      gateway_versions = some g;
      negotiated = negotiated_version c.versions g;
      reason = ranges_overlap c.feature;
    }
    else record {
      feature = c.feature;
      status = incompatible;
      client_versions = c.versions;
      gateway_versions = some g;
      negotiated = none;
      reason = ranges_do_not_overlap c.feature c.versions g;
    }
compare_feature c none =
    if same_feature c.feature indexed_search
    then record {
      feature = c.feature;
      status = unsupported;
      client_versions = c.versions;
      gateway_versions = none;
      negotiated = none;
      reason = no_indexed_search;
    }
    else record {
      feature = c.feature;
      status = unknown;
      client_versions = c.versions;
      gateway_versions = none;
      negotiated = none;
      reason = not_advertised c.feature;
    }

unfoldable pub compare_features :
    List ProtocolFeatureSupport → List ProtocolFeatureSupport → List FeatureCompatibility
compare_features [] gateway = []
compare_features (c ∷ cs) gateway =
    compare_feature c (feature_versions gateway c.feature) ∷ compare_features cs gateway

-- CompatibilityReport::feature: the first result of the feature.
unfoldable pub report_feature :
    List FeatureCompatibility → CompatibilityFeature → Option FeatureCompatibility
report_feature [] f = none
report_feature (r ∷ rs) f = if same_feature r.feature f then some r else report_feature rs f

abbrev pub is_compatible : FeatureCompatibilityStatus → Bool
is_compatible compatible = true
is_compatible _ = false

unfoldable pub all_compatible : List FeatureCompatibility → Bool
all_compatible [] = true
all_compatible (r ∷ rs) = is_compatible r.status && all_compatible rs

abbrev pub status_of : Option FeatureCompatibility → Bool → CompatibilityStatus
status_of none every = report_unknown
status_of (some r) every = elim r.status [
  | compatible ↦ if every then full else partial
  | incompatible ↦ report_incompatible
  | unsupported ↦ report_incompatible
  | unknown ↦ report_unknown
]

unfoldable pub overall_status : List FeatureCompatibility → CompatibilityStatus
overall_status features = status_of (report_feature features core) (all_compatible features)

unfoldable pub satisfies : CompatibilityReport → List CompatibilityFeature → Bool
satisfies report [] = true
satisfies report (f ∷ fs) =
    is_some_and (report_feature report.features f) (λ r. is_compatible r.status)
    && satisfies report fs

module _ (catalog : Catalog) where
  unfoldable pub evaluate_compatibility : ProtocolProfile → ProtocolProfile → CompatibilityReport
  evaluate_compatibility client gateway =
      let features = compare_features client.features gateway.features in
      record {
        client_version = unwrap_or client.application_version (text "unknown");
        library_version = catalog.library_version;
        gateway_version = gateway.application_version;
        source = gateway.source;
        status = overall_status features;
        evidence = catalog_evidence catalog client.application_version gateway.application_version;
        features = features;
      }

  unfoldable pub unknown_compatibility_report : Text → CompatibilityReport
  unknown_compatibility_report client_version = record {
    client_version = client_version;
    library_version = catalog.library_version;
    gateway_version = none;
    source = unknown_source;
    status = report_unknown;
    evidence = unverified;
    features = [];
  }
