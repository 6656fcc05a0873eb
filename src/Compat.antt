-- ===== src/Compat.antt =====
-- crates/opcda-bridge/src/compatibility.rs, with the catalog lookups of
-- crates/opcda-bridge-proto/src/lib.rs: which protocol versions a client and a gateway share.
-- The catalog itself, which the build generates, is a parameter.
pub mod Catalog
pub mod Evaluate
pub mod Ranges
pub mod Report
pub mod Evidence
mod Tests
use opcda_bridge.Base.{
  ℕ, zero, suc, ◌+◌, ◌≡◌, Bool, true, false, not, ◌&&◌, ◌||◌, Option, none, some, List, [], ◌∷◌,
  ◌++◌, ite, map, leb, ltb, ◌==◌, if◌then◌else◌, Text, Text-discrete, text, same_text, split,
  parse_unsigned, trim, u64_max, find, all, any, is_some_and, unwrap_or,
}

pub data CompatibilityFeature : Type 0 where
  core namespace indexed_search : CompatibilityFeature

pub CompatibilityFeature-discrete : Discrete CompatibilityFeature
CompatibilityFeature-discrete = hlevel

abbrev pub same_feature : CompatibilityFeature → CompatibilityFeature → Bool
same_feature core core = true
same_feature namespace namespace = true
same_feature indexed_search indexed_search = true
same_feature _ _ = false

-- `i32` as a sign and a size: `below n` is -(n + 1).
pub data Int32 : Type 0 where
  nonneg : ℕ → Int32
  below : ℕ → Int32

pub data ProtocolError : Type 0 where
  unknown_feature : Int32 → ProtocolError
  unspecified_feature : ProtocolError
  reversed_range : CompatibilityFeature → ProtocolError

pub data Result {ℓ} (A : Type ℓ) : Type ℓ where
  ok : A → Result A
  err : ProtocolError → Result A

infixl 5 ◌>>=◌
abbrev pub ◌>>=◌ {ℓ κ} : {A : Type ℓ} {B : Type κ} → Result A → (A → Result B) → Result B
ok a >>= f = f a
err e >>= f = err e

-- The numbers are those of ProtocolFeatureKind in proto/bridge.proto.
unfoldable pub from_proto : Int32 → Result CompatibilityFeature
from_proto (below n) = err (unknown_feature (below n))
from_proto (nonneg n) =
    if n == 0
    then err unspecified_feature
    else if n == 1
    then ok core
    else if n == 2
    then ok namespace
    else if n == 3
    then ok indexed_search
    else err (unknown_feature (nonneg n))

pub record ProtocolVersionRange : Type 0 where
  pub lowest : ℕ
  pub highest : ℕ

unfoldable pub new_range : ℕ → ℕ → Option ProtocolVersionRange
new_range lo hi = if ltb hi lo then none else some (record { lowest = lo; highest = hi })

abbrev pub exact : ℕ → ProtocolVersionRange
exact v = record { lowest = v; highest = v }

unfoldable pub overlaps : ProtocolVersionRange → ProtocolVersionRange → Bool
overlaps a b = leb a.lowest b.highest && leb b.lowest a.highest

unfoldable pub negotiated_version : ProtocolVersionRange → ProtocolVersionRange → Option ℕ
negotiated_version a b =
    if overlaps a b then some (if ltb b.lowest a.lowest then a.lowest else b.lowest) else none

pub record ProtocolFeatureSupport : Type 0 where
  pub feature : CompatibilityFeature
  pub versions : ProtocolVersionRange

-- proto::ProtocolFeature and proto::GetGatewayInfoResponse, as the conversion reads them.
pub record ProtoFeature : Type 0 where
  pub kind : Int32
  pub min_version : ℕ
  pub max_version : ℕ

pub record GetGatewayInfoResponse : Type 0 where
  pub application_version : Text
  pub compatibility_schema_version : ℕ
  pub features : List ProtoFeature

pub record GatewayInfo : Type 0 where
  pub application_version : Text
  pub compatibility_schema_version : ℕ
  pub features : List ProtocolFeatureSupport

abbrev pub or_reversed :
    CompatibilityFeature → Option ProtocolVersionRange → Result ProtocolVersionRange
or_reversed f none = err (reversed_range f)
or_reversed f (some r) = ok r

unfoldable pub convert_feature : ProtoFeature → Result ProtocolFeatureSupport
convert_feature p = do
  kind ← from_proto p.kind
  versions ← or_reversed kind (new_range p.min_version p.max_version)
  ok (record { feature = kind; versions = versions })

-- `collect` stops at the first error.
unfoldable pub convert_features : List ProtoFeature → Result (List ProtocolFeatureSupport)
convert_features [] = ok []
convert_features (p ∷ ps) = do s ← convert_feature p; rest ← convert_features ps; ok (s ∷ rest)

unfoldable pub try_from : GetGatewayInfoResponse → Result GatewayInfo
try_from value = do
  features ← convert_features value.features
  ok (record {
    application_version = value.application_version;
    compatibility_schema_version = value.compatibility_schema_version;
    features = features;
  })

pub data CompatibilitySource : Type 0 where
  gateway_info legacy_capabilities unknown_source : CompatibilitySource

pub record ProtocolProfile : Type 0 where
  pub application_version : Option Text
  pub source : CompatibilitySource
  pub features : List ProtocolFeatureSupport

unfoldable pub from_gateway_info : GatewayInfo → ProtocolProfile
from_gateway_info info = record {
  application_version = some info.application_version;
  source = gateway_info;
  features = info.features;
}

-- ProtocolProfile::feature: the first entry of the feature.
unfoldable pub feature_versions :
    List ProtocolFeatureSupport → CompatibilityFeature → Option ProtocolVersionRange
feature_versions [] f = none
feature_versions (s ∷ ss) f =
    if same_feature s.feature f then some s.versions else feature_versions ss f
