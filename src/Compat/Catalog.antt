-- ===== src/Compat/Catalog.antt =====
-- crates/opcda-bridge-proto/src/lib.rs (module compatibility) and the catalog functions of
-- crates/opcda-bridge/src/compatibility.rs: release lines, tested pairs, legacy version texts.
use opcda_bridge.Base.{
  ℕ, Bool, true, false, not, ◌&&◌, ◌||◌, Option, none, some, List, [], ◌∷◌, ◌++◌, leb, ltb, ◌==◌,
  if◌then◌else◌, Text, text, same_text, split, parse_unsigned, trim, u64_max, find, is_some_and,
  unwrap_or,
}
use opcda_bridge.Compat.{
  CompatibilityFeature, core, namespace, indexed_search, exact, ProtocolFeatureSupport,
  gateway_info, legacy_capabilities, ProtocolProfile,
}

pub record ReleaseLine : Type 0 where
  pub name : Text
  pub min_version : Text
  pub max_version : Text
  pub core_protocol : ℕ
  pub namespace_protocol : ℕ
  pub indexed_search_protocol : ℕ

pub record EvidenceEntry : Type 0 where
  pub client_line : Text
  pub gateway_line : Text
  pub status : Text
  pub exact_client : Text
  pub exact_gateway : Text

-- The generated catalog and the version of the crate that was compiled with it.
pub record Catalog : Type 0 where
  pub release_lines : List ReleaseLine
  pub evidence : List EvidenceEntry
  pub core_protocol_version : ℕ
  pub library_version : Text

pub record Version : Type 0 where
  pub major : ℕ
  pub minor : ℕ
  pub patch : ℕ

-- Three parts, none of them empty, each a `u64`.
unfoldable pub version_parts : List Text → Option Version
version_parts ((a ∷ x) ∷ (b ∷ y) ∷ (c ∷ z) ∷ []) = elim (parse_unsigned u64_max (a ∷ x)) [
  | none ↦ none
  | some major ↦ elim (parse_unsigned u64_max (b ∷ y)) [
    | none ↦ none
    | some minor ↦ elim (parse_unsigned u64_max (c ∷ z)) [
      | none ↦ none
      | some patch ↦ some (record { major = major; minor = minor; patch = patch })
    ]
  ]
]
version_parts _ = none

unfoldable pub version_tuple : Text → Option Version
unfolding version_parts
version_tuple value = version_parts (split b'.' value)

-- `<=` on the tuples: lexicographic.
unfoldable pub version_le : Version → Version → Bool
version_le a b =
    ltb a.major b.major
    || (a.major == b.major && (ltb a.minor b.minor || (a.minor == b.minor && leb a.patch b.patch)))

unfoldable pub contains_version : Version → ReleaseLine → Bool
contains_version v line =
    is_some_and (version_tuple line.min_version) (λ lo.
      is_some_and (version_tuple line.max_version) (λ hi. version_le lo v && version_le v hi))

module _ (catalog : Catalog) where
  unfoldable pub release_line_for : Text → Option ReleaseLine
  release_line_for value = elim (version_tuple value) [
    | none ↦ none
    | some v ↦ find (contains_version v) catalog.release_lines
  ]

  abbrev pub support : CompatibilityFeature → ℕ → ProtocolFeatureSupport
  support f v = record { feature = f; versions = exact v }

  -- The client library's own version must be in the catalog: otherwise the source panics.
  unfoldable pub current_client_profile : Text → Option ProtocolProfile
  current_client_profile application_version = elim (release_line_for catalog.library_version) [
    | none ↦ none
    | some line ↦ some (record {
      application_version = some application_version;
      source = gateway_info;
      features =
          support core line.core_protocol
          ∷ support namespace line.namespace_protocol
          ∷ support indexed_search line.indexed_search_protocol
          ∷ [];
    })
  ]

unfoldable pub parse_namespace_protocol : Text → Option ℕ
parse_namespace_protocol value =
    let v = trim value in
    if same_text v (text "1") || same_text v (text "1.0")
    then some 1
    else if same_text v (text "2") || same_text v (text "2.0")
    then some 2
    else if same_text v (text "0.3") || same_text v (text "0.3.0")
    then some 2
    else none

unfoldable pub parse_index_protocol : Text → Option ℕ
parse_index_protocol value =
    let v = trim value in
    if same_text v (text "1") || same_text v (text "1.0") then some 1 else none

-- The fields of Capabilities that the conversion reads.
pub record Capabilities : Type 0 where
  pub application_version : Text
  pub protocol_version : Text
  pub supports_indexed_search : Bool
  pub indexed_search_protocol_version : Text

module _ (catalog : Catalog) where
  abbrev pub namespace_features : Capabilities → Option ℕ → List ProtocolFeatureSupport
  namespace_features c none = []
  namespace_features c (some version) =
      support catalog core (elim (release_line_for catalog c.application_version) [
        | none ↦ catalog.core_protocol_version
        | some line ↦ line.core_protocol
      ])
      ∷ support catalog namespace version
      ∷ []

  abbrev pub index_features : Bool → Option ℕ → List ProtocolFeatureSupport
  index_features false v = []
  index_features true none = []
  index_features true (some version) = support catalog indexed_search version ∷ []

  unfoldable pub legacy_gateway_profile : Capabilities → ProtocolProfile
  legacy_gateway_profile c = record {
    application_version = some c.application_version;
    source = legacy_capabilities;
    features =
        namespace_features c (parse_namespace_protocol c.protocol_version)
        ++ index_features c.supports_indexed_search
            (parse_index_protocol c.indexed_search_protocol_version);
  }

pub data CompatibilityEvidence : Type 0 where
  contract_boundary_tested exact_pair_tested unverified : CompatibilityEvidence

unfoldable pub evidence_status : Text → Option CompatibilityEvidence
evidence_status value =
    if same_text value (text "contract-boundary-tested")
    then some contract_boundary_tested
    else if same_text value (text "exact-pair-tested")
    then some exact_pair_tested
    else if same_text value (text "unverified")
    then some unverified
    else none

abbrev pub is_empty : Text → Bool
is_empty [] = true
is_empty (c ∷ s) = false

-- The tests of the two loops of `catalog_evidence`, without the status.
abbrev pub is_exact_entry : Text → Text → Text → Text → EvidenceEntry → Bool
is_exact_entry client_line gateway_line client_version gateway_version e =
    same_text e.client_line client_line
    && (same_text e.gateway_line gateway_line
        && (not (is_empty e.exact_client)
            && (same_text e.exact_client client_version
                && same_text e.exact_gateway gateway_version)))

abbrev pub is_line_entry : Text → Text → EvidenceEntry → Bool
is_line_entry client_line gateway_line e =
    same_text e.client_line client_line
    && (same_text e.gateway_line gateway_line
        && (is_empty e.exact_client && is_empty e.exact_gateway))

-- One loop: the first entry that passes the test and has a known status.
unfoldable pub first_status :
    (EvidenceEntry → Bool) → List EvidenceEntry → Option CompatibilityEvidence
first_status test [] = none
first_status test (e ∷ es) =
    let rest = first_status test es in
    if test e then elim (evidence_status e.status) [ some s ↦ some s | none ↦ rest ] else rest

module _ (catalog : Catalog) where
  unfoldable pub line_evidence : Text → Text → Text → Text → CompatibilityEvidence
  line_evidence client_line gateway_line client_version gateway_version =
      elim (first_status (is_exact_entry client_line gateway_line client_version gateway_version)
        catalog.evidence) [
          | some s ↦ s
          | none ↦
              unwrap_or (first_status (is_line_entry client_line gateway_line) catalog.evidence)
                unverified
        ]

  abbrev pub line_pair :
      Option ReleaseLine → Option ReleaseLine → Text → Text → CompatibilityEvidence
  line_pair none g cv gv = unverified
  line_pair (some c) none cv gv = unverified
  line_pair (some c) (some g) cv gv = line_evidence c.name g.name cv gv

  unfoldable pub catalog_evidence : Option Text → Option Text → CompatibilityEvidence
  catalog_evidence none g = unverified
  catalog_evidence (some c) none = unverified
  catalog_evidence (some c) (some g) =
      line_pair (release_line_for catalog c) (release_line_for catalog g) c g
