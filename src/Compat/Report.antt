-- ===== src/Compat/Report.antt =====
-- `evaluate_compatibility` of compatibility.rs: what the report of two profiles says.
use opcda_bridge.Base.{
  ◌≡◌, refl, ◌↔◌, Bool, true, false, ◌&&◌, Option, none, some, List, [], ◌∷◌, arith, is_some_and, ℕ,
  max, Option-cases, Bool-cases, inl, inr, if◌then◌else◌,
}
use opcda_bridge.Compat.{
  CompatibilityFeature, core, same_feature, ProtocolVersionRange, overlaps, ProtocolFeatureSupport,
  ProtocolProfile, feature_versions,
}
use opcda_bridge.Compat.Catalog.{Catalog}
use opcda_bridge.Compat.Ranges.{InRange, IsValid}
use opcda_bridge.Compat.Evaluate.{
  full, FeatureCompatibility, compare_feature, compare_features, report_feature, is_compatible,
  all_compatible, status_of, overall_status, evaluate_compatibility,
}

-- The gateway's first entry of the feature shares a version with the client's entry.
abbrev is_shared : List ProtocolFeatureSupport → ProtocolFeatureSupport → Bool
is_shared gateway c = is_some_and (feature_versions gateway c.feature) (λ g. overlaps c.versions g)

unfoldable all_shared : List ProtocolFeatureSupport → List ProtocolFeatureSupport → Bool
all_shared gateway [] = true
all_shared gateway (c ∷ cs) = is_shared gateway c && all_shared gateway cs

-- The client's first entry of a feature is shared.
unfoldable first_shared :
    List ProtocolFeatureSupport → List ProtocolFeatureSupport → CompatibilityFeature → Bool
first_shared gateway [] f = false
first_shared gateway (c ∷ cs) f =
    if same_feature c.feature f then is_shared gateway c else first_shared gateway cs f

compare_feature-compatible :
    (c : ProtocolFeatureSupport) (g : Option ProtocolVersionRange)
    → is_compatible (compare_feature c g).status ≡ is_some_and g (λ r. overlaps c.versions r)
unfolding compare_feature
compare_feature-compatible c none = ground arith
compare_feature-compatible c (some g) = ground arith

compare_feature-feature :
    (c : ProtocolFeatureSupport) (g : Option ProtocolVersionRange)
    → (compare_feature c g).feature ≡ c.feature
unfolding compare_feature
compare_feature-feature c none = ground arith
compare_feature-feature c (some g) = ground arith

all_compatible-shared :
    (cs gs : List ProtocolFeatureSupport)
    → all_compatible (compare_features cs gs) ≡ all_shared gs cs
unfolding compare_features all_compatible all_shared
all_compatible-shared [] gs = refl
all_compatible-shared (c ∷ cs) gs =
    rw (all_compatible-shared cs gs, compare_feature-compatible c) refl

abbrev pub found_compatible : Option FeatureCompatibility → Bool
found_compatible r = is_some_and r (λ x. is_compatible x.status)

report_feature-shared :
    (cs gs : List ProtocolFeatureSupport) (f : CompatibilityFeature)
    → found_compatible (report_feature (compare_features cs gs) f) ≡ first_shared gs cs f
unfolding compare_features report_feature first_shared
report_feature-shared [] gs f = refl
report_feature-shared (c ∷ cs) gs f = ground (
  arith,
  report_feature-shared cs gs f,
  compare_feature-compatible c (feature_versions gs c.feature),
  compare_feature-feature c (feature_versions gs c.feature),
)

status-full :
    (r : Option FeatureCompatibility) (every : Bool)
    → (status_of r every ≡ full → (found_compatible r && every) ≡ true)
      × ((found_compatible r && every) ≡ true → status_of r every ≡ full)
status-full none every = (λ e. cc, λ e. cc)
status-full (some r) every = (λ e. ground arith, λ e. ground arith)

-- The two ranges have a version in common.
abbrev pub Shares : ProtocolVersionRange → ProtocolVersionRange → Type 0
Shares a b = (v : ℕ) × InRange v a × InRange v b

-- The gateway's first entry of the feature has a version in common with the client's entry.
abbrev pub SharesIn : ProtocolVersionRange → Option ProtocolVersionRange → Type 0
SharesIn r none = ⊥
SharesIn r (some g) = Shares r g

abbrev pub IsShared : List ProtocolFeatureSupport → ProtocolFeatureSupport → Type 0
IsShared gateway c = SharesIn c.versions (feature_versions gateway c.feature)

abbrev pub AllShare : List ProtocolFeatureSupport → List ProtocolFeatureSupport → Type 0
AllShare gateway [] = Unit {0}
AllShare gateway (c ∷ cs) = IsShared gateway c × AllShare gateway cs

abbrev pub FirstShares :
    List ProtocolFeatureSupport → CompatibilityFeature → List ProtocolFeatureSupport → Type 0
FirstShares gateway f [] = ⊥
FirstShares gateway f (c ∷ cs) =
    if same_feature c.feature f then IsShared gateway c else FirstShares gateway f cs

abbrev pub AllValid : List ProtocolFeatureSupport → Type 0
AllValid [] = Unit {0}
AllValid (c ∷ cs) = IsValid c.versions × AllValid cs

pub overlaps-Shares :
    (a b : ProtocolVersionRange) → IsValid a → IsValid b → (overlaps a b ≡ true) ↔ Shares a b
unfolding overlaps
overlaps-Shares a b ha hb =
    (λ e. (max a.lowest b.lowest, ground arith, ground arith), λ (v, ia, ib). ground arith)

versions-IsValid :
    (gateway : List ProtocolFeatureSupport) (f : CompatibilityFeature) (r : ProtocolVersionRange)
    → AllValid gateway
    → feature_versions gateway f ≡ some r
    → IsValid r
unfolding feature_versions
versions-IsValid [] f r h e = ground arith
versions-IsValid (g ∷ gs) f r (h, hs) e = ground (arith, versions-IsValid gs f r hs)

is_shared-IsShared :
    (gateway : List ProtocolFeatureSupport) (c : ProtocolFeatureSupport)
    → IsValid c.versions
    → AllValid gateway
    → (is_shared gateway c ≡ true) ↔ IsShared gateway c
is_shared-IsShared gateway c h hs = elim (Option-cases (feature_versions gateway c.feature)) [
  | inl e ↦ rw e ((λ p. ground arith), λ p. absurd p)
  | inr (g, e) ↦ rw e (overlaps-Shares c.versions g h (versions-IsValid gateway c.feature g hs e))
]

all_shared-AllShare :
    (gateway cs : List ProtocolFeatureSupport)
    → AllValid cs
    → AllValid gateway
    → (all_shared gateway cs ≡ true) ↔ AllShare gateway cs
unfolding all_shared
all_shared-AllShare gateway [] h hs = ((λ e. tt), λ e. refl)
all_shared-AllShare gateway (c ∷ cs) (h, hc) hs =
    let (to, from) = is_shared-IsShared gateway c h hs in
    let (rest, rest') = all_shared-AllShare gateway cs hc hs in
    (λ e. (to (ground arith), rest (ground arith)), λ (a, b). ground (arith, from a, rest' b))

first_shared-FirstShares :
    (gateway : List ProtocolFeatureSupport) (f : CompatibilityFeature)
    (cs : List ProtocolFeatureSupport)
    → AllValid cs
    → AllValid gateway
    → (first_shared gateway cs f ≡ true) ↔ FirstShares gateway f cs
unfolding first_shared
first_shared-FirstShares gateway f [] h hs = ((λ e. ground arith), λ p. absurd p)
first_shared-FirstShares gateway f (c ∷ cs) (h, hc) hs =
    elim (Bool-cases (same_feature c.feature f)) [
      | inl e ↦ rw e (is_shared-IsShared gateway c h hs)
      | inr e ↦ rw e (first_shared-FirstShares gateway f cs hc hs)
    ]

module _ (catalog : Catalog) (client gateway : ProtocolProfile) where
  full-shared : ((evaluate_compatibility catalog client gateway).status ≡ full) ↔ (
      (first_shared gateway.features client.features core
        && all_shared gateway.features client.features)
      ≡ true)
  unfolding evaluate_compatibility overall_status
  full-shared = ground (
    arith,
    status-full (report_feature (compare_features client.features gateway.features) core)
        (all_compatible (compare_features client.features gateway.features)),
    report_feature-shared client.features gateway.features core,
    all_compatible-shared client.features gateway.features,
  )

  -- Of two profiles whose ranges have their bounds in order, the report is full exactly when for the
  -- client's first entry of the core feature, and for every entry of the client, there is a version
  -- that lies both in its range and in that of the gateway's first entry of the same feature.
  pub evaluate-full :
      AllValid client.features
      → AllValid gateway.features
      → ((evaluate_compatibility catalog client gateway).status ≡ full) ↔ (
          FirstShares gateway.features core client.features
          × AllShare gateway.features client.features)
  evaluate-full hc hg =
      let (to, from) = full-shared in
      let (first, first') = first_shared-FirstShares gateway.features core client.features hc hg in
      let (every, every') = all_shared-AllShare gateway.features client.features hc hg in
      (
        λ e. (first (ground (arith, to e)), every (ground (arith, to e))),
        λ (a, b). from (ground (arith, first' a, every' b)),
      )
