-- ===== src/Compat/Ranges.antt =====
-- ProtocolVersionRange of compatibility.rs: the negotiated version, and the ranges that a
-- gateway's answer may hold.
use opcda_bridge.Base.{
  ℕ, ◌≤◌, ◌≡◌, refl, ◌↔◌, none, some, List, [], ◌∷◌, arith, ◌⊎◌, inl, inr, Option-cases,
}
use opcda_bridge.Compat.{
  ProtocolVersionRange, new_range, overlaps, negotiated_version, ProtocolFeatureSupport,
  ProtoFeature, from_proto, convert_feature, convert_features, Result, ProtocolError, ok, err,
  GetGatewayInfoResponse, GatewayInfo, try_from,
}

-- The version lies in the range.
pub record InRange (v : ℕ) (r : ProtocolVersionRange) : Type 0 where
  pub from : r.lowest ≤ v
  pub to : v ≤ r.highest

abbrev pub IsValid : ProtocolVersionRange → Type 0
IsValid r = r.lowest ≤ r.highest

negotiated-some :
    (a b : ProtocolVersionRange) (v : ℕ)
    → IsValid a
    → IsValid b
    → negotiated_version a b ≡ some v
    → InRange v a × InRange v b × ((w : ℕ) → InRange w a → InRange w b → v ≤ w)
unfolding negotiated_version overlaps
negotiated-some a b v ha hb e = (ground arith, ground arith, λ w ia ib. ground arith)

negotiated-none :
    (a b : ProtocolVersionRange) (w : ℕ)
    → negotiated_version a b ≡ none
    → InRange w a
    → ¬ InRange w b
unfolding negotiated_version overlaps
negotiated-none a b w e ia ib = ground arith

-- Of two ranges whose bounds are in order, the negotiated version is exactly the smallest version
-- that lies in both; there is none exactly when no version lies in both; and both sides negotiate
-- the same.
pub negotiated_version_lem :
    (a b : ProtocolVersionRange)
    → IsValid a
    → IsValid b
    → ((v : ℕ)
        → negotiated_version a b ≡ some v
          ↔ (InRange v a × InRange v b × ((w : ℕ) → InRange w a → InRange w b → v ≤ w)))
      × (negotiated_version a b ≡ none ↔ ((w : ℕ) → InRange w a → ¬ InRange w b))
      × (negotiated_version a b ≡ negotiated_version b a)
unfolding negotiated_version overlaps
negotiated_version_lem a b ha hb = (
  λ v. (
    λ e. negotiated-some a b v ha hb e,
    λ (ia, ib, least). elim (Option-cases (negotiated_version a b)) [
      | inl e ↦ absurd (negotiated-none a b v e ia ib)
      | inr (u, e) ↦
          let (ua, ub, first) = negotiated-some a b u ha hb e in
          let same : u ≡ v = omega (arith, least u ua ub, first v ia ib) in rw (← same) e
    ],
  ),
  (
    λ e w ia ib. negotiated-none a b w e ia ib,
    λ h. elim (Option-cases (negotiated_version a b)) [
      | inl e ↦ e
      | inr (v, e) ↦
          absurd (h v (negotiated-some a b v ha hb e).0 (negotiated-some a b v ha hb e).1)
    ],
  ),
  ground arith,
)

-- What one entry of the answer says of the entry that it became.
pub record Converts (p : ProtoFeature) (s : ProtocolFeatureSupport) : Type 0 where
  pub kind : from_proto p.kind ≡ ok s.feature
  pub lower : s.versions.lowest ≡ p.min_version
  pub upper : s.versions.highest ≡ p.max_version
  pub valid : IsValid s.versions

abbrev pub AllConvert : List ProtoFeature → List ProtocolFeatureSupport → Type 0
AllConvert [] [] = Unit {0}
AllConvert [] (s ∷ ss) = ⊥
AllConvert (p ∷ ps) [] = ⊥
AllConvert (p ∷ ps) (s ∷ ss) = Converts p s × AllConvert ps ss

Result-cases {ℓ} :
    {A : Type ℓ} (r : Result A) → ((a : A) × (r ≡ ok a)) ⊎ ((e : ProtocolError) × (r ≡ err e))
Result-cases (ok a) = inl (a, refl)
Result-cases (err e) = inr (e, refl)

convert_feature-ok :
    (p : ProtoFeature) (s : ProtocolFeatureSupport) → convert_feature p ≡ ok s → Converts p s
unfolding convert_feature new_range
convert_feature-ok p s e = ground arith

convert_features-ok :
    (ps : List ProtoFeature) (ss : List ProtocolFeatureSupport)
    → convert_features ps ≡ ok ss
    → AllConvert ps ss
unfolding convert_features
convert_features-ok [] [] e = tt
convert_features-ok [] (s ∷ ss) e = cc
convert_features-ok (p ∷ ps) [] e = ground arith
convert_features-ok (p ∷ ps) (s ∷ ss) e =
    ground (arith, convert_feature-ok p s, convert_features-ok ps ss)

-- A converted answer holds one entry for each entry of the response, in its order, of the same
-- feature and bounds, and with its bounds in order; and the versions of the response.
pub try_from-ok :
    (response : GetGatewayInfoResponse) (info : GatewayInfo)
    → try_from response ≡ ok info
    → AllConvert response.features info.features
      × (info.application_version ≡ response.application_version)
      × (info.compatibility_schema_version ≡ response.compatibility_schema_version)
unfolding try_from
try_from-ok response info e = elim (Result-cases (convert_features response.features)) [
  | inl (ss, c) ↦ ground (arith, convert_features-ok response.features ss c)
  | inr (x, c) ↦ ground arith
]
