-- ===== src/Compat/Evidence.antt =====
-- `catalog_evidence` and `release_line_for`: what backs a verdict of the catalog.
use mathlib.Core.List.{Memᴰ}
use opcda_bridge.Base.{
  ◌≡◌, refl, ◌≢◌, ◌⊎◌, inl, inr, Bool, true, some, List, [], ◌∷◌, arith, Text, find, Bool-cases,
  Option-cases,
}
use opcda_bridge.Compat.Catalog.{
  Catalog, ReleaseLine, EvidenceEntry, Version, version_tuple, contains_version, release_line_for,
  CompatibilityEvidence, unverified, evidence_status, is_exact_entry, is_line_entry, first_status,
  line_evidence, catalog_evidence,
}

-- An entry of the table that passes the test and carries the status.
pub record Backs (test : EvidenceEntry → Bool) (table : List EvidenceEntry)
    (s : CompatibilityEvidence) : Type 0 where
  pub entry : EvidenceEntry
  pub listed : Memᴰ entry table
  pub passes : test entry ≡ true
  pub says : evidence_status entry.status ≡ some s

later :
    (test : EvidenceEntry → Bool) (e : EvidenceEntry) (es : List EvidenceEntry)
    (s : CompatibilityEvidence)
    → Backs test es s
    → Backs test (e ∷ es) s
later test e es s b = record {
  entry = b.entry;
  listed = Memᴰ.tail b.listed;
  passes = b.passes;
  says = b.says;
}

first_status-Backs :
    (test : EvidenceEntry → Bool) (table : List EvidenceEntry) (s : CompatibilityEvidence)
    → first_status test table ≡ some s
    → Backs test table s
unfolding first_status
first_status-Backs test [] s h = absurd (cc h)
first_status-Backs test (e ∷ es) s h = elim (Bool-cases (test e)) [
  | inr no_match ↦ later test e es s (first_status-Backs test es s (ground arith))
  | inl match ↦ elim (Option-cases (evidence_status e.status)) [
    | inl bad ↦ later test e es s (first_status-Backs test es s (ground arith))
    | inr (t, good) ↦ record {
      entry = e;
      listed = Memᴰ.head refl;
      passes = match;
      says = ground arith;
    }
  ]
]

-- The first element that passes a test is in the list and passes it.
find-Memᴰ :
    (test : ReleaseLine → Bool) (xs : List ReleaseLine) (x : ReleaseLine)
    → find test xs ≡ some x
    → Memᴰ x xs × (test x ≡ true)
unfolding find
find-Memᴰ test [] x h = absurd (cc h)
find-Memᴰ test (y ∷ ys) x h = elim (Bool-cases (test y)) [
  | inl hit ↦ (Memᴰ.head (ground arith), ground arith)
  | inr miss ↦ let (m, p) = find-Memᴰ test ys x (ground arith) in (Memᴰ.tail m, p)
]

-- What backs a verdict: both versions are in a release line of the catalog, and an entry of its
-- table for these two lines carries the verdict, for exactly these versions or for all of the lines.
pub record IsBacked (catalog : Catalog) (c g : Text) (s : CompatibilityEvidence) : Type 0 where
  pub client_version : Version
  pub gateway_version : Version
  pub client_parsed : version_tuple c ≡ some client_version
  pub gateway_parsed : version_tuple g ≡ some gateway_version
  pub client_line : ReleaseLine
  pub gateway_line : ReleaseLine
  pub client_listed : Memᴰ client_line catalog.release_lines
  pub gateway_listed : Memᴰ gateway_line catalog.release_lines
  pub client_inside : contains_version client_version client_line ≡ true
  pub gateway_inside : contains_version gateway_version gateway_line ≡ true
  pub backed :
      Backs (is_exact_entry client_line.name gateway_line.name c g) catalog.evidence s
      ⊎ Backs (is_line_entry client_line.name gateway_line.name) catalog.evidence s

module _ (catalog : Catalog) where
  line_found :
      (v : Text) (line : ReleaseLine)
      → release_line_for catalog v ≡ some line
      → (t : Version) × (version_tuple v ≡ some t)
        × Memᴰ line catalog.release_lines
        × (contains_version t line ≡ true)
  unfolding release_line_for
  line_found v line h = elim (Option-cases (version_tuple v)) [
    | inl e ↦ absurd (cc (h, e))
    | inr (t, e) ↦
        let (m, p) = find-Memᴰ (contains_version t) catalog.release_lines line (ground arith) in
        (t, e, m, p)
  ]

  line_evidence-Backs :
      (cl gl cv gv : Text) (s : CompatibilityEvidence)
      → line_evidence catalog cl gl cv gv ≡ s
      → s ≢ unverified
      → Backs (is_exact_entry cl gl cv gv) catalog.evidence s
        ⊎ Backs (is_line_entry cl gl) catalog.evidence s
  unfolding line_evidence
  line_evidence-Backs cl gl cv gv s h n =
      elim (Option-cases (first_status (is_exact_entry cl gl cv gv) catalog.evidence)) [
        | inr (t, e) ↦ inl (first_status-Backs _ catalog.evidence s (ground arith))
        | inl e ↦ elim (Option-cases (first_status (is_line_entry cl gl) catalog.evidence)) [
          | inr (t, f) ↦ inr (first_status-Backs _ catalog.evidence s (ground arith))
          | inl f ↦ absurd (n (ground arith))
        ]
      ]

  -- A verdict other than unverified of two stated versions is backed: both versions parse and lie in
  -- a release line of the catalog, and an entry of its table for the names of these two lines, of
  -- exactly these versions or of no exact version, carries the verdict.
  pub catalog_evidence-IsBacked :
      (c g : Text) (s : CompatibilityEvidence)
      → catalog_evidence catalog (some c) (some g) ≡ s
      → s ≢ unverified
      → IsBacked catalog c g s
  unfolding catalog_evidence
  catalog_evidence-IsBacked c g s h n = elim (Option-cases (release_line_for catalog c)) [
    | inl e ↦ absurd (n (ground arith))
    | inr (cl, e) ↦ elim (Option-cases (release_line_for catalog g)) [
      | inl f ↦ absurd (n (ground arith))
      | inr (gl, f) ↦
          let (t, tp, tm, ti) = line_found c cl e in
          let (u, up, um, ui) = line_found g gl f in
          record {
            client_version = t;
            gateway_version = u;
            client_parsed = tp;
            gateway_parsed = up;
            client_line = cl;
            gateway_line = gl;
            client_listed = tm;
            gateway_listed = um;
            client_inside = ti;
            gateway_inside = ui;
            backed = line_evidence-Backs cl.name gl.name c g s (ground arith) n;
          }
    ]
  ]
