-- ===== src/Index/Status/States.antt =====
-- When IndexManager::status reports that an index is ready.
use Prim.Native.String.{String}
use opcda_bridge.Base.{
  ℕ, ◌≡◌, refl, ap, ◌∙◌, Bool, true, false, not, ◌&&◌, Option, none, some, List, arith, find,
  is_some, is_some_and, unwrap_or, Option-cases, Bool-cases, inl, inr, if◌then◌else◌,
}
use opcda_bridge.Query.Search.{ok}
use opcda_bridge.Index.Store.{Generation, is_active_of}
use opcda_bridge.Index.Store.Active.{Inv}
use opcda_bridge.Index.Store.Rows.{active_of}
use opcda_bridge.Index.Status.{IndexStatus, RuntimeStatus}
use opcda_bridge.Index.Status.Rows.{status_rows, from_rows}
use opcda_bridge.Index.Status.Parts.{
  Clock, Settings, is_stale, apply_status_errors, apply_runtime_status, total_bytes, or_else,
}
use opcda_bridge.Index.Status.Report.{
  Reads, read_enrollment, load_status_rows, load_persisted_retry_state, with_retry_state,
  enrolled_status, status, storage_of, of_enrollment, not_enrolled, deletion_status, ◌>>=◌,
}
use opcda_bridge.Index.Status.Newest.{active_row_lem, newer_failure-fails_after, fails_after}
use opcda_bridge.Index.Status.Ready.{is_ready, enrolled_ready, reported_generation}

-- What an index must be for its status to be ready, once the reads have answered: the server is
-- enrolled, as `enrollment` says, and not being deleted, and no deletion of its index has failed; it
-- has no build and no error of one; and it has an active generation, after which none has failed, and
-- which is not older than the refresh interval.
abbrev pub is_searchable :
    {V : Type 0} → Clock → Settings → String → Reads V → Option Bool → List Generation → Bool
is_searchable clock settings server reads enrollment gs =
    not reads.is_deleting
    && (is_some enrollment
        && (not (is_some reads.deletion_error)
            && (not (is_some reads.runtime.last_error)
                && (not (is_some reads.runtime.build)
                    && is_some_and (find (is_active_of server) gs) (λ r.
                      not (fails_after server r.generation gs)
                      && not (is_stale clock settings r))))))

rows_ready :
    (clock : Clock) (settings : Settings) (server : String) (gs : List Generation)
    → Inv gs
    → is_some_and (from_rows (status_rows server gs)).active (λ r.
      not (is_some (from_rows (status_rows server gs)).failed_after_active)
      && not (is_stale clock settings r))
      ≡ is_some_and
          (find (is_active_of server) gs)
          (λ r. not (fails_after server r.generation gs) && not (is_stale clock settings r))
unfolding from_rows
rows_ready clock settings server gs i =
    rw (active_row_lem server gs (i.single server))
      (elim (Option-cases (find (is_active_of server) gs)) [
        | inl e ↦ rw e refl
        | inr (r, e) ↦ rw e (ground (arith, newer_failure-fails_after server r.generation gs))
      ])

runtime_kept :
    {V : Type 0} (clock : Clock) (reads : Reads V) (runtime : RuntimeStatus V)
    → load_persisted_retry_state V clock reads ≡ ok runtime
    → (runtime.build ≡ reads.runtime.build) × (runtime.last_error ≡ reads.runtime.last_error)
unfolding load_persisted_retry_state with_retry_state
runtime_kept clock reads runtime h = ground arith

if-true {ℓ} : {A : Type ℓ} {b : Bool} (x y : A) → b ≡ true → (if b then x else y) ≡ x
if-true x y h = ground arith

if-false {ℓ} : {A : Type ℓ} {b : Bool} (x y : A) → b ≡ false → (if b then x else y) ≡ y
if-false x y h = ground arith

abbrev reported_active : {V : Type 0} → Reads V → Option Bool → String → List Generation → ℕ
reported_active reads enrollment server gs =
    if not reads.is_deleting && is_some enrollment then unwrap_or (active_of server gs) 0 else 0

-- The state and the active generation that a status reports.
abbrev pub Reports :
    {V : Type 0}
    → Clock
    → Settings
    → String
    → Reads V
    → Option Bool
    → List Generation
    → IndexStatus V
    → Type 0
Reports clock settings server reads enrollment gs s =
    (is_ready s.state ≡ is_searchable clock settings server reads enrollment gs)
    × (s.active_generation ≡ reported_active reads enrollment server gs)

module _ {V : Type 0} (clock : Clock) (settings : Settings) (server : String) (reads : Reads V)
    (gs : List Generation) where
  enrolled-Reports :
      (auto : Bool) (e : Option String) (runtime : RuntimeStatus V)
      → Inv gs
      → reads.is_deleting ≡ false
      → runtime.build ≡ reads.runtime.build
      → runtime.last_error ≡ reads.runtime.last_error
      → Reports clock settings server reads (some auto) gs (
          enrolled_status V clock settings server reads auto
            (from_rows (status_rows server gs))
            e
            runtime)
  unfolding apply_status_errors apply_runtime_status enrolled_status
  enrolled-Reports auto e runtime i d b l =
      let rows = from_rows (status_rows server gs) in
      let bytes = total_bytes (storage_of V reads) in
      (
        ground (
          arith,
          enrolled_ready V clock settings server reads auto rows e runtime,
          rows_ready clock settings server gs i,
        ),
        ground (
          arith,
          reported_generation V clock settings server gs runtime.build reads.is_promoting bytes i,
        ),
      )

  of_enrollment-Reports :
      (enrollment : Option Bool) (e f : Option String) (runtime : RuntimeStatus V)
      → Inv gs
      → reads.is_deleting ≡ false
      → load_status_rows V reads ≡ ok (status_rows server gs, f)
      → load_persisted_retry_state V clock reads ≡ ok runtime
      → (s : IndexStatus V) × (of_enrollment V clock settings server reads (enrollment, e) ≡ ok s)
        × Reports clock settings server reads enrollment gs s
  of_enrollment-Reports none e f runtime i d rl rr =
      (not_enrolled V settings server reads.deletion_error, refl, ground arith)
  of_enrollment-Reports (some auto) e f runtime i d rl rr =
      let (b, l) = runtime_kept clock reads runtime rr in
      (
        enrolled_status V clock settings server reads auto (from_rows (status_rows server gs))
            (or_else f e) runtime,
        rw (rl, rr) refl,
        enrolled-Reports auto (or_else f e) runtime i d b l,
      )

-- If the reads that a status needs succeed, on the generations of a store that keeps its invariant,
-- then a status is answered. Its active generation is that of the server in the store, and zero while
-- the server is being deleted or is not enrolled. Its state is ready exactly when the server is
-- enrolled and not being deleted, no deletion of its index has failed, it has no build and no error of
-- one, and it has an active generation after which none has failed and which is not older than the
-- refresh interval.
pub status-Reports :
    {V : Type 0} (clock : Clock) (settings : Settings) (server : String) (reads : Reads V)
    (gs : List Generation) (enrollment : Option Bool) (e f : Option String)
    (runtime : RuntimeStatus V)
    → Inv gs
    → read_enrollment V reads ≡ ok (enrollment, e)
    → load_status_rows V reads ≡ ok (status_rows server gs, f)
    → load_persisted_retry_state V clock reads ≡ ok runtime
    → (s : IndexStatus V) × (status V clock settings server reads ≡ ok s)
      × Reports clock settings server reads enrollment gs s
unfolding status
status-Reports {V} clock settings server reads gs enrollment e f runtime i re rl rr =
    elim (Bool-cases reads.is_deleting) [
      | inl d ↦ (deletion_status V settings server reads, if-true _ _ d, ground arith)
      | inr d ↦
          let (s, h, r) =
            of_enrollment-Reports clock settings server reads gs enrollment e f runtime i d rl rr in
          (
            s,
            if-false _ _ d
                ∙ ap (λ answer. answer >>= of_enrollment V clock settings server reads) re
                ∙ h,
            r,
          )
    ]
