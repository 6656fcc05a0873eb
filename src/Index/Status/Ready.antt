-- ===== src/Index/Status/Ready.antt =====
-- When the parts of a status make it ready, and which generation it reports.
use Prim.Native.String.{String}
use opcda_bridge.Base.{
  ℕ, ◌≡◌, ap, sym, ◌∙◌, Bool, true, false, not, ◌&&◌, Option, none, some, List, arith, is_some,
  is_some_and, unwrap_or, Option-cases, inl, inr,
}
use opcda_bridge.Query.Search.{IndexState, ready}
use opcda_bridge.Index.Store.{Generation, is_active, is_staging}
use opcda_bridge.Index.Store.Active.{Inv}
use opcda_bridge.Index.Store.Rows.{active_of}
use opcda_bridge.Index.Status.{ReportedBuild, RuntimeStatus}
use opcda_bridge.Index.Status.Rows.{is_failed, StatusRows, status_rows, from_rows}
use opcda_bridge.Index.Status.Parts.{
  Clock, Settings, is_stale, base_status, apply_status_errors, apply_runtime_status,
  status_without_build, status_during_build, status_from_active_row, status_from_row,
  status_from_runtime_build, total_bytes,
}
use opcda_bridge.Index.Status.Report.{Reads, enrolled_status, storage_of}
use opcda_bridge.Index.Status.Newest.{generation_of, find-holds, active_row_lem, active_of-find}

abbrev pub is_ready : IndexState → Bool
is_ready ready = true
is_ready _ = false

module _ (V : Type 0) (clock : Clock) (settings : Settings) (server : String) where
  base_ready :
      (rows : StatusRows) (build : Option (ReportedBuild V)) (is_promoting : Bool) (bytes : ℕ)
      → is_ready (base_status V clock settings server rows build is_promoting bytes).state ≡ (
          not (is_some build)
          && is_some_and rows.active
              (λ r. not (is_some rows.failed_after_active) && not (is_stale clock settings r)))
  unfolding base_status status_without_build status_during_build status_from_active_row
      status_from_row status_from_runtime_build
  base_ready rows none p bytes = ground arith
  base_ready rows (some b) p bytes = ground arith

  pub enrolled_ready :
      (reads : Reads V) (auto : Bool) (rows : StatusRows) (e : Option String)
      (runtime : RuntimeStatus V)
      → is_ready (enrolled_status V clock settings server reads auto rows e runtime).state ≡ (
          not (is_some reads.deletion_error)
          && (not (is_some runtime.last_error)
              && (not (is_some runtime.build)
                  && is_some_and rows.active (λ r.
                    not (is_some rows.failed_after_active) && not (is_stale clock settings r)))))
  unfolding enrolled_status apply_status_errors apply_runtime_status
  enrolled_ready reads auto rows e runtime =
      ground
        (arith, base_ready rows runtime.build reads.is_promoting (total_bytes (storage_of V reads)))

  -- A row of another state than active has no active generation.
  base_generation :
      (rows : StatusRows) (build : Option (ReportedBuild V)) (is_promoting : Bool) (bytes : ℕ)
      → ((r : Generation) → rows.active ≡ some r → is_active r.state ≡ true)
      → ((r : Generation) → rows.staging ≡ some r → is_staging r.state ≡ true)
      → ((r : Generation) → rows.failed ≡ some r → is_failed r.state ≡ true)
      → (base_status V clock settings server rows build is_promoting bytes).active_generation
        ≡ unwrap_or (generation_of rows.active) 0
  unfolding base_status status_without_build status_during_build status_from_active_row
      status_from_row status_from_runtime_build
  base_generation rows build p bytes a s f = elim (Option-cases rows.active) [
    | inr (r, e) ↦ ground (arith, a r e)
    | inl no_active ↦ elim (Option-cases rows.staging) [
      | inr (r, e) ↦ ground (arith, s r e)
      | inl no_staging ↦ elim (Option-cases rows.failed) [
        | inr (r, e) ↦ ground (arith, f r e)
        | inl no_failed ↦ ground arith
      ]
    ]
  ]

  pub reported_generation :
      (gs : List Generation) (build : Option (ReportedBuild V)) (is_promoting : Bool) (bytes : ℕ)
      → Inv gs
      → (base_status V clock settings server
          (from_rows (status_rows server gs))
          build
          is_promoting
          bytes).active_generation
        ≡ unwrap_or (active_of server gs) 0
  unfolding from_rows
  reported_generation gs build p bytes i =
      let rows = status_rows server gs in
      base_generation (from_rows rows) build p bytes (find-holds (λ r. is_active r.state) rows)
        (find-holds (λ r. is_staging r.state) rows) (find-holds (λ r. is_failed r.state) rows)
      ∙ ap (λ o. unwrap_or (generation_of o) 0) (active_row_lem server gs (i.single server))
      ∙ ap (λ o. unwrap_or o 0) (sym (active_of-find server gs))
