-- ===== src/Index/Store/Refinement.antt =====
-- Every statement of the store keeps its invariant and refines the map of active generations.
use Prim.Native.String.{String}
use opcda_bridge.Base.{
  ℕ, ◌+◌, ◌≡◌, refl, Bool, false, not, ◌&&◌, ◌||◌, some, arith, ◌==◌, ltb, String-discrete,
  Bool-cases, inl, inr, is_some, get, List, [], ◌∷◌, ◌∙◌,
}
use opcda_bridge.Browse.{
  NamespaceOrganization, BrowseSource, unspecified_organization, unspecified_source,
}
use opcda_bridge.Index.Store.{
  Generation, Store, Promotion, update_where, count_where, of_server, is_staged, is_active_of,
  supersede, fail, latest, staged_row, enroll, start_generation, record_failed_attempt,
  promote_with_profile, fail_generation, discard_empty_generation, clear_server, delete_index,
  set_auto_refresh, failed, i64_max, update_progress, with_counts, delete_where,
}
use opcda_bridge.Index.Store.Recovery.{
  recover_server, is_staging_of, with_error, interrupt, delete_candidates, is_garbage,
}
use opcda_bridge.Index.Store.Statements.{
  Statement, enrolls, starts, records_failure, promotes, fails, discards, clears, deletes,
  sets_auto_refresh, updates_progress, recovers, cleans, execute,
}
use opcda_bridge.Index.Store.Rows.{
  active_of, active_of-update, active_of-delete, active_of-delete_server, active_of-append,
}
use opcda_bridge.Index.Store.Active.{
  Inv, publish, commits, append-Inv, delete-Inv, fail-Inv, update-Inv, promoted-Inv,
  active_of-promoted,
}

-- The invariant, and the active generation of a server afterwards.
Refines : Statement → Store → Bool → Store → String → Type 0
Refines st s committed s' t =
    Inv s'.generations
    × (active_of t s'.generations ≡ publish st committed (λ u. active_of u s.generations) t)

module _ (t : String) (s : Store) (i : Inv s.generations) where
  starts-Refines :
      (u : String) (o : NamespaceOrganization) (b : BrowseSource) (at : String)
      → Refines (starts u o b at) s false (start_generation u o b at s).0 t
  unfolding Refines start_generation enroll
  starts-Refines u o b at =
      let row = staged_row u (latest u s.generations + 1) o b at in
      (append-Inv s.generations row u refl refl refl i, active_of-append t s.generations row refl)

  failure-Refines :
      (u at error : String)
      → Refines (records_failure u at error) s false (record_failed_attempt u at error s) t
  unfolding Refines record_failed_attempt
  failure-Refines u at error =
      let row =
        record (staged_row u (latest u s.generations + 1) unspecified_organization
          unspecified_source at) { state = failed; last_error = some error } in
      (append-Inv s.generations row u refl refl refl i, active_of-append t s.generations row refl)

  promotes-Refines :
      (u : String) (g : ℕ) (p : Promotion)
      → let r = promote_with_profile u g p s in Refines (promotes u g p) s r.1 r.0 t
  unfolding Refines promote_with_profile
  promotes-Refines u g p =
      elim (Bool-cases (ltb i64_max p.searchable_item_count || ltb i64_max g)) [
        | inl big ↦ rw big (i, refl)
        | inr fits ↦
            elim (Bool-cases (
              count_where (is_staged u g) (update_where (is_active_of u) supersede s.generations)
              == 1)) [
                | inr no_row ↦ rw (fits, no_row) (i, refl)
                | inl one ↦
                    rw (fits, one)
                      (
                        promoted-Inv u g p s.generations (ground arith) i,
                        active_of-promoted u t g p s.generations (ground arith),
                      )
              ]
      ]

  fails-Refines :
      (u : String) (g : ℕ) (error : String)
      → Refines (fails u g error) s false (fail_generation u g error s) t
  unfolding Refines fail_generation
  fails-Refines u g error = (
    fail-Inv u error g s.generations i,
    active_of-update t (is_staged u g) (fail error) s.generations (λ r. ground arith)
        (λ r. ground arith),
  )

  discards-Refines :
      (has_entries : String → ℕ → Bool) (u : String) (g : ℕ)
      → Refines (discards has_entries u g) s false (discard_empty_generation has_entries u g s).0 t
  unfolding Refines discard_empty_generation
  discards-Refines has_entries u g =
      let is_empty =
        λ (r : Generation). is_staged u g r && not (has_entries r.server r.generation) in
      (
        delete-Inv is_empty s.generations i,
        active_of-delete t is_empty s.generations (λ r. ground arith),
      )

  clears-Refines : (u : String) → Refines (clears u) s false (clear_server u s) t
  unfolding Refines clear_server
  clears-Refines u =
      (delete-Inv (of_server u) s.generations i, active_of-delete_server u t s.generations)

  deletes-Refines : (u : String) → Refines (deletes u) s false (delete_index u s) t
  unfolding Refines delete_index
  deletes-Refines u =
      (delete-Inv (of_server u) s.generations i, active_of-delete_server u t s.generations)

  progress-Refines :
      (u : String) (g entries items : ℕ)
      → Refines
          (updates_progress u g entries items)
          s
          false
          (update_progress u g entries items s).0
          t
  unfolding Refines update_progress
  progress-Refines u g entries items =
      elim (Bool-cases (ltb i64_max entries || ltb i64_max items || ltb i64_max g)) [
        | inl big ↦ rw big (i, refl)
        | inr fits ↦ rw fits (
          update-Inv (is_staged u g) (with_counts entries items) s.generations
              (λ v k r. ground arith) (λ v r. ground arith) i,
          active_of-update t (is_staged u g) (with_counts entries items) s.generations
              (λ r. ground arith) (λ r. ground arith),
        )
      ]

  recovers-Refines :
      (is_held : Bool) (u : String)
      → Refines (recovers is_held u) s false (recover_server is_held u s) t
  unfolding Refines recover_server
  recovers-Refines is_held u =
      let has_active = ltb 0 (count_where (is_active_of u) s.generations) in
      let marked = update_where (is_active_of u) with_error s.generations in
      elim (Bool-cases (is_held || count_where (is_staging_of u) s.generations == 0)) [
        | inl kept ↦ rw kept (i, refl)
        | inr lost ↦ rw lost (
          update-Inv (is_staging_of u) (interrupt has_active) marked (λ v k r. ground arith)
              (λ v r. ground arith)
              (update-Inv (is_active_of u) with_error s.generations (λ v k r. ground arith)
                (λ v r. ground arith) i),
          active_of-update t (is_staging_of u) (interrupt has_active) marked (λ r. ground arith)
                (λ r. ground arith)
              ∙ active_of-update t (is_active_of u) with_error s.generations (λ r. ground arith)
                  (λ r. ground arith),
        )
      ]

  enrolls-Refines : (u : String) → Refines (enrolls u) s false (enroll u s) t
  unfolding Refines enroll
  enrolls-Refines u = (i, refl)

  auto_refresh-Refines :
      (u : String) (b : Bool) → Refines (sets_auto_refresh u b) s false (set_auto_refresh u b s).0 t
  unfolding Refines set_auto_refresh
  auto_refresh-Refines u b =
      elim (Bool-cases (is_some (get String-discrete u s.enrolled_servers))) [
        | inl e ↦ rw e (i, refl)
        | inr e ↦ rw e (i, refl)
      ]

cleans-Refines :
    (has_entries : String → ℕ → Bool) (u t : String) (candidates : List ℕ) (s : Store)
    → Inv s.generations
    → Refines
        (cleans has_entries u candidates)
        s
        false
        (delete_candidates has_entries u candidates s)
        t
unfolding Refines delete_candidates
cleans-Refines has_entries u t [] s i = (i, refl)
cleans-Refines has_entries u t (g ∷ candidates) s i =
    let garbage = is_garbage (ltb 0 (count_where (is_active_of u) s.generations)) has_entries u g in
    let (j, e) =
      cleans-Refines has_entries u t candidates
        (record s { generations = delete_where garbage s.generations })
        (delete-Inv garbage s.generations i) in
    (j, e ∙ active_of-delete t garbage s.generations (λ r. ground arith))

-- Every statement of the store, the recovery when a database is opened and the cleanup included, keeps
-- the keys of the generations different and at most one generation of a server active, and refines the map from servers to active generations: a promotion that is
-- committed makes its generation the active one of its server; the removal of a server or of its
-- index takes its active generation away; and nothing else changes the active generation of any
-- server, a promotion that is not committed included.
pub execute-publish :
    (st : Statement) (s : Store) (t : String)
    → Inv s.generations
    → Inv (execute st s).generations
      × (active_of t (execute st s).generations
          ≡ publish st (commits st s) (λ u. active_of u s.generations) t)
unfolding execute Refines
execute-publish (enrolls u) s t i = enrolls-Refines t s i u
execute-publish (starts u o b at) s t i = starts-Refines t s i u o b at
execute-publish (records_failure u at e) s t i = failure-Refines t s i u at e
execute-publish (promotes u g p) s t i = promotes-Refines t s i u g p
execute-publish (fails u g e) s t i = fails-Refines t s i u g e
execute-publish (discards h u g) s t i = discards-Refines t s i h u g
execute-publish (clears u) s t i = clears-Refines t s i u
execute-publish (deletes u) s t i = deletes-Refines t s i u
execute-publish (sets_auto_refresh u b) s t i = auto_refresh-Refines t s i u b
execute-publish (updates_progress u g e n) s t i = progress-Refines t s i u g e n
execute-publish (recovers h u) s t i = recovers-Refines t s i h u
execute-publish (cleans h u gs) s t i = cleans-Refines h u t gs s i
