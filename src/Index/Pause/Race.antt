-- ===== src/Index/Pause/Race.antt =====
-- Two calls that reconcile one server at the same time: the one that decided first applies its
-- decision last.
use Prim.Native.String.{String}
use opcda_bridge.Base.{
  ℕ, ◌<◌, ◌≡◌, refl, Bool, false, Option, none, some, arith, String-discrete, ℕ_discrete, get,
  get-insert, u64_max, saturating_add,
}
use opcda_bridge.Controller.{foreground}
use opcda_bridge.Index.{
  RuntimeBuild, Manager, InventoryControl, PauseOverlayState, build_of, update_build,
}
use opcda_bridge.Index.Views.{build_of-update}
use opcda_bridge.Index.Pause.{
  pause_reason_of, overlay_of, explained, decide, apply_control, users_of, count_user, guarded,
  foreground_guard, set_paused,
}
use opcda_bridge.Index.Pause.Reconcile.{settled, build_of-reconcile, users-reconcile}

-- A decision to run the build, and what it stores.
decide-none :
    (now : ℕ) (s : String) (m : Manager) (b : RuntimeBuild) (k : ℕ)
    → build_of s m.runtime ≡ some b
    → b.control ≡ some k
    → pause_reason_of now (overlay_of s m) b ≡ none
    → decide now s m
      ≡ (record m { runtime = update_build (explained none) s m.runtime }, some (k, false))
unfolding decide
decide-none now s m b k e q n = ground arith

guarded_reason :
    (now later users : ℕ) (o : PauseOverlayState) (b : RuntimeBuild)
    → pause_reason_of now o b ≡ none
    → 0 < users
    → pause_reason_of later o (guarded users (explained none b)) ≡ some foreground
unfolding pause_reason_of
guarded_reason now later users o b n u = ground arith

users-count_pos : (s : String) (m : Manager) → 0 < users_of s (count_user s m)
unfolding count_user
users-count_pos s m = ground (
  arith,
  get-insert String-discrete s s (saturating_add u64_max (users_of s m) 1) m.foreground_users,
)

users-guard : (later : ℕ) (s : String) (m : Manager) → 0 < users_of s (foreground_guard later s m)
unfolding foreground_guard
users-guard later s m =
    let counted : Manager = count_user s m in
    let f = guarded (users_of s counted) in
    let c : Manager = record counted { runtime = update_build f s counted.runtime } in
    rw (users-reconcile later s c) (users-count_pos s m)

set_paused_value : (p : Bool) (c : Option InventoryControl) → (set_paused p c).paused ≡ p
set_paused_value p none = refl
set_paused_value p (some c) = refl

-- The build after a guard.
build_of-guard :
    (later : ℕ) (s : String) (m : Manager) (b : RuntimeBuild)
    → build_of s m.runtime ≡ some b
    → build_of s (foreground_guard later s m).runtime
      ≡ some (settled later (overlay_of s m) (guarded (users_of s (count_user s m)) b))
unfolding foreground_guard count_user
build_of-guard later s m b e =
    let counted : Manager = count_user s m in
    let f = guarded (users_of s counted) in
    ground (
      arith,
      build_of-reconcile later s s (record counted { runtime = update_build f s m.runtime }),
      build_of-update f s s m.runtime,
    )

-- A call decides that a build may run; a foreground guard is taken; then the call resumes the
-- control. From every state in which no reason pauses the build, the build's reason is now the
-- foreground, a guard is counted, and its control is not paused.
pub late_resume :
    (now later : ℕ) (s : String) (m : Manager) (b : RuntimeBuild) (k : ℕ)
    → build_of s m.runtime ≡ some b
    → b.control ≡ some k
    → pause_reason_of now (overlay_of s m) b ≡ none
    → let decided = decide now s m in
      let last = apply_control decided.1 (foreground_guard later s decided.0) in
      (d : RuntimeBuild) × (c : InventoryControl) × (0 < users_of s last)
      × (build_of s last.runtime ≡ some d)
      × (d.control ≡ some k)
      × (d.pause_reason ≡ some foreground)
      × (get ℕ_discrete k last.controls ≡ some c)
      × (c.paused ≡ false)
unfolding apply_control
late_resume now later s m b k e q none_now =
    let m1 : Manager = record m { runtime = update_build (explained none) s m.runtime } in
    let g : Manager = foreground_guard later s m1 in
    let users : ℕ = users_of s (count_user s m1) in
    let before : build_of s m1.runtime ≡ some (explained none b) =
      ground (arith, build_of-update (explained none) s s m.runtime) in
    rw (decide-none now s m b k e q none_now) (
      settled later (overlay_of s m) (guarded users (explained none b)),
      set_paused false (get ℕ_discrete k g.controls),
      users-guard later s m1,
      build_of-guard later s m1 (explained none b) before,
      q,
      guarded_reason now later users (overlay_of s m) b none_now (users-count_pos s m1),
      ground (
        arith,
        get-insert ℕ_discrete k k (set_paused false (get ℕ_discrete k g.controls)) g.controls,
      ),
      set_paused_value false (get ℕ_discrete k g.controls),
    )
