-- ===== src/Index/Pause/Reason.antt =====
-- The reason for which a build is paused, and when it may run.
use Prim.Native.String.{String}
use opcda_bridge.Base.{
  ℕ, ◌≡◌, not, some, arith, ite, String-discrete, ℕ_discrete, get, is_some, subst,
}
use opcda_bridge.Index.{RuntimeBuild, Manager, PauseOverlayState, build_of}
use opcda_bridge.Index.Pause.{
  pause_reason_of, controller_reason, overlay_of, build_can_resume, reconcile_pause_state,
  explained, set_paused,
}
use opcda_bridge.Index.Pause.Reconcile.{written, build_of-reconcile, controls-reconcile}

pub resume_iff :
    (now : ℕ) (o : PauseOverlayState) (b : RuntimeBuild)
    → is_some (pause_reason_of now o b) ≡ not (build_can_resume now b o)
unfolding pause_reason_of controller_reason build_can_resume
resume_iff now o b = ground arith

-- Reconciling stores the reason with the build of the server, and pauses its control unless the
-- build may resume; the builds of other servers, and all other controls, stay as they are.
pub reconcile_lem :
    (now : ℕ) (s t : String) (m : Manager) (b : RuntimeBuild) (k j : ℕ)
    → build_of s m.runtime ≡ some b
    → b.control ≡ some k
    → let r = reconcile_pause_state now s m in
      (build_of t r.runtime
        ≡ ite
            (String-discrete s t)
            (some (explained (pause_reason_of now (overlay_of s m) b) b))
            (build_of t m.runtime))
      × (get ℕ_discrete j r.controls
          ≡ ite
              (ℕ_discrete k j)
              (some (
                set_paused
                  (not (build_can_resume now b (overlay_of s m)))
                  (get ℕ_discrete k m.controls)))
              (get ℕ_discrete j m.controls))
reconcile_lem now s t m b k j e q = (
  ground (arith, build_of-reconcile now s t m),
  ground (arith, seen, resume_iff now (overlay_of s m) b),
)
  where
    seen :
        get ℕ_discrete j (reconcile_pause_state now s m).controls
        ≡ written now (overlay_of s m) (some b) j (λ i. get ℕ_discrete i m.controls)
    seen =
        subst
          (λ x.
            get ℕ_discrete j (reconcile_pause_state now s m).controls
            ≡ written now (overlay_of s m) x j (λ i. get ℕ_discrete i m.controls))
          e (controls-reconcile now s j m)
