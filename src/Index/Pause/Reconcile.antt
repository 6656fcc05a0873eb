-- ===== src/Index/Pause/Reconcile.antt =====
-- What reconciling a server's pause state leaves of the builds, the controls and the counts.
use Prim.Native.String.{String}
use opcda_bridge.Base.{
  ℕ, ◌≡◌, Option, none, some, arith, ite, Option-cases, inl, inr, String-discrete, ℕ_discrete, get,
  get-insert, is_some,
}
use opcda_bridge.Index.{
  RuntimeBuild, Manager, InventoryControl, PauseOverlayState, build_of, mapped,
}
use opcda_bridge.Index.Views.{build_of-update}
use opcda_bridge.Index.Pause.{
  pause_reason_of, overlay_of, decide, apply_control, reconcile_pause_state, explained, set_paused,
}

-- The reason that is stored with a build, and its control.
abbrev pub settled : ℕ → PauseOverlayState → RuntimeBuild → RuntimeBuild
settled now overlay b = explained (pause_reason_of now overlay b) b

abbrev pub written :
    ℕ
    → PauseOverlayState
    → Option RuntimeBuild
    → ℕ
    → (ℕ → Option InventoryControl)
    → Option InventoryControl
written now overlay none j old = old j
written now overlay (some b) j old = elim b.control [
  | none ↦ old j
  | some k ↦
      ite (ℕ_discrete k j) (some (set_paused (is_some (pause_reason_of now overlay b)) (old k)))
        (old j)
]

pub build_of-reconcile :
    (now : ℕ) (s t : String) (m : Manager)
    → build_of t (reconcile_pause_state now s m).runtime
      ≡ ite
          (String-discrete s t)
          (mapped (settled now (overlay_of s m)) (build_of s m.runtime))
          (build_of t m.runtime)
unfolding reconcile_pause_state decide apply_control
build_of-reconcile now s t m = elim (Option-cases (build_of s m.runtime)) [
  | inl e ↦ ground arith
  | inr (b, e) ↦
      ground
        (arith, build_of-update (explained (pause_reason_of now (overlay_of s m) b)) s t m.runtime)
]

pub controls-reconcile :
    (now : ℕ) (s : String) (j : ℕ) (m : Manager)
    → get ℕ_discrete j (reconcile_pause_state now s m).controls
      ≡ written now (overlay_of s m) (build_of s m.runtime) j (λ k. get ℕ_discrete k m.controls)
unfolding reconcile_pause_state decide apply_control
controls-reconcile now s j m = elim (Option-cases (build_of s m.runtime)) [
  | inl e ↦ ground arith
  | inr (b, e) ↦ elim (Option-cases b.control) [
    | inl n ↦ ground arith
    | inr (k, q) ↦ ground (
      arith,
      get-insert ℕ_discrete k j
          (set_paused (is_some (pause_reason_of now (overlay_of s m) b))
            (get ℕ_discrete k m.controls))
          m.controls,
    )
  ]
]

pub users-reconcile :
    (now : ℕ) (s : String) (m : Manager)
    → (reconcile_pause_state now s m).foreground_users ≡ m.foreground_users
unfolding reconcile_pause_state decide apply_control
users-reconcile now s m = elim (Option-cases (build_of s m.runtime)) [
  | inl e ↦ ground arith
  | inr (b, e) ↦ elim (Option-cases b.control) [ inl n ↦ ground arith | inr (k, q) ↦ ground arith ]
]
