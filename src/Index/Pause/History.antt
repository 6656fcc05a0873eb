-- ===== src/Index/Pause/History.antt =====
-- Histories of the manager: the calls that concern the pausing of builds, in any order.
use Prim.Native.String.{String}
use opcda_bridge.Base.{
  ℕ, ◌+◌, ◌-◌, ◌<◌, ◌≡◌, Bool, Option, none, [], ite, List, String-discrete, u64_max,
}
use opcda_bridge.Controller.{ControllerState, InventoryLimits}
use opcda_bridge.Config.{ResolvedIndexConfig}
use opcda_bridge.Index.{
  InventoryControl, Manager, build_of, update_build, new_build, store_build, take_build,
}
use opcda_bridge.Index.Pause.{
  users_of, foreground_guard, foreground_end, set_pause_overlay, clear_pause_overlays, quiet_ends,
  update_runtime_controller, operator_pauses, operator_resumes, reconcile_pause_state, with_control,
}

-- The live guards of each server, with one more or one less.
abbrev pub one_more : String → (String → ℕ) → String → ℕ
one_more s live t = ite (String-discrete s t) (live t + 1) (live t)

abbrev pub one_less : String → (String → ℕ) → String → ℕ
one_less s live t = ite (String-discrete s t) (live t - 1) (live t)

-- One call. A guard is dropped only while it lives, and a build starts where there is none. Between
-- the calls the controls may be paused, resumed and cancelled in any way: by enforce_duty_cycle, by the
-- end of a reconciliation whose decision is older, and by the traversal itself.
pub data Step (settings : ResolvedIndexConfig)
    : (String → ℕ) → Manager → (String → ℕ) → Manager → Type 0 where
  guards :
      (now : ℕ) (s : String) (live : String → ℕ) (m : Manager)
      → live s < u64_max
      → Step settings live m (one_more s live) (foreground_guard now s m)
  drops :
      (now : ℕ) (s : String) (live : String → ℕ) (m : Manager)
      → 0 < live s
      → Step settings live m (one_less s live) (foreground_end settings now s m)
  overlays :
      (now : ℕ) (s : String) (a b : Option Bool) (live : String → ℕ) (m : Manager)
      → Step settings live m live (set_pause_overlay now s a b m)
  clears :
      (s : String) (live : String → ℕ) (m : Manager)
      → Step settings live m live (clear_pause_overlays s m)
  pauses :
      (now : ℕ) (s : String) (live : String → ℕ) (m : Manager)
      → Step settings live m live (operator_pauses now s m)
  resumes :
      (now : ℕ) (s : String) (live : String → ℕ) (m : Manager)
      → Step settings live m live (operator_resumes now s m)
  reports :
      (now : ℕ) (s : String) (l : InventoryLimits) (c : ControllerState) (d : Option ℕ)
      (live : String → ℕ) (m : Manager)
      → Step settings live m live (update_runtime_controller now s l c d m)
  quiets :
      (now : ℕ) (s : String) (live : String → ℕ) (m : Manager)
      → Step settings live m live (quiet_ends now s m)
  reconciles :
      (now : ℕ) (s : String) (live : String → ℕ) (m : Manager)
      → Step settings live m live (reconcile_pause_state now s m)
  starts :
      (s : String) (live : String → ℕ) (m : Manager)
      → build_of s m.runtime ≡ none
      → Step settings live m live
          (record m { runtime = store_build s (new_build (users_of s m)) m.runtime })
  attaches :
      (s : String) (k : ℕ) (live : String → ℕ) (m : Manager)
      → Step settings live m live (record m { runtime = update_build (with_control k) s m.runtime })
  finishes :
      (s : String) (live : String → ℕ) (m : Manager)
      → Step settings live m live (record m { runtime = take_build s m.runtime })
  interferes :
      (controls : List (ℕ × InventoryControl)) (live : String → ℕ) (m : Manager)
      → Step settings live m live (record m { controls = controls })

-- What a history from an empty manager without guards leads to.
pub data Reach (settings : ResolvedIndexConfig) : (String → ℕ) → Manager → Type 0 where
  idle :
      (m : Manager)
      → m.runtime ≡ []
      → m.foreground_users ≡ []
      → m.controls ≡ []
      → Reach settings (λ t. 0) m
  next :
      {live live' : String → ℕ} {m m' : Manager}
      → Reach settings live m
      → Step settings live m live' m'
      → Reach settings live' m'
