-- ===== src/Index/Pause/Tests.antt =====
-- The pausing of builds at concrete states.
use Prim.Native.String.{String}
use opcda_bridge.Base.{
  ◌∷◌, List, ℕ, ◌<◌, ◌≡◌, refl, true, false, not, ◌||◌, none, some, [], arith, ite, String-discrete,
  ℕ_discrete, get, insert, is_some, ◌==◌,
}
use opcda_bridge.Controller.{foreground}
use opcda_bridge.Config.{ResolvedIndexConfig}
use opcda_bridge.Config.Defaults.{defaults}
use opcda_bridge.Index.{
  empty_manager, RuntimeBuild, InventoryControl, Manager, build_of, new_build, store_build,
  update_build, update_state,
}
use opcda_bridge.Index.Pause.{
  users_of, foreground_guard, count_user, reconcile_pause_state, pause_reason_of, overlay_of,
  controller_reason, explained, set_paused, build_can_resume, decide, apply_control, with_control,
}
use opcda_bridge.Index.Pause.History.{
  Reach, idle, next, starts, attaches, interferes, guards, one_more,
}
use opcda_bridge.Index.Pause.Refinement.{guards_pause}
use opcda_bridge.Index.Pause.Reason.{reconcile_lem}
use opcda_bridge.Index.Pause.Race.{late_resume}

abbrev no_guards : String → ℕ
no_guards t = 0

abbrev started_manager : Manager
started_manager = record empty_manager {
  runtime = store_build "plant" (new_build (users_of "plant" empty_manager)) [];
}

abbrev attached : Manager
attached = record started_manager {
  runtime = update_build (with_control 7) "plant" started_manager.runtime;
}

abbrev running : RuntimeBuild
running = record (new_build 0) { control = some 7 }

abbrev guarded_plant : Manager
guarded_plant = foreground_guard 5 "plant" attached

started_build :
    (t : String) (b : RuntimeBuild) → build_of t started_manager.runtime ≡ some b → b.control ≡ none
unfolding store_build get insert
started_build t b h = ground arith

history :
    (settings : ResolvedIndexConfig) → Reach settings (one_more "plant" no_guards) guarded_plant
unfolding get store_build
history settings =
    next
      (next (next (idle empty_manager refl refl refl) (starts "plant" no_guards empty_manager refl))
        (attaches "plant" 7 no_guards started_manager))
      (guards 5 "plant" no_guards attached (omega arith))

abbrev held : RuntimeBuild
held = record running { foreground_users = 1; pause_reason = some foreground }

paused_build : build_of "plant" guarded_plant.runtime ≡ some held
unfolding foreground_guard count_user reconcile_pause_state decide apply_control pause_reason_of get
    insert store_build update_build update_state String-discrete
paused_build = refl

running_build : build_of "plant" attached.runtime ≡ some running
unfolding get insert store_build update_build update_state String-discrete
running_build = refl

-- A late call has resumed the control of the build.
abbrev late : List (ℕ × InventoryControl)
late = (7, record { paused = false; cancelled = false }) ∷ []

abbrev resumed : Manager
resumed = record guarded_plant { controls = late }

guards_pause_example :
    let m' = reconcile_pause_state 6 "plant" resumed in
    (users_of "plant" resumed ≡ one_more "plant" no_guards "plant")
    × (held.foreground_users ≡ one_more "plant" no_guards "plant")
    × ((b : RuntimeBuild) × (c : InventoryControl) × (build_of "plant" m'.runtime ≡ some b)
        × (get ℕ_discrete 7 m'.controls ≡ some c)
        × (c.paused ≡ is_some b.pause_reason)
        × ((one_more "plant" no_guards "plant" == 0 || c.paused) ≡ true))
guards_pause_example =
    guards_pause
      (next (history defaults) (interferes late (one_more "plant" no_guards) guarded_plant)) 6
      "plant" held 7 paused_build refl

reconcile_lem_example :
    let r = reconcile_pause_state 5 "plant" attached in
    (build_of "plant" r.runtime
      ≡ ite
          (String-discrete "plant" "plant")
          (some (explained (pause_reason_of 5 (overlay_of "plant" attached) running) running))
          (build_of "plant" attached.runtime))
    × (get ℕ_discrete 7 r.controls
        ≡ ite
            (ℕ_discrete 7 7)
            (some (
              set_paused
                (not (build_can_resume 5 running (overlay_of "plant" attached)))
                (get ℕ_discrete 7 attached.controls)))
            (get ℕ_discrete 7 attached.controls))
reconcile_lem_example = reconcile_lem 5 "plant" "plant" attached running 7 7 running_build refl

idle_reason : pause_reason_of 5 (overlay_of "plant" attached) running ≡ none
unfolding pause_reason_of controller_reason get
idle_reason = refl

late_resume_example :
    let decided = decide 5 "plant" attached in
    let last = apply_control decided.1 (foreground_guard 6 "plant" decided.0) in
    (d : RuntimeBuild) × (c : InventoryControl) × (0 < users_of "plant" last)
    × (build_of "plant" last.runtime ≡ some d)
    × (d.control ≡ some 7)
    × (d.pause_reason ≡ some foreground)
    × (get ℕ_discrete 7 last.controls ≡ some c)
    × (c.paused ≡ false)
late_resume_example = late_resume 5 6 "plant" attached running 7 running_build refl idle_reason
