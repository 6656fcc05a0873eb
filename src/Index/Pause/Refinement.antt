-- ===== src/Index/Pause/Refinement.antt =====
-- Every history of calls keeps the counts of the guards, and what reconciling makes of them.
use Prim.Native.String.{String}
use opcda_bridge.Base.{
  ℕ, ◌≡◌, refl, true, ◌||◌, none, some, [], arith, ℕ_discrete, get, is_some, ◌==◌,
}
use opcda_bridge.Config.{ResolvedIndexConfig}
use opcda_bridge.Index.{RuntimeBuild, Manager, InventoryControl, build_of}
use opcda_bridge.Index.Pause.{
  users_of, set_overlay, set_pause_overlay, controlled, update_runtime_controller, pause_build,
  overlay_of, pause_reason_of, reconcile_pause_state, set_paused, operator_pauses, resume_build,
  operator_resumes,
}
use opcda_bridge.Index.Pause.Guards.{Inv, pause_reason-foreground}
use opcda_bridge.Index.Pause.Reconcile.{settled, build_of-reconcile, controls-reconcile}
use opcda_bridge.Index.Pause.History.{
  Step, Reach, guards, drops, overlays, clears, pauses, resumes, reports, quiets, reconciles,
  starts, attaches, finishes, interferes, idle, next,
}
use opcda_bridge.Index.Pause.Steps.{
  guards-Inv, drops-Inv, kept-Inv, plain-Inv, starts-Inv, finishes-Inv, clears-Inv, quiets-Inv,
  attaches-Inv,
}

Step-Inv :
    {settings : ResolvedIndexConfig} {live live' : String → ℕ} {m m' : Manager}
    → Step settings live m live' m'
    → Inv live m
    → Inv live' m'
unfolding set_pause_overlay set_overlay operator_pauses operator_resumes update_runtime_controller
    resume_build
Step-Inv (guards now s live m l) i = guards-Inv now s live m l i
Step-Inv {settings} (drops now s live m l) i = drops-Inv settings now s live m i
Step-Inv (overlays now s a b live m) i = plain-Inv now s live m _ i
Step-Inv (clears s live m) i = clears-Inv s live m i
Step-Inv (pauses now s live m) i = kept-Inv now s live m pause_build i (λ b. refl)
Step-Inv (resumes now s live m) i = kept-Inv now s live m (resume_build now) i (λ b. refl)
Step-Inv (reports now s l c d live m) i = kept-Inv now s live m (controlled l c d) i (λ b. refl)
Step-Inv (quiets now s live m) i = quiets-Inv now s live m i
Step-Inv (reconciles now s live m) i = plain-Inv now s live m m.pause_overlays i
Step-Inv (starts s live m e) i = starts-Inv s live m e i
Step-Inv (attaches s k live m) i = attaches-Inv s k live m i
Step-Inv (finishes s live m) i = finishes-Inv s live m i
Step-Inv (interferes controls live m) i = record { counts = i.counts; seen = i.seen }

no_build : (t : String) (m : Manager) → m.runtime ≡ [] → build_of t m.runtime ≡ none
unfolding get
no_build t m e = rw e refl

no_user : (t : String) (m : Manager) → m.foreground_users ≡ [] → users_of t m ≡ 0
unfolding get
no_user t m e = rw e refl

Reach-Inv :
    {settings : ResolvedIndexConfig} {live : String → ℕ} {m : Manager}
    → Reach settings live m
    → Inv live m
Reach-Inv (idle m e f g) = record {
  counts = λ t. no_user t m f;
  seen = λ t b h. ground (arith, no_build t m e);
}
Reach-Inv (next r s) = Step-Inv s (Reach-Inv r)

-- After every history of calls that run one after the other from an empty manager, with any number of
-- guards alive for each server, and the controls paused and resumed in any way between the calls: the
-- manager and the build of a server count exactly its live guards; and when the server is reconciled
-- next, at any time, the control of its build is paused exactly if the build then has a pause reason,
-- which is the case while a guard of the server lives.
pub guards_pause :
    {settings : ResolvedIndexConfig} {live : String → ℕ} {m : Manager}
    → Reach settings live m
    → (now : ℕ) (s : String) (b : RuntimeBuild) (k : ℕ) → build_of s m.runtime ≡ some b
    → b.control ≡ some k
    → let m' = reconcile_pause_state now s m in
      (users_of s m ≡ live s)
      × (b.foreground_users ≡ live s)
      × ((b' : RuntimeBuild) × (c : InventoryControl) × (build_of s m'.runtime ≡ some b')
          × (get ℕ_discrete k m'.controls ≡ some c)
          × (c.paused ≡ is_some b'.pause_reason)
          × ((live s == 0 || c.paused) ≡ true))
guards_pause {live = live} {m = m} r now s b k h q =
    let i = Reach-Inv r in
    let o = overlay_of s m in
    let paused = is_some (pause_reason_of now o b) in
    (
      i.counts s,
      i.seen s b h,
      (
        settled now o b,
        set_paused paused (get ℕ_discrete k m.controls),
        ground (arith, build_of-reconcile now s s m),
        ground (arith, controls-reconcile now s k m),
        ground arith,
        ground (arith, i.seen s b h, pause_reason-foreground now o b),
      ),
    )
