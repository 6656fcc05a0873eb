-- ===== src/Index/Pause/Steps.antt =====
-- Each call of a history keeps the invariant of the guards.
use Prim.Native.String.{String}
use opcda_bridge.Base.{
  ℕ, ◌+◌, ◌-◌, ◌<◌, ◌≡◌, refl, none, some, arith, ◌⊎◌, Option-cases, Bool-cases, inl, inr,
  String-discrete, get-insert, get-remove, saturating_add, List, ◌∙◌, u64_max,
}
use opcda_bridge.Config.{ResolvedIndexConfig}
use opcda_bridge.Config.Pacing.{from_secs}
use opcda_bridge.Index.{
  RuntimeBuild, Runtime, Manager, PauseOverlayState, build_of, update_build, new_build, store_build,
  take_build,
}
use opcda_bridge.Index.Views.{build_of-update, build_of-store, build_of-take}
use opcda_bridge.Index.Pause.{
  users_of, count_user, guarded, foreground_guard, decrement_foreground_users, end_users,
  update_runtime_after_foreground_end, foreground_end, clear_pause_overlays, unquiet,
  clear_expired_foreground_quiet_period, quiet_expired, quiet_ends, reconcile_pause_state,
  with_control,
}
use opcda_bridge.Index.Pause.Guards.{Inv, reconciled-Inv}
use opcda_bridge.Index.Pause.History.{one_more, one_less}

users-count :
    (s t : String) (live : String → ℕ) (m : Manager)
    → live s < u64_max
    → users_of s m ≡ live s
    → users_of t m ≡ live t
    → users_of t (count_user s m) ≡ one_more s live t
unfolding count_user
users-count s t live m l e f = ground (
  arith,
  get-insert String-discrete s t (saturating_add u64_max (users_of s m) 1) m.foreground_users,
)

users-decrement :
    (s t : String) (live : String → ℕ) (m : Manager)
    → users_of s m ≡ live s
    → users_of t m ≡ live t
    → users_of t (decrement_foreground_users s m) ≡ one_less s live t
unfolding decrement_foreground_users
users-decrement s t live m e f = ground (
  arith,
  get-insert String-discrete s t (users_of s m - 1) m.foreground_users,
  get-remove String-discrete s t m.foreground_users,
)

pub guards-Inv :
    (now : ℕ) (s : String) (live : String → ℕ) (m : Manager)
    → live s < u64_max
    → Inv live m
    → Inv (one_more s live) (foreground_guard now s m)
unfolding foreground_guard count_user
guards-Inv now s live m l i =
    let counted : Manager = count_user s m in
    let f = guarded (users_of s counted) in
    reconciled-Inv now s live (one_more s live) m
      (record counted { runtime = update_build f s m.runtime }) f i
      (λ t. build_of-update f s t m.runtime)
      (λ t. users-count s t live m l (i.counts s) (i.counts t)) (λ t n. ground arith)
      (λ b e. users-count s s live m l (i.counts s) (i.counts s))

pub drops-Inv :
    (settings : ResolvedIndexConfig) (now : ℕ) (s : String) (live : String → ℕ) (m : Manager)
    → Inv live m
    → Inv (one_less s live) (foreground_end settings now s m)
unfolding foreground_end update_runtime_after_foreground_end decrement_foreground_users end_users
drops-Inv settings now s live m i =
    let less : Manager = decrement_foreground_users s m in
    let f = end_users (users_of s less) (now + from_secs settings.quiet_period_seconds) in
    reconciled-Inv now s live (one_less s live) m
      (record less { runtime = update_build f s m.runtime }) f i
      (λ t. build_of-update f s t m.runtime)
      (λ t. users-decrement s t live m (i.counts s) (i.counts t)) (λ t n. ground arith)
      (λ b e. users-decrement s s live m (i.counts s) (i.counts s))

-- A reconciled change of one build that leaves its count alone.
pub kept-Inv :
    (now : ℕ) (s : String) (live : String → ℕ) (m : Manager) (f : RuntimeBuild → RuntimeBuild)
    → Inv live m
    → ((b : RuntimeBuild) → (f b).foreground_users ≡ b.foreground_users)
    → Inv live (reconcile_pause_state now s (record m { runtime = update_build f s m.runtime }))
kept-Inv now s live m f i u =
    reconciled-Inv now s live live m (record m { runtime = update_build f s m.runtime }) f i
      (λ t. build_of-update f s t m.runtime) i.counts (λ t n. refl) (λ b e. u b ∙ e)

-- Reconciling after a change of the overlays only.
pub plain-Inv :
    (now : ℕ) (s : String) (live : String → ℕ) (m : Manager) (o : List (String × PauseOverlayState))
    → Inv live m
    → Inv live (reconcile_pause_state now s (record m { pause_overlays = o }))
plain-Inv now s live m o i =
    reconciled-Inv now s live live m (record m { pause_overlays = o }) (λ b. b) i
      (λ t. elim (Option-cases (build_of s m.runtime)) [
        | inl e ↦ ground arith
        | inr (b, e) ↦ ground arith
      ])
      i.counts (λ t n. refl) (λ b e. e)

pub starts-Inv :
    (s : String) (live : String → ℕ) (m : Manager)
    → build_of s m.runtime ≡ none
    → Inv live m
    → Inv live (record m { runtime = store_build s (new_build (users_of s m)) m.runtime })
starts-Inv s live m none_yet i =
    let stored = λ (t : String). build_of-store (new_build (users_of s m)) s t m.runtime in
    record {
      counts = i.counts;
      seen = λ t b h. elim (String-discrete s t) [
        | yes p ↦ ground (arith, stored t, i.counts t)
        | no n ↦ i.seen t b (ground (arith, stored t))
      ];
    }

pub finishes-Inv :
    (s : String) (live : String → ℕ) (m : Manager)
    → Inv live m
    → Inv live (record m { runtime = take_build s m.runtime })
finishes-Inv s live m i =
    let taken = λ (t : String). build_of-take s t m.runtime in
    record { counts = i.counts; seen = λ t b h. i.seen t b (ground (arith, taken t)) }

-- The controls of the builds after an assignment of a fresh one.
attached :
    (s t : String) (k : ℕ) (r : Runtime) (b : RuntimeBuild)
    → build_of t (update_build (with_control k) s r) ≡ some b
    → ((d : RuntimeBuild) × (s ≡ t) × (build_of t r ≡ some d) × (b ≡ with_control k d))
      ⊎ (build_of t r ≡ some b)
attached s t k r b h = elim (String-discrete s t) [
  | no n ↦ inr (ground (arith, build_of-update (with_control k) s t r))
  | yes p ↦ elim (Option-cases (build_of t r)) [
    | inl e ↦ inr (ground (arith, build_of-update (with_control k) s t r))
    | inr (d, e) ↦ inl (d, p, e, ground (arith, build_of-update (with_control k) s t r))
  ]
]

pub attaches-Inv :
    (s : String) (k : ℕ) (live : String → ℕ) (m : Manager)
    → Inv live m
    → Inv live (record m { runtime = update_build (with_control k) s m.runtime })
attaches-Inv s k live m i = record {
  counts = i.counts;
  seen = λ t b h. elim (attached s t k m.runtime b h) [
    | inl (d, p, before, is) ↦ ground (arith, i.seen t d before)
    | inr before ↦ i.seen t b before
  ];
}

pub clears-Inv :
    (s : String) (live : String → ℕ) (m : Manager)
    → Inv live m
    → Inv live (clear_pause_overlays s m)
unfolding clear_pause_overlays
clears-Inv s live m i = record { counts = i.counts; seen = i.seen }

pub quiets-Inv :
    (now : ℕ) (s : String) (live : String → ℕ) (m : Manager)
    → Inv live m
    → Inv live (quiet_ends now s m)
unfolding quiet_ends clear_expired_foreground_quiet_period
quiets-Inv now s live m i = elim (Bool-cases (quiet_expired now (build_of s m.runtime))) [
  | inl e ↦ rw e (kept-Inv now s live m unquiet i (λ b. refl))
  | inr e ↦ rw e i
]
