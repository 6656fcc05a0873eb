-- ===== src/Index/Builds/Reserve.antt =====
-- What `reserve_refresh_build` keeps, whatever is answered on its way.
use Prim.Native.String.{String}
use opcda_bridge.Base.{
  ℕ, ◌≡◌, refl, Bool, false, ◌||◌, Option, none, leb, is_some_and, Bool-cases, ◌⊎◌, inl, inr,
  if-both, String-discrete, member, length, ltb,
}
use opcda_bridge.Config.{ResolvedIndexConfig}
use opcda_bridge.Index.{Manager, state_of}
use opcda_bridge.Index.Builds.{
  BuildError, Result, ok, err, Answers, RetryState, load_persisted_retry_state, build_limit,
  holds_back, store_reservation, reserve_loaded, reserve_enrolled, reserve_open,
  reserve_refresh_build, refuses, required_bytes,
}

Result-cases :
    {A : Type 0} (r : Result A) → ((a : A) × (r ≡ ok a)) ⊎ ((e : BuildError) × (r ≡ err e))
Result-cases (ok a) = inl (a, refl)
Result-cases (err e) = inr (e, refl)

-- A property of the manager that the loading of the retry state keeps, and the storing of a
-- reservation that nothing holds back.
module _ (P : Manager → Type 0) (settings : ResolvedIndexConfig) (s : String) (token now : ℕ)
    (force : Bool)
    (load : (p : RetryState) (m : Manager) → P m → P (load_persisted_retry_state now p s m))
    (store : (m : Manager)
      → holds_back now force (state_of s m.runtime) ≡ false
      → P m
      → P (store_reservation settings s token m).0) where
  loaded-Keeps :
      (lock : Result (Unit {0})) (m : Manager)
      → P m
      → P (reserve_loaded settings now force lock s token m).0
  unfolding reserve_loaded
  loaded-Keeps lock m i = elim (Bool-cases (holds_back now force (state_of s m.runtime))) [
    | inl e ↦ rw e i
    | inr e ↦ elim (Bool-cases (leb (build_limit settings) (length m.active_builds))) [
      | inl full ↦ rw (e, full) i
      | inr room ↦ elim (Bool-cases (member String-discrete s m.build_locks)) [
        | inl held ↦ rw (e, room, held) i
        | inr free ↦ elim (Result-cases lock) [
          | inl (u, o) ↦ rw (e, room, free, o) (store m e i)
          | inr (x, o) ↦ rw (e, room, free, o) i
        ]
      ]
    ]
  ]

  enrolled-Keeps :
      (a : Answers) (m : Manager) → P m → P (reserve_enrolled settings now force a s token m).0
  unfolding reserve_enrolled
  enrolled-Keeps a m i = elim (Result-cases a.free_bytes) [
    | inr (x, o) ↦ rw (o, reserve_enrolled) i
    | inl (free, o) ↦
        rw (o, reserve_enrolled)
          (elim (Bool-cases (is_some_and free (λ f. ltb f (required_bytes settings)))) [
            | inl low ↦ rw low i
            | inr enough ↦ elim (Result-cases a.retry_state) [
              | inr (x, q) ↦ rw (enough, q) i
              | inl (p, q) ↦
                  rw (enough, q)
                    (loaded-Keeps a.file_lock (load_persisted_retry_state now p s m) (load p m i))
            ]
          ])
  ]

  open-Keeps :
      (automatic : Bool) (a : Answers) (m : Manager)
      → P m
      → P (reserve_open settings now force automatic a s token m).0
  unfolding reserve_open reserve_enrolled
  open-Keeps automatic a m i = elim (Result-cases a.enrollment) [
    | inr (x, o) ↦ rw o i
    | inl (enrollment, o) ↦ rw o (
        if-both (λ (r : Manager × Result (Option ℕ)). P r.0)
          (member String-discrete s m.deleting || refuses automatic enrollment) (m, ok none)
          (reserve_enrolled settings now force a s token m) i (enrolled-Keeps a m i))
  ]

  pub reserve-Keeps :
      (automatic : Bool) (a : Answers) (m : Manager)
      → P m
      → P (reserve_refresh_build settings now force automatic a s token m).0
  unfolding reserve_refresh_build
  reserve-Keeps automatic a m i =
      if-both (λ (r : Manager × Result (Option ℕ)). P r.0) m.cleanup.background.shutting_down
        (m, ok none) (reserve_open settings now force automatic a s token m) i
        (open-Keeps automatic a m i)
