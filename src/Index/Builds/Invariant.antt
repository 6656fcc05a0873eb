-- ===== src/Index/Builds/Invariant.antt =====
-- The registries of index/enrollment.rs and index/traversal.rs agree on which servers are being built.
use Prim.Native.String.{String}
use opcda_bridge.Base.{
  ℕ, ◌≤◌, ◌≡◌, sym, ap, ◌∙◌, Bool, true, false, none, List, arith, ite, leb, is_some, Bool-cases,
  inl, inr, String-discrete, get, get-insert, member, IsUnique, length, insert,
}
use opcda_bridge.Config.{ResolvedIndexConfig}
use opcda_bridge.Index.{Runtime, Manager, build_of, state_of, new_build, store_build}
use opcda_bridge.Index.Views.{build_of-store}
use opcda_bridge.Index.Pause.{users_of}
use opcda_bridge.Index.Builds.Reserve.{reserve-Keeps}
use opcda_bridge.Index.Builds.{
  Answers, RetryState, insert_member, load_retry, load_persisted_retry_state, build_limit,
  holds_back, store_reservation, reserve_refresh_build,
}

-- A server is active, owned and locked exactly while it has a build; no server is listed twice, and
-- there are at most as many builds as the settings allow.
pub record Inv (settings : ResolvedIndexConfig) (m : Manager) : Type 0 where
  pub active :
      (t : String) → member String-discrete t m.active_builds ≡ is_some (build_of t m.runtime)
  pub owned :
      (t : String) → is_some (get String-discrete t m.build_owners) ≡ is_some (build_of t m.runtime)
  pub locked :
      (t : String) → member String-discrete t m.build_locks ≡ is_some (build_of t m.runtime)
  pub unique : IsUnique String-discrete m.active_builds
  pub bounded : length m.active_builds ≤ build_limit settings

build_of-load :
    (now : ℕ) (p : RetryState) (s t : String) (m : Manager)
    → build_of t (load_persisted_retry_state now p s m).runtime ≡ build_of t m.runtime
unfolding load_persisted_retry_state load_retry
build_of-load now p s t m =
    ground
      (arith, get-insert String-discrete s t (load_retry now p (state_of s m.runtime)) m.runtime)

-- A change of the runtime that keeps which servers have a build.
pub runtime-Inv :
    (settings : ResolvedIndexConfig) (m : Manager) (r : Runtime)
    → Inv settings m
    → ((t : String) → is_some (build_of t r) ≡ is_some (build_of t m.runtime))
    → Inv settings (record m { runtime = r })
runtime-Inv settings m r i e = record {
  active = λ t. i.active t ∙ sym (e t);
  owned = λ t. i.owned t ∙ sym (e t);
  locked = λ t. i.locked t ∙ sym (e t);
  unique = i.unique;
  bounded = i.bounded;
}

member-insert_member :
    (s t : String) (xs : List String)
    → member String-discrete t (insert_member s xs)
      ≡ ite (String-discrete s t) true (member String-discrete t xs)
unfolding member
member-insert_member s t xs = ground arith

load-Inv :
    (settings : ResolvedIndexConfig) (now : ℕ) (p : RetryState) (s : String) (m : Manager)
    → Inv settings m
    → Inv settings (load_persisted_retry_state now p s m)
load-Inv settings now p s m i =
    let loaded =
      runtime-Inv settings m (load_persisted_retry_state now p s m).runtime i
        (λ t. ap is_some (build_of-load now p s t m)) in
    unfold load_persisted_retry_state in loaded

holds_back-none :
    (now : ℕ) (force : Bool) (s : String) (m : Manager)
    → holds_back now force (state_of s m.runtime) ≡ false
    → build_of s m.runtime ≡ none
unfolding holds_back
holds_back-none now force s m e = ground arith

module _ (settings : ResolvedIndexConfig) (s : String) (token : ℕ) where
  stored-Inv :
      (m : Manager)
      → build_of s m.runtime ≡ none
      → leb (build_limit settings) (length m.active_builds) ≡ false
      → Inv settings m
      → Inv settings (record m {
        build_owners = insert String-discrete s token m.build_owners;
        active_builds = insert_member s m.active_builds;
        build_locks = insert_member s m.build_locks;
        runtime = store_build s (new_build (users_of s m)) m.runtime;
      })
  stored-Inv m none_yet room i =
      let stored = λ (t : String). build_of-store (new_build (users_of s m)) s t m.runtime in
      let idle : member String-discrete s m.active_builds ≡ false = ground (arith, i.active s) in
      record {
        active =
            λ t. ground (arith, stored t, member-insert_member s t m.active_builds, i.active t);
        owned = λ t.
            ground
              (arith, stored t, get-insert String-discrete s t token m.build_owners, i.owned t);
        locked = λ t. ground (arith, stored t, member-insert_member s t m.build_locks, i.locked t);
        unique = rw idle (idle, i.unique);
        bounded = rw idle (ground arith);
      }

  store-Inv :
      (m : Manager)
      → build_of s m.runtime ≡ none
      → Inv settings m
      → Inv settings (store_reservation settings s token m).0
  unfolding store_reservation
  store-Inv m none_yet i = elim (Bool-cases (is_some (get String-discrete s m.build_owners))) [
    | inl e ↦ rw e i
    | inr e ↦ elim (Bool-cases (leb (build_limit settings) (length m.active_builds))) [
      | inl full ↦ rw (e, full) i
      | inr room ↦ rw (e, room) (stored-Inv m none_yet room i)
    ]
  ]

pub reserve-Inv :
    (settings : ResolvedIndexConfig) (s : String) (token now : ℕ) (force automatic : Bool)
    (a : Answers) (m : Manager)
    → Inv settings m
    → Inv settings (reserve_refresh_build settings now force automatic a s token m).0
reserve-Inv settings s token now force automatic a m i =
    reserve-Keeps (Inv settings) settings s token now force (λ p n j. load-Inv settings now p s n j)
      (λ n h j. store-Inv settings s token n (holds_back-none now force s n h) j) automatic a m i
