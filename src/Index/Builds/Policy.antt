-- ===== src/Index/Builds/Policy.antt =====
-- The end of a build: what it leaves, and the retry policy.
use Prim.Native.String.{String}
use opcda_bridge.Base.{
  ℕ, ◌≡◌, refl, ap, ◌∙◌, Bool, true, false, Option, none, some, arith, ite, is_some, Bool-cases,
  inl, inr, String-discrete, get, get-remove, without, member-without, without-IsUnique,
  length-without-le, Text, if◌then◌else◌, remove,
}
use opcda_bridge.Config.{ResolvedIndexConfig}
use opcda_bridge.Schedule.Tasks.{schedule_cleanup}
use opcda_bridge.Index.{
  RuntimeState, Runtime, Manager, build_of, update_state, take_build, without_build,
}
use opcda_bridge.Index.Views.{get-update_state, get-update_twice, applied}
use opcda_bridge.Index.Pause.{clear_pause_overlays}
use opcda_bridge.Index.Builds.Invariant.{Inv, reserve-Inv}
use opcda_bridge.Index.Builds.{Answers, reserve_refresh_build}
use opcda_bridge.Index.Builds.Completion.{
  Ending, build_completion_is_current, update_runtime_after_build, state_after_build, with_error,
  remove_build_owner, clear_active_build, clear_build_lock, finalize_owned_build, finish_build,
  owns,
}

-- Of the completion, the state of the server's runtime that is left.
abbrev pub ended : ResolvedIndexConfig → ℕ → Text → Ending → RuntimeState → RuntimeState
ended settings now name e s =
    let s' =
      if e.preserve_retry_state
      then with_error e.error s
      else state_after_build settings now name e.error s in
    without_build (if is_some e.persist_error then with_error e.persist_error s' else s')

-- The runtime that the owner's completion leaves, one assignment after the other.
unfoldable pub runtime_left : ResolvedIndexConfig → ℕ → Text → Ending → String → Runtime → Runtime
runtime_left settings now name e s r =
    let r' =
      if e.preserve_retry_state
      then update_state (with_error e.error) s r
      else update_state (state_after_build settings now name e.error) s r in
    take_build s
      (if is_some e.persist_error then update_state (with_error e.persist_error) s r' else r')

applied-ext :
    (f g : RuntimeState → RuntimeState) (o : Option RuntimeState)
    → ((v : RuntimeState) → f v ≡ g v)
    → applied f o ≡ applied g o
applied-ext f g none h = refl
applied-ext f g (some v) h = ap some (h v)

get-three :
    (f g h : RuntimeState → RuntimeState) (s t : String) (r : Runtime)
    → get String-discrete t (update_state f s (update_state g s (update_state h s r)))
      ≡ ite
          (String-discrete s t)
          (applied (λ v. f (g (h v))) (get String-discrete s r))
          (get String-discrete t r)
get-three f g h s t r = ground (
  arith,
  get-update_twice f g s t (update_state h s r),
  get-update_state h s s r,
  get-update_state h s t r,
)

pub get-runtime_left :
    (settings : ResolvedIndexConfig) (now : ℕ) (name : Text) (e : Ending) (s t : String)
    (r : Runtime)
    → get String-discrete t (runtime_left settings now name e s r)
      ≡ ite
          (String-discrete s t)
          (applied (ended settings now name e) (get String-discrete s r))
          (get String-discrete t r)
unfolding runtime_left take_build
get-runtime_left settings now name e s t r =
    let after = state_after_build settings now name e.error in
    let saved = with_error e.persist_error in
    elim (Bool-cases e.preserve_retry_state) [
      | inl p ↦ elim (Bool-cases (is_some e.persist_error)) [
        | inl q ↦
            simp (p, q)
              (get-three without_build saved (with_error e.error) s t r
                ∙ same (λ v. without_build (saved (with_error e.error v))) (λ v. simp (p, q)))
        | inr q ↦
            simp (p, q)
              (get-update_twice without_build (with_error e.error) s t r
                ∙ same (λ v. without_build (with_error e.error v)) (λ v. simp (p, q)))
      ]
      | inr p ↦ elim (Bool-cases (is_some e.persist_error)) [
        | inl q ↦
            simp (p, q)
              (get-three without_build saved after s t r
                ∙ same (λ v. without_build (saved (after v))) (λ v. simp (p, q)))
        | inr q ↦
            simp (p, q)
              (get-update_twice without_build after s t r
                ∙ same (λ v. without_build (after v)) (λ v. simp (p, q)))
      ]
    ]
  where
    same :
        (f : RuntimeState → RuntimeState)
        → ((v : RuntimeState) → f v ≡ ended settings now name e v)
        → ite (String-discrete s t) (applied f (get String-discrete s r)) (get String-discrete t r)
          ≡ ite
              (String-discrete s t)
              (applied (ended settings now name e) (get String-discrete s r))
              (get String-discrete t r)
    same f h =
        ap (λ x. ite (String-discrete s t) x (get String-discrete t r))
          (applied-ext f (ended settings now name e) (get String-discrete s r) h)

build_of-runtime_left :
    (settings : ResolvedIndexConfig) (now : ℕ) (name : Text) (e : Ending) (s t : String)
    (r : Runtime)
    → build_of t (runtime_left settings now name e s r)
      ≡ ite (String-discrete s t) none (build_of t r)
build_of-runtime_left settings now name e s t r =
    ground (arith, get-runtime_left settings now name e s t r)

-- What the completion of the current build leaves.
unfoldable pub completed : ResolvedIndexConfig → ℕ → Text → Ending → String → Manager → Manager
completed settings now name e s m = record m {
  runtime = runtime_left settings now name e s m.runtime;
  pause_overlays = remove String-discrete s m.pause_overlays;
  build_owners = remove String-discrete s m.build_owners;
  active_builds = without String-discrete s m.active_builds;
  build_locks = without String-discrete s m.build_locks;
  cleanup = (schedule_cleanup false s m.cleanup).0;
  pending_cancels = without String-discrete s m.pending_cancels;
}

current-owns :
    (s : String) (c o : Option ℕ) (m : Manager)
    → build_completion_is_current s c o m ≡ true
    → owns o (get String-discrete s m.build_owners) ≡ true
unfolding build_completion_is_current
current-owns s c none m h = refl
current-owns s c (some token) m h = ground arith

pub finish-completed :
    (settings : ResolvedIndexConfig) (now : ℕ) (name : Text) (e : Ending) (s : String)
    (o : Option ℕ) (m : Manager)
    → build_completion_is_current s e.control o m ≡ true
    → finish_build settings now name e s o m ≡ completed settings now name e s m
unfolding finish_build finalize_owned_build update_runtime_after_build clear_pause_overlays
    remove_build_owner clear_active_build clear_build_lock completed runtime_left
finish-completed settings now name e s o m h = rw (h, current-owns s e.control o m h) refl

finish-stale :
    (settings : ResolvedIndexConfig) (now : ℕ) (name : Text) (e : Ending) (s : String)
    (o : Option ℕ) (m : Manager)
    → build_completion_is_current s e.control o m ≡ false
    → finish_build settings now name e s o m ≡ m
unfolding finish_build
finish-stale settings now name e s o m h = ground arith

-- The completion of the current build keeps the registries in agreement.
completed-Inv :
    (settings : ResolvedIndexConfig) (now : ℕ) (name : Text) (e : Ending) (s : String) (m : Manager)
    → Inv settings m
    → Inv settings (completed settings now name e s m)
unfolding completed
completed-Inv settings now name e s m i =
    let build = λ (t : String). build_of-runtime_left settings now name e s t m.runtime in
    record {
      active = λ t.
          ground (arith, build t, member-without String-discrete t s m.active_builds, i.active t);
      owned =
          λ t. ground (arith, build t, get-remove String-discrete s t m.build_owners, i.owned t);
      locked = λ t.
          ground (arith, build t, member-without String-discrete t s m.build_locks, i.locked t);
      unique = without-IsUnique String-discrete s m.active_builds i.unique;
      bounded = omega (arith, length-without-le String-discrete s m.active_builds, i.bounded);
    }

finish-Inv :
    (settings : ResolvedIndexConfig) (now : ℕ) (name : Text) (e : Ending) (s : String)
    (o : Option ℕ) (m : Manager)
    → Inv settings m
    → Inv settings (finish_build settings now name e s o m)
finish-Inv settings now name e s o m i =
    elim (Bool-cases (build_completion_is_current s e.control o m)) [
      | inl c ↦
          rw (finish-completed settings now name e s o m c)
            (completed-Inv settings now name e s m i)
      | inr c ↦ rw (finish-stale settings now name e s o m c) i
    ]

-- A reservation of a build, on every branch and whatever is answered on its way, and the completion
-- of a build, by its owner or by anybody else, keep the registries in agreement: a server is active,
-- owned and locked exactly while it has a build, no server is listed twice, and there are at most as
-- many builds as the settings allow.
pub calls_keep_registries :
    (settings : ResolvedIndexConfig) (now later : ℕ) (force automatic : Bool) (a : Answers)
    (token : ℕ) (name : Text) (e : Ending) (s : String) (o : Option ℕ) (m : Manager)
    → Inv settings m
    → Inv settings (reserve_refresh_build settings now force automatic a s token m).0
      × Inv settings (finish_build settings later name e s o m)
calls_keep_registries settings now later force automatic a token name e s o m i = (
  reserve-Inv settings s token now force automatic a m i,
  finish-Inv settings later name e s o m i,
)
