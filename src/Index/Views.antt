-- ===== src/Index/Views.antt =====
-- What an assignment to a build or a state leaves of the manager's runtime.
use Prim.Native.String.{String}
use opcda_bridge.Base.{
  ◌≡◌, Option, none, some, arith, ite, Option-cases, inl, inr, String-discrete, get, get-insert,
}
use opcda_bridge.Index.{
  RuntimeBuild, RuntimeState, Runtime, build_of, update_build, update_state, map_build, mapped,
  store_build, take_build, state_of, without_build,
}

abbrev pub applied : (RuntimeState → RuntimeState) → Option RuntimeState → Option RuntimeState
applied f none = none
applied f (some s) = some (f s)

pub get-update_state :
    (f : RuntimeState → RuntimeState) (s t : String) (r : Runtime)
    → get String-discrete t (update_state f s r)
      ≡ ite (String-discrete s t) (applied f (get String-discrete s r)) (get String-discrete t r)
unfolding update_state
get-update_state f s t r = elim (Option-cases (get String-discrete s r)) [
  | inl e ↦ ground arith
  | inr (v, e) ↦ ground (arith, get-insert String-discrete s t (f v) r)
]

pub build_of-update :
    (f : RuntimeBuild → RuntimeBuild) (s t : String) (r : Runtime)
    → build_of t (update_build f s r)
      ≡ ite (String-discrete s t) (mapped f (build_of s r)) (build_of t r)
unfolding update_build
build_of-update f s t r = ground (arith, get-update_state (map_build f) s t r)

pub build_of-store :
    (b : RuntimeBuild) (s t : String) (r : Runtime)
    → build_of t (store_build s b r) ≡ ite (String-discrete s t) (some b) (build_of t r)
unfolding store_build
build_of-store b s t r = ground (
  arith,
  get-insert String-discrete s t (record (state_of s r) { build = some b; last_error = none }) r,
)

pub build_of-take :
    (s t : String) (r : Runtime)
    → build_of t (take_build s r) ≡ ite (String-discrete s t) none (build_of t r)
unfolding take_build
build_of-take s t r = ground (arith, get-update_state without_build s t r)

pub get-update_twice :
    (f g : RuntimeState → RuntimeState) (s t : String) (r : Runtime)
    → get String-discrete t (update_state f s (update_state g s r))
      ≡ ite
          (String-discrete s t)
          (applied (λ v. f (g v)) (get String-discrete s r))
          (get String-discrete t r)
get-update_twice f g s t r = ground (
  arith,
  get-update_state f s t (update_state g s r),
  get-update_state g s s r,
  get-update_state g s t r,
)
