-- ===== src/Index/Builds/Tests.antt =====
-- The life of a build at concrete states.
use opcda_bridge.Base.{
  ◌+◌, ◌<◌, ◌≡◌, refl, min, true, false, none, some, [], ◌∷◌, arith, leb, String-discrete, get,
  insert, member, text, u32_max,
}
use opcda_bridge.Config.Pacing.{from_secs}
use opcda_bridge.Schedule.{retry_base}
use opcda_bridge.Config.Defaults.{defaults}
use opcda_bridge.Index.{
  empty_manager, RuntimeBuild, RuntimeState, Manager, build_of, state_of, default_state, new_build,
}
use opcda_bridge.Index.Builds.{
  ok, Answers, reserve_refresh_build, reserve_open, reserve_enrolled, reserve_loaded,
  store_reservation, load_persisted_retry_state, load_retry, holds_back,
}
use opcda_bridge.Index.Builds.Invariant.{Inv}
use opcda_bridge.Index.Builds.Completion.{Ending, finish_build, build_completion_is_current}
use opcda_bridge.Index.Builds.Policy.{calls_keep_registries}
use opcda_bridge.Index.Builds.Backoff.{failed_build_backs_off}

-- An enrolled server, a disk of unknown size, no earlier failure, and a free file lock.
abbrev willing : Answers
willing = record {
  enrollment = ok (some true);
  free_bytes = ok none;
  retry_state = ok (record { retry_after = none; consecutive_failures = 0; circuit_open = false });
  file_lock = ok tt;
}

abbrev building : RuntimeBuild
building = record (new_build 0) { control = some 4 }

abbrev building_state : RuntimeState
building_state = record default_state { build = some building }

abbrev busy : Manager
busy = record empty_manager {
  runtime = ("plant", building_state) ∷ [];
  active_builds = "plant" ∷ [];
  build_owners = ("plant", 3) ∷ [];
  build_locks = "plant" ∷ [];
}

abbrev failure : Ending
failure = record {
  error = some "unreachable";
  preserve_retry_state = false;
  control = some 4;
  persist_error = none;
}

empty_manager-Inv : Inv defaults empty_manager
unfolding member get
empty_manager-Inv = record {
  active = λ t. refl;
  owned = λ t. refl;
  locked = λ t. refl;
  unique = tt;
  bounded = omega arith;
}

reserved_test :
    (reserve_refresh_build defaults 0 false true willing "plant" 3 empty_manager).1 ≡ ok (some 3)
unfolding reserve_refresh_build reserve_open reserve_enrolled reserve_loaded store_reservation
    load_persisted_retry_state load_retry holds_back member get insert String-discrete
reserved_test = refl

calls_keep_registries_example :
    Inv defaults (reserve_refresh_build defaults 0 false true willing "plant" 3 empty_manager).0
    × Inv defaults (finish_build defaults 0 (text "plant") failure "plant" (some 3) empty_manager)
calls_keep_registries_example =
    calls_keep_registries defaults 0 0 false true willing 3 (text "plant") failure "plant" (some 3)
      empty_manager empty_manager-Inv

current_build : build_completion_is_current "plant" (some 4) (some 3) busy ≡ true
unfolding build_completion_is_current get String-discrete
current_build = refl

found : get String-discrete "plant" busy.runtime ≡ some building_state
unfolding get String-discrete
found = refl

building_found : build_of "plant" busy.runtime ≡ some building
unfolding get String-discrete
building_found = refl

owner : get String-discrete "plant" busy.build_owners ≡ some 3
unfolding get String-discrete
owner = refl

soon : 1 < 0 + from_secs (retry_base (min (0 + 1) u32_max))
unfolding retry_base
soon = omega arith

failed_build_backs_off_example :
    let m' = finish_build defaults 0 (text "plant") failure "plant" (some 3) busy in
    let reserved = reserve_refresh_build defaults 1 false true willing "plant" 5 m' in
    ((state_of "plant" m'.runtime).consecutive_failures ≡ min (0 + 1) u32_max)
    × ((state_of "plant" m'.runtime).circuit_open
        ≡ leb defaults.circuit_failure_threshold (min (0 + 1) u32_max))
    × (build_of "plant" m'.runtime ≡ none)
    × (build_of "plant" reserved.0.runtime ≡ none)
failed_build_backs_off_example =
    failed_build_backs_off defaults 0 (text "plant") failure "plant" "unreachable" (some 3) busy
      building_state 1 5 true willing current_build found refl refl (soon)
