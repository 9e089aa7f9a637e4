-- ===== src/Indexer/Runtime/Tests.antt =====
-- A process that works, fails and works again.
use relay_settlement.Common.{◌≡◌, [], ◌∷◌, true, none}
use relay_settlement.Indexer.Runtime.{
  RuntimeRoles, RuntimeState, build_readiness_response, create_runtime_state, mark_api_ready,
  mark_background_work_ready, mark_background_work_unready,
}
use relay_settlement.Indexer.Runtime.History.{
  api_up, work_up, work_down, Reached, created, api_step, up_step, down_step,
  build_readiness_response-Reached,
}

abbrev both : RuntimeRoles
both = record { enable_api = true; do_background_work = true }

abbrev last_state : RuntimeState
unfolding create_runtime_state mark_api_ready mark_background_work_ready
    mark_background_work_unready
last_state =
    mark_background_work_ready
      (mark_background_work_unready (b'e' ∷ []) (mark_api_ready create_runtime_state))

after_marks : Reached (work_up ∷ work_down (b'e' ∷ []) ∷ api_up ∷ []) last_state
unfolding last_state
after_marks = up_step _ _ (down_step _ _ (b'e' ∷ []) (api_step _ _ created))

build_readiness_response-Reached_example :
    ((build_readiness_response both last_state).is_ok ≡ true)
    × ((build_readiness_response both last_state).background_work_fault ≡ none)
build_readiness_response-Reached_example =
    build_readiness_response-Reached both (work_up ∷ work_down (b'e' ∷ []) ∷ api_up ∷ []) last_state
      after_marks
