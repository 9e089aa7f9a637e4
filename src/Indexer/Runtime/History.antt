-- ===== src/Indexer/Runtime/History.antt =====
-- The readiness by the marks that were made.
use relay_settlement.Common.{
  ◌≡◌, refl, ap, ap₂, List, [], ◌∷◌, Bool, true, false, not, ◌&&◌, ◌||◌, Option, none, some,
  if◌then◌else◌,
}
use relay_settlement.Host.{Text}
use relay_settlement.Indexer.Runtime.{
  RuntimeRoles, RuntimeState, build_readiness_response, create_runtime_state, mark_api_ready,
  mark_background_work_ready, mark_background_work_unready,
}

pub data Mark : Type 0 where
  api_up work_up : Mark
  work_down : Text → Mark

-- The marks stand with the latest first.
pub data Reached : List Mark → RuntimeState → Type 0 where
  created : Reached [] create_runtime_state
  api_step :
      (ms : List Mark) (st : RuntimeState)
      → Reached ms st
      → Reached (api_up ∷ ms) (mark_api_ready st)
  up_step :
      (ms : List Mark) (st : RuntimeState)
      → Reached ms st
      → Reached (work_up ∷ ms) (mark_background_work_ready st)
  down_step :
      (ms : List Mark) (st : RuntimeState) (error : Text)
      → Reached ms st
      → Reached (work_down error ∷ ms) (mark_background_work_unready error st)

-- The api was marked at some time; of the background work the latest mark counts.
abbrev pub api_marked : List Mark → Bool
api_marked [] = false
api_marked (api_up ∷ ms) = true
api_marked (work_up ∷ ms) = api_marked ms
api_marked (work_down error ∷ ms) = api_marked ms

abbrev pub work_marked : List Mark → Bool
work_marked [] = false
work_marked (api_up ∷ ms) = work_marked ms
work_marked (work_up ∷ ms) = true
work_marked (work_down error ∷ ms) = false

abbrev pub last_error : List Mark → Option Text
last_error [] = none
last_error (api_up ∷ ms) = last_error ms
last_error (work_up ∷ ms) = none
last_error (work_down error ∷ ms) = some error

record Agrees (ms : List Mark) (st : RuntimeState) : Type 0 where
  api : st.api_ready ≡ api_marked ms
  work : st.background_work_ready ≡ work_marked ms
  error : st.background_work_error ≡ last_error ms

Reached-Agrees : (ms : List Mark) (st : RuntimeState) → Reached ms st → Agrees ms st
unfolding create_runtime_state mark_api_ready mark_background_work_ready
    mark_background_work_unready
Reached-Agrees _ _ created = record { api = refl; work = refl; error = refl }
Reached-Agrees _ _ (api_step ms st r) =
    let a = Reached-Agrees ms st r in record { api = refl; work = a.work; error = a.error }
Reached-Agrees _ _ (up_step ms st r) = record {
  api = (Reached-Agrees ms st r).api;
  work = refl;
  error = refl;
}
Reached-Agrees _ _ (down_step ms st error r) = record {
  api = (Reached-Agrees ms st r).api;
  work = refl;
  error = refl;
}

-- After any sequence of marks, the process is ready exactly where the api, if it is required, was
-- marked ready at some time, and the latest mark of the background work, if that is required, is that
-- it is ready; and the error that is reported is that of the latest mark, if the work is required.
pub build_readiness_response-Reached :
    (roles : RuntimeRoles) (ms : List Mark) (st : RuntimeState)
    → Reached ms st
    → ((build_readiness_response roles st).is_ok ≡ (
        (not roles.enable_api || api_marked ms)
        && (not roles.do_background_work || work_marked ms)))
      × ((build_readiness_response roles st).background_work_fault
          ≡ (if roles.do_background_work then last_error ms else none))
unfolding build_readiness_response
build_readiness_response-Reached roles ms st r =
    let a = Reached-Agrees ms st r in
    (
      ap₂ (λ x y. (not roles.enable_api || x) && (not roles.do_background_work || y)) a.api a.work,
      ap (λ e. if roles.do_background_work then e else none) a.error,
    )
