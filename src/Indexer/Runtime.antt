-- ===== src/Indexer/Runtime.antt =====
-- packages/indexer/src/runtimeState.ts: what a process reports of its readiness, and the marks that
-- change it. An error is its text.
pub mod History
mod Tests
use relay_settlement.Common.{
  List, [], ◌∷◌, Bool, true, false, not, ◌&&◌, ◌||◌, Option, none, some, if◌then◌else◌,
}
use relay_settlement.Host.{Text}

pub record RuntimeRoles : Type 0 where
  pub enable_api : Bool
  pub do_background_work : Bool

pub record RuntimeState : Type 0 where
  pub api_ready : Bool
  pub background_work_ready : Bool
  pub background_work_error : Option Text

pub record Part : Type 0 where
  pub ready : Bool
  pub required : Bool

pub record RuntimeReadinessResponse : Type 0 where
  pub is_ok : Bool
  pub roles : RuntimeRoles
  pub api : Part
  pub background_work : Part
  pub background_work_fault : Option Text

pub record RuntimeLivenessResponse : Type 0 where
  pub is_ok : Bool
  pub roles : RuntimeRoles

unfoldable pub build_liveness_response : RuntimeRoles → RuntimeLivenessResponse
build_liveness_response roles = record { is_ok = true; roles = roles }

unfoldable pub build_readiness_response : RuntimeRoles → RuntimeState → RuntimeReadinessResponse
build_readiness_response roles st =
    let api_required = roles.enable_api in
    let background_required = roles.do_background_work in
    record {
      is_ok =
          (not api_required || st.api_ready)
          && (not background_required || st.background_work_ready);
      roles = roles;
      api = record {
        ready = if api_required then st.api_ready else false;
        required = api_required;
      };
      background_work = record {
        ready = if background_required then st.background_work_ready else false;
        required = background_required;
      };
      background_work_fault = if background_required then st.background_work_error else none;
    }

unfoldable pub create_runtime_state : RuntimeState
create_runtime_state = record {
  api_ready = false;
  background_work_ready = false;
  background_work_error = none;
}

unfoldable pub mark_api_ready : RuntimeState → RuntimeState
mark_api_ready st = record st { api_ready = true }

unfoldable pub mark_background_work_ready : RuntimeState → RuntimeState
mark_background_work_ready st = record st {
  background_work_ready = true;
  background_work_error = none;
}

unfoldable pub mark_background_work_unready : Text → RuntimeState → RuntimeState
mark_background_work_unready error st = record st {
  background_work_ready = false;
  background_work_error = some error;
}
