-- ===== src/Agent/Lifecycle.antt =====
-- backend/pkg/agent/loop.go: the turn/step machine (validateTransition).
-- The counters are unbounded numbers.
use deep_seek_harness_x.Prelude.{
  String, ℕ, suc, ◌+◌, ◌-◌, ◌==◌, ltb, Bool, true, false, not, ◌&&◌, ◌||◌, List, [], ◌∷◌, ◌++◌, map,
  length, Option, none, some, str_eq, if◌then◌else◌, Result, ok, err,
}
use deep_seek_harness_x.Prelude.Int.{ℤ, pos, negsuc, leb_ℤ}
use deep_seek_harness_x.Session.Events.{SessionEnvelope, SurfaceOp}
use deep_seek_harness_x.Storage.RingBuffer.{RingBuffer, push}
use deep_seek_harness_x.Storage.Sqlite.{StoreError, append_events}
pub mod Emit
pub mod Bracket
pub mod Stored
pub mod Stuck
pub mod Append
pub mod Converge

abbrev pub event_turn_start : String
event_turn_start = "turn/start"

abbrev pub event_turn_end : String
event_turn_end = "turn/end"

abbrev pub event_step_start : String
event_step_start = "step/start"

abbrev pub event_step_end : String
event_step_end = "step/end"

-- activeTurn, activeStep (0 when none is open) and the counters that number them.
pub record Machine : Type 0 where
  pub active_turn : ℕ
  pub active_step : ℕ
  pub turn_number : ℕ
  pub step_number : ℕ

-- errInvalidTransition, with the message's case.
pub data InvalidTransition : Type 0 where
  turn_is_active no_turn_to_end step_is_open no_turn_for_step step_still_open no_step_to_end :
      InvalidTransition

abbrev pub start_turn : Machine → Result InvalidTransition Machine
start_turn m =
    if not (m.active_turn == 0)
    then err turn_is_active
    else ok (record {
      active_turn = m.turn_number + 1;
      active_step = 0;
      turn_number = m.turn_number + 1;
      step_number = m.step_number;
    })

abbrev pub end_turn : Machine → Result InvalidTransition Machine
end_turn m =
    if m.active_turn == 0
    then err no_turn_to_end
    else if not (m.active_step == 0)
    then err step_is_open
    else ok (record m { active_turn = 0 })

abbrev pub start_step : Machine → Result InvalidTransition Machine
start_step m =
    if m.active_turn == 0
    then err no_turn_for_step
    else if not (m.active_step == 0)
    then err step_still_open
    else ok (record {
      active_turn = m.active_turn;
      active_step = m.step_number + 1;
      turn_number = m.turn_number;
      step_number = m.step_number + 1;
    })

abbrev pub end_step : Machine → Result InvalidTransition Machine
end_step m = if m.active_step == 0 then err no_step_to_end else ok (record m { active_step = 0 })

unfoldable pub validate_transition : String → Machine → Result InvalidTransition Machine
validate_transition event_type m =
    if str_eq event_type event_turn_start
    then start_turn m
    else if str_eq event_type event_turn_end
    then end_turn m
    else if str_eq event_type event_step_start
    then start_step m
    else if str_eq event_type event_step_end
    then end_step m
    else ok m
