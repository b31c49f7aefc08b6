-- ===== src/Session/Events.antt =====
-- backend/pkg/session/events.go: the envelope of a persistent event and its surface operation.
use deep_seek_harness_x.Prelude.{
  String, Bool, false, ◌&&◌, ◌||◌, not, List, Option, none, some, str_eq,
}
use deep_seek_harness_x.Prelude.Int.{ℤ, pos}

abbrev pub event_user_message : String
event_user_message = "user/message"

abbrev pub event_assistant_message : String
event_assistant_message = "assistant/message"

abbrev pub event_tool_result : String
event_tool_result = "tool/result"

pub record SurfaceOp : Type 0 where
  pub op : String
  pub start : ℤ
  pub end : ℤ

-- `source_event_seqs` is `none` where the Go slice is nil; `raw_data` is the undecoded payload.
pub record SessionEnvelope : Type 0 where
  pub seq : ℤ
  pub time : ℤ
  pub event_type : String
  pub raw_data : String
  pub source_event_seqs : Option (List ℤ)
  pub surface_op : Option SurfaceOp
  pub ignorable : Bool

abbrev pub append_surface_op : SurfaceOp
append_surface_op = record { op = "append"; start = pos 0; end = pos 0 }

unfoldable pub replace_surface_op : ℤ → ℤ → SurfaceOp
replace_surface_op start end = record { op = "replace"; start = start; end = end }

unfoldable pub is_append : SurfaceOp → Bool
is_append s = str_eq s.op "append"

unfoldable pub is_surface_eligible_type : String → Bool
is_surface_eligible_type t =
    str_eq t event_user_message || str_eq t event_assistant_message || str_eq t event_tool_result

abbrev op_is : (SurfaceOp → Bool) → Option SurfaceOp → Bool
op_is p none = false
op_is p (some s) = p s

unfoldable pub is_surface_event : SessionEnvelope → Bool
unfolding is_surface_eligible_type is_append
is_surface_event env =
    is_surface_eligible_type env.event_type
    && op_is (λ s. is_append s || str_eq s.op "replace") env.surface_op

unfoldable pub is_append_surface_event : SessionEnvelope → Bool
unfolding is_surface_event is_append
is_append_surface_event env = is_surface_event env && op_is is_append env.surface_op

unfoldable pub is_replacement_surface_event : SessionEnvelope → Bool
unfolding is_surface_event is_append
is_replacement_surface_event env =
    is_surface_event env && op_is (λ s. not (is_append s)) env.surface_op
