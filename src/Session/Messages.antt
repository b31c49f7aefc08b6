-- ===== src/Session/Messages.antt =====
-- backend/pkg/session/events.go: content blocks, messages and the projection of a surface event to the
-- model message it derives to. Decoding a payload is the parameter `Decoder` (encoding/json).
use deep_seek_harness_x.Prelude.{
  String, Bool, Option, none, some, str_eq, if◌then◌else◌, Result, ok, err, ◌>>=◌,
}
use deep_seek_harness_x.Prelude.Int.{ℤ}
use deep_seek_harness_x.Session.Events.{
  SessionEnvelope, event_user_message, event_assistant_message, event_tool_result,
}

mutual
  -- ContentBlock: type, text, attachment id, mime type, id, name, arguments, tool call id, is-error
  -- flag and the nested blocks.
  pub data ContentBlock : Type 0 where
    block :
        String
        → String
        → String
        → String
        → String
        → String
        → String
        → String
        → Bool
        → Blocks
        → ContentBlock

  pub data Blocks : Type 0 where
    nil : Blocks
    cons : ContentBlock → Blocks → Blocks

abbrev pub block_type : ContentBlock → String
block_type (block t text attachment mime id name arguments call is_error content) = t

-- The source of a message is not read by the modelled code.
pub record WireMessage : Type 0 where
  pub id : String
  pub role : String
  pub content : Blocks

pub record ModelMessage : Type 0 where
  pub role : String
  pub content : Blocks

-- json.Unmarshal of a payload, reduced to its `message`, the turn number or the compaction id;
-- `none` is an error.
pub record Decoder : Type 0 where
  pub user_message : String → Option WireMessage
  pub assistant_message : String → Option WireMessage
  pub tool_result : String → Option WireMessage
  pub turn_start : String → Option ℤ
  pub compaction_start : String → Option String

pub data ProjectionError : Type 0 where
  invalid_payload : ProjectionError

decoded : Option WireMessage → Result ProjectionError WireMessage
decoded none = err invalid_payload
decoded (some w) = ok w

abbrev model_message : WireMessage → ModelMessage
model_message w = record { role = w.role; content = w.content }

-- An assistant message without content projects to nothing.
non_empty : ModelMessage → Blocks → Option ModelMessage
non_empty m nil = none
non_empty m (cons b r) = some m

unfoldable pub project_event_message :
    Decoder → SessionEnvelope → Result ProjectionError (Option ModelMessage)
unfolding decoded non_empty
project_event_message d e =
    if str_eq e.event_type event_user_message
    then (decoded (d.user_message e.raw_data) >>= λ w. ok (some (model_message w)))
    else if str_eq e.event_type event_assistant_message
    then (decoded (d.assistant_message e.raw_data) >>= λ w.
        ok (non_empty (model_message w) w.content))
    else if str_eq e.event_type event_tool_result
    then (decoded (d.tool_result e.raw_data) >>= λ w. ok (some (model_message w)))
    else ok none
