-- ===== src/Team.antt =====
-- backend/pkg/tools/team.go and backend/pkg/session/events.go: the durable records of a Team and its folded
-- state. A payload comes decoded: json.Unmarshal's error is the event `undecodable`.
use deep_seek_harness_x.Prelude.{String, ℕ, Bool, List, [], Map}
use deep_seek_harness_x.Prelude.Int.{ℤ, pos}
pub mod Graph
pub mod Fold
pub mod Tasks
pub mod Board
pub mod Edits
pub mod Effect
pub mod Agree
pub mod Roster

pub record TeamMemberRecord : Type 0 where
  pub id : String
  pub name : String
  pub description : String
  pub provider : String
  pub context : String
  pub phase : String
  pub error : String

pub record TeamTaskRecord : Type 0 where
  pub id : String
  pub revision : ℤ
  pub subject : String
  pub description : String
  pub status : String
  pub owner_id : String
  pub blocked_by : List String
  pub write_scopes : List String

-- The text of the message stands for its content blocks.
pub record TeamMessageRecord : Type 0 where
  pub id : String
  pub sender_id : String
  pub sender_name : String
  pub target_id : String
  pub delivery : String
  pub text : String

-- The zero value that a Go map gives for a missing task.
abbrev pub no_task : TeamTaskRecord
no_task = record {
  id = "";
  revision = pos 0;
  subject = "";
  description = "";
  status = "";
  owner_id = "";
  blocked_by = [];
  write_scopes = [];
}

pub data TeamEvent : Type 0 where
  team_member : ℤ → String → TeamMemberRecord → TeamEvent
  team_task : ℤ → String → TeamTaskRecord → TeamEvent
  team_message_queued : ℤ → String → TeamMessageRecord → TeamEvent
  team_message_delivered : ℤ → String → String → TeamEvent
  undecodable : TeamEvent
  other_event : TeamEvent

pub record TeamFoldState : Type 0 where
  pub id : String
  pub members : Map TeamMemberRecord
  pub member_names : Map String
  pub tasks : Map TeamTaskRecord
  pub messages : Map TeamMessageRecord
  pub delivered : Map Bool
  pub next_task_id : ℕ

unfoldable pub empty_team_fold_state : String → TeamFoldState
empty_team_fold_state id = record {
  id = id;
  members = [];
  member_names = [];
  tasks = [];
  messages = [];
  delivered = [];
  next_task_id = 1;
}

pub data TeamError : Type 0 where
  invalid_payload name_reused must_begin_provisioning changed_identity : TeamError
  invalid_phase must_begin_at_1 not_contiguous : TeamError
  blocks_itself duplicate_blocker blocker_not_found dependency_cycle : TeamError
  empty_subject empty_description subject_too_long description_too_long : TeamError
  task_not_found revision_mismatch not_pending not_the_owner not_in_progress : TeamError
  task_is_blocked not_completed not_assignable member_not_found still_blocks : TeamError
  unsupported_action out_of_fuel : TeamError
