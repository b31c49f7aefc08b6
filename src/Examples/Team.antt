-- ===== src/Examples/Team.antt =====
-- The examples of the Team's board and roster.
use Prim.Native.String.{count, ◌∷◌ as ◌∷ᶜ◌}
use Prim.Native.String.count.{cons as count_cons}
use deep_seek_harness_x.Prelude.{
  String, ℕ, zero, suc, ◌≡◌, ◌≢◌, refl, ap, ◌∙◌, List, [], ◌∷◌, ◌++◌, none, some, true, lookup,
  insert, ok, err, some-injective,
}
use deep_seek_harness_x.Prelude.Int.{pos, ◌+ℤ◌}
use deep_seek_harness_x.Team.{
  TeamTaskRecord, TeamEvent, team_task, TeamFoldState, empty_team_fold_state, TeamError,
}
use deep_seek_harness_x.Team.Graph.{
  has, task_at, scan, visit, search, check_blockers, validate_task_graph,
}
use deep_seek_harness_x.Team.Graph.Order.{IsOrdered, validate_task_graph-IsOrdered}
use deep_seek_harness_x.Team.Graph.Ends.{validate_task_graph-ends}
use deep_seek_harness_x.Team.Fold.{
  team_event_version, fold_team_events, fold_from, apply_team_event, apply_team_task,
}
use deep_seek_harness_x.Team.Tasks.{
  Lib, Context, Fields, claim, delete, team_task_update, team_task_create, update_task, create_task,
  edit_by, edit_claim, edit_delete, caller_id_of, blocks_another, emitted,
}
use deep_seek_harness_x.Team.Effect.{TaskEffect}
use deep_seek_harness_x.Team.Agree.{
  team_task_update-replays, team_task_update-races, team_task_create-replays,
}
use deep_seek_harness_x.Team.Roster.{
  resolve_team_target, target_not_found, spawned, spawn_teammate, member_events,
  spawn_teammate-unaddressed,
}

-- A task's name is as many marks as its number.
marks : ℕ → String
marks zero = ""
marks (suc n) = "x" ∷ᶜ marks n

count-marks : (n : ℕ) → some (count (marks n)) ≡ some n
unfolding marks
count-marks zero = refl
count-marks (suc n) = ap some (count_cons "x" (marks n) ∙ ap suc (some-injective (count-marks n)))

abbrev lib : Lib
lib = record {
  trim = λ s. s;
  byte_length = λ s. 1;
  task_name = marks;
  task_number = λ s. some (count s);
}

abbrev ctx : Context
ctx = record { session_id = "lead"; caller_id = "" }

abbrev first_task : TeamTaskRecord
first_task = record {
  id = "x";
  revision = pos 1;
  subject = "s";
  description = "d";
  status = "pending";
  owner_id = "";
  blocked_by = [];
  write_scopes = [];
}

abbrev log : List TeamEvent
log = team_task team_event_version "lead" first_task ∷ []

abbrev no_fields : Fields
no_fields = record {
  subject = none;
  description = none;
  write_scopes = none;
  blocked_by = none;
  owner = none;
}

abbrev claimed : TeamEvent
claimed =
    team_task team_event_version "lead"
      (record first_task { revision = pos 2; status = "in_progress"; owner_id = "lead" })

abbrev deleted : TeamEvent
deleted =
    team_task team_event_version "lead" (record first_task { revision = pos 2; status = "deleted" })

accepted : validate_task_graph [] first_task ≡ ok tt
unfolding validate_task_graph check_blockers search scan visit insert has task_at lookup
accepted = refl

validate_task_graph-IsOrdered_example :
    (order : List String) × (IsOrdered (insert first_task.id first_task []) order
      × ((id : String) (t : TeamTaskRecord)
          → lookup id (insert first_task.id first_task []) ≡ some t
          → has id order ≡ true))
validate_task_graph-IsOrdered_example = validate_task_graph-IsOrdered [] first_task accepted

validate_task_graph-ends_example : validate_task_graph [] first_task ≢ err TeamError.out_of_fuel
validate_task_graph-ends_example = validate_task_graph-ends [] first_task

claims : team_task_update lib ctx log "x" (pos 1) claim no_fields ≡ ok claimed
unfolding team_task_update fold_team_events fold_from apply_team_event apply_team_task
    empty_team_fold_state update_task edit_by edit_claim caller_id_of emitted validate_task_graph
    check_blockers search scan visit insert has task_at lookup ◌+ℤ◌
claims = refl

deletes : team_task_update lib ctx log "x" (pos 1) delete no_fields ≡ ok deleted
unfolding team_task_update fold_team_events fold_from apply_team_event apply_team_task
    empty_team_fold_state update_task edit_by edit_delete blocks_another emitted validate_task_graph
    check_blockers search scan visit insert has task_at lookup ◌+ℤ◌
deletes = refl

team_task_update-replays_example :
    (current next : TeamTaskRecord) × TaskEffect lib ctx log "x" claimed (some current) (some next)
    × (next.revision ≡ current.revision +ℤ pos 1)
team_task_update-replays_example =
    team_task_update-replays lib ctx log "x" (pos 1) claim no_fields claimed claims

team_task_update-races_example :
    (current next_a next_b : TeamTaskRecord) × TaskEffect lib ctx log "x" claimed
      (some current)
      (some next_a)
    × TaskEffect lib ctx log "x" deleted (some current) (some next_b)
    × (next_a.revision ≡ next_b.revision)
    × (fold_team_events lib.task_number (log ++ claimed ∷ deleted ∷ []) "lead"
        ≡ err TeamError.not_contiguous)
team_task_update-races_example =
    team_task_update-races lib ctx log "x" (pos 1) (pos 1) claim delete no_fields no_fields claimed
      deleted claims deletes

creates :
    team_task_create lib ctx [] "s" "d" [] [] ≡ ok (team_task team_event_version "lead" first_task)
unfolding team_task_create fold_team_events fold_from empty_team_fold_state create_task marks
    emitted validate_task_graph check_blockers search scan visit insert has task_at lookup
creates = refl

team_task_create-replays_example :
    (task : TeamTaskRecord) × TaskEffect lib ctx [] task.id
      (team_task team_event_version "lead" first_task)
      none
      (some task)
    × (task.revision ≡ pos 1)
team_task_create-replays_example =
    team_task_create-replays lib ctx [] "s" "d" [] []
      (team_task team_event_version "lead" first_task) count-marks creates

abbrev nobody : TeamFoldState
nobody = empty_team_fold_state "lead"

no_member : lookup "scout" nobody.members ≡ none
unfolding lookup empty_team_fold_state
no_member = refl

spawns :
    spawn_teammate lib (λ s. true) nobody "scout" "d" "fresh" (some (ok "session-7"))
    ≡ ok (spawned "session-7" "scout" "d" "fresh")
unfolding spawn_teammate empty_team_fold_state lookup
spawns = refl

no_session : lookup "session-7" nobody.members ≡ none
unfolding lookup empty_team_fold_state
no_session = refl

spawn_teammate-unaddressed_example :
    (after : TeamFoldState) × (fold_from lib.task_number nobody
        (member_events nobody.id (spawned "session-7" "scout" "d" "fresh"))
      ≡ ok after)
    × (lookup "scout" after.member_names ≡ some "session-7")
    × (resolve_team_target lib after "lead" "scout" ≡ err target_not_found)
    × (resolve_team_target lib after "lead" "session-7" ≡ ok "session-7")
spawn_teammate-unaddressed_example =
    spawn_teammate-unaddressed lib (λ s. true) nobody "lead" "scout" "d" "fresh" "session-7"
      (spawned "session-7" "scout" "d" "fresh") spawns refl refl refl refl no_session no_member
