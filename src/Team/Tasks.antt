-- ===== src/Team/Tasks.antt =====
-- backend/pkg/tools/team_service.go: the task board's create, get and update.
-- `trim` is strings.TrimSpace, `byte_length` is len of a string, `task_name` formats "task-%d". A field of an
-- update is `none` where the map has no such key; `owner` also where it is not a string.
use deep_seek_harness_x.Prelude.{
  String, ℕ, ltb, Bool, true, false, not, ◌||◌, ◌&&◌, List, [], ◌∷◌, Option, none, some, str_eq,
  if◌then◌else◌, Map, lookup, Result, ok, err, ◌>>=◌, ◌>>◌,
}
use deep_seek_harness_x.Prelude.Int.{ℤ, pos, ◌+ℤ◌, ◌=ℤ◌}
use deep_seek_harness_x.Team.{
  TeamMemberRecord, TeamTaskRecord, TeamEvent, team_task, TeamFoldState, TeamError, no_task,
}
use deep_seek_harness_x.Team.Graph.{has, task_at, validate_task_graph}
use deep_seek_harness_x.Team.Fold.{team_event_version, fold_team_events}

-- The standard library's functions that the board calls.
pub record Lib : Type 0 where
  pub trim : String → String
  pub byte_length : String → ℕ
  pub task_name : ℕ → String
  pub task_number : String → Option ℕ

pub record Fields : Type 0 where
  pub subject : Option String
  pub description : Option String
  pub write_scopes : Option (List String)
  pub blocked_by : Option (List String)
  pub owner : Option String

-- ToolExecutionContext's session and caller.
pub record Context : Type 0 where
  pub session_id : String
  pub caller_id : String

unfoldable pub caller_id_of : Context → String
caller_id_of ctx = if not (str_eq ctx.caller_id "") then ctx.caller_id else ctx.session_id

unfoldable pub task_ready : TeamFoldState → List String → Bool
unfolding task_at
task_ready state [] = true
task_ready state (b ∷ rest) =
    if not (str_eq (task_at b state.tasks).status "completed") then false else task_ready state rest

-- The task before it is numbered.
abbrev pub Edit : Type 0
Edit = Result TeamError TeamTaskRecord

unfoldable pub edit_claim : Context → TeamTaskRecord → Edit
unfolding caller_id_of
edit_claim ctx t =
    if not (str_eq t.status "pending")
    then err TeamError.not_pending
    else ok (record t { status = "in_progress"; owner_id = caller_id_of ctx })

unfoldable pub edit_release : Context → TeamTaskRecord → Edit
unfolding caller_id_of
edit_release ctx t =
    if not (str_eq t.status "in_progress") || not (str_eq t.owner_id (caller_id_of ctx))
    then err TeamError.not_the_owner
    else ok (record t { status = "pending"; owner_id = "" })

abbrev pub set_subject : Lib → Option String → TeamTaskRecord → Edit
set_subject lib none t = ok t
set_subject lib (some s) t =
    if str_eq (lib.trim s) "" then err TeamError.empty_subject else ok (record t { subject = s })

abbrev pub set_description : Lib → Option String → TeamTaskRecord → Edit
set_description lib none t = ok t
set_description lib (some d) t =
    if str_eq (lib.trim d) ""
    then err TeamError.empty_description
    else ok (record t { description = d })

abbrev pub set_write_scopes : Option (List String) → TeamTaskRecord → TeamTaskRecord
set_write_scopes none t = t
set_write_scopes (some scopes) t = record t { write_scopes = scopes }

unfoldable pub edit_text : Lib → Fields → TeamTaskRecord → Edit
edit_text lib fields t = do
  named ← set_subject lib fields.subject t
  described ← set_description lib fields.description named
  ok (set_write_scopes fields.write_scopes described)

abbrev pub or_nil : Option (List String) → List String
or_nil none = []
or_nil (some xs) = xs

unfoldable pub edit_dependencies : TeamFoldState → Fields → TeamTaskRecord → Edit
edit_dependencies state fields t =
    validate_task_graph state.tasks
      (record no_task { id = t.id; blocked_by = or_nil fields.blocked_by })
    >> ok (record t { blocked_by = or_nil fields.blocked_by })

unfoldable pub edit_complete : TeamFoldState → TeamTaskRecord → Edit
unfolding task_ready
edit_complete state t =
    if not (str_eq t.status "in_progress")
    then err TeamError.not_in_progress
    else if not (task_ready state t.blocked_by)
    then err TeamError.task_is_blocked
    else ok (record t { status = "completed" })

unfoldable pub edit_reopen : TeamTaskRecord → Edit
edit_reopen t =
    if not (str_eq t.status "completed")
    then err TeamError.not_completed
    else ok (record t { status = "pending"; owner_id = "" })

abbrev pub assign : TeamTaskRecord → Option TeamMemberRecord → Edit
assign t none = err TeamError.member_not_found
assign t (some m) = ok (record t { owner_id = m.id; status = "in_progress" })

abbrev pub or_empty : Option String → String
or_empty none = ""
or_empty (some s) = s

unfoldable pub edit_reassign : Lib → Context → TeamFoldState → Fields → TeamTaskRecord → Edit
edit_reassign lib ctx state fields t =
    let name = lib.trim (or_empty fields.owner) in
    if not (str_eq t.status "pending") && not (str_eq t.status "in_progress")
    then err TeamError.not_assignable
    else if str_eq name ""
    then ok (record t { status = "pending"; owner_id = "" })
    else if not (str_eq name "lead")
    then assign t (lookup name state.members)
    else ok (record t { owner_id = ctx.session_id; status = "in_progress" })

-- The loop over the board: some other task that is not deleted names this one as its blocker.
unfoldable pub blocks_another : String → Map TeamTaskRecord → Bool
unfolding has
blocks_another id [] = false
blocks_another id ((k, t) ∷ tasks) =
    (not (str_eq t.status "deleted") && not (str_eq t.id id) && has id t.blocked_by)
    || blocks_another id tasks

unfoldable pub edit_delete : TeamFoldState → TeamTaskRecord → Edit
unfolding blocks_another
edit_delete state t =
    if blocks_another t.id state.tasks
    then err TeamError.still_blocks
    else ok (record t { status = "deleted" })

pub data Action : Type 0 where
  claim release edit set_dependencies complete reopen reassign delete unsupported : Action

unfoldable pub edit_by : Action → Lib → Context → TeamFoldState → Fields → TeamTaskRecord → Edit
edit_by claim lib ctx state fields t = edit_claim ctx t
edit_by release lib ctx state fields t = edit_release ctx t
edit_by edit lib ctx state fields t = edit_text lib fields t
edit_by set_dependencies lib ctx state fields t = edit_dependencies state fields t
edit_by complete lib ctx state fields t = edit_complete state t
edit_by reopen lib ctx state fields t = edit_reopen t
edit_by reassign lib ctx state fields t = edit_reassign lib ctx state fields t
edit_by delete lib ctx state fields t = edit_delete state t
edit_by unsupported lib ctx state fields t = err TeamError.unsupported_action

abbrev pub update_found :
    Lib → Context → TeamFoldState → ℤ → Action → Fields → Option TeamTaskRecord → Edit
update_found lib ctx state expected_rev action fields none = err TeamError.task_not_found
update_found lib ctx state expected_rev action fields (some current) =
    if not (current.revision =ℤ expected_rev)
    then err TeamError.revision_mismatch
    else edit_by action lib ctx state fields current >>= λ next.
        let numbered : TeamTaskRecord = record next { revision = current.revision +ℤ pos 1 } in
        validate_task_graph state.tasks numbered >> ok numbered

-- teamTaskUpdate on the folded state: the record that it emits.
unfoldable pub update_task : Lib → Context → TeamFoldState → String → ℤ → Action → Fields → Edit
update_task lib ctx state id expected_rev action fields =
    update_found lib ctx state expected_rev action fields (lookup id state.tasks)

abbrev pub new_task :
    Lib → TeamFoldState → String → String → List String → List String → TeamTaskRecord
new_task lib state subject description blocked_by write_scopes = record {
  id = lib.task_name state.next_task_id;
  revision = pos 1;
  subject = subject;
  description = description;
  status = "pending";
  owner_id = "";
  blocked_by = blocked_by;
  write_scopes = write_scopes;
}

-- teamTaskCreate on the folded state.
unfoldable pub create_task :
    Lib → TeamFoldState → String → String → List String → List String → Edit
create_task lib state subject description blocked_by write_scopes =
    if str_eq (lib.trim subject) ""
    then err TeamError.empty_subject
    else if str_eq (lib.trim description) ""
    then err TeamError.empty_description
    else if ltb 200 (lib.byte_length subject)
    then err TeamError.subject_too_long
    else if ltb 16384 (lib.byte_length description)
    then err TeamError.description_too_long
    else let task = new_task lib state subject description blocked_by write_scopes in
      validate_task_graph state.tasks task >> ok task

-- The event that a call emits for its record.
unfoldable pub emitted : Context → TeamTaskRecord → TeamEvent
emitted ctx t = team_task team_event_version ctx.session_id t

-- teamTaskUpdate, from the session's log: the event it appends.
unfoldable pub team_task_update :
    Lib → Context → List TeamEvent → String → ℤ → Action → Fields → Result TeamError TeamEvent
team_task_update lib ctx events id expected_rev action fields = do
  state ← fold_team_events lib.task_number events ctx.session_id
  next ← update_task lib ctx state id expected_rev action fields
  ok (emitted ctx next)

-- teamTaskCreate, from the session's log.
unfoldable pub team_task_create :
    Lib
    → Context
    → List TeamEvent
    → String
    → String
    → List String
    → List String
    → Result TeamError TeamEvent
team_task_create lib ctx events subject description blocked_by write_scopes = do
  state ← fold_team_events lib.task_number events ctx.session_id
  task ← create_task lib state subject description blocked_by write_scopes
  ok (emitted ctx task)
