-- ===== src/Team/Fold.antt =====
-- backend/pkg/tools/team.go: applyTeamMember, applyTeamTask and foldTeamEvents.
-- The regular expression and strconv.Atoi that read a task id's number are the argument `task_number`.
use deep_seek_harness_x.Prelude.{
  String, ℕ, suc, ltb, Bool, true, false, not, ◌||◌, List, [], ◌∷◌, Option, none, some, str_eq,
  if◌then◌else◌, lookup, insert, Result, ok, err, ◌>>=◌, ◌>>◌,
}
use deep_seek_harness_x.Prelude.Int.{ℤ, pos, ◌+ℤ◌, ◌=ℤ◌}
use deep_seek_harness_x.Team.{
  TeamMemberRecord, TeamTaskRecord, TeamEvent, team_member, team_task, team_message_queued,
  team_message_delivered, undecodable, other_event, TeamFoldState, empty_team_fold_state, TeamError,
}
use deep_seek_harness_x.Team.Graph.{validate_task_graph}

abbrev pub team_event_version : ℤ
team_event_version = pos 1

abbrev pub name_taken : String → Option String → Bool
name_taken id none = false
name_taken id (some named) = not (str_eq named id)

abbrev pub member_step :
    TeamMemberRecord → Option TeamMemberRecord → TeamFoldState → Result TeamError TeamFoldState
member_step m none state =
    if not (str_eq m.phase "provisioning")
    then err TeamError.must_begin_provisioning
    else ok (record state {
      member_names = insert m.name m.id state.member_names;
      members = insert m.id m state.members;
    })
member_step m (some prior) state =
    if not (str_eq prior.name m.name)
      || not (str_eq prior.provider m.provider)
      || not (str_eq prior.context m.context)
    then err TeamError.changed_identity
    else if not (str_eq prior.phase "provisioning") || str_eq m.phase "provisioning"
    then err TeamError.invalid_phase
    else ok (record state { members = insert m.id m state.members })

unfoldable pub apply_team_member : TeamFoldState → TeamMemberRecord → Result TeamError TeamFoldState
apply_team_member state m =
    if name_taken m.id (lookup m.name state.member_names)
    then err TeamError.name_reused
    else member_step m (lookup m.id state.members) state

abbrev pub check_revision : TeamTaskRecord → Option TeamTaskRecord → Result TeamError (Unit {0})
check_revision t none = if not (t.revision =ℤ pos 1) then err TeamError.must_begin_at_1 else ok tt
check_revision t (some prior) =
    if not (t.revision =ℤ prior.revision +ℤ pos 1) then err TeamError.not_contiguous else ok tt

abbrev pub bump : ℕ → Option ℕ → ℕ
bump next none = next
bump next (some n) = if ltb n next then next else suc n

unfoldable pub apply_team_task :
    (String → Option ℕ) → TeamFoldState → TeamTaskRecord → Result TeamError TeamFoldState
apply_team_task task_number state t =
    check_revision t (lookup t.id state.tasks)
    >> validate_task_graph state.tasks t
    >> ok (record state {
      next_task_id = bump state.next_task_id (task_number t.id);
      tasks = insert t.id t state.tasks;
    })

-- A record of another version or another team is skipped.
abbrev pub guarded :
    ℤ → String → TeamFoldState → Result TeamError TeamFoldState → Result TeamError TeamFoldState
guarded version team_id state applied =
    if not (version =ℤ team_event_version) || not (str_eq team_id state.id)
    then ok state
    else applied

unfoldable pub apply_team_event :
    (String → Option ℕ) → TeamFoldState → TeamEvent → Result TeamError TeamFoldState
apply_team_event task_number state (team_member version team_id m) =
    guarded version team_id state (apply_team_member state m)
apply_team_event task_number state (team_task version team_id t) =
    guarded version team_id state (apply_team_task task_number state t)
apply_team_event task_number state (team_message_queued version team_id m) =
    guarded version team_id state (ok (record state { messages = insert m.id m state.messages }))
apply_team_event task_number state (team_message_delivered version team_id id) =
    guarded version team_id state (ok (record state { delivered = insert id true state.delivered }))
apply_team_event task_number state undecodable = err TeamError.invalid_payload
apply_team_event task_number state other_event = ok state

unfoldable pub fold_from :
    (String → Option ℕ) → TeamFoldState → List TeamEvent → Result TeamError TeamFoldState
unfolding apply_team_event
fold_from task_number state [] = ok state
fold_from task_number state (e ∷ events) =
    apply_team_event task_number state e >>= λ next. fold_from task_number next events

unfoldable pub fold_team_events :
    (String → Option ℕ) → List TeamEvent → String → Result TeamError TeamFoldState
fold_team_events task_number events team_id =
    fold_from task_number (empty_team_fold_state team_id) events
