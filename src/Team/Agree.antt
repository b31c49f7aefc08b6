-- ===== src/Team/Agree.antt =====
-- backend/pkg/tools/team_service.go with team.go: what the board emits is what the fold accepts.
use deep_seek_harness_x.Prelude.{
  String, ℕ, Bool, true, false, ◌≡◌, refl, ap, sym, ◌∙◌, subst, List, [], ◌∷◌, ◌++◌, none, some,
  some-injective, inl, inr, Option-cases, str_eq, eq_iff, ltb, if◌then◌else◌, lookup, lookup-insert,
  ok, err, ◌>>=◌, >>=-eq-ok, ok-injective, arith,
}
use deep_seek_harness_x.Prelude.Int.{ℤ, pos, ◌+ℤ◌, ◌=ℤ◌}
use deep_seek_harness_x.Team.{TeamTaskRecord, TeamEvent, TeamFoldState, TeamError}
use deep_seek_harness_x.Team.Graph.{validate_task_graph}
use deep_seek_harness_x.Team.Fold.{
  apply_team_task, check_revision, apply_team_event, fold_from, fold_team_events,
}
use deep_seek_harness_x.Team.Tasks.{
  Lib, Fields, Context, Action, Edit, new_task, create_task, emitted, team_task_update,
  team_task_create,
}
use deep_seek_harness_x.Team.Board.{IsBoard, fold_team_events-IsBoard}
use deep_seek_harness_x.Team.Effect.{
  apply_team_task-next, emitted-applies, team_task_update-Accepted, after_task, Accepted-applies,
  fold_one-more, TaskEffect, applied-TaskEffect, Accepted-TaskEffect,
}

-- An update that is accepted emits an event that the fold of the log with it accepts and applies: the board then holds,
-- under the task's id, the task's record of the next revision, and every other task as before.
pub team_task_update-replays :
    (lib : Lib) (ctx : Context) (events : List TeamEvent) (id : String) (expected_rev : ℤ)
    (action : Action) (fields : Fields) (event : TeamEvent)
    → team_task_update lib ctx events id expected_rev action fields ≡ ok event
    → (current next : TeamTaskRecord) × TaskEffect lib ctx events id event
        (some current)
        (some next)
      × (next.revision ≡ current.revision +ℤ pos 1)
team_task_update-replays lib ctx events id expected_rev action fields event h =
    let x = team_task_update-Accepted lib ctx events id expected_rev action fields event h in
    (x.current, x.next, Accepted-TaskEffect lib ctx events id event x, x.revision)

next_revision : (r : ℤ) → (r =ℤ r +ℤ pos 1) ≡ false
unfolding ◌+ℤ◌
next_revision r = ground arith

-- A record of the revision that the board already has.
second-refused :
    (lib : Lib) (ctx : Context) (state : TeamFoldState) (first second : TeamTaskRecord)
    (event : TeamEvent)
    → state.id ≡ ctx.session_id
    → emitted ctx second ≡ event
    → second.id ≡ first.id
    → second.revision ≡ first.revision
    → apply_team_event lib.task_number (after_task lib state first) event
      ≡ err TeamError.not_contiguous
unfolding apply_team_event emitted apply_team_task after_task
second-refused lib ctx state first second event same_team event_is same_id same_revision =
    let ours : str_eq ctx.session_id state.id ≡ true =
      (eq_iff ctx.session_id state.id).1 (sym same_team) in
    let itself : str_eq first.id second.id ≡ true = (eq_iff first.id second.id).1 (sym same_id) in
    rw
      (
        ← event_is,
        ours,
        lookup-insert first.id second.id first state.tasks,
        itself,
        same_revision,
        next_revision first.revision,
      )
      refl

-- Two accepted updates of one task that read the same log: each event alone replays, from the same record of the task to one of
-- the same revision, but the log with both does not fold.
pub team_task_update-races :
    (lib : Lib) (ctx : Context) (events : List TeamEvent) (id : String) (rev_a rev_b : ℤ)
    (a b : Action) (fields_a fields_b : Fields) (first second : TeamEvent)
    → team_task_update lib ctx events id rev_a a fields_a ≡ ok first
    → team_task_update lib ctx events id rev_b b fields_b ≡ ok second
    → (current next_a next_b : TeamTaskRecord) × TaskEffect lib ctx events id first
        (some current)
        (some next_a)
      × TaskEffect lib ctx events id second (some current) (some next_b)
      × (next_a.revision ≡ next_b.revision)
      × (fold_team_events lib.task_number (events ++ first ∷ second ∷ []) ctx.session_id
          ≡ err TeamError.not_contiguous)
unfolding fold_from after_task
team_task_update-races lib ctx events id rev_a rev_b a b fields_a fields_b first second h k =
    let x = team_task_update-Accepted lib ctx events id rev_a a fields_a first h in
    let y = team_task_update-Accepted lib ctx events id rev_b b fields_b second k in
    let same : x.state ≡ y.state = ok-injective (sym x.folded ∙ y.folded) in
    let task : x.current ≡ y.current =
      some-injective (sym x.found ∙ ap (λ s. lookup id s.tasks) same ∙ y.found) in
    let revisions : y.next.revision ≡ x.next.revision =
      y.revision ∙ ap (λ t. t.revision +ℤ pos 1) (sym task) ∙ sym x.revision in
    (
      x.current,
      x.next,
      y.next,
      Accepted-TaskEffect lib ctx events id first x,
      subst (λ t. TaskEffect lib ctx events id second (some t) (some y.next)) (sym task)
          (Accepted-TaskEffect lib ctx events id second y),
      sym revisions,
      fold_one-more lib ctx events (first ∷ second ∷ []) x.state x.folded
          ∙ ap (λ r. r >>= λ s. fold_from lib.task_number s (second ∷ []))
              (Accepted-applies lib ctx events id first x)
          ∙ ap (λ r. r >>= λ s. fold_from lib.task_number s [])
              (second-refused lib ctx x.state x.next y.next second x.same_team y.event_is
                (y.next_id ∙ sym x.next_id) revisions),
    )

-- A guard that was passed.
past :
    (b : Bool) (e : TeamError) (r : Edit) {t : TeamTaskRecord}
    → (if b then err e else r) ≡ ok t
    → r ≡ ok t
past true e r h = cc
past false e r h = h

create_task-ok :
    (lib : Lib) (state : TeamFoldState) (subject description : String)
    (blocked_by write_scopes : List String) (task : TeamTaskRecord)
    → create_task lib state subject description blocked_by write_scopes ≡ ok task
    → (task.id ≡ lib.task_name state.next_task_id)
      × (task.revision ≡ pos 1)
      × (validate_task_graph state.tasks task ≡ ok tt)
unfolding create_task
create_task-ok lib state subject description blocked_by write_scopes task h =
    let task_of = new_task lib state subject description blocked_by write_scopes in
    let h1 = past (str_eq (lib.trim subject) "") TeamError.empty_subject _ h in
    let h2 = past (str_eq (lib.trim description) "") TeamError.empty_description _ h1 in
    let h3 = past (ltb 200 (lib.byte_length subject)) TeamError.subject_too_long _ h2 in
    let h4 = past (ltb 16384 (lib.byte_length description)) TeamError.description_too_long _ h3 in
    let (u, graph, last) =
      >>=-eq-ok (validate_task_graph state.tasks task_of) (λ _. ok task_of) h4 in
    let same = ok-injective last in
    (
      ap (λ r. r.id) (sym same),
      ap (λ r. r.revision) (sym same),
      subst (λ r. validate_task_graph state.tasks r ≡ ok tt) same graph,
    )

-- On a library that numbers task names, a create that is accepted emits an event that the fold of the log with it
-- accepts and applies: the board then holds, under an id that no task had, the new task of revision 1, and every other
-- task as before.
pub team_task_create-replays :
    (lib : Lib) (ctx : Context) (events : List TeamEvent) (subject description : String)
    (blocked_by write_scopes : List String) (event : TeamEvent)
    → ((n : ℕ) → lib.task_number (lib.task_name n) ≡ some n)
    → team_task_create lib ctx events subject description blocked_by write_scopes ≡ ok event
    → (task : TeamTaskRecord) × TaskEffect lib ctx events task.id event none (some task)
      × (task.revision ≡ pos 1)
unfolding team_task_create IsBoard after_task
team_task_create-replays lib ctx events subject description blocked_by write_scopes event names h =
    let (state, folded, rest) =
      >>=-eq-ok (fold_team_events lib.task_number events ctx.session_id) _ h in
    let (task, created, last) =
      >>=-eq-ok (create_task lib state subject description blocked_by write_scopes) _ rest in
    let board = fold_team_events-IsBoard lib.task_number ctx.session_id events state folded in
    let facts = create_task-ok lib state subject description blocked_by write_scopes task created in
    let fresh : lookup task.id state.tasks ≡ none =
      elim (Option-cases (lookup task.id state.tasks)) [
        | inl absent ↦ absent
        | inr (t, found) ↦ absurd (
            omega (
              arith,
              board.2 task.id t state.next_task_id found
                  (ap lib.task_number facts.0 ∙ names state.next_task_id),
            ))
      ] in
    let revision : check_revision task (lookup task.id state.tasks) ≡ ok tt =
      rw (fresh, facts.1) refl in
    let applied = apply_team_task-next lib.task_number state task revision facts.2 in
    (
      task,
      applied-TaskEffect lib ctx events event state task folded
          (ap (apply_team_event lib.task_number state) (sym (ok-injective last))
            ∙ emitted-applies lib ctx state _ task board.0 applied)
          fresh,
      facts.1,
    )
