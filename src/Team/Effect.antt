-- ===== src/Team/Effect.antt =====
-- backend/pkg/tools/team_service.go with team.go: what an emitted task record does to the board that the log folds to.
use deep_seek_harness_x.Prelude.{
  String, ℕ, true, ◌≡◌, refl, ap, sym, ◌∙◌, subst, List, [], ◌∷◌, ◌++◌, Option, none, some, str_eq,
  eq_iff, if◌then◌else◌, lookup, insert, lookup-insert, ok, ◌>>=◌, >>=-eq-ok, ok-injective, arith,
}
use deep_seek_harness_x.Prelude.Int.{ℤ, pos, ◌+ℤ◌, =ℤ_refl}
use deep_seek_harness_x.Team.{TeamTaskRecord, TeamEvent, TeamFoldState, empty_team_fold_state}
use deep_seek_harness_x.Team.Graph.{validate_task_graph}
use deep_seek_harness_x.Team.Fold.{
  apply_team_task, check_revision, bump, apply_team_event, fold_from, fold_team_events,
}
use deep_seek_harness_x.Team.Tasks.{
  Lib, Fields, Context, Action, update_task, emitted, team_task_update,
}
use deep_seek_harness_x.Team.Edits.{update_task-ok}
use deep_seek_harness_x.Team.Board.{IsBoard, fold_team_events-IsBoard, fold_from-append}

pub apply_team_task-next :
    (task_number : String → Option ℕ) (state : TeamFoldState) (t : TeamTaskRecord)
    → check_revision t (lookup t.id state.tasks) ≡ ok tt
    → validate_task_graph state.tasks t ≡ ok tt
    → apply_team_task task_number state t
      ≡ ok (record state {
        next_task_id = bump state.next_task_id (task_number t.id);
        tasks = insert t.id t state.tasks;
      })
unfolding apply_team_task
apply_team_task-next task_number state t revision graph = rw (revision, graph) refl

-- The emitted event belongs to this team and version, so the fold applies it.
pub emitted-applies :
    (lib : Lib) (ctx : Context) (state after : TeamFoldState) (t : TeamTaskRecord)
    → state.id ≡ ctx.session_id
    → apply_team_task lib.task_number state t ≡ ok after
    → apply_team_event lib.task_number state (emitted ctx t) ≡ ok after
unfolding apply_team_event emitted
emitted-applies lib ctx state after t same applied =
    let ours : str_eq ctx.session_id state.id ≡ true =
      (eq_iff ctx.session_id state.id).1 (sym same) in
    rw ours applied

-- An update that the log accepts, taken apart: the folded board, the task it found and the record it emits.
pub record Accepted (lib : Lib) (ctx : Context) (events : List TeamEvent) (id : String)
    (event : TeamEvent) : Type 0 where
  pub state : TeamFoldState
  pub current : TeamTaskRecord
  pub next : TeamTaskRecord
  pub folded : fold_team_events lib.task_number events ctx.session_id ≡ ok state
  pub same_team : state.id ≡ ctx.session_id
  pub found : lookup id state.tasks ≡ some current
  pub next_id : next.id ≡ id
  pub revision : next.revision ≡ current.revision +ℤ pos 1
  pub graph : validate_task_graph state.tasks next ≡ ok tt
  pub event_is : emitted ctx next ≡ event

pub team_task_update-Accepted :
    (lib : Lib) (ctx : Context) (events : List TeamEvent) (id : String) (expected_rev : ℤ)
    (action : Action) (fields : Fields) (event : TeamEvent)
    → team_task_update lib ctx events id expected_rev action fields ≡ ok event
    → Accepted lib ctx events id event
unfolding team_task_update IsBoard
team_task_update-Accepted lib ctx events id expected_rev action fields event h =
    let (state, folded, rest) =
      >>=-eq-ok (fold_team_events lib.task_number events ctx.session_id) _ h in
    let (next, updated, last) =
      >>=-eq-ok (update_task lib ctx state id expected_rev action fields) _ rest in
    let board = fold_team_events-IsBoard lib.task_number ctx.session_id events state folded in
    let (current, facts) =
      update_task-ok lib ctx state id expected_rev action fields next updated in
    record {
      state = state;
      current = current;
      next = next;
      folded = folded;
      same_team = board.0;
      found = facts.0;
      next_id = facts.2 ∙ board.1 id current facts.0;
      revision = facts.3;
      graph = facts.4;
      event_is = ok-injective last;
    }

-- The board after the record.
unfoldable pub after_task : Lib → TeamFoldState → TeamTaskRecord → TeamFoldState
after_task lib state t = record state {
  next_task_id = bump state.next_task_id (lib.task_number t.id);
  tasks = insert t.id t state.tasks;
}

pub Accepted-applies :
    (lib : Lib) (ctx : Context) (events : List TeamEvent) (id : String) (event : TeamEvent)
    (x : Accepted lib ctx events id event)
    → apply_team_event lib.task_number x.state event ≡ ok (after_task lib x.state x.next)
unfolding after_task
Accepted-applies lib ctx events id event x =
    let at : lookup x.next.id x.state.tasks ≡ some x.current = rw x.next_id x.found in
    let revision : check_revision x.next (lookup x.next.id x.state.tasks) ≡ ok tt =
      rw (at, x.revision, =ℤ_refl (x.current.revision +ℤ pos 1)) refl in
    ap (apply_team_event lib.task_number x.state) (sym x.event_is)
    ∙ emitted-applies lib ctx x.state _ x.next x.same_team
        (apply_team_task-next lib.task_number x.state x.next revision x.graph)

-- A log that folds, and one event more.
pub fold_one-more :
    (lib : Lib) (ctx : Context) (events more : List TeamEvent) (state : TeamFoldState)
    → fold_team_events lib.task_number events ctx.session_id ≡ ok state
    → fold_team_events lib.task_number (events ++ more) ctx.session_id
      ≡ fold_from lib.task_number state more
unfolding fold_team_events
fold_one-more lib ctx events more state folded =
    fold_from-append lib.task_number (empty_team_fold_state ctx.session_id) events more
    ∙ ap (λ r. r >>= λ s. fold_from lib.task_number s more) folded

pub fold_from-one :
    (lib : Lib) (state after : TeamFoldState) (event : TeamEvent)
    → apply_team_event lib.task_number state event ≡ ok after
    → fold_from lib.task_number state (event ∷ []) ≡ ok after
unfolding fold_from
fold_from-one lib state after event h = ap (λ r. r >>= λ s. fold_from lib.task_number s []) h

after_task-found :
    (lib : Lib) (state : TeamFoldState) (t : TeamTaskRecord) (id : String)
    → t.id ≡ id
    → lookup id (after_task lib state t).tasks ≡ some t
unfolding after_task
after_task-found lib state t id same =
    let itself : str_eq t.id id ≡ true = (eq_iff t.id id).1 same in
    rw (lookup-insert t.id id t state.tasks, itself) refl

-- An event replays on a log to a task record: the log folds with the task as it was, and with the event to the record.
pub record TaskEffect (lib : Lib) (ctx : Context) (events : List TeamEvent) (id : String)
    (event : TeamEvent) (before after : Option TeamTaskRecord) : Type 0 where
  pub old_board : TeamFoldState
  pub new_board : TeamFoldState
  pub folds : fold_team_events lib.task_number events ctx.session_id ≡ ok old_board
  pub folds_with :
      fold_team_events lib.task_number (events ++ event ∷ []) ctx.session_id ≡ ok new_board
  pub was : lookup id old_board.tasks ≡ before
  pub is : lookup id new_board.tasks ≡ after
  pub others :
      (j : String)
      → (if str_eq id j then none else lookup j new_board.tasks)
        ≡ (if str_eq id j then none else lookup j old_board.tasks)

pub applied-TaskEffect :
    (lib : Lib) (ctx : Context) (events : List TeamEvent) (event : TeamEvent)
    (state : TeamFoldState) (t : TeamTaskRecord) {before : Option TeamTaskRecord}
    → fold_team_events lib.task_number events ctx.session_id ≡ ok state
    → apply_team_event lib.task_number state event ≡ ok (after_task lib state t)
    → lookup t.id state.tasks ≡ before
    → TaskEffect lib ctx events t.id event before (some t)
unfolding after_task
applied-TaskEffect lib ctx events event state t folded applied found = record {
  old_board = state;
  new_board = after_task lib state t;
  folds = folded;
  folds_with =
      fold_one-more lib ctx events (event ∷ []) state folded
      ∙ fold_from-one lib state _ event applied;
  was = found;
  is = after_task-found lib state t t.id refl;
  others = λ j. ground (arith, lookup-insert t.id j t state.tasks);
}

pub Accepted-TaskEffect :
    (lib : Lib) (ctx : Context) (events : List TeamEvent) (id : String) (event : TeamEvent)
    (x : Accepted lib ctx events id event)
    → TaskEffect lib ctx events id event (some x.current) (some x.next)
Accepted-TaskEffect lib ctx events id event x =
    subst (λ k. TaskEffect lib ctx events k event (some x.current) (some x.next)) x.next_id
      (applied-TaskEffect lib ctx events event x.state x.next x.folded
        (Accepted-applies lib ctx events id event x) (rw x.next_id x.found))
