-- ===== src/Team/Edits.antt =====
-- backend/pkg/tools/team_service.go with team.go: an accepted update is the task it found, edited.
use deep_seek_harness_x.Prelude.{
  String, Bool, true, false, not, ◌≡◌, refl, ap, sym, ◌∙◌, subst, List, Option, none, some, inl,
  inr, Bool-cases, Option-cases, str_eq, if◌then◌else◌, lookup, Result, ok, err, ◌>>=◌, ◌>>◌,
  >>=-eq-ok, ok-injective,
}
use deep_seek_harness_x.Prelude.Int.{ℤ, pos, ◌+ℤ◌, ◌=ℤ◌, =ℤ_iff}
use deep_seek_harness_x.Team.{TeamMemberRecord, TeamTaskRecord, TeamFoldState, TeamError}
use deep_seek_harness_x.Team.Graph.{validate_task_graph}
use deep_seek_harness_x.Team.Tasks.{
  Lib, Fields, Context, Action, Edit, edit_by, edit_claim, edit_release, edit_text,
  edit_dependencies, edit_complete, edit_reopen, edit_reassign, edit_delete, set_subject,
  set_description, set_write_scopes, assign, task_ready, or_nil, update_found, update_task, claim,
  release, edit, set_dependencies, complete, reopen, reassign, delete, unsupported,
}

-- An edit that succeeds gives a task of the same id.
SameId : TeamTaskRecord → Edit → Type 0
SameId t r = (next : TeamTaskRecord) → r ≡ ok next → next.id ≡ t.id

if-SameId :
    (b : Bool) (t : TeamTaskRecord) (x y : Edit)
    → SameId t x
    → SameId t y
    → SameId t (if b then x else y)
if-SameId true t x y hx hy = hx
if-SameId false t x y hx hy = hy

err-SameId : (t : TeamTaskRecord) (e : TeamError) → SameId t (err e)
unfolding SameId
err-SameId t e next h = cc

ok-SameId : (t edited : TeamTaskRecord) → edited.id ≡ t.id → SameId t (ok edited)
unfolding SameId
ok-SameId t edited same next h = ap (λ r. r.id) (sym (ok-injective h)) ∙ same

bind-SameId :
    (t : TeamTaskRecord) (first : Edit) (rest : TeamTaskRecord → Edit)
    → SameId t first
    → ((x : TeamTaskRecord) → SameId x (rest x))
    → SameId t (first >>= rest)
unfolding SameId
bind-SameId t first rest h k next e =
    let (x, at, then_) = >>=-eq-ok first rest e in k x next then_ ∙ h x at

edit_by-SameId :
    (action : Action) (lib : Lib) (ctx : Context) (state : TeamFoldState) (fields : Fields)
    (t : TeamTaskRecord)
    → SameId t (edit_by action lib ctx state fields t)
unfolding edit_by edit_claim edit_release edit_text edit_dependencies edit_complete edit_reopen
    edit_reassign edit_delete
edit_by-SameId claim lib ctx state fields t =
    if-SameId _ t _ _ (err-SameId t _) (ok-SameId t _ refl)
edit_by-SameId release lib ctx state fields t =
    if-SameId _ t _ _ (err-SameId t _) (ok-SameId t _ refl)
edit_by-SameId edit lib ctx state fields t =
    bind-SameId t (set_subject lib fields.subject t) _ (subject fields.subject) λ named.
      bind-SameId named (set_description lib fields.description named) _
        (description named fields.description) λ x. ok-SameId x _ (scopes fields.write_scopes x)
  where
    subject : (s : Option String) → SameId t (set_subject lib s t)
    subject none = ok-SameId t t refl
    subject (some s) = if-SameId _ t _ _ (err-SameId t _) (ok-SameId t _ refl)

    description : (x : TeamTaskRecord) (d : Option String) → SameId x (set_description lib d x)
    description x none = ok-SameId x x refl
    description x (some d) = if-SameId _ x _ _ (err-SameId x _) (ok-SameId x _ refl)

    scopes : (o : Option (List String)) (x : TeamTaskRecord) → (set_write_scopes o x).id ≡ x.id
    scopes none x = refl
    scopes (some xs) x = refl
edit_by-SameId set_dependencies lib ctx state fields t = checked (validate_task_graph _ _)
  where
    checked :
        (r : Result TeamError (Unit {0}))
        → SameId t (r >> ok (record t { blocked_by = or_nil fields.blocked_by }))
    checked (ok u) = ok-SameId t _ refl
    checked (err e) = err-SameId t e
edit_by-SameId complete lib ctx state fields t =
    if-SameId (not (str_eq t.status "in_progress")) t (err TeamError.not_in_progress) _
      (err-SameId t _)
      (if-SameId (not (task_ready state t.blocked_by)) t (err TeamError.task_is_blocked)
        (ok (record t { status = "completed" })) (err-SameId t _) (ok-SameId t _ refl))
edit_by-SameId reopen lib ctx state fields t =
    if-SameId _ t _ _ (err-SameId t _) (ok-SameId t _ refl)
edit_by-SameId reassign lib ctx state fields t = if-SameId _ t _ _ (err-SameId t _) (
    if-SameId _ t _ _ (ok-SameId t _ refl)
      (if-SameId _ t _ _ (member (lookup _ state.members)) (ok-SameId t _ refl)))
  where
    member : (m : Option TeamMemberRecord) → SameId t (assign t m)
    member none = err-SameId t _
    member (some m) = ok-SameId t _ refl
edit_by-SameId delete lib ctx state fields t =
    if-SameId _ t _ _ (err-SameId t _) (ok-SameId t _ refl)
edit_by-SameId unsupported lib ctx state fields t = err-SameId t _

-- What an accepted update is: the task it found, edited, with the next revision, on a valid graph.
pub update_task-ok :
    (lib : Lib) (ctx : Context) (state : TeamFoldState) (id : String) (expected_rev : ℤ)
    (action : Action) (fields : Fields) (next : TeamTaskRecord)
    → update_task lib ctx state id expected_rev action fields ≡ ok next
    → (current : TeamTaskRecord) × ((lookup id state.tasks ≡ some current)
        × (current.revision ≡ expected_rev)
        × (next.id ≡ current.id)
        × (next.revision ≡ current.revision +ℤ pos 1)
        × (validate_task_graph state.tasks next ≡ ok tt))
unfolding update_task SameId
update_task-ok lib ctx state id expected_rev action fields next h =
    elim (Option-cases (lookup id state.tasks)) [
      | inl absent ↦ let refused = rw absent at h in cc
      | inr (current, found) ↦ (current, by_revision current found (rw found at h))
    ]
  where
    by_revision :
        (current : TeamTaskRecord)
        → lookup id state.tasks ≡ some current
        → update_found lib ctx state expected_rev action fields (some current) ≡ ok next
        → (lookup id state.tasks ≡ some current)
          × (current.revision ≡ expected_rev)
          × (next.id ≡ current.id)
          × (next.revision ≡ current.revision +ℤ pos 1)
          × (validate_task_graph state.tasks next ≡ ok tt)
    by_revision current found k = elim (Bool-cases (current.revision =ℤ expected_rev)) [
      | inr stale ↦ let refused = rw stale at k in cc
      | inl fresh ↦
          let (edited, edit_ok, rest) =
            >>=-eq-ok (edit_by action lib ctx state fields current) _ (rw fresh at k) in
          let numbered : TeamTaskRecord = record edited { revision = current.revision +ℤ pos 1 } in
          let (u, graph, last) = >>=-eq-ok (validate_task_graph state.tasks numbered) _ rest in
          let same : numbered ≡ next = ok-injective last in
          (
            found,
            (=ℤ_iff current.revision expected_rev).0 fresh,
            ap (λ r. r.id) (sym same)
                ∙ edit_by-SameId action lib ctx state fields current edited edit_ok,
            ap (λ r. r.revision) (sym same),
            subst (λ r. validate_task_graph state.tasks r ≡ ok tt) same graph,
          )
    ]
