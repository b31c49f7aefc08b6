-- ===== src/Team/Board.antt =====
-- backend/pkg/tools/team.go: the fold of a Team log keeps its board well formed.
use deep_seek_harness_x.Prelude.{
  String, ℕ, ◌<◌, not, ◌||◌, ◌≡◌, refl, ap, sym, ◌∙◌, subst, List, [], ◌∷◌, ◌++◌, Option, none,
  some, some-injective, inl, inr, Bool-cases, str_eq, eq_iff, lookup, insert, lookup-insert, Result,
  ◌⊎◌, ok, ◌>>=◌, ◌>>◌, >>=-eq-ok, ok-injective, bind-cong, bind_assoc, arith,
}
use deep_seek_harness_x.Prelude.Int.{ℤ, ◌=ℤ◌}
use deep_seek_harness_x.Team.{
  TeamMemberRecord, TeamTaskRecord, TeamEvent, team_member, team_task, team_message_queued,
  team_message_delivered, undecodable, other_event, TeamFoldState, empty_team_fold_state, TeamError,
}
use deep_seek_harness_x.Team.Graph.{validate_task_graph}
use deep_seek_harness_x.Team.Fold.{
  apply_team_member, member_step, name_taken, apply_team_task, check_revision, bump,
  apply_team_event, fold_from, fold_team_events, team_event_version, guarded,
}

-- Each task stands under its own id, and the ids with a number are below the next one.
unfoldable pub IsBoard : (String → Option ℕ) → String → TeamFoldState → Type 0
IsBoard task_number team_id state =
    (state.id ≡ team_id)
    × ((id : String) (t : TeamTaskRecord) → lookup id state.tasks ≡ some t → t.id ≡ id)
    × ((id : String) (t : TeamTaskRecord) (n : ℕ)
        → lookup id state.tasks ≡ some t
        → task_number id ≡ some n
        → n < state.next_task_id)

pub apply_team_task-ok :
    (task_number : String → Option ℕ) (state next : TeamFoldState) (t : TeamTaskRecord)
    → apply_team_task task_number state t ≡ ok next
    → next ≡ record state {
      next_task_id = bump state.next_task_id (task_number t.id);
      tasks = insert t.id t state.tasks;
    }
unfolding apply_team_task
apply_team_task-ok task_number state next t h =
    let (u, first, rest) =
      >>=-eq-ok (check_revision t (lookup t.id state.tasks) >> validate_task_graph state.tasks t) _
        h in
    sym (ok-injective rest)

bump-le : (next : ℕ) (o : Option ℕ) (n : ℕ) → n < next → n < bump next o
bump-le next none n h = h
bump-le next (some m) n h = ground (arith, h)

bump-lt : (next n : ℕ) → n < bump next (some n)
bump-lt next n = ground arith

apply_team_task-IsBoard :
    (task_number : String → Option ℕ) (team_id : String) (state next : TeamFoldState)
    (t : TeamTaskRecord)
    → IsBoard task_number team_id state
    → apply_team_task task_number state t ≡ ok next
    → IsBoard task_number team_id next
unfolding IsBoard
apply_team_task-IsBoard task_number team_id state next t (same, keyed, numbered) h =
    rw (apply_team_task-ok task_number state next t h) (
      same,
      (λ id x at. elim (Bool-cases (str_eq t.id id)) [
        | inl here ↦
            let found = rw (lookup-insert t.id id t state.tasks, here) at at in
            ap (λ r. r.id) (sym (some-injective found)) ∙ (eq_iff t.id id).0 here
        | inr there ↦ keyed id x (rw (lookup-insert t.id id t state.tasks, there) at at)
      ]),
      λ id x n at number. elim (Bool-cases (str_eq t.id id)) [
        | inl here ↦ rw ((eq_iff t.id id).0 here, number) (bump-lt state.next_task_id n)
        | inr there ↦
            bump-le state.next_task_id (task_number t.id) n
              (numbered id x n (rw (lookup-insert t.id id t state.tasks, there) at at) number)
      ],
    )

IsBoard-cong :
    (task_number : String → Option ℕ) (team_id : String) (state next : TeamFoldState)
    → next.id ≡ state.id
    → next.tasks ≡ state.tasks
    → next.next_task_id ≡ state.next_task_id
    → IsBoard task_number team_id state
    → IsBoard task_number team_id next
unfolding IsBoard
IsBoard-cong task_number team_id state next same_id same_tasks same_next (named, keyed, numbered) =
    (
      same_id ∙ named,
      (λ id t at. keyed id t (sym (ap (lookup id) same_tasks) ∙ at)),
      λ id t n at number.
          rw same_next (numbered id t n (sym (ap (lookup id) same_tasks) ∙ at) number),
    )

-- A member's record leaves the board alone.
apply_team_member-IsBoard :
    (task_number : String → Option ℕ) (team_id : String) (state next : TeamFoldState)
    (m : TeamMemberRecord)
    → IsBoard task_number team_id state
    → apply_team_member state m ≡ ok next
    → IsBoard task_number team_id next
unfolding apply_team_member
apply_team_member-IsBoard task_number team_id state next m board h =
    elim (Bool-cases (name_taken m.id (lookup m.name state.member_names))) [
      | inl taken ↦ let refused = rw taken at h in cc
      | inr new ↦ by_prior (lookup m.id state.members) (rw new at h)
    ]
  where
    unchanged :
        (prior : Option TeamMemberRecord) (last : TeamFoldState)
        → member_step m prior state ≡ ok last
        → (last.id ≡ state.id)
          × (last.tasks ≡ state.tasks)
          × (last.next_task_id ≡ state.next_task_id)
    unchanged none last k = elim (Bool-cases (str_eq m.phase "provisioning")) [
      | inl fresh ↦
          let e = sym (ok-injective (rw fresh at k)) in
          (ap (λ s. s.id) e, ap (λ s. s.tasks) e, ap (λ s. s.next_task_id) e)
      | inr other ↦ let refused = rw other at k in cc
    ]
    unchanged (some prior) last k =
        elim (Bool-cases (
          not (str_eq prior.name m.name)
          || not (str_eq prior.provider m.provider)
          || not (str_eq prior.context m.context))) [
            | inl changed ↦ let refused = rw changed at k in cc
            | inr kept ↦
                elim (Bool-cases
                  (not (str_eq prior.phase "provisioning") || str_eq m.phase "provisioning")) [
                    | inl invalid ↦ let refused = rw (kept, invalid) at k in cc
                    | inr valid ↦
                        let e = sym (ok-injective (rw (kept, valid) at k)) in
                        (ap (λ s. s.id) e, ap (λ s. s.tasks) e, ap (λ s. s.next_task_id) e)
                  ]
          ]

    by_prior :
        (prior : Option TeamMemberRecord)
        → member_step m prior state ≡ ok next
        → IsBoard task_number team_id next
    by_prior prior k =
        let same = unchanged prior next k in
        IsBoard-cong task_number team_id state next same.0 same.1 same.2 board

guarded-ok :
    (version : ℤ) (team : String) (state next : TeamFoldState)
    (applied : Result TeamError TeamFoldState)
    → guarded version team state applied ≡ ok next
    → (next ≡ state) ⊎ (applied ≡ ok next)
guarded-ok version team state next applied h =
    elim (Bool-cases (not (version =ℤ team_event_version) || not (str_eq team state.id))) [
      | inl skipped ↦ inl (sym (ok-injective (rw skipped at h)))
      | inr ours ↦ inr (rw ours at h)
    ]

pub apply_team_event-IsBoard :
    (task_number : String → Option ℕ) (team_id : String) (state next : TeamFoldState)
    (e : TeamEvent)
    → IsBoard task_number team_id state
    → apply_team_event task_number state e ≡ ok next
    → IsBoard task_number team_id next
unfolding apply_team_event
apply_team_event-IsBoard task_number team_id state next (team_member version team m) board h =
    elim (guarded-ok version team state next (apply_team_member state m) h) [
      | inl same ↦ subst (IsBoard task_number team_id) (sym same) board
      | inr applied ↦ apply_team_member-IsBoard task_number team_id state next m board applied
    ]
apply_team_event-IsBoard task_number team_id state next (team_task version team t) board h =
    elim (guarded-ok version team state next (apply_team_task task_number state t) h) [
      | inl same ↦ subst (IsBoard task_number team_id) (sym same) board
      | inr applied ↦ apply_team_task-IsBoard task_number team_id state next t board applied
    ]
apply_team_event-IsBoard task_number team_id state next (team_message_queued version team m) board
      h =
    elim (guarded-ok version team state next _ h) [
      | inl same ↦ subst (IsBoard task_number team_id) (sym same) board
      | inr applied ↦
          let e = sym (ok-injective applied) in
          IsBoard-cong task_number team_id state next (ap (λ s. s.id) e) (ap (λ s. s.tasks) e)
            (ap (λ s. s.next_task_id) e) board
    ]
apply_team_event-IsBoard task_number team_id state next (team_message_delivered version team id)
      board h =
    elim (guarded-ok version team state next _ h) [
      | inl same ↦ subst (IsBoard task_number team_id) (sym same) board
      | inr applied ↦
          let e = sym (ok-injective applied) in
          IsBoard-cong task_number team_id state next (ap (λ s. s.id) e) (ap (λ s. s.tasks) e)
            (ap (λ s. s.next_task_id) e) board
    ]
apply_team_event-IsBoard task_number team_id state next undecodable board h = cc
apply_team_event-IsBoard task_number team_id state next other_event board h =
    subst (IsBoard task_number team_id) (ok-injective h) board

fold_from-IsBoard :
    (task_number : String → Option ℕ) (team_id : String) (state last : TeamFoldState)
    (events : List TeamEvent)
    → IsBoard task_number team_id state
    → fold_from task_number state events ≡ ok last
    → IsBoard task_number team_id last
unfolding fold_from
fold_from-IsBoard task_number team_id state last [] board h =
    subst (IsBoard task_number team_id) (ok-injective h) board
fold_from-IsBoard task_number team_id state last (e ∷ events) board h =
    let (next, first, rest) = >>=-eq-ok (apply_team_event task_number state e) _ h in
    fold_from-IsBoard task_number team_id next last events
      (apply_team_event-IsBoard task_number team_id state next e board first) rest

pub fold_team_events-IsBoard :
    (task_number : String → Option ℕ) (team_id : String) (events : List TeamEvent)
    (state : TeamFoldState)
    → fold_team_events task_number events team_id ≡ ok state
    → IsBoard task_number team_id state
unfolding fold_team_events empty_team_fold_state IsBoard lookup
fold_team_events-IsBoard task_number team_id events state h =
    fold_from-IsBoard task_number team_id (empty_team_fold_state team_id) state events
      (refl, (λ id t at. cc), λ id t n at number. cc) h

pub fold_from-append :
    (task_number : String → Option ℕ) (state : TeamFoldState) (events more : List TeamEvent)
    → fold_from task_number state (events ++ more)
      ≡ (fold_from task_number state events >>= λ last. fold_from task_number last more)
unfolding fold_from
fold_from-append task_number state [] more = refl
fold_from-append task_number state (x ∷ events) more =
    bind-cong (apply_team_event task_number state x)
      (λ next. fold_from task_number next (events ++ more))
      (λ next. fold_from task_number next events >>= λ last. fold_from task_number last more)
      (λ next at. fold_from-append task_number next events more)
    ∙ sym (bind_assoc (apply_team_event task_number state x) _ _)
