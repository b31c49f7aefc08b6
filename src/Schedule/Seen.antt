-- ===== src/Schedule/Seen.antt =====
-- backend/pkg/tools/schedule.go: an active schedule stands under its own id, which is one that was seen.
use deep_seek_harness_x.Prelude.{
  String, Bool, true, not, ◌||◌, ◌≡◌, refl, ap, sym, ◌∙◌, subst, List, [], ◌∷◌, Option, none, some,
  some-injective, inl, inr, Bool-cases, Option-cases, str_eq, eq_iff, if◌then◌else◌, Map, lookup,
  insert, delete, lookup-insert, lookup-delete, ok, err, >>=-eq-ok, ok-injective,
}
use deep_seek_harness_x.Prelude.Int.{ℤ}
use deep_seek_harness_x.Schedule.{
  Lib, ScheduleRecord, SessionScheduleRecord, ScheduleChange, create, delete_id, dispatch,
  unknown_operation, corrupt, other_event, id_reused, FoldState, is_seen, create_in, dispatch_in,
  advance, apply_change, fold_changes, no_schedules, decode_schedule_record, occurrence, or_error,
  rates, bad_instant, bad_accepted_at,
}
use deep_seek_harness_x.Schedule.Occurrence.{next_occurrence}

-- Each active record stands under its id, and its id was seen.
unfoldable pub IsTracked : FoldState → Type 0
IsTracked s =
    (id : String) (rec : SessionScheduleRecord)
    → lookup id s.active ≡ some rec
    → (rec.id ≡ id) × (is_seen (lookup id s.seen) ≡ true)

-- The ids that were seen stay seen.
unfoldable pub KeepsSeen : FoldState → FoldState → Type 0
KeepsSeen before after =
    (id : String) → is_seen (lookup id before.seen) ≡ true → is_seen (lookup id after.seen) ≡ true

unfoldable pub IsStep : FoldState → FoldState → Type 0
IsStep before after = IsTracked after × KeepsSeen before after

-- An entry is dropped.
delete-IsStep :
    (s : FoldState) (id : String)
    → IsTracked s
    → IsStep s (record s { active = delete id s.active })
unfolding IsStep IsTracked KeepsSeen
delete-IsStep s id tracked = (
  (λ j rec at. elim (Bool-cases (str_eq id j)) [
    | inl gone ↦ let found = rw (lookup-delete id j s.active, gone) at at in cc
    | inr kept ↦ tracked j rec (rw (lookup-delete id j s.active, kept) at at)
  ]),
  λ j h. h,
)

-- An entry is written under its own id, which is seen afterwards.
insert-IsStep :
    (s next : FoldState) (rec : SessionScheduleRecord)
    → IsTracked s
    → next.active ≡ insert rec.id rec s.active
    → is_seen (lookup rec.id next.seen) ≡ true
    → KeepsSeen s next
    → IsStep s next
unfolding IsStep IsTracked KeepsSeen
insert-IsStep s next rec tracked active seen keeps = (
  (λ j found at.
      let read : (if str_eq rec.id j then some rec else lookup j s.active) ≡ some found =
        sym (lookup-insert rec.id j rec s.active) ∙ ap (lookup j) (sym active) ∙ at in
      elim (Bool-cases (str_eq rec.id j)) [
        | inl here ↦
            let same = some-injective (rw here at read) in
            let id_is = (eq_iff rec.id j).0 here in
            (
              ap (λ r. r.id) (sym same) ∙ id_is,
              subst (λ k. is_seen (lookup k next.seen) ≡ true) id_is seen,
            )
        | inr there ↦ let old = tracked j found (rw there at read) in (old.0, keeps j old.1)
      ]),
  keeps,
)

keep-IsStep : (s : FoldState) → IsTracked s → IsStep s s
unfolding IsStep KeepsSeen
keep-IsStep s tracked = (tracked, λ j h. h)

-- Decoding keeps the id.
decode-id :
    (lib : Lib) (p : ScheduleRecord) (rec : SessionScheduleRecord)
    → decode_schedule_record lib p ≡ ok rec
    → rec.id ≡ p.id
unfolding decode_schedule_record
decode-id lib p rec h = elim (Bool-cases (str_eq p.id "" || not (str_eq (lib.trim p.id) p.id))) [
  | inl bad ↦ let absurd = rw bad at h in cc
  | inr good ↦ elim (Bool-cases (str_eq p.prompt "" || not (str_eq (lib.trim p.prompt) p.prompt))) [
    | inl bad ↦ let absurd = rw (good, bad) at h in cc
    | inr fine ↦
        let (r, rated, then_) = >>=-eq-ok (rates p) _ (rw (good, fine) at h) in
        let (at, parsed, made) =
          >>=-eq-ok (or_error bad_instant (lib.parse_canonical_instant p.scheduled_at)) _ then_ in
        sym (ap (λ x. x.id) (ok-injective made))
  ]
]

seen-insert :
    (id j : String) (seen : Map Bool)
    → is_seen (lookup j seen) ≡ true
    → is_seen (lookup j (insert id true seen)) ≡ true
seen-insert id j seen h = elim (Bool-cases (str_eq id j)) [
  | inl here ↦ rw (lookup-insert id j true seen, here) refl
  | inr there ↦ rw (lookup-insert id j true seen, there) h
]

seen-here : (id : String) (seen : Map Bool) → is_seen (lookup id (insert id true seen)) ≡ true
seen-here id seen = rw (lookup-insert id id true seen, (eq_iff id id).1 refl) refl

module _ (lib : Lib) where
  -- A create that succeeds leaves its id seen.
  create-IsStep :
      (s next : FoldState) (p : ScheduleRecord)
      → IsTracked s
      → create_in lib s (some p) ≡ ok next
      → IsStep s next × (is_seen (lookup p.id next.seen) ≡ true)
  unfolding KeepsSeen
  create-IsStep s next p tracked h = elim (Bool-cases (is_seen (lookup p.id s.seen))) [
    | inl old ↦ let absurd = rw old at h in cc
    | inr new ↦
        let (rec, decoded, made) = >>=-eq-ok (decode_schedule_record lib p) _ (rw new at h) in
        let written = ok-injective made in
        let seen_is = ap (λ t. t.seen) written in
        let here : is_seen (lookup rec.id next.seen) ≡ true =
          subst (λ m. is_seen (lookup rec.id m) ≡ true) seen_is (seen-here rec.id s.seen) in
        (
          insert-IsStep s next rec tracked (sym (ap (λ t. t.active) written)) here (λ j was.
              subst (λ m. is_seen (lookup j m) ≡ true) seen_is (seen-insert rec.id j s.seen was)),
          subst (λ k. is_seen (lookup k next.seen) ≡ true) (decode-id lib p rec decoded) here,
        )
  ]

  advance-IsStep :
      (s : FoldState) (id : String) (rec : SessionScheduleRecord) (at : Option ℤ)
      → IsTracked s
      → lookup id s.active ≡ some rec
      → IsStep s (advance s id rec at)
  unfolding IsTracked KeepsSeen
  advance-IsStep s id rec none tracked found = delete-IsStep s id tracked
  advance-IsStep s id rec (some next) tracked found =
      let (own, seen) = tracked id rec found in
      insert-IsStep s (advance s id rec (some next)) (record rec { scheduled_at = next }) tracked
        (ap (λ k. insert k (record rec { scheduled_at = next }) s.active) (sym own))
        (subst (λ k. is_seen (lookup k s.seen) ≡ true) (sym own) seen) (λ j h. h)

  dispatch-IsStep :
      (s next : FoldState) (id accepted_at : String)
      → IsTracked s
      → dispatch_in lib s id accepted_at (lookup id s.active) ≡ ok next
      → IsStep s next
  dispatch-IsStep s next id accepted_at tracked h = elim (Option-cases (lookup id s.active)) [
    | inl gone ↦ let absurd = rw gone at h in cc
    | inr (rec, found) ↦ elim (Bool-cases (not (str_eq rec.kind "every"))) [
      | inl once ↦
          subst (IsStep s) (ok-injective (rw (found, once) at h)) (delete-IsStep s id tracked)
      | inr every ↦
          let (at, parsed, rest) =
            >>=-eq-ok (or_error bad_accepted_at (lib.parse_accepted_at accepted_at)) _
              (rw (found, every) at h) in
          let (target, computed, made) =
            >>=-eq-ok (occurrence (next_occurrence rec.scheduled_at rec.every_seconds at)) _ rest in
          subst (IsStep s) (ok-injective made) (advance-IsStep s id rec target tracked found)
    ]
  ]

  pub apply_change-IsStep :
      (s next : FoldState) (c : ScheduleChange)
      → IsTracked s
      → apply_change lib s c ≡ ok next
      → IsStep s next
  unfolding apply_change
  apply_change-IsStep s next (create none) tracked h = cc
  apply_change-IsStep s next (create (some p)) tracked h = (create-IsStep s next p tracked h).0
  apply_change-IsStep s next (delete_id id) tracked h = elim (Option-cases (lookup id s.active)) [
    | inl gone ↦ let absurd = rw gone at h in cc
    | inr (rec, found) ↦
        subst (IsStep s) (ok-injective (rw found at h)) (delete-IsStep s id tracked)
  ]
  apply_change-IsStep s next (dispatch id accepted_at) tracked h =
      dispatch-IsStep s next id accepted_at tracked h
  apply_change-IsStep s next unknown_operation tracked h = cc
  apply_change-IsStep s next corrupt tracked h = cc
  apply_change-IsStep s next other_event tracked h =
      subst (IsStep s) (ok-injective h) (keep-IsStep s tracked)

  pub fold_changes-IsStep :
      (s last : FoldState) (changes : List ScheduleChange)
      → IsTracked s
      → fold_changes lib s changes ≡ ok last
      → IsStep s last
  unfolding fold_changes IsStep KeepsSeen
  fold_changes-IsStep s last [] tracked h =
      subst (IsStep s) (ok-injective h) (keep-IsStep s tracked)
  fold_changes-IsStep s last (c ∷ changes) tracked h =
      let (next, first, rest) = >>=-eq-ok (apply_change lib s c) _ h in
      let step = apply_change-IsStep s next c tracked first in
      let more = fold_changes-IsStep next last changes step.0 rest in
      (more.0, λ j was. more.1 j (step.1 j was))

-- Where each active record stands under its own seen id, an id that a log creates is never created again: after
-- any further changes that the fold accepts, a create under the same id fails as a reuse, deleted in between or not.
pub fold_changes-once :
    (lib : Lib) (s last : FoldState) (p q : ScheduleRecord) (changes rest : List ScheduleChange)
    → IsTracked s
    → fold_changes lib s (create (some p) ∷ changes) ≡ ok last
    → q.id ≡ p.id
    → fold_changes lib last (create (some q) ∷ rest) ≡ err id_reused
unfolding fold_changes apply_change IsStep KeepsSeen
fold_changes-once lib s last p q changes rest tracked h same =
    let (next, first, later) = >>=-eq-ok (create_in lib s (some p)) _ h in
    let (step, here) = create-IsStep lib s next p tracked first in
    let more = fold_changes-IsStep lib next last changes step.0 later in
    let used : is_seen (lookup q.id last.seen) ≡ true =
      subst (λ k. is_seen (lookup k last.seen) ≡ true) (sym same) (more.1 p.id here) in
    rw used refl

pub no_schedules-IsTracked : IsTracked no_schedules
unfolding IsTracked lookup
no_schedules-IsTracked id rec at = cc
