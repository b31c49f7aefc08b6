-- ===== src/Schedule/Due/Choice.antt =====
-- backend/pkg/tools/schedule_runtime.go: what decideDue chooses among the active schedules.
use mathlib.Core.List.{Memᴰ, append-nil, append_assoc}
use deep_seek_harness_x.Prelude.{
  Bool, true, false, not, ◌&&◌, ◌≡◌, refl, ap, sym, ◌∙◌, subst, inl, inr, List, [], ◌∷◌, ◌++◌,
  Option, none, some, Bool-cases, str_eq, if◌then◌else◌, arith,
}
use deep_seek_harness_x.Prelude.Int.{ℤ, ltb_ℤ, ◌≤ℤ◌, ◌<ℤ◌}
use deep_seek_harness_x.Schedule.{SessionScheduleRecord}
use deep_seek_harness_x.Schedule.Due.{
  DueDecision, one_shot, every, wait, Due, earlier, note, scan, sooner, next_target, unless_due,
  decide_due,
}
use deep_seek_harness_x.Schedule.Due.Least.{least, least-none, least-some, least-le}

abbrev is_due : ℤ → SessionScheduleRecord → Bool
is_due now r = not (ltb_ℤ now r.scheduled_at)

abbrev is_rule : SessionScheduleRecord → Bool
is_rule r = str_eq r.kind "every"

unfoldable pub is_shot : ℤ → SessionScheduleRecord → Bool
is_shot now r = is_due now r && not (is_rule r)

unfoldable is_future : ℤ → SessionScheduleRecord → Bool
is_future now r = ltb_ℤ now r.scheduled_at

unfoldable pub due_rules : ℤ → List SessionScheduleRecord → List SessionScheduleRecord
due_rules now [] = []
due_rules now (r ∷ active) =
    let rest = due_rules now active in if is_due now r && is_rule r then r ∷ rest else rest

module _ (now : ℤ) where
  scan-one_shot :
      (due : Due) (active : List SessionScheduleRecord)
      → (scan now due active).one_shot ≡ least (is_shot now) due.one_shot active
  unfolding scan least is_shot
  scan-one_shot due [] = refl
  scan-one_shot due (r ∷ active) = elim (Bool-cases (ltb_ℤ now r.scheduled_at)) [
    | inl later ↦ scan-one_shot (note now due r) active ∙ rw later refl
    | inr reached ↦ elim (Bool-cases (str_eq r.kind "every")) [
      | inl rule ↦ scan-one_shot (note now due r) active ∙ rw (reached, rule) refl
      | inr shot ↦ scan-one_shot (note now due r) active ∙ rw (reached, shot) refl
    ]
  ]

  scan-every :
      (due : Due) (active : List SessionScheduleRecord)
      → (scan now due active).every ≡ due.every ++ due_rules now active
  unfolding scan due_rules
  scan-every due [] = sym (append-nil due.every)
  scan-every due (r ∷ active) = elim (Bool-cases (ltb_ℤ now r.scheduled_at)) [
    | inl later ↦ scan-every (note now due r) active ∙ rw later refl
    | inr reached ↦ elim (Bool-cases (str_eq r.kind "every")) [
      | inl rule ↦
          scan-every (note now due r) active
          ∙ rw (reached, rule) (append_assoc due.every (r ∷ []) (due_rules now active))
      | inr shot ↦ scan-every (note now due r) active ∙ rw (reached, shot) refl
    ]
  ]

  abbrev at_of : Option SessionScheduleRecord → Option ℤ
  at_of none = none
  at_of (some r) = some r.scheduled_at

  sooner-at_of :
      (best : Option SessionScheduleRecord) (r : SessionScheduleRecord)
      → sooner (at_of best) r.scheduled_at ≡ at_of (earlier best r)
  sooner-at_of none r = refl
  sooner-at_of (some b) r = elim (Bool-cases (ltb_ℤ r.scheduled_at b.scheduled_at)) [
    | inl before ↦ rw before refl
    | inr behind ↦ rw behind refl
  ]

  next_target-least :
      (best : Option SessionScheduleRecord) (active : List SessionScheduleRecord)
      → next_target now (at_of best) active ≡ at_of (least (is_future now) best active)
  unfolding next_target least is_future
  next_target-least best [] = refl
  next_target-least best (r ∷ active) = elim (Bool-cases (ltb_ℤ now r.scheduled_at)) [
    | inl later ↦ rw (later, sooner-at_of best r) (next_target-least (earlier best r) active)
    | inr reached ↦ rw reached (next_target-least best active)
  ]

  due_rules-nil :
      (active : List SessionScheduleRecord)
      → due_rules now active ≡ []
      → (r : SessionScheduleRecord) → Memᴰ r active
      → (is_due now r && is_rule r) ≡ false
  unfolding due_rules
  due_rules-nil [] h r m = elim m [ ]
  due_rules-nil (x ∷ active) h r m = elim (Bool-cases (is_due now x && is_rule x)) [
    | inl due ↦ let absurd_ = rw due at h in cc
    | inr other ↦ elim m [
      | Memᴰ.head same ↦ ap (λ y. is_due now y && is_rule y) same ∙ other
      | Memᴰ.tail rest ↦ due_rules-nil active (rw other at h) r rest
    ]
  ]

  -- What is neither a due rule nor a due one-shot lies ahead.
  all-is_future :
      (r : SessionScheduleRecord)
      → is_shot now r ≡ false
      → (is_due now r && is_rule r) ≡ false
      → is_future now r ≡ true
  unfolding is_shot is_future
  all-is_future r shot rule = elim (Bool-cases (ltb_ℤ now r.scheduled_at)) [
    | inl later ↦ later
    | inr reached ↦ elim (Bool-cases (str_eq r.kind "every")) [
      | inl every_kind ↦ let differ = rw (reached, every_kind) at rule in cc
      | inr other_kind ↦ let differ = rw (reached, other_kind) at shot in cc
    ]
  ]

-- The decision, by its kind: an earliest due one-shot; the due rules where no one-shot is due; or the earliest
-- instant where nothing is due, none only without schedules.
unfoldable pub IsChoice : List SessionScheduleRecord → ℤ → DueDecision → Type 0
IsChoice active now (one_shot rec) =
    Memᴰ rec active
    × (is_shot now rec ≡ true)
    × ((r : SessionScheduleRecord)
        → Memᴰ r active
        → is_shot now r ≡ true
        → rec.scheduled_at ≤ℤ r.scheduled_at)
IsChoice active now (every rules accepted_at) =
    (accepted_at ≡ now)
    × (rules ≡ due_rules now active)
    × ((r : SessionScheduleRecord) → Memᴰ r active → is_shot now r ≡ false)
IsChoice active now (wait none) = active ≡ []
IsChoice active now (wait (some target)) =
    ((r : SessionScheduleRecord)
      → Memᴰ r active
      → (now <ℤ r.scheduled_at) × (target ≤ℤ r.scheduled_at))
    × ((r : SessionScheduleRecord) × Memᴰ r active × (r.scheduled_at ≡ target))

no_member :
    (active : List SessionScheduleRecord)
    → ((r : SessionScheduleRecord) → Memᴰ r active → true ≡ false)
    → active ≡ []
no_member [] h = refl
no_member (x ∷ active) h = let differ = h x (Memᴰ.head refl) in cc

module _ (active : List SessionScheduleRecord) (now : ℤ) where
  wait-IsChoice :
      (found : Option SessionScheduleRecord)
      → least (is_future now) none active ≡ found
      → ((r : SessionScheduleRecord) → Memᴰ r active → is_future now r ≡ true)
      → IsChoice active now (wait (at_of now found))
  unfolding IsChoice is_future
  wait-IsChoice none chosen ahead =
      let (start, others) = least-none (is_future now) none active chosen in
      no_member active (λ r m. sym (ahead r m) ∙ others r m)
  wait-IsChoice (some target) chosen ahead = (
    (λ r m.
        let later : ltb_ℤ now r.scheduled_at ≡ true = ahead r m in
        (ground (arith, later), (least-le (is_future now) none active target chosen).1 r m later)),
    elim (least-some (is_future now) none active target chosen) [
      | inl before ↦ cc
      | inr (m, later) ↦ (target, m, refl)
    ],
  )

  unless_due-IsChoice :
      (shot : Option SessionScheduleRecord) (rules : List SessionScheduleRecord)
      → least (is_shot now) none active ≡ shot
      → due_rules now active ≡ rules
      → IsChoice active now (unless_due now active shot rules)
  unfolding IsChoice
  unless_due-IsChoice (some rec) rules chosen due =
      elim (least-some (is_shot now) none active rec chosen) [
        | inl before ↦ cc
        | inr (m, shot) ↦ (m, shot, (least-le (is_shot now) none active rec chosen).1)
      ]
  unless_due-IsChoice none (x ∷ rules) chosen due =
      (refl, sym due, (least-none (is_shot now) none active chosen).1)
  unless_due-IsChoice none [] chosen due =
      let shots = (least-none (is_shot now) none active chosen).1 in
      subst (λ t. IsChoice active now (wait t)) (sym (next_target-least now none active))
        (wait-IsChoice (least (is_future now) none active) refl
          (λ r m. all-is_future now r (shots r m) (due_rules-nil now active due r m)))

-- decideDue picks an earliest one of the due one-shots; the batch of the due rules, in their order and with the time
-- of the decision, only where no one-shot is due; and the earliest scheduled instant, which lies ahead, only where
-- nothing is due. It waits without a target only where there is no schedule.
pub decide_due-IsChoice :
    (active : List SessionScheduleRecord) (now : ℤ) → IsChoice active now (decide_due active now)
unfolding decide_due
decide_due-IsChoice active now =
    let start : Due = record { one_shot = none; every = [] } in
    unless_due-IsChoice active now (scan now start active).one_shot (scan now start active).every
      (sym (scan-one_shot now start active)) (sym (scan-every now start active))
