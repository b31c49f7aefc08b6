-- ===== src/Schedule/Due.antt =====
-- backend/pkg/tools/schedule_runtime.go: decideDue. An instant is in nanoseconds since the year 1.
use deep_seek_harness_x.Prelude.{
  Bool, true, false, not, ◌&&◌, List, [], ◌∷◌, ◌++◌, Option, none, some, str_eq, if◌then◌else◌,
}
use deep_seek_harness_x.Prelude.Int.{ℤ, ltb_ℤ}
use deep_seek_harness_x.Schedule.{SessionScheduleRecord}
pub mod Choice
pub mod Least

-- The decision with the fields that its kind fills.
pub data DueDecision : Type 0 where
  one_shot : SessionScheduleRecord → DueDecision
  every : List SessionScheduleRecord → ℤ → DueDecision
  wait : Option ℤ → DueDecision

-- The variables of the first loop.
pub record Due : Type 0 where
  pub one_shot : Option SessionScheduleRecord
  pub every : List SessionScheduleRecord

abbrev pub earlier :
    Option SessionScheduleRecord → SessionScheduleRecord → Option SessionScheduleRecord
earlier none rec = some rec
earlier (some best) rec = if ltb_ℤ rec.scheduled_at best.scheduled_at then some rec else some best

abbrev pub note : ℤ → Due → SessionScheduleRecord → Due
note now due rec =
    if ltb_ℤ now rec.scheduled_at
    then due
    else if str_eq rec.kind "every"
    then record due { every = due.every ++ rec ∷ [] }
    else record due { one_shot = earlier due.one_shot rec }

unfoldable pub scan : ℤ → Due → List SessionScheduleRecord → Due
scan now due [] = due
scan now due (rec ∷ active) = scan now (note now due rec) active

abbrev pub sooner : Option ℤ → ℤ → Option ℤ
sooner none at = some at
sooner (some target) at = if ltb_ℤ at target then some at else some target

-- The second loop.
unfoldable pub next_target : ℤ → Option ℤ → List SessionScheduleRecord → Option ℤ
next_target now target [] = target
next_target now target (rec ∷ active) =
    next_target now (if ltb_ℤ now rec.scheduled_at then sooner target rec.scheduled_at else target)
      active

abbrev pub unless_due :
    ℤ
    → List SessionScheduleRecord
    → Option SessionScheduleRecord
    → List SessionScheduleRecord
    → DueDecision
unless_due now active (some rec) rules = one_shot rec
unless_due now active none (x ∷ rules) = every (x ∷ rules) now
unless_due now active none [] = wait (next_target now none active)

unfoldable pub decide_due : List SessionScheduleRecord → ℤ → DueDecision
decide_due active now =
    let due = scan now (record { one_shot = none; every = [] }) active in
    unless_due now active due.one_shot due.every
