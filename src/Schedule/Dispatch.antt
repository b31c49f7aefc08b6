-- ===== src/Schedule/Dispatch.antt =====
-- backend/pkg/tools/schedule.go: a dispatch settles what was due.
use deep_seek_harness_x.Prelude.{
  String, ◌+◌, ◌*◌, ◌<◌, true, ◌≡◌, refl, Option, none, some, inl, inr, Bool-cases, str_eq, eq_iff,
  lookup, delete, lookup-insert, lookup-delete, ok,
}
use deep_seek_harness_x.Prelude.Int.{ℤ, ◌-ℤ◌, ◌<ℤ◌, leb_ℤ}
use deep_seek_harness_x.Schedule.{
  Lib, SessionScheduleRecord, dispatch, FoldState, advance, apply_change,
}
use deep_seek_harness_x.Schedule.Occurrence.{nanoseconds, abs_ℤ, year_10000, within_years}
use deep_seek_harness_x.Schedule.Occurrence.Future.{IsNext, next_occurrence-IsNext}

-- Nothing, or a schedule that lies after the instant.
unfoldable pub IsSettled : ℤ → Option SessionScheduleRecord → Type 0
IsSettled at none = Unit
IsSettled at (some rec) = at <ℤ rec.scheduled_at

-- The distance of the record's instant and an interval fit a Duration.
unfoldable pub IsInRange : SessionScheduleRecord → ℤ → Type 0
IsInRange rec at =
    (0 < rec.every_seconds)
    × (abs_ℤ (at -ℤ rec.scheduled_at) + rec.every_seconds * nanoseconds < 9223372036854775808)

delete-IsSettled :
    (s : FoldState) (id : String) (at : ℤ)
    → IsSettled at (lookup id (record s { active = delete id s.active }).active)
unfolding IsSettled
delete-IsSettled s id at = rw (lookup-delete id id s.active, (eq_iff id id).1 refl) tt

advance-IsSettled :
    (s : FoldState) (id : String) (rec : SessionScheduleRecord) (at next : ℤ)
    → at <ℤ next
    → IsSettled at (lookup id (advance s id rec (within_years next)).active)
unfolding IsSettled within_years
advance-IsSettled s id rec at next after = elim (Bool-cases (leb_ℤ year_10000 next)) [
  | inl ended ↦ rw ended (delete-IsSettled s id at)
  | inr goes_on ↦
      rw
        (
          goes_on,
          lookup-insert id id (record rec { scheduled_at = next }) s.active,
          (eq_iff id id).1 refl,
        )
        after
]

-- A dispatch of an active schedule, whose accepted time parses and, for a rule, is within the range of a Duration,
-- is accepted by the fold and leaves under its id no schedule that is due at that time.
pub dispatch-settles :
    (lib : Lib) (s : FoldState) (id accepted_at : String) (rec : SessionScheduleRecord) (at : ℤ)
    → lookup id s.active ≡ some rec
    → lib.parse_accepted_at accepted_at ≡ some at
    → (str_eq rec.kind "every" ≡ true → IsInRange rec at)
    → (next : FoldState) × (apply_change lib s (dispatch id accepted_at) ≡ ok next)
      × IsSettled at (lookup id next.active)
unfolding apply_change IsInRange IsNext
dispatch-settles lib s id accepted_at rec at found parsed in_range =
    elim (Bool-cases (str_eq rec.kind "every")) [
      | inl every ↦
          let (positive, fits) = in_range every in
          let (next, computed, ahead) =
            next_occurrence-IsNext rec.scheduled_at at rec.every_seconds positive fits in
          (
            advance s id rec (within_years next),
            rw (found, every, parsed, computed) refl,
            advance-IsSettled s id rec at next ahead.0,
          )
      | inr once ↦ (
        record s { active = delete id s.active },
        rw (found, once) refl,
        delete-IsSettled s id at,
      )
    ]
