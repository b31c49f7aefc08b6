-- ===== src/Examples/Schedule.antt =====
-- The examples of the schedules.
use deep_seek_harness_x.Prelude.{
  String, ◌*◌, ◌≡◌, refl, List, [], ◌∷◌, none, some, true, lookup, insert, delete, ok, err, arith,
}
use deep_seek_harness_x.Prelude.Int.{ℤ, pos, ◌+ℤ◌, ◌-ℤ◌}
use deep_seek_harness_x.Schedule.{
  Lib, ScheduleRecord, create, dispatch, delete_id, id_reused, FoldState, SessionScheduleRecord,
  no_schedules, fold_changes, apply_change, decode_schedule_record,
}
use deep_seek_harness_x.Schedule.Seen.{fold_changes-once, no_schedules-IsTracked}
use deep_seek_harness_x.Schedule.Due.{decide_due}
use deep_seek_harness_x.Schedule.Due.Choice.{IsChoice, decide_due-IsChoice}
use deep_seek_harness_x.Schedule.Dispatch.{IsSettled, IsInRange, dispatch-settles}
use deep_seek_harness_x.Schedule.Occurrence.{nanoseconds, next_occurrence, within_years}
use deep_seek_harness_x.Schedule.Occurrence.Future.{IsNext, next_occurrence-IsNext}

next_occurrence-IsNext_example :
    (next : ℤ) × (next_occurrence (pos 0) 300 (pos 301000000000) ≡ ok (within_years next))
    × IsNext (pos 0) (300 * nanoseconds) (pos 301000000000) next
unfolding ◌-ℤ◌ ◌+ℤ◌
next_occurrence-IsNext_example =
    next_occurrence-IsNext (pos 0) (pos 301000000000) 300 (omega arith) (ground arith)

-- Instants are not read.
abbrev lib : Lib
lib = record {
  trim = λ s. s;
  parse_canonical_instant = λ s. some (pos 0);
  parse_accepted_at = λ s. some (pos 0);
}

abbrev reminder : String → ScheduleRecord
reminder prompt = record {
  id = "schedule-1";
  kind = "after";
  prompt = prompt;
  scheduled_at = "";
  after_seconds = some (pos 5);
  every_seconds = none;
}

abbrev left_over : FoldState
left_over = record { active = []; seen = insert "schedule-1" true [] }

fold_changes-once_example :
    fold_changes lib left_over (create (some (reminder "again")) ∷ []) ≡ err id_reused
unfolding fold_changes apply_change decode_schedule_record lookup insert delete
fold_changes-once_example =
    fold_changes-once lib no_schedules left_over (reminder "once") (reminder "again")
      (delete_id "schedule-1" ∷ []) [] no_schedules-IsTracked refl refl

abbrev scheduled : String → ℤ → SessionScheduleRecord
scheduled kind at = record {
  id = "schedule-1";
  kind = kind;
  prompt = "once";
  scheduled_at = at;
  after_seconds = pos 0;
  every_seconds = 300;
}

abbrev three : List SessionScheduleRecord
three = scheduled "every" (pos 1) ∷ scheduled "at" (pos 3) ∷ scheduled "after" (pos 2) ∷ []

decide_due-IsChoice_example : IsChoice three (pos 5) (decide_due three (pos 5))
decide_due-IsChoice_example = decide_due-IsChoice three (pos 5)

abbrev ruled : FoldState
ruled = record {
  active = insert "schedule-1" (scheduled "every" (pos 1)) [];
  seen = insert "schedule-1" true [];
}

ruled-IsInRange : IsInRange (scheduled "every" (pos 1)) (pos 0)
unfolding IsInRange ◌-ℤ◌
ruled-IsInRange = (omega arith, ground arith)

dispatch-settles_example :
    (next : FoldState) × (apply_change lib ruled (dispatch "schedule-1" "") ≡ ok next)
    × IsSettled (pos 0) (lookup "schedule-1" next.active)
unfolding lookup insert
dispatch-settles_example =
    dispatch-settles lib ruled "schedule-1" "" (scheduled "every" (pos 1)) (pos 0) refl refl
      (λ every. ruled-IsInRange)
