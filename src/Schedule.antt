-- ===== src/Schedule.antt =====
-- backend/pkg/tools/schedule.go: the replay of schedule changes, over the arithmetic of Schedule/Occurrence.
-- strings.TrimSpace and the parsing of the two forms of an instant are the fields of `Lib`; an instant is in
-- nanoseconds since the year 1. An event comes decoded: `corrupt` is a payload that does not decode.
-- The seed length is a natural number: the check of a negative one is left out.
use deep_seek_harness_x.Prelude.{
  String, ℕ, suc, ltb, Bool, true, false, not, ◌||◌, List, [], ◌∷◌, length, drop, Option, none,
  some, str_eq, if◌then◌else◌, Map, lookup, insert, delete, Result, ok, err, ◌>>=◌,
}
use deep_seek_harness_x.Prelude.Int.{ℤ, pos, negsuc, leb_ℤ, ltb_ℤ}
use deep_seek_harness_x.Schedule.Occurrence.{next_occurrence, Panic}
pub mod Occurrence
pub mod Dispatch
pub mod Due
pub mod Seen

abbrev pub min_every_interval_seconds : ℕ
min_every_interval_seconds = 300

pub record Lib : Type 0 where
  pub trim : String → String
  pub parse_canonical_instant : String → Option ℤ
  pub parse_accepted_at : String → Option ℤ

-- The durable record, `none` for a nil pointer, and the record in memory.
pub record ScheduleRecord : Type 0 where
  pub id : String
  pub kind : String
  pub prompt : String
  pub scheduled_at : String
  pub after_seconds : Option ℤ
  pub every_seconds : Option ℤ

pub record SessionScheduleRecord : Type 0 where
  pub id : String
  pub kind : String
  pub prompt : String
  pub scheduled_at : ℤ
  pub after_seconds : ℤ
  pub every_seconds : ℕ

pub data ScheduleChange : Type 0 where
  create : Option ScheduleRecord → ScheduleChange
  delete_id : String → ScheduleChange
  dispatch : String → String → ScheduleChange
  unknown_operation : ScheduleChange
  corrupt : ScheduleChange
  other_event : ScheduleChange

pub data ScheduleError : Type 0 where
  bad_seed_length corrupt_payload no_schedule id_reused bad_id bad_prompt : ScheduleError
  bad_after bad_every bad_kind bad_instant inactive_id bad_accepted_at bad_operation : ScheduleError
  panicked : Panic → ScheduleError

abbrev pub or_error : ScheduleError → Option ℤ → Result ScheduleError ℤ
or_error e none = err e
or_error e (some at) = ok at

abbrev pub after_of : Option ℤ → Result ScheduleError (ℤ × ℕ)
after_of none = err bad_after
after_of (some n) = if leb_ℤ n (pos 0) then err bad_after else ok (n, 0)

abbrev pub natural : ℤ → ℕ
natural (pos n) = n
natural (negsuc n) = 0

abbrev pub every_of : Option ℤ → Result ScheduleError (ℤ × ℕ)
every_of none = err bad_every
every_of (some n) =
    if ltb_ℤ n (pos min_every_interval_seconds) then err bad_every else ok (pos 0, natural n)

-- The switch on the kind: the two rates of the record.
abbrev pub rates : ScheduleRecord → Result ScheduleError (ℤ × ℕ)
rates p =
    if str_eq p.kind "after"
    then after_of p.after_seconds
    else if str_eq p.kind "at"
    then ok (pos 0, 0)
    else if str_eq p.kind "every"
    then every_of p.every_seconds
    else err bad_kind

unfoldable pub decode_schedule_record :
    Lib → ScheduleRecord → Result ScheduleError SessionScheduleRecord
decode_schedule_record lib p =
    if str_eq p.id "" || not (str_eq (lib.trim p.id) p.id)
    then err bad_id
    else if str_eq p.prompt "" || not (str_eq (lib.trim p.prompt) p.prompt)
    then err bad_prompt
    else rates p >>= λ r.
        or_error bad_instant (lib.parse_canonical_instant p.scheduled_at) >>= λ at. ok (record {
          id = p.id;
          kind = p.kind;
          prompt = p.prompt;
          scheduled_at = at;
          after_seconds = r.0;
          every_seconds = r.1;
        })

-- The two maps of the fold.
pub record FoldState : Type 0 where
  pub active : Map SessionScheduleRecord
  pub seen : Map Bool

abbrev pub is_seen : Option Bool → Bool
is_seen none = false
is_seen (some b) = b

abbrev pub create_in : Lib → FoldState → Option ScheduleRecord → Result ScheduleError FoldState
create_in lib s none = err no_schedule
create_in lib s (some p) =
    if is_seen (lookup p.id s.seen)
    then err id_reused
    else decode_schedule_record lib p >>= λ rec.
        ok (record { active = insert rec.id rec s.active; seen = insert rec.id true s.seen })

abbrev pub delete_in :
    FoldState → String → Option SessionScheduleRecord → Result ScheduleError FoldState
delete_in s id none = err inactive_id
delete_in s id (some rec) = ok (record s { active = delete id s.active })

abbrev pub advance : FoldState → String → SessionScheduleRecord → Option ℤ → FoldState
advance s id rec none = record s { active = delete id s.active }
advance s id rec (some next) = record s {
  active = insert id (record rec { scheduled_at = next }) s.active;
}

abbrev pub occurrence : Result Panic (Option ℤ) → Result ScheduleError (Option ℤ)
occurrence (ok next) = ok next
occurrence (err p) = err (panicked p)

abbrev pub dispatch_in :
    Lib
    → FoldState
    → String
    → String
    → Option SessionScheduleRecord
    → Result ScheduleError FoldState
dispatch_in lib s id accepted_at none = err inactive_id
dispatch_in lib s id accepted_at (some rec) =
    if not (str_eq rec.kind "every")
    then ok (record s { active = delete id s.active })
    else or_error bad_accepted_at (lib.parse_accepted_at accepted_at) >>= λ at.
        occurrence (next_occurrence rec.scheduled_at rec.every_seconds at) >>= λ next.
        ok (advance s id rec next)

unfoldable pub apply_change : Lib → FoldState → ScheduleChange → Result ScheduleError FoldState
apply_change lib s (create p) = create_in lib s p
apply_change lib s (delete_id id) = delete_in s id (lookup id s.active)
apply_change lib s (dispatch id accepted_at) = dispatch_in lib s id accepted_at (lookup id s.active)
apply_change lib s unknown_operation = err bad_operation
apply_change lib s corrupt = err corrupt_payload
apply_change lib s other_event = ok s

unfoldable pub fold_changes : Lib → FoldState → List ScheduleChange → Result ScheduleError FoldState
unfolding apply_change
fold_changes lib s [] = ok s
fold_changes lib s (c ∷ changes) = apply_change lib s c >>= λ next. fold_changes lib next changes

abbrev pub no_schedules : FoldState
no_schedules = record { active = []; seen = [] }

-- foldScheduleEvents up to its two maps; the active records are then listed by their sorted ids.
unfoldable pub fold_schedule_events : Lib → List ScheduleChange → ℕ → Result ScheduleError FoldState
fold_schedule_events lib events seed_length =
    if ltb (length events) seed_length
    then err bad_seed_length
    else fold_changes lib no_schedules (drop seed_length events)
