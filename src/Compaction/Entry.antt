-- ===== src/Compaction/Entry.antt =====
-- backend/pkg/compaction/compactor.go: the durable lock. inspectCompactionEntryState scans the log
-- backwards; a payload that does not decode leaves the zero value.
pub mod Lock
pub mod Replay
use deep_seek_harness_x.Prelude.{
  String, Bool, true, false, ◌&&◌, not, Option, none, some, List, [], ◌∷◌, reverse, str_eq,
  if◌then◌else◌, Result, ok, err,
}
use deep_seek_harness_x.Prelude.Int.{ℤ, pos, ltb_ℤ}
use deep_seek_harness_x.Session.Events.{SessionEnvelope}
use deep_seek_harness_x.Session.Messages.{Decoder}

abbrev pub event_compaction_start : String
event_compaction_start = "compaction/start"

abbrev pub event_compaction_end : String
event_compaction_end = "compaction/end"

abbrev pub event_turn_start : String
event_turn_start = "turn/start"

abbrev pub event_turn_end : String
event_turn_end = "turn/end"

abbrev pub event_session_end_seed : String
event_session_end_seed = "session/end-seed"

pub record CompactionStart : Type 0 where
  pub seq : ℤ
  pub compaction_id : String

pub record EntryState : Type 0 where
  pub open_turn : Option ℤ
  pub unmatched_compaction_start : Option CompactionStart
  pub latest_end_seed_seq : Option ℤ
  pub compaction_entry_state_known : Bool
  pub open_turn_state_known : Bool

abbrev pub initial_state : EntryState
initial_state = record {
  open_turn = none;
  unmatched_compaction_start = none;
  latest_end_seed_seq = none;
  compaction_entry_state_known = false;
  open_turn_state_known = false;
}

abbrev pub value_or {ℓ} : {A : Type ℓ} → A → Option A → A
value_or z none = z
value_or z (some a) = a

abbrev pub is_known {ℓ} : {A : Type ℓ} → Option A → Bool
is_known none = false
is_known (some a) = true

-- The three tests of one round, in order.
unfoldable pub note_seed : SessionEnvelope → EntryState → EntryState
note_seed e s =
    if not (is_known s.latest_end_seed_seq) && str_eq e.event_type event_session_end_seed
    then record s { latest_end_seed_seq = some e.seq }
    else s

unfoldable pub note_compaction : Decoder → SessionEnvelope → EntryState → EntryState
note_compaction d e s =
    if s.compaction_entry_state_known
    then s
    else if str_eq e.event_type event_compaction_start
    then record s {
      unmatched_compaction_start =
          some
            (record { seq = e.seq; compaction_id = value_or "" (d.compaction_start e.raw_data) });
      compaction_entry_state_known = true;
    }
    else if str_eq e.event_type event_compaction_end
    then record s { compaction_entry_state_known = true }
    else s

unfoldable pub note_turn : Decoder → SessionEnvelope → EntryState → EntryState
note_turn d e s =
    if s.open_turn_state_known
    then s
    else if str_eq e.event_type event_turn_start
    then record s {
      open_turn = some (value_or (pos 0) (d.turn_start e.raw_data));
      open_turn_state_known = true;
    }
    else if str_eq e.event_type event_turn_end
    then record s { open_turn_state_known = true }
    else s

abbrev all_known : EntryState → Bool
all_known s =
    s.open_turn_state_known && s.compaction_entry_state_known && is_known s.latest_end_seed_seq

-- The loop, over the log from its end; it breaks once all is known.
unfoldable pub inspect_back : Decoder → List SessionEnvelope → EntryState → EntryState
unfolding note_seed note_compaction note_turn
inspect_back d [] s = s
inspect_back d (e ∷ es) s =
    let s' = note_turn d e (note_compaction d e (note_seed e s)) in
    let rest = inspect_back d es s' in if all_known s' then s' else rest

unfoldable pub inspect_compaction_entry_state : Decoder → List SessionEnvelope → EntryState
unfolding inspect_back
inspect_compaction_entry_state d events = inspect_back d (reverse events) initial_state

-- `latestEndSeedSeq != nil && *latestEndSeedSeq > seq`
abbrev pub seeded_after : Option ℤ → ℤ → Bool
seeded_after none seq = false
seeded_after (some seed) seq = ltb_ℤ seq seed

pub data EntryError : Type 0 where
  busy : EntryError

abbrev pub unless_seeded :
    {A : Type 0} → Option ℤ → Option CompactionStart → A → (CompactionStart → A) → A
unless_seeded seed none idle locked = idle
unless_seeded seed (some start) idle locked =
    if seeded_after seed start.seq then idle else locked start

unfoldable pub assert_compaction_inactive : EntryState → Result EntryError (Unit {0})
assert_compaction_inactive s =
    unless_seeded s.latest_end_seed_seq s.unmatched_compaction_start (ok tt) (λ _. err busy)

pub record CompactionEntry : Type 0 where
  pub compaction_id : String
  pub start_seq : ℤ

unfoldable pub active_compaction : Decoder → List SessionEnvelope → Option CompactionEntry
unfolding inspect_compaction_entry_state
active_compaction d events =
    let s = inspect_compaction_entry_state d events in
    unless_seeded s.latest_end_seed_seq s.unmatched_compaction_start none
      (λ start. some (record { compaction_id = start.compaction_id; start_seq = start.seq }))
