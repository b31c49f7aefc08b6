-- ===== src/Examples/Compaction.antt =====
-- The examples of the compaction: a surface of three messages, whose first two are one region.
use deep_seek_harness_x.Prelude.{
  ℕ, suc, ◌≤◌, ◌<◌, String, Bool, true, false, none, some, List, [], ◌∷◌, ◌++◌, take, drop, length,
  ok, ◌≡◌, refl, arith, if◌then◌else◌, ◌==◌, ◌+◌,
}
use deep_seek_harness_x.Prelude.Int.{◌+ℤ◌, ℤ, pos, ◌≤ℤ◌}
use deep_seek_harness_x.Session.Events.{SessionEnvelope}
use deep_seek_harness_x.Session.Messages.{Decoder, WireMessage, block, nil, cons}
use deep_seek_harness_x.Session.Surface.Partition.{count}
use deep_seek_harness_x.Compaction.Pairing.{cut_balances}
use deep_seek_harness_x.Compaction.Region.{
  SurfaceSpan, SurfaceSelection, measure, select_compactable_range, validate_surface_region,
}
use deep_seek_harness_x.Compaction.Region.Validate.{validate_surface_region-splice}
use deep_seek_harness_x.Session.Events.{replace_surface_op}
use deep_seek_harness_x.Session.Surface.{replacement_range}
use deep_seek_harness_x.Compaction.Region.Agree.{validate_surface_region-replacement_range}
use deep_seek_harness_x.Compaction.Region.Select.{
  head_selection, sum_prices, select_compactable_range-validates, select_compactable_range-retains,
}
use deep_seek_harness_x.Compaction.Entry.{
  inspect_compaction_entry_state, active_compaction, event_compaction_start,
}
use deep_seek_harness_x.Compaction.Entry.Lock.{IsGrowing, lock_after, active_compaction-lock_after}
use deep_seek_harness_x.Compaction.Entry.Replay.{
  replay, lock_mark, turn_mark, seed_mark, inspect-replay,
}
use deep_seek_harness_x.Compaction.Transaction.{
  Services, CompactTransactionOptions, CompactionResult, Store, CompactionEndPayload, frame_summary,
}
use deep_seek_harness_x.Compaction.Transaction.Run.{compact_transaction}
use deep_seek_harness_x.Compaction.Transaction.Bracket.{
  IsCommitted, compact_transaction-IsCommitted,
}
use deep_seek_harness_x.Compaction.Transaction.Closed.{IsClosed, compact_transaction-IsClosed}
use deep_seek_harness_x.Examples.Log.{first, second, fourth, message}
use deep_seek_harness_x.Session.Events.{append_surface_op}

abbrev wire : WireMessage
wire = record {
  id = "";
  role = "user";
  content = cons (block "text" "hello" "" "" "" "" "" "" false nil) nil;
}

abbrev decoder : Decoder
decoder = record {
  user_message = λ _. some wire;
  assistant_message = λ _. some wire;
  tool_result = λ _. some wire;
  turn_start = λ _. some (pos 1);
  compaction_start = λ _. some "c";
}

abbrev third : SessionEnvelope
third = message 2 none append_surface_op

abbrev log : List SessionEnvelope
log = first ∷ second ∷ third ∷ []

abbrev surface : List ℤ
surface = pos 0 ∷ pos 1 ∷ pos 2 ∷ []

abbrev balances : List Bool
balances = true ∷ true ∷ true ∷ true ∷ []

log-balances : cut_balances decoder log surface ≡ ok balances
unfolding cut_balances
log-balances = refl

abbrev selection : SurfaceSelection
selection = record {
  span = record { start = pos 0; end = pos 1 };
  start_idx = 0;
  end_idx = 1;
  shadowed_seqs = pos 0 ∷ pos 1 ∷ [];
}

log-region : validate_surface_region decoder log surface (pos 0) (pos 1) ≡ ok selection
unfolding validate_surface_region
log-region = refl

validate_surface_region-splice_example :
    (bs : List Bool) × (cut_balances decoder log surface ≡ ok bs)
    × (cut_balances decoder (log ++ fourth ∷ []) (take 0 surface ++ fourth.seq ∷ drop 2 surface)
        ≡ ok (take 1 bs ++ drop 2 bs))
validate_surface_region-splice_example =
    validate_surface_region-splice decoder log surface (pos 0) (pos 1) selection fourth log-region
      refl (refl, (refl, (refl, tt)))

surface-distinct : (q : ℤ) → count q surface ≤ 1
surface-distinct q = ground arith

abbrev span : SurfaceSpan
span = record { start = pos 0; end = pos 1 }

log-selected : select_compactable_range decoder none (pos 1) log surface ≡ ok (some span)
unfolding select_compactable_range
log-selected = refl

select_compactable_range-validates_example :
    (last : ℕ) × (validate_surface_region decoder log surface (pos 0) (pos 1)
      ≡ ok (head_selection surface span last))
    × (suc last < length surface)
select_compactable_range-validates_example =
    select_compactable_range-validates decoder none (pos 1) log surface span surface-distinct
      log-selected

log-measured : measure none log surface ≡ ok (pos 1 ∷ pos 1 ∷ pos 1 ∷ [])
unfolding measure
log-measured = refl

select_compactable_range-retains_example :
    (last : ℕ) × (validate_surface_region decoder log surface (pos 0) (pos 1)
      ≡ ok (head_selection surface span last))
    × (pos 1 ≤ℤ sum_prices (drop (suc last) (pos 1 ∷ pos 1 ∷ pos 1 ∷ [])))
select_compactable_range-retains_example =
    select_compactable_range-retains decoder none (pos 1) log surface span
      (pos 1 ∷ pos 1 ∷ pos 1 ∷ []) surface-distinct log-selected log-measured
      (omega arith, (omega arith, (omega arith, tt)))

inspect-replay_example :
    ((inspect_compaction_entry_state decoder log).unmatched_compaction_start
      ≡ replay (lock_mark decoder) none log)
    × ((inspect_compaction_entry_state decoder log).open_turn ≡ replay (turn_mark decoder) none log)
    × ((inspect_compaction_entry_state decoder log).latest_end_seed_seq ≡ replay seed_mark none log)
inspect-replay_example = inspect-replay decoder log

abbrev locked : List SessionEnvelope
locked = log ++ record fourth { event_type = event_compaction_start; surface_op = none } ∷ []

locked-IsGrowing : IsGrowing (pos 0) locked
unfolding IsGrowing ◌+ℤ◌
locked-IsGrowing = ground arith

active_compaction-lock_after_example :
    active_compaction decoder locked ≡ lock_after decoder none locked
active_compaction-lock_after_example =
    active_compaction-lock_after decoder locked (pos 0) locked-IsGrowing

validate_surface_region-replacement_range_example :
    replacement_range surface (replace_surface_op (pos 0) (pos 1))
    ≡ ok (record { start_idx = 0; end_idx = 1; shadowed = pos 0 ∷ pos 1 ∷ [] })
validate_surface_region-replacement_range_example =
    validate_surface_region-replacement_range decoder log surface (pos 0) (pos 1) selection
      log-region

-- Services that succeed, and a store that numbers what it is given.
abbrev services : Services
services = record {
  decoder = decoder;
  meter = none;
  summarize = λ _. some (record { blocks = wire.content; raw_output = nil });
  estimate = λ _. pos 1;
  compaction_id = "c";
  cancelled_before = false;
  cancelled_during = false;
  encode_start = λ _. some "start";
  encode_summary = λ _. some "summary";
  encode_checkpoint = λ _. some "checkpoint";
  encode_end = λ _. some "end";
}

abbrev options : CompactTransactionOptions
options = record {
  owner = none;
  is_manual = true;
  source_command_id = "";
  start = pos 0;
  end = pos 1;
  flush = none;
  reload = some (some (log, surface));
  is_automatic = false;
}

abbrev store : Store
store tr e = some (pos (3 + length tr))

abbrev outcome : CompactionResult
outcome = record {
  compaction_id = "c";
  start_seq = pos 3;
  summary_seq = pos 4;
  end_seq = pos 6;
  summary = frame_summary wire.content;
  shadowed_range = span;
  shadowed_seqs = pos 0 ∷ pos 1 ∷ [];
  shadowed_token_count = pos 2;
}

log-compacted : (compact_transaction store services options log surface).1.result ≡ some outcome
unfolding compact_transaction
log-compacted = refl

compact_transaction-IsCommitted_example :
    IsCommitted outcome (compact_transaction store services options log surface).0
compact_transaction-IsCommitted_example =
    compact_transaction-IsCommitted store services options log surface outcome log-compacted

-- A store that refuses the summary.
abbrev refusing : Store
refusing tr e = if length tr == 1 then none else some (pos (3 + length tr))

end-encodes : (p : CompactionEndPayload) → (raw : String) × (services.encode_end p ≡ some raw)
end-encodes p = ("end", refl)

compact_transaction-IsClosed_example :
    IsClosed (compact_transaction refusing services options log surface).0
compact_transaction-IsClosed_example =
    compact_transaction-IsClosed refusing services options end-encodes log surface
