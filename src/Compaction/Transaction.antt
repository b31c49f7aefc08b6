-- ===== src/Compaction/Transaction.antt =====
-- backend/pkg/compaction/compactor.go: the durable compaction transaction.
-- The store that events are appended to is an arbitrary function of the attempts made so far: it
-- gives the seq that it assigns, or `none` for an error. The model call, the clock's cancellation, the
-- encoding of payloads, the token estimate and the reload of the log are arguments (`Services`).
pub mod Run
pub mod Bracket
pub mod Closed
use deep_seek_harness_x.Prelude.{
  ℕ, zero, suc, ◌+◌, ◌-◌, String, Bool, true, false, ◌&&◌, not, Option, none, some, List, [], ◌∷◌,
  ◌++◌, str_eq, if◌then◌else◌, ltb, ◌==◌, Result, ok, err, ◌>>=◌, ◌>>◌, length, take, drop,
}
use deep_seek_harness_x.Prelude.Int.{ℤ, pos, ◌+ℤ◌, ◌=ℤ◌, leb_ℤ}
use deep_seek_harness_x.Session.Events.{
  SessionEnvelope, SurfaceOp, event_user_message, replace_surface_op,
}
use deep_seek_harness_x.Session.Messages.{
  Decoder, ContentBlock, block, Blocks, nil, cons, ModelMessage, ProjectionError,
  project_event_message,
}
use deep_seek_harness_x.Session.Surface.{slice}
use deep_seek_harness_x.Compaction.Pairing.{by_seq}
use deep_seek_harness_x.Compaction.Region.{
  RegionError, Meter, SurfaceSpan, SurfaceSelection, measure, validate_surface_region,
}
use deep_seek_harness_x.Compaction.Region.Select.{sum_prices}
use deep_seek_harness_x.Compaction.Entry.{
  EntryState, event_compaction_start, event_compaction_end, inspect_compaction_entry_state,
  is_known, assert_compaction_inactive,
}

pub data ManualCompactionErrorCode : Type 0 where
  busy cancelled changed summary commit persistence : ManualCompactionErrorCode

-- The errors of the transaction: a ManualCompactionError by its code, a SurfaceChangedError, or a
-- plain error of one of its steps.
pub data CompactionError : Type 0 where
  manual : ManualCompactionErrorCode → CompactionError
  surface_changed : CompactionError
  region : RegionError → CompactionError
  no_open_turn encode_failed meter_changed region_messages summarizer_failed : CompactionError
  context_cancelled not_smaller append_failed : CompactionError

abbrev pub event_compaction_summary : String
event_compaction_summary = "compaction/summary"

pub record CompactionStartPayload : Type 0 where
  pub compaction_id : String
  pub source_command_id : String
  pub turn : Option ℤ

pub record CompactionEndPayload : Type 0 where
  pub compaction_id : String
  pub source_command_id : String
  pub turn : Option ℤ
  pub error : Option CompactionError

pub record CompactionSummaryPayload : Type 0 where
  pub compaction_id : String
  pub source_command_id : String
  pub summary : Blocks
  pub shadowed_range : SurfaceSpan
  pub shadowed_seqs : List ℤ
  pub shadowed_token_count : ℤ
  pub raw_output : Blocks

pub record CheckpointPayload : Type 0 where
  pub content : Blocks
  pub compaction_id : String
  pub source_command_id : String

-- What the summarizer returns: its text blocks and the raw output.
pub record Summary : Type 0 where
  pub blocks : Blocks
  pub raw_output : Blocks

pub record Services : Type 0 where
  pub decoder : Decoder
  pub meter : Option Meter
  pub summarize : List ModelMessage → Option Summary
  pub estimate : Blocks → ℤ
  pub compaction_id : String
  -- `ctx.Err() != nil` at the start, and after the summary
  pub cancelled_before : Bool
  pub cancelled_during : Bool
  pub encode_start : CompactionStartPayload → Option String
  pub encode_summary : CompactionSummaryPayload → Option String
  pub encode_checkpoint : CheckpointPayload → Option String
  pub encode_end : CompactionEndPayload → Option String

pub record CompactTransactionOptions : Type 0 where
  pub owner : Option ℤ
  pub is_manual : Bool
  pub source_command_id : String
  pub start : ℤ
  pub end : ℤ
  -- the durability checkpoint: whether it succeeds
  pub flush : Option Bool
  -- the live log and its nodes, where there is a reload; the inner `none` is its error
  pub reload : Option (Option (List SessionEnvelope × List ℤ))
  pub is_automatic : Bool

-- One call of the append function, with the seq that it assigned.
pub record Attempt : Type 0 where
  pub event : SessionEnvelope
  pub assigned : Option ℤ

abbrev pub Store : Type 0
Store = List Attempt → SessionEnvelope → Option ℤ

pub record CompactionResult : Type 0 where
  pub compaction_id : String
  pub start_seq : ℤ
  pub summary_seq : ℤ
  pub end_seq : ℤ
  pub summary : Blocks
  pub shadowed_range : SurfaceSpan
  pub shadowed_seqs : List ℤ
  pub shadowed_token_count : ℤ

-- NewEnvelope with the seq placeholder 0; the clock is not read by the model.
abbrev pub new_envelope : String → String → SessionEnvelope
new_envelope event_type raw_data = record {
  seq = pos 0;
  time = pos 0;
  event_type = event_type;
  raw_data = raw_data;
  source_event_seqs = none;
  surface_op = none;
  ignorable = false;
}

-- What an append leaves: the attempts, and the seq or the error.
abbrev pub Appended : Type 0
Appended = List Attempt × Result CompactionError ℤ

appended : List Attempt → SessionEnvelope → Option ℤ → Appended
appended tr e none = (tr ++ record { event = e; assigned = none } ∷ [], err append_failed)
appended tr e (some q) = (tr ++ record { event = e; assigned = some q } ∷ [], ok q)

unfoldable pub append_fn : Store → SessionEnvelope → List Attempt → Appended
unfolding appended
append_fn store e tr = appended tr e (store tr e)

-- NewEnvelope and the append of one event; a payload that does not encode is not appended.
abbrev pub append_encoded :
    Store → String → (String → SessionEnvelope) → Option String → List Attempt → Appended
append_encoded store event_type envelope none tr = (tr, err encode_failed)
append_encoded store event_type envelope (some raw) tr = append_fn store (envelope raw) tr

-- What the transaction returns: a failed durability checkpoint returns its result and an error.
pub record Returned : Type 0 where
  pub result : Option CompactionResult
  pub error : Option CompactionError

abbrev pub rejected : CompactionError → Returned
rejected e = record { result = none; error = some e }

classify_manual : CompactionError → CompactionError
classify_manual surface_changed = manual changed
classify_manual (manual code) = manual code
classify_manual _ = manual summary

unfoldable pub classify_failure :
    CompactTransactionOptions → Bool → CompactionError → CompactionError
unfolding classify_manual
classify_failure o commit_stage cause =
    if not o.is_manual then cause else if commit_stage then manual commit else classify_manual cause

-- closeFailure: the error of this append is dropped.
unfoldable pub close_failure :
    Store → Services → CompactTransactionOptions → CompactionError → List Attempt → List Attempt
unfolding append_fn
close_failure store sv o cause tr =
    (append_encoded store event_compaction_end (new_envelope event_compaction_end)
      (sv.encode_end (record {
        compaction_id = sv.compaction_id;
        source_command_id = o.source_command_id;
        turn = o.owner;
        error = some cause;
      }))
      tr).0

message_of :
    Result ProjectionError (Option ModelMessage)
    → List ModelMessage
    → Result CompactionError (List ModelMessage)
message_of (err e) rest = err region_messages
message_of (ok none) rest = ok rest
message_of (ok (some m)) rest = ok (m ∷ rest)

located_message :
    Decoder
    → Option SessionEnvelope
    → List ModelMessage
    → Result CompactionError (List ModelMessage)
unfolding message_of project_event_message
located_message d none rest = err region_messages
located_message d (some e) rest = message_of (project_event_message d e) rest

-- regionMessages: the messages of the shadowed nodes, in surface order.
unfoldable pub messages_of_region :
    Decoder → List SessionEnvelope → List ℤ → Result CompactionError (List ModelMessage)
unfolding located_message by_seq
messages_of_region d events [] = ok []
messages_of_region d events (q ∷ qs) =
    messages_of_region d events qs >>= λ rest. located_message d (by_seq q events) rest

unfoldable pub equal_seqs : List ℤ → List ℤ → Bool
equal_seqs [] [] = true
equal_seqs [] (y ∷ ys) = false
equal_seqs (x ∷ xs) [] = false
equal_seqs (x ∷ xs) (y ∷ ys) = x =ℤ y && equal_seqs xs ys

-- Every price of the first list is that of the same position in the second.
unfoldable pub prices_kept : List ℤ → List ℤ → Bool
prices_kept [] ys = true
prices_kept (x ∷ xs) [] = false
prices_kept (x ∷ xs) (y ∷ ys) = x =ℤ y && prices_kept xs ys

same_prices :
    List ℤ
    → SurfaceSelection
    → List ℤ
    → Result RegionError (List ℤ)
    → Result CompactionError (Unit {0})
unfolding prices_kept
same_prices nodes current prepared (err e) = err surface_changed
same_prices nodes current prepared (ok priced) =
    if not (length priced == length nodes)
    then err surface_changed
    else if not (ltb current.end_idx (length priced))
    then err surface_changed
    else if prices_kept (slice priced current.start_idx current.end_idx) prepared
    then ok tt
    else err surface_changed

same_span :
    Services
    → SurfaceSelection
    → List ℤ
    → List SessionEnvelope
    → List ℤ
    → Result RegionError SurfaceSelection
    → Result CompactionError (Unit {0})
unfolding same_prices equal_seqs measure
same_span sv selection prepared events nodes (err e) = err surface_changed
same_span sv selection prepared events nodes (ok current) =
    if not (equal_seqs current.shadowed_seqs selection.shadowed_seqs)
    then err surface_changed
    else same_prices nodes current prepared (measure sv.meter events nodes)

-- assertSelectedSpanStable
unfoldable pub assert_selected_span_stable :
    Services
    → SurfaceSelection
    → List ℤ
    → Option (Option (List SessionEnvelope × List ℤ))
    → Result CompactionError (Unit {0})
unfolding same_span validate_surface_region
assert_selected_span_stable sv selection prepared none = ok tt
assert_selected_span_stable sv selection prepared (some none) = err surface_changed
assert_selected_span_stable sv selection prepared (some (some (events, nodes))) =
    same_span sv selection prepared events nodes
      (validate_surface_region sv.decoder events nodes selection.span.start selection.span.end)

abbrev text_block : String → ContentBlock
text_block text = block "text" text "" "" "" "" "" "" false nil

unfoldable pub append_blocks : Blocks → Blocks → Blocks
append_blocks nil ys = ys
append_blocks (cons b xs) ys = cons b (append_blocks xs ys)

abbrev preamble : String
preamble =
    "This is an automatically generated checkpoint condensing an earlier span of the conversation to free up context. Treat the captured context as established background and build on it without restating it. Continue the task directly from the messages that follow, without acknowledging this checkpoint.\n\n<compacted-summary>"

unfoldable pub frame_summary : Blocks → Blocks
unfolding append_blocks
frame_summary blocks =
    cons (text_block preamble) (append_blocks blocks (cons (text_block "</compacted-summary>") nil))

-- What is computed between the start event and the commit.
pub record Prepared : Type 0 where
  pub summary_blocks : Summary
  pub framed : Blocks
  pub shadowed_tokens : ℤ

summarized : Option Summary → Result CompactionError Summary
summarized none = err summarizer_failed
summarized (some s) = ok s

-- The prices of the surface, both where they are first taken and where the span is priced.
priced_surface :
    Services
    → List SessionEnvelope
    → List ℤ
    → Result RegionError (List ℤ)
    → Result CompactionError (List ℤ)
priced_surface sv events nodes (err e) = err meter_changed
priced_surface sv events nodes (ok priced) =
    if length priced == length nodes then ok priced else err meter_changed

smaller : Services → Summary → ℤ → Result CompactionError Prepared
unfolding frame_summary
smaller sv s tokens =
    if leb_ℤ tokens (sv.estimate (frame_summary s.blocks))
    then err not_smaller
    else ok
        (record { summary_blocks = s; framed = frame_summary s.blocks; shadowed_tokens = tokens })

-- The cause of a failure is what closes the bracket.
unfoldable pub prepare :
    Services
    → CompactTransactionOptions
    → List SessionEnvelope
    → List ℤ
    → SurfaceSelection
    → Result CompactionError Prepared
unfolding measure priced_surface messages_of_region summarized assert_selected_span_stable smaller
prepare sv o events nodes selection = do
  priced ← priced_surface sv events nodes (measure sv.meter events nodes)
  let prepared = slice priced selection.start_idx selection.end_idx
  messages ← messages_of_region sv.decoder events selection.shadowed_seqs
  s ← summarized (sv.summarize messages)
  if o.is_manual && sv.cancelled_during then err context_cancelled else do
    assert_selected_span_stable sv selection prepared o.reload
    smaller sv s (sum_prices prepared)
