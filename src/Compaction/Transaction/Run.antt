-- ===== src/Compaction/Transaction/Run.antt =====
-- backend/pkg/compaction/compactor.go: the commit of a prepared compaction (commitBody, commitEnd)
-- and the transaction as a whole (CompactTransaction).
use deep_seek_harness_x.Prelude.{
  String, Bool, true, false, not, ◌&&◌, Option, none, some, List, [], ◌∷◌, if◌then◌else◌, Result,
  ok, err, ◌>>=◌, ◌>>◌,
}
use deep_seek_harness_x.Prelude.Int.{ℤ}
use deep_seek_harness_x.Session.Events.{SessionEnvelope, event_user_message, replace_surface_op}
use deep_seek_harness_x.Compaction.Region.{RegionError, SurfaceSelection, validate_surface_region}
use deep_seek_harness_x.Compaction.Entry.{
  EntryError, event_compaction_start, event_compaction_end, inspect_compaction_entry_state,
  assert_compaction_inactive,
}
use deep_seek_harness_x.Compaction.Transaction.{
  CompactionError, manual, region, append_failed, no_open_turn, context_cancelled, busy, cancelled,
  commit, persistence, CompactionSummaryPayload, Services, CompactTransactionOptions, Attempt,
  Store, CompactionResult, new_envelope, Appended, append_encoded, Returned, rejected,
  classify_failure, close_failure, Prepared, prepare, event_compaction_summary,
}

-- What the commit writes besides the seqs that the store assigns.
pub record Commit : Type 0 where
  pub selection : SurfaceSelection
  pub prepared : Prepared
  pub owner_turn : Option ℤ
  pub start_seq : ℤ

abbrev pub the_commit : SurfaceSelection → Prepared → Option ℤ → ℤ → Commit
the_commit selection p owner_turn start_seq = record {
  selection = selection;
  prepared = p;
  owner_turn = owner_turn;
  start_seq = start_seq;
}

unfoldable pub summary_payload :
    Services → CompactTransactionOptions → Commit → CompactionSummaryPayload
summary_payload sv o c = record {
  compaction_id = sv.compaction_id;
  source_command_id = o.source_command_id;
  summary = c.prepared.summary_blocks.blocks;
  shadowed_range = c.selection.span;
  shadowed_seqs = c.selection.shadowed_seqs;
  shadowed_token_count = c.prepared.shadowed_tokens;
  raw_output = c.prepared.summary_blocks.raw_output;
}

-- The replacement user/message: it replaces the span, and its sources are the start, the summary and
-- the shadowed nodes.
unfoldable pub checkpoint_envelope : Commit → ℤ → String → SessionEnvelope
checkpoint_envelope c summary_seq raw = record (new_envelope event_user_message raw) {
  source_event_seqs = some (c.start_seq ∷ summary_seq ∷ c.selection.shadowed_seqs);
  surface_op = some (replace_surface_op c.selection.span.start c.selection.span.end);
}

unfoldable pub keep_seq : ℤ → Appended → Appended
keep_seq q (tr, err e) = (tr, err e)
keep_seq q (tr, ok r) = (tr, ok q)

unfoldable pub then_checkpoint :
    Store → Services → CompactTransactionOptions → Commit → Appended → Appended
unfolding checkpoint_envelope keep_seq
then_checkpoint store sv o c (tr, err e) = (tr, err e)
then_checkpoint store sv o c (tr, ok summary_seq) = keep_seq summary_seq (
    append_encoded store event_user_message (checkpoint_envelope c summary_seq)
      (sv.encode_checkpoint (record {
        content = c.prepared.framed;
        compaction_id = sv.compaction_id;
        source_command_id = o.source_command_id;
      }))
      tr)

-- commitBody: the seq is that of the summary.
unfoldable pub commit_body :
    Store → Services → CompactTransactionOptions → Commit → List Attempt → Appended
unfolding then_checkpoint summary_payload
commit_body store sv o c tr = then_checkpoint store sv o c (
    append_encoded store event_compaction_summary (new_envelope event_compaction_summary)
      (sv.encode_summary (summary_payload sv o c)) tr)

unfoldable pub commit_end :
    Store → Services → CompactTransactionOptions → Option ℤ → List Attempt → Appended
commit_end store sv o owner_turn tr =
    append_encoded store event_compaction_end (new_envelope event_compaction_end)
      (sv.encode_end (record {
        compaction_id = sv.compaction_id;
        source_command_id = o.source_command_id;
        turn = owner_turn;
        error = none;
      }))
      tr

unfoldable pub flushed : Option Bool → CompactionResult → Returned
flushed none r = record { result = some r; error = none }
flushed (some true) r = record { result = some r; error = none }
flushed (some false) r = record { result = some r; error = some (manual persistence) }

unfoldable pub finish :
    Store → Services → CompactTransactionOptions → Commit → ℤ → Appended → List Attempt × Returned
unfolding flushed close_failure
finish store sv o c summary_seq (tr, err e) =
    (close_failure store sv o (manual commit) tr, rejected (manual commit))
finish store sv o c summary_seq (tr, ok end_seq) = (
  tr,
  flushed o.flush (record {
    compaction_id = sv.compaction_id;
    start_seq = c.start_seq;
    summary_seq = summary_seq;
    end_seq = end_seq;
    summary = c.prepared.framed;
    shadowed_range = c.selection.span;
    shadowed_seqs = c.selection.shadowed_seqs;
    shadowed_token_count = c.prepared.shadowed_tokens;
  }),
)

unfoldable pub committed :
    Store → Services → CompactTransactionOptions → Commit → Appended → List Attempt × Returned
unfolding finish commit_end close_failure classify_failure
committed store sv o c (tr, err e) =
    (close_failure store sv o e tr, rejected (classify_failure o true e))
committed store sv o c (tr, ok summary_seq) =
    finish store sv o c summary_seq (commit_end store sv o c.owner_turn tr)

-- The error returned for a failed preparation: a cancellation is told apart where it is found.
unfoldable pub prepare_error : CompactTransactionOptions → CompactionError → CompactionError
unfolding classify_failure
prepare_error o context_cancelled = manual cancelled
prepare_error o cause = classify_failure o false cause

unfoldable pub prepared_or_closed :
    Store
    → Services
    → CompactTransactionOptions
    → SurfaceSelection
    → Option ℤ
    → ℤ
    → List Attempt
    → Result CompactionError Prepared
    → List Attempt × Returned
unfolding committed commit_body close_failure prepare_error
prepared_or_closed store sv o selection owner_turn start_seq tr (err e) =
    (close_failure store sv o e tr, rejected (prepare_error o e))
prepared_or_closed store sv o selection owner_turn start_seq tr (ok p) =
    let c = the_commit selection p owner_turn start_seq in
    committed store sv o c (commit_body store sv o c tr)

-- The errors before anything is appended or closed: of the encoding, and of the store.
start_error : CompactionError → CompactionError
start_error append_failed = manual persistence
start_error e = e

unfoldable pub started :
    Store
    → Services
    → CompactTransactionOptions
    → List SessionEnvelope
    → List ℤ
    → SurfaceSelection
    → Option ℤ
    → Appended
    → List Attempt × Returned
unfolding prepared_or_closed prepare start_error
started store sv o events nodes selection owner_turn (tr, err e) = (tr, rejected (start_error e))
started store sv o events nodes selection owner_turn (tr, ok start_seq) =
    prepared_or_closed store sv o selection owner_turn start_seq tr
      (prepare sv o events nodes selection)

-- The selection and the turn that owns the bracket.
pub record Entered : Type 0 where
  pub selection : SurfaceSelection
  pub owner_turn : Option ℤ

or_else : Option ℤ → Option ℤ → Option ℤ
or_else none q = q
or_else (some t) q = some t

abbrev is_open : Option ℤ → Bool
is_open none = false
is_open (some t) = true

lift_region : Result RegionError SurfaceSelection → Result CompactionError SurfaceSelection
lift_region (err e) = err (region e)
lift_region (ok s) = ok s

lift_entry : Result EntryError (Unit {0}) → Result CompactionError (Unit {0})
lift_entry (err e) = err (manual busy)
lift_entry (ok u) = ok u

check_turn :
    CompactTransactionOptions → Option ℤ → SurfaceSelection → Result CompactionError Entered
unfolding or_else
check_turn o open_turn selection =
    if o.is_manual && is_open open_turn
    then err (manual busy)
    else if o.is_automatic && not (is_open open_turn)
    then err no_open_turn
    else ok (record { selection = selection; owner_turn = or_else o.owner open_turn })

-- The guards, before anything is appended.
unfoldable pub enter :
    Services
    → CompactTransactionOptions
    → List SessionEnvelope
    → List ℤ
    → Result CompactionError Entered
unfolding lift_region validate_surface_region lift_entry assert_compaction_inactive
    inspect_compaction_entry_state check_turn
enter sv o events nodes = if o.is_manual && sv.cancelled_before then err (manual cancelled) else do
  selection ← lift_region (validate_surface_region sv.decoder events nodes o.start o.end)
  let s = inspect_compaction_entry_state sv.decoder events
  lift_entry (assert_compaction_inactive s)
  check_turn o s.open_turn selection

unfoldable pub entered :
    Store
    → Services
    → CompactTransactionOptions
    → List SessionEnvelope
    → List ℤ
    → Result CompactionError Entered
    → List Attempt × Returned
unfolding started
entered store sv o events nodes (err e) = ([], rejected e)
entered store sv o events nodes (ok n) = started store sv o events nodes n.selection n.owner_turn (
    append_encoded store event_compaction_start (new_envelope event_compaction_start)
      (sv.encode_start (record {
        compaction_id = sv.compaction_id;
        source_command_id = o.source_command_id;
        turn = n.owner_turn;
      }))
      [])

-- CompactTransaction: the attempts to append, in order, and what it returns.
unfoldable pub compact_transaction :
    Store
    → Services
    → CompactTransactionOptions
    → List SessionEnvelope
    → List ℤ
    → List Attempt × Returned
unfolding entered enter
compact_transaction store sv o events nodes =
    entered store sv o events nodes (enter sv o events nodes)
