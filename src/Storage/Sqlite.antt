-- ===== src/Storage/Sqlite.antt =====
-- backend/pkg/storage/store_sqlite.go: which batches appendBatch accepts.
-- The store is a session's logical event log. A failure of the database, a schema check's included, is the
-- argument `fails`; packing rows, the session row and the revision do not show in the log.
use deep_seek_harness_x.Prelude.{Bool, not, List, [], ◌∷◌, ◌++◌, if◌then◌else◌, Result, ok, err}
use deep_seek_harness_x.Prelude.Int.{ℤ, pos, ◌+ℤ◌, ◌=ℤ◌}
use deep_seek_harness_x.Session.Events.{SessionEnvelope}

pub data StoreError : Type 0 where
  database_error : StoreError
  wrong_seq : ℤ → ℤ → StoreError

-- logicalLastEventTx, and one past it: `expected`.
unfoldable pub next_seq : List SessionEnvelope → ℤ
next_seq [] = pos 0
next_seq (e ∷ []) = e.seq +ℤ pos 1
next_seq (e ∷ f ∷ rest) = next_seq (f ∷ rest)

unfoldable pub append_batch :
    Bool → List SessionEnvelope → List SessionEnvelope → Result StoreError (List SessionEnvelope)
append_batch fails stored [] = ok stored
append_batch fails stored (e ∷ events) =
    if fails
    then err database_error
    else if not (e.seq =ℤ next_seq stored)
    then err (wrong_seq e.seq (next_seq stored))
    else ok (stored ++ e ∷ events)

-- AppendEvents
unfoldable pub append_events :
    Bool → List SessionEnvelope → List SessionEnvelope → Result StoreError (List SessionEnvelope)
unfolding append_batch
append_events fails stored events = append_batch fails stored events
