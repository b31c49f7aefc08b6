-- ===== src/Agent/Lifecycle/Stuck.antt =====
-- backend/pkg/agent/loop.go with backend/pkg/storage/store_sqlite.go: a seq that is taken and not stored.
use deep_seek_harness_x.Prelude.{
  String, ℕ, ◌+◌, ◌<◌, true, ◌≡◌, refl, ap, sym, ◌∙◌, List, [], ◌∷◌, All, Option, none, some,
  some-injective, ok, arith,
}
use deep_seek_harness_x.Prelude.Int.{pos}
use deep_seek_harness_x.Session.Events.{SessionEnvelope, SurfaceOp}
use deep_seek_harness_x.Storage.Sqlite.{next_seq, append_batch, append_events}
use deep_seek_harness_x.Agent.Lifecycle.{Machine, validate_transition}
use deep_seek_harness_x.Agent.Lifecycle.Emit.{
  World, Payload, Agent, emit_event, emit_marshalled, numbered_payload, persist_event,
}
use deep_seek_harness_x.Agent.Lifecycle.Append.{Step, rejected, unstored, appended}
use deep_seek_harness_x.Agent.Lifecycle.Stored.{
  Call, after_call, after_calls, call_type, IsAllowed, after_call-Step,
}

-- The counter stands past the seq that the store takes next.
unfoldable pub IsAhead : List SessionEnvelope → Agent → Type 0
IsAhead stored a =
    (a.persist ≡ some stored) × ((n : ℕ) × (next_seq stored ≡ pos n) × (n < a.seq_counter))

pos-injective : (n m : ℕ) → pos n ≡ pos m → n ≡ m
pos-injective n m h = cc

Step-IsAhead :
    (t : String) (a b : Agent) (stored : List SessionEnvelope)
    → Step t a b
    → IsAhead stored a
    → IsAhead stored b
unfolding IsAhead
Step-IsAhead t a b stored (rejected e invalid bm bs at) (here, (n, next, ahead)) =
    (at ∙ here, (n, next, omega (arith, ahead, bs)))
Step-IsAhead t a b stored (unstored m valid bm bs at) (here, (n, next, ahead)) =
    (at ∙ here, (n, next, omega (arith, ahead, bs)))
Step-IsAhead t a b stored (appended m kept env valid bm bs before next_kept et number after)
      (here, (n, next, ahead)) =
    let same : kept ≡ stored = some-injective (sym before ∙ here) in
    let counted : n ≡ a.seq_counter =
      pos-injective n a.seq_counter (sym next ∙ ap next_seq (sym same) ∙ next_kept) in
    absurd (omega (arith, ahead, counted))

after_calls-IsAhead :
    (calls : List Call) (a : Agent) (stored : List SessionEnvelope)
    → All IsAllowed calls
    → IsAhead stored a
    → IsAhead stored (after_calls calls a)
unfolding after_calls
after_calls-IsAhead [] a stored allowed h = h
after_calls-IsAhead (c ∷ calls) a stored (first, rest) h =
    after_calls-IsAhead calls (after_call c a) stored rest
      (Step-IsAhead (call_type c) a (after_call c a) stored (after_call-Step c a first) h)

emit_event-IsAhead :
    (w : World) (event_type : String) (p : Payload) (op : Option SurfaceOp) (a : Agent)
    (m : Machine) (stored : List SessionEnvelope)
    → a.persist ≡ some stored
    → next_seq stored ≡ pos a.seq_counter
    → validate_transition event_type a.machine ≡ ok m
    → w.database_fails ≡ true
    → IsAhead stored (emit_event w event_type p op a).1
unfolding emit_event IsAhead persist_event append_events append_batch
emit_event-IsAhead w event_type p op a m stored here next valid fails =
    rw valid (by_marshal (w.marshal (numbered_payload event_type a.machine m p)))
  where
    counted : Agent
    counted = record a { machine = m; seq_counter = a.seq_counter + 1 }

    by_marshal :
        (data_bytes : Option String)
        → IsAhead stored (emit_marshalled w event_type op a.seq_counter counted data_bytes).1
    by_marshal none = (here, (a.seq_counter, next, omega arith))
    by_marshal (some text) = rw (here, fails) (refl, (a.seq_counter, next, omega arith))

-- Where an agent stands at the end of its durable log, the machine admits an event and the database fails to
-- take it, no later call stores anything: the durable log stays as it is through every sequence of emits, also
-- those that meet no failure.
pub emit_event-stuck :
    (w : World) (event_type : String) (p : Payload) (op : Option SurfaceOp) (a : Agent)
    (m : Machine) (stored : List SessionEnvelope) (calls : List Call)
    → a.persist ≡ some stored
    → next_seq stored ≡ pos a.seq_counter
    → validate_transition event_type a.machine ≡ ok m
    → w.database_fails ≡ true
    → All IsAllowed calls
    → (after_calls calls (emit_event w event_type p op a).1).persist ≡ some stored
unfolding IsAhead
emit_event-stuck w event_type p op a m stored calls here next valid fails allowed =
    (after_calls-IsAhead calls (emit_event w event_type p op a).1 stored allowed
      (emit_event-IsAhead w event_type p op a m stored here next valid fails)).0
