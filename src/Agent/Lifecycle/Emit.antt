-- ===== src/Agent/Lifecycle/Emit.antt =====
-- backend/pkg/agent/loop.go: EmitEvent, emitRaw, emitBoundary, finishTurnReason and the log cache's append.
use deep_seek_harness_x.Prelude.{
  String, ℕ, ◌+◌, ◌==◌, ltb, Bool, true, false, not, ◌||◌, List, [], ◌∷◌, ◌++◌, map, length, Option,
  none, some, str_eq, if◌then◌else◌, Result, ok, err,
}
use deep_seek_harness_x.Prelude.Int.{ℤ, pos, negsuc, leb_ℤ}
use deep_seek_harness_x.Session.Events.{SessionEnvelope, SurfaceOp}
use deep_seek_harness_x.Storage.RingBuffer.{RingBuffer, push}
use deep_seek_harness_x.Storage.Sqlite.{StoreError, append_events}
use deep_seek_harness_x.Agent.Lifecycle.{
  Machine, InvalidTransition, validate_transition, event_turn_start, event_turn_end,
  event_step_start, event_step_end,
}

-- The payloads that the machine numbers, and any other, which stands for itself.
pub data Payload : Type 0 where
  turn_start_payload : ℕ → Payload
  step_start_payload : ℕ → ℕ → Payload
  step_end_payload : ℕ → ℕ → Payload
  turn_end_payload : ℕ → String → String → Payload
  other_payload : String → Payload

abbrev pub end_payload : ℕ → Payload → Payload
end_payload turn (turn_end_payload t kind message) = turn_end_payload turn kind message
end_payload turn p = p

-- The switch of EmitEvent that gives a boundary its numbers, from the machine before and after.
unfoldable pub numbered_payload : String → Machine → Machine → Payload → Payload
numbered_payload event_type before after p =
    if str_eq event_type event_turn_start
    then turn_start_payload after.active_turn
    else if str_eq event_type event_step_start
    then step_start_payload after.active_turn after.active_step
    else if str_eq event_type event_step_end
    then step_end_payload before.active_turn before.active_step
    else if str_eq event_type event_turn_end
    then end_payload before.active_turn p
    else p

-- A subscriber's channel: its buffer's size and what stands in it.
pub record Subscriber : Type 0 where
  pub capacity : ℕ
  pub queue : List SessionEnvelope

-- The non-blocking send of the fan-out.
unfoldable pub send : SessionEnvelope → Subscriber → Subscriber
send env sub =
    if ltb (length sub.queue) sub.capacity
    then record sub { queue = sub.queue ++ env ∷ [] }
    else sub

-- `persist` and `ring_buf` are `none` where the Go pointer is nil; the segment log is what it holds.
pub record Agent : Type 0 where
  pub machine : Machine
  pub seq_counter : ℕ
  pub persist : Option (List SessionEnvelope)
  pub ring_buf : Option RingBuffer
  pub segment_log : Option (List SessionEnvelope)
  pub subscribers : List Subscriber
  pub log_cache : List SessionEnvelope
  pub last_cached : ℤ
  pub cache_warm : Bool

-- What a call meets outside of the agent: the clock, json.Marshal (`none` is an error), and whether
-- the database and the segment log's file fail.
pub record World : Type 0 where
  pub now : ℤ
  pub marshal : Payload → Option String
  pub database_fails : Bool
  pub segment_fails : Bool

pub data EmitError : Type 0 where
  invalid_transition : InvalidTransition → EmitError
  not_marshalled : EmitError
  not_persisted : EmitError

abbrev pub segment_append :
    Bool → SessionEnvelope → Option (List SessionEnvelope) → Option (List SessionEnvelope)
segment_append fails env none = none
segment_append fails env (some entries) = some (if fails then entries else entries ++ env ∷ [])

abbrev pub ring_push : SessionEnvelope → Option RingBuffer → Option RingBuffer
ring_push env none = none
ring_push env (some rb) = some (push env rb)

-- Steps 2 to 4 of EmitEvent, which emitRaw shares.
unfoldable pub publish : World → SessionEnvelope → Agent → Agent
publish w env a = record a {
  ring_buf = ring_push env a.ring_buf;
  segment_log = segment_append w.segment_fails env a.segment_log;
  subscribers = map (send env) a.subscribers;
}

unfoldable pub cache_append : SessionEnvelope → Agent → Agent
cache_append env a =
    if not a.cache_warm || leb_ℤ env.seq a.last_cached
    then a
    else record a { log_cache = a.log_cache ++ env ∷ []; last_cached = env.seq }

unfoldable pub invalidate_log_cache : Agent → Agent
invalidate_log_cache a = record a { log_cache = []; last_cached = negsuc 0; cache_warm = false }

abbrev pub store_result : Agent → Result StoreError (List SessionEnvelope) → Result EmitError Agent
store_result a (ok stored) = ok (record a { persist = some stored })
store_result a (err e) = err not_persisted

abbrev pub store_in :
    World → SessionEnvelope → Agent → Option (List SessionEnvelope) → Result EmitError Agent
store_in w env a none = ok a
store_in w env a (some stored) = store_result a (append_events w.database_fails stored (env ∷ []))

-- Step 1: the durable store, where there is one.
unfoldable pub persist_event : World → SessionEnvelope → Agent → Result EmitError Agent
persist_event w env a = store_in w env a a.persist

-- A call's result and the agent it leaves, which a failed call leaves changed too.
abbrev pub Emitted : Type 0 → Type 0
Emitted A = Result EmitError A × Agent

abbrev pub finish_emit :
    World → SessionEnvelope → Agent → Result EmitError Agent → Emitted SessionEnvelope
finish_emit w env a (err e) = (err e, a)
finish_emit w env a (ok stored) = (ok env, cache_append env (publish w env stored))

abbrev pub new_envelope : World → ℕ → String → String → Option SurfaceOp → SessionEnvelope
new_envelope w seq event_type data_bytes op = record {
  seq = pos seq;
  time = w.now;
  event_type = event_type;
  raw_data = data_bytes;
  source_event_seqs = none;
  surface_op = op;
  ignorable = false;
}

abbrev pub emit_marshalled :
    World → String → Option SurfaceOp → ℕ → Agent → Option String → Emitted SessionEnvelope
emit_marshalled w event_type op seq a none = (err not_marshalled, a)
emit_marshalled w event_type op seq a (some data_bytes) =
    let env = new_envelope w seq event_type data_bytes op in
    finish_emit w env a (persist_event w env a)

abbrev pub emit_admitted :
    World
    → String
    → Payload
    → Option SurfaceOp
    → Agent
    → Result InvalidTransition Machine
    → Emitted SessionEnvelope
emit_admitted w event_type p op a (err e) = (err (invalid_transition e), a)
emit_admitted w event_type p op a (ok machine) =
    emit_marshalled w event_type op a.seq_counter
      (record a { machine = machine; seq_counter = a.seq_counter + 1 })
      (w.marshal (numbered_payload event_type a.machine machine p))

unfoldable pub emit_event :
    World → String → Payload → Option SurfaceOp → Agent → Emitted SessionEnvelope
emit_event w event_type p op a =
    emit_admitted w event_type p op a (validate_transition event_type a.machine)

-- emitRaw: the event is numbered here, past the machine and the cache.
abbrev pub finish_raw :
    World → SessionEnvelope → Agent → Result EmitError Agent → Emitted SessionEnvelope
finish_raw w env a (err e) = (err e, a)
finish_raw w env a (ok stored) = (ok env, publish w env stored)

unfoldable pub emit_raw : World → SessionEnvelope → Agent → Emitted SessionEnvelope
emit_raw w env a =
    let numbered = record env { seq = pos a.seq_counter } in
    let counted = record a { seq_counter = a.seq_counter + 1 } in
    finish_raw w numbered counted (persist_event w numbered counted)

-- The two conditional emits of finishTurnReason, on the flags read before them.
abbrev pub when : Bool → (Agent → Agent) → Agent → Agent
when b f a = if b then f a else a

unfoldable pub finish_turn_reason : World → World → String → String → Agent → Agent
finish_turn_reason at_step at_turn kind message a =
    let step_open = not (a.machine.active_step == 0) in
    let turn_open = not (a.machine.active_turn == 0) in
    when turn_open
      (λ b. (emit_event at_turn event_turn_end (turn_end_payload 0 kind message) none b).1)
      (when step_open (λ b. (emit_event at_step event_step_end (step_end_payload 0 0) none b).1) a)

-- The error's text is formatted outside of the model.
abbrev pub escalate : World → World → String → Emitted SessionEnvelope → Bool × Agent
escalate at_step at_turn message (ok env, a) = (true, a)
escalate at_step at_turn message (err (invalid_transition e), a) = (true, a)
escalate at_step at_turn message (err not_marshalled, a) =
    (false, finish_turn_reason at_step at_turn "error" message a)
escalate at_step at_turn message (err not_persisted, a) =
    (false, finish_turn_reason at_step at_turn "error" message a)

unfoldable pub emit_boundary :
    World → World → World → String → String → Payload → Agent → Bool × Agent
emit_boundary w at_step at_turn message event_type p a =
    escalate at_step at_turn message (emit_event w event_type p none a)
