-- ===== src/Agent/Lifecycle/Append.antt =====
-- backend/pkg/agent/loop.go: what one call of EmitEvent or emitRaw leaves of the machine, the counter and
-- the durable log.
use deep_seek_harness_x.Prelude.{
  String, ◌+◌, Bool, true, false, not, ◌||◌, ◌≡◌, refl, ap, sym, ◌∙◌, List, [], ◌∷◌, ◌++◌, Option,
  none, some, str_eq, inl, inr, Bool-cases, Result, ok, err, ok-injective, ◌⊎◌,
}
use deep_seek_harness_x.Prelude.Int.{pos, leb_ℤ, ◌=ℤ◌, =ℤ_iff}
use deep_seek_harness_x.Session.Events.{SessionEnvelope, SurfaceOp}
use deep_seek_harness_x.Storage.Sqlite.{StoreError, next_seq, append_batch, append_events}
use deep_seek_harness_x.Agent.Lifecycle.{
  Machine, InvalidTransition, validate_transition, event_turn_start, event_turn_end,
  event_step_start, event_step_end,
}
use deep_seek_harness_x.Agent.Lifecycle.Emit.{
  World, Payload, Agent, EmitError, emit_event, emit_raw, persist_event, publish, cache_append,
  finish_emit, store_in, store_result, new_envelope, emit_marshalled, emit_admitted, finish_raw,
}

-- The machine, the counter and the durable log of a call's agents `a` and `b`.
pub data Step (event_type : String) (a b : Agent) : Type 0 where
  rejected :
      (e : InvalidTransition)
      → validate_transition event_type a.machine ≡ err e
      → b.machine ≡ a.machine
      → b.seq_counter ≡ a.seq_counter
      → b.persist ≡ a.persist
      → Step event_type a b
  unstored :
      (m : Machine)
      → validate_transition event_type a.machine ≡ ok m
      → b.machine ≡ m
      → b.seq_counter ≡ a.seq_counter + 1
      → b.persist ≡ a.persist
      → Step event_type a b
  appended :
      (m : Machine) (stored : List SessionEnvelope) (env : SessionEnvelope)
      → validate_transition event_type a.machine ≡ ok m
      → b.machine ≡ m
      → b.seq_counter ≡ a.seq_counter + 1
      → a.persist ≡ some stored
      → next_seq stored ≡ pos a.seq_counter
      → env.event_type ≡ event_type
      → env.seq ≡ pos a.seq_counter
      → b.persist ≡ some (stored ++ env ∷ [])
      → Step event_type a b

pub append_events-ok :
    (fails : Bool) (stored : List SessionEnvelope) (env : SessionEnvelope)
    {after : List SessionEnvelope}
    → append_events fails stored (env ∷ []) ≡ ok after
    → (env.seq ≡ next_seq stored) × (after ≡ stored ++ env ∷ [])
unfolding append_events append_batch
append_events-ok true stored env h = cc
append_events-ok false stored env h = elim (Bool-cases (env.seq =ℤ next_seq stored)) [
  | inl same ↦ ((=ℤ_iff env.seq (next_seq stored)).0 same, sym (ok-injective (rw same at h)))
  | inr other ↦ let refused = rw other at h in cc
]

cache_append-core :
    (env : SessionEnvelope) (a : Agent)
    → ((cache_append env a).machine ≡ a.machine)
      × ((cache_append env a).seq_counter ≡ a.seq_counter)
      × ((cache_append env a).persist ≡ a.persist)
unfolding cache_append
cache_append-core env a = elim (Bool-cases (not a.cache_warm || leb_ℤ env.seq a.last_cached)) [
  | inl skip ↦ rw skip (refl, refl, refl)
  | inr kept ↦ rw kept (refl, refl, refl)
]

-- The store took the event where its seq is the next, or there is no store.
IsPersisted : SessionEnvelope → Agent → Agent → Type 0
IsPersisted env a b =
    (b.machine ≡ a.machine)
    × (b.seq_counter ≡ a.seq_counter)
    × ((b.persist ≡ a.persist)
        ⊎ ((stored : List SessionEnvelope) × (a.persist ≡ some stored)
            × (env.seq ≡ next_seq stored)
            × (b.persist ≡ some (stored ++ env ∷ []))))

persist_event-cases :
    (w : World) (env : SessionEnvelope) (a : Agent) {b : Agent}
    → persist_event w env a ≡ ok b
    → IsPersisted env a b
unfolding persist_event IsPersisted
persist_event-cases w env a {b} h = by_store a.persist refl h
  where
    by_result :
        (stored : List SessionEnvelope)
        → a.persist ≡ some stored
        → (r : Result StoreError (List SessionEnvelope))
        → append_events w.database_fails stored (env ∷ []) ≡ r
        → store_result a r ≡ ok b
        → IsPersisted env a b
    by_result stored at (err e) result h = cc
    by_result stored at (ok after) result h =
        let e = sym (ok-injective h) in
        let found = append_events-ok w.database_fails stored env result in
        (
          ap (λ x. x.machine) e,
          ap (λ x. x.seq_counter) e,
          inr (stored, at, found.0, ap (λ x. x.persist) e ∙ ap some found.1),
        )

    by_store :
        (p : Option (List SessionEnvelope))
        → a.persist ≡ p
        → store_in w env a p ≡ ok b
        → IsPersisted env a b
    by_store none at h =
        let e = sym (ok-injective h) in
        (ap (λ x. x.machine) e, ap (λ x. x.seq_counter) e, inl (ap (λ x. x.persist) e))
    by_store (some stored) at h = by_result stored at _ refl h

-- The agent that a call leaves: the counted one after a failure, and what `last` makes of the stored one.
leave : Agent → (Agent → Agent) → Result EmitError Agent → Agent
leave counted last (err e) = counted
leave counted last (ok x) = last x

-- Numbered and admitted: what is left is to store it.
settle :
    (w : World) (env : SessionEnvelope) (event_type : String) (a counted : Agent) (m : Machine)
    → validate_transition event_type a.machine ≡ ok m
    → counted.machine ≡ m
    → counted.seq_counter ≡ a.seq_counter + 1
    → counted.persist ≡ a.persist
    → env.event_type ≡ event_type
    → env.seq ≡ pos a.seq_counter
    → (r : Result EmitError Agent) → persist_event w env counted ≡ r
    → (last : Agent → Agent)
    → ((x : Agent)
        → ((last x).machine ≡ x.machine)
          × ((last x).seq_counter ≡ x.seq_counter)
          × ((last x).persist ≡ x.persist))
    → Step event_type a (leave counted last r)
unfolding IsPersisted leave
settle w env event_type a counted m valid cm cs cp et eq (err e) result last keeps =
    unstored m valid cm cs cp
settle w env event_type a counted m valid cm cs cp et eq (ok x) result last keeps =
    let done = persist_event-cases w env counted result in
    let same = keeps x in
    let machine = same.0 ∙ done.0 ∙ cm in
    let counter = same.1 ∙ done.1 ∙ cs in
    elim done.2 [
      | inl kept ↦ unstored m valid machine counter (same.2 ∙ kept ∙ cp)
      | inr (stored, before, number, after) ↦
          appended m stored env valid machine counter (sym cp ∙ before) (sym number ∙ eq) et eq
            (same.2 ∙ after)
    ]

publish-core :
    (w : World) (env : SessionEnvelope) (a : Agent)
    → ((publish w env a).machine ≡ a.machine)
      × ((publish w env a).seq_counter ≡ a.seq_counter)
      × ((publish w env a).persist ≡ a.persist)
unfolding publish
publish-core w env a = (refl, refl, refl)

pub emit_event-Step :
    (w : World) (event_type : String) (p : Payload) (op : Option SurfaceOp) (a : Agent)
    → Step event_type a (emit_event w event_type p op a).1
unfolding emit_event cache_append leave
emit_event-Step w event_type p op a = by_transition (validate_transition event_type a.machine) refl
  where
    counted : Machine → Agent
    counted m = record a { machine = m; seq_counter = a.seq_counter + 1 }

    by_store :
        (m : Machine) (env : SessionEnvelope)
        → validate_transition event_type a.machine ≡ ok m
        → env.event_type ≡ event_type
        → env.seq ≡ pos a.seq_counter
        → (r : Result EmitError Agent) → persist_event w env (counted m) ≡ r
        → Step event_type a (finish_emit w env (counted m) r).1
    by_store m env valid et eq (err e) at = unstored m valid refl refl refl
    by_store m env valid et eq (ok x) at =
        settle w env event_type a (counted m) m valid refl refl refl et eq (ok x) at
          (λ y. cache_append env (publish w env y))
          (λ y.
            let kept = cache_append-core env (publish w env y) in
            let same = publish-core w env y in (kept.0 ∙ same.0, kept.1 ∙ same.1, kept.2 ∙ same.2))

    by_marshal :
        (m : Machine)
        → validate_transition event_type a.machine ≡ ok m
        → (data_bytes : Option String)
        → Step event_type a (emit_marshalled w event_type op a.seq_counter (counted m) data_bytes).1
    by_marshal m valid none = unstored m valid refl refl refl
    by_marshal m valid (some text) =
        by_store m (new_envelope w a.seq_counter event_type text op) valid refl refl _ refl

    by_transition :
        (r : Result InvalidTransition Machine)
        → validate_transition event_type a.machine ≡ r
        → Step event_type a (emit_admitted w event_type p op a r).1
    by_transition (err e) at = rejected e at refl refl refl
    by_transition (ok m) at = by_marshal m at _

-- An event that the machine does not read, as those of the compaction transaction.
unfoldable pub IsLogOnly : String → Type 0
IsLogOnly t =
    (str_eq t event_turn_start ≡ false)
    × (str_eq t event_turn_end ≡ false)
    × (str_eq t event_step_start ≡ false)
    × (str_eq t event_step_end ≡ false)

pub validate_transition-log_only :
    (t : String) (m : Machine) → IsLogOnly t → validate_transition t m ≡ ok m
unfolding validate_transition IsLogOnly
validate_transition-log_only t m h = rw (h.0, h.1, h.2, h.3) refl

pub emit_raw-Step :
    (w : World) (env : SessionEnvelope) (a : Agent)
    → IsLogOnly env.event_type
    → Step env.event_type a (emit_raw w env a).1
unfolding emit_raw publish leave
emit_raw-Step w env a log_only = by_store _ refl
  where
    numbered : SessionEnvelope
    numbered = record env { seq = pos a.seq_counter }

    counted : Agent
    counted = record a { seq_counter = a.seq_counter + 1 }

    by_store :
        (r : Result EmitError Agent)
        → persist_event w numbered counted ≡ r
        → Step env.event_type a (finish_raw w numbered counted r).1
    by_store (err e) at =
        unstored a.machine (validate_transition-log_only env.event_type a.machine log_only) refl
          refl refl
    by_store (ok x) at =
        settle w numbered env.event_type a counted a.machine
          (validate_transition-log_only env.event_type a.machine log_only) refl refl refl refl refl
          (ok x) at (publish w numbered) (λ y. publish-core w numbered y)
