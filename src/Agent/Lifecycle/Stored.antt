-- ===== src/Agent/Lifecycle/Stored.antt =====
-- backend/pkg/agent/loop.go with backend/pkg/storage/store_sqlite.go: the durable log that a run of
-- emits leaves, whatever fails on the way.
use deep_seek_harness_x.Prelude.{
  String, ℕ, suc, ◌<◌, ◌≡◌, refl, ap, sym, subst, ◌∙◌, List, [], ◌∷◌, ◌++◌, All, Option, none, some,
  some-injective, if◌then◌else◌, inl, inr, ◌⊎◌, ok, arith,
}
use deep_seek_harness_x.Prelude.Int.{pos, ◌+ℤ◌, ◌=ℤ◌, =ℤ_refl}
use deep_seek_harness_x.Session.Events.{SessionEnvelope, SurfaceOp}
use deep_seek_harness_x.Storage.Sqlite.{next_seq}
use deep_seek_harness_x.Agent.Lifecycle.{Machine, validate_transition}
use deep_seek_harness_x.Agent.Lifecycle.Emit.{World, Payload, Agent, emit_event, emit_raw}
use deep_seek_harness_x.Agent.Lifecycle.Bracket.{
  Phase, idle, next_phase, phase_of, validated_phase, IsProper, validate_transition-next_phase,
  validate_transition-IsProper,
}
use deep_seek_harness_x.Agent.Lifecycle.Append.{
  Step, rejected, unstored, appended, IsLogOnly, emit_event-Step, emit_raw-Step,
}

-- The calls that write the log, each with the world it meets.
pub data Call : Type 0 where
  emit : World → String → Payload → Option SurfaceOp → Call
  raw : World → SessionEnvelope → Call

-- The agent after a call, its error dropped.
unfoldable pub after_call : Call → Agent → Agent
unfolding emit_event emit_raw
after_call (emit w event_type p op) a = (emit_event w event_type p op a).1
after_call (raw w env) a = (emit_raw w env a).1

unfoldable pub after_calls : List Call → Agent → Agent
after_calls [] a = a
after_calls (c ∷ calls) a = after_calls calls (after_call c a)

-- A raw event is not one of the machine's boundaries.
unfoldable pub IsAllowed : Call → Type 0
IsAllowed (emit w event_type p op) = Unit
IsAllowed (raw w env) = IsLogOnly env.event_type

abbrev pub call_type : Call → String
call_type (emit w event_type p op) = event_type
call_type (raw w env) = env.event_type

pub after_call-Step : (c : Call) (a : Agent) → IsAllowed c → Step (call_type c) a (after_call c a)
unfolding after_call IsAllowed
after_call-Step (emit w event_type p op) a h = emit_event-Step w event_type p op a
after_call-Step (raw w env) a h = emit_raw-Step w env a h

-- The log read on its own: seqs that count up by one and boundaries that nest. It gives the next seq and the
-- phase that the log ends in.
abbrev pub next_state : SessionEnvelope → ℕ × Phase → Option (ℕ × Phase)
next_state e (n, p) =
    if e.seq =ℤ pos n
    then elim (next_phase e.event_type p) [ none ↦ none | some q ↦ some (suc n, q) ]
    else none

abbrev pub then_state : SessionEnvelope → Option (ℕ × Phase) → Option (ℕ × Phase)
then_state e none = none
then_state e (some s) = next_state e s

unfoldable pub log_state_from : Option (ℕ × Phase) → List SessionEnvelope → Option (ℕ × Phase)
log_state_from s [] = s
log_state_from s (e ∷ log) = log_state_from (then_state e s) log

unfoldable pub log_state : List SessionEnvelope → Option (ℕ × Phase)
log_state log = log_state_from (some (0, idle)) log

-- The durable log is well formed, and the agent either stands at its end or has numbered past it.
unfoldable pub IsSound : List SessionEnvelope → Agent → Type 0
IsSound stored a =
    (a.persist ≡ some stored)
    × IsProper a.machine
    × ((n : ℕ) × (p : Phase) × (log_state stored ≡ some (n, p))
        × (next_seq stored ≡ pos n)
        × (((n ≡ a.seq_counter) × (p ≡ phase_of a.machine)) ⊎ (n < a.seq_counter)))

log_state-append :
    (stored : List SessionEnvelope) (e : SessionEnvelope) (s : Option (ℕ × Phase))
    → log_state_from s (stored ++ e ∷ []) ≡ then_state e (log_state_from s stored)
unfolding log_state_from
log_state-append [] e s = refl
log_state-append (x ∷ stored) e s = log_state-append stored e (then_state x s)

next_seq-append :
    (stored : List SessionEnvelope) (e : SessionEnvelope)
    → next_seq (stored ++ e ∷ []) ≡ e.seq +ℤ pos 1
unfolding next_seq
next_seq-append [] e = refl
next_seq-append (x ∷ []) e = refl
next_seq-append (x ∷ y ∷ stored) e = next_seq-append (y ∷ stored) e

pos-injective : (n m : ℕ) → pos n ≡ pos m → n ≡ m
pos-injective n m h = cc

pos-suc : (n : ℕ) → pos n +ℤ pos 1 ≡ pos (suc n)
unfolding ◌+ℤ◌
pos-suc n = ground arith

-- The next phase, from the machine that let the event through.
phase-step :
    (t : String) (m next : Machine)
    → IsProper m
    → validate_transition t m ≡ ok next
    → next_phase t (phase_of m) ≡ some (phase_of next)
unfolding validated_phase
phase-step t m next proper valid =
    sym (validate_transition-next_phase t m proper) ∙ ap validated_phase valid

log_state-step :
    (stored : List SessionEnvelope) (env : SessionEnvelope) (n : ℕ) (p q : Phase)
    → log_state stored ≡ some (n, p)
    → env.seq ≡ pos n
    → next_phase env.event_type p ≡ some q
    → log_state (stored ++ env ∷ []) ≡ some (suc n, q)
unfolding log_state
log_state-step stored env n p q before number phase =
    rw (log_state-append stored env (some (0, idle)), before, number, =ℤ_refl (pos n), phase) refl

pub Step-IsSound :
    (t : String) (a b : Agent) (stored : List SessionEnvelope)
    → Step t a b
    → IsSound stored a
    → (after : List SessionEnvelope) × IsSound after b
unfolding IsSound
Step-IsSound t a b stored (rejected e invalid bm bs at) (here, proper, (n, p, state, next, place)) =
    (
      stored,
      (
        at ∙ here,
        subst IsProper (sym bm) proper,
        (
          n,
          p,
          state,
          next,
          elim place [
            | inl (counted, phase) ↦ inl (counted ∙ sym bs, phase ∙ ap phase_of (sym bm))
            | inr ahead ↦ inr (omega (arith, ahead, bs))
          ],
        ),
      ),
    )
Step-IsSound t a b stored (unstored m valid bm bs at) (here, proper, (n, p, state, next, place)) = (
  stored,
  (
    at ∙ here,
    subst IsProper (sym bm) (validate_transition-IsProper t a.machine m proper valid),
    (
      n,
      p,
      state,
      next,
      inr (elim place [
        | inl (counted, phase) ↦ omega (arith, counted, bs)
        | inr ahead ↦ omega (arith, ahead, bs)
      ]),
    ),
  ),
)
Step-IsSound t a b stored (appended m kept env valid bm bs before next_kept et number after)
      (here, proper, (n, p, state, next, place)) =
    let same : kept ≡ stored = some-injective (sym before ∙ here) in
    let counted : n ≡ a.seq_counter =
      pos-injective n a.seq_counter (sym next ∙ ap next_seq (sym same) ∙ next_kept) in
    let phase : p ≡ phase_of a.machine = elim place [
      | inl aligned ↦ aligned.1
      | inr ahead ↦ absurd (omega (arith, ahead, counted))
    ] in
    let at_n : env.seq ≡ pos n = number ∙ ap pos (sym counted) in
    (
      stored ++ env ∷ [],
      (
        after ∙ ap (λ log. some (log ++ env ∷ [])) same,
        subst IsProper (sym bm) (validate_transition-IsProper t a.machine m proper valid),
        (
          suc n,
          phase_of m,
          log_state-step stored env n p (phase_of m) state at_n
              (rw (et, phase) (phase-step t a.machine m proper valid)),
          next_seq-append stored env ∙ ap (λ q. q +ℤ pos 1) at_n ∙ pos-suc n,
          inl (omega (arith, counted, bs), ap phase_of (sym bm)),
        ),
      ),
    )

-- From an agent at the end of a well-formed durable log, whatever events are emitted and whatever fails, the
-- durable log stays well formed: its seqs count up by one from 0 and its turns and steps nest.
pub after_calls-IsSound :
    (calls : List Call) (a : Agent) (stored : List SessionEnvelope)
    → All IsAllowed calls
    → IsSound stored a
    → (after : List SessionEnvelope) × IsSound after (after_calls calls a)
unfolding after_calls
after_calls-IsSound [] a stored allowed h = (stored, h)
after_calls-IsSound (c ∷ calls) a stored (first, rest) h =
    let next = Step-IsSound (call_type c) a (after_call c a) stored (after_call-Step c a first) h in
    after_calls-IsSound calls (after_call c a) next.0 rest next.1
