-- ===== src/Examples/Agent.antt =====
-- The examples of the agent's lifecycle, its durable log and its retries.
use deep_seek_harness_x.Prelude.{
  ℕ, ◌<◌, ◌==◌, ok, inl, Bool, ◌≡◌, refl, List, [], ◌∷◌, none, some, true, false, All, arith,
  if◌then◌else◌,
}
use deep_seek_harness_x.Prelude.Int.{pos, negsuc}
use deep_seek_harness_x.Session.Events.{SessionEnvelope}
use deep_seek_harness_x.Storage.Sqlite.{next_seq, append_events, append_batch}
use deep_seek_harness_x.Agent.Lifecycle.{
  Machine, validate_transition, event_turn_start, event_step_start, event_step_end, event_turn_end,
}
use deep_seek_harness_x.Agent.Lifecycle.Emit.{
  World, other_payload, Agent, emit_event, emit_boundary, persist_event,
}
use deep_seek_harness_x.Agent.Lifecycle.Bracket.{
  idle, next_phase, phase_of, validated_phase, IsProper, validate_transition-next_phase,
}
use deep_seek_harness_x.Agent.Lifecycle.Stored.{
  Call, emit, after_calls, IsAllowed, log_state, log_state_from, IsSound, after_calls-IsSound,
}
use deep_seek_harness_x.Agent.Lifecycle.Stuck.{emit_event-stuck}
use deep_seek_harness_x.Agent.Lifecycle.Converge.{IsIdle, emit_boundary-IsIdle}
use deep_seek_harness_x.Agent.Retry.{
  transport, Attempt, clean, failed, Provider, finished, RetryEvent, llm_retry, classify_llm_error,
}
use deep_seek_harness_x.Agent.Retry.Budget.{IsEnded, llm_retry-IsEnded}
use deep_seek_harness_x.Agent.Retry.Recover.{IsTransient, llm_retry-recovers}

abbrev world : Bool → World
world fails = record {
  now = pos 0;
  marshal = λ p. some "{}";
  database_fails = fails;
  segment_fails = false;
}

abbrev machine : Machine
machine = record { active_turn = 0; active_step = 0; turn_number = 0; step_number = 0 }

abbrev fresh_agent : Agent
fresh_agent = record {
  machine = machine;
  seq_counter = 0;
  persist = some [];
  ring_buf = none;
  segment_log = none;
  subscribers = [];
  log_cache = [];
  last_cached = negsuc 0;
  cache_warm = false;
}

machine-IsProper : IsProper machine
unfolding IsProper
machine-IsProper h = refl

validate_transition-next_phase_example :
    validated_phase (validate_transition event_step_start machine)
    ≡ next_phase event_step_start (phase_of machine)
validate_transition-next_phase_example =
    validate_transition-next_phase event_step_start machine machine-IsProper

no_seq : next_seq [] ≡ pos 0
unfolding next_seq
no_seq = refl

fresh_agent-IsSound : IsSound [] fresh_agent
unfolding IsSound log_state log_state_from phase_of
fresh_agent-IsSound = (refl, machine-IsProper, (0, idle, refl, no_seq, inl (refl, refl)))

-- A turn with a step, whose step/end is lost.
abbrev calls : List Call
calls =
    emit (world false) event_turn_start (other_payload "") none
    ∷ emit (world false) event_step_start (other_payload "") none
    ∷ emit (world true) event_step_end (other_payload "") none
    ∷ emit (world false) event_turn_end (other_payload "") none
    ∷ []

calls-IsAllowed : All IsAllowed calls
unfolding IsAllowed
calls-IsAllowed = (tt, (tt, (tt, (tt, tt))))

after_calls-IsSound_example :
    (after : List SessionEnvelope) × IsSound after (after_calls calls fresh_agent)
after_calls-IsSound_example =
    after_calls-IsSound calls fresh_agent [] calls-IsAllowed fresh_agent-IsSound

abbrev in_turn_machine : Machine
in_turn_machine = record { active_turn = 1; active_step = 0; turn_number = 1; step_number = 0 }

starts : validate_transition event_turn_start machine ≡ ok in_turn_machine
unfolding validate_transition
starts = refl

emit_event-stuck_example :
    (after_calls calls
      (emit_event (world true) event_turn_start (other_payload "") none fresh_agent).1).persist
    ≡ some []
emit_event-stuck_example =
    emit_event-stuck (world true) event_turn_start (other_payload "") none fresh_agent
      in_turn_machine [] calls refl no_seq starts refl calls-IsAllowed

stops :
    (emit_boundary
      (world true)
      (world true)
      (world false)
      ""
      event_turn_start
      (other_payload "")
      fresh_agent).0
    ≡ false
unfolding emit_boundary emit_event validate_transition persist_event append_events append_batch
stops = refl

emit_boundary-IsIdle_example :
    IsIdle
      (emit_boundary
        (world true)
        (world true)
        (world false)
        ""
        event_turn_start
        (other_payload "")
        fresh_agent).1.machine
emit_boundary-IsIdle_example =
    emit_boundary-IsIdle (world true) (world true) (world false) "" event_turn_start
      (other_payload "") fresh_agent machine-IsProper stops

abbrev attempts : ℕ → Attempt
attempts n = if n == 0 then failed (transport "reset") else clean

abbrev flaky : Provider
flaky = record { attempt = attempts; wait_aborted = λ n. false; scale = λ n base. base }

llm_retry-IsEnded_example : IsEnded 5 0 [] (llm_retry flaky 5)
llm_retry-IsEnded_example = llm_retry-IsEnded flaky 5

first-IsTransient : (j : ℕ) → j < 1 → IsTransient flaky j
unfolding IsTransient classify_llm_error
first-IsTransient j h =
    let zero_j : j ≡ 0 = omega (arith, h) in rw zero_j (transport "reset", (_, refl, refl, refl))

llm_retry-recovers_example : (all : List RetryEvent) × (llm_retry flaky 5 ≡ some (finished, all))
llm_retry-recovers_example = llm_retry-recovers flaky 5 1 (omega arith) first-IsTransient refl
