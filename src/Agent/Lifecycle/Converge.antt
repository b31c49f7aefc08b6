-- ===== src/Agent/Lifecycle/Converge.antt =====
-- backend/pkg/agent/loop.go: finishTurnReason and emitBoundary leave no turn open in the machine.
use deep_seek_harness_x.Prelude.{
  String, ◌==◌, true, false, ◌≡◌, refl, ap, sym, ◌∙◌, subst, Option, none, inl, inr, Bool-cases,
  ok-injective, ok, err, arith,
}
use deep_seek_harness_x.Session.Events.{SurfaceOp, SessionEnvelope}
use deep_seek_harness_x.Agent.Lifecycle.{
  Machine, validate_transition, event_turn_end, event_step_end,
}
use deep_seek_harness_x.Agent.Lifecycle.Emit.{
  World, Payload, turn_end_payload, step_end_payload, Agent, Emitted, emit_event,
  finish_turn_reason, emit_boundary, escalate, invalid_transition, not_marshalled, not_persisted,
}
use deep_seek_harness_x.Agent.Lifecycle.Bracket.{IsProper, validate_transition-IsProper}
use deep_seek_harness_x.Agent.Lifecycle.Append.{rejected, unstored, appended, emit_event-Step}

-- The machine moves on as soon as it admits the event, stored or not.
pub emit_event-machine :
    (w : World) (event_type : String) (p : Payload) (op : Option SurfaceOp) (a : Agent)
    (m : Machine)
    → validate_transition event_type a.machine ≡ ok m
    → (emit_event w event_type p op a).1.machine ≡ m
emit_event-machine w event_type p op a m valid = elim (emit_event-Step w event_type p op a) [
  | rejected e invalid bm bs at ↦ cc
  | unstored n admitted bm bs at ↦ bm ∙ ok-injective (sym admitted ∙ valid)
  | appended n kept env admitted bm bs before next et number after ↦
      bm ∙ ok-injective (sym admitted ∙ valid)
]

emit_event-IsProper :
    (w : World) (event_type : String) (p : Payload) (op : Option SurfaceOp) (a : Agent)
    → IsProper a.machine
    → IsProper (emit_event w event_type p op a).1.machine
emit_event-IsProper w event_type p op a proper = elim (emit_event-Step w event_type p op a) [
  | rejected e invalid bm bs at ↦ subst IsProper (sym bm) proper
  | unstored n valid bm bs at ↦
      subst IsProper (sym bm) (validate_transition-IsProper event_type a.machine n proper valid)
  | appended n kept env valid bm bs before next et number after ↦
      subst IsProper (sym bm) (validate_transition-IsProper event_type a.machine n proper valid)
]

end_step-ok :
    (m : Machine)
    → (m.active_step == 0) ≡ false
    → validate_transition event_step_end m ≡ ok (record m { active_step = 0 })
unfolding validate_transition
end_step-ok m h = rw h refl

end_turn-ok :
    (m : Machine)
    → (m.active_turn == 0) ≡ false
    → (m.active_step == 0) ≡ true
    → validate_transition event_turn_end m ≡ ok (record m { active_turn = 0 })
unfolding validate_transition
end_turn-ok m h k = rw (h, k) refl

-- No turn and no step is open.
unfoldable pub IsIdle : Machine → Type 0
IsIdle m = (m.active_turn ≡ 0) × (m.active_step ≡ 0)

turn_end-IsIdle :
    (w : World) (p : Payload) (a : Agent)
    → (a.machine.active_turn == 0) ≡ false
    → (a.machine.active_step == 0) ≡ true
    → IsIdle (emit_event w event_turn_end p none a).1.machine
unfolding IsIdle
turn_end-IsIdle w p a turn no_step =
    let e = emit_event-machine w event_turn_end p none a _ (end_turn-ok a.machine turn no_step) in
    (ap (λ m. m.active_turn) e, ap (λ m. m.active_step) e ∙ ground (arith, no_step))

-- From a machine with no step open outside of a turn, finishTurnReason leaves no turn and no step open,
-- whether the two end events can be marshalled and stored or not.
pub finish_turn_reason-IsIdle :
    (at_step at_turn : World) (kind message : String) (a : Agent)
    → IsProper a.machine
    → IsIdle (finish_turn_reason at_step at_turn kind message a).machine
unfolding finish_turn_reason IsProper IsIdle
finish_turn_reason-IsIdle at_step at_turn kind message a proper =
    elim (Bool-cases (a.machine.active_turn == 0)) [
      | inl no_turn ↦ closed no_turn
      | inr turn ↦ elim (Bool-cases (a.machine.active_step == 0)) [
        | inl no_step ↦ rw (turn, no_step) (turn_end-IsIdle at_turn _ a turn no_step)
        | inr step ↦ rw (turn, step) (stepped turn step)
      ]
    ]
  where
    closed :
        (a.machine.active_turn == 0) ≡ true
        → IsIdle (finish_turn_reason at_step at_turn kind message a).machine
    closed no_turn =
        let turn : a.machine.active_turn ≡ 0 = ground (arith, no_turn) in
        let no_step : (a.machine.active_step == 0) ≡ true = ground (arith, proper turn) in
        rw (no_turn, no_step) (turn, proper turn)

    stepped :
        (a.machine.active_turn == 0) ≡ false
        → (a.machine.active_step == 0) ≡ false
        → IsIdle
            (emit_event at_turn event_turn_end
              (turn_end_payload 0 kind message)
              none
              (emit_event at_step event_step_end (step_end_payload 0 0) none a).1).1.machine
    stepped turn step =
        let e =
          emit_event-machine at_step event_step_end (step_end_payload 0 0) none a _
            (end_step-ok a.machine step) in
        turn_end-IsIdle at_turn _ _ (ap (λ m. m.active_turn == 0) e ∙ turn)
          (ap (λ m. m.active_step == 0) e)

escalate-IsIdle :
    (at_step at_turn : World) (message : String) (r : Emitted SessionEnvelope)
    → IsProper r.1.machine
    → (escalate at_step at_turn message r).0 ≡ false
    → IsIdle (escalate at_step at_turn message r).1.machine
escalate-IsIdle at_step at_turn message (ok env, a) proper h = cc
escalate-IsIdle at_step at_turn message (err (invalid_transition e), a) proper h = cc
escalate-IsIdle at_step at_turn message (err not_marshalled, a) proper h =
    finish_turn_reason-IsIdle at_step at_turn "error" message a proper
escalate-IsIdle at_step at_turn message (err not_persisted, a) proper h =
    finish_turn_reason-IsIdle at_step at_turn "error" message a proper

-- Where emitBoundary reports that the caller must stop, from a machine with no step open outside of a turn, it
-- leaves no turn and no step open in the machine, whatever fails while it closes them.
pub emit_boundary-IsIdle :
    (w at_step at_turn : World) (message event_type : String) (p : Payload) (a : Agent)
    → IsProper a.machine
    → (emit_boundary w at_step at_turn message event_type p a).0 ≡ false
    → IsIdle (emit_boundary w at_step at_turn message event_type p a).1.machine
unfolding emit_boundary
emit_boundary-IsIdle w at_step at_turn message event_type p a proper h =
    escalate-IsIdle at_step at_turn message (emit_event w event_type p none a)
      (emit_event-IsProper w event_type p none a proper) h
