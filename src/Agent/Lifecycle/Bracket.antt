-- ===== src/Agent/Lifecycle/Bracket.antt =====
-- backend/pkg/agent/loop.go: validateTransition against the bracket structure of turns and steps.
use deep_seek_harness_x.Prelude.{
  String, ◌==◌, false, ◌||◌, ◌≡◌, Option, none, some, str_eq, eq_iff, if◌then◌else◌, inl, inr, sym,
  subst, Bool-cases, ok-injective, Result, ok, err, arith,
}
use deep_seek_harness_x.Agent.Lifecycle.{
  Machine, InvalidTransition, validate_transition, event_turn_start, event_turn_end,
  event_step_start, event_step_end, start_turn, end_turn, start_step, end_step,
}

-- Where a log of boundary events stands.
pub data Phase : Type 0 where
  idle : Phase
  in_turn : Phase
  in_step : Phase

unfoldable pub next_phase : String → Phase → Option Phase
next_phase t idle =
    if str_eq t event_turn_start
    then some in_turn
    else if str_eq t event_turn_end || str_eq t event_step_start || str_eq t event_step_end
    then none
    else some idle
next_phase t in_turn =
    if str_eq t event_turn_start
    then none
    else if str_eq t event_turn_end
    then some idle
    else if str_eq t event_step_start
    then some in_step
    else if str_eq t event_step_end
    then none
    else some in_turn
next_phase t in_step =
    if str_eq t event_turn_start || str_eq t event_turn_end || str_eq t event_step_start
    then none
    else if str_eq t event_step_end
    then some in_turn
    else some in_step

unfoldable pub phase_of : Machine → Phase
phase_of m = if m.active_turn == 0 then idle else if m.active_step == 0 then in_turn else in_step

unfoldable pub validated_phase : Result InvalidTransition Machine → Option Phase
validated_phase (ok m) = some (phase_of m)
validated_phase (err e) = none

-- No step is open outside of a turn.
unfoldable pub IsProper : Machine → Type 0
IsProper m = m.active_turn ≡ 0 → m.active_step ≡ 0

-- What each boundary does to the phase, the machine's tests split.
module _ (m : Machine) (proper : IsProper m) where
  start_turn-phase : validated_phase (start_turn m) ≡ (next_phase event_turn_start (phase_of m))
  unfolding validated_phase phase_of next_phase
  start_turn-phase = ground arith

  end_turn-phase : validated_phase (end_turn m) ≡ next_phase event_turn_end (phase_of m)
  unfolding validated_phase phase_of next_phase IsProper
  end_turn-phase = ground (arith, proper)

  start_step-phase : validated_phase (start_step m) ≡ next_phase event_step_start (phase_of m)
  unfolding validated_phase phase_of next_phase IsProper
  start_step-phase = ground (arith, proper)

  end_step-phase : validated_phase (end_step m) ≡ next_phase event_step_end (phase_of m)
  unfolding validated_phase phase_of next_phase IsProper
  end_step-phase = ground (arith, proper)

other_phase :
    (m : Machine) (t : String)
    → str_eq t event_turn_start ≡ false
    → str_eq t event_turn_end ≡ false
    → str_eq t event_step_start ≡ false
    → str_eq t event_step_end ≡ false
    → validated_phase (validate_transition t m) ≡ next_phase t (phase_of m)
unfolding validate_transition validated_phase phase_of next_phase
other_phase m t h1 h2 h3 h4 = rw (h1, h2, h3, h4) (ground arith)

-- A machine that was let through keeps its step inside its turn.
module _ (m next : Machine) (proper : IsProper m) where
  start_turn-IsProper : start_turn m ≡ ok next → IsProper next
  unfolding IsProper
  start_turn-IsProper h closed = ground (arith, h, closed)

  end_turn-IsProper : end_turn m ≡ ok next → IsProper next
  unfolding IsProper
  end_turn-IsProper h closed = ground (arith, h, closed)

  start_step-IsProper : start_step m ≡ ok next → IsProper next
  unfolding IsProper
  start_step-IsProper h closed = ground (arith, h, closed)

  end_step-IsProper : end_step m ≡ ok next → IsProper next
  unfolding IsProper
  end_step-IsProper h closed = ground (arith, h, closed)

-- The four boundary events, and any other event.
pub data EventCase (t : String) : Type 0 where
  is_turn_start : t ≡ event_turn_start → EventCase t
  is_turn_end : t ≡ event_turn_end → EventCase t
  is_step_start : t ≡ event_step_start → EventCase t
  is_step_end : t ≡ event_step_end → EventCase t
  is_other :
      str_eq t event_turn_start ≡ false
      → str_eq t event_turn_end ≡ false
      → str_eq t event_step_start ≡ false
      → str_eq t event_step_end ≡ false
      → EventCase t

event_case : (t : String) → EventCase t
event_case t = elim (Bool-cases (str_eq t event_turn_start)) [
  | inl h ↦ is_turn_start ((eq_iff t event_turn_start).0 h)
  | inr h1 ↦ elim (Bool-cases (str_eq t event_turn_end)) [
    | inl h ↦ is_turn_end ((eq_iff t event_turn_end).0 h)
    | inr h2 ↦ elim (Bool-cases (str_eq t event_step_start)) [
      | inl h ↦ is_step_start ((eq_iff t event_step_start).0 h)
      | inr h3 ↦ elim (Bool-cases (str_eq t event_step_end)) [
        | inl h ↦ is_step_end ((eq_iff t event_step_end).0 h)
        | inr h4 ↦ is_other h1 h2 h3 h4
      ]
    ]
  ]
]

-- From a machine with no step open outside of a turn, an event is admitted exactly where the bracket
-- structure of turns and steps allows it, and the machine then stands in the phase it leads to.
pub validate_transition-next_phase :
    (event_type : String) (m : Machine)
    → IsProper m
    → validated_phase (validate_transition event_type m) ≡ next_phase event_type (phase_of m)
unfolding validate_transition
validate_transition-next_phase event_type m proper = by_case (event_case event_type)
  where
    goal : String → Type 0
    goal t = validated_phase (validate_transition t m) ≡ next_phase t (phase_of m)

    by_case : EventCase event_type → goal event_type
    by_case (is_turn_start e) = subst goal (sym e) (start_turn-phase m proper)
    by_case (is_turn_end e) = subst goal (sym e) (end_turn-phase m proper)
    by_case (is_step_start e) = subst goal (sym e) (start_step-phase m proper)
    by_case (is_step_end e) = subst goal (sym e) (end_step-phase m proper)
    by_case (is_other h1 h2 h3 h4) = other_phase m event_type h1 h2 h3 h4

pub validate_transition-IsProper :
    (event_type : String) (m next : Machine)
    → IsProper m
    → validate_transition event_type m ≡ ok next
    → IsProper next
unfolding validate_transition
validate_transition-IsProper event_type m next proper = by_case (event_case event_type)
  where
    goal : String → Type 0
    goal t = validate_transition t m ≡ ok next → IsProper next

    by_case : EventCase event_type → goal event_type
    by_case (is_turn_start e) = subst goal (sym e) (start_turn-IsProper m next proper)
    by_case (is_turn_end e) = subst goal (sym e) (end_turn-IsProper m next proper)
    by_case (is_step_start e) = subst goal (sym e) (start_step-IsProper m next proper)
    by_case (is_step_end e) = subst goal (sym e) (end_step-IsProper m next proper)
    by_case (is_other h1 h2 h3 h4) = rw (h1, h2, h3, h4) λ h. subst IsProper (ok-injective h) proper
