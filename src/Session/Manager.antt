-- ===== src/Session/Manager.antt =====
-- backend/pkg/session/surface.go, the incremental SurfaceManager.
-- An envelope's address is a number, and `heap` gives the envelope at an address, `none` for a nil
-- pointer: the manager compares addresses, and a validated envelope is not written to.
-- A method returns the manager that it leaves beside its result, also where it fails.
pub mod Refines
pub mod Contract
pub mod Grow
use deep_seek_harness_x.Prelude.{
  ℕ, zero, suc, ◌-◌, Bool, true, false, ◌&&◌, Option, none, some, List, [], ◌∷◌, map, length, ◌==◌,
  str_eq, if◌then◌else◌, Result, ok, err, ◌>>=◌,
}
use deep_seek_harness_x.Prelude.Int.{ℤ, pos, pos_part, ◌+ℤ◌, ◌-ℤ◌, ◌=ℤ◌, ltb_ℤ, leb_ℤ}
use deep_seek_harness_x.Session.Json.{Codec}
use deep_seek_harness_x.Session.Events.{SessionEnvelope}
use deep_seek_harness_x.Session.Surface.{
  Outcome, panic, SurfaceFoldState, SurfacePlan, append, replace, empty_state, at_index,
  plan_surface_event, apply_surface_plan, apply_surface_event,
}

abbrev pub Address : Type 0
Address = ℕ

abbrev pub Heap : Type 0
Heap = Address → Option SessionEnvelope

pub record SurfaceManager : Type 0 where
  pub state : SurfaceFoldState
  pub log : List Address
  pub base_seq : ℤ
  pub last_processed : ℤ
  pub pending_event : Option Address
  pub pending_plan : Option SurfacePlan

unfoldable pub new_surface_manager : List Address → ℤ → SurfaceManager
unfolding ◌-ℤ◌
new_surface_manager log base_seq = record {
  state = empty_state;
  log = log;
  base_seq = base_seq;
  last_processed = base_seq -ℤ pos 1;
  pending_event = none;
  pending_plan = none;
}

-- `plan.seq`
unfoldable pub seq_of : SurfacePlan → ℤ
seq_of (append q) = q
seq_of (replace q start end i j shadowed) = q

-- `m.pendingEvent == event`
abbrev is_pending : Option Address → Address → Bool
is_pending none a = false
is_pending (some b) a = b == a

-- The state after one event of the log: by the pending plan if it is this event's, else afresh.
unfoldable pub fold_next :
    Codec → Heap → SurfaceManager → Option SurfacePlan → Address → ℤ → Outcome SurfaceFoldState
unfolding seq_of apply_surface_plan apply_surface_event
fold_next c heap m none a seq = do
  r ← apply_surface_event c m.state (heap a) seq (map heap m.log) m.base_seq
  ok r.0
fold_next c heap m (some plan) a seq =
    if is_pending m.pending_event a && seq_of plan =ℤ seq
    then ok (apply_surface_plan m.state (some plan)).0
    else (do r ← apply_surface_event c m.state (heap a) seq (map heap m.log) m.base_seq; ok r.0)

-- `if pending != nil && pending.seq <= seq { … = nil }`
unfoldable pub drop_pending : SurfaceManager → Option SurfacePlan → ℤ → SurfaceManager
unfolding seq_of
drop_pending m none seq = m
drop_pending m (some plan) seq =
    if leb_ℤ (seq_of plan) seq then record m { pending_event = none; pending_plan = none } else m

-- The end of a round: the folded state is stored, or the loop returns the error.
unfoldable pub settle :
    SurfaceManager → ℤ → Outcome SurfaceFoldState → SurfaceManager × Outcome Unit
unfolding drop_pending
settle m seq (err f) = (m, err f)
settle m seq (ok state') =
    (record (drop_pending m m.pending_plan seq) { state = state'; last_processed = seq }, ok tt)

process_at : Codec → Heap → SurfaceManager → ℤ → Option Address → SurfaceManager × Outcome Unit
process_at c heap m seq none = (m, err panic)
process_at c heap m seq (some a) = settle m seq (fold_next c heap m m.pending_plan a seq)

-- One round of the loop of processDelta.
unfoldable pub process_next : Codec → Heap → SurfaceManager → ℤ → SurfaceManager × Outcome Unit
unfolding process_at settle fold_next ◌-ℤ◌
process_next c heap m seq = process_at c heap m seq (at_index m.log (seq -ℤ m.base_seq))

abbrev then_rounds :
    SurfaceManager × Outcome Unit → SurfaceManager × Outcome Unit → SurfaceManager × Outcome Unit
then_rounds step rest = elim step.1 [ err f ↦ step | ok _ ↦ rest ]

-- `rounds` is the number of the seqs from `last_processed + 1` through the tail.
unfoldable pub process_rounds : Codec → Heap → ℕ → SurfaceManager → SurfaceManager × Outcome Unit
unfolding process_next ◌+ℤ◌
process_rounds c heap zero m = (m, ok tt)
process_rounds c heap (suc rounds) m =
    let step = process_next c heap m (m.last_processed +ℤ pos 1) in
    let rest = process_rounds c heap rounds step.0 in then_rounds step rest

unfoldable pub tail_seq : SurfaceManager → ℤ
unfolding ◌+ℤ◌ ◌-ℤ◌
tail_seq m = m.base_seq +ℤ pos (length m.log) -ℤ pos 1

unfoldable pub process_delta : Codec → Heap → SurfaceManager → SurfaceManager × Outcome Unit
unfolding process_rounds tail_seq ◌-ℤ◌
process_delta c heap m = process_rounds c heap (pos_part (tail_seq m -ℤ m.last_processed)) m

unfoldable pub nodes : Codec → Heap → SurfaceManager → SurfaceManager × Outcome (List ℤ)
unfolding process_delta
nodes c heap m = let (m', r) = process_delta c heap m in (m', r >>= λ _. ok m'.state.nodes)

unfoldable pub replace_generation : Codec → Heap → SurfaceManager → SurfaceManager × Outcome ℕ
unfolding process_delta
replace_generation c heap m =
    let (m', r) = process_delta c heap m in (m', r >>= λ _. ok m'.state.replace_generation)

-- The end of ValidateNext: the plan is kept for the event, or the error is returned.
keep_plan : SurfaceManager → Address → Outcome (Option SurfacePlan) → SurfaceManager × Outcome Unit
keep_plan m a (err f) = (m, err f)
keep_plan m a (ok plan) = (record m { pending_event = some a; pending_plan = plan }, ok tt)

plan_next : Codec → Heap → SurfaceManager → Address → SurfaceManager × Outcome Unit
unfolding plan_surface_event keep_plan ◌+ℤ◌
plan_next c heap m a = keep_plan m a (
    plan_surface_event c m.state (heap a) (m.base_seq +ℤ pos (length m.log)) (map heap m.log)
      m.base_seq)

-- What ValidateNext does once the log is processed.
after_delta : Codec → Heap → Address → SurfaceManager × Outcome Unit → SurfaceManager × Outcome Unit
unfolding plan_next
after_delta c heap a (m, err f) = (m, err f)
after_delta c heap a (m, ok _) = plan_next c heap m a

unfoldable pub validate_next :
    Codec → Heap → SurfaceManager → Address → SurfaceManager × Outcome Unit
unfolding process_delta after_delta tail_seq
validate_next c heap m a =
    if ltb_ℤ m.last_processed (tail_seq m)
    then after_delta c heap a (process_delta c heap m)
    else plan_next c heap m a
