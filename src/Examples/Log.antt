-- ===== src/Examples/Log.antt =====
-- The log that the examples share.
use deep_seek_harness_x.Prelude.{ℕ, zero, suc, false, Option, none, some, List, [], ◌∷◌}
use deep_seek_harness_x.Prelude.Int.{ℤ, pos}
use deep_seek_harness_x.Session.Json.{Codec}
use deep_seek_harness_x.Session.Events.{
  SessionEnvelope, SurfaceOp, append_surface_op, replace_surface_op, event_user_message,
}
use deep_seek_harness_x.Session.Manager.{Address, Heap}

abbrev pub codec : Codec
codec = record { unmarshal = λ _. none; marshal = λ _. none }

abbrev pub message : ℕ → Option (List ℤ) → SurfaceOp → SessionEnvelope
message n sources op = record {
  seq = pos n;
  time = pos 0;
  event_type = event_user_message;
  raw_data = "text";
  source_event_seqs = sources;
  surface_op = some op;
  ignorable = false;
}

-- Two messages, and a third one that replaces them.
abbrev pub first : SessionEnvelope
first = message 0 none append_surface_op

abbrev pub second : SessionEnvelope
second = message 1 none append_surface_op

abbrev pub replacing : SessionEnvelope
replacing = message 2 (some (pos 0 ∷ pos 1 ∷ [])) (replace_surface_op (pos 0) (pos 1))

abbrev pub fourth : SessionEnvelope
fourth = message 3 none append_surface_op

abbrev pub events : List (Option SessionEnvelope)
events = some first ∷ some second ∷ some replacing ∷ []

abbrev pub heap : Heap
heap zero = some first
heap (suc zero) = some second
heap (suc (suc zero)) = some replacing
heap (suc (suc (suc n))) = some fourth

abbrev pub log : List Address
log = 0 ∷ 1 ∷ 2 ∷ []
