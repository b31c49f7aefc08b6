-- ===== src/Compaction/Pairing.antt =====
-- backend/pkg/compaction/toolpairing.go: which cuts of a surface split no tool call from its result.
pub mod Balance
use deep_seek_harness_x.Prelude.{
  suc, Bool, true, Option, none, some, List, [], ◌∷◌, str_eq, if◌then◌else◌, Result, ok, err, ◌>>=◌,
  ℕ, ◌+◌,
}
use deep_seek_harness_x.Prelude.Int.{ℤ, pos, negsuc, ◌+ℤ◌, ◌=ℤ◌, ltb_ℤ}
use deep_seek_harness_x.Session.Events.{SessionEnvelope, event_assistant_message, event_tool_result}
use deep_seek_harness_x.Session.Messages.{Decoder, WireMessage, Blocks, nil, cons, block_type}
use deep_seek_harness_x.Session.Surface.{at_index}

pub data PairingError : Type 0 where
  invalid_payload no_event unmatched_result position_not_found : PairingError

-- `count` over the blocks of an assistant message.
unfoldable pub count_calls : Blocks → ℕ
count_calls nil = 0
count_calls (cons b r) =
    let n = count_calls r in if str_eq (block_type b) "tool-call" then suc n else n

calls_of : Option WireMessage → Result PairingError ℤ
unfolding count_calls
calls_of none = err invalid_payload
calls_of (some w) = ok (pos (count_calls w.content))

unfoldable pub event_tool_delta : Decoder → SessionEnvelope → Result PairingError ℤ
unfolding calls_of
event_tool_delta d e =
    if str_eq e.event_type event_assistant_message
    then calls_of (d.assistant_message e.raw_data)
    else if str_eq e.event_type event_tool_result
    then ok (negsuc 0)
    else ok (pos 0)

-- The map `bySeq`: of two events with one seq the later stays.
unfoldable pub by_seq : ℤ → List SessionEnvelope → Option SessionEnvelope
by_seq q [] = none
by_seq q (e ∷ es) =
    let later = by_seq q es in
    elim later [ some x ↦ some x | none ↦ if e.seq =ℤ q then some e else none ]

-- What one surface seq adds to the calls in progress.
seq_delta : Decoder → Option SessionEnvelope → Result PairingError ℤ
unfolding event_tool_delta
seq_delta d none = err no_event
seq_delta d (some e) = event_tool_delta d e

-- One round of the loop: the calls in progress after a surface seq.
unfoldable pub advance : Decoder → List SessionEnvelope → ℤ → ℤ → Result PairingError ℤ
unfolding seq_delta by_seq ◌+ℤ◌
advance d events in_progress q = do
  delta ← seq_delta d (by_seq q events)
  if ltb_ℤ (in_progress +ℤ delta) (pos 0) then err unmatched_result else ok (in_progress +ℤ delta)

-- The balances after each of the seqs, from a number of calls in progress.
unfoldable pub balances_from :
    Decoder → List SessionEnvelope → ℤ → List ℤ → Result PairingError (List Bool)
unfolding advance
balances_from d events in_progress [] = ok []
balances_from d events in_progress (q ∷ qs) = advance d events in_progress q >>= λ p.
    balances_from d events p qs >>= λ rest. ok ((p =ℤ pos 0) ∷ rest)

unfoldable pub cut_balances :
    Decoder → List SessionEnvelope → List ℤ → Result PairingError (List Bool)
unfolding balances_from
cut_balances d events nodes = do
  rest ← balances_from d events (pos 0) nodes
  ok ((pos 0 =ℤ pos 0) ∷ rest)

at_cut : Option Bool → Result PairingError Bool
at_cut none = err position_not_found
at_cut (some b) = ok b

unfoldable pub balanced_before :
    Decoder → List SessionEnvelope → List ℤ → ℤ → Result PairingError Bool
unfolding cut_balances at_cut
balanced_before d events nodes idx = do
  balances ← cut_balances d events nodes
  at_cut (at_index balances idx)

unfoldable pub balanced_after :
    Decoder → List SessionEnvelope → List ℤ → ℤ → Result PairingError Bool
unfolding cut_balances at_cut ◌+ℤ◌
balanced_after d events nodes idx = do
  balances ← cut_balances d events nodes
  at_cut (at_index balances (idx +ℤ pos 1))
