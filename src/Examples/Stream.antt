-- ===== src/Examples/Stream.antt =====
-- The examples of the stream assembler.
use deep_seek_harness_x.Prelude.{
  false, ◌++◌, String, ◌≡◌, refl, [], ◌∷◌, none, some, true, lookup, ◌>>=◌, arith,
}
use deep_seek_harness_x.Llm.Stream.{
  StreamChunk, ChunkType, tool_call_delta, BlockAssembler, started_block, commit_legacy,
}
use deep_seek_harness_x.Llm.Stream.Ingest.{ingest_chunk, flush}
use deep_seek_harness_x.Llm.Stream.Invariant.{IsConsistent, Agree, Distinct, has_id, is_some}
use deep_seek_harness_x.Llm.Stream.Ingests.{IsTaken, ingest_chunk-IsTaken}
use deep_seek_harness_x.Llm.Stream.Finish.{
  commit_all, alternate, held, held_one, flush-alternate, flush-second,
}
use deep_seek_harness_x.Llm.Stream.Interleave.{is_delta, ingest_chunk-swap}

abbrev chunk : ChunkType → String → String → StreamChunk
chunk type key text = record {
  chunk_type = type;
  kind = "";
  block_id = key;
  text = text;
  id = "";
  name = "";
  arguments_delta = text;
  whole_block = none;
  usage = none;
  finish_reason = "";
}

-- Three tool calls in flight.
abbrev three_open : BlockAssembler
three_open = record {
  open_order = "a" ∷ "b" ∷ "c" ∷ [];
  active =
      ("a", started_block "tool-call" "1" "read")
      ∷ ("b", started_block "tool-call" "2" "write")
      ∷ ("c", started_block "tool-call" "3" "list")
      ∷ [];
  legacy_active = none;
  blocks = [];
  total_usage = none;
  reason = "";
}

three_open-IsConsistent : IsConsistent three_open
unfolding IsConsistent Agree Distinct has_id is_some lookup
three_open-IsConsistent = ((refl, (refl, (refl, tt))), λ id. ground arith)

ingest_chunk-IsTaken_example : IsTaken (ingest_chunk (chunk tool_call_delta "d" "{") three_open)
ingest_chunk-IsTaken_example =
    ingest_chunk-IsTaken (chunk tool_call_delta "d" "{") three_open three_open-IsConsistent

flush-alternate_example :
    flush three_open ≡ commit_legacy (commit_all (alternate three_open.open_order) three_open)
flush-alternate_example = flush-alternate three_open three_open-IsConsistent

flush-second_example :
    (lookup "b" (flush three_open).active ≡ lookup "b" three_open.active)
    × (has_id "b" (alternate three_open.open_order) ≡ false)
    × ((flush three_open).blocks
        ≡ (three_open.blocks ++ held three_open.active (alternate three_open.open_order))
          ++ held_one three_open.legacy_active)
flush-second_example = flush-second "a" "b" "c" [] three_open three_open-IsConsistent refl

at_a : lookup "a" three_open.active ≡ some (started_block "tool-call" "1" "read")
unfolding lookup
at_a = refl

at_b : lookup "b" three_open.active ≡ some (started_block "tool-call" "2" "write")
unfolding lookup
at_b = refl

calls-IsDelta : is_delta tool_call_delta ≡ true
unfolding is_delta
calls-IsDelta = refl

ingest_chunk-swap_example :
    (ingest_chunk (chunk tool_call_delta "a" "{") three_open
      >>= ingest_chunk (chunk tool_call_delta "b" "["))
    ≡ (ingest_chunk (chunk tool_call_delta "b" "[") three_open
        >>= ingest_chunk (chunk tool_call_delta "a" "{"))
ingest_chunk-swap_example =
    ingest_chunk-swap (chunk tool_call_delta "a" "{") (chunk tool_call_delta "b" "[") three_open
      (started_block "tool-call" "1" "read") (started_block "tool-call" "2" "write") calls-IsDelta
      calls-IsDelta refl refl refl at_a at_b
