-- ===== src/Llm/Stream/Ingest.antt =====
-- backend/pkg/llm/stream.go: IngestChunk, a function for each case of its switch, and the finish loop.
use deep_seek_harness_x.Prelude.{
  String, not, ℕ, zero, suc, List, [], ◌∷◌, ◌++◌, length, drop, get_elem?, Option, none, some,
  str_eq, if◌then◌else◌, lookup, Result, ok, err, ◌>>=◌,
}
use deep_seek_harness_x.Session.Messages.{ContentBlock}
use deep_seek_harness_x.Llm.Stream.{
  TokenUsage, ChunkType, block_start, text_delta, reasoning_delta, tool_call_delta, block_end,
  usage_chunk, finish, other_chunk, StreamChunk, BlockAssembler, Place, keyed, legacy, place_of,
  Panic, nil_block, empty_block, started_block, set_kind, add_text, add_call, last_id, target,
  update, open_block, commit, commit_legacy,
}

-- `for _, id := range ba.openOrder { ba.commit(id) }`: the range keeps the slice it started with, and
-- `commit` shifts that slice's own backing array, whose slots behind the shorter slice stay as they are.
unfoldable pub shift_slots : List String → List String → List String
shift_slots order slots = order ++ drop (length order) slots

abbrev pub finish_at : Option String → BlockAssembler → BlockAssembler
finish_at none ba = ba
finish_at (some id) ba = commit id ba

-- `left` iterations from slot `i`.
unfoldable pub finish_loop : ℕ → ℕ → List String → BlockAssembler → BlockAssembler
finish_loop zero i slots ba = ba
finish_loop (suc left) i slots ba =
    let next = finish_at (get_elem? slots i) ba in
    finish_loop left (suc i) (shift_slots next.open_order slots) next

unfoldable pub flush : BlockAssembler → BlockAssembler
flush ba = commit_legacy (finish_loop (length ba.open_order) 0 ba.open_order ba)

-- `if ba.legacyActive == nil { ba.legacyActive = ... }`
abbrev pub legacy_or : ContentBlock → Option ContentBlock → BlockAssembler → BlockAssembler
legacy_or fresh none ba = record ba { legacy_active = some fresh }
legacy_or fresh (some b) ba = ba

abbrev pub delta_new : String → StreamChunk → BlockAssembler → Result Panic BlockAssembler
delta_new kind c ba =
    if not (str_eq c.block_id "")
    then update (keyed c.block_id) (λ b. add_text c.text (set_kind kind b))
        (open_block c.block_id ba)
    else update legacy (λ b. add_text c.text (set_kind kind b))
        (legacy_or empty_block ba.legacy_active ba)

abbrev pub delta_at :
    String → StreamChunk → Option Place → BlockAssembler → Result Panic BlockAssembler
delta_at kind c none ba = delta_new kind c ba
delta_at kind c (some place) ba = update place (add_text c.text) ba

-- The text and the reasoning case, which differ in the type they give.
unfoldable pub ingest_delta : String → StreamChunk → BlockAssembler → Result Panic BlockAssembler
ingest_delta kind c ba = delta_at kind c (target ba c) ba

abbrev pub start_keyed :
    StreamChunk → Option ContentBlock → BlockAssembler → Result Panic BlockAssembler
start_keyed c (some b) ba = ok ba
start_keyed c none ba =
    update (keyed c.block_id) (λ b. started_block c.kind c.id c.name) (open_block c.block_id ba)

abbrev pub commit_last : Option String → BlockAssembler → BlockAssembler
commit_last none ba = ba
commit_last (some id) ba = commit id ba

abbrev pub start_legacy : Option ContentBlock → BlockAssembler → BlockAssembler
start_legacy none ba = commit_last (last_id ba.open_order) ba
start_legacy (some b) ba = commit_legacy ba

unfoldable pub ingest_start : StreamChunk → BlockAssembler → Result Panic BlockAssembler
ingest_start c ba =
    if not (str_eq c.block_id "")
    then start_keyed c (lookup c.block_id ba.active) ba
    else ok (record (start_legacy ba.legacy_active ba) {
      legacy_active = some (started_block c.kind c.id c.name);
    })

abbrev pub call_at : StreamChunk → Option Place → BlockAssembler → Result Panic BlockAssembler
call_at c none ba = err nil_block
call_at c (some place) ba = update place (add_call c) ba

abbrev pub call_keyed :
    StreamChunk → Option ContentBlock → BlockAssembler → Result Panic BlockAssembler
call_keyed c (some b) ba = call_at c (some (keyed c.block_id)) ba
call_keyed c none ba =
    update (keyed c.block_id) (set_kind "tool-call") (open_block c.block_id ba)
    >>= call_at c (some (keyed c.block_id))

abbrev pub call_last : StreamChunk → Option String → BlockAssembler → Result Panic BlockAssembler
call_last c (some id) ba = call_at c (place_of id (lookup id ba.active)) ba
call_last c none ba =
    call_at c (some legacy) (legacy_or (set_kind "tool-call" empty_block) ba.legacy_active ba)

unfoldable pub ingest_call : StreamChunk → BlockAssembler → Result Panic BlockAssembler
ingest_call c ba =
    if not (str_eq c.block_id "")
    then call_keyed c (lookup c.block_id ba.active) ba
    else call_last c (last_id ba.open_order) ba

abbrev pub add_whole : Option ContentBlock → BlockAssembler → BlockAssembler
add_whole none ba = ba
add_whole (some b) ba = record ba { blocks = ba.blocks ++ b ∷ [] }

abbrev pub end_keyed :
    StreamChunk → Option ContentBlock → Option ContentBlock → BlockAssembler → BlockAssembler
end_keyed c none (some b) ba = add_whole (some b) ba
end_keyed c none none ba = commit c.block_id ba
end_keyed c (some a) whole ba = commit c.block_id ba

abbrev pub end_last : Option String → BlockAssembler → BlockAssembler
end_last (some id) ba = commit id ba
end_last none ba = commit_legacy ba

abbrev pub end_unkeyed : Option ContentBlock → BlockAssembler → BlockAssembler
end_unkeyed (some b) ba = add_whole (some b) ba
end_unkeyed none ba = end_last (last_id ba.open_order) ba

unfoldable pub ingest_end : StreamChunk → BlockAssembler → BlockAssembler
ingest_end c ba =
    if not (str_eq c.block_id "")
    then end_keyed c (lookup c.block_id ba.active) c.whole_block ba
    else end_unkeyed c.whole_block ba

abbrev pub set_usage : Option TokenUsage → BlockAssembler → BlockAssembler
set_usage none ba = ba
set_usage (some u) ba = record ba { total_usage = some u }

unfoldable pub ingest_as : ChunkType → StreamChunk → BlockAssembler → Result Panic BlockAssembler
ingest_as block_start c ba = ingest_start c ba
ingest_as text_delta c ba = ingest_delta "text" c ba
ingest_as reasoning_delta c ba = ingest_delta "reasoning" c ba
ingest_as tool_call_delta c ba = ingest_call c ba
ingest_as block_end c ba = ok (ingest_end c ba)
ingest_as usage_chunk c ba = ok (set_usage c.usage ba)
ingest_as finish c ba = ok (flush (record ba { reason = c.finish_reason }))
ingest_as other_chunk c ba = ok ba

unfoldable pub ingest_chunk : StreamChunk → BlockAssembler → Result Panic BlockAssembler
ingest_chunk c ba = ingest_as c.chunk_type c ba
