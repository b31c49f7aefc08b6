-- ===== src/Llm/Stream/Interleave.antt =====
-- backend/pkg/llm/stream.go: deltas of blocks that are open at the same time may arrive in any order.
use deep_seek_harness_x.Prelude.{
  String, Bool, true, false, ◌≡◌, refl, ap, sym, ◌∙◌, inl, inr, [], ◌∷◌, some, str_eq, eq_iff, Map,
  lookup, insert, lookup-insert, Bool-cases, ok, ◌>>=◌, arith,
}
use deep_seek_harness_x.Session.Messages.{ContentBlock}
use deep_seek_harness_x.Llm.Stream.{
  StreamChunk, BlockAssembler, keyed, target, update, ChunkType, block_start, text_delta,
  reasoning_delta, tool_call_delta, block_end, usage_chunk, finish, other_chunk, add_text, add_call,
}
use deep_seek_harness_x.Llm.Stream.Ingest.{ingest_chunk, ingest_as, ingest_delta, ingest_call}

unfoldable pub is_delta : ChunkType → Bool
is_delta text_delta = true
is_delta reasoning_delta = true
is_delta tool_call_delta = true
is_delta _ = false

-- What a delta writes into its block.
edit_as : ChunkType → StreamChunk → ContentBlock → ContentBlock
edit_as tool_call_delta c = add_call c
edit_as _ c = add_text c.text

module _ {V : Type 0} where
  insert-swap :
      (k j : String) (v w : V) (m : Map V) {old_k old_j : V}
      → str_eq k j ≡ false
      → lookup k m ≡ some old_k
      → lookup j m ≡ some old_j
      → insert j w (insert k v m) ≡ insert k v (insert j w m)
  unfolding insert lookup
  insert-swap k j v w [] apart at_k at_j = cc
  insert-swap k j v w ((i, u) ∷ m) {old_k = old_k} {old_j = old_j} apart at_k at_j =
      elim (Bool-cases (str_eq i k)) [
        | inl is_k ↦ ground (arith, is_k, apart, eq_iff i k, eq_iff i j, eq_iff k j)
        | inr not_k ↦ elim (Bool-cases (str_eq i j)) [
          | inl is_j ↦
              ground (arith, is_j, not_k, apart, eq_iff i k, eq_iff i j, eq_iff k j, eq_iff j k)
          | inr not_j ↦ ground (
            arith,
            not_k,
            not_j,
            insert-swap k j v w m {old_k = old_k} {old_j = old_j} apart
                (ground (arith, at_k, not_k)) (ground (arith, at_j, not_j)),
          )
        ]
      ]

update-open :
    (id : String) (f : ContentBlock → ContentBlock) (ba : BlockAssembler) (b : ContentBlock)
    → lookup id ba.active ≡ some b
    → update (keyed id) f ba ≡ ok (record ba { active = insert id (f b) ba.active })
unfolding update
update-open id f ba b found = rw found refl

ingest_chunk-open :
    (c : StreamChunk) (ba : BlockAssembler) (b : ContentBlock)
    → is_delta c.chunk_type ≡ true
    → str_eq c.block_id "" ≡ false
    → lookup c.block_id ba.active ≡ some b
    → ingest_chunk c ba
      ≡ ok (record ba { active = insert c.block_id (edit_as c.chunk_type c b) ba.active })
unfolding ingest_chunk ingest_as ingest_delta ingest_call target is_delta edit_as
ingest_chunk-open c ba b delta has_key found = by_type c.chunk_type delta
  where
    by_type :
        (t : ChunkType)
        → is_delta t ≡ true
        → ingest_as t c ba ≡ ok (record ba { active = insert c.block_id (edit_as t c b) ba.active })
    by_type text_delta h = rw (has_key, found) (update-open c.block_id (add_text c.text) ba b found)
    by_type reasoning_delta h =
        rw (has_key, found) (update-open c.block_id (add_text c.text) ba b found)
    by_type tool_call_delta h = rw (has_key, found) (update-open c.block_id (add_call c) ba b found)
    by_type block_start h = cc
    by_type block_end h = cc
    by_type usage_chunk h = cc
    by_type finish h = cc
    by_type other_chunk h = cc

-- Two deltas for different open blocks, by their ids, give the same assembler in either order.
pub ingest_chunk-swap :
    (c d : StreamChunk) (ba : BlockAssembler) (b e : ContentBlock)
    → is_delta c.chunk_type ≡ true
    → is_delta d.chunk_type ≡ true
    → str_eq c.block_id "" ≡ false
    → str_eq d.block_id "" ≡ false
    → str_eq c.block_id d.block_id ≡ false
    → lookup c.block_id ba.active ≡ some b
    → lookup d.block_id ba.active ≡ some e
    → (ingest_chunk c ba >>= ingest_chunk d) ≡ (ingest_chunk d ba >>= ingest_chunk c)
ingest_chunk-swap c d ba b e c_delta d_delta c_key d_key apart at_c at_d =
    ap (λ r. r >>= ingest_chunk d) (ingest_chunk-open c ba b c_delta c_key at_c)
    ∙ ingest_chunk-open d _ e d_delta d_key (
        ground (
          arith,
          lookup-insert c.block_id d.block_id (edit_as c.chunk_type c b) ba.active,
          apart,
          at_d,
        ))
    ∙ ap (λ m. ok (record ba { active = m }))
        (insert-swap c.block_id d.block_id _ _ ba.active apart at_c at_d)
    ∙ sym (
        ap (λ r. r >>= ingest_chunk c) (ingest_chunk-open d ba e d_delta d_key at_d)
        ∙ ingest_chunk-open c _ b c_delta c_key (
            ground (
              arith,
              lookup-insert d.block_id c.block_id (edit_as d.chunk_type d e) ba.active,
              apart,
              at_c,
              eq_iff c.block_id d.block_id,
              eq_iff d.block_id c.block_id,
            )))
