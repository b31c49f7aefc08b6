-- ===== src/Llm/Stream/Ingests.antt =====
-- backend/pkg/llm/stream.go: every chunk is taken without a nil dereference and leaves a consistent state.
use deep_seek_harness_x.Prelude.{
  String, true, not, ◌≡◌, refl, inl, inr, Option, none, some, str_eq, lookup, Option-cases,
  Bool-cases, Result, ok, arith, subst, ap, some-injective, eq_iff, lookup-insert,
}
use deep_seek_harness_x.Session.Messages.{ContentBlock}
use deep_seek_harness_x.Llm.Stream.{
  TokenUsage, StreamChunk, BlockAssembler, keyed, legacy, last_id, target, ChunkType, block_start,
  text_delta, reasoning_delta, tool_call_delta, block_end, usage_chunk, finish, other_chunk,
  empty_block, Place, Panic, place_of, place_of_last, update, open_block, set_kind, add_call,
}
use deep_seek_harness_x.Llm.Stream.Ingest.{
  ingest_chunk, ingest_as, ingest_start, ingest_delta, ingest_call, ingest_end, start_legacy,
  legacy_or, set_usage, end_keyed, end_unkeyed, commit_last,
}
use deep_seek_harness_x.Llm.Stream.Invariant.{
  IsConsistent, IsPlaced, Agree, is_some, has_id-last_id, commit-IsConsistent,
  commit_legacy-IsConsistent, update-IsConsistent, open_block-IsConsistent, flush-IsConsistent,
}

-- A chunk taken: no panic, and a consistent assembler.
unfoldable pub IsTaken : Result Panic BlockAssembler → Type 0
IsTaken r = (next : BlockAssembler) × (r ≡ ok next) × IsConsistent next

last_open :
    (ba : BlockAssembler)
    → IsConsistent ba
    → (id : String) → last_id ba.open_order ≡ some id
    → (b : ContentBlock) × (lookup id ba.active ≡ some b)
unfolding IsConsistent Agree is_some
last_open ba (distinct, same) id h = elim (Option-cases (lookup id ba.active)) [
  | inl absent ↦ absurd (ground (arith, absent, same id, has_id-last_id ba.open_order h))
  | inr found ↦ found
]

commit_last-IsConsistent :
    (last : Option String) (ba : BlockAssembler)
    → IsConsistent ba
    → IsConsistent (commit_last last ba)
commit_last-IsConsistent none ba h = h
commit_last-IsConsistent (some id) ba h = commit-IsConsistent id ba h

start_legacy-IsConsistent :
    (l : Option ContentBlock) (ba : BlockAssembler)
    → IsConsistent ba
    → IsConsistent (start_legacy l ba)
start_legacy-IsConsistent none ba h = commit_last-IsConsistent (last_id ba.open_order) ba h
start_legacy-IsConsistent (some b) ba h = commit_legacy-IsConsistent ba h

-- A write through a pointer that is not nil.
update-IsTaken :
    (place : Place) (f : ContentBlock → ContentBlock) (ba : BlockAssembler)
    → IsConsistent ba
    → IsPlaced place ba
    → IsTaken (update place f ba)
unfolding IsTaken
update-IsTaken place f ba h placed =
    let (next, done, good, _) = update-IsConsistent place f ba h placed in (next, done, good)

open_block-IsPlaced : (id : String) (ba : BlockAssembler) → IsPlaced (keyed id) (open_block id ba)
unfolding IsPlaced open_block is_some
open_block-IsPlaced id ba = ground (arith, lookup-insert id id empty_block ba.active, eq_iff id id)

-- A block that was just opened.
update-open_block-IsTaken :
    (id : String) (f : ContentBlock → ContentBlock) (ba : BlockAssembler)
    → lookup id ba.active ≡ none
    → IsConsistent ba
    → IsTaken (update (keyed id) f (open_block id ba))
update-open_block-IsTaken id f ba absent h =
    update-IsTaken (keyed id) f (open_block id ba) (open_block-IsConsistent id ba absent h)
      (open_block-IsPlaced id ba)

place_of-IsPlaced :
    (id : String) (ba : BlockAssembler) (place : Place)
    → place_of id (lookup id ba.active) ≡ some place
    → IsPlaced place ba
unfolding IsPlaced is_some
place_of-IsPlaced id ba place h = elim (Option-cases (lookup id ba.active)) [
  | inl absent ↦ let missed = rw absent at h in cc
  | inr (b, found) ↦ subst (λ p. IsPlaced p ba) (some-injective (rw found at h)) (ap is_some found)
]

place_of_last-IsPlaced :
    (ba : BlockAssembler) (last : Option String) (place : Place)
    → place_of_last ba last ≡ some place
    → IsPlaced place ba
unfolding IsPlaced is_some
place_of_last-IsPlaced ba (some id) place h = place_of-IsPlaced id ba place h
place_of_last-IsPlaced ba none place h = elim (Option-cases ba.legacy_active) [
  | inl absent ↦ let missed = rw absent at h in cc
  | inr (b, found) ↦ subst (λ p. IsPlaced p ba) (some-injective (rw found at h)) (ap is_some found)
]

target-IsPlaced :
    (c : StreamChunk) (ba : BlockAssembler) (place : Place)
    → target ba c ≡ some place
    → IsPlaced place ba
unfolding target
target-IsPlaced c ba place h = elim (Bool-cases (not (str_eq c.block_id ""))) [
  | inl has_key ↦ place_of-IsPlaced c.block_id ba place (rw has_key at h)
  | inr no_key ↦ place_of_last-IsPlaced ba (last_id ba.open_order) place (rw no_key at h)
]

ingest_start-IsTaken :
    (c : StreamChunk) (ba : BlockAssembler) → IsConsistent ba → IsTaken (ingest_start c ba)
unfolding ingest_start IsTaken IsConsistent
ingest_start-IsTaken c ba h = elim (Bool-cases (not (str_eq c.block_id ""))) [
  | inl has_key ↦ rw has_key (elim (Option-cases (lookup c.block_id ba.active)) [
    | inl absent ↦ rw absent (update-open_block-IsTaken c.block_id _ ba absent h)
    | inr (b, found) ↦ rw found (_, refl, h)
  ])
  | inr no_key ↦ rw no_key (_, refl, start_legacy-IsConsistent ba.legacy_active ba h)
]

legacy_or-IsConsistent :
    (fresh : ContentBlock) (l : Option ContentBlock) (ba : BlockAssembler)
    → IsConsistent ba
    → IsConsistent (legacy_or fresh l ba)
unfolding IsConsistent
legacy_or-IsConsistent fresh none ba h = h
legacy_or-IsConsistent fresh (some b) ba h = h

legacy_or-IsPlaced :
    (fresh : ContentBlock) (ba : BlockAssembler)
    → IsPlaced legacy (legacy_or fresh ba.legacy_active ba)
unfolding IsPlaced is_some
legacy_or-IsPlaced fresh ba = elim (Option-cases ba.legacy_active) [
  | inl absent ↦ rw absent refl
  | inr (b, found) ↦ rw found refl
]

update-legacy_or-IsTaken :
    (fresh : ContentBlock) (f : ContentBlock → ContentBlock) (ba : BlockAssembler)
    → IsConsistent ba
    → IsTaken (update legacy f (legacy_or fresh ba.legacy_active ba))
update-legacy_or-IsTaken fresh f ba h =
    update-IsTaken legacy f (legacy_or fresh ba.legacy_active ba)
      (legacy_or-IsConsistent fresh ba.legacy_active ba h) (legacy_or-IsPlaced fresh ba)

target-none :
    (c : StreamChunk) (ba : BlockAssembler)
    → target ba c ≡ none
    → not (str_eq c.block_id "") ≡ true
    → lookup c.block_id ba.active ≡ none
unfolding target
target-none c ba missed has_key = elim (Option-cases (lookup c.block_id ba.active)) [
  | inl absent ↦ absent
  | inr (b, found) ↦ absurd (ground (arith, missed, has_key, found))
]

ingest_delta-IsTaken :
    (kind : String) (c : StreamChunk) (ba : BlockAssembler)
    → IsConsistent ba
    → IsTaken (ingest_delta kind c ba)
unfolding ingest_delta
ingest_delta-IsTaken kind c ba h = elim (Option-cases (target ba c)) [
  | inl missed ↦ rw missed (elim (Bool-cases (not (str_eq c.block_id ""))) [
    | inl has_key ↦
        rw has_key (update-open_block-IsTaken c.block_id _ ba (target-none c ba missed has_key) h)
    | inr no_key ↦ rw no_key (update-legacy_or-IsTaken empty_block _ ba h)
  ])
  | inr (place, found) ↦ rw found (update-IsTaken place _ ba h (target-IsPlaced c ba place found))
]

ingest_call-IsTaken :
    (c : StreamChunk) (ba : BlockAssembler) → IsConsistent ba → IsTaken (ingest_call c ba)
unfolding ingest_call IsTaken IsPlaced is_some
ingest_call-IsTaken c ba h = elim (Bool-cases (not (str_eq c.block_id ""))) [
  | inl has_key ↦ rw has_key (elim (Option-cases (lookup c.block_id ba.active)) [
    | inl absent ↦
        let (next, done, good, placed) =
          update-IsConsistent (keyed c.block_id) (set_kind "tool-call") (open_block c.block_id ba)
            (open_block-IsConsistent c.block_id ba absent h) (open_block-IsPlaced c.block_id ba) in
        rw (absent, done) (update-IsTaken (keyed c.block_id) (add_call c) next good placed)
    | inr (b, found) ↦
        rw found (update-IsTaken (keyed c.block_id) (add_call c) ba h (ap is_some found))
  ])
  | inr no_key ↦ rw no_key (elim (Option-cases (last_id ba.open_order)) [
    | inl none_open ↦ rw none_open (update-legacy_or-IsTaken _ (add_call c) ba h)
    | inr (id, last) ↦
        let found = last_open ba h id last in
        rw (last, found.1) (update-IsTaken (keyed id) (add_call c) ba h (ap is_some found.1))
  ])
]

pub ingest_end-IsConsistent :
    (c : StreamChunk) (ba : BlockAssembler) → IsConsistent ba → IsConsistent (ingest_end c ba)
unfolding ingest_end IsConsistent
ingest_end-IsConsistent c ba h = elim (Bool-cases (not (str_eq c.block_id ""))) [
  | inl has_key ↦ rw has_key (end_keyed-Agree (lookup c.block_id ba.active) c.whole_block)
  | inr no_key ↦ rw no_key (end_unkeyed-Agree c.whole_block)
]
  where
    end_keyed-Agree : (a whole : Option ContentBlock) → IsConsistent (end_keyed c a whole ba)
    end_keyed-Agree none (some b) = h
    end_keyed-Agree none none = commit-IsConsistent c.block_id ba h
    end_keyed-Agree (some a) whole = commit-IsConsistent c.block_id ba h

    end_unkeyed-Agree : (whole : Option ContentBlock) → IsConsistent (end_unkeyed whole ba)
    end_unkeyed-Agree (some b) = h
    end_unkeyed-Agree none = elim (Option-cases (last_id ba.open_order)) [
      | inl none_open ↦ rw none_open (commit_legacy-IsConsistent ba h)
      | inr (id, last) ↦ rw last (commit-IsConsistent id ba h)
    ]

set_usage-IsConsistent :
    (u : Option TokenUsage) (ba : BlockAssembler) → IsConsistent ba → IsConsistent (set_usage u ba)
unfolding IsConsistent
set_usage-IsConsistent none ba h = h
set_usage-IsConsistent (some u) ba h = h

-- From an assembler whose open order and active map name the same blocks, once each, every chunk is taken
-- without a nil dereference and leaves an assembler of which the same holds.
pub ingest_chunk-IsTaken :
    (c : StreamChunk) (ba : BlockAssembler) → IsConsistent ba → IsTaken (ingest_chunk c ba)
unfolding ingest_chunk ingest_as IsTaken IsConsistent
ingest_chunk-IsTaken c ba h = ingest_as-IsTaken c.chunk_type
  where
    ingest_as-IsTaken : (t : ChunkType) → IsTaken (ingest_as t c ba)
    ingest_as-IsTaken block_start = ingest_start-IsTaken c ba h
    ingest_as-IsTaken text_delta = ingest_delta-IsTaken "text" c ba h
    ingest_as-IsTaken reasoning_delta = ingest_delta-IsTaken "reasoning" c ba h
    ingest_as-IsTaken tool_call_delta = ingest_call-IsTaken c ba h
    ingest_as-IsTaken block_end = (_, refl, ingest_end-IsConsistent c ba h)
    ingest_as-IsTaken usage_chunk = (_, refl, set_usage-IsConsistent c.usage ba h)
    ingest_as-IsTaken finish = (_, refl, flush-IsConsistent _ h)
    ingest_as-IsTaken other_chunk = (_, refl, h)
