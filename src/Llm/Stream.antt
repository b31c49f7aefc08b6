-- ===== src/Llm/Stream.antt =====
-- backend/pkg/llm/stream.go: StreamChunk and the BlockAssembler that folds chunks into content blocks.
-- A block under assembly is named by the place it stands in, as the code's pointer does.
use deep_seek_harness_x.Prelude.{
  String, Bool, false, ◌&&◌, not, ℕ, zero, suc, ◌+◌, List, [], ◌∷◌, ◌++◌, length, drop, get_elem?,
  Option, none, some, str_eq, if◌then◌else◌, Map, lookup, insert, delete, Result, ok, err,
}
use deep_seek_harness_x.Prelude.Int.{ℤ}
use deep_seek_harness_x.Session.Messages.{ContentBlock, block, Blocks, nil}
use Prim.Native.String.{◌++◌ as ◌^^◌}
pub mod Ingest
pub mod Invariant
pub mod Ingests
pub mod Slots
pub mod Finish
pub mod Interleave

pub record TokenUsage : Type 0 where
  pub input_tokens : ℤ
  pub output_tokens : ℤ
  pub cache_read_tokens : ℤ
  pub cache_write_tokens : ℤ
  pub reasoning_tokens : ℤ

-- The seven chunk types, and any other string that a stream may carry.
pub data ChunkType : Type 0 where
  block_start : ChunkType
  text_delta : ChunkType
  reasoning_delta : ChunkType
  tool_call_delta : ChunkType
  block_end : ChunkType
  usage_chunk : ChunkType
  finish : ChunkType
  other_chunk : ChunkType

pub record StreamChunk : Type 0 where
  pub chunk_type : ChunkType
  pub kind : String
  pub block_id : String
  pub text : String
  pub id : String
  pub name : String
  pub arguments_delta : String
  pub whole_block : Option ContentBlock
  pub usage : Option TokenUsage
  pub finish_reason : String

pub record BlockAssembler : Type 0 where
  pub open_order : List String
  pub active : Map ContentBlock
  pub legacy_active : Option ContentBlock
  pub blocks : List ContentBlock
  pub total_usage : Option TokenUsage
  pub reason : String

abbrev pub new_block_assembler : BlockAssembler
new_block_assembler = record {
  open_order = [];
  active = [];
  legacy_active = none;
  blocks = [];
  total_usage = none;
  reason = "";
}

abbrev pub empty_block : ContentBlock
empty_block = block "" "" "" "" "" "" "" "" false nil

abbrev pub started_block : String → String → String → ContentBlock
started_block kind id name = block kind "" "" "" id name "" "" false nil

-- `block.Type = kind`
unfoldable pub set_kind : String → ContentBlock → ContentBlock
set_kind kind (block k t attachment mime id name arguments call e content) =
    block kind t attachment mime id name arguments call e content

-- `block.Text += text`
unfoldable pub add_text : String → ContentBlock → ContentBlock
add_text text (block k t attachment mime id name arguments call e content) =
    block k (t ^^ text) attachment mime id name arguments call e content

-- The three statements that end the tool-call case.
unfoldable pub add_call : StreamChunk → ContentBlock → ContentBlock
add_call c (block k t attachment mime id name arguments call e content) =
    block k t attachment mime (if not (str_eq c.id "") && str_eq id "" then c.id else id)
      (if not (str_eq c.name "") && str_eq name "" then c.name else name)
      (arguments ^^ c.arguments_delta) call e content

unfoldable pub last_id : List String → Option String
last_id [] = none
last_id (x ∷ []) = some x
last_id (x ∷ y ∷ rest) = last_id (y ∷ rest)

-- Where a pointer to an active block leads.
pub data Place : Type 0 where
  keyed : String → Place
  legacy : Place

abbrev pub place_of : String → Option ContentBlock → Option Place
place_of id none = none
place_of id (some b) = some (keyed id)

abbrev pub place_of_legacy : Option ContentBlock → Option Place
place_of_legacy none = none
place_of_legacy (some b) = some legacy

abbrev pub place_of_last : BlockAssembler → Option String → Option Place
place_of_last ba none = place_of_legacy ba.legacy_active
place_of_last ba (some id) = place_of id (lookup id ba.active)

unfoldable pub target : BlockAssembler → StreamChunk → Option Place
target ba c =
    if not (str_eq c.block_id "")
    then place_of c.block_id (lookup c.block_id ba.active)
    else place_of_last ba (last_id ba.open_order)

-- `ab.block` of a nil `ab`.
pub data Panic : Type 0 where
  nil_block : Panic

abbrev pub update_some :
    String
    → (ContentBlock → ContentBlock)
    → Option ContentBlock
    → BlockAssembler
    → Result Panic BlockAssembler
update_some id f none ba = err nil_block
update_some id f (some b) ba = ok (record ba { active = insert id (f b) ba.active })

abbrev pub update_legacy :
    (ContentBlock → ContentBlock)
    → Option ContentBlock
    → BlockAssembler
    → Result Panic BlockAssembler
update_legacy f none ba = err nil_block
update_legacy f (some b) ba = ok (record ba { legacy_active = some (f b) })

-- A write through the pointer, which panics where there is no block.
unfoldable pub update :
    Place → (ContentBlock → ContentBlock) → BlockAssembler → Result Panic BlockAssembler
update (keyed id) f ba = update_some id f (lookup id ba.active) ba
update legacy f ba = update_legacy f ba.legacy_active ba

-- `open` under an explicit id; the synthesized id is for the empty string, which no caller passes.
unfoldable pub open_block : String → BlockAssembler → BlockAssembler
open_block id ba = record ba {
  active = insert id empty_block ba.active;
  open_order = ba.open_order ++ id ∷ [];
}

-- `append(openOrder[:i], openOrder[i+1:]...)` at the first occurrence.
unfoldable pub remove_first : String → List String → List String
remove_first id [] = []
remove_first id (x ∷ xs) = if str_eq x id then xs else x ∷ remove_first id xs

abbrev pub commit_some : String → Option ContentBlock → BlockAssembler → BlockAssembler
commit_some id none ba = ba
commit_some id (some b) ba = record ba {
  active = delete id ba.active;
  open_order = remove_first id ba.open_order;
  blocks = ba.blocks ++ b ∷ [];
}

unfoldable pub commit : String → BlockAssembler → BlockAssembler
commit id ba = commit_some id (lookup id ba.active) ba

abbrev pub commit_legacy_some : Option ContentBlock → BlockAssembler → BlockAssembler
commit_legacy_some none ba = ba
commit_legacy_some (some b) ba = record ba { blocks = ba.blocks ++ b ∷ []; legacy_active = none }

unfoldable pub commit_legacy : BlockAssembler → BlockAssembler
commit_legacy ba = commit_legacy_some ba.legacy_active ba
