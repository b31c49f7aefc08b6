-- ===== src/Session/Surface.antt =====
-- backend/pkg/session/surface.go: the fold of the event log into the model-visible surface.
-- A pointer to an envelope is an `Option`, `none` for nil; `panic` is a Go panic (a nil pointer or an
-- index out of range). Positions in a slice are ℕ, `none` for the source's -1.
pub mod Plan
pub mod Extend
pub mod Panic
pub mod Partition
pub mod Window
use deep_seek_harness_x.Prelude.{
  ℕ, suc, ◌+◌, ◌-◌, Bool, true, false, not, ◌&&◌, ◌||◌, Option, none, some, List, [], ◌∷◌, ◌++◌,
  length, get_elem?, take, drop, ltb, str_eq, if◌then◌else◌, Result, ok, err, ◌>>=◌, ◌>>◌,
}
use deep_seek_harness_x.Prelude.Int.{ℤ, pos, negsuc, ◌+ℤ◌, ◌-ℤ◌, ◌=ℤ◌, ltb_ℤ, leb_ℤ}
use deep_seek_harness_x.Session.Json.{Codec, tool_result_rewrite_equal}
use deep_seek_harness_x.Session.Events.{
  SurfaceOp, SessionEnvelope, event_assistant_message, event_tool_result, is_append,
  is_surface_eligible_type,
}

pub data Fault : Type 0 where
  not_contiguous op_not_eligible sources_not_eligible missing_op invalid_op : Fault
  empty_sources negative_source duplicate_source future_source missing_source : Fault
  start_not_found end_not_found start_after_end : Fault
  rewrite_count rewrite_target rewrite_content panic : Fault

abbrev pub Outcome : Type 0 → Type 0
Outcome A = Result Fault A

pub record SurfaceFoldReplacement : Type 0 where
  pub seq : ℤ
  pub start : ℤ
  pub end : ℤ
  pub shadowed_seqs : List ℤ

pub record SurfaceFoldResult : Type 0 where
  pub nodes : List ℤ
  pub replacements : List SurfaceFoldReplacement
  pub replace_generation : ℕ

pub record SurfaceFoldState : Type 0 where
  pub nodes : List ℤ
  pub replace_generation : ℕ

-- The plan of one surface event: its seq, and for a replacement the declared range, the positions
-- and the shadowed nodes.
pub data SurfacePlan : Type 0 where
  append : ℤ → SurfacePlan
  replace : ℤ → ℤ → ℤ → ℕ → ℕ → List ℤ → SurfacePlan

unfoldable pub contains : List ℤ → ℤ → Bool
contains [] q = false
contains (x ∷ xs) q = x =ℤ q || contains xs q

-- The first position of a seq.
unfoldable pub index_of : ℤ → List ℤ → Option ℕ
index_of q [] = none
index_of q (x ∷ xs) =
    let rest = index_of q xs in
    if x =ℤ q then some 0 else elim rest [ none ↦ none | some i ↦ some (suc i) ]

-- `xs[i]`: `none` is out of range.
abbrev pub at_index {ℓ} : {A : Type ℓ} → List A → ℤ → Option A
at_index xs (pos i) = get_elem? xs i
at_index xs (negsuc i) = none

-- `xs[i:j+1]`
abbrev pub slice {ℓ} : {A : Type ℓ} → List A → ℕ → ℕ → List A
slice xs i j = take (suc j - i) (drop i xs)

checked_op : Option SurfaceOp → Outcome (Option SurfaceOp)
unfolding is_append
checked_op none = err missing_op
checked_op (some s) =
    if is_append s
    then ok (some s)
    else if not (str_eq s.op "replace") || ltb_ℤ s.start (pos 0) || ltb_ℤ s.end (pos 0)
    then err invalid_op
    else ok (some s)

unmarked : SessionEnvelope → Outcome (Option SurfaceOp)
unmarked e = elim e.surface_op [
  | some s ↦ err op_not_eligible
  | none ↦ elim e.source_event_seqs [ some q ↦ err sources_not_eligible | none ↦ ok none ]
]

unfoldable pub surface_op_of : SessionEnvelope → Outcome (Option SurfaceOp)
unfolding is_surface_eligible_type checked_op unmarked
surface_op_of e =
    if not (is_surface_eligible_type e.event_type) then unmarked e else checked_op e.surface_op

-- The loop over sourceEventSeqs; `seen` is the map of the sources so far.
unfoldable pub check_sources : ℤ → List ℤ → List ℤ → Outcome (List ℤ)
unfolding contains
check_sources seq seen [] = ok seen
check_sources seq seen (s ∷ rest) =
    if ltb_ℤ s (pos 0)
    then err negative_source
    else if contains seen s
    then err duplicate_source
    else if leb_ℤ seq s
    then err future_source
    else check_sources seq (s ∷ seen) rest

unfoldable pub check_shadowed : List ℤ → List ℤ → Outcome Unit
unfolding contains
check_shadowed sources [] = ok tt
check_shadowed sources (q ∷ rest) =
    if contains sources q then check_shadowed sources rest else err missing_source

sources_of : SessionEnvelope → Outcome (List ℤ)
sources_of e = elim e.source_event_seqs [
  | none ↦ ok []
  | some [] ↦ if str_eq e.event_type event_assistant_message then ok [] else err empty_sources
  | some (q ∷ qs) ↦ ok (q ∷ qs)
]

unfoldable pub assert_provenance : SessionEnvelope → List ℤ → Outcome Unit
unfolding sources_of check_sources check_shadowed
assert_provenance e shadowed = do
  listed ← sources_of e
  sources ← check_sources e.seq [] listed
  check_shadowed sources shadowed

pub record ReplacementRangeInfo : Type 0 where
  pub start_idx : ℕ
  pub end_idx : ℕ
  pub shadowed : List ℤ

-- The slice expression with its check of the bounds, by the length, which is at most the capacity that Go compares with.
abbrev pub bounded_slice : List ℤ → ℕ → ℕ → Outcome (List ℤ)
bounded_slice nodes i j =
    if ltb (suc j) i || ltb (length nodes) (suc j) then err panic else ok (slice nodes i j)

unfoldable pub replacement_range : List ℤ → SurfaceOp → Outcome ReplacementRangeInfo
unfolding index_of
replacement_range nodes s = elim (index_of s.start nodes) [
  | none ↦ err start_not_found
  | some i ↦ elim (index_of s.end nodes) [
    | none ↦ err end_not_found
    | some j ↦
        if ltb j i
        then err start_after_end
        else bounded_slice nodes i j >>= λ shadowed.
            ok (record { start_idx = i; end_idx = j; shadowed = shadowed })
  ]
]

-- A nil or foreign original is an error; an index out of range panics.
rewrite_of : Codec → SessionEnvelope → Option (Option SessionEnvelope) → Outcome Unit
rewrite_of c e none = err panic
rewrite_of c e (some none) = err rewrite_target
rewrite_of c e (some (some original)) =
    if not (str_eq original.event_type event_tool_result)
    then err rewrite_target
    else if tool_result_rewrite_equal c original.raw_data e.raw_data
    then ok tt
    else err rewrite_content

rewrite_one : Codec → SessionEnvelope → List ℤ → List (Option SessionEnvelope) → ℤ → Outcome Unit
unfolding rewrite_of ◌-ℤ◌
rewrite_one c e [] events base_seq = err rewrite_count
rewrite_one c e (q ∷ []) events base_seq = rewrite_of c e (at_index events (q -ℤ base_seq))
rewrite_one c e (q ∷ p ∷ qs) events base_seq = err rewrite_count

unfoldable pub assert_tool_result_rewrite :
    Codec → SessionEnvelope → List ℤ → List (Option SessionEnvelope) → ℤ → Outcome Unit
unfolding rewrite_one
assert_tool_result_rewrite c e shadowed events base_seq =
    if not (str_eq e.event_type event_tool_result)
    then ok tt
    else rewrite_one c e shadowed events base_seq

plan_replace :
    Codec
    → List ℤ
    → SessionEnvelope
    → SurfaceOp
    → List (Option SessionEnvelope)
    → ℤ
    → Outcome (Option SurfacePlan)
unfolding replacement_range assert_provenance assert_tool_result_rewrite
plan_replace c nodes e s events base_seq = do
  range ← replacement_range nodes s
  assert_provenance e range.shadowed
  assert_tool_result_rewrite c e range.shadowed events base_seq
  ok (some (replace e.seq s.start s.end range.start_idx range.end_idx range.shadowed))

plan_op :
    Codec
    → List ℤ
    → SessionEnvelope
    → Option SurfaceOp
    → List (Option SessionEnvelope)
    → ℤ
    → Outcome (Option SurfacePlan)
unfolding assert_provenance plan_replace is_append
plan_op c nodes e none events base_seq = ok none
plan_op c nodes e (some s) events base_seq =
    if is_append s
    then (do assert_provenance e []; ok (some (append e.seq)))
    else plan_replace c nodes e s events base_seq

-- planSurfaceEvent: `ok none` is the nil plan of an event that is not on the surface.
unfoldable pub plan_surface_event :
    Codec
    → SurfaceFoldState
    → Option SessionEnvelope
    → ℤ
    → List (Option SessionEnvelope)
    → ℤ
    → Outcome (Option SurfacePlan)
unfolding plan_op surface_op_of
plan_surface_event c state none expected events base_seq = err panic
plan_surface_event c state (some e) expected events base_seq =
    if not (e.seq =ℤ expected)
    then err not_contiguous
    else do s ← surface_op_of e; plan_op c state.nodes e s events base_seq

-- Its slices are of the positions that replacementRange found in the same nodes, in their order.
unfoldable pub apply_surface_plan :
    SurfaceFoldState → Option SurfacePlan → SurfaceFoldState × Option SurfaceFoldReplacement
apply_surface_plan state none = (state, none)
apply_surface_plan state (some (append q)) = (record state { nodes = state.nodes ++ q ∷ [] }, none)
apply_surface_plan state (some (replace q start end i j shadowed)) = (
  record {
    nodes = take i state.nodes ++ q ∷ drop (suc j) state.nodes;
    replace_generation = state.replace_generation + 1;
  },
  some (record { seq = q; start = start; end = end; shadowed_seqs = slice state.nodes i j }),
)

unfoldable pub apply_surface_event :
    Codec
    → SurfaceFoldState
    → Option SessionEnvelope
    → ℤ
    → List (Option SessionEnvelope)
    → ℤ
    → Outcome (SurfaceFoldState × Option SurfaceFoldReplacement)
unfolding plan_surface_event apply_surface_plan
apply_surface_event c state event expected events base_seq = do
  plan ← plan_surface_event c state event expected events base_seq
  ok (apply_surface_plan state plan)

abbrev pub push_replacement :
    List SurfaceFoldReplacement → Option SurfaceFoldReplacement → List SurfaceFoldReplacement
push_replacement rs none = rs
push_replacement rs (some r) = rs ++ r ∷ []

-- The loop of FoldSurface from position `index`, where `rest` is left of the whole log `events`.
unfoldable pub fold_from :
    Codec
    → List (Option SessionEnvelope)
    → ℤ
    → List (Option SessionEnvelope)
    → ℕ
    → SurfaceFoldState
    → List SurfaceFoldReplacement
    → Outcome (SurfaceFoldState × List SurfaceFoldReplacement)
unfolding apply_surface_event ◌+ℤ◌
fold_from c events base_seq [] index state rs = ok (state, rs)
fold_from c events base_seq (e ∷ rest) index state rs =
    apply_surface_event c state e (base_seq +ℤ pos index) events base_seq >>= λ r.
    fold_from c events base_seq rest (suc index) r.0 (push_replacement rs r.1)

abbrev pub empty_state : SurfaceFoldState
empty_state = record { nodes = []; replace_generation = 0 }

unfoldable pub fold_surface : Codec → List (Option SessionEnvelope) → ℤ → Outcome SurfaceFoldResult
unfolding fold_from
fold_surface c events base_seq = do
  r ← fold_from c events base_seq events 0 empty_state []
  ok (record { nodes = r.0.nodes; replacements = r.1; replace_generation = r.0.replace_generation })
