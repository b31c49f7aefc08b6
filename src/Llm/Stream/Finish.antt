-- ===== src/Llm/Stream/Finish.antt =====
-- backend/pkg/llm/stream.go: which blocks the finish loop commits while the slice it ranges over is shifted.
use mathlib.Core.List.{append-nil, append_assoc as block_assoc}
use deep_seek_harness_x.Prelude.{
  String, false, ◌≡◌, refl, ap, sym, ◌∙◌, inl, inr, ℕ, zero, suc, ◌+◌, ◌≤◌, List, [], ◌∷◌, ◌++◌,
  length, All, Option, none, some, Map, delete, str_eq, eq_iff, subst, lookup, lookup-delete,
  Option-cases, arith,
}
use deep_seek_harness_x.Session.Messages.{ContentBlock}
use deep_seek_harness_x.Llm.Stream.{BlockAssembler, last_id, commit, commit_some, commit_legacy}
use deep_seek_harness_x.Llm.Stream.Ingest.{finish_loop, flush}
use deep_seek_harness_x.Llm.Stream.Invariant.{
  has_id, Distinct, Agree, IsConsistent, commit-IsConsistent,
}
use deep_seek_harness_x.Llm.Stream.Slots.{
  append_assoc, append_nil, commit-open_order, finish_loop-step, finish_loop-last,
}

-- The blocks under these ids, committed one after the other.
unfoldable pub commit_all : List String → BlockAssembler → BlockAssembler
commit_all [] ba = ba
commit_all (id ∷ ids) ba = commit_all ids (commit id ba)

-- Every second id from the first, and the last one.
unfoldable pub alternate : List String → List String
alternate [] = []
alternate (x ∷ []) = x ∷ []
alternate (x ∷ y ∷ []) = x ∷ y ∷ []
alternate (x ∷ y ∷ z ∷ rest) = x ∷ alternate (z ∷ rest)

-- `kept` holds the ids that were skipped, `x ∷ more` those not yet reached.
finish_loop-alternate :
    (left : ℕ) (kept : List String) (x : String) (more junk : List String) (ba : BlockAssembler)
    → IsConsistent ba
    → ba.open_order ≡ kept ++ x ∷ more
    → length (x ∷ more) ≤ left
    → All (λ s. some s ≡ last_id (x ∷ more)) junk
    → finish_loop left (length kept) (kept ++ ((x ∷ more) ++ junk)) ba
      ≡ commit_all (alternate (x ∷ more)) ba
unfolding alternate commit_all last_id
finish_loop-alternate zero kept x more junk ba h e enough same = absurd (omega arith)
finish_loop-alternate (suc left) kept x [] junk ba h e enough same =
    let at : length kept ≡ length kept + 0 = omega arith in
    rw at (finish_loop-last left 0 kept x (x ∷ junk) ba h e refl (refl, same))
finish_loop-alternate (suc zero) kept x (y ∷ []) junk ba h e enough same = absurd (omega arith)
finish_loop-alternate (suc (suc left)) kept x (y ∷ []) junk ba h e enough same =
    let at : suc (length kept) ≡ length kept + 1 = omega arith in
    finish_loop-step (suc left) kept x (y ∷ []) junk y ba h e refl
    ∙ rw at (
        finish_loop-last left 1 kept y (y ∷ y ∷ junk) (commit x ba) (commit-IsConsistent x ba h)
          (commit-open_order kept x (y ∷ []) ba h e) refl (refl, (refl, same)))
finish_loop-alternate (suc left) kept x (y ∷ z ∷ more) junk ba h e enough same =
    let found = last_id-some z more in
    finish_loop-step left kept x (y ∷ z ∷ more) junk found.0 ba h e found.1
    ∙ rw (one_more kept, ← append_assoc kept (y ∷ []) ((z ∷ more) ++ found.0 ∷ junk))
        (finish_loop-alternate left (kept ++ y ∷ []) z more (found.0 ∷ junk) (commit x ba)
          (commit-IsConsistent x ba h)
          (commit-open_order kept x (y ∷ z ∷ more) ba h e
            ∙ sym (append_assoc kept (y ∷ []) (z ∷ more)))
          (omega arith) (sym found.1, same))
  where
    one_more : (front : List String) → suc (length front) ≡ length (front ++ y ∷ [])
    one_more [] = refl
    one_more (w ∷ front) = ap suc (one_more front)

    last_id-some : (w : String) (ws : List String) → (l : String) × (last_id (w ∷ ws) ≡ some l)
    last_id-some w [] = (w, refl)
    last_id-some w (v ∷ ws) = last_id-some v ws

-- From a consistent assembler, `finish` commits every second open block from the first, and the last one,
-- in open order, then the anonymous block. Up to two open blocks are all committed; of three or more, the
-- second, the fourth and so on but for the last stay open.
pub flush-alternate :
    (ba : BlockAssembler)
    → IsConsistent ba
    → flush ba ≡ commit_legacy (commit_all (alternate ba.open_order) ba)
unfolding flush finish_loop commit_all alternate
flush-alternate ba h = ap commit_legacy (whole ba.open_order refl)
  where
    whole :
        (order : List String)
        → ba.open_order ≡ order
        → finish_loop (length order) 0 order ba ≡ commit_all (alternate order) ba
    whole [] e = refl
    whole (x ∷ more) e =
        subst
          (λ slots.
            finish_loop (length (x ∷ more)) 0 slots ba ≡ commit_all (alternate (x ∷ more)) ba)
          (append_nil (x ∷ more))
          (finish_loop-alternate (length (x ∷ more)) [] x more [] ba h e (omega arith) tt)

has_id-alternate :
    (y : String) (xs : List String) → has_id y xs ≡ false → has_id y (alternate xs) ≡ false
unfolding has_id alternate
has_id-alternate y [] h = h
has_id-alternate y (x ∷ []) h = h
has_id-alternate y (x ∷ w ∷ []) h = h
has_id-alternate y (x ∷ w ∷ z ∷ rest) h =
    ground (arith, h, has_id-alternate y (z ∷ rest) (ground (arith, h)))

lookup-commit_all :
    (y : String) (ids : List String) (ba : BlockAssembler)
    → has_id y ids ≡ false
    → lookup y (commit_all ids ba).active ≡ lookup y ba.active
unfolding has_id commit_all commit
lookup-commit_all y [] ba h = refl
lookup-commit_all y (id ∷ ids) ba h =
    lookup-commit_all y ids (commit id ba) (ground (arith, h))
    ∙ elim (Option-cases (lookup id ba.active)) [
      | inl absent ↦ rw absent refl
      | inr (b, found) ↦ rw found (ground (arith, lookup-delete id y ba.active, h))
    ]

lookup-commit_legacy :
    (y : String) (ba : BlockAssembler) → lookup y (commit_legacy ba).active ≡ lookup y ba.active
unfolding commit_legacy
lookup-commit_legacy y ba = elim (Option-cases ba.legacy_active) [
  | inl absent ↦ rw absent refl
  | inr (b, found) ↦ rw found refl
]

-- The blocks under these ids, as they are held.
abbrev pub held_one : Option ContentBlock → List ContentBlock
held_one none = []
held_one (some b) = b ∷ []

unfoldable pub held : Map ContentBlock → List String → List ContentBlock
held active [] = []
held active (id ∷ ids) = held_one (lookup id active) ++ held active ids

held-delete :
    (y : String) (active : Map ContentBlock) (ids : List String)
    → has_id y ids ≡ false
    → held (delete y active) ids ≡ held active ids
unfolding has_id held
held-delete y active [] h = refl
held-delete y active (id ∷ ids) h =
    let apart : str_eq y id ≡ false = ground (arith, h, eq_iff y id, eq_iff id y) in
    rw (lookup-delete y id active, apart, held-delete y active ids (ground (arith, h))) refl

-- What committing blocks under ids adds to the result.
Adds : List String → BlockAssembler → BlockAssembler → Type 0
Adds ids before after =
    (after.blocks ≡ before.blocks ++ held before.active ids)
    × (after.legacy_active ≡ before.legacy_active)

commit_some-Adds :
    (id : String) (ids : List String) (ba : BlockAssembler) (o : Option ContentBlock)
    → has_id id ids ≡ false
    → lookup id ba.active ≡ o
    → Adds ids (commit_some id o ba) (commit_all ids (commit_some id o ba))
    → Adds (id ∷ ids) ba (commit_all ids (commit_some id o ba))
unfolding Adds held
commit_some-Adds id ids ba none fresh found (blocks, kept) = (rw found blocks, kept)
commit_some-Adds id ids ba (some b) fresh found (blocks, kept) = (
  rw found (
      blocks
      ∙ ap (λ more. (ba.blocks ++ b ∷ []) ++ more) (held-delete id ba.active ids fresh)
      ∙ block_assoc ba.blocks (b ∷ []) (held ba.active ids)),
  kept,
)

commit_all-Adds :
    (ids : List String) (ba : BlockAssembler) → Distinct ids → Adds ids ba (commit_all ids ba)
unfolding Adds commit_all commit Distinct held
commit_all-Adds [] ba distinct = (sym (append-nil ba.blocks), refl)
commit_all-Adds (id ∷ ids) ba (fresh, distinct) =
    commit_some-Adds id ids ba (lookup id ba.active) fresh refl
      (commit_all-Adds ids (commit id ba) distinct)

Distinct-alternate : (xs : List String) → Distinct xs → Distinct (alternate xs)
unfolding Distinct alternate has_id
Distinct-alternate [] d = tt
Distinct-alternate (x ∷ []) d = d
Distinct-alternate (x ∷ y ∷ []) d = d
Distinct-alternate (x ∷ y ∷ z ∷ rest) (fresh, (other, d)) =
    (has_id-alternate x (z ∷ rest) (ground (arith, fresh)), Distinct-alternate (z ∷ rest) d)

commit_legacy-blocks :
    (ba : BlockAssembler) → (commit_legacy ba).blocks ≡ ba.blocks ++ held_one ba.legacy_active
unfolding commit_legacy
commit_legacy-blocks ba = elim (Option-cases ba.legacy_active) [
  | inl absent ↦ rw absent (sym (append-nil ba.blocks))
  | inr (b, found) ↦ rw found refl
]

-- Of three or more open blocks of a consistent assembler, `finish` leaves the second one open, with what it
-- holds, and the result lacks it: to the blocks there were, it adds those under every second id of the open order from
-- the first and under the last one, in their order, and the legacy block.
pub flush-second :
    (x y z : String) (rest : List String) (ba : BlockAssembler)
    → IsConsistent ba
    → ba.open_order ≡ x ∷ y ∷ z ∷ rest
    → (lookup y (flush ba).active ≡ lookup y ba.active)
      × (has_id y (alternate ba.open_order) ≡ false)
      × ((flush ba).blocks
          ≡ (ba.blocks ++ held ba.active (alternate ba.open_order)) ++ held_one ba.legacy_active)
unfolding IsConsistent Agree Distinct has_id alternate Adds
flush-second x y z rest ba h e =
    let distinct = subst Distinct e h.0 in
    let skipped : has_id y (alternate ba.open_order) ≡ false = rw e (
      ground
        (arith, distinct.0, has_id-alternate y (z ∷ rest) distinct.1.0, eq_iff x y, eq_iff y x)) in
    let committed = commit_all (alternate ba.open_order) ba in
    let (blocks, legacy) =
      commit_all-Adds (alternate ba.open_order) ba (Distinct-alternate ba.open_order h.0) in
    (
      ap (λ done. lookup y done.active) (flush-alternate ba h)
          ∙ lookup-commit_legacy y committed
          ∙ lookup-commit_all y (alternate ba.open_order) ba skipped,
      skipped,
      ap (λ done. done.blocks) (flush-alternate ba h)
          ∙ commit_legacy-blocks committed
          ∙ rw (blocks, legacy) refl,
    )
