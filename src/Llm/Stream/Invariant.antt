-- ===== src/Llm/Stream/Invariant.antt =====
-- backend/pkg/llm/stream.go: the open order and the map of active blocks name the same blocks.
use deep_seek_harness_x.Prelude.{
  String, Bool, true, false, ◌||◌, ◌≡◌, refl, ap, ◌∙◌, inl, inr, ℕ, zero, suc, List, [], ◌∷◌, ◌++◌,
  length, get_elem?, Option, none, some, str_eq, eq_iff, if◌then◌else◌, Map, lookup, insert, delete,
  lookup-insert, lookup-delete, Option-cases, Bool-cases, some-injective, ok, arith,
}
use deep_seek_harness_x.Session.Messages.{ContentBlock}
use deep_seek_harness_x.Llm.Stream.{
  BlockAssembler, Place, keyed, legacy, last_id, update, open_block, remove_first, commit,
  commit_legacy, empty_block,
}
use deep_seek_harness_x.Llm.Stream.Ingest.{flush, finish_loop, shift_slots}

unfoldable pub has_id : String → List String → Bool
has_id id [] = false
has_id id (x ∷ xs) = str_eq x id || has_id id xs

unfoldable pub Distinct : List String → Type 0
Distinct [] = Unit
Distinct (x ∷ xs) = (has_id x xs ≡ false) × Distinct xs

unfoldable pub is_some : Option ContentBlock → Bool
is_some none = false
is_some (some b) = true

unfoldable pub Agree : List String → Map ContentBlock → Type 0
Agree order active = Distinct order × ((id : String) → has_id id order ≡ is_some (lookup id active))

unfoldable pub IsConsistent : BlockAssembler → Type 0
IsConsistent ba = Agree ba.open_order ba.active

pub has_id-remove_first :
    (id j : String) (xs : List String)
    → Distinct xs
    → has_id j (remove_first id xs) ≡ (if str_eq id j then false else has_id j xs)
unfolding has_id Distinct remove_first
has_id-remove_first id j [] h = ground arith
has_id-remove_first id j (x ∷ xs) (fresh, rest) =
    ground (arith, fresh, has_id-remove_first id j xs rest, eq_iff x id, eq_iff x j, eq_iff id j)

pub remove_first-Distinct :
    (id : String) (xs : List String) → Distinct xs → Distinct (remove_first id xs)
unfolding Distinct remove_first
remove_first-Distinct id [] h = tt
remove_first-Distinct id (x ∷ xs) (fresh, rest) = elim (Bool-cases (str_eq x id)) [
  | inl same ↦ rw same rest
  | inr other ↦ rw other (kept, remove_first-Distinct id xs rest)
]
  where
    kept : has_id x (remove_first id xs) ≡ false
    kept = ground (arith, fresh, has_id-remove_first id x xs rest)

pub has_id-append :
    (j id : String) (xs : List String) → has_id j (xs ++ id ∷ []) ≡ (has_id j xs || str_eq id j)
unfolding has_id
has_id-append j id [] = ground arith
has_id-append j id (x ∷ xs) = ground (arith, has_id-append j id xs)

pub append-Distinct :
    (id : String) (xs : List String) → has_id id xs ≡ false → Distinct xs → Distinct (xs ++ id ∷ [])
unfolding has_id Distinct
append-Distinct id [] h d = (refl, tt)
append-Distinct id (x ∷ xs) h (fresh, rest) = (
  ground (arith, h, fresh, has_id-append x id xs, eq_iff x id, eq_iff id x),
  append-Distinct id xs (ground (arith, h)) rest,
)

pub has_id-last_id : (xs : List String) {id : String} → last_id xs ≡ some id → has_id id xs ≡ true
unfolding has_id last_id
has_id-last_id [] h = cc
has_id-last_id (x ∷ []) {id} h = ground (arith, some-injective h, eq_iff x id)
has_id-last_id (x ∷ y ∷ rest) h = ground (arith, has_id-last_id (y ∷ rest) h)

-- What happens to the pair of the order and the map.
pub Agree-commit :
    (id : String) (order : List String) (active : Map ContentBlock)
    → Agree order active
    → Agree (remove_first id order) (delete id active)
unfolding Agree is_some
Agree-commit id order active (distinct, same) = (
  remove_first-Distinct id order distinct,
  λ j. ground (arith, has_id-remove_first id j order distinct, lookup-delete id j active, same j),
)

pub Agree-update :
    (id : String) (b : ContentBlock) (order : List String) (active : Map ContentBlock)
    → is_some (lookup id active) ≡ true
    → Agree order active
    → Agree order (insert id b active)
unfolding Agree is_some
Agree-update id b order active there (distinct, same) = (
  distinct,
  λ j. ground (arith, lookup-insert id j b active, same j, same id, there, eq_iff id j),
)

pub Agree-open :
    (id : String) (b : ContentBlock) (order : List String) (active : Map ContentBlock)
    → is_some (lookup id active) ≡ false
    → Agree order active
    → Agree (order ++ id ∷ []) (insert id b active)
unfolding Agree is_some
Agree-open id b order active absent (distinct, same) = (
  append-Distinct id order (same id ∙ absent) distinct,
  λ j. ground (arith, lookup-insert id j b active, same j, has_id-append j id order),
)

-- The operations on an assembler.
pub commit-IsConsistent :
    (id : String) (ba : BlockAssembler) → IsConsistent ba → IsConsistent (commit id ba)
unfolding IsConsistent commit
commit-IsConsistent id ba h = elim (Option-cases (lookup id ba.active)) [
  | inl absent ↦ rw absent h
  | inr (b, found) ↦ rw found (Agree-commit id ba.open_order ba.active h)
]

pub commit_legacy-IsConsistent :
    (ba : BlockAssembler) → IsConsistent ba → IsConsistent (commit_legacy ba)
unfolding IsConsistent commit_legacy
commit_legacy-IsConsistent ba h = elim (Option-cases ba.legacy_active) [
  | inl absent ↦ rw absent h
  | inr (b, found) ↦ rw found h
]

-- A pointer that is not nil.
unfoldable pub IsPlaced : Place → BlockAssembler → Type 0
IsPlaced (keyed id) ba = is_some (lookup id ba.active) ≡ true
IsPlaced legacy ba = is_some ba.legacy_active ≡ true

-- A write through a pointer that is not nil does not panic, and leaves the pointer as it was.
pub update-IsConsistent :
    (place : Place) (f : ContentBlock → ContentBlock) (ba : BlockAssembler)
    → IsConsistent ba
    → IsPlaced place ba
    → (next : BlockAssembler) × (update place f ba ≡ ok next)
      × IsConsistent next
      × IsPlaced place next
unfolding IsConsistent IsPlaced update is_some
update-IsConsistent (keyed id) f ba h placed = elim (Option-cases (lookup id ba.active)) [
  | inl absent ↦ let differ = rw absent at placed in cc
  | inr (b, found) ↦ (
    record ba { active = insert id (f b) ba.active },
    rw found refl,
    Agree-update id (f b) ba.open_order ba.active (ap is_some found) h,
    ground (arith, lookup-insert id id (f b) ba.active, eq_iff id id),
  )
]
update-IsConsistent legacy f ba h placed = elim (Option-cases ba.legacy_active) [
  | inl absent ↦ let differ = rw absent at placed in cc
  | inr (b, found) ↦ (record ba { legacy_active = some (f b) }, rw found refl, h, refl)
]

pub open_block-IsConsistent :
    (id : String) (ba : BlockAssembler)
    → lookup id ba.active ≡ none
    → IsConsistent ba
    → IsConsistent (open_block id ba)
unfolding IsConsistent open_block is_some
open_block-IsConsistent id ba absent h =
    Agree-open id empty_block ba.open_order ba.active (ap is_some absent) h

pub finish_loop-IsConsistent :
    (left i : ℕ) (slots : List String) (ba : BlockAssembler)
    → IsConsistent ba
    → IsConsistent (finish_loop left i slots ba)
unfolding finish_loop
finish_loop-IsConsistent zero i slots ba h = h
finish_loop-IsConsistent (suc left) i slots ba h = elim (Option-cases (get_elem? slots i)) [
  | inl absent ↦
      rw absent (finish_loop-IsConsistent left (suc i) (shift_slots ba.open_order slots) ba h)
  | inr (id, found) ↦ rw found (
      finish_loop-IsConsistent left (suc i) (shift_slots (commit id ba).open_order slots)
        (commit id ba) (commit-IsConsistent id ba h))
]

pub flush-IsConsistent : (ba : BlockAssembler) → IsConsistent ba → IsConsistent (flush ba)
unfolding flush
flush-IsConsistent ba h =
    commit_legacy-IsConsistent _
      (finish_loop-IsConsistent (length ba.open_order) 0 ba.open_order ba h)
