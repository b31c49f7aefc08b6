-- ===== src/Llm/Stream/Slots.antt =====
-- backend/pkg/llm/stream.go: what one iteration of the finish loop reads from the shifted slice.
use deep_seek_harness_x.Prelude.{
  String, true, ◌≡◌, refl, ap, ◌∙◌, inl, inr, ℕ, zero, suc, ◌+◌, List, [], ◌∷◌, ◌++◌, length, drop,
  get_elem?, All, none, some, eq_iff, subst, lookup, lookup-delete, Option-cases, some-injective,
  arith,
}
use deep_seek_harness_x.Llm.Stream.{BlockAssembler, remove_first, last_id, commit}
use deep_seek_harness_x.Llm.Stream.Ingest.{finish_at, finish_loop, shift_slots}
use deep_seek_harness_x.Llm.Stream.Invariant.{has_id, Distinct, is_some, Agree, IsConsistent}

drop-append :
    (front more back : List String)
    → drop (length (front ++ more)) (front ++ back) ≡ drop (length more) back
drop-append [] more back = refl
drop-append (x ∷ front) more back = drop-append front more back

-- The slot that a shift leaves behind holds the last id again.
drop-last_id :
    (x : String) (more junk : List String) (last : String)
    → last_id (x ∷ more) ≡ some last
    → drop (length more) ((x ∷ more) ++ junk) ≡ last ∷ junk
unfolding last_id
drop-last_id x [] junk last h = rw (some-injective h)
drop-last_id x (y ∷ more) junk last h = drop-last_id y more junk last h

pub append_assoc : (xs ys zs : List String) → (xs ++ ys) ++ zs ≡ xs ++ (ys ++ zs)
append_assoc [] ys zs = refl
append_assoc (x ∷ xs) ys zs = rw (append_assoc xs ys zs)

shift_slots-append :
    (kept : List String) (x : String) (more junk : List String) (last : String)
    → last_id (x ∷ more) ≡ some last
    → shift_slots (kept ++ more) (kept ++ ((x ∷ more) ++ junk)) ≡ kept ++ (more ++ last ∷ junk)
unfolding shift_slots
shift_slots-append kept x more junk last h = rw (
  drop-append kept more ((x ∷ more) ++ junk),
  drop-last_id x more junk last h,
  append_assoc kept more (last ∷ junk),
)

get_elem?-append_right :
    (kept back : List String) (i : ℕ)
    → get_elem? (kept ++ back) (length kept + i) ≡ get_elem? back i
get_elem?-append_right [] back i = let e : 0 + i ≡ i = omega arith in rw e
get_elem?-append_right (x ∷ kept) back i =
    let e : suc (length kept) + i ≡ suc (length kept + i) = omega arith in
    rw e (get_elem?-append_right kept back i)

remove_first-append :
    (kept : List String) (x : String) (more : List String)
    → Distinct (kept ++ x ∷ more)
    → remove_first x (kept ++ x ∷ more) ≡ kept ++ more
unfolding Distinct remove_first has_id
remove_first-append [] x more h = ground (arith, eq_iff x x)
remove_first-append (y ∷ kept) x more (fresh, rest) =
    ground (arith, remove_first-append kept x more rest, there kept, fresh, eq_iff y x)
  where
    there : (front : List String) → has_id x (front ++ x ∷ more) ≡ true
    there [] = ground (arith, eq_iff x x)
    there (z ∷ front) = ground (arith, there front)

has_id-append_cons :
    (kept : List String) (x : String) (more : List String) → has_id x (kept ++ x ∷ more) ≡ true
unfolding has_id
has_id-append_cons [] x more = ground (arith, eq_iff x x)
has_id-append_cons (z ∷ kept) x more = ground (arith, has_id-append_cons kept x more)

pub commit-open_order :
    (kept : List String) (x : String) (more : List String) (ba : BlockAssembler)
    → IsConsistent ba
    → ba.open_order ≡ kept ++ x ∷ more
    → (commit x ba).open_order ≡ kept ++ more
unfolding commit IsConsistent Agree is_some
commit-open_order kept x more ba (distinct, same) e = elim (Option-cases (lookup x ba.active)) [
  | inl absent ↦
      absurd (ground (arith, absent, same x, ap (has_id x) e, has_id-append_cons kept x more))
  | inr (b, found) ↦
      rw found (ap (remove_first x) e ∙ remove_first-append kept x more (subst Distinct e distinct))
]

lookup-commit : (x : String) (ba : BlockAssembler) → lookup x (commit x ba).active ≡ none
unfolding commit
lookup-commit x ba = elim (Option-cases (lookup x ba.active)) [
  | inl absent ↦ rw absent absent
  | inr (b, found) ↦ rw found (ground (arith, lookup-delete x x ba.active, eq_iff x x))
]

-- No block is open under this id.
IsClosed : BlockAssembler → String → Type 0
IsClosed ba id = lookup id ba.active ≡ none

commit-IsClosed : (id : String) (ba : BlockAssembler) → IsClosed ba id → commit id ba ≡ ba
unfolding IsClosed commit
commit-IsClosed id ba h = rw h refl

finish_at-IsClosed :
    (junk : List String) (i : ℕ) (ba : BlockAssembler)
    → All (IsClosed ba) junk
    → finish_at (get_elem? junk i) ba ≡ ba
finish_at-IsClosed [] i ba h = refl
finish_at-IsClosed (x ∷ junk) zero ba h = commit-IsClosed x ba h.0
finish_at-IsClosed (x ∷ junk) (suc i) ba h = finish_at-IsClosed junk i ba h.1

get_elem?-append_cons :
    (kept : List String) (x : String) (back : List String)
    → get_elem? (kept ++ x ∷ back) (length kept) ≡ some x
get_elem?-append_cons [] x back = refl
get_elem?-append_cons (y ∷ kept) x back = get_elem?-append_cons kept x back

shift_slots-same : (order junk : List String) → shift_slots order (order ++ junk) ≡ order ++ junk
unfolding shift_slots
shift_slots-same order junk = ap (λ back. order ++ back) (dropped order)
  where
    dropped : (front : List String) → drop (length front) (front ++ junk) ≡ junk
    dropped [] = refl
    dropped (x ∷ front) = dropped front

-- Behind the open ids the range reads only ids that are closed.
finish_loop-idle :
    (left k : ℕ) (junk : List String) (ba : BlockAssembler)
    → All (IsClosed ba) junk
    → finish_loop left (length ba.open_order + k) (ba.open_order ++ junk) ba ≡ ba
unfolding finish_loop
finish_loop-idle zero k junk ba h = refl
finish_loop-idle (suc left) k junk ba h =
    let next : suc (length ba.open_order + k) ≡ length ba.open_order + suc k = omega arith in
    rw
      (
        get_elem?-append_right ba.open_order junk k,
        finish_at-IsClosed junk k ba h,
        shift_slots-same ba.open_order junk,
        next,
      )
      (finish_loop-idle left (suc k) junk ba h)

-- One iteration that reads an open id.
pub finish_loop-step :
    (left : ℕ) (kept : List String) (x : String) (more junk : List String) (last : String)
    (ba : BlockAssembler)
    → IsConsistent ba
    → ba.open_order ≡ kept ++ x ∷ more
    → last_id (x ∷ more) ≡ some last
    → finish_loop (suc left) (length kept) (kept ++ ((x ∷ more) ++ junk)) ba
      ≡ finish_loop left (suc (length kept)) (kept ++ (more ++ last ∷ junk)) (commit x ba)
unfolding finish_loop
finish_loop-step left kept x more junk last ba h e is_last =
    rw
      (
        get_elem?-append_cons kept x (more ++ junk),
        commit-open_order kept x more ba h e,
        shift_slots-append kept x more junk last is_last,
      )
      refl

IsClosed-All :
    (x : String) (ba : BlockAssembler) (junk : List String)
    → All (λ s. some s ≡ some x) junk
    → All (IsClosed (commit x ba)) junk
unfolding IsClosed
IsClosed-All x ba [] h = tt
IsClosed-All x ba (y ∷ junk) h = (
  ap (λ s. lookup s (commit x ba).active) (some-injective h.0) ∙ lookup-commit x ba,
  IsClosed-All x ba junk h.1,
)

finish_loop-idle_at :
    (left k i : ℕ) (kept junk : List String) (ba : BlockAssembler)
    → ba.open_order ≡ kept
    → i ≡ length kept + k
    → All (IsClosed ba) junk
    → finish_loop left i (kept ++ junk) ba ≡ ba
finish_loop-idle_at left k i kept junk ba e at h = rw (at, ← e) (finish_loop-idle left k junk ba h)

pub append_nil : (xs : List String) → xs ++ [] ≡ xs
append_nil [] = refl
append_nil (x ∷ xs) = rw (append_nil xs)

-- The last open block, read from a slot at or behind its own.
pub finish_loop-last :
    (left k : ℕ) (kept : List String) (x : String) (junk : List String) (ba : BlockAssembler)
    → IsConsistent ba
    → ba.open_order ≡ kept ++ x ∷ []
    → get_elem? junk k ≡ some x
    → All (λ s. some s ≡ some x) junk
    → finish_loop (suc left) (length kept + k) (kept ++ junk) ba ≡ commit x ba
unfolding finish_loop commit
finish_loop-last left k kept x junk ba h e here same =
    let opened : (commit x ba).open_order ≡ kept =
      commit-open_order kept x [] ba h e ∙ append_nil kept in
    rw (get_elem?-append_right kept junk k, here, opened, shift_slots-same kept junk)
      (finish_loop-idle_at left (suc k) _ kept junk (commit x ba) opened (omega arith)
        (IsClosed-All x ba junk same))
