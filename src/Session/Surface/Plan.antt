-- ===== src/Session/Surface/Plan.antt =====
-- What an accepted plan of surface.go looks like, and the step it makes.
use deep_seek_harness_x.Prelude.{
  ℕ, suc, ◌≤◌, ◌<◌, ◌≡◌, refl, length, ltb, ◌||◌, false, Option, none, some, List, [], ◌∷◌,
  get_elem?, ok, >>=-eq-ok, Bool-cases, Option-cases, arith, subst, ok-injective, inl, inr,
}
use deep_seek_harness_x.Prelude.Int.{ℤ, ◌=ℤ◌, =ℤ_iff}
use deep_seek_harness_x.Session.Json.{Codec}
use deep_seek_harness_x.Session.Events.{SurfaceOp, SessionEnvelope, is_append}
use deep_seek_harness_x.Session.Surface.{
  SurfaceFoldReplacement, SurfaceFoldState, SurfacePlan, append, replace, index_of, slice,
  bounded_slice, surface_op_of, assert_provenance, replacement_range, ReplacementRangeInfo,
  assert_tool_result_rewrite, plan_replace, plan_op, plan_surface_event, apply_surface_plan,
  apply_surface_event,
}

pub get_elem?-index_of :
    (q : ℤ) (xs : List ℤ) (i : ℕ) → index_of q xs ≡ some i → get_elem? xs i ≡ some q
unfolding index_of
get_elem?-index_of q [] i h = cc
get_elem?-index_of q (x ∷ xs) i h = elim (Bool-cases (x =ℤ q)) [
  | inl e ↦ ground (arith, (=ℤ_iff x q).0 e)
  | inr e ↦ elim (Option-cases (index_of q xs)) [
    | inl n ↦ ground (arith, e, n)
    | inr (j, n) ↦ ground (arith, e, n, get_elem?-index_of q xs j n)
  ]
]

index_of-lt : (q : ℤ) (xs : List ℤ) (i : ℕ) → index_of q xs ≡ some i → i < length xs
unfolding index_of
index_of-lt q [] i h = cc
index_of-lt q (x ∷ xs) i h = elim (Bool-cases (x =ℤ q)) [
  | inl e ↦ ground (arith, e, h)
  | inr e ↦ elim (Option-cases (index_of q xs)) [
    | inl n ↦ ground (arith, e, n, h)
    | inr (j, n) ↦ ground (arith, e, n, h, index_of-lt q xs j n)
  ]
]

-- The slice between two nodes that were found, in their order, is within its bounds.
pub bounded_slice-ok :
    (s t : ℤ) (nodes : List ℤ) (i j : ℕ)
    → index_of s nodes ≡ some i
    → index_of t nodes ≡ some j
    → ltb j i ≡ false
    → bounded_slice nodes i j ≡ ok (slice nodes i j)
bounded_slice-ok s t nodes i j found_s found_t ordered =
    let below = index_of-lt t nodes j found_t in
    let bounds : (ltb (suc j) i || ltb (length nodes) (suc j)) ≡ false =
      ground (arith, ordered, below) in
    rw bounds refl

-- The plans that fit a surface: nothing, the event at the tail, or the event in place of the nodes
-- from position `i` through position `j`, whose ends are the declared range.
pub data PlanFits (nodes : List ℤ) (seq : ℤ) : Option SurfacePlan → Type 0 where
  skip : PlanFits nodes seq none
  tail : PlanFits nodes seq (some (append seq))
  splice :
      (s t : ℤ) (i j : ℕ)
      → i ≤ j
      → get_elem? nodes i ≡ some s
      → get_elem? nodes j ≡ some t
      → PlanFits nodes seq (some (replace seq s t i j (slice nodes i j)))

pub record RangeFits (nodes : List ℤ) (s : SurfaceOp) (r : ReplacementRangeInfo) : Type 0 where
  pub ordered : r.start_idx ≤ r.end_idx
  pub starts : get_elem? nodes r.start_idx ≡ some s.start
  pub ends : get_elem? nodes r.end_idx ≡ some s.end
  pub shadowed_slice : r.shadowed ≡ slice nodes r.start_idx r.end_idx

pub replacement_range-RangeFits :
    (nodes : List ℤ) (s : SurfaceOp) {r : ReplacementRangeInfo}
    → replacement_range nodes s ≡ ok r
    → RangeFits nodes s r
unfolding replacement_range
replacement_range-RangeFits nodes s h = elim (Option-cases (index_of s.start nodes)) [
  | inl n ↦ ground (arith, n)
  | inr (i, n) ↦ elim (Option-cases (index_of s.end nodes)) [
    | inl m ↦ ground (arith, n, m)
    | inr (j, m) ↦
        ground
          (arith, n, m, get_elem?-index_of s.start nodes i n, get_elem?-index_of s.end nodes j m)
  ]
]

module _ (c : Codec) (state : SurfaceFoldState) (events : List (Option SessionEnvelope))
    (base : ℤ) where
  plan_replace-PlanFits :
      (e : SessionEnvelope) (s : SurfaceOp) {p : Option SurfacePlan}
      → plan_replace c state.nodes e s events base ≡ ok p
      → PlanFits state.nodes e.seq p
  unfolding plan_replace
  plan_replace-PlanFits e s {p} h =
      let (range, found, h1) = >>=-eq-ok (replacement_range state.nodes s) _ h in
      let (_, _, h2) = >>=-eq-ok (assert_provenance e range.shadowed) _ h1 in
      let (_, _, h3) = >>=-eq-ok (assert_tool_result_rewrite c e range.shadowed events base) _ h2 in
      let fits = replacement_range-RangeFits state.nodes s found in
      subst (PlanFits state.nodes e.seq) (ok-injective h3) (
        rw fits.shadowed_slice
          (splice s.start s.end range.start_idx range.end_idx fits.ordered fits.starts fits.ends))

  plan_op-PlanFits :
      (e : SessionEnvelope) (s : Option SurfaceOp) {p : Option SurfacePlan}
      → plan_op c state.nodes e s events base ≡ ok p
      → PlanFits state.nodes e.seq p
  unfolding plan_op
  plan_op-PlanFits e none h = rw (← ok-injective h) skip
  plan_op-PlanFits e (some s) {p} h = elim (Bool-cases (is_append s)) [
    | inl yes_append ↦
        let (_, _, h1) = >>=-eq-ok (assert_provenance e []) _ (rw yes_append at h) in
        rw (← ok-injective h1) tail
    | inr not_append ↦ plan_replace-PlanFits e s (rw not_append at h)
  ]

  pub plan-PlanFits :
      (o : Option SessionEnvelope) (expected : ℤ) {p : Option SurfacePlan}
      → plan_surface_event c state o expected events base ≡ ok p
      → PlanFits state.nodes expected p
  unfolding plan_surface_event
  plan-PlanFits none expected h = cc
  plan-PlanFits (some e) expected {p} h = elim (Bool-cases (e.seq =ℤ expected)) [
    | inl same ↦
        let (s, _, h1) = >>=-eq-ok (surface_op_of e) _ (rw same at h) in
        subst (λ q. PlanFits state.nodes q p) ((=ℤ_iff e.seq expected).0 same)
          (plan_op-PlanFits e s h1)
    | inr other ↦ ground (arith, other)
  ]

  -- An accepted event leaves the state that some fitting plan leads to.
  pub apply_surface_event-PlanFits :
      (o : Option SessionEnvelope) (expected : ℤ)
      {r : SurfaceFoldState × Option SurfaceFoldReplacement}
      → apply_surface_event c state o expected events base ≡ ok r
      → (p : Option SurfacePlan) × PlanFits state.nodes expected p
        × (apply_surface_plan state p ≡ r)
  unfolding apply_surface_event
  apply_surface_event-PlanFits o expected h =
      let (p, h1, h2) = >>=-eq-ok (plan_surface_event c state o expected events base) _ h in
      (p, plan-PlanFits o expected h1, ok-injective h2)
