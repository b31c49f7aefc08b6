-- ===== src/Session/Surface/Partition.antt =====
-- What the fold does with each surface event: it is on the surface, or shadowed by one replacement.
use deep_seek_harness_x.Prelude.{
  ℕ, zero, suc, ◌+◌, ◌-◌, ◌≤◌, ◌≡◌, refl, ap, ◌∙◌, Option, none, some, List, [], ◌∷◌, ◌++◌, take,
  drop, ok, >>=-eq-ok, ok-injective, arith, Bool-cases, drop-drop, inl, inr, Bool, true, false,
  if◌then◌else◌,
}
use deep_seek_harness_x.Prelude.Int.{ℤ, pos, pos_part, neg_part, ◌<ℤ◌, +ℤ_parts, ◌=ℤ◌, ◌+ℤ◌, =ℤ_iff}
use deep_seek_harness_x.Session.Json.{Codec}
use deep_seek_harness_x.Session.Events.{
  SessionEnvelope, SurfaceOp, is_append, is_surface_eligible_type,
}
use deep_seek_harness_x.Session.Surface.{
  SurfaceFoldReplacement, SurfaceFoldResult, SurfaceFoldState, SurfacePlan, apply_surface_plan,
  apply_surface_event, fold_from, fold_surface, push_replacement, empty_state, surface_op_of,
  assert_provenance, replacement_range, assert_tool_result_rewrite, plan_replace, plan_op,
  plan_surface_event, slice,
}
use deep_seek_harness_x.Session.Surface.Plan.{PlanFits, skip, tail, splice, plan-PlanFits}

-- How often a seq occurs.
abbrev pub count : ℤ → List ℤ → ℕ
count q [] = 0
count q (x ∷ xs) = (if x =ℤ q then 1 else 0) + count q xs

pub count-append : (q : ℤ) (xs ys : List ℤ) → count q (xs ++ ys) ≡ count q xs + count q ys
count-append q [] ys = omega arith
count-append q (x ∷ xs) ys = omega (arith, count-append q xs ys)

-- The seqs of the surface events of a log, in log order.
abbrev pub surface_seqs : List (Option SessionEnvelope) → List ℤ
surface_seqs [] = []
surface_seqs (none ∷ rest) = surface_seqs rest
surface_seqs (some e ∷ rest) =
    if is_surface_eligible_type e.event_type then e.seq ∷ surface_seqs rest else surface_seqs rest

-- All that the replacements have shadowed.
abbrev pub all_shadowed : List SurfaceFoldReplacement → List ℤ
all_shadowed [] = []
all_shadowed (r ∷ rs) = r.shadowed_seqs ++ all_shadowed rs

abbrev shadowed_by : Option SurfaceFoldReplacement → List ℤ
shadowed_by none = []
shadowed_by (some r) = r.shadowed_seqs

count-all_shadowed :
    (q : ℤ) (rs : List SurfaceFoldReplacement) (o : Option SurfaceFoldReplacement)
    → count q (all_shadowed (push_replacement rs o))
      ≡ count q (all_shadowed rs) + count q (shadowed_by o)
count-all_shadowed q rs none = omega arith
count-all_shadowed q [] (some r) = omega (arith, count-append q r.shadowed_seqs [])
count-all_shadowed q (s ∷ rs) (some r) = omega (
  arith,
  count-all_shadowed q rs (some r),
  count-append q s.shadowed_seqs (all_shadowed (rs ++ r ∷ [])),
  count-append q s.shadowed_seqs (all_shadowed rs),
)

count-take-drop :
    (q : ℤ) (n : ℕ) (xs : List ℤ) → count q (take n xs) + count q (drop n xs) ≡ count q xs
count-take-drop q zero xs = omega arith
count-take-drop q (suc n) [] = refl
count-take-drop q (suc n) (x ∷ xs) = omega (arith, count-take-drop q n xs)

-- Cutting a list at two positions loses nothing.
count-slice :
    (q : ℤ) (xs : List ℤ) (i j : ℕ)
    → i ≤ j
    → count q (take i xs) + count q (slice xs i j) + count q (drop (suc j) xs) ≡ count q xs
count-slice q xs i j le =
    let e : i + (suc j - i) ≡ suc j = omega arith in
    let d : count q (drop (suc j - i) (drop i xs)) ≡ count q (drop (suc j) xs) =
      ap (count q) (drop-drop (suc j - i) i xs ∙ ap (λ n. drop n xs) e) in
    omega (arith, d, count-take-drop q i xs, count-take-drop q (suc j - i) (drop i xs))

abbrev planned : ℤ → Option SurfacePlan → List ℤ
planned seq none = []
planned seq (some p) = seq ∷ []

-- A plan that fits moves nodes from the surface to the shadowed and adds its own seq.
count-apply :
    (q : ℤ) (state : SurfaceFoldState) (seq : ℤ) {p : Option SurfacePlan}
    → PlanFits state.nodes seq p
    → count q (apply_surface_plan state p).0.nodes
        + count q (shadowed_by (apply_surface_plan state p).1)
      ≡ count q state.nodes + count q (planned seq p)
unfolding apply_surface_plan
count-apply q state seq skip = omega arith
count-apply q state seq tail = omega (arith, count-append q state.nodes (seq ∷ []))
count-apply q state seq (splice s t i j le hi hj) = omega (
  arith,
  count-slice q state.nodes i j le,
  count-append q (take i state.nodes) (seq ∷ drop (suc j) state.nodes),
)

abbrev marked : Option SurfaceOp → Bool
marked none = false
marked (some s) = true

surface_op_of-marked :
    (e : SessionEnvelope) {s : Option SurfaceOp}
    → surface_op_of e ≡ ok s
    → marked s ≡ is_surface_eligible_type e.event_type
unfolding surface_op_of
surface_op_of-marked e h = ground arith

module _ (c : Codec) (events : List (Option SessionEnvelope)) (base : ℤ) where
  plan_op-planned :
      (nodes : List ℤ) (e : SessionEnvelope) (s : Option SurfaceOp) {p : Option SurfacePlan}
      → plan_op c nodes e s events base ≡ ok p
      → planned e.seq p ≡ (if marked s then e.seq ∷ [] else [])
  unfolding plan_op plan_replace
  plan_op-planned nodes e none h = rw (← ok-injective h) refl
  plan_op-planned nodes e (some s) h = elim (Bool-cases (is_append s)) [
    | inl yes_append ↦
        let (_, _, h1) = >>=-eq-ok (assert_provenance e []) _ (rw yes_append at h) in
        rw (← ok-injective h1) refl
    | inr not_append ↦
        let (range, _, h1) = >>=-eq-ok (replacement_range nodes s) _ (rw not_append at h) in
        let (_, _, h2) = >>=-eq-ok (assert_provenance e range.shadowed) _ h1 in
        let (_, _, h3) =
          >>=-eq-ok (assert_tool_result_rewrite c e range.shadowed events base) _ h2 in
        rw (← ok-injective h3) refl
  ]

  -- An accepted event is planned exactly if its type is eligible, and at its own seq.
  plan-planned :
      (state : SurfaceFoldState) (o : Option SessionEnvelope) (expected : ℤ)
      {p : Option SurfacePlan}
      → plan_surface_event c state o expected events base ≡ ok p
      → planned expected p ≡ surface_seqs (o ∷ [])
  unfolding plan_surface_event
  plan-planned state none expected h = cc
  plan-planned state (some e) expected {p} h = elim (Bool-cases (e.seq =ℤ expected)) [
    | inl same ↦
        let (s, h1, h2) = >>=-eq-ok (surface_op_of e) _ (rw same at h) in
        rw (← (=ℤ_iff e.seq expected).0 same) (
          plan_op-planned state.nodes e s h2
          ∙ ap (λ b. if b then e.seq ∷ [] else []) (surface_op_of-marked e h1))
    | inr other ↦ ground (arith, other)
  ]

  surface_seqs-cons :
      (q : ℤ) (o : Option SessionEnvelope) (rest : List (Option SessionEnvelope))
      → count q (surface_seqs (o ∷ rest))
        ≡ count q (surface_seqs (o ∷ [])) + count q (surface_seqs rest)
  surface_seqs-cons q none rest = omega arith
  surface_seqs-cons q (some e) rest = elim (Bool-cases (is_surface_eligible_type e.event_type)) [
    | inl h ↦ rw h (omega arith)
    | inr h ↦ rw h (omega arith)
  ]

  apply_surface_event-count :
      (q : ℤ) (state : SurfaceFoldState) (o : Option SessionEnvelope) (expected : ℤ)
      {r : SurfaceFoldState × Option SurfaceFoldReplacement}
      → apply_surface_event c state o expected events base ≡ ok r
      → count q r.0.nodes + count q (shadowed_by r.1)
        ≡ count q state.nodes + count q (surface_seqs (o ∷ []))
  unfolding apply_surface_event
  apply_surface_event-count q state o expected h =
      let (p, h1, h2) = >>=-eq-ok (plan_surface_event c state o expected events base) _ h in
      rw (← ok-injective h2, ← plan-planned state o expected h1)
        (count-apply q state expected (plan-PlanFits c state events base o expected h1))

  fold_from-count :
      (q : ℤ) (rest : List (Option SessionEnvelope)) (n : ℕ) (state : SurfaceFoldState)
      (rs : List SurfaceFoldReplacement) {r : SurfaceFoldState × List SurfaceFoldReplacement}
      → fold_from c events base rest n state rs ≡ ok r
      → count q r.0.nodes + count q (all_shadowed r.1)
        ≡ count q state.nodes + count q (all_shadowed rs) + count q (surface_seqs rest)
  unfolding fold_from
  fold_from-count q [] n state rs h = rw (← ok-injective h) (omega arith)
  fold_from-count q (o ∷ rest) n state rs h =
      let (st, h1, h2) =
        >>=-eq-ok (apply_surface_event c state o (base +ℤ pos n) events base) _ h in
      omega (
        arith,
        apply_surface_event-count q state o (base +ℤ pos n) h1,
        fold_from-count q rest (suc n) st.0 (push_replacement rs st.1) h2,
        count-all_shadowed q rs st.1,
        surface_seqs-cons q o rest,
      )

  apply_surface_event-single :
      (q : ℤ) (state : SurfaceFoldState) (o : Option SessionEnvelope) (expected : ℤ)
      {r : SurfaceFoldState × Option SurfaceFoldReplacement}
      → apply_surface_event c state o expected events base ≡ ok r
      → count q (surface_seqs (o ∷ [])) ≤ (if expected =ℤ q then 1 else 0)
  unfolding apply_surface_event
  apply_surface_event-single q state o expected h =
      let (p, h1, h2) = >>=-eq-ok (plan_surface_event c state o expected events base) _ h in
      rw (← plan-planned state o expected h1) (planned-single p)
    where
      planned-single :
          (p : Option SurfacePlan) → count q (planned expected p) ≤ (if expected =ℤ q then 1 else 0)
      planned-single none = ground arith
      planned-single (some p) = omega arith

  -- A log that folds has each surface seq once, and none below the position where the fold starts.
  fold_from-single :
      (q : ℤ) (rest : List (Option SessionEnvelope)) (n : ℕ) (state : SurfaceFoldState)
      (rs : List SurfaceFoldReplacement) {r : SurfaceFoldState × List SurfaceFoldReplacement}
      → fold_from c events base rest n state rs ≡ ok r
      → (count q (surface_seqs rest) ≤ 1) × (q <ℤ base +ℤ pos n → count q (surface_seqs rest) ≡ 0)
  unfolding fold_from
  fold_from-single q [] n state rs h = (omega arith, λ _. refl)
  fold_from-single q (o ∷ rest) n state rs h =
      let (st, h1, h2) =
        >>=-eq-ok (apply_surface_event c state o (base +ℤ pos n) events base) _ h in
      let (once, before) = fold_from-single q rest (suc n) st.0 (push_replacement rs st.1) h2 in
      let head = apply_surface_event-single q state o (base +ℤ pos n) h1 in
      elim (Bool-cases ((base +ℤ pos n) =ℤ q)) [
        | inl here ↦
            let e = (=ℤ_iff (base +ℤ pos n) q).0 here in
            let head1 : count q (surface_seqs (o ∷ [])) ≤ 1 = rw here at head in
            let e1 = ap pos_part e in
            let e2 = ap neg_part e in
            let none_left =
              before (omega (arith, e1, e2, +ℤ_parts base (pos n), +ℤ_parts base (pos (suc n)))) in
            (
              omega (arith, none_left, surface_seqs-cons q o rest, head1),
              λ lt. absurd (omega (arith, e1, e2)),
            )
        | inr other ↦
            let head0 : count q (surface_seqs (o ∷ [])) ≤ 0 = rw other at head in
            (
              omega (arith, surface_seqs-cons q o rest, head0),
              λ lt.
                  let none_left =
                    before (omega (arith, +ℤ_parts base (pos n), +ℤ_parts base (pos (suc n)))) in
                  omega (arith, none_left, surface_seqs-cons q o rest, head0),
            )
      ]

-- The fold loses and invents nothing: each seq occurs on the surface and among the nodes shadowed by
-- the replacements together as often as it occurs as the seq of a surface event of the log.
pub fold_surface-partition :
    (c : Codec) (events : List (Option SessionEnvelope)) (base_seq : ℤ) {r : SurfaceFoldResult}
    → fold_surface c events base_seq ≡ ok r
    → (q : ℤ)
    → count q r.nodes + count q (all_shadowed r.replacements) ≡ count q (surface_seqs events)
unfolding fold_surface
fold_surface-partition c events base_seq {r} h q =
    let (x, h1, h2) = >>=-eq-ok (fold_from c events base_seq events 0 empty_state []) _ h in
    rw (← ok-injective h2)
      (omega (arith, fold_from-count c events base_seq q events 0 empty_state [] h1))

-- No seq stands twice on a folded surface, nor is a seq both on the surface and shadowed, nor
-- shadowed twice.
pub fold_surface-distinct :
    (c : Codec) (events : List (Option SessionEnvelope)) (base_seq : ℤ) {r : SurfaceFoldResult}
    → fold_surface c events base_seq ≡ ok r
    → (q : ℤ) → count q r.nodes + count q (all_shadowed r.replacements) ≤ 1
unfolding fold_surface
fold_surface-distinct c events base_seq {r} h q =
    let (x, h1, h2) = >>=-eq-ok (fold_from c events base_seq events 0 empty_state []) _ h in
    omega (
      arith,
      fold_surface-partition c events base_seq h q,
      (fold_from-single c events base_seq q events 0 empty_state [] h1).0,
    )
