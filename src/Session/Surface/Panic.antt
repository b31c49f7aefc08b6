-- ===== src/Session/Surface/Panic.antt =====
-- The fold of surface.go does not panic: the index into the log and the bounds of the shadowed slice stay in range.
use deep_seek_harness_x.Prelude.{
  ℕ, suc, ◌+◌, ◌-◌, ◌≤◌, ◌≡◌, refl, sym, subst, Option, none, some, List, [], ◌∷◌, length, drop,
  Result, ok, err, ◌>>=◌, All, All-take, All-drop, arith, get_elem?-some, Bool-cases, Option-cases,
  ltb, inl, inr, str_eq,
}
use deep_seek_harness_x.Prelude.Int.{ℤ, pos, ◌=ℤ◌, ◌+ℤ◌}
use deep_seek_harness_x.Session.Json.{Codec}
use deep_seek_harness_x.Session.Events.{SessionEnvelope, SurfaceOp, is_append, event_tool_result}
use deep_seek_harness_x.Session.Surface.{
  Fault, panic, start_not_found, end_not_found, start_after_end, slice, SurfaceFoldReplacement,
  SurfaceFoldState, apply_surface_event, fold_from, push_replacement, index_of, surface_op_of,
  sources_of, check_sources, check_shadowed, assert_provenance, replacement_range, rewrite_of,
  rewrite_one, assert_tool_result_rewrite, plan_replace, plan_op, plan_surface_event,
}
use deep_seek_harness_x.Session.Surface.Plan.{replacement_range-RangeFits, bounded_slice-ok}
use deep_seek_harness_x.Session.Surface.Window.{
  InWindow, InWindow-position, apply_surface_event-InWindow,
}

-- The result is no panic.
abbrev pub IsSafe {ℓ} : {A : Type ℓ} → Result Fault A → Type 0
IsSafe (ok a) = Unit
IsSafe (err panic) = ⊥
IsSafe (err _) = Unit

-- A chain is safe if its first part is, and the rest is from each result of that.
bind-IsSafe {ℓ κ} :
    {A : Type ℓ} {B : Type κ} (m : Result Fault A) (f : A → Result Fault B)
    → IsSafe m
    → ((a : A) → m ≡ ok a → IsSafe (f a))
    → IsSafe (m >>= f)
bind-IsSafe (ok a) f h k = k a refl
bind-IsSafe (err Fault.panic) f h k = h
bind-IsSafe (err Fault.not_contiguous) f h k = h
bind-IsSafe (err _) f h k = h

surface_op_of-IsSafe : (e : SessionEnvelope) → IsSafe (surface_op_of e)
unfolding surface_op_of
surface_op_of-IsSafe e = ground arith

check_sources-IsSafe : (seq : ℤ) (seen qs : List ℤ) → IsSafe (check_sources seq seen qs)
unfolding check_sources
check_sources-IsSafe seq seen [] = tt
check_sources-IsSafe seq seen (q ∷ qs) = ground (arith, check_sources-IsSafe seq (q ∷ seen) qs)

check_shadowed-IsSafe : (sources qs : List ℤ) → IsSafe (check_shadowed sources qs)
unfolding check_shadowed
check_shadowed-IsSafe sources [] = tt
check_shadowed-IsSafe sources (q ∷ qs) = ground (arith, check_shadowed-IsSafe sources qs)

sources_of-IsSafe : (e : SessionEnvelope) → IsSafe (sources_of e)
unfolding sources_of
sources_of-IsSafe e = ground arith

assert_provenance-IsSafe : (e : SessionEnvelope) (qs : List ℤ) → IsSafe (assert_provenance e qs)
unfolding assert_provenance
assert_provenance-IsSafe e qs = bind-IsSafe (sources_of e) _ (sources_of-IsSafe e) λ listed h.
    bind-IsSafe (check_sources e.seq [] listed) _ (check_sources-IsSafe e.seq [] listed)
      λ sources g. check_shadowed-IsSafe sources qs

replacement_range-IsSafe : (nodes : List ℤ) (s : SurfaceOp) → IsSafe (replacement_range nodes s)
unfolding replacement_range
replacement_range-IsSafe nodes s = elim (Option-cases (index_of s.start nodes)) [
  | inl absent ↦
      let fails : replacement_range nodes s ≡ err start_not_found =
        rw (absent, replacement_range) refl in
      subst IsSafe (sym fails) tt
  | inr (i, at_i) ↦ elim (Option-cases (index_of s.end nodes)) [
    | inl absent ↦
        let fails : replacement_range nodes s ≡ err end_not_found =
          rw (at_i, absent, replacement_range) refl in
        subst IsSafe (sym fails) tt
    | inr (j, at_j) ↦ elim (Bool-cases (ltb j i)) [
      | inl crossed ↦
          let fails : replacement_range nodes s ≡ err start_after_end =
            rw (at_i, at_j, crossed, replacement_range) refl in
          subst IsSafe (sym fails) tt
      | inr ordered ↦
          let found : replacement_range nodes s
              ≡ ok (record { start_idx = i; end_idx = j; shadowed = slice nodes i j }) =
            rw
              (
                at_i,
                at_j,
                ordered,
                bounded_slice-ok s.start s.end nodes i j at_i at_j ordered,
                replacement_range,
              )
              refl in
          subst IsSafe (sym found) tt
    ]
  ]
]

-- What the fold is given: a log without nil pointers.
abbrev pub IsPresent : Option SessionEnvelope → Type 0
IsPresent none = ⊥
IsPresent (some e) = Unit

module _ (c : Codec) (events : List (Option SessionEnvelope)) (base : ℤ) where
  rewrite_one-IsSafe :
      (e : SessionEnvelope) (qs : List ℤ) (n : ℕ)
      → n ≤ length events
      → All (InWindow base n) qs
      → IsSafe (rewrite_one c e qs events base)
  unfolding rewrite_one
  rewrite_one-IsSafe e [] n le w = tt
  rewrite_one-IsSafe e (q ∷ p ∷ qs) n le w = tt
  rewrite_one-IsSafe e (q ∷ []) n le w =
      let (k, lt, at) = InWindow-position base n q w.0 in
      let (o, found) = get_elem?-some events k (omega arith) in rw at (rw found (found-IsSafe o))
    where
      found-IsSafe : (o : Option SessionEnvelope) → IsSafe (rewrite_of c e (some o))
      found-IsSafe none = tt
      found-IsSafe (some original) = ground arith

  assert_tool_result_rewrite-IsSafe :
      (e : SessionEnvelope) (qs : List ℤ) (n : ℕ)
      → n ≤ length events
      → All (InWindow base n) qs
      → IsSafe (assert_tool_result_rewrite c e qs events base)
  unfolding assert_tool_result_rewrite
  assert_tool_result_rewrite-IsSafe e qs n le w =
      elim (Bool-cases (str_eq e.event_type event_tool_result)) [
        | inl is_result ↦ rw is_result (rewrite_one-IsSafe e qs n le w)
        | inr other ↦ rw other tt
      ]

  module _ (nodes : List ℤ) (n : ℕ) (le : n ≤ length events) (w : All (InWindow base n) nodes) where
    plan_replace-IsSafe :
        (e : SessionEnvelope) (s : SurfaceOp) → IsSafe (plan_replace c nodes e s events base)
    unfolding plan_replace
    plan_replace-IsSafe e s =
        bind-IsSafe (replacement_range nodes s) _ (replacement_range-IsSafe nodes s) λ range h.
          let fits = replacement_range-RangeFits nodes s h in
          let shadowed_w : All (InWindow base n) range.shadowed = rw fits.shadowed_slice (
            All-take _ (suc range.end_idx - range.start_idx) (drop range.start_idx nodes)
              (All-drop _ range.start_idx nodes w)) in
          bind-IsSafe (assert_provenance e range.shadowed) _
            (assert_provenance-IsSafe e range.shadowed)
            λ _ _.
              bind-IsSafe (assert_tool_result_rewrite c e range.shadowed events base) _
                (assert_tool_result_rewrite-IsSafe e range.shadowed n le shadowed_w) λ _ _. tt

    plan_op-IsSafe :
        (e : SessionEnvelope) (s : Option SurfaceOp) → IsSafe (plan_op c nodes e s events base)
    unfolding plan_op
    plan_op-IsSafe e none = tt
    plan_op-IsSafe e (some s) = elim (Bool-cases (is_append s)) [
      | inl yes_append ↦
          rw yes_append
            (bind-IsSafe (assert_provenance e []) _ (assert_provenance-IsSafe e []) λ _ _. tt)
      | inr not_append ↦ rw not_append (plan_replace-IsSafe e s)
    ]

  apply_surface_event-IsSafe :
      (state : SurfaceFoldState) (o : Option SessionEnvelope) (n : ℕ) (expected : ℤ)
      → IsPresent o
      → n ≤ length events
      → All (InWindow base n) state.nodes
      → IsSafe (apply_surface_event c state o expected events base)
  unfolding apply_surface_event plan_surface_event
  apply_surface_event-IsSafe state none n expected p le w = p
  apply_surface_event-IsSafe state (some e) n expected p le w =
      bind-IsSafe (plan_surface_event c state (some e) expected events base) _
        (elim (Bool-cases (e.seq =ℤ expected)) [
          | inl same ↦ rw same (
              bind-IsSafe (surface_op_of e) _ (surface_op_of-IsSafe e)
                λ s _. plan_op-IsSafe state.nodes n le w e s)
          | inr other ↦ rw other tt
        ])
        λ _ _. tt

  pub fold_from-IsSafe :
      (rest : List (Option SessionEnvelope)) (n : ℕ) (state : SurfaceFoldState)
      (rs : List SurfaceFoldReplacement)
      → All IsPresent rest
      → n + length rest ≤ length events
      → All (InWindow base n) state.nodes
      → IsSafe (fold_from c events base rest n state rs)
  unfolding fold_from
  fold_from-IsSafe [] n state rs present le w = tt
  fold_from-IsSafe (o ∷ rest) n state rs present le w =
      bind-IsSafe (apply_surface_event c state o (base +ℤ pos n) events base) _
        (apply_surface_event-IsSafe state o n (base +ℤ pos n) present.0 (omega arith) w)
        λ q h.
          fold_from-IsSafe rest (suc n) q.0 (push_replacement rs q.1) present.1 (omega arith)
            (apply_surface_event-InWindow c events base state o n h w)
