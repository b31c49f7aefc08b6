-- ===== src/Session/Surface/Extend.antt =====
-- The fold of surface.go in two parts, and over a log that has grown since.
use deep_seek_harness_x.Prelude.{
  ℕ, suc, ◌+◌, ◌-◌, ◌≤◌, ◌≡◌, refl, sym, ap, ◌∙◌, Option, none, some, List, [], ◌∷◌, ◌++◌, length,
  drop, err, ◌>>=◌, bind-cong, bind_assoc, All, All-take, All-drop, arith, get_elem?-append_left,
  not, if◌then◌else◌,
}
use deep_seek_harness_x.Prelude.Int.{ℤ, pos, ◌=ℤ◌, ◌+ℤ◌}
use deep_seek_harness_x.Session.Json.{Codec}
use deep_seek_harness_x.Session.Events.{SessionEnvelope, SurfaceOp}
use deep_seek_harness_x.Session.Surface.{
  Fault, SurfaceFoldReplacement, SurfaceFoldState, apply_surface_event, fold_from, push_replacement,
  surface_op_of, assert_provenance, replacement_range, rewrite_one, assert_tool_result_rewrite,
  plan_replace, plan_op, plan_surface_event,
}
use deep_seek_harness_x.Session.Surface.Plan.{replacement_range-RangeFits}
use deep_seek_harness_x.Session.Surface.Window.{
  InWindow, InWindow-position, apply_surface_event-InWindow,
}

module _ (c : Codec) (events : List (Option SessionEnvelope)) (base : ℤ) where
  pub fold_from-append :
      (xs ys : List (Option SessionEnvelope)) (n : ℕ) (state : SurfaceFoldState)
      (rs : List SurfaceFoldReplacement)
      → fold_from c events base (xs ++ ys) n state rs ≡ (
          fold_from c events base xs n state rs >>= λ r.
          fold_from c events base ys (n + length xs) r.0 r.1)
  unfolding fold_from
  fold_from-append [] ys n state rs = let e : n + 0 ≡ n = omega arith in rw e
  fold_from-append (x ∷ xs) ys n state rs =
      let e : n + suc (length xs) ≡ suc n + length xs = omega arith in
      rw e (
        bind-cong (apply_surface_event c state x (base +ℤ pos n) events base) _ _
          (λ r _. fold_from-append xs ys (suc n) r.0 (push_replacement rs r.1))
        ∙ sym (bind_assoc (apply_surface_event c state x (base +ℤ pos n) events base) _ _))

  module _ (more : List (Option SessionEnvelope)) (n : ℕ) (le : n ≤ length events) where
    rewrite_one-extend :
        (e : SessionEnvelope) (qs : List ℤ)
        → All (InWindow base n) qs
        → rewrite_one c e qs (events ++ more) base ≡ rewrite_one c e qs events base
    unfolding rewrite_one
    rewrite_one-extend e [] w = refl
    rewrite_one-extend e (q ∷ p ∷ qs) w = refl
    rewrite_one-extend e (q ∷ []) w =
        let (k, lt, at) = InWindow-position base n q w.0 in
        rw at (rw (get_elem?-append_left events more k (omega arith)))

    assert_tool_result_rewrite-extend :
        (e : SessionEnvelope) (qs : List ℤ)
        → All (InWindow base n) qs
        → assert_tool_result_rewrite c e qs (events ++ more) base
          ≡ assert_tool_result_rewrite c e qs events base
    unfolding assert_tool_result_rewrite
    assert_tool_result_rewrite-extend e qs w = rw (rewrite_one-extend e qs w)

    plan_replace-extend :
        (nodes : List ℤ) (e : SessionEnvelope) (s : SurfaceOp)
        → All (InWindow base n) nodes
        → plan_replace c nodes e s (events ++ more) base ≡ plan_replace c nodes e s events base
    unfolding plan_replace
    plan_replace-extend nodes e s w = bind-cong (replacement_range nodes s) _ _ λ range h.
        let fits = replacement_range-RangeFits nodes s h in
        let shadowed_w : All (InWindow base n) range.shadowed = rw fits.shadowed_slice (
          All-take _ (suc range.end_idx - range.start_idx) (drop range.start_idx nodes)
            (All-drop _ range.start_idx nodes w)) in
        bind-cong (assert_provenance e range.shadowed) _ _
          λ _ _. rw (assert_tool_result_rewrite-extend e range.shadowed shadowed_w)

    plan_op-extend :
        (nodes : List ℤ) (e : SessionEnvelope) (s : Option SurfaceOp)
        → All (InWindow base n) nodes
        → plan_op c nodes e s (events ++ more) base ≡ plan_op c nodes e s events base
    unfolding plan_op
    plan_op-extend nodes e none w = refl
    plan_op-extend nodes e (some s) w = rw (plan_replace-extend nodes e s w)

    -- A plan looks at the log only below the events that the surface was folded from.
    pub plan_surface_event-extend :
        (state : SurfaceFoldState) (o : Option SessionEnvelope) (expected : ℤ)
        → All (InWindow base n) state.nodes
        → plan_surface_event c state o expected (events ++ more) base
          ≡ plan_surface_event c state o expected events base
    unfolding plan_surface_event
    plan_surface_event-extend state none expected w = refl
    plan_surface_event-extend state (some e) expected w =
        ap (λ r. if not (e.seq =ℤ expected) then err Fault.not_contiguous else r)
          (bind-cong (surface_op_of e) _ _ λ s _. plan_op-extend state.nodes e s w)

    apply_surface_event-extend :
        (state : SurfaceFoldState) (o : Option SessionEnvelope) (expected : ℤ)
        → All (InWindow base n) state.nodes
        → apply_surface_event c state o expected (events ++ more) base
          ≡ apply_surface_event c state o expected events base
    unfolding apply_surface_event
    apply_surface_event-extend state o expected w =
        rw (plan_surface_event-extend state o expected w)

  pub fold_from-extend :
      (more xs : List (Option SessionEnvelope)) (n : ℕ) (state : SurfaceFoldState)
      (rs : List SurfaceFoldReplacement)
      → n + length xs ≤ length events
      → All (InWindow base n) state.nodes
      → fold_from c (events ++ more) base xs n state rs ≡ fold_from c events base xs n state rs
  unfolding fold_from
  fold_from-extend more [] n state rs le w = refl
  fold_from-extend more (x ∷ xs) n state rs le w =
      rw (apply_surface_event-extend more n (omega arith) state x (base +ℤ pos n) w) (
        bind-cong (apply_surface_event c state x (base +ℤ pos n) events base) _ _ λ r h.
          fold_from-extend more xs (suc n) r.0 (push_replacement rs r.1) (omega arith)
            (apply_surface_event-InWindow c events base state x n h w))
