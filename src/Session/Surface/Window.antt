-- ===== src/Session/Surface/Window.antt =====
-- Where the nodes of a surface lie, and why the fold does not panic.
use deep_seek_harness_x.Prelude.{
  ℕ, suc, ◌+◌, ◌<◌, ◌≡◌, refl, Option, List, [], ◌∷◌, length, take, ok, >>=-eq-ok, ok-injective,
  All, All-append, All-take, All-drop, All-map, arith, subst,
}
use deep_seek_harness_x.Prelude.Int.{
  ℤ, pos_part, neg_part, pos, negsuc, ◌≤ℤ◌, ◌<ℤ◌, ◌+ℤ◌, ◌-ℤ◌, +ℤ_parts, -ℤ_parts,
}
use deep_seek_harness_x.Session.Json.{Codec}
use deep_seek_harness_x.Session.Events.{SessionEnvelope}
use deep_seek_harness_x.Session.Surface.{
  SurfaceFoldReplacement, SurfaceFoldResult, SurfaceFoldState, SurfacePlan, apply_surface_plan,
  apply_surface_event, fold_from, fold_surface, push_replacement, empty_state,
}
use deep_seek_harness_x.Session.Surface.Plan.{
  PlanFits, skip, tail, splice, apply_surface_event-PlanFits,
}

-- `q` is the seq of one of the first `n` events of a log that starts at `base`.
abbrev pub InWindow : ℤ → ℕ → ℤ → Type 0
InWindow base n q = (base ≤ℤ q) × (q <ℤ base +ℤ pos n)

InWindow-suc : (base : ℤ) (n : ℕ) (q : ℤ) → InWindow base n q → InWindow base (suc n) q
InWindow-suc base n q h = omega (arith, +ℤ_parts base (pos n), +ℤ_parts base (pos (suc n)))

InWindow-next : (base : ℤ) (n : ℕ) → InWindow base (suc n) (base +ℤ pos n)
InWindow-next base n = omega (arith, +ℤ_parts base (pos n), +ℤ_parts base (pos (suc n)))

-- The position of a node in the log.
pub InWindow-position :
    (base : ℤ) (n : ℕ) (q : ℤ) → InWindow base n q → (k : ℕ) × (k < n) × (q -ℤ base ≡ pos k)
InWindow-position base n q h = position (q -ℤ base) (-ℤ_parts q base) (+ℤ_parts base (pos n))
  where
    position :
        (d : ℤ)
        → pos_part d + neg_part q + pos_part base ≡ neg_part d + pos_part q + neg_part base
        → pos_part (base +ℤ pos n) + neg_part base + 0
          ≡ neg_part (base +ℤ pos n) + pos_part base + n
        → (k : ℕ) × (k < n) × (d ≡ pos k)
    position (pos k) e f = (k, omega arith, refl)
    position (negsuc k) e f = absurd (omega arith)

apply-InWindow :
    (state : SurfaceFoldState) (base : ℤ) (n : ℕ) {p : Option SurfacePlan}
    → PlanFits state.nodes (base +ℤ pos n) p
    → All (InWindow base n) state.nodes
    → All (InWindow base (suc n)) (apply_surface_plan state p).0.nodes
unfolding apply_surface_plan
apply-InWindow state base n skip h = All-map _ _ (InWindow-suc base n) state.nodes h
apply-InWindow state base n tail h =
    All-append _ state.nodes _ (All-map _ _ (InWindow-suc base n) state.nodes h)
      (InWindow-next base n, tt)
apply-InWindow state base n (splice s t i j le hi hj) h =
    let wide =
      All-map (InWindow base n) (InWindow base (suc n)) (InWindow-suc base n) state.nodes h in
    All-append _ (take i state.nodes) _ (All-take _ i state.nodes wide)
      (InWindow-next base n, All-drop _ (suc j) state.nodes wide)

module _ (c : Codec) (events : List (Option SessionEnvelope)) (base : ℤ) where
  pub apply_surface_event-InWindow :
      (state : SurfaceFoldState) (o : Option SessionEnvelope) (n : ℕ)
      {r : SurfaceFoldState × Option SurfaceFoldReplacement}
      → apply_surface_event c state o (base +ℤ pos n) events base ≡ ok r
      → All (InWindow base n) state.nodes
      → All (InWindow base (suc n)) r.0.nodes
  apply_surface_event-InWindow state o n h w =
      let (p, fits, e) = apply_surface_event-PlanFits c state events base o (base +ℤ pos n) h in
      subst (λ r. All (InWindow base (suc n)) r.0.nodes) e (apply-InWindow state base n fits w)

  pub fold_from-InWindow :
      (rest : List (Option SessionEnvelope)) (n : ℕ) (state : SurfaceFoldState)
      (rs : List SurfaceFoldReplacement) {r : SurfaceFoldState × List SurfaceFoldReplacement}
      → fold_from c events base rest n state rs ≡ ok r
      → All (InWindow base n) state.nodes
      → All (InWindow base (n + length rest)) r.0.nodes
  unfolding fold_from
  fold_from-InWindow [] n state rs {r} h w =
      let e : n ≡ n + 0 = omega arith in
      subst (λ k. All (InWindow base k) r.0.nodes) e
        (subst (λ x. All (InWindow base n) x.0.nodes) (ok-injective h) w)
  fold_from-InWindow (o ∷ rest) n state rs {r} h w =
      let (q, h1, h2) = >>=-eq-ok (apply_surface_event c state o (base +ℤ pos n) events base) _ h in
      let e : suc n + length rest ≡ n + suc (length rest) = omega arith in
      subst (λ k. All (InWindow base k) r.0.nodes) e
        (fold_from-InWindow rest (suc n) q.0 (push_replacement rs q.1) h2
          (apply_surface_event-InWindow state o n h1 w))

-- Every node of a folded surface is the seq of an event of the log: at least `base_seq`, and below
-- `base_seq` plus the number of events.
pub fold_surface-InWindow :
    (c : Codec) (events : List (Option SessionEnvelope)) (base_seq : ℤ) {r : SurfaceFoldResult}
    → fold_surface c events base_seq ≡ ok r
    → All (InWindow base_seq (length events)) r.nodes
unfolding fold_surface
fold_surface-InWindow c events base_seq {r} h =
    let (q, h1, h2) = >>=-eq-ok (fold_from c events base_seq events 0 empty_state []) _ h in
    let w = fold_from-InWindow c events base_seq events 0 empty_state [] h1 tt in
    let e : 0 + length events ≡ length events = omega arith in
    subst (λ x. All (InWindow base_seq (length events)) x.nodes) (ok-injective h2)
      (subst (λ k. All (InWindow base_seq k) q.0.nodes) e w)
