-- ===== src/Session/Manager/Grow.antt =====
-- The manager of surface.go when its log grows at the end.
use deep_seek_harness_x.Prelude.{
  ℕ, ◌+◌, ◌≡◌, refl, List, [], ◌∷◌, ◌++◌, map, map-append, length, take, All, arith, subst,
  length-map, take-append_left, length-append, length-take-le,
}
use deep_seek_harness_x.Prelude.Int.{ℤ, pos, ◌+ℤ◌}
use deep_seek_harness_x.Session.Json.{Codec}
use deep_seek_harness_x.Session.Surface.{empty_state}
use deep_seek_harness_x.Session.Surface.Window.{InWindow, fold_from-InWindow}
use deep_seek_harness_x.Session.Surface.Extend.{fold_from-extend, plan_surface_event-extend}
use deep_seek_harness_x.Session.Manager.{Address, Heap, SurfaceManager}
use deep_seek_harness_x.Session.Manager.Refines.{Synced, IsSynced}

module _ (c : Codec) (heap : Heap) (log : List Address) (base : ℤ) where
  module _ (k : ℕ) (m : SurfaceManager) (s : Synced c heap log base k m) where
    length-folded : 0 + length (take k (map heap log)) ≡ k
    length-folded = omega (arith, length-take-le k (map heap log), length-map heap log, s.in_log)

    folded-InWindow : All (InWindow base k) m.state.nodes
    folded-InWindow =
        subst (λ n. All (InWindow base n) m.state.nodes) length-folded
          (fold_from-InWindow c (map heap log) base (take k (map heap log)) 0 empty_state []
            s.folded tt)

  -- A manager stays in step when its log grows at the end, with a plan pending or not: the plan of a
  -- validated event is still the plan that the fold makes for it.
  pub grown-IsSynced :
      (m : SurfaceManager) (a : Address)
      → IsSynced c heap log base m
      → IsSynced c heap (log ++ a ∷ []) base (record m { log = log ++ a ∷ [] })
  grown-IsSynced m a (k, s) = (
    k,
    record {
      same_log = refl;
      same_base = s.same_base;
      in_log = omega (arith, length-append log (a ∷ []), s.in_log);
      processed = s.processed;
      replacements = s.replacements;
      folded =
          rw
            (
              map-append heap log (a ∷ []),
              take-append_left k (map heap log) (heap a ∷ [])
                  (omega (arith, length-map heap log, s.in_log)),
              fold_from-extend c (map heap log) base (heap a ∷ []) (take k (map heap log)) 0
                  empty_state [] (omega (arith, length-folded k m s, length-map heap log, s.in_log))
                  tt,
            )
            s.folded;
      pending = λ p h.
          let (b, hb, planned) = s.pending p h in
          (
            b,
            hb,
            rw
                (
                  map-append heap log (a ∷ []),
                  plan_surface_event-extend c (map heap log) base (heap a ∷ []) k
                      (omega (arith, length-map heap log, s.in_log)) m.state (heap b)
                      (base +ℤ pos k) (folded-InWindow k m s),
                )
                planned,
          );
    },
  )
