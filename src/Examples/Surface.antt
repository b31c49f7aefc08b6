-- ===== src/Examples/Surface.antt =====
-- The examples of the surface and of its manager.
use deep_seek_harness_x.Prelude.{[], ◌∷◌, ◌++◌, map, ok, ◌>>=◌, ◌≡◌, refl, ◌≤◌, ◌+◌}
use deep_seek_harness_x.Prelude.Int.{pos}
use deep_seek_harness_x.Session.Events.{replace_surface_op}
use deep_seek_harness_x.Session.Surface.{SurfaceFoldResult, fold_surface}
use deep_seek_harness_x.Session.Surface.Partition.{
  count, all_shadowed, surface_seqs, fold_surface-partition, fold_surface-distinct,
}
use deep_seek_harness_x.Session.Manager.{SurfaceManager, new_surface_manager, nodes, validate_next}
use deep_seek_harness_x.Session.Manager.Refines.{IsSynced, new_surface_manager-IsSynced}
use deep_seek_harness_x.Session.Manager.Contract.{
  nodes-refines-fold_surface, validate_next-refines-fold_surface, validate_next-IsSynced,
}
use deep_seek_harness_x.Examples.Log.{codec, events, heap, log}

abbrev manager : SurfaceManager
manager = new_surface_manager log (pos 0)

manager-IsSynced : IsSynced codec heap log (pos 0) manager
manager-IsSynced = new_surface_manager-IsSynced codec heap log (pos 0)

nodes-refines-fold_surface_example :
    (nodes codec heap manager).1 ≡ (fold_surface codec (map heap log) (pos 0) >>= λ r. ok r.nodes)
nodes-refines-fold_surface_example =
    nodes-refines-fold_surface codec heap log (pos 0) manager manager-IsSynced

validate_next-refines-fold_surface_example :
    (validate_next codec heap manager 3).1
    ≡ (fold_surface codec (map heap (log ++ 3 ∷ [])) (pos 0) >>= λ _. ok tt)
validate_next-refines-fold_surface_example =
    validate_next-refines-fold_surface codec heap log (pos 0) manager 3 manager-IsSynced

validate_next-IsSynced_example :
    IsSynced codec heap log (pos 0) (validate_next codec heap manager 3).0
validate_next-IsSynced_example =
    validate_next-IsSynced codec heap log (pos 0) manager 3 manager-IsSynced

abbrev folded : SurfaceFoldResult
folded = record {
  nodes = pos 2 ∷ [];
  replacements =
      record { seq = pos 2; start = pos 0; end = pos 1; shadowed_seqs = pos 0 ∷ pos 1 ∷ [] } ∷ [];
  replace_generation = 1;
}

events-folded : fold_surface codec events (pos 0) ≡ ok folded
unfolding fold_surface replace_surface_op
events-folded = refl

fold_surface-partition_example :
    count (pos 1) folded.nodes + count (pos 1) (all_shadowed folded.replacements)
    ≡ count (pos 1) (surface_seqs events)
fold_surface-partition_example = fold_surface-partition codec events (pos 0) events-folded (pos 1)

fold_surface-distinct_example :
    count (pos 1) folded.nodes + count (pos 1) (all_shadowed folded.replacements) ≤ 1
fold_surface-distinct_example = fold_surface-distinct codec events (pos 0) events-folded (pos 1)
