-- ===== src/Compaction/Region/Agree.antt =====
-- What ValidateSurfaceRegion of compactor.go accepts, in backend/pkg/session/surface.go.
use deep_seek_harness_x.Prelude.{
  ℕ, ◌≡◌, refl, subst, Option, none, some, List, ok, ok-injective, >>=-eq-ok, Bool-cases, inl, inr,
  ltb, arith,
}
use deep_seek_harness_x.Prelude.Int.{ℤ, pos}
use deep_seek_harness_x.Session.Events.{SessionEnvelope, replace_surface_op}
use deep_seek_harness_x.Session.Messages.{Decoder}
use deep_seek_harness_x.Session.Surface.Plan.{bounded_slice-ok}
use deep_seek_harness_x.Session.Surface.{index_of, slice, ReplacementRangeInfo, replacement_range}
use deep_seek_harness_x.Compaction.Pairing.{balanced_before, balanced_after}
use deep_seek_harness_x.Compaction.Region.{
  SurfaceSpan, SurfaceSelection, lift_pairing, check_boundaries, located, validate_surface_region,
}

module _ (d : Decoder) (events : List SessionEnvelope) (nodes : List ℤ) where
  abbrev region_at : SurfaceSpan → ℕ → ℕ → SurfaceSelection
  region_at span i j = record {
    span = span;
    start_idx = i;
    end_idx = j;
    shadowed_seqs = slice nodes i j;
  }

  check_boundaries-region_at :
      (span : SurfaceSpan) (i j : ℕ) {s : SurfaceSelection}
      → check_boundaries d events nodes span i j ≡ ok s
      → region_at span i j ≡ s
  unfolding check_boundaries
  check_boundaries-region_at span i j h =
      let (before, h1, h2) =
        >>=-eq-ok (lift_pairing (balanced_before d events nodes (pos i))) _ h in
      elim (Bool-cases before) [
        | inr off ↦ ground (arith, off)
        | inl on ↦
            let (after, h4, h5) =
              >>=-eq-ok (lift_pairing (balanced_after d events nodes (pos j))) _ (rw on at h2) in
            elim (Bool-cases after) [
              | inr off ↦ ground (arith, off)
              | inl on' ↦ ok-injective (rw on' at h5)
            ]
      ]

  abbrev range_of : SurfaceSelection → ReplacementRangeInfo
  range_of s = record { start_idx = s.start_idx; end_idx = s.end_idx; shadowed = s.shadowed_seqs }

  located-replacement_range :
      (start end : ℤ) (o p : Option ℕ) {s : SurfaceSelection}
      → index_of start nodes ≡ o
      → index_of end nodes ≡ p
      → located d events nodes (record { start = start; end = end }) o p ≡ ok s
      → replacement_range nodes (replace_surface_op start end) ≡ ok (range_of s)
  unfolding located replacement_range replace_surface_op
  located-replacement_range start end none p n k h = cc
  located-replacement_range start end (some i) none n k h = cc
  located-replacement_range start end (some i) (some j) n k h = elim (Bool-cases (ltb j i)) [
    | inl after ↦ ground (arith, after)
    | inr ordered ↦
        let same =
          check_boundaries-region_at (record { start = start; end = end }) i j (rw ordered at h) in
        subst (λ z. replacement_range nodes (replace_surface_op start end) ≡ ok (range_of z)) same
          (rw (n, k, ordered, bounded_slice-ok start end nodes i j n k ordered, replacement_range)
            refl)
  ]

  -- A region that ValidateSurfaceRegion accepts is one that the surface fold can replace: the range check
  -- of a replacement from the region's start to its end succeeds, with the positions and the shadowed
  -- nodes of the selection.
  pub validate_surface_region-replacement_range :
      (start end : ℤ) (s : SurfaceSelection)
      → validate_surface_region d events nodes start end ≡ ok s
      → replacement_range nodes (replace_surface_op start end) ≡ ok (range_of s)
  unfolding validate_surface_region
  validate_surface_region-replacement_range start end s h =
      located-replacement_range start end (index_of start nodes) (index_of end nodes) refl refl h
