-- ===== src/Compaction/Region/Validate.antt =====
-- What ValidateSurfaceRegion of compactor.go guarantees of the region that it accepts.
use deep_seek_harness_x.Prelude.{
  ℕ, suc, ◌≤◌, ◌≡◌, refl, sym, ◌∙◌, subst, Bool, true, false, Option, none, some, List, [], ◌∷◌,
  ◌++◌, str_eq, Result, ok, err, ok-injective, >>=-eq-ok, get_elem?, get_elem?-lt, take, drop,
  arith, Bool-cases, inl, inr, All, ltb,
}
use deep_seek_harness_x.Prelude.Int.{ℤ, pos, ◌=ℤ◌}
use deep_seek_harness_x.Session.Events.{SessionEnvelope, event_user_message}
use deep_seek_harness_x.Session.Messages.{Decoder}
use deep_seek_harness_x.Session.Surface.{index_of, slice}
use deep_seek_harness_x.Session.Surface.Plan.{get_elem?-index_of}
use deep_seek_harness_x.Compaction.Pairing.{
  PairingError, cut_balances, balanced_before, balanced_after,
}
use deep_seek_harness_x.Compaction.Pairing.Balance.{
  cut_balances-splice, balanced_before-balance, balanced_after-before,
}
use deep_seek_harness_x.Compaction.Region.{
  SurfaceSelection, lift_pairing, check_boundaries, located, validate_surface_region,
}

pub lift_pairing-eq-ok {ℓ} :
    {A : Type ℓ} (r : Result PairingError A) {a : A} → lift_pairing r ≡ ok a → r ≡ ok a
lift_pairing-eq-ok (ok b) h = rw (ok-injective h) refl
lift_pairing-eq-ok (err e) h = cc

-- An accepted region: its ends are the requested seqs, in order, and both its cuts are balanced.
pub record Validated (d : Decoder) (events : List SessionEnvelope) (nodes : List ℤ) (start end : ℤ)
    (s : SurfaceSelection) : Type 0 where
  pub same_span : s.span ≡ record { start = start; end = end }
  pub ordered : s.start_idx ≤ s.end_idx
  pub starts : get_elem? nodes s.start_idx ≡ some start
  pub ends : get_elem? nodes s.end_idx ≡ some end
  pub shadows : s.shadowed_seqs ≡ slice nodes s.start_idx s.end_idx
  pub balances : List Bool
  pub has_balances : cut_balances d events nodes ≡ ok balances
  pub start_balanced : get_elem? balances s.start_idx ≡ some true
  pub end_balanced : get_elem? balances (suc s.end_idx) ≡ some true

module _ (d : Decoder) (events : List SessionEnvelope) (nodes : List ℤ) where
  check_boundaries-Validated :
      (start end : ℤ) (i j : ℕ) {s : SurfaceSelection}
      → i ≤ j
      → get_elem? nodes i ≡ some start
      → get_elem? nodes j ≡ some end
      → check_boundaries d events nodes (record { start = start; end = end }) i j ≡ ok s
      → Validated d events nodes start end s
  unfolding check_boundaries
  check_boundaries-Validated start end i j le hi hj h =
      let (before, h1, h2) =
        >>=-eq-ok (lift_pairing (balanced_before d events nodes (pos i))) _ h in
      elim (Bool-cases before) [
        | inr off ↦ ground (arith, off)
        | inl on ↦
            let h3 = rw on at h2 in
            let (after, h4, h5) =
              >>=-eq-ok (lift_pairing (balanced_after d events nodes (pos j))) _ h3 in
            elim (Bool-cases after) [
              | inr off ↦ ground (arith, off)
              | inl on' ↦
                  let (bs, b1, b2) =
                    balanced_before-balance d events nodes i (lift_pairing-eq-ok _ h1) in
                  let (cs, c1, c2) =
                    balanced_before-balance d events nodes (suc j)
                      (sym (balanced_after-before d events nodes j) ∙ lift_pairing-eq-ok _ h4) in
                  let same : bs ≡ cs = ok-injective (sym b1 ∙ c1) in
                  subst (Validated d events nodes start end) (ok-injective (rw on' at h5)) (record {
                    same_span = refl;
                    ordered = le;
                    starts = hi;
                    ends = hj;
                    shadows = refl;
                    balances = bs;
                    has_balances = b1;
                    start_balanced = rw on at b2;
                    end_balanced = rw (same, ← on') c2;
                  })
            ]
      ]

  located-Validated :
      (start end : ℤ) (o p : Option ℕ) {s : SurfaceSelection}
      → index_of start nodes ≡ o
      → index_of end nodes ≡ p
      → located d events nodes (record { start = start; end = end }) o p ≡ ok s
      → Validated d events nodes start end s
  unfolding located
  located-Validated start end none p n k h = cc
  located-Validated start end (some i) none n k h = cc
  located-Validated start end (some i) (some j) n k h = elim (Bool-cases (ltb j i)) [
    | inl after ↦ ground (arith, after)
    | inr ordered ↦
        check_boundaries-Validated start end i j (ground (arith, ordered))
          (get_elem?-index_of start nodes i n) (get_elem?-index_of end nodes j k) (rw ordered at h)
  ]

  pub validate_surface_region-Validated :
      (start end : ℤ) {s : SurfaceSelection}
      → validate_surface_region d events nodes start end ≡ ok s
      → Validated d events nodes start end s
  unfolding validate_surface_region
  validate_surface_region-Validated start end h =
      located-Validated start end (index_of start nodes) (index_of end nodes) refl refl h

-- A region that validates can be replaced by one user message with a seq that is not on the surface:
-- the cuts of the new surface are computed without error, and their balances are those of the old
-- surface before and after the region, so no tool call is parted from its result.
pub validate_surface_region-splice :
    (d : Decoder) (events : List SessionEnvelope) (nodes : List ℤ) (start end : ℤ)
    (s : SurfaceSelection) (e : SessionEnvelope)
    → validate_surface_region d events nodes start end ≡ ok s
    → str_eq e.event_type event_user_message ≡ true
    → All (λ q. (e.seq =ℤ q) ≡ false) nodes
    → (balances : List Bool) × (cut_balances d events nodes ≡ ok balances)
      × (cut_balances d
            (events ++ e ∷ [])
            (take s.start_idx nodes ++ e.seq ∷ drop (suc s.end_idx) nodes)
          ≡ ok (take (suc s.start_idx) balances ++ drop (suc s.end_idx) balances))
validate_surface_region-splice d events nodes start end s e h message new_seq =
    let v = validate_surface_region-Validated d events nodes start end h in
    (
      v.balances,
      v.has_balances,
      cut_balances-splice d events nodes v.balances s.start_idx s.end_idx e v.has_balances v.ordered
          (get_elem?-lt nodes s.end_idx v.ends) v.start_balanced v.end_balanced message new_seq,
    )
