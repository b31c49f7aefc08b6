-- ===== src/Compaction/Region.antt =====
-- backend/pkg/compaction/compactor.go: choosing and checking the span of the surface to condense.
-- A token meter is an argument, `none` where the engine has none; prices and budgets are integers.
pub mod Validate
pub mod Select
pub mod Agree
use deep_seek_harness_x.Prelude.{
  ℕ, zero, suc, ◌+◌, ◌-◌, Bool, true, false, Option, none, some, List, [], ◌∷◌, map, str_eq,
  if◌then◌else◌, not, ◌==◌, ltb, Result, ok, err, ◌>>=◌, ◌>>◌, length, get_elem?,
}
use deep_seek_harness_x.Prelude.Int.{ℤ, pos, ◌+ℤ◌, ◌=ℤ◌, leb_ℤ}
use deep_seek_harness_x.Session.Events.{SessionEnvelope}
use deep_seek_harness_x.Session.Messages.{Decoder}
use deep_seek_harness_x.Session.Surface.{index_of, slice}
use deep_seek_harness_x.Compaction.Pairing.{PairingError, balanced_before, balanced_after}

pub data RegionError : Type 0 where
  pairing : PairingError → RegionError
  meter_failed meter_mismatch : RegionError
  start_not_found end_not_found start_after_end start_unbalanced end_unbalanced : RegionError

abbrev pub Meter : Type 0
Meter = List SessionEnvelope → List ℤ → Option (List ℤ)

pub record SurfaceSpan : Type 0 where
  pub start : ℤ
  pub end : ℤ

pub record SurfaceSelection : Type 0 where
  pub span : SurfaceSpan
  pub start_idx : ℕ
  pub end_idx : ℕ
  pub shadowed_seqs : List ℤ

abbrev pub lift_pairing {ℓ} : {A : Type ℓ} → Result PairingError A → Result RegionError A
lift_pairing (ok a) = ok a
lift_pairing (err e) = err (pairing e)

metered : Option (List ℤ) → Result RegionError (List ℤ)
metered none = err meter_failed
metered (some priced) = ok priced

unfoldable pub measure : Option Meter → List SessionEnvelope → List ℤ → Result RegionError (List ℤ)
unfolding metered
measure none events nodes = ok (map (λ _. pos 1) nodes)
measure (some meter) events nodes = metered (meter events nodes)

-- `priced[index]`, in range in the loop below.
abbrev pub price_at : List ℤ → ℕ → ℤ
price_at [] i = pos 0
price_at (x ∷ xs) zero = x
price_at (x ∷ xs) (suc i) = price_at xs i

-- The loop that prices the tail, with `index + 1` positions left: it stops where the budget is met.
unfoldable pub price_tail : ℤ → List ℤ → ℤ → ℕ → ℕ
unfolding ◌+ℤ◌
price_tail retain priced accumulated zero = 0
price_tail retain priced accumulated (suc index) =
    let rest = price_tail retain priced (accumulated +ℤ price_at priced index) index in
    if leb_ℤ retain (accumulated +ℤ price_at priced index) then index else rest

-- The loop that moves the cut back to a balanced one.
unfoldable pub back_off : Decoder → List SessionEnvelope → List ℤ → ℕ → Result RegionError ℕ
unfolding balanced_before
back_off d events nodes zero = ok 0
back_off d events nodes (suc keep) =
    let rest = back_off d events nodes keep in
    lift_pairing (balanced_before d events nodes (pos (suc keep))) >>= λ balanced.
    if balanced then ok (suc keep) else rest

-- `SurfaceSpan{Start: nodes[0], End: nodes[keep-1]}`
span_to : List ℤ → ℕ → Option SurfaceSpan
span_to nodes zero = none
span_to [] (suc last) = none
span_to (first ∷ nodes) (suc last) = elim (get_elem? (first ∷ nodes) last) [
  | none ↦ none
  | some q ↦ some (record { start = first; end = q })
]

select_priced :
    Decoder → ℤ → List SessionEnvelope → List ℤ → List ℤ → Result RegionError (Option SurfaceSpan)
unfolding price_tail back_off span_to
select_priced d retain events nodes priced =
    if not (length priced == length nodes) then err meter_mismatch else do
      keep ← back_off d events nodes (price_tail retain priced (pos 0) (length nodes))
      ok (span_to nodes keep)

-- SelectCompactableRange; `ok none` is the nil span.
unfoldable pub select_compactable_range :
    Decoder
    → Option Meter
    → ℤ
    → List SessionEnvelope
    → List ℤ
    → Result RegionError (Option SurfaceSpan)
unfolding measure select_priced
select_compactable_range d meter retain events [] = ok none
select_compactable_range d meter retain events (q ∷ qs) = do
  priced ← measure meter events (q ∷ qs)
  select_priced d retain events (q ∷ qs) priced

check_boundaries :
    Decoder
    → List SessionEnvelope
    → List ℤ
    → SurfaceSpan
    → ℕ
    → ℕ
    → Result RegionError SurfaceSelection
unfolding balanced_before balanced_after
check_boundaries d events nodes span i j = do
  before ← lift_pairing (balanced_before d events nodes (pos i))
  if not before then err start_unbalanced else do
    after ← lift_pairing (balanced_after d events nodes (pos j))
    if not after
        then err end_unbalanced
        else ok
            (record { span = span; start_idx = i; end_idx = j; shadowed_seqs = slice nodes i j })

-- The guards on the positions of the two ends.
located :
    Decoder
    → List SessionEnvelope
    → List ℤ
    → SurfaceSpan
    → Option ℕ
    → Option ℕ
    → Result RegionError SurfaceSelection
unfolding check_boundaries
located d events nodes span none end_idx = err start_not_found
located d events nodes span (some i) none = err end_not_found
located d events nodes span (some i) (some j) =
    if ltb j i then err start_after_end else check_boundaries d events nodes span i j

unfoldable pub validate_surface_region :
    Decoder → List SessionEnvelope → List ℤ → ℤ → ℤ → Result RegionError SurfaceSelection
unfolding index_of located
validate_surface_region d events nodes start end =
    located d events nodes (record { start = start; end = end }) (index_of start nodes)
      (index_of end nodes)
