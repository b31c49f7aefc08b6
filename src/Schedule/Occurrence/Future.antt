-- ===== src/Schedule/Occurrence/Future.antt =====
-- backend/pkg/tools/schedule.go: the next occurrence is the first one after the accepted instant.
use native.Mathlib.Nat.{div-add-mod, mod-lt, zero-mul, suc-mul, mul_comm, div-le_self}
use deep_seek_harness_x.Prelude.{
  ℕ, zero, suc, ◌+◌, ◌*◌, ◌/◌, ◌%◌, ◌≤◌, ◌<◌, ◌==◌, true, false, ◌≡◌, refl, sym, ok, inl, inr, ◌⊎◌,
  Bool-cases, arith,
}
use deep_seek_harness_x.Prelude.Int.{
  ℤ, pos, negsuc, sub_ℕ, pos_part, neg_part, ◌+ℤ◌, ◌-ℤ◌, ◌<ℤ◌, ◌≤ℤ◌, +ℤ_parts, -ℤ_parts,
  eq_of_parts,
}
use deep_seek_harness_x.Schedule.Occurrence.{
  nanoseconds, wrap_64, saturate_64, abs_ℤ, is_negative, times, quotient, has_remainder, floored,
  within_years, next_at, next_occurrence,
}

wrap_64-small : (z : ℤ) → abs_ℤ z < 9223372036854775808 → wrap_64 z ≡ z
unfolding wrap_64
wrap_64-small (pos n) h = ground (arith, h)
wrap_64-small (negsuc n) h = ground (arith, h)

saturate_64-small : (z : ℤ) → abs_ℤ z < 9223372036854775808 → saturate_64 z ≡ z
unfolding saturate_64
saturate_64-small (pos n) h = ground (arith, h)
saturate_64-small (negsuc n) h = ground (arith, h)

abs-sub_ℕ : (n : ℕ) → abs_ℤ (sub_ℕ 0 n) ≡ n
abs-sub_ℕ zero = refl
abs-sub_ℕ (suc n) = ground arith

times-pos : (n i : ℕ) → times (pos n) (pos i) ≡ pos (n * i)
unfolding times
times-pos n i = refl

negative : (n : ℕ) → is_negative (sub_ℕ 0 (suc n)) ≡ true
negative n = ground arith

times-neg : (n i : ℕ) → times (sub_ℕ 0 n) (pos i) ≡ sub_ℕ 0 (n * i)
unfolding times
times-neg zero i = rw (zero-mul i) refl
times-neg (suc n) i = rw (negative n, abs-sub_ℕ (suc n)) refl

sub_one : (n : ℕ) → sub_ℕ 0 n -ℤ pos 1 ≡ sub_ℕ 0 (suc n)
unfolding ◌-ℤ◌
sub_one zero = refl
sub_one (suc n) = ground arith

suc_times : (q i : ℕ) → suc q * i ≡ q * i + i
suc_times q i = suc-mul q i

module _ (i : ℕ) (positive : 0 < i) where
  quotient-le : (d : ℕ) → d / i ≤ d
  quotient-le d = div-le_self d i

  quotient-floor : (d : ℕ) → (d / i * i + d % i ≡ d) × (d % i < i)
  quotient-floor d = (rw (mul_comm (d / i) i) (div-add-mod d i), mod-lt d positive)

  -- The multiple of the interval at or before the delta.
  floor-pos :
      (d : ℕ)
      → d + i < 9223372036854775808
      → wrap_64 (times (floored (pos d) (pos i)) (pos i)) ≡ pos (d / i * i)
  unfolding floored quotient has_remainder
  floor-pos d h =
      let fits = wrap_64-small (pos (d / i)) (omega (arith, h, quotient-le d)) in
      rw (fits, times-pos (d / i) i)
        (wrap_64-small (pos (d / i * i)) (omega (arith, h, (quotient-floor d).0)))

  wrapped-neg : (n : ℕ) → n < 9223372036854775808 → wrap_64 (sub_ℕ 0 n) ≡ sub_ℕ 0 n
  wrapped-neg n h = wrap_64-small (sub_ℕ 0 n) (rw (abs-sub_ℕ n) h)

  floor-neg_exact :
      (m : ℕ)
      → suc m + i < 9223372036854775808
      → (suc m % i == 0) ≡ true
      → wrap_64 (times (floored (negsuc m) (pos i)) (pos i)) ≡ sub_ℕ 0 (suc m / i * i)
  unfolding floored quotient has_remainder
  floor-neg_exact m h exact =
      let fits = wrapped-neg (suc m / i) (omega (arith, h, quotient-le (suc m))) in
      rw (exact, fits, times-neg (suc m / i) i)
        (wrapped-neg (suc m / i * i) (omega (arith, h, (quotient-floor (suc m)).0)))

  floor-neg :
      (m : ℕ)
      → suc m + i < 9223372036854775808
      → (suc m % i == 0) ≡ false
      → wrap_64 (times (floored (negsuc m) (pos i)) (pos i)) ≡ sub_ℕ 0 (suc m / i * i + i)
  unfolding floored quotient has_remainder
  floor-neg m h rest =
      let fits = wrapped-neg (suc m / i) (omega (arith, h, quotient-le (suc m))) in
      let fits_less = wrapped-neg (suc (suc m / i)) (omega (arith, h, quotient-le (suc m))) in
      rw
        (
          rest,
          fits,
          sub_one (suc m / i),
          fits_less,
          times-neg (suc (suc m / i)) i,
          suc_times (suc m / i) i,
        )
        (wrapped-neg (suc m / i * i + i) (omega (arith, h, (quotient-floor (suc m)).0)))

-- After the accepted instant, at most one interval later, and whole intervals from the anchor.
unfoldable pub IsNext : ℤ → ℕ → ℤ → ℤ → Type 0
IsNext anchor i accepted_at next =
    (accepted_at <ℤ next)
    × (next ≤ℤ accepted_at +ℤ pos i)
    × ((k : ℕ) × ((next ≡ anchor +ℤ pos (k * i)) ⊎ (anchor ≡ next +ℤ pos (k * i))))

next_of : ℤ → ℤ → ℤ → ℤ
next_of anchor interval delta =
    anchor +ℤ wrap_64 (times (floored delta interval) interval) +ℤ interval

sub_ℕ_parts : (n : ℕ) → pos_part (sub_ℕ 0 n) + n ≡ neg_part (sub_ℕ 0 n)
sub_ℕ_parts n = ground arith

-- From the largest multiple `e` of the interval at or below the delta.
module _ (anchor accepted_at e : ℤ) (i : ℕ) where
  after_floor :
      e ≤ℤ accepted_at -ℤ anchor
      → pos_part (accepted_at -ℤ anchor) + neg_part e
        < pos_part e + neg_part (accepted_at -ℤ anchor) + i
      → (accepted_at <ℤ anchor +ℤ e +ℤ pos i) × (anchor +ℤ e +ℤ pos i ≤ℤ accepted_at +ℤ pos i)
  after_floor low high =
      let delta_parts = -ℤ_parts accepted_at anchor in
      let latest_parts = +ℤ_parts anchor e in
      let next_parts = +ℤ_parts (anchor +ℤ e) (pos i) in
      let later_parts = +ℤ_parts accepted_at (pos i) in
      (
        omega (arith, low, high, delta_parts, latest_parts, next_parts),
        omega (arith, low, high, delta_parts, latest_parts, next_parts, later_parts),
      )

  ahead_by : (n : ℕ) → pos_part e + i ≡ n + neg_part e → anchor +ℤ e +ℤ pos i ≡ anchor +ℤ pos n
  ahead_by n h =
      let latest_parts = +ℤ_parts anchor e in
      let next_parts = +ℤ_parts (anchor +ℤ e) (pos i) in
      let there = +ℤ_parts anchor (pos n) in
      eq_of_parts _ _ (omega (arith, h, latest_parts, next_parts, there))

  behind_by : (n : ℕ) → pos_part e + i + n ≡ neg_part e → anchor ≡ anchor +ℤ e +ℤ pos i +ℤ pos n
  behind_by n h =
      let latest_parts = +ℤ_parts anchor e in
      let next_parts = +ℤ_parts (anchor +ℤ e) (pos i) in
      let there = +ℤ_parts (anchor +ℤ e +ℤ pos i) (pos n) in
      eq_of_parts _ _ (omega (arith, h, latest_parts, next_parts, there))

module _ (anchor accepted_at : ℤ) (i : ℕ) (positive : 0 < i) where
  next_of-pos :
      (d : ℕ)
      → accepted_at -ℤ anchor ≡ pos d
      → d + i < 9223372036854775808
      → IsNext anchor i accepted_at (next_of anchor (pos i) (pos d))
  unfolding IsNext next_of
  next_of-pos d apart h =
      let floor = quotient-floor i positive d in
      let bounds =
        after_floor anchor accepted_at (pos (d / i * i)) i (rw apart (omega (arith, floor.0)))
          (rw apart (omega (arith, floor.0, floor.1))) in
      rw (floor-pos i positive d h) (
        bounds.0,
        bounds.1,
        (
          suc (d / i),
          inl (
              ahead_by anchor accepted_at (pos (d / i * i)) i (suc (d / i) * i)
                (omega (arith, suc_times (d / i) i))),
        ),
      )

  next_of-exact :
      (m : ℕ)
      → accepted_at -ℤ anchor ≡ negsuc m
      → suc m + i < 9223372036854775808
      → (suc m % i == 0) ≡ true
      → IsNext anchor i accepted_at (next_of anchor (pos i) (negsuc m))
  unfolding IsNext next_of
  next_of-exact m apart h exact =
      let floor = quotient-floor i positive (suc m) in
      let none_left : suc m % i ≡ 0 = ground (arith, exact) in
      let e = sub_ℕ 0 (suc m / i * i) in
      let parts = sub_ℕ_parts (suc m / i * i) in
      let bounds =
        after_floor anchor accepted_at e i (rw apart (omega (arith, floor.0, none_left, parts)))
          (rw apart (omega (arith, floor.0, none_left, parts, positive))) in
      let back = one_less (suc m / i) (omega (arith, floor.0, none_left)) in
      rw (floor-neg_exact i positive m h exact) (
        bounds.0,
        bounds.1,
        (
          back.0,
          inr (behind_by anchor accepted_at e i (back.0 * i) (omega (arith, parts, back.1))),
        ),
      )
    where
      one_less : (q : ℕ) → 0 < q * i → (k : ℕ) × (k * i + i ≡ q * i)
      one_less zero h = absurd (omega (arith, h, zero-mul i))
      one_less (suc k) h = (k, sym (suc_times k i))

  next_of-neg :
      (m : ℕ)
      → accepted_at -ℤ anchor ≡ negsuc m
      → suc m + i < 9223372036854775808
      → (suc m % i == 0) ≡ false
      → IsNext anchor i accepted_at (next_of anchor (pos i) (negsuc m))
  unfolding IsNext next_of
  next_of-neg m apart h rest =
      let floor = quotient-floor i positive (suc m) in
      let some_left : 0 < suc m % i = ground (arith, rest) in
      let e = sub_ℕ 0 (suc m / i * i + i) in
      let parts = sub_ℕ_parts (suc m / i * i + i) in
      let bounds =
        after_floor anchor accepted_at e i (rw apart (omega (arith, floor.0, floor.1, parts)))
          (rw apart (omega (arith, floor.0, some_left, parts))) in
      rw (floor-neg i positive m h rest) (
        bounds.0,
        bounds.1,
        (suc m / i, inr (behind_by anchor accepted_at e i (suc m / i * i) (omega (arith, parts)))),
      )

  next_of-IsNext :
      (delta : ℤ)
      → accepted_at -ℤ anchor ≡ delta
      → abs_ℤ delta + i < 9223372036854775808
      → IsNext anchor i accepted_at (next_of anchor (pos i) delta)
  next_of-IsNext (pos d) apart h = next_of-pos d apart h
  next_of-IsNext (negsuc m) apart h = elim (Bool-cases (suc m % i == 0)) [
    | inl exact ↦ next_of-exact m apart h exact
    | inr rest ↦ next_of-neg m apart h rest
  ]

-- For a positive rate, with the distance of the two instants and one interval together below 2 ^ 63 nanoseconds,
-- nextOccurrence does not divide by zero, and what it gives unless it lies past the year 9999 is after the accepted
-- instant, at most one interval later and a whole number of intervals from the anchor.
pub next_occurrence-IsNext :
    (anchor accepted_at : ℤ) (every_seconds : ℕ)
    → 0 < every_seconds
    → abs_ℤ (accepted_at -ℤ anchor) + every_seconds * nanoseconds < 9223372036854775808
    → (next : ℤ) × (next_occurrence anchor every_seconds accepted_at ≡ ok (within_years next))
      × IsNext anchor (every_seconds * nanoseconds) accepted_at next
unfolding next_occurrence next_at next_of
next_occurrence-IsNext anchor accepted_at every_seconds positive h =
    let i = every_seconds * nanoseconds in
    let interval : wrap_64 (times (pos every_seconds) (pos nanoseconds)) ≡ pos i =
      rw (times-pos every_seconds nanoseconds) (wrap_64-small (pos i) (omega (arith, h))) in
    let delta = saturate_64-small (accepted_at -ℤ anchor) (omega (arith, h)) in
    let nonzero : (i == 0) ≡ false = ground (arith, positive) in
    (
      next_of anchor (pos i) (accepted_at -ℤ anchor),
      rw (interval, delta, nonzero) refl,
      next_of-IsNext anchor accepted_at i (omega (arith, positive)) (accepted_at -ℤ anchor) refl h,
    )
