-- ===== src/Schedule/Occurrence.antt =====
-- backend/pkg/tools/schedule.go: nextOccurrence, on instants in nanoseconds since the year 1.
-- time.Duration is an int64: its products wrap around and time.Time's Sub saturates; an instant is unbounded.
use deep_seek_harness_x.Prelude.{
  ℕ, suc, ◌+◌, ◌-◌, ◌*◌, ◌/◌, ◌%◌, ◌==◌, ltb, Bool, true, false, not, ◌&&◌, Option, none, some,
  Result, ok, err, if◌then◌else◌,
}
use deep_seek_harness_x.Prelude.Int.{ℤ, pos, negsuc, sub_ℕ, ◌+ℤ◌, ◌-ℤ◌, leb_ℤ}
pub mod Future

abbrev pub nanoseconds : ℕ
nanoseconds = 1000000000

-- The first instant of the year 10000.
abbrev pub year_10000 : ℤ
year_10000 = pos 315537897600000000000

-- The two's complement residue, below 2 ^ 64.
abbrev pub residue_64 : ℤ → ℕ
residue_64 (pos n) = n % 18446744073709551616
residue_64 (negsuc n) = 18446744073709551615 - n % 18446744073709551616

-- An integer as an int64 that wraps around.
unfoldable pub wrap_64 : ℤ → ℤ
wrap_64 z =
    if ltb (residue_64 z) 9223372036854775808
    then pos (residue_64 z)
    else negsuc (18446744073709551615 - residue_64 z)

-- An integer as an int64 that saturates: the result of Sub.
unfoldable pub saturate_64 : ℤ → ℤ
saturate_64 (pos n) = if ltb n 9223372036854775808 then pos n else pos 9223372036854775807
saturate_64 (negsuc n) = if ltb n 9223372036854775808 then negsuc n else negsuc 9223372036854775807

abbrev pub abs_ℤ : ℤ → ℕ
abs_ℤ (pos n) = n
abs_ℤ (negsuc n) = suc n

abbrev pub is_negative : ℤ → Bool
is_negative (pos n) = false
is_negative (negsuc n) = true

-- A magnitude with the sign of a product or a quotient.
abbrev pub signed : Bool → Bool → ℕ → ℤ
signed true true n = pos n
signed true false n = sub_ℕ 0 n
signed false true n = sub_ℕ 0 n
signed false false n = pos n

-- Go's product and truncated quotient of integers.
unfoldable pub times : ℤ → ℤ → ℤ
times a b = signed (is_negative a) (is_negative b) (abs_ℤ a * abs_ℤ b)

unfoldable pub quotient : ℤ → ℤ → ℤ
quotient a b = signed (is_negative a) (is_negative b) (abs_ℤ a / abs_ℤ b)

-- `a % b != 0`
unfoldable pub has_remainder : ℤ → ℤ → Bool
has_remainder a b = not (abs_ℤ a % abs_ℤ b == 0)

pub data Panic : Type 0 where
  divide_by_zero : Panic

unfoldable pub floored : ℤ → ℤ → ℤ
floored delta interval =
    let periods = wrap_64 (quotient delta interval) in
    if is_negative delta && has_remainder delta interval
    then wrap_64 (periods -ℤ pos 1)
    else periods

unfoldable pub within_years : ℤ → Option ℤ
within_years next = if leb_ℤ year_10000 next then none else some next

unfoldable pub next_at : ℤ → ℤ → ℤ → Option ℤ
next_at anchor interval delta =
    within_years (anchor +ℤ wrap_64 (times (floored delta interval) interval) +ℤ interval)

unfoldable pub next_occurrence : ℤ → ℕ → ℤ → Result Panic (Option ℤ)
next_occurrence anchor every_seconds accepted_at =
    let interval = wrap_64 (times (pos every_seconds) (pos nanoseconds)) in
    if abs_ℤ interval == 0
    then err divide_by_zero
    else ok (next_at anchor interval (saturate_64 (accepted_at -ℤ anchor)))
