-- ===== src/Tui/CtrlC.antt =====
-- backend/pkg/tui/ctrlc.go: the double press that quits, and the hint that expires. A time is `none`
-- for the zero time.
use deep_seek_harness_x.Prelude.{
  ℕ, ◌+◌, ◌%◌, ◌^◌, ◌<◌, String, Bool, true, false, not, ◌&&◌, Option, none, some, if◌then◌else◌,
  str_eq, ◌==◌, arith, ◌≡◌, refl,
}
use deep_seek_harness_x.Prelude.Int.{ℤ, pos, leb_ℤ, ◌-ℤ◌, -ℤ_parts}

-- 2 * time.Second, in nanoseconds.
abbrev ctrl_c_exit_window : ℤ
ctrl_c_exit_window = pos 2000000000

-- `!last.IsZero() && now.Sub(last) <= ctrlCExitWindow`
unfoldable pub ctrl_c_armed : Option ℤ → ℤ → Bool
unfolding ◌-ℤ◌
ctrl_c_armed none now = false
ctrl_c_armed (some last) now = leb_ℤ (now -ℤ last) ctrl_c_exit_window

-- Whether to quit, and the new reference.
unfoldable pub resolve_ctrl_c : Option ℤ → ℤ → Bool × Option ℤ
unfolding ◌-ℤ◌
resolve_ctrl_c none now = (false, some now)
resolve_ctrl_c (some last) now =
    if leb_ℤ (now -ℤ last) ctrl_c_exit_window then (true, none) else (false, some now)

pub record HintBar : Type 0 where
  pub text : String
  -- a uint64
  pub gen : ℕ

unfoldable pub set_hint : HintBar → String → HintBar × ℕ
set_hint h text = let gen = (h.gen + 1) % 2 ^ 64 in (record { text = text; gen = gen }, gen)

unfoldable pub clear_if_gen : HintBar → ℕ → HintBar × Bool
clear_if_gen h gen =
    if not (str_eq h.text "") && h.gen == gen then (record h { text = "" }, true) else (h, false)

self_armed : (now : ℤ) → leb_ℤ (now -ℤ now) ctrl_c_exit_window ≡ true
unfolding ◌-ℤ◌
self_armed now = ground arith

-- A press quits exactly when the window is armed, and of two presses in a row at most one quits: a press
-- that quits leaves no window, and one that does not quit leaves a window that is armed at once.
pub resolve_ctrl_c-ctrl_c_armed :
    (last : Option ℤ) (now next : ℤ)
    → ((resolve_ctrl_c last now).0 ≡ ctrl_c_armed last now)
      × (((resolve_ctrl_c last now).0 ≡ true
            → ctrl_c_armed (resolve_ctrl_c last now).1 next ≡ false)
          × ((resolve_ctrl_c last now).0 ≡ false
              → ctrl_c_armed (resolve_ctrl_c last now).1 now ≡ true))
unfolding resolve_ctrl_c ctrl_c_armed
resolve_ctrl_c-ctrl_c_armed none now next =
    (refl, ((λ h. absurd (ground (arith, h))), λ h. self_armed now))
resolve_ctrl_c-ctrl_c_armed (some last) now next = (
  ground (arith, -ℤ_parts now last),
  (
    (λ h. ground (arith, h, -ℤ_parts now last, -ℤ_parts next last)),
    λ h. ground (arith, h, self_armed now),
  ),
)

-- The expiry of a hint never clears the hint that was set after it: the generations of two hints set one
-- after the other differ, wrap-around included.
pub clear_if_gen-set_hint :
    (h : HintBar) (first second : String)
    → h.gen < 2 ^ 64
    → let (older, gen) = set_hint h first in
      let newer = (set_hint older second).0 in clear_if_gen newer gen ≡ (newer, false)
unfolding clear_if_gen set_hint
clear_if_gen-set_hint h first second bound = ground (arith, bound)
