-- ===== src/Tui/History/Navigation.antt =====
-- backend/pkg/tui/history.go: the bound of the history, and a walk back and forth through it by the keys of editor.go.
use deep_seek_harness_x.Prelude.{
  ℕ, zero, suc, ◌+◌, ◌-◌, ◌≤◌, ◌<◌, String, Bool, true, false, List, [], ◌∷◌, ◌++◌, length,
  length-drop, arith, if◌then◌else◌, subst, ◌≡◌, refl, ap,
}
use deep_seek_harness_x.Tui.History.{History, add, bounded, begin_nav, step_back, prev, next}

length-bounded : (cap : ℕ) (items : List String) → length (bounded cap items) ≤ cap
unfolding bounded
length-bounded cap items = ground (arith, length-drop (length items - cap) items)

-- Add keeps the history within its capacity.
pub length-add :
    (trim_right : String → String) (h : History) (line : String)
    → length h.items ≤ h.cap
    → length (add trim_right h line).items ≤ (add trim_right h line).cap
unfolding add
length-add trim_right h line le =
    ground (arith, le, length-bounded h.cap (h.items ++ trim_right line ∷ []))

-- What the editor's buffer holds after a press of Up: the entry, if there was one.
abbrev pub shown : String → String × Bool → String
shown buffer (entry, found) = if found then entry else buffer

-- `k` presses of Up, each with the buffer as it is then, and `k` of Down.
unfoldable pub ups : ℕ → String → History → History
ups zero buffer h = h
ups (suc k) buffer h = ups k (shown buffer (prev h buffer).1) (prev h buffer).0

unfoldable pub downs : ℕ → History → History
downs zero h = h
downs (suc k) h = downs k (next h).0

abbrev InNav : List String → ℕ → String → History → Type 0
InNav items pos draft h =
    (h.navigat ≡ true) × ((h.nav_pos ≡ pos) × ((h.draft ≡ draft) × (h.items ≡ items)))

module _ (items : List String) (draft : String) where
  -- A step within the history.
  prev-InNav :
      (current : String) (h : History) (pos : ℕ)
      → InNav items (suc pos) draft h
      → suc pos ≤ length items
      → InNav items pos draft (prev h current).0
  unfolding prev begin_nav step_back
  prev-InNav current h pos (nav, (at, (is_draft, same))) le =
      ground (arith, nav, at, is_draft, same, ap length same)

  next-InNav :
      (h : History) (pos : ℕ)
      → InNav items pos draft h
      → suc pos < length items
      → InNav items (suc pos) draft (next h).0
  unfolding next
  next-InNav h pos (nav, (at, (is_draft, same))) lt =
      ground (arith, nav, at, is_draft, same, ap length same)

  prev-begins :
      (current : String) (h : History)
      → h.navigat ≡ false
      → h.items ≡ items
      → 0 < length items
      → InNav items (length items - 1) current (prev h current).0
  unfolding prev begin_nav step_back
  prev-begins current h nav same some_items = ground (arith, nav, same, ap length same)

  ups-InNav :
      (k pos start : ℕ) (current : String) (h : History)
      → start ≡ k + pos
      → InNav items start draft h
      → start ≤ length items
      → InNav items pos draft (ups k current h)
  unfolding ups
  ups-InNav zero pos start current h same nav le =
      subst (λ z. InNav items z draft h) (omega arith) nav
  ups-InNav (suc k) pos start current h same nav le =
      let here : InNav items (suc (k + pos)) draft h =
        subst (λ z. InNav items z draft h) (omega arith) nav in
      ups-InNav k pos (k + pos) (shown current (prev h current).1) (prev h current).0 refl
        (prev-InNav current h (k + pos) here (omega arith)) (omega arith)

  downs-InNav :
      (k pos stop : ℕ) (h : History)
      → stop ≡ k + pos
      → InNav items pos draft h
      → stop < length items
      → InNav items stop draft (downs k h)
  unfolding downs
  downs-InNav zero pos stop h same nav lt = subst (λ z. InNav items z draft h) (omega arith) nav
  downs-InNav (suc k) pos stop h same nav lt =
      downs-InNav k (suc pos) stop (next h).0 (omega arith) (next-InNav h pos nav (omega arith)) lt

  next-ends :
      (h : History) → InNav items (length items - 1) draft h → (next h).1 ≡ (draft, (true, true))
  unfolding next
  next-ends h (nav, (at, (is_draft, same))) =
      ground (arith, nav, at, is_draft, same, ap length same)

-- A walk of any number of presses of Up from the live prompt, within the history, each with the entry that the one
-- before shows, and of one fewer of Down is at the newest entry: the next Down gives back the text that was being typed, and ends the
-- navigation.
pub next-downs-ups :
    (h : History) (current : String) (k : ℕ)
    → h.navigat ≡ false
    → suc k ≤ length h.items
    → (next (downs k (ups (suc k) current h))).1 ≡ (current, (true, true))
unfolding ups
next-downs-ups h current k live le =
    let n = length h.items in
    let first = (prev h current).0 in
    let buffer = shown current (prev h current).1 in
    let begins = prev-begins h.items current current h live refl (omega arith) in
    let oldest =
      ups-InNav h.items current k (n - suc k) (n - 1) buffer first (omega arith) begins
        (omega arith) in
    let newest =
      downs-InNav h.items current k (n - suc k) (n - 1) (ups k buffer first) (omega arith) oldest
        (omega arith) in
    next-ends h.items current (downs k (ups k buffer first)) newest
