-- ===== src/Tui/History.antt =====
-- backend/pkg/tui/history.go: the bounded input history and its navigation.
pub mod Navigation
use deep_seek_harness_x.Prelude.{
  ℕ, zero, suc, ◌+◌, ◌-◌, String, Bool, true, false, not, ◌&&◌, Option, none, some, List, [], ◌∷◌,
  ◌++◌, if◌then◌else◌, str_eq, leb, ltb, ◌==◌, length, drop, get_elem?,
}

pub record History : Type 0 where
  -- oldest first
  pub items : List String
  pub cap : ℕ
  pub nav_pos : ℕ
  pub navigat : Bool
  pub draft : String

-- NewHistory: a capacity of 0 stands for one that is not positive.
unfoldable pub new_history : ℕ → History
new_history cap = record {
  items = [];
  cap = if cap == 0 then 200 else cap;
  nav_pos = 0;
  navigat = false;
  draft = "";
}

-- `n > 0 && h.items[n-1] == s`
unfoldable pub is_newest : List String → String → Bool
is_newest [] s = false
is_newest (x ∷ []) s = str_eq x s
is_newest (x ∷ y ∷ ys) s = is_newest (y ∷ ys) s

unfoldable pub bounded : ℕ → List String → List String
bounded cap items = if ltb cap (length items) then drop (length items - cap) items else items

-- Add; `trim_right` takes the newlines off the end.
unfoldable pub add : (String → String) → History → String → History
unfolding is_newest bounded
add trim_right h line =
    let s = trim_right line in
    if str_eq s ""
    then h
    else if is_newest h.items s
    then h
    else record h { items = bounded h.cap (h.items ++ s ∷ []); navigat = false; draft = "" }

unfoldable pub len : History → ℕ
len h = length h.items

unfoldable pub entry_at : List String → ℕ → String
entry_at [] n = ""
entry_at (x ∷ xs) zero = x
entry_at (x ∷ xs) (suc n) = entry_at xs n

-- The first step into the history keeps the buffer as the draft.
unfoldable pub begin_nav : History → String → History
begin_nav h current =
    if h.navigat then h else record h { navigat = true; draft = current; nav_pos = length h.items }

step_back : History → History × (String × Bool)
unfolding entry_at
step_back h =
    if h.nav_pos == 0
    then (h, ("", false))
    else (record h { nav_pos = h.nav_pos - 1 }, (entry_at h.items (h.nav_pos - 1), true))

-- Prev: the entry, and whether there was one.
unfoldable pub prev : History → String → History × (String × Bool)
unfolding step_back begin_nav
prev h current = if length h.items == 0 then (h, ("", false)) else step_back (begin_nav h current)

-- Next: the text, whether the navigation ended, and whether there was any.
unfoldable pub next : History → History × (String × (Bool × Bool))
unfolding entry_at
next h =
    if not h.navigat
    then (h, ("", (false, false)))
    else if leb (length h.items - 1) h.nav_pos
    then (
      record h { navigat = false; nav_pos = length h.items; draft = "" },
      (h.draft, (true, true)),
    )
    else (record h { nav_pos = suc h.nav_pos }, (entry_at h.items (suc h.nav_pos), (false, true)))

unfoldable pub reset_nav : History → History
reset_nav h = record h { navigat = false; nav_pos = length h.items; draft = "" }
