-- ===== src/Knee/Panels/Layout.antt =====
-- sweep/mkcharts.py: where the panels of round-trips.svg stand, and their common axis.
use raft_tests.Prelude.{
  ℕ, ◌+◌, ◌-◌, ◌≤◌, ◌<◌, ◌≢◌, ◌⊎◌, arith, string_eq, option_eq, pair_eq, list_eq, nat_eq, int_eq,
}
use raft_tests.Knee.Panels.{
  panel_width, panel_height, rows_for, canvas_width, canvas_height, panel_left, panel_top,
}

-- The clip rectangle of panel i ends before that of panel j begins, to the right or below.
abbrev pub IsBefore : ℕ → ℕ → Type 0
IsBefore i j =
    (panel_left i - 6 + (panel_width + 12) ≤ panel_left j - 6)
    ⊎ (panel_top i - 6 + (panel_height + 12) ≤ panel_top j - 6)

panel_left-IsInside : (i : ℕ) → (6 ≤ panel_left i) × (panel_left i + panel_width + 6 ≤ canvas_width)
unfolding panel_left
panel_left-IsInside i = (omega arith, omega arith)

panel_top-IsInside :
    (i n : ℕ) → i < n → (6 ≤ panel_top i) × (panel_top i + panel_height + 6 + 80 ≤ canvas_height n)
unfolding panel_top canvas_height rows_for
panel_top-IsInside i n h = (omega arith, omega arith)

panels_apart : (i j : ℕ) → i ≢ j → IsBefore i j ⊎ IsBefore j i
unfolding panel_left panel_top
panels_apart i j differ = ground arith

-- Of n panels, the clip rectangle of each stands inside the canvas, 80 above its lower edge, and the rectangles of
-- two panels do not overlap.
pub panels-Fit :
    (n i : ℕ)
    → i < n
    → ((6 ≤ panel_left i) × (panel_left i + panel_width + 6 ≤ canvas_width))
      × ((6 ≤ panel_top i) × (panel_top i + panel_height + 6 + 80 ≤ canvas_height n))
      × ((j : ℕ) → j < n → i ≢ j → IsBefore i j ⊎ IsBefore j i)
panels-Fit n i h =
    (panel_left-IsInside i, panel_top-IsInside i n h, λ j _ differ. panels_apart i j differ)
