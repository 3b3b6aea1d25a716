-- ===== src/Knee/Panels.antt =====
-- sweep/mkcharts.py: the small multiples, a panel to a round trip: where the panels stand, and their axes.
pub mod Axis
pub mod Picture
pub mod Total
pub mod Layout
use raft_tests.Prelude.{
  ℕ, zero, suc, ◌+◌, ◌-◌, ◌*◌, ◌/◌, ◌%◌, List, [], ◌∷◌, ◌++◌, arith, if◌then◌else◌, String, ◌<>◌,
  Result, ok, ◌>>=◌, map_result, string_eq, option_eq, pair_eq, list_eq, nat_eq, int_eq, ℤ, pos,
  ◌*ℤ◌, ltb_ℤ, int_laws,
}
use Prim.Native.Nat.{max}
use raft_tests.Svg.{element, text}
use raft_tests.Python.Dict.{Dict, get, keys, lookup}
use raft_tests.Python.Number.{show_int, show_nat}
use raft_tests.Python.Float.{Float}
use raft_tests.Knee.Style.{ink, ink2, muted, grid, axis, band, c1, c2}
use raft_tests.Knee.Rows.{Product, Entry}
use raft_tests.Knee.Legend.{legend}
use raft_tests.Knee.Clash.{Series}
use raft_tests.Knee.Draw.{Plot, show_latency, ticks_to, right, bottom, head, axes, xm, ym, series}
use raft_tests.Knee.Product.{Svg, entries_of}

abbrev pub columns : ℕ
columns = 3

abbrev pub panel_width : ℕ
panel_width = 268

abbrev pub panel_height : ℕ
panel_height = 196

-- `GX` and `GY`
abbrev pub gap_x : ℕ
gap_x = 26

abbrev pub gap_y : ℕ
gap_y = 58

-- `ML` and `MT`
abbrev pub margin_left : ℕ
margin_left = 62

abbrev pub margin_top : ℕ
margin_top = 124

-- `ROWS`: the quotient by `COLS`, rounded up, and 1 at least
unfoldable pub rows_for : ℕ → ℕ
rows_for n = max 1 ((n + (columns - 1)) / columns)

-- `W` and `H`
abbrev pub canvas_width : ℕ
canvas_width = margin_left + columns * panel_width + (columns - 1) * gap_x + 24

unfoldable pub canvas_height : ℕ → ℕ
unfolding rows_for
canvas_height n = margin_top + rows_for n * panel_height + (rows_for n - 1) * gap_y + 86

-- `L` and `T` of panel i
unfoldable pub panel_left : ℕ → ℕ
panel_left i = margin_left + (i % columns) * (panel_width + gap_x)

unfoldable pub panel_top : ℕ → ℕ
panel_top i = margin_top + (i / columns) * (panel_height + gap_y)

-- `q["rate"]` of all entries of the round trips
unfoldable pub rates_of : Dict Product (List Entry) → List Series → Result (List ℤ)
rates_of d [] = ok []
rates_of d ((name, _, _) ∷ rest) = do
  entries ← entries_of d name
  rates ← map_result (lookup "rate") entries
  more ← rates_of d rest
  ok (rates ++ more)

-- `max`, which keeps its first of two equals
unfoldable pub max_of : ℤ → List ℤ → ℤ
max_of m [] = m
max_of m (r ∷ rs) = max_of (if ltb_ℤ m r then r else m) rs

-- `_maxrate`
unfoldable pub max_rate : List ℤ → ℤ
max_rate [] = pos 130000
max_rate (r ∷ rs) = max_of r rs

module _ {ℓ} (F : Type ℓ) ⦃f : Float F⦄ where
  -- `XMAX`: the next multiple of 25000
  unfoldable pub axis_end : ℤ → ℤ
  axis_end rate = f.ceil (f.div (f.of_int rate) (f.lit 250000 1)) *ℤ pos 25000

  -- `xm` and `ym` of panel i, over the axes that the panels share
  unfoldable pub panel_plot : ℤ → ℕ → Plot F
  panel_plot xmax i = record {
    left = pos (panel_left i);
    top = pos (panel_top i);
    plot_width = pos panel_width;
    plot_height = pos panel_height;
    xmax = xmax;
    ylo = f.log10 (f.lit 5000 1);
    yhi = f.log10 (f.lit 2000000 1);
  }

-- `XSTEP`
unfoldable pub axis_step : ℤ → ℕ
axis_step xmax = if ltb_ℤ (pos 150000) xmax then 50000 else 25000

-- `[p for p in entries if p[key]>0]`
unfoldable pub positive : String → List Entry → Result (List Entry)
positive key [] = ok []
positive key (p ∷ ps) = do
  v ← lookup key p
  more ← positive key ps
  ok (if ltb_ℤ (pos 0) v then p ∷ more else more)

-- the clip path of panel i
unfoldable pub panel_clip : ℕ → String
panel_clip i =
    "<clipPath id=\"pan"
    <> show_nat i
    <> "\">"
    <> element "rect" (
        ("x", show_nat (panel_left i - 6))
        ∷ ("y", show_nat (panel_top i - 6))
        ∷ ("width", show_nat (panel_width + 12))
        ∷ ("height", show_nat (panel_height + 12))
        ∷ [])
    <> "</clipPath>"

-- `range(i, i + n)`
unfoldable pub range_from : ℕ → ℕ → List ℕ
range_from i zero = []
range_from i (suc n) = i ∷ range_from (i + 1) n
