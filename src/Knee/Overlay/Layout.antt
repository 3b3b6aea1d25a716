-- ===== src/Knee/Overlay/Layout.antt =====
-- sweep/mkcharts.py: the canvas of round-trips-p50.svg holds the plot and the legend, however many round trips there are.
use raft_tests.Prelude.{
  ◌≡◌, ap, some, List, map, arith, String, All, string_eq, option_eq, pair_eq, list_eq, nat_eq,
  int_eq, ℤ, pos, ◌+ℤ◌, ◌-ℤ◌,
}
use mathlib.Core.Path.{subst}
use raft_tests.Python.Float.{Float}
use raft_tests.Knee.Clash.{Series}
use raft_tests.Knee.Legend.{Place, legend_rows, legend_top, legend_places}
use raft_tests.Knee.Legend.Laws.{IsInside, IsBetween, legend_places_lem, legend_places-IsBetween}
use raft_tests.Knee.Draw.{Plot, bottom}
use raft_tests.Knee.Overlay.{
  legend_items, overlay_margin, overlay_top, overlay_height, overlay_plot,
}

module _ {ℓ} (F : Type ℓ) ⦃f : Float F⦄ (xmax : ℤ) (rt : List Series) (sublines : List String) where
  abbrev pub height : ℤ
  height = pos (overlay_height sublines (overlay_margin F rt))

  abbrev pub plot : Plot F
  plot = overlay_plot F xmax sublines (overlay_margin F rt)

  abbrev pub key : List (Place F)
  key = legend_places F (pos 78) height (legend_items rt) (some (pos 880))

  first_row :
      legend_top F (pos 78) height (legend_items rt) (some (pos 880)) ≡ bottom plot +ℤ pos 58
  unfolding legend_top overlay_margin overlay_height overlay_top overlay_plot legend_rows ◌+ℤ◌ ◌-ℤ◌
  first_row = ground arith

  plot_height : plot.plot_height ≡ pos 300
  unfolding overlay_plot overlay_height overlay_top
  plot_height = ap pos (omega arith)

  -- For any round trips and any lines of the subtitle, the plot of the overlay is 300 high. Its legend has all round
  -- trips in order; its rows stand between 58 below the plot and 16 above the lower edge of the canvas; and each entry
  -- ends by the right edge less 20 or starts no further right than the left margin.
  pub overlay-Fits :
      (plot.plot_height ≡ pos 300)
      × (map (λ p. p.item) key ≡ legend_items rt)
      × All (IsBetween (bottom plot +ℤ pos 58) (height -ℤ pos 16)) key
      × All (IsInside (pos 78) (pos 880)) key
  overlay-Fits =
      let (drawn, last, inside) = legend_places_lem F (pos 78) height (legend_items rt) (pos 880) in
      let between = legend_places-IsBetween F (pos 78) height (legend_items rt) (pos 880) in
      (
        plot_height,
        drawn,
        subst (λ first. All (IsBetween first (height -ℤ pos 16)) key) first_row between,
        inside,
      )
