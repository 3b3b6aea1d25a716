-- ===== src/Knee/Panels/Picture.antt =====
-- sweep/mkcharts.py: the lines of round-trips.svg.
use raft_tests.Prelude.{
  ℕ, ◌+◌, ◌-◌, ◌*◌, ◌/◌, ◌%◌, none, some, List, [], ◌∷◌, ◌++◌, map, ◌==◌, contains, if◌then◌else◌,
  String, ◌<>◌, Result, ok, gather, ◌>>=◌, length, string_eq, option_eq, pair_eq, list_eq, nat_eq,
  int_eq, ℤ, pos, ◌+ℤ◌, ◌-ℤ◌,
}
use raft_tests.Svg.{element, text}
use raft_tests.Python.Dict.{Dict, keys}
use raft_tests.Python.Number.{show_int, show_nat}
use raft_tests.Python.Float.{Float}
use raft_tests.Knee.Style.{ink, ink2, muted, grid, axis, band, c1, c2}
use raft_tests.Knee.Rows.{Product, Entry}
use raft_tests.Knee.Legend.{legend}
use raft_tests.Knee.Clash.{Series}
use raft_tests.Knee.Draw.{Plot, show_latency, ticks_to, right, bottom, head, xm, ym, series}
use raft_tests.Knee.Product.{Svg, entries_of}
use raft_tests.Knee.Panels.{
  columns, panel_width, panel_height, gap_x, gap_y, margin_left, margin_top, rows_for, canvas_width,
  canvas_height, rates_of, max_rate, axis_end, axis_step, panel_plot, positive, panel_clip,
  range_from,
}

-- `_n`
unfoldable pub count_word : ℕ → String
count_word n =
    if n == 2
    then "two"
    else if n == 3
    then "three"
    else if n == 4
    then "four"
    else if n == 5
    then "five"
    else if n == 6
    then "six"
    else show_nat n

-- the subtitle
unfoldable pub panels_sub : Dict Product (List Entry) → List String
panels_sub d =
    "Every hop this repo measures, same fleet and same sweep. Identical axes across panels; log latency scale."
    ∷ "FIX arms are FIX 4.4 throughout; they differ in delivery path, not protocol version."
    ∷ "Hollow marker = the cluster fell behind the offered rate. Shaded band = at or below 1 ms."
    ∷ "Past the knee, latency runs to whole seconds; those points clip at the panel top."
    ∷ (if contains (keys d) (some "sequencer-direct")
        then "The direct-to-node arm was swept further than these shared axes show — see its own chart."
          ∷ []
        else [])

module _ {ℓ} {F : Type ℓ} ⦃f : Float F⦄ (plot : Plot F) where
  -- the grid line at v, with its label in the first column only
  unfoldable pub panel_ytick : ℕ → ℤ → Result (List String)
  panel_ytick c v = do
    yy ← ym plot v
    let line = element "line" (
        ("x1", show_int plot.left)
        ∷ ("y1", f.fixed 1 yy)
        ∷ ("x2", show_int (right plot))
        ∷ ("y2", f.fixed 1 yy)
        ∷ ("stroke", grid)
        ∷ ("stroke-width", "1")
        ∷ [])
    let label =
        text
          (("x", show_int (plot.left -ℤ pos 8))
            ∷ ("y", f.fixed 1 (f.add yy (f.of_int (pos 4))))
            ∷ ("font-size", "10")
            ∷ ("fill", muted)
            ∷ ("text-anchor", "end")
            ∷ [])
          (show_latency v)
    ok (line ∷ (if c == 0 then label ∷ [] else []))

  unfoldable pub panel_xtick : ℕ → Result (List String)
  panel_xtick v = do
    xx ← xm plot (pos v)
    ok (
        element "line" (
          ("x1", f.fixed 1 xx)
          ∷ ("y1", show_int (bottom plot))
          ∷ ("x2", f.fixed 1 xx)
          ∷ ("y2", show_int (bottom plot +ℤ pos 4))
          ∷ ("stroke", axis)
          ∷ ("stroke-width", "1")
          ∷ [])
        ∷ text
            (("x", f.fixed 1 xx)
              ∷ ("y", show_int (bottom plot +ℤ pos 17))
              ∷ ("font-size", "10")
              ∷ ("fill", muted)
              ∷ ("text-anchor", "middle")
              ∷ [])
            (show_nat (v / 1000) <> "k")
        ∷ [])

  -- the band at or below 1 ms: its left edge, its top at `ym(1000)` and its width
  unfoldable pub draw_band_ms : Result (List String × F)
  draw_band_ms = do
    y ← ym plot (pos 1000)
    ok (
      element "rect" (
            ("x", show_int plot.left)
            ∷ ("y", f.fixed 1 y)
            ∷ ("width", show_int plot.plot_width)
            ∷ ("height", f.fixed 1 (f.sub (f.of_int (bottom plot)) y))
            ∷ ("fill", band)
            ∷ [])
          ∷ [],
      y,
    )

  -- the points above zero, where there are any
  unfoldable pub positive_series : List Entry → String → String → Result (List String)
  positive_series entries col key = do
    pts ← positive key entries
    elim pts [ [] ↦ ok [] | p ∷ ps ↦ series plot (p ∷ ps) col key ]

  -- the body of the loop over the panels
  unfoldable pub draw_panel : ℕ → ℕ → String → List Entry → Result (List String)
  draw_panel i xstep label entries = do
    shade ← draw_band_ms
    ys ← gather (panel_ytick (i % columns)) (pos 1000 ∷ pos 10000 ∷ pos 100000 ∷ [])
    xs ← gather panel_xtick (ticks_to plot.xmax xstep)
    p99 ← positive_series entries c2 "p99"
    p50 ← positive_series entries c1 "p50"
    ok (
        shade.0
        ++ (ys
            ++ (element "line" (
                  ("x1", show_int plot.left)
                  ∷ ("y1", show_int (bottom plot))
                  ∷ ("x2", show_int (right plot))
                  ∷ ("y2", show_int (bottom plot))
                  ∷ ("stroke", axis)
                  ∷ ("stroke-width", "1")
                  ∷ [])
                ∷ (xs
                    ++ (text
                          (("x", show_int plot.left)
                            ∷ ("y", show_int (plot.top -ℤ pos 8))
                            ∷ ("font-size", "12")
                            ∷ ("font-weight", "600")
                            ∷ ("fill", ink)
                            ∷ [])
                          label
                        ∷ ("<g clip-path=\"url(#pan" <> show_nat i <> ")\">")
                        ∷ (p99 ++ (p50 ++ ("</g>" ∷ []))))))))

module _ {ℓ} (F : Type ℓ) ⦃f : Float F⦄ where
  -- the loop over `enumerate(rt_present)`
  unfoldable pub draw_panels :
      Dict Product (List Entry) → ℤ → ℕ → List Series → Result (List String)
  draw_panels d xmax i [] = ok []
  draw_panels d xmax i ((name, label, _) ∷ rest) = do
    entries ← entries_of d name
    panel ← draw_panel (panel_plot F xmax i) i (axis_step xmax) label entries
    more ← draw_panels d xmax (i + 1) rest
    ok (panel ++ more)

  -- `a+n/2` of ints, as `f"{…:.0f}"` prints it
  abbrev halfway : ℕ → ℕ → String
  halfway a n = f.fixed 0 (f.add (f.of_int (pos a)) (f.div (f.of_int (pos n)) (f.of_int (pos 2))))

  -- `round-trips.svg`
  unfoldable pub round_trips_file : Dict Product (List Entry) → List Series → Result Svg
  round_trips_file d rt_present = do
    let n = length rt_present
    let rows = rows_for n
    rates ← rates_of d rt_present
    let xmax = axis_end F (max_rate rates)
    panels ← draw_panels d xmax 0 rt_present
    let mid = halfway margin_top (rows * panel_height + (rows - 1) * gap_y)
    ok (
      "round-trips.svg",
      head (pos canvas_width) (pos (canvas_height n))
            ("sequencer: " <> count_word n <> " round trips, p50 and p99") (panels_sub d)
          ++ ("<defs>"
              ∷ (map panel_clip (range_from 0 n)
                  ++ ("</defs>"
                      ∷ (panels
                          ++ (text
                                (("x", "20")
                                  ∷ ("y", mid)
                                  ∷ ("font-size", "11")
                                  ∷ ("fill", ink2)
                                  ∷ ("text-anchor", "middle")
                                  ∷ ("transform", "rotate(-90 20 " <> mid <> ")")
                                  ∷ [])
                                "latency, log scale"
                              ∷ text
                                  ((
                                    "x",
                                    halfway margin_left
                                        (columns * panel_width + (columns - 1) * gap_x),
                                  )
                                    ∷ ("y", show_nat (canvas_height n - 46))
                                    ∷ ("font-size", "11")
                                    ∷ ("fill", ink2)
                                    ∷ ("text-anchor", "middle")
                                    ∷ [])
                                  "offered rate (requests/sec)"
                              ∷ (legend F ink2 (pos margin_left) (pos (canvas_height n))
                                    (("p50", c1) ∷ ("p99", c2) ∷ []) none
                                  ++ ("</svg>" ∷ []))))))),
    )
