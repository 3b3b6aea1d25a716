-- ===== src/Knee/Tests.antt =====
-- Runs of sweep/mkcharts.py from the rows to the files, and its theorems at concrete data.
use raft_tests.Prelude.{
  ℕ, ◌+◌, ◌≤◌, ◌<◌, ◌≡◌, refl, ◌≢◌, ◌⊎◌, inl, inr, true, false, some, List, [], ◌∷◌, map, arith,
  ◌==◌, String, ok, value_error, stop_iteration, map_result, IsOk, Outcome, Bool-cases, All,
  string_eq, option_eq, pair_eq, list_eq, nat_eq, int_eq, ℤ, pos, ◌+ℤ◌, ◌-ℤ◌, ◌*ℤ◌, ◌≤ℤ◌,
}
use mathlib.Core.Path.{subst}
use mathlib.Core.Option.{some-injective, none-ne-some}
use raft_tests.Python.Dict.{Dict, get, lookup, insert, append_at, keys}
use raft_tests.Python.Sort.{insort, sorted}
use raft_tests.Python.Text.{strip}
use raft_tests.Python.Number.{int_of}
use raft_tests.Python.Csv.{Row, dict_reader, int_cell}
use raft_tests.Python.Float.Millionths.{Millionths, millionths_float, Millionths-IsOrdered}
use raft_tests.Knee.Rows.{
  Product, Entry, key_of, numbers, add_row, group_rows, round_ℕ, round_div, sum_column, average,
  add_averages, le_rate, sort_entries, sort_products, chart_data,
}
use raft_tests.Knee.Clash.{present, round_trips, by_colour, clashes, check_colours}
use raft_tests.Knee.Clash.Laws.{ColoursDiffer, check_colours_iff}
use raft_tests.Knee.Draw.{bottom}
use raft_tests.Knee.Draw.Total.{IsComplete, IsAbove}
use raft_tests.Knee.Product.{Config, Svg, entries_of, product_chart}
use raft_tests.Knee.Product.Total.{product_chart-Outcome}
use raft_tests.Knee.Config.{configs}
use raft_tests.Knee.Curves.{implementations, present_in, knee_curves}
use raft_tests.Knee.Curves.Total.{HasRate, AllShown, AllAnchored, knee_curves-Outcome}
use raft_tests.Knee.Panels.{
  rates_of, max_of, max_rate, axis_end, panel_plot, panel_left, panel_top, panel_width,
  panel_height, canvas_width, canvas_height,
}
use raft_tests.Knee.Panels.Layout.{IsBefore, panels-Fit}
use raft_tests.Knee.Panels.Picture.{draw_panel}
use raft_tests.Knee.Panels.Axis.{IsOneOf, IsAxisEnd, axis_end_lem}
use raft_tests.Knee.Panels.Total.{HasAxis, HasAxis-of, draw_panel-IsOk}
use raft_tests.Python.Text.{codes, starts_with}
use raft_tests.Knee.Args.{ends_with, is_dir, is_csv, csvs, combined, out}
use raft_tests.Knee.Args.Laws.{out_lem}
use raft_tests.Knee.Legend.Laws.{IsBetween, IsInside}
use raft_tests.Knee.Overlay
use raft_tests.Knee.Overlay.{legend_items}
use raft_tests.Knee.Overlay.Layout.{height, key, overlay-Fits}
use raft_tests.Knee.Script.{written, summary, run}
use raft_tests.Knee.Script.Charts.{AllDrawn, IsDrawn}
use raft_tests.Knee.Script.Files.{AllDrawn-AllShown, run-Writes}

file : List (List String)
file =
    ("product" ∷ "rate" ∷ "achieved" ∷ "p50" ∷ "p99" ∷ [])
    ∷ ("braft" ∷ "250000" ∷ "249000" ∷ "1291" ∷ "9000" ∷ [])
    ∷ ("sequencer" ∷ "100000" ∷ "99990" ∷ "800" ∷ "2100" ∷ [])
    ∷ ("sequencer-relay" ∷ "100000" ∷ "80000" ∷ "1300" ∷ "7000" ∷ [])
    ∷ []

rows : List Row
unfolding dict_reader insert file string_eq
rows = dict_reader file

abbrev point : ℕ → ℕ → ℕ → ℕ → Entry
point r a p q = ("rate", pos r) ∷ ("achieved", pos a) ∷ ("p50", pos p) ∷ ("p99", pos q) ∷ []

abbrev braft_points : List Entry
braft_points = point 250000 249000 1291 9000 ∷ []

abbrev ack_points : List Entry
ack_points = point 100000 99990 800 2100 ∷ []

abbrev relay_points : List Entry
relay_points = point 100000 80000 1300 7000 ∷ []

abbrev measured : Dict Product (List Entry)
measured =
    (some "braft", braft_points)
    ∷ (some "sequencer", ack_points)
    ∷ (some "sequencer-relay", relay_points)
    ∷ []

rows-read : chart_data rows ≡ ok measured
unfolding chart_data group_rows add_row key_of numbers lookup get append_at add_averages average
    sum_column round_div round_ℕ keys sort_products sort_entries sorted insort le_rate int_cell
    int_of strip map_result rows string_eq option_eq pair_eq int_eq nat_eq ◌+ℤ◌
rows-read = refl

-- What the chart of a product needs holds of more products when it holds of one more.
AllDrawn-cons :
    (p : Product) (es : List Entry) (d : Dict Product (List Entry))
    → IsDrawn es
    → AllDrawn d
    → AllDrawn ((p, es) ∷ d)
unfolding get
AllDrawn-cons p es d this those name es' there = elim (Bool-cases (p == name)) [
  | inl same ↦ subst IsDrawn (found same there) this
  | inr other ↦ those name es' (rw other at there)
]
  where
    found : (p == name) ≡ true → get name ((p, es) ∷ d) ≡ some es' → es ≡ es'
    found same there = some-injective es es' (rw same at there)

point-IsDrawn : (r a p q : ℕ) → 0 < p → 0 < q → IsDrawn (point r a p q ∷ [])
unfolding lookup get string_eq
point-IsDrawn r a p q hp hq = (
  refl,
  (((_, refl), (_, refl), (_, refl), (_, refl)), tt),
  ((pos q, refl, ground arith), tt),
  ((pos p, refl, ground arith), tt),
)

measured-AllDrawn : AllDrawn measured
unfolding get
measured-AllDrawn =
    AllDrawn-cons (some "braft") braft_points
      ((some "sequencer", ack_points) ∷ (some "sequencer-relay", relay_points) ∷ [])
      (point-IsDrawn 250000 249000 1291 9000 (omega arith) (omega arith))
      (AllDrawn-cons (some "sequencer") ack_points ((some "sequencer-relay", relay_points) ∷ [])
        (point-IsDrawn 100000 99990 800 2100 (omega arith) (omega arith))
        (AllDrawn-cons (some "sequencer-relay") relay_points []
          (point-IsDrawn 100000 80000 1300 7000 (omega arith) (omega arith))
          (λ name es there. absurd (none-ne-some es there))))

measured-ColoursDiffer : ColoursDiffer (present measured round_trips)
unfolding check_colours clashes by_colour append_at present round_trips keys string_eq option_eq
measured-ColoursDiffer = (check_colours_iff measured).0 refl

measured-HasAxis : HasAxis Millionths measured (present measured round_trips)
unfolding present round_trips keys string_eq option_eq rates_of max_rate max_of axis_end lookup get
    map_result entries_of millionths_float int_eq ◌*ℤ◌
measured-HasAxis =
    HasAxis-of Millionths measured (present measured round_trips) (pos 100000 ∷ pos 100000 ∷ [])
      refl refl

measured-AllAnchored : AllAnchored Millionths measured
unfolding present_in implementations keys string_eq option_eq get lookup
measured-AllAnchored = (
  (λ es there. subst (HasRate (pos 250000)) (some-injective braft_points es there) (inl refl)),
  tt,
)

run-Writes_example :
    (files : List Svg) × (run Millionths rows true "sweep"
      ≡ ok (files, summary measured true 2 "sweep"))
    × (map (λ file. file.0) files ≡ (
        "knee-curves.svg" ∷ "knee-braft.svg" ∷ "knee-sequencer.svg" ∷ "knee-sequencer-relay.svg"
        ∷ "round-trips.svg" ∷ "round-trips-p50.svg" ∷ []))
unfolding present round_trips present_in implementations written configs keys string_eq option_eq
run-Writes_example =
    run-Writes Millionths measured rows true "sweep" rows-read measured-AllDrawn
      measured-AllAnchored measured-ColoursDiffer measured-HasAxis

-- a run whose second point was measured as zero
abbrev broken : List Entry
broken = point 100000 99990 800 2100 ∷ point 200000 0 0 0 ∷ []

broken-IsComplete : All IsComplete broken
unfolding lookup get string_eq
broken-IsComplete = (
  ((_, refl), (_, refl), (_, refl), (_, refl)),
  (((_, refl), (_, refl), (_, refl), (_, refl)), tt),
)

-- a chart with a single mark on the y axis
abbrev small : Config
small = record {
  xmax = 250000;
  xstep = 50000;
  yrange = (400, 20000);
  yticks = pos 1000 ∷ [];
  comfort = pos 100000;
  markers = (pos 120000, "knee", pos 16) ∷ [];
  title = "sequencer";
  line2 = "p50 and p99.";
}

product_chart-Outcome_example :
    Outcome
      (All (IsAbove "p99") broken × All (IsAbove "p50") broken)
      value_error
      (product_chart Millionths small broken)
unfolding int_eq
product_chart-Outcome_example =
    product_chart-Outcome Millionths small broken (refl, (refl, tt)) refl broken-IsComplete

draw_panel-IsOk_example :
    IsOk (draw_panel (panel_plot Millionths (pos 200000) 4) 4 50000 "direct to node" broken)
unfolding panel_plot int_eq
draw_panel-IsOk_example =
    draw_panel-IsOk (panel_plot Millionths (pos 200000) 4) refl 4 50000 "direct to node" broken
      broken-IsComplete

-- braft without a point at 250000
abbrev early : Dict Product (List Entry)
early = (some "braft", ack_points) ∷ []

early-AllShown : AllShown early
unfolding get lookup string_eq
early-AllShown = AllDrawn-AllShown early (
    AllDrawn-cons (some "braft") ack_points []
      (point-IsDrawn 100000 99990 800 2100 (omega arith) (omega arith))
      (λ name es there. absurd (none-ne-some es there)))

knee_curves-Outcome_example :
    Outcome (AllAnchored Millionths early) stop_iteration (knee_curves Millionths early)
knee_curves-Outcome_example = knee_curves-Outcome Millionths early early-AllShown

panels-Fit_example :
    ((6 ≤ panel_left 4) × (panel_left 4 + panel_width + 6 ≤ canvas_width))
    × ((6 ≤ panel_top 4) × (panel_top 4 + panel_height + 6 + 80 ≤ canvas_height 7))
    × ((j : ℕ) → j < 7 → 4 ≢ j → IsBefore 4 j ⊎ IsBefore j 4)
panels-Fit_example = panels-Fit 7 4 (omega arith)

axis_end_lem_example :
    (m : ℤ) × IsOneOf m (pos 100000 ∷ pos 130001 ∷ [])
    × IsAxisEnd m (axis_end Millionths (max_rate (pos 100000 ∷ pos 130001 ∷ [])))
    × All
        (λ q. q ≤ℤ axis_end Millionths (max_rate (pos 100000 ∷ pos 130001 ∷ [])))
        (pos 100000 ∷ pos 130001 ∷ [])
axis_end_lem_example =
    axis_end_lem Millionths Millionths-IsOrdered (pos 100000) (pos 130001 ∷ [])
      ((omega arith, omega arith), ((omega arith, omega arith), tt))

-- an option and an input in front of the directory
out_lem_example :
    (out (codes "/r") (codes "--combined" ∷ codes "a.csv" ∷ []) ≡ codes "/r")
    × (out (codes "/r") (codes "--combined" ∷ codes "a.csv" ∷ codes "docs" ∷ codes "b" ∷ [])
        ≡ codes "docs")
unfolding ends_with starts_with nat_eq list_eq
out_lem_example =
    out_lem (codes "/r") (codes "--combined" ∷ codes "a.csv" ∷ []) (codes "docs") (codes "b" ∷ [])
      (inr refl, (inl refl, tt)) refl refl

arguments :
    (out (codes "/r") (codes "--combined" ∷ codes "a.csv" ∷ []) ≡ codes "/r")
    × (csvs (codes "k.csv") (codes "--combined" ∷ codes "a.csv" ∷ codes "docs" ∷ [])
        ≡ codes "a.csv" ∷ [])
    × (csvs (codes "k.csv") (codes "docs" ∷ []) ≡ codes "k.csv" ∷ [])
    × (combined (codes "a.csv" ∷ codes "--combined" ∷ []) ≡ true)
    × (combined (codes "combined" ∷ []) ≡ false)
unfolding out csvs combined is_csv is_dir ends_with starts_with nat_eq list_eq
arguments = (refl, refl, refl, refl, refl)

abbrev two_lines : List String
two_lines = "p50 latency." ∷ "At 100k: relay (gRPC) 1,300 µs." ∷ []

overlay-Fits_example :
    ((Overlay.Layout.plot Millionths (pos 125000) round_trips two_lines).plot_height ≡ pos 300)
    × (map (λ p. p.item) (key Millionths (pos 125000) round_trips two_lines)
        ≡ legend_items round_trips)
    × All
        (IsBetween
          (bottom (Overlay.Layout.plot Millionths (pos 125000) round_trips two_lines) +ℤ pos 58)
          (height Millionths (pos 125000) round_trips two_lines -ℤ pos 16))
        (key Millionths (pos 125000) round_trips two_lines)
    × All (IsInside (pos 78) (pos 880)) (key Millionths (pos 125000) round_trips two_lines)
overlay-Fits_example = overlay-Fits Millionths (pos 125000) round_trips two_lines
