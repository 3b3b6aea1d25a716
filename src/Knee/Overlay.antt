-- ===== src/Knee/Overlay.antt =====
-- sweep/mkcharts.py: round-trips-p50.svg, the round trips in one chart.
pub mod Total
pub mod Layout
use raft_tests.Prelude.{
  ℕ, ◌+◌, ◌-◌, ◌*◌, Option, none, some, List, [], ◌∷◌, ◌++◌, map, ◌==◌, if◌then◌else◌, String, ◌<>◌,
  Result, ok, gather, ◌>>=◌, length, string_eq, option_eq, pair_eq, list_eq, nat_eq, int_eq, ℤ, pos,
  ◌-ℤ◌, ltb_ℤ,
}
use raft_tests.Svg.{text}
use raft_tests.Python.Dict.{Dict, lookup}
use raft_tests.Python.Text.{codes, string_of}
use raft_tests.Python.Number.{show_commas}
use raft_tests.Python.Float.{Float}
use raft_tests.Knee.Style.{ink2, muted}
use raft_tests.Knee.Rows.{Product, Entry}
use raft_tests.Knee.Wrap.{wrap_sub, default_budget}
use raft_tests.Knee.Legend.{Item, legend_rows, legend}
use raft_tests.Knee.Clash.{Series}
use raft_tests.Knee.Draw.{Plot, show_latency, right, head, axes}
use raft_tests.Knee.Product.{Svg, entries_of}
use raft_tests.Knee.Panels.{rates_of, max_rate, axis_end, axis_step}
use raft_tests.Knee.Panels.Picture.{draw_band_ms, positive_series}
use raft_tests.Python.Number.{show_int}

-- `next((q for q in entries if q["rate"] == 100000 and q["p50"] > 0), None)`
unfoldable pub entry_at_100k : List Entry → Result (Option Entry)
entry_at_100k [] = ok none
entry_at_100k (q ∷ qs) = do
  rate ← lookup "rate" q
  let more = entry_at_100k qs
  let try_p50 = (do p50 ← lookup "p50" q; if ltb_ℤ (pos 0) p50 then ok (some q) else more)
  if rate == pos 100000 then try_p50 else more

-- what a round trip adds to `_at100k`
unfoldable pub at_100k : Dict Product (List Entry) → Series → Result (List String)
at_100k d (name, lab, _) = do
  entries ← entries_of d name
  pt ← entry_at_100k entries
  elim pt [
    | none ↦ ok []
    | some q ↦ (do p50 ← lookup "p50" q; ok ((lab <> " " <> show_commas p50 <> " µs") ∷ []))
  ]

-- `"; ".join(parts)`
unfoldable pub join_semicolon : List String → String
join_semicolon [] = ""
join_semicolon (s ∷ []) = s
join_semicolon (s ∷ t ∷ rest) = s <> "; " <> join_semicolon (t ∷ rest)

-- `_sub`
unfoldable pub sub_at_100k : List String → String
sub_at_100k [] = "No 100k point in this dataset."
sub_at_100k (s ∷ rest) = "At 100k: " <> join_semicolon (s ∷ rest) <> "."

-- `_sublines`
unfoldable pub sub_lines : List String → List String
sub_lines at =
    "p50 latency vs offered rate, same fleet and sweep as the panels above. Log latency scale. FIX arms are FIX 4.4 throughout."
    ∷ (map string_of (wrap_sub (codes (sub_at_100k at)) default_budget)
        ++ ("Hollow marker = the cluster fell behind the offered rate. Shaded band = at or below 1 ms."
            ∷ []))

-- `_legend_items`
unfoldable pub legend_items : List Series → List Item
legend_items rt_present = map (λ s. (s.1, s.2)) rt_present

module _ {ℓ} (F : Type ℓ) ⦃f : Float F⦄ where
  -- `B`, with the room for the rows of the legend
  unfoldable pub overlay_margin : List Series → ℕ
  overlay_margin rt_present =
      74 + (legend_rows F (legend_items rt_present) (pos 78) (pos (900 - 20)) - 1) * 18

-- `T` and `H`
unfoldable pub overlay_top : List String → ℕ
overlay_top sublines = 46 + 16 * length sublines + 2

unfoldable pub overlay_height : List String → ℕ → ℕ
unfolding overlay_top
overlay_height sublines margin = overlay_top sublines + (470 - 96 - 74) + margin

module _ {ℓ} (F : Type ℓ) ⦃f : Float F⦄ where
  -- `W,L,R=900,78,40`, and the scales
  unfoldable pub overlay_plot : ℤ → List String → ℕ → Plot F
  overlay_plot xmax sublines margin = record {
    left = pos 78;
    top = pos (overlay_top sublines);
    plot_width = pos (900 - 78 - 40);
    plot_height = pos (overlay_height sublines margin - overlay_top sublines - margin);
    xmax = xmax;
    ylo = f.log10 (f.lit 6000 1);
    yhi = f.log10 (f.lit 2000000 1);
  }

  -- the body of the loop over the round trips
  unfoldable pub overlay_curve : Plot F → Dict Product (List Entry) → Series → Result (List String)
  overlay_curve plot d (name, _, col) = do
    entries ← entries_of d name
    positive_series plot entries col "p50"

  unfoldable pub overlay_file : Dict Product (List Entry) → List Series → Result Svg
  overlay_file d rt_present = do
    rates ← rates_of d rt_present
    let xmax = axis_end F (max_rate rates)
    at ← gather (at_100k d) rt_present
    let sublines = sub_lines at
    let margin = overlay_margin F rt_present
    let plot = overlay_plot xmax sublines margin
    let height = pos (overlay_height sublines margin)
    shade ← draw_band_ms plot
    grid ←
        axes plot (axis_step xmax)
          (pos 1000 ∷ pos 2000 ∷ pos 5000 ∷ pos 10000 ∷ pos 50000 ∷ pos 200000 ∷ [])
          "p50 latency, log scale" show_latency
    curves ← gather (overlay_curve plot d) rt_present
    ok (
      "round-trips-p50.svg",
      head (pos 900) height "sequencer: gateway round trips, p50 vs offered rate" sublines
          ++ (shade.0
              ++ (text
                    (("x", show_int (right plot -ℤ pos 8))
                      ∷ ("y", f.fixed 1 (f.add (shade.1) (f.of_int (pos 15))))
                      ∷ ("font-size", "11")
                      ∷ ("fill", muted)
                      ∷ ("text-anchor", "end")
                      ∷ [])
                    "at or below 1 ms"
                  ∷ (grid
                      ++ (curves
                          ++ (legend F ink2 (pos 78) height (legend_items rt_present)
                                (some (pos (900 - 20)))
                              ++ ("</svg>" ∷ [])))))),
    )
