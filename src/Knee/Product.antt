-- ===== src/Knee/Product.antt =====
-- sweep/mkcharts.py: the chart of a product, with p50 and p99 over the offered rate.
pub mod Total
use raft_tests.Prelude.{
  ℕ, ◌-◌, none, some, List, [], ◌∷◌, ◌++◌, String, ◌<>◌, Result, ok, err, key_error, index_error,
  gather, ◌>>=◌, string_eq, option_eq, pair_eq, list_eq, nat_eq, int_eq, ℤ, pos, ◌+ℤ◌, ◌-ℤ◌,
}
use raft_tests.Svg.{element, text}
use raft_tests.Python.Dict.{Dict, get, lookup}
use raft_tests.Python.Number.{show_int, show_commas}
use raft_tests.Python.Float.{Float}
use raft_tests.Knee.Style.{ink, ink2, muted, band, c1, c2}
use raft_tests.Knee.Rows.{Product, Entry}
use raft_tests.Knee.Legend.{legend}
use raft_tests.Knee.Labels.{clamp, separate}
use raft_tests.Knee.Draw.{Plot, bottom, head, axes, xm, ym, series}

-- A value of `CFG`.
pub record Config : Type 0 where
  pub xmax : ℕ
  pub xstep : ℕ
  pub yrange : ℕ × ℕ
  pub yticks : List ℤ
  pub comfort : ℤ
  pub markers : List (ℤ × String × ℤ)
  pub title : String
  pub line2 : String

-- a file that the script writes: its name in the output directory, and its lines
abbrev pub Svg : Type 0
Svg = String × List String

-- `D[name]`
unfoldable pub entries_of : Dict Product (List Entry) → String → Result (List Entry)
entries_of d name = elim (get (some name) d) [ none ↦ err (key_error name) | some es ↦ ok es ]

-- `D[p][-1]`
unfoldable pub last_entry : List Entry → Result Entry
last_entry [] = err index_error
last_entry (e ∷ []) = ok e
last_entry (_ ∷ e ∷ es) = last_entry (e ∷ es)

module _ {ℓ} (F : Type ℓ) ⦃f : Float F⦄ where
  -- `W,H,L,R,T,B=820,440,78,120,86,74`, and the scales
  unfoldable pub product_plot : Config → Plot F
  product_plot cfg = record {
    left = pos 78;
    top = pos 86;
    plot_width = pos (820 - 78 - 120);
    plot_height = pos (440 - 86 - 74);
    xmax = pos cfg.xmax;
    ylo = f.log10 (f.of_int (pos (cfg.yrange).0));
    yhi = f.log10 (f.of_int (pos (cfg.yrange).1));
  }

module _ {ℓ} {F : Type ℓ} ⦃f : Float F⦄ (plot : Plot F) where
  -- the comfort zone
  unfoldable pub draw_comfort : ℤ → Result (List String)
  draw_comfort comfort = do
    x ← xm plot comfort
    ok (
        element "rect" (
          ("x", show_int plot.left)
          ∷ ("y", show_int plot.top)
          ∷ ("width", f.fixed 1 (f.sub x (f.of_int plot.left)))
          ∷ ("height", show_int plot.plot_height)
          ∷ ("fill", band)
          ∷ [])
        ∷ text
            (("x", show_int (plot.left +ℤ pos 8))
              ∷ ("y", show_int (plot.top +ℤ pos 16))
              ∷ ("font-size", "11")
              ∷ ("fill", muted)
              ∷ [])
            "comfort zone"
        ∷ [])

  -- the rule of an inflection
  unfoldable pub draw_marker : ℤ × String × ℤ → Result (List String)
  draw_marker (mrate, mlabel, mdy) = do
    kx ← xm plot mrate
    ok (
        element "line" (
          ("x1", f.fixed 1 kx)
          ∷ ("y1", show_int plot.top)
          ∷ ("x2", f.fixed 1 kx)
          ∷ ("y2", show_int (bottom plot))
          ∷ ("stroke", muted)
          ∷ ("stroke-width", "1")
          ∷ ("stroke-dasharray", "4 4")
          ∷ [])
        ∷ text
            (("x", f.fixed 1 (f.add kx (f.of_int (pos 6))))
              ∷ ("y", show_int (plot.top +ℤ mdy))
              ∷ ("font-size", "11")
              ∷ ("font-weight", "600")
              ∷ ("fill", ink2)
              ∷ [])
            mlabel
        ∷ [])

  -- the clip path and the opening of the group that it clips
  unfoldable pub clip_open : List String
  clip_open =
      ("<defs><clipPath id=\"plot\">"
        <> element "rect" (
            ("x", show_int (plot.left -ℤ pos 6))
            ∷ ("y", show_int (plot.top -ℤ pos 6))
            ∷ ("width", show_int (plot.plot_width +ℤ pos 12))
            ∷ ("height", show_int (plot.plot_height +ℤ pos 12))
            ∷ [])
        <> "</clipPath></defs>")
      ∷ "<g clip-path=\"url(#plot)\">"
      ∷ []

  -- where the labels of p99 and p50 stand: at the last point, inside the plot, apart
  unfoldable pub label_heights : Entry → Result (F × F)
  label_heights last = do
    v99 ← lookup "p99" last
    y99 ← ym plot v99
    v50 ← lookup "p50" last
    y50 ← ym plot v50
    let inside = clamp (f.of_int plot.top) (f.of_int (bottom plot))
    ok (separate (inside y99) (inside y50))

  abbrev end_label : Entry → F → String → Result String
  end_label last y key = do
    rate ← lookup "rate" last
    x ← xm plot rate
    ok (
        text
          (("x", f.fixed 1 (f.add x (f.of_int (pos 12))))
            ∷ ("y", f.fixed 1 (f.add y (f.of_int (pos 4))))
            ∷ ("font-size", "12")
            ∷ ("font-weight", "600")
            ∷ ("fill", ink)
            ∷ [])
          key)

  unfoldable pub draw_labels : List Entry → Result (List String)
  draw_labels entries = do
    last ← last_entry entries
    ys ← label_heights last
    p99 ← end_label last (ys.0) "p99"
    p50 ← end_label last (ys.1) "p50"
    ok (p99 ∷ p50 ∷ [])

module _ {ℓ} (F : Type ℓ) ⦃f : Float F⦄ where
  -- the body of the loop over `CFG`, for a product with data
  unfoldable pub product_chart : Config → List Entry → Result (List String)
  product_chart cfg entries = do
    let plot = product_plot F cfg
    zone ← draw_comfort plot cfg.comfort
    rules ← gather (draw_marker plot) cfg.markers
    grid ← axes plot cfg.xstep cfg.yticks "latency (µs), log scale" show_commas
    p99 ← series plot entries c2 "p99"
    p50 ← series plot entries c1 "p50"
    labels ← draw_labels plot entries
    ok (
        head (pos 820) (pos 440) cfg.title (
          cfg.line2
          ∷ "p50 and p99 latency, open loop. Hollow marker = the cluster fell behind the offered rate."
          ∷ [])
        ++ (zone
            ++ (rules ++ (grid ++ (clip_open plot ++ (p99 ++ (p50 ++ ("</g>" ∷ labels))))))
            ++ (legend F ink2 (pos 78) (pos 440) (("p50", c1) ∷ ("p99", c2) ∷ []) none
                ++ ("</svg>" ∷ []))))

  -- the loop over `CFG`
  unfoldable pub product_charts :
      Dict Product (List Entry) → List (String × Config) → Result (List Svg)
  product_charts d [] = ok []
  product_charts d ((name, cfg) ∷ rest) = elim (get (some name) d) [
    | none ↦ product_charts d rest
    | some entries ↦ (do
      lines ← product_chart cfg entries
      more ← product_charts d rest
      ok (("knee-" <> name <> ".svg", lines) ∷ more))
  ]
