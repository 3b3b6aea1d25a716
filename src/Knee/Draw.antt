-- ===== src/Knee/Draw.antt =====
-- sweep/mkcharts.py: `sat`, `head`, `axes` and `series`, and the two scales of a chart.
pub mod Total
use raft_tests.Prelude.{
  ℕ, suc, ◌+◌, ◌*◌, ◌/◌, Bool, not, none, List, [], ◌∷◌, ◌++◌, arith, ◌==◌, if◌then◌else◌, String,
  ◌<>◌, Result, ok, err, value_error, zero_division_error, gather, ◌>>=◌, map_result, string_eq,
  option_eq, pair_eq, list_eq, nat_eq, int_eq, ℤ, pos, negsuc, ◌+ℤ◌, ◌-ℤ◌, ltb_ℤ, leb_ℤ, int_laws,
}
use raft_tests.Svg.{element, text}
use raft_tests.Python.Dict.{lookup}
use raft_tests.Python.Number.{show_int, show_nat}
use raft_tests.Python.Float.{Float}
use raft_tests.Compare.{floor_div}
use raft_tests.Compare.Chart.{ticks}
use raft_tests.Knee.Style.{surf, ink, ink2, muted, grid, axis, font}
use raft_tests.Knee.Rows.{Entry}

-- `L`, `T`, `PW`, `PH`, `xmax`, `ylo` and `yhi` of a chart, which its `xm` and `ym` read.
pub record Plot {ℓ} (F : Type ℓ) : Type ℓ where
  pub left : ℤ
  pub top : ℤ
  pub plot_width : ℤ
  pub plot_height : ℤ
  pub xmax : ℤ
  pub ylo : F
  pub yhi : F

-- `L + PW` and `T + PH`
abbrev pub right {ℓ} : {F : Type ℓ} → Plot F → ℤ
right plot = plot.left +ℤ plot.plot_width

abbrev pub bottom {ℓ} : {F : Type ℓ} → Plot F → ℤ
bottom plot = plot.top +ℤ plot.plot_height

-- `f"{v//1000} ms" if v>=1000 else f"{v} µs"`
unfoldable pub show_latency : ℤ → String
show_latency v =
    if leb_ℤ (pos 1000) v then show_int (floor_div v 1000) <> " ms" else show_int v <> " µs"

-- The values of v in `while v<=xmax`, from 0 in steps of `xstep`.
unfoldable pub ticks_to : ℤ → ℕ → List ℕ
ticks_to (pos xmax) xstep = ticks (suc xmax) xmax xstep 0
ticks_to (negsuc _) xstep = []

-- the loop over `enumerate(sub)`
head_lines : ℕ → List String → List String
head_lines i [] = []
head_lines i (l ∷ sub) =
    text (("x", "78") ∷ ("y", show_nat (46 + i * 16)) ∷ ("font-size", "12") ∷ ("fill", ink2) ∷ []) l
    ∷ head_lines (i + 1) sub

unfoldable pub head : ℤ → ℤ → String → List String → List String
unfolding head_lines
head w h title sub =
    ("<svg xmlns=\"http://www.w3.org/2000/svg\" width=\""
      <> show_int w
      <> "\" height=\""
      <> show_int h
      <> "\" viewBox=\"0 0 "
      <> show_int w
      <> " "
      <> show_int h
      <> "\" font-family='"
      <> font
      <> "' role=\"img\" aria-label=\""
      <> title
      <> "\">")
    ∷ element "rect" (("width", show_int w) ∷ ("height", show_int h) ∷ ("fill", surf) ∷ [])
    ∷ text
        (("x", "78")
          ∷ ("y", "28")
          ∷ ("font-size", "16")
          ∷ ("font-weight", "600")
          ∷ ("fill", ink)
          ∷ [])
        title
    ∷ head_lines 0 sub

module _ {ℓ} (F : Type ℓ) ⦃f : Float F⦄ where
  unfoldable pub sat : Entry → Result Bool
  sat d = do
    achieved ← lookup "achieved" d
    rate ← lookup "rate" d
    ok (not (f.int_ge achieved (f.mul (f.lit 99 2) (f.of_int rate))))

  -- `math.log10(v)` of an int
  unfoldable pub log10_of : ℤ → Result F
  log10_of v = if ltb_ℤ (pos 0) v then ok (f.log10 (f.of_int v)) else err value_error

module _ {ℓ} {F : Type ℓ} ⦃f : Float F⦄ (plot : Plot F) where
  -- `L+PW*(v/xmax)`
  unfoldable pub xm : ℤ → Result F
  xm v =
      let x =
        f.add (f.of_int plot.left)
          (f.mul (f.of_int plot.plot_width) (f.div (f.of_int v) (f.of_int plot.xmax))) in
      if plot.xmax == pos 0 then err zero_division_error else ok x

  -- `T+PH*(1-(math.log10(v)-ylo)/(yhi-ylo))`
  unfoldable pub ym : ℤ → Result F
  ym v = do
    log ← log10_of F v
    ok (
        f.add (f.of_int plot.top) (
          f.mul (f.of_int plot.plot_height)
            (f.sub (f.of_int (pos 1)) (f.div (f.sub log plot.ylo) (f.sub plot.yhi plot.ylo)))))

  -- the two elements of an entry of `yticks`
  unfoldable pub draw_ytick : (ℤ → String) → ℤ → Result (List String)
  draw_ytick fmt v = do
    yy ← ym v
    ok (
        element "line" (
          ("x1", show_int plot.left)
          ∷ ("y1", f.fixed 1 yy)
          ∷ ("x2", show_int (right plot))
          ∷ ("y2", f.fixed 1 yy)
          ∷ ("stroke", grid)
          ∷ ("stroke-width", "1")
          ∷ [])
        ∷ text
            (("x", show_int (plot.left -ℤ pos 10))
              ∷ ("y", f.fixed 1 (f.add yy (f.of_int (pos 4))))
              ∷ ("font-size", "11")
              ∷ ("fill", muted)
              ∷ ("text-anchor", "end")
              ∷ [])
            (fmt v)
        ∷ [])

  -- the two elements of a round of the `while` loop
  unfoldable pub draw_xtick : ℕ → Result (List String)
  draw_xtick v = do
    xx ← xm (pos v)
    ok (
        element "line" (
          ("x1", f.fixed 1 xx)
          ∷ ("y1", show_int (bottom plot))
          ∷ ("x2", f.fixed 1 xx)
          ∷ ("y2", show_int (bottom plot +ℤ pos 5))
          ∷ ("stroke", axis)
          ∷ ("stroke-width", "1")
          ∷ [])
        ∷ text
            (("x", f.fixed 1 xx)
              ∷ ("y", show_int (bottom plot +ℤ pos 20))
              ∷ ("font-size", "11")
              ∷ ("fill", muted)
              ∷ ("text-anchor", "middle")
              ∷ [])
            (show_nat (v / 1000) <> "k")
        ∷ [])

  -- `a+n/2` of ints, as `f"{…:.0f}"` prints it
  abbrev middle : ℤ → ℤ → String
  middle a n = f.fixed 0 (f.add (f.of_int a) (f.div (f.of_int n) (f.of_int (pos 2))))

  unfoldable pub axes : ℕ → List ℤ → String → (ℤ → String) → Result (List String)
  axes xstep yticks ylab fmt = do
    ys ← gather (draw_ytick fmt) yticks
    let mid = middle plot.top plot.plot_height
    xs ← gather draw_xtick (ticks_to plot.xmax xstep)
    ok (
        ys
        ++ (text
              (("x", "20")
                ∷ ("y", mid)
                ∷ ("font-size", "11")
                ∷ ("fill", ink2)
                ∷ ("text-anchor", "middle")
                ∷ ("transform", "rotate(-90 20 " <> mid <> ")")
                ∷ [])
              ylab
            ∷ element "line" (
                ("x1", show_int plot.left)
                ∷ ("y1", show_int (bottom plot))
                ∷ ("x2", show_int (right plot))
                ∷ ("y2", show_int (bottom plot))
                ∷ ("stroke", axis)
                ∷ ("stroke-width", "1")
                ∷ [])
            ∷ (xs
                ++ (text
                      (("x", middle plot.left plot.plot_width)
                        ∷ ("y", show_int (bottom plot +ℤ pos 44))
                        ∷ ("font-size", "11")
                        ∷ ("fill", ink2)
                        ∷ ("text-anchor", "middle")
                        ∷ [])
                      "offered rate (requests/sec)"
                    ∷ []))))

  -- `xm(p["rate"])` and `ym(p[key])`
  unfoldable pub place_point : String → Entry → Result (F × F)
  place_point key p = do rate ← lookup "rate" p; x ← xm rate; v ← lookup key p; y ← ym v; ok (x, y)

  abbrev show_point : F × F → String
  show_point xy = f.fixed 1 (xy.0) <> "," <> f.fixed 1 (xy.1)

  -- the path's data behind the first point
  path_rest : List (F × F) → String
  path_rest [] = ""
  path_rest (xy ∷ xys) = " L" <> show_point xy <> path_rest xys

  unfoldable pub path_data : List (F × F) → String
  unfolding path_rest
  path_data [] = ""
  path_data (xy ∷ xys) = "M" <> show_point xy <> path_rest xys

  -- the circle of a point: hollow where the cluster fell behind
  unfoldable pub draw_point : String → String → Entry → Result String
  draw_point col key p = do
    xy ← place_point key p
    hollow ← sat F p
    ok (
        element "circle" (
          ("cx", f.fixed 1 (xy.0))
          ∷ ("cy", f.fixed 1 (xy.1))
          ∷ ("r", "4.5")
          ∷ ("fill", if hollow then surf else col)
          ∷ ("stroke", if hollow then col else surf)
          ∷ ("stroke-width", "2")
          ∷ []))

  unfoldable pub series : List Entry → String → String → Result (List String)
  series pts col key = do
    xys ← map_result (place_point key) pts
    circles ← map_result (draw_point col key) pts
    ok (
        element "path" (
          ("d", path_data xys)
          ∷ ("fill", "none")
          ∷ ("stroke", col)
          ∷ ("stroke-width", "2")
          ∷ ("stroke-linejoin", "round")
          ∷ ("stroke-linecap", "round")
          ∷ [])
        ∷ circles)
