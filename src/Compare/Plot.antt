-- ===== src/Compare/Plot.antt =====
-- sweep/mkcharts-fleets.py and sweep/mkcharts-multi.py: the frame, the axes and the legend round the curves.
use raft_tests.Prelude.{
  ℕ, suc, ◌+◌, ◌-◌, ◌*◌, ◌/◌, Option, none, some, List, [], ◌∷◌, ◌++◌, ◌==◌, if◌then◌else◌, String,
  ◌<>◌, length, string_eq, option_eq, pair_eq, list_eq, nat_eq, int_eq, ℤ, pos,
}
use raft_tests.Svg.{element, text}
use raft_tests.Python.Number.{show_nat}
use raft_tests.Python.Text.{codes}
use raft_tests.Python.Float.{Float, Num, int, float, plus}
use raft_tests.Knee.Legend.{gt, show_num}
use raft_tests.Compare.Chart.{
  muted, grid, axis, ink2, band, cols, Curve, head, ticks, Frame, bottom, right, xm, ym,
  draw_curves,
}

-- The arguments of `chart` behind the path.
pub record Request {ℓ} (F : Type ℓ) : Type ℓ where
  pub title : String
  pub sub : List String
  pub series : List Curve
  pub xmax : ℕ
  pub xstep : ℕ
  pub yrange : F × F
  pub yticks : List ℤ
  pub fmt : ℤ → String
  pub band_at : Option ℤ
  pub band_label : Option String
  -- each with its offset from the top
  pub markers : List (ℤ × String × ℕ)

module _ {ℓ} {F : Type ℓ} ⦃f : Float F⦄ where
  -- `W, L, R = 940, 84, 44`, with the script's `H` and `B`
  unfoldable pub frame_of : ℕ → ℕ → Request F → Frame F
  frame_of height below r =
      let top = 50 + length r.sub * 16 + 14 in
      record {
        width = 940;
        height = height;
        left = 84;
        top = top;
        plot_width = 940 - 84 - 44;
        plot_height = height - top - below;
        xmax = r.xmax;
        ylo = f.log10 (r.yrange).0;
        yhi = f.log10 (r.yrange).1;
      }

  -- `if band_at:`, which an int that is not 0 passes; an empty label falls back like none
  unfoldable pub draw_band : Frame F → Request F → List String
  draw_band frame r = elim r.band_at [
    | none ↦ []
    | some at ↦
        let yb = ym frame at in
        let label : String = elim r.band_label [
          | none ↦ r.fmt at
          | some s ↦ if s == "" then r.fmt at else s
        ] in
        if at == pos 0
        then []
        else element "rect" (
            ("x", show_nat frame.left)
            ∷ ("y", f.fixed 1 yb)
            ∷ ("width", show_nat frame.plot_width)
            ∷ ("height", f.fixed 1 (f.sub (f.of_int (pos (bottom frame))) yb))
            ∷ ("fill", band)
            ∷ [])
          ∷ text
              (("x", show_nat (frame.left + 8))
                ∷ ("y", f.fixed 1 (f.add yb (f.of_int (pos 15))))
                ∷ ("font-size", "11")
                ∷ ("fill", muted)
                ∷ [])
              ("at or below " <> label)
          ∷ []
  ]

  unfoldable pub draw_yticks : Frame F → (ℤ → String) → List ℤ → List String
  draw_yticks frame fmt [] = []
  draw_yticks frame fmt (v ∷ yticks) =
      let yy = ym frame v in
      element "line" (
        ("x1", show_nat frame.left)
        ∷ ("y1", f.fixed 1 yy)
        ∷ ("x2", show_nat (right frame))
        ∷ ("y2", f.fixed 1 yy)
        ∷ ("stroke", grid)
        ∷ [])
      ∷ text
          (("x", show_nat (frame.left - 10))
            ∷ ("y", f.fixed 1 (f.add yy (f.of_int (pos 4))))
            ∷ ("font-size", "11")
            ∷ ("fill", muted)
            ∷ ("text-anchor", "end")
            ∷ [])
          (fmt v)
      ∷ draw_yticks frame fmt yticks

  -- the elements of each round of the `while` loop
  unfoldable pub draw_xticks : Frame F → List ℕ → List String
  draw_xticks frame [] = []
  draw_xticks frame (v ∷ vs) =
      let xx = f.fixed 1 (xm frame (pos v)) in
      element "line" (
        ("x1", xx)
        ∷ ("y1", show_nat (bottom frame))
        ∷ ("x2", xx)
        ∷ ("y2", show_nat (bottom frame + 5))
        ∷ ("stroke", axis)
        ∷ [])
      ∷ text
          (("x", xx)
            ∷ ("y", show_nat (bottom frame + 20))
            ∷ ("font-size", "11")
            ∷ ("fill", muted)
            ∷ ("text-anchor", "middle")
            ∷ [])
          (show_nat (v / 1000) <> "k")
      ∷ draw_xticks frame vs

  unfoldable pub draw_markers : Frame F → List (ℤ × String × ℕ) → List String
  draw_markers frame [] = []
  draw_markers frame ((mx, mlabel, dy) ∷ markers) =
      let kx = xm frame mx in
      element "line" (
        ("x1", f.fixed 1 kx)
        ∷ ("y1", show_nat frame.top)
        ∷ ("x2", f.fixed 1 kx)
        ∷ ("y2", show_nat (bottom frame))
        ∷ ("stroke", muted)
        ∷ ("stroke-width", "1")
        ∷ ("stroke-dasharray", "4 4")
        ∷ [])
      ∷ text
          (("x", f.fixed 1 (f.add kx (f.of_int (pos 6))))
            ∷ ("y", show_nat (frame.top + dy))
            ∷ ("font-size", "11")
            ∷ ("font-weight", "600")
            ∷ ("fill", ink2)
            ∷ [])
          mlabel
      ∷ draw_markers frame markers

  -- the loop of the legend: an entry that would pass the right margin begins the next row
  unfoldable pub draw_key : Frame F → Num F → ℕ → List Curve → List String → List String
  draw_key frame lx ly [] colours = []
  draw_key frame lx ly (curve ∷ curves) [] = []
  draw_key frame lx ly ((label, _) ∷ curves) (col ∷ colours) =
      let w : Num F =
        float (
          f.add (f.of_int (pos 28)) (f.mul (f.of_int (pos (length (codes label)))) (f.lit 63 1))) in
      let past = gt (plus lx w) (int (pos (frame.width - 10))) in
      let lx' = if past then int (pos frame.left) else lx in
      let ly' = if past then ly + 17 else ly in
      element "circle" (
        ("cx", show_num (plus lx' (int (pos 5))))
        ∷ ("cy", show_nat ly')
        ∷ ("r", "4.5")
        ∷ ("fill", col)
        ∷ [])
      ∷ text
          (("x", show_num (plus lx' (int (pos 16))))
            ∷ ("y", show_nat (ly' + 4))
            ∷ ("font-size", "11")
            ∷ ("fill", ink2)
            ∷ [])
          label
      ∷ draw_key frame (plus lx' w) ly' curves colours

  -- the x axis, its ticks and its caption
  unfoldable pub draw_xaxis : Frame F → ℕ → ℕ → String → List String
  draw_xaxis frame xstep dy caption =
      element "line" (
        ("x1", show_nat frame.left)
        ∷ ("y1", show_nat (bottom frame))
        ∷ ("x2", show_nat (right frame))
        ∷ ("y2", show_nat (bottom frame))
        ∷ ("stroke", axis)
        ∷ [])
      ∷ (draw_xticks frame (ticks (suc frame.xmax) frame.xmax xstep 0)
          ++ (text
                ((
                  "x",
                  f.fixed 0 (
                      f.add (f.of_int (pos frame.left))
                        (f.div (f.of_int (pos frame.plot_width)) (f.of_int (pos 2)))),
                )
                  ∷ ("y", show_nat (bottom frame + dy))
                  ∷ ("font-size", "11")
                  ∷ ("fill", ink2)
                  ∷ ("text-anchor", "middle")
                  ∷ [])
                caption
              ∷ []))

  -- the clip path, and the curves inside it
  unfoldable pub draw_clipped : Frame F → List Curve → List String
  draw_clipped frame series =
      ("<defs><clipPath id=\"p\">"
        <> element "rect" (
            ("x", show_nat (frame.left - 6))
            ∷ ("y", show_nat (frame.top - 6))
            ∷ ("width", show_nat (frame.plot_width + 12))
            ∷ ("height", show_nat (frame.plot_height + 12))
            ∷ [])
        <> "</clipPath></defs>")
      ∷ "<g clip-path=\"url(#p)\">"
      ∷ (draw_curves frame series cols ++ ("</g>" ∷ []))

  abbrev compose : ℕ → ℕ → ℕ → ℕ → String → Request F → List String
  compose height below dy key_rise caption r =
      let frame = frame_of height below r in
      head 940 height r.title r.sub
      ++ draw_band frame r
      ++ draw_yticks frame r.fmt r.yticks
      ++ draw_xaxis frame r.xstep dy caption
      ++ draw_markers frame r.markers
      ++ draw_clipped frame r.series
      ++ draw_key frame (int (pos frame.left)) (height - key_rise) r.series cols
      ++ ("</svg>" ∷ [])

  -- `chart` of the fleets script; its one marker's label stands 16 below the top
  unfoldable pub fleet_chart : Request F → List String
  fleet_chart r = compose 496 104 44 34 "offered rate (requests/sec)" r

  -- `chart` of the multi-gateway script
  unfoldable pub gateways_chart : Request F → List String
  gateways_chart r = compose 516 112 42 46 "offered rate across the whole fleet (requests/sec)" r
