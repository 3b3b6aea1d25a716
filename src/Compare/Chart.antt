-- ===== src/Compare/Chart.antt =====
-- sweep/mkcharts-fleets.py and sweep/mkcharts-multi.py: the chart as the list of its lines of SVG.
use raft_tests.Prelude.{
  ℕ, zero, suc, ◌+◌, ◌*◌, Bool, not, none, some, List, [], ◌∷◌, ◌++◌, map, if◌then◌else◌, String,
  ◌<>◌, leb, keep, string_eq, option_eq, pair_eq, list_eq, nat_eq, int_eq, ℤ, pos, ltb_ℤ, leb_ℤ,
}
use raft_tests.Python.Dict.{Dict, get, keys}
use raft_tests.Python.Sort.{sorted}
use raft_tests.Python.Number.{show_int, show_nat}
use raft_tests.Python.Float.{Float}
use raft_tests.Compare.{Point, floor_div}

abbrev pub surf : String
surf = "#fcfcfb"

abbrev pub ink : String
ink = "#0b0b0b"

abbrev pub ink2 : String
ink2 = "#52514e"

abbrev pub muted : String
muted = "#898781"

abbrev pub grid : String
grid = "#e1e0d9"

abbrev pub axis : String
axis = "#c3c2b7"

abbrev pub band : String
band = "#f0efec"

-- `COLS`
abbrev pub cols : List String
cols = "#2a78d6" ∷ "#eb6834" ∷ "#1baf7a" ∷ "#b5179e" ∷ []

abbrev font : String
font = "system-ui,-apple-system,\"Segoe UI\",sans-serif"

-- A labelled series: its points by rate.
abbrev pub Curve : Type 0
Curve = String × Dict ℤ Point

-- `us`
unfoldable pub us : ℤ → String
us v = if leb_ℤ (pos 1000) v then show_int (floor_div v 1000) <> " ms" else show_int v <> " µs"

-- `lines` numbered from i
sub_lines : ℕ → List String → List String
sub_lines i [] = []
sub_lines i (line ∷ lines) =
    ("<text x=\"84\" y=\""
      <> show_nat (50 + i * 16)
      <> "\" font-size=\"12\" fill=\""
      <> ink2
      <> "\">"
      <> line
      <> "</text>")
    ∷ sub_lines (i + 1) lines

-- `head`
unfoldable pub head : ℕ → ℕ → String → List String → List String
unfolding sub_lines
head w h title sub =
    ("<svg xmlns=\"http://www.w3.org/2000/svg\" width=\""
      <> show_nat w
      <> "\" height=\""
      <> show_nat h
      <> "\" viewBox=\"0 0 "
      <> show_nat w
      <> " "
      <> show_nat h
      <> "\" font-family='"
      <> font
      <> "' role=\"img\" aria-label=\""
      <> title
      <> "\">")
    ∷ ("<rect width=\""
        <> show_nat w
        <> "\" height=\""
        <> show_nat h
        <> "\" fill=\""
        <> surf
        <> "\"/>")
    ∷ ("<text x=\"84\" y=\"30\" font-size=\"16\" font-weight=\"600\" fill=\"" <> ink <> "\">"
        <> title <> "</text>")
    ∷ sub_lines 0 sub

-- `sorted(k for k in points if k <= xmax)`
unfoldable pub shown_rates : ℕ → Dict ℤ Point → List ℤ
shown_rates xmax points = sorted leb_ℤ (keep (λ k. leb_ℤ k (pos xmax)) (keys points))

-- The values of v in the loop `while v <= xmax`, with a round of fuel for each.
unfoldable pub ticks : ℕ → ℕ → ℕ → ℕ → List ℕ
ticks zero xmax xstep v = []
ticks (suc fuel) xmax xstep v =
    let rest = ticks fuel xmax xstep (v + xstep) in if leb v xmax then v ∷ rest else []

-- What a chart shows, and its frame: `W`, `H`, `L`, `T`, `PW`, `PH`.
pub record Frame {ℓ} (F : Type ℓ) : Type ℓ where
  pub width : ℕ
  pub height : ℕ
  pub left : ℕ
  pub top : ℕ
  pub plot_width : ℕ
  pub plot_height : ℕ
  pub xmax : ℕ
  pub ylo : F
  pub yhi : F

-- `points[k]`, of a key that is there
abbrev pub point_at : Dict ℤ Point → ℤ → Point
point_at points k = elim (get k points) [ none ↦ (pos 0, pos 0) | some p ↦ p ]

module _ {ℓ} {F : Type ℓ} ⦃f : Float F⦄ (frame : Frame F) where
  abbrev of_nat : ℕ → F
  of_nat n = f.of_int (pos n)

  -- `T + PH`, and `L + PW`
  abbrev pub bottom : ℕ
  bottom = frame.top + frame.plot_height

  abbrev pub right : ℕ
  right = frame.left + frame.plot_width

  -- `xm`
  unfoldable pub xm : ℤ → F
  xm v =
      f.add (of_nat frame.left)
        (f.mul (of_nat frame.plot_width) (f.div (f.of_int v) (of_nat frame.xmax)))

  -- `ym`
  unfoldable pub ym : ℤ → F
  ym v =
      let one_up = if ltb_ℤ v (pos 1) then pos 1 else v in
      f.add (of_nat frame.top) (
        f.mul (of_nat frame.plot_height) (
          f.sub (of_nat 1)
            (f.div (f.sub (f.log10 (f.of_int one_up)) frame.ylo) (f.sub frame.yhi frame.ylo))))

  -- `sat`: `ach < 0.99 * k`
  unfoldable pub fell_behind : ℤ → ℤ → Bool
  fell_behind ach k = not (f.int_ge ach (f.mul (f.lit 99 2) (f.of_int k)))

  -- `f"{xm(k):.1f},{ym(points[k][0]):.1f}"`
  abbrev xy : Dict ℤ Point → ℤ → String
  xy points k = f.fixed 1 (xm k) <> "," <> f.fixed 1 (ym ((point_at points k).0))

  -- the path's points: "M" at the first rate, "L" at the others
  path_rest : Dict ℤ Point → List ℤ → String
  path_rest points [] = ""
  path_rest points (k ∷ ks) = " L" <> xy points k <> path_rest points ks

  unfoldable pub path_data : Dict ℤ Point → List ℤ → String
  unfolding path_rest
  path_data points [] = ""
  path_data points (k ∷ ks) = "M" <> xy points k <> path_rest points ks

  -- a marker: filled, or hollow where the cluster fell behind
  unfoldable pub marker_line : String → Dict ℤ Point → ℤ → String
  marker_line col points k =
      let (val, ach) = point_at points k in
      let sat = fell_behind ach k in
      "<circle cx=\""
      <> f.fixed 1 (xm k)
      <> "\" cy=\""
      <> f.fixed 1 (ym val)
      <> "\" r=\"4.5\" fill=\""
      <> (if sat then surf else col)
      <> "\" stroke=\""
      <> (if sat then col else surf)
      <> "\" stroke-width=\"2\"/>"

  unfoldable pub draw_curve : String → Dict ℤ Point → List String
  draw_curve col points =
      let pts = shown_rates frame.xmax points in
      elim pts [
        | [] ↦ []
        | k ∷ ks ↦
            ("<path d=\""
              <> path_data points (k ∷ ks)
              <> "\" fill=\"none\" stroke=\""
              <> col
              <> "\" stroke-width=\"2\" stroke-linejoin=\"round\"/>")
            ∷ map (marker_line col points) (k ∷ ks)
      ]

  -- the loop over `zip(series, COLS)`
  unfoldable pub draw_curves : List Curve → List String → List String
  draw_curves [] colours = []
  draw_curves (curve ∷ curves) [] = []
  draw_curves ((label, points) ∷ curves) (col ∷ colours) =
      draw_curve col points ++ draw_curves curves colours
