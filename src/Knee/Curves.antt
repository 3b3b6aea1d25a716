-- ===== src/Knee/Curves.antt =====
-- sweep/mkcharts.py: the combined chart of the three raft implementations.
pub mod Total
use raft_tests.Prelude.{
  ◌-◌, none, some, List, [], ◌∷◌, ◌++◌, map, ◌==◌, contains, if◌then◌else◌, String, Result, ok, err,
  stop_iteration, gather, ◌>>=◌, keep, string_eq, option_eq, pair_eq, list_eq, nat_eq, int_eq, ℤ,
  pos, negsuc, ltb_ℤ,
}
use raft_tests.Svg.{text}
use raft_tests.Python.Dict.{Dict, keys, lookup}
use raft_tests.Python.Float.{Float}
use raft_tests.Knee.Style.{ink, ink2, c1, c2, c3}
use raft_tests.Knee.Rows.{Product, Entry}
use raft_tests.Knee.Legend.{Item, legend}
use raft_tests.Knee.Draw.{Plot, show_latency, head, axes, xm, ym, series}
use raft_tests.Knee.Product.{Svg, entries_of, last_entry}

-- the first element of a value of `LABEL_AT`
pub data Anchor : Type 0 where
  last : Anchor
  at_rate : ℤ → Anchor

-- A name of the chart, its colour and its value of `LABEL_AT`: the point, dx and dy.
pub record Implementation : Type 0 where
  pub name : String
  pub col : String
  pub anchor : Anchor
  pub dx : ℤ
  pub dy : ℤ

unfoldable pub implementations : List Implementation
implementations =
    record { name = "aeron"; col = c1; anchor = last; dx = pos 12; dy = pos 4 }
    ∷ record { name = "braft"; col = c2; anchor = at_rate (pos 250000); dx = pos 12; dy = negsuc 7 }
    ∷ record {
      name = "openraft";
      col = c3;
      anchor = at_rate (pos 85000);
      dx = negsuc 11;
      dy = pos 4;
    }
    ∷ []

-- `present`
unfoldable pub present_in : Dict Product (List Entry) → List Implementation → List Implementation
present_in d them = keep (λ i. contains (keys d) (some i.name)) them

-- `next(p for p in entries if p["rate"]==at)`
unfoldable pub entry_at : ℤ → List Entry → Result Entry
entry_at n [] = err stop_iteration
entry_at n (p ∷ ps) = do
  rate ← lookup "rate" p
  let more = entry_at n ps
  if rate == n then ok p else more

-- `pt`
unfoldable pub labelled_entry : Anchor → List Entry → Result Entry
labelled_entry last entries = last_entry entries
labelled_entry (at_rate n) entries = entry_at n entries

module _ {ℓ} (F : Type ℓ) ⦃f : Float F⦄ where
  -- `W,H,L,R,T,B=900,500,78,150,78,74`, and the scales
  unfoldable pub curves_plot : Plot F
  curves_plot = record {
    left = pos 78;
    top = pos 78;
    plot_width = pos (900 - 78 - 150);
    plot_height = pos (500 - 78 - 74);
    xmax = pos 650000;
    ylo = f.log10 (f.lit 4200 1);
    yhi = f.log10 (f.lit 160000 1);
  }

  -- the body of the loop over `present`
  unfoldable pub draw_implementation :
      Dict Product (List Entry) → Implementation → Result (List String)
  draw_implementation d i = do
    entries ← entries_of d i.name
    curve ← series curves_plot entries i.col "p50"
    pt ← labelled_entry i.anchor entries
    rate ← lookup "rate" pt
    x ← xm curves_plot rate
    p50 ← lookup "p50" pt
    y ← ym curves_plot p50
    let turned : List (String × String) =
        if ltb_ℤ i.dx (pos 0) then ("text-anchor", "end") ∷ [] else []
    let place =
        ("x", f.fixed 1 (f.add x (f.of_int i.dx)))
        ∷ ("y", f.fixed 1 (f.add y (f.of_int i.dy)))
        ∷ ("font-size", "12")
        ∷ []
    ok (
        curve
        ++ (text (place ++ (turned ++ (("font-weight", "600") ∷ ("fill", ink) ∷ []))) i.name ∷ []))

  -- `knee-curves.svg`, which is written if one of the three is there
  unfoldable pub knee_curves : Dict Product (List Entry) → Result (List Svg)
  knee_curves d = do
    let here = present_in d implementations
    grid ←
        axes curves_plot 100000 (pos 500 ∷ pos 1000 ∷ pos 2000 ∷ pos 5000 ∷ pos 10000 ∷ [])
          "p50 latency (log scale)" show_latency
    curves ← gather (draw_implementation d) here
    let items : List Item = map (λ i. (i.name, i.col)) here
    let lines =
        head (pos 900) (pos 500)
          "Flat, then a knee: three raft implementations under open-loop load"
          ("p50 latency vs offered rate, 3-node multi-AZ cluster on EC2. Log latency scale."
            ∷ "Hollow marker = the cluster no longer kept up with the offered rate." ∷ [])
        ++ (grid ++ (curves ++ (legend F ink2 (pos 78) (pos 500) items none ++ ("</svg>" ∷ []))))
    ok (elim here [ [] ↦ [] | _ ∷ _ ↦ ("knee-curves.svg", lines) ∷ [] ])
