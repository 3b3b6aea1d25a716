-- ===== src/Knee/Script.antt =====
-- sweep/mkcharts.py: the whole script, from the rows to the files that it writes and the line that it prints.
pub mod Charts
pub mod Files
use raft_tests.Prelude.{
  ℕ, Bool, ◌&&◌, some, List, [], ◌∷◌, ◌++◌, map, contains, if◌then◌else◌, String, ◌<>◌, Result, ok,
  ◌>>=◌, leb, length, keep, string_eq, option_eq, pair_eq, list_eq, nat_eq, int_eq,
}
use raft_tests.Python.Dict.{Dict, keys}
use raft_tests.Python.Number.{show_nat}
use raft_tests.Python.Csv.{Row}
use raft_tests.Python.Float.{Float}
use raft_tests.Knee.Rows.{Product, Entry, chart_data}
use raft_tests.Knee.Clash.{Series, check_colours}
use raft_tests.Knee.Product.{Config, Svg, product_charts}
use raft_tests.Knee.Config.{configs}
use raft_tests.Knee.Curves.{implementations, present_in, knee_curves}
use raft_tests.Knee.Panels.Picture.{round_trips_file}
use raft_tests.Knee.Overlay.{overlay_file}

-- `_written`
unfoldable pub written : Dict Product (List Entry) → List (String × Config) → List String
written d cfg = map (λ nc. nc.0) (keep (λ nc. contains (keys d) (some (nc.0))) cfg)

-- `", ".join(parts)`
unfoldable pub join_comma : List String → String
join_comma [] = ""
join_comma (s ∷ []) = s
join_comma (s ∷ t ∷ rest) = s <> ", " <> join_comma (t ∷ rest)

-- `_rt`
unfoldable pub overlay_note : Bool → ℕ → String
overlay_note combined n =
    if combined
    then (if leb 2 n
        then ", round-trips.svg + round-trips-p50.svg (" <> show_nat n <> " round trips)"
        else "")
    else if leb 2 n
    then " (skipped the "
      <> show_nat n
      <> "-series round-trips overlay: pass --combined to write it, and only from a target that hands over EVERY gateway CSV)"
    else ""

-- the printed line; `dir` is `OUT`
unfoldable pub summary : Dict Product (List Entry) → Bool → ℕ → String → String
summary d combined n dir =
    let names = written d configs in
    let curves : String = elim (present_in d implementations) [
      | [] ↦ ""
      | _ ∷ _ ↦ "knee-curves.svg and "
    ] in
    "wrote "
    <> curves
    <> show_nat (length names)
    <> " per-product chart(s) ("
    <> join_comma names
    <> ")"
    <> overlay_note combined n
    <> " to "
    <> dir

module _ {ℓ} (F : Type ℓ) ⦃f : Float F⦄ where
  -- the two files of the round trips
  unfoldable pub combined_files : Bool → Dict Product (List Entry) → List Series → Result (List Svg)
  combined_files combined d rt_present =
      let both = (do
        panels ← round_trips_file F d rt_present
        overlay ← overlay_file F d rt_present
        ok (panels ∷ overlay ∷ [])) in
      if combined && leb 2 (length rt_present) then both else ok []

  -- The files in the order in which they are written, and the printed line. A run that raises has written the
  -- files before the exception, which are not kept here.
  unfoldable pub run : List Row → Bool → String → Result (List Svg × String)
  run rows combined dir = do
    d ← chart_data rows
    curves ← knee_curves F d
    products ← product_charts F d configs
    rt_present ← check_colours d
    overlays ← combined_files combined d rt_present
    ok (curves ++ (products ++ overlays), summary d combined (length rt_present) dir)
