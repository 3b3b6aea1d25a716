-- ===== src/Compare/Gateways.antt =====
-- sweep/mkcharts-multi.py: the script, from the files that it reads to the charts that it writes.
use raft_tests.Prelude.{
  ℕ, none, some, List, [], ◌∷◌, String, ◌<>◌, Result, ok, ◌>>=◌, map_result, string_eq, option_eq,
  pair_eq, list_eq, nat_eq, int_eq, ℤ, pos,
}
use raft_tests.Python.Csv.{dict_reader}
use raft_tests.Python.Float.{Float}
use raft_tests.Compare.{load_gateways}
use raft_tests.Compare.Chart.{Curve, us}
use raft_tests.Compare.Plot.{Request, gateways_chart}
use raft_tests.Compare.Fleets.{Disk}

-- a labelled series, `(label, load(path, product, col))`
unfoldable pub read_curve : Disk → String → String × String × String → Result Curve
read_curve disk col (label, path, product) = do
  points ←
      load_gateways (elim (disk path) [ none ↦ none | some lines ↦ some (dict_reader lines) ])
        product col
  ok (label, points)

-- the series of a chart: label, path (`B`, `M`, `F`, `G`) and product
abbrev pub gateway_files : List (String × String × String)
gateway_files =
    (
      "1 gateway - 8-vCPU clients, 8-vCPU nodes", "sequencer/seq-multi-baseline.csv",
      "sequencer-multi1",
    )
    ∷ ("5 gateways - 8-vCPU clients, 8-vCPU nodes", "sequencer/seq-multi.csv", "sequencer-multi")
    ∷ (
      "5 gateways - 4-vCPU clients, 8-vCPU nodes", "sequencer/seq-multi-4core.csv",
      "sequencer-multi-4c",
    )
    ∷ (
      "5 gateways - 8-vCPU clients, 16-vCPU nodes", "sequencer/seq-multi-bignode.csv",
      "sequencer-multi-16c",
    )
    ∷ []

-- `SUB`
abbrev sub_text : List String
sub_text =
    "One fleet, one leader (pinned to the node the clients share an AZ and placement group"
    ∷ "with), identical rig settings and the same 100 sender threads in total throughout."
    ∷ "Percentiles come from merging every client's raw histogram, not from averaging theirs."
    ∷ "Hollow marker = the cluster fell behind the offered rate." ∷ []

abbrev knees : List (ℤ × String × ℕ)
knees = (pos 137000, "1-gateway knee", 16) ∷ (pos 360000, "5-gateway knee", 32) ∷ []

module _ {ℓ} (F : Type ℓ) ⦃f : Float F⦄ where
  unfoldable pub p50_chart : List Curve → Request F
  p50_chart series = record {
    title = "Gateway count moves the knee; node size moves the tail";
    sub = sub_text;
    series = series;
    xmax = 470000;
    xstep = 50000;
    yrange = (f.lit 5000 1, f.lit 600000 1);
    yticks = pos 600 ∷ pos 800 ∷ pos 1000 ∷ pos 2000 ∷ pos 5000 ∷ pos 20000 ∷ [];
    fmt = us;
    band_at = some (pos 1000);
    band_label = some "1 ms";
    markers = knees;
  }

  unfoldable pub p99_chart : List Curve → Request F
  p99_chart series = record {
    title = "The same split, at p99";
    sub = sub_text;
    series = series;
    xmax = 470000;
    xstep = 50000;
    yrange = (f.lit 6000 1, f.lit 2000000 1);
    yticks = pos 1000 ∷ pos 2000 ∷ pos 5000 ∷ pos 20000 ∷ pos 100000 ∷ [];
    fmt = us;
    band_at = none;
    band_label = none;
    markers = knees;
  }

  -- The script: the files in `OUT`, by their names, and the printed line.
  unfoldable pub run : Disk → String → Result (List (String × List String) × String)
  run disk dir = do
    p50 ← map_result (read_curve disk "p50") gateway_files
    p99 ← map_result (read_curve disk "p99") gateway_files
    ok (
      ("multi-gateway-p50.svg", gateways_chart (p50_chart p50))
          ∷ ("multi-gateway-p99.svg", gateways_chart (p99_chart p99))
          ∷ [],
      "wrote multi-gateway-p50.svg, multi-gateway-p99.svg to " <> dir,
    )
