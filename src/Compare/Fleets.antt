-- ===== src/Compare/Fleets.antt =====
-- sweep/mkcharts-fleets.py: the script, from the files that it reads to the charts that it writes.
use raft_tests.Prelude.{
  Bool, false, not, ◌&&◌, Option, none, some, List, [], ◌∷◌, map, ◌==◌, if◌then◌else◌, String, ◌<>◌,
  Result, ok, err, os_error, ◌>>=◌, map_result, string_eq, option_eq, pair_eq, list_eq, nat_eq,
  int_eq, ℤ, pos, leb_ℤ,
}
use raft_tests.Python.Dict.{Dict, get, lookup, insert}
use raft_tests.Python.Csv.{Cell, Row, dict_reader, int_cell}
use raft_tests.Python.Number.{show_int}
use raft_tests.Python.Float.{Float}
use raft_tests.Compare.{Point, floor_div, load_fleet}
use raft_tests.Compare.Chart.{Curve, us}
use raft_tests.Compare.Plot.{Request, fleet_chart}

-- The lines of a CSV file, split into fields; `none` where the path does not exist. Paths are those below `ROOT`.
abbrev pub Disk : Type 0
Disk = String → Option (List (List String))

-- `open(path)` of a file that `DictReader` reads
unfoldable pub open_rows : Disk → String → Result (List Row)
open_rows disk path = elim (disk path) [ none ↦ err os_error | some lines ↦ ok (dict_reader lines) ]

-- the truth of `row[col]`
abbrev pub is_filled : Cell → Bool
is_filled none = false
is_filled (some s) = not (s == "")

-- the loop that builds `paired`
unfoldable pub pair_rows : Dict ℤ (ℤ × ℤ) → List Row → Result (Dict ℤ (ℤ × ℤ))
pair_rows paired [] = ok paired
pair_rows paired (row ∷ rows) = do
  ack ← lookup "ack_p50" row
  diss ← (if is_filled ack then lookup "diss_p50" row else ok none)
  let skip = pair_rows paired rows
  let take = (do
    a ← int_cell ack
    d ← int_cell diss
    rate ← lookup "rate" row >>= int_cell
    pair_rows (insert rate (a, d) paired) rows)
  if is_filled ack && is_filled diss then take else skip

-- `ach.get(k, (0, k))[1]`
unfoldable pub achieved_at : Dict ℤ Point → ℤ → ℤ
achieved_at ach k = elim (get k ach) [ none ↦ k | some p ↦ p.1 ]

-- `ack_s` and `dis_s`, by the part of the pair that they take
unfoldable pub side : (ℤ × ℤ → ℤ) → Dict ℤ Point → Dict ℤ (ℤ × ℤ) → Dict ℤ Point
side part ach paired = map (λ kv. (kv.0, (part (kv.1), achieved_at ach (kv.0)))) paired

module _ (disk : Disk) where
  -- a labelled series, `(label, load(path, product))`
  unfoldable pub read_curve : String → String × String → Result Curve
  read_curve product (label, path) = do points ← load_fleet (disk path) product; ok (label, points)

  unfoldable pub read_curves : String → List (String × String) → Result (List Curve)
  read_curves product files = map_result (read_curve product) files

abbrev pub instance_files : List (String × String)
instance_files =
    ("c7a.2xlarge (AMD Genoa, 8 vCPU)", "sequencer/fleets/ack-c7a-2xlarge.csv")
    ∷ ("c7a.4xlarge (AMD Genoa, 16 vCPU)", "sequencer/fleets/ack-c7a-4xlarge.csv")
    ∷ ("c6in.4xlarge (Intel Ice Lake, network-optimised)", "sequencer/fleets/ack-c6in-4xlarge.csv")
    ∷ ("c7i.4xlarge (Intel Sapphire Rapids)", "sequencer/fleets/ack-c7i-4xlarge.csv")
    ∷ []

abbrev pub aeron_files : List (String × String)
aeron_files =
    ("c6i.2xlarge (Intel Ice Lake, 8 vCPU)", "sweep/knee-sweep-c6i.csv")
    ∷ ("c7a.2xlarge (AMD Genoa, 8 vCPU)", "aeron/aeron.csv")
    ∷ (
      "c6in.4xlarge (Intel Ice Lake, network-optimised)", "sequencer/fleets/aeron-c6in-4xlarge.csv",
    )
    ∷ ("c7i.4xlarge (Intel Sapphire Rapids)", "sequencer/fleets/aeron-c7i-4xlarge.csv")
    ∷ []

abbrev pub paired_file : String
paired_file = "sequencer/fleets/paired-c7a-2xlarge-brpc.csv"

abbrev pub dissemination_file : String
dissemination_file = "sequencer/fleets/paired-c7a-2xlarge-brpc-dissemination.csv"

-- `lambda v: f"{v} us"`, and the other `fmt` with its plain unit
abbrev plain_us : ℤ → String
plain_us v = show_int v <> " us"

abbrev shared_ms : ℤ → String
shared_ms v = if leb_ℤ (pos 1000) v then show_int (floor_div v 1000) <> " ms" else plain_us v

module _ {ℓ} (F : Type ℓ) ⦃f : Float F⦄ where
  unfoldable pub instance_chart : List Curve → Request F
  instance_chart series = record {
    title = "sequencer ack path across four instance types";
    sub =
        "p50 vs offered rate, 3-node multi-AZ, identical code and sweep throughout. Log scale."
        ∷ "No instance type broke the ~1 ms floor. c7i reaches the highest rate, c6in the lowest,"
        ∷ "and 16 vCPU is no better than 8 - at the knee the raft leader measured 99.6% idle."
        ∷ "Hollow marker = the cluster fell behind the offered rate." ∷ [];
    series = series;
    xmax = 210000;
    xstep = 50000;
    yrange = (f.lit 6000 1, f.lit 3000000 1);
    yticks = pos 1000 ∷ pos 2000 ∷ pos 5000 ∷ pos 20000 ∷ pos 100000 ∷ [];
    fmt = us;
    band_at = some (pos 1000);
    band_label = none;
    markers = [];
  }

  unfoldable pub crossover_chart : Dict ℤ Point → Dict ℤ (ℤ × ℤ) → Request F
  crossover_chart ach paired = record {
    title = "Ack vs dissemination, measured in the same runs - they cross over near 85k";
    sub =
        "c7a.2xlarge (AMD Genoa, 8 vCPU), brpc output gateway. Leader-to-faster-follower RTT 535 us."
        ∷ "Both p50s come from one load-generator run per rate, so this carries no observer-effect confound."
        ∷ "Below ~85k the ack wins: dissemination pays a journal tail plus a hop, and the gateway is unloaded."
        ∷ "Above it the ack pays the loaded gateway twice, inbound and outbound. Both collapse together at 140k."
        ∷ [];
    series =
        ("synchronous ack", side (λ p. p.0) ach paired)
        ∷ ("dissemination (brpc output gateway)", side (λ p. p.1) ach paired)
        ∷ [];
    xmax = 145000;
    xstep = 25000;
    yrange = (f.lit 5600 1, f.lit 40000 1);
    yticks = pos 600 ∷ pos 800 ∷ pos 1000 ∷ pos 1500 ∷ pos 2000 ∷ pos 3000 ∷ [];
    fmt = plain_us;
    band_at = some (pos 1000);
    band_label = some "1 ms";
    markers = (pos 87000, "crossover", 16) ∷ [];
  }

  unfoldable pub vendor_chart : List Curve → Request F
  vendor_chart series = record {
    title = "Aeron regressed on AMD and recovers on Intel";
    sub =
        "p50 vs offered rate, same Aeron Cluster build and 3-node multi-AZ layout throughout. Log scale."
        ∷ "AMD Genoa steps up at 290k and never recovers; both Intel fleets stay flat past 400k."
        ∷ "Hollow marker = the cluster fell behind the offered rate." ∷ [];
    series = series;
    xmax = 720000;
    xstep = 100000;
    yrange = (f.lit 4200 1, f.lit 60000 1);
    yticks = pos 500 ∷ pos 700 ∷ pos 1000 ∷ pos 2000 ∷ pos 5000 ∷ [];
    fmt = shared_ms;
    band_at = none;
    band_label = none;
    markers = [];
  }

  -- The script: the files in `OUT`, by their names, and the printed line.
  unfoldable pub run : Disk → String → Result (List (String × List String) × String)
  run disk dir = do
    types ← read_curves disk "sequencer" instance_files
    rows ← open_rows disk paired_file
    paired ← pair_rows [] rows
    ach ← load_fleet (disk dissemination_file) "sequencer-output-brpc"
    vendors ← read_curves disk "aeron" aeron_files
    ok (
      ("fleet-instance-types.svg", fleet_chart (instance_chart types))
          ∷ ("fleet-ack-vs-dissemination.svg", fleet_chart (crossover_chart ach paired))
          ∷ ("fleet-aeron-vendor.svg", fleet_chart (vendor_chart vendors))
          ∷ [],
      "wrote fleet-instance-types.svg, fleet-ack-vs-dissemination.svg, fleet-aeron-vendor.svg to "
          <> dir,
    )
