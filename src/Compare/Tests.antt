-- ===== src/Compare/Tests.antt =====
-- sweep/mkcharts-fleets.py and sweep/mkcharts-multi.py on small inputs.
use raft_tests.Prelude.{
  ◌*◌, ◌≡◌, refl, ◌⊎◌, inl, inr, false, Option, none, some, List, [], ◌∷◌, arith, ◌==◌,
  if◌then◌else◌, String, ok, err, os_error, leb, All, string_dec, string_eq, option_dec, option_eq,
  pair_eq, list_eq, nat_eq, int_eq, ℤ, pos, negsuc, ◌+ℤ◌,
}
use raft_tests.Prelude.{get_elem?}
use mathlib.Core.Path.{subst}
use mathlib.Core.Option.{some-injective, none-ne-some}
use raft_tests.Python.Dict.{Dict, get, append_at, lookup}
use raft_tests.Python.Csv.{Row, int_cell}
use raft_tests.Python.Number.{int_of}
use raft_tests.Python.Float.Millionths.{Millionths, millionths_float}
use raft_tests.Compare.{
  Point, floor_div, sum_by, mean_point, averaged, fleet_point, gateway_point, collect, load_with,
  load_fleet, load_gateways,
}
use raft_tests.Compare.Laws.{IsReadable}
use raft_tests.Compare.Means.{Measured, Reads, points_of, IsEntry}
use raft_tests.Compare.FleetMeans.{FleetSkips, FleetMeasures, load_fleet_means}
use raft_tests.Compare.GatewayMeans.{GatewaySkips, GatewayMeasures, load_gateways_means}
use raft_tests.Compare.Chart.{shown_rates, ticks}
use raft_tests.Compare.Ticks.{ticks-get_elem?}
use raft_tests.Compare.Fleets
use raft_tests.Compare.Fleets.{Disk, paired_file}
use raft_tests.Compare.Gateways
use raft_tests.Compare.Scripts.{Writes, fleets-Outcome, gateways-Writes}
use raft_tests.Compare.Rates.{IsRising, load_fleet-IsRising}

rounds_down :
    (floor_div (negsuc 6) 2 ≡ negsuc 3)
    × (floor_div (pos 7) 2 ≡ pos 3)
    × (floor_div (negsuc 5) 2 ≡ negsuc 2)
unfolding floor_div
rounds_down = (refl, refl, refl)

abbrev row_of : String → String → String → String → List String
row_of product rate achieved p50 =
    product ∷ rate ∷ achieved ∷ p50 ∷ "1" ∷ "1" ∷ "1" ∷ "1" ∷ "1" ∷ "0" ∷ []

abbrev rows : List (List String)
rows =
    row_of "product" "rate" "achieved" "p50"
    ∷ row_of "sequencer" "20000" "19999" "900"
    ∷ row_of "aeron" "20000" "20000" "300"
    ∷ row_of "sequencer" "10000" "10000" "700"
    ∷ row_of "sequencer" "20000" "19998" "901"
    ∷ ("sequencer" ∷ "20000" ∷ [])
    ∷ []

abbrev loaded : Dict ℤ Point
loaded = (pos 20000, (pos 900, pos 19998)) ∷ (pos 10000, (pos 700, pos 10000)) ∷ []

loads : load_fleet (some rows) "sequencer" ≡ ok loaded
unfolding load_fleet load_with collect fleet_point averaged mean_point sum_by floor_div append_at
    int_cell int_of int_eq string_eq string_dec option_eq option_dec nat_eq ◌+ℤ◌
loads = refl

rows-IsReadable : All (IsReadable (fleet_point "sequencer")) rows
unfolding fleet_point int_cell int_of int_eq string_eq string_dec option_eq option_dec nat_eq
rows-IsReadable = (
  (none, refl),
  (
    (some (pos 20000, (pos 900, pos 19999)), refl),
    (
      (none, refl),
      (
        (some (pos 10000, (pos 700, pos 10000)), refl),
        ((some (pos 20000, (pos 901, pos 19998)), refl), ((none, refl), tt)),
      ),
    ),
  ),
)

-- what the rows say: the header, another product and a short row say nothing
abbrev measured : List (Option Measured)
measured =
    none
    ∷ some (pos 20000, pos 900, pos 19999)
    ∷ none
    ∷ some (pos 10000, pos 700, pos 10000)
    ∷ some (pos 20000, pos 901, pos 19998)
    ∷ none
    ∷ []

differ : (a b : String) → (a == b) ≡ false → some a ≡ some b → ⊥
differ a b h e = ground (arith, h, e)

rows-Reads : Reads (FleetSkips "sequencer") (FleetMeasures "sequencer") rows measured
unfolding int_of string_eq string_dec nat_eq
rows-Reads = (
  inr (λ h. differ "product" "sequencer" refl h),
  (
    (omega arith, refl, ("20000", refl, refl), ("900", refl, refl), ("19999", refl, refl)),
    (
      inr (λ h. differ "aeron" "sequencer" refl h),
      (
        (omega arith, refl, ("10000", refl, refl), ("700", refl, refl), ("10000", refl, refl)),
        (
          (omega arith, refl, ("20000", refl, refl), ("901", refl, refl), ("19998", refl, refl)),
          (inl (omega arith), tt),
        ),
      ),
    ),
  ),
)

load_fleet_means_example :
    (d : Dict ℤ Point) × (load_fleet (some rows) "sequencer" ≡ ok d)
    × ((k : ℤ) → IsEntry (points_of k measured) (get k d))
load_fleet_means_example = load_fleet_means rows "sequencer" measured rows-Reads

load_fleet-IsRising_example : IsRising (shown_rates 210000 loaded)
load_fleet-IsRising_example = load_fleet-IsRising (some rows) "sequencer" 210000 loads

abbrev gateway_rows : List Row
gateway_rows =
    (("product", some "multi")
      ∷ ("rate", some "300000")
      ∷ ("achieved", some "299000")
      ∷ ("p99", some "5000")
      ∷ [])
    ∷ (("product", some "multi")
        ∷ ("rate", some "400000")
        ∷ ("achieved", some "0")
        ∷ ("p99", some "")
        ∷ [])
    ∷ []

gateways_load :
    load_gateways (some gateway_rows) "multi" "p99" ≡ ok ((pos 300000, (pos 5000, pos 299000)) ∷ [])
unfolding load_gateways load_with collect gateway_point lookup get averaged mean_point sum_by
    floor_div append_at int_cell int_of int_eq string_eq string_dec option_eq option_dec nat_eq ◌+ℤ◌
gateways_load = refl

gateway_rows-Reads :
    Reads
      (GatewaySkips "multi" "p99")
      (GatewayMeasures "multi" "p99")
      gateway_rows
      (some (pos 300000, pos 5000, pos 299000) ∷ none ∷ [])
unfolding get int_of string_eq string_dec nat_eq
gateway_rows-Reads = (
  (refl, ("300000", refl, refl), ("5000", refl, refl), ("299000", refl, refl)),
  (inr (refl, inr refl), tt),
)

load_gateways_means_example :
    (d : Dict ℤ Point) × (load_gateways (some gateway_rows) "multi" "p99" ≡ ok d)
    × ((k : ℤ)
        → IsEntry (points_of k (some (pos 300000, pos 5000, pos 299000) ∷ none ∷ [])) (get k d))
load_gateways_means_example =
    load_gateways_means gateway_rows "multi" "p99"
      (some (pos 300000, pos 5000, pos 299000) ∷ none ∷ []) gateway_rows-Reads

ticks-get_elem?_example :
    get_elem? (ticks 210001 210000 50000 0) 4
    ≡ (if leb (4 * 50000) 210000 then some (4 * 50000) else none)
ticks-get_elem?_example = ticks-get_elem? 210000 50000 4 (omega arith)

-- only one file is there
abbrev disk : Disk
disk path = if path == "sequencer/fleets/ack-c7a-2xlarge.csv" then some rows else none

nothing :
    (P : List (List String) → Type 0) (lines : List (List String)) → none ≡ some lines → P lines
nothing P lines there = absurd (none-ne-some lines there)

fleets-Outcome_example :
    (((lines : List (List String)) × (disk paired_file ≡ some lines))
      × Writes (Fleets.run Millionths disk "docs") (
          "fleet-instance-types.svg" ∷ "fleet-ack-vs-dissemination.svg" ∷ "fleet-aeron-vendor.svg"
          ∷ []))
    ⊎ ((disk paired_file ≡ none) × (Fleets.run Millionths disk "docs" ≡ err os_error))
unfolding string_eq string_dec
fleets-Outcome_example =
    fleets-Outcome Millionths disk "docs"
      (
        (λ found there.
            subst (All (IsReadable (fleet_point "sequencer"))) (some-injective rows found there)
              rows-IsReadable),
        (nothing _, (nothing _, (nothing _, tt))),
      )
      (nothing _, (nothing _, (nothing _, (nothing _, tt)))) (nothing _) (nothing _)

gateways-Writes_example :
    Writes
      (Gateways.run Millionths disk "docs")
      ("multi-gateway-p50.svg" ∷ "multi-gateway-p99.svg" ∷ [])
unfolding string_eq string_dec
gateways-Writes_example =
    gateways-Writes Millionths disk "docs" (nothing _, (nothing _, (nothing _, (nothing _, tt))))
      (nothing _, (nothing _, (nothing _, (nothing _, tt))))
