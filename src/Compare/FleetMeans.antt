-- ===== src/Compare/FleetMeans.antt =====
-- sweep/mkcharts-fleets.py: the means that `load` returns, from the rows' own fields.
use raft_tests.Prelude.{
  ◌≤◌, ◌<◌, ◌≡◌, refl, ◌≢◌, ◌⊎◌, inl, inr, true, false, Option, none, some, List, arith, ◌==◌,
  String, ok, ◌>>=◌, ltb, length, string_eq, option_eq, pair_eq, list_eq, nat_eq, int_eq, ℤ,
}
use raft_tests.Prelude.{get_elem?}
use raft_tests.Python.Dict.{Dict, get}
use raft_tests.Python.Csv.{int_cell}
use raft_tests.Compare.{Point, fleet_point, load_fleet}
use raft_tests.Compare.Laws.{load_fleet_lem}
use raft_tests.Compare.Means.{
  Measured, Holds, Reads, points_of, IsEntry, mean_of-IsEntry, Reads-IsReadable,
  points_at-points_of,
}

-- The fleets script skips a row of less than ten fields, or whose first is not the product.
abbrev pub FleetSkips : String → List String → Type 0
FleetSkips product row = (length row < 10) ⊎ (get_elem? row 0 ≢ some product)

-- Fields 1, 3 and 2 of a row of at least ten are its rate, its p50 and its achieved rate.
abbrev pub FleetMeasures : String → List String → Measured → Type 0
FleetMeasures product row (rate, p50, achieved) =
    (10 ≤ length row)
    × (get_elem? row 0 ≡ some product)
    × Holds (get_elem? row 1) rate
    × Holds (get_elem? row 3) p50
    × Holds (get_elem? row 2) achieved

fleet_skips :
    (product : String) (row : List String)
    → FleetSkips product row
    → fleet_point product row ≡ ok none
unfolding fleet_point
fleet_skips product row (inl short) = ground (arith, short)
fleet_skips product row (inr other) = ground (arith, other)

fleet_finds :
    (product : String) (row : List String) (rate p50 achieved : ℤ)
    → FleetMeasures product row (rate, p50, achieved)
    → fleet_point product row ≡ ok (some (rate, (p50, achieved)))
unfolding fleet_point int_cell
fleet_finds product row rate p50 achieved
      (long, is_product, (s, es, ns), (t, et, nt), (u, eu, nu)) =
    rw (is_long, is_product, same product, es, ◌>>=◌, ns, et, nt, eu, nu) refl
  where
    is_long : ltb (length row) 10 ≡ false
    is_long = ground (arith, long)

    same : (p : String) → (some p == some p) ≡ true
    same p = ground arith

-- Let `ms` say of each row either that it is skipped, and let it have less than ten fields or another first field than
-- the product; or a rate, a latency and an achieved rate, and let the row have at least ten fields, first the product,
-- and in its fields 1, 3 and 2 these ints. Then the fleets script's `load` returns, and the entry of a rate is the mean
-- of the latencies and the mean of the achieved rates, both rounded down, of just the rows with that rate; without such
-- a row there is none.
pub load_fleet_means :
    (rows : List (List String)) (product : String) (ms : List (Option Measured))
    → Reads (FleetSkips product) (FleetMeasures product) rows ms
    → (d : Dict ℤ Point) × (load_fleet (some rows) product ≡ ok d)
      × ((k : ℤ) → IsEntry (points_of k ms) (get k d))
load_fleet_means rows product ms reads =
    let readable =
      Reads-IsReadable (FleetSkips product) (FleetMeasures product) (fleet_point product)
        (fleet_skips product) (fleet_finds product) rows ms reads in
    let (d, loads, entries) = load_fleet_lem rows product readable in
    (
      d,
      loads,
      λ k.
          rw
            (
              entries k,
              points_at-points_of (FleetSkips product) (FleetMeasures product) (fleet_point product)
                  (fleet_skips product) (fleet_finds product) k rows ms reads,
            )
            (mean_of-IsEntry (points_of k ms)),
    )
