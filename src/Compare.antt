-- ===== src/Compare.antt =====
-- sweep/mkcharts-fleets.py and sweep/mkcharts-multi.py: the points of a series, read from a sweep's file.
-- A file is `none` where the path does not exist.
pub mod Laws
pub mod Means
pub mod FleetMeans
pub mod GatewayMeans
pub mod Chart
pub mod Plot
pub mod Ticks
pub mod Rates
pub mod Fleets
pub mod Gateways
pub mod Scripts
mod Tests
use raft_tests.Prelude.{
  get_elem?, ℕ, ◌/◌, Bool, false, not, ◌||◌, Option, none, some, List, [], ◌∷◌, map, arith, ◌==◌,
  if◌then◌else◌, String, Result, ok, err, index_error, ◌>>=◌, ltb, length, string_eq, option_eq,
  pair_eq, list_eq, nat_eq, int_eq, ℤ, pos, negsuc, ◌+ℤ◌, int_laws,
}
use raft_tests.Python.Dict.{Dict, lookup, append_at}
use raft_tests.Python.Csv.{Cell, Row, int_cell}

-- A latency and the rate that was achieved.
abbrev pub Point : Type 0
Point = ℤ × ℤ

-- `a // n` for n above zero: it rounds down, below zero too.
unfoldable pub floor_div : ℤ → ℕ → ℤ
floor_div (pos a) n = pos (a / n)
floor_div (negsuc a) n = negsuc (a / n)

unfoldable pub sum_by : (Point → ℤ) → List Point → ℤ
sum_by of [] = pos 0
sum_by of (p ∷ ps) = of p +ℤ sum_by of ps

-- the pair of means of a rate's points
unfoldable pub mean_point : List Point → Point
mean_point v =
    (floor_div (sum_by (λ p. p.0) v) (length v), floor_div (sum_by (λ p. p.1) v) (length v))

unfoldable pub averaged : Dict ℤ (List Point) → Dict ℤ Point
averaged acc = map (λ kv. (kv.0, mean_point (kv.1))) acc

-- `int(row[i])`
abbrev int_at : List String → ℕ → Result ℤ
int_at row i = elim (get_elem? row i) [ none ↦ err index_error | some s ↦ int_cell (some s) ]

-- The fleets script reads by position: `(rate, (p50, achieved))`, or nothing for a row that it skips.
unfoldable pub fleet_point : String → List String → Result (Option (ℤ × Point))
fleet_point product row =
    if ltb (length row) 10 || not (get_elem? row 0 == some product) then ok none else (do
      rate ← int_at row 1
      p50 ← int_at row 3
      achieved ← int_at row 2
      ok (some (rate, (p50, achieved))))

-- `row[col]` is there and not empty.
abbrev has_text : Cell → Bool
has_text none = false
has_text (some s) = not (s == "")

read_point : Row → Cell → Result (Option (ℤ × Point))
read_point row value = do
  rate ← lookup "rate" row >>= int_cell
  measured ← int_cell value
  achieved ← lookup "achieved" row >>= int_cell
  ok (some (rate, (measured, achieved)))

-- `(rate, (row[col], achieved))`, or nothing where the percentile is empty
value_point : String → Row → Result (Option (ℤ × Point))
unfolding read_point
value_point col row = do
  value ← lookup col row
  if not (has_text value) then ok none else read_point row value

-- The multi-gateway script reads by column, and skips a row without the percentile.
unfoldable pub gateway_point : String → String → Row → Result (Option (ℤ × Point))
unfolding value_point read_point
gateway_point product col row = do
  name ← lookup "product" row
  if not (name == some product) then ok none else value_point col row

module _ {ℓ} {R : Type ℓ} (point : R → Result (Option (ℤ × Point))) where
  -- the loop over the rows, with what it reads of a row
  unfoldable pub collect : Dict ℤ (List Point) → List R → Result (Dict ℤ (List Point))
  collect acc [] = ok acc
  collect acc (row ∷ rows) = do
    found ← point row
    collect (elim found [ none ↦ acc | some kp ↦ append_at (kp.0) (kp.1) acc ]) rows

  unfoldable pub load_with : Option (List R) → Result (Dict ℤ Point)
  load_with none = ok []
  load_with (some rows) = do acc ← collect [] rows; ok (averaged acc)

-- `load` of the fleets script
unfoldable pub load_fleet : Option (List (List String)) → String → Result (Dict ℤ Point)
load_fleet file product = load_with (fleet_point product) file

-- `load` of the multi-gateway script
unfoldable pub load_gateways : Option (List Row) → String → String → Result (Dict ℤ Point)
load_gateways file product col = load_with (gateway_point product col) file
