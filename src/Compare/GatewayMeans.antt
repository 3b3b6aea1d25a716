-- ===== src/Compare/GatewayMeans.antt =====
-- sweep/mkcharts-multi.py: the means that `load` returns, from the rows' own columns.
use raft_tests.Prelude.{
  ◌≡◌, refl, sym, ◌∙◌, ◌≢◌, ◌⊎◌, inl, inr, true, false, Option, none, some, List, arith, ◌==◌,
  String, ok, ◌>>=◌, Bool-cases, string_eq, option_eq, pair_eq, list_eq, nat_eq, int_eq, ℤ,
}
use raft_tests.Python.Dict.{Dict, get, lookup}
use raft_tests.Python.Csv.{Row, Cell, int_cell}
use raft_tests.Python.Number.{int_of}
use raft_tests.Python.Text.{codes}
use mathlib.Core.Option.{none-ne-some}
use raft_tests.Compare.{Point, gateway_point, load_gateways}
use raft_tests.Compare.Laws.{load_gateways_lem}
use raft_tests.Compare.Means.{
  Measured, Reads, points_of, IsEntry, mean_of-IsEntry, Reads-IsReadable, points_at-points_of,
}

-- The multi-gateway script skips a row of another product, or one whose percentile is missing or empty.
abbrev pub GatewaySkips : String → String → Row → Type 0
GatewaySkips product col row =
    ((c : Cell) × (get "product" row ≡ some c) × (c ≢ some product))
    ⊎ ((get "product" row ≡ some (some product))
        × ((get col row ≡ some none) ⊎ (get col row ≡ some (some ""))))

-- The column is there and holds an int.
abbrev pub HoldsAt : String → Row → ℤ → Type 0
HoldsAt name row n = (s : String) × (get name row ≡ some (some s)) × (int_of (codes s) ≡ some n)

-- A row of the product has its rate, the percentile and its achieved rate in the columns of these names.
abbrev pub GatewayMeasures : String → String → Row → Measured → Type 0
GatewayMeasures product col row (rate, value, achieved) =
    (get "product" row ≡ some (some product))
    × HoldsAt "rate" row rate
    × HoldsAt col row value
    × HoldsAt "achieved" row achieved

same_cell : (c : Cell) → (c == c) ≡ true
same_cell c = ground arith

gateway_skips :
    (product col : String) (row : Row)
    → GatewaySkips product col row
    → gateway_point product col row ≡ ok none
unfolding gateway_point lookup string_eq
gateway_skips product col row (inl (c, e, other)) =
    let differs : (c == some product) ≡ false = ground (arith, other) in rw (e, ◌>>=◌, differs) refl
gateway_skips product col row (inr (e, inl missing)) =
    rw (e, ◌>>=◌, same_cell (some product), missing) refl
gateway_skips product col row (inr (e, inr empty)) =
    rw (e, ◌>>=◌, same_cell (some product), empty) refl

-- What parses as an int is not empty.
text_of_int : (s : String) (n : ℤ) → int_of (codes s) ≡ some n → (s == "") ≡ false
text_of_int s n h = elim (Bool-cases (s == "")) [
  | inr fine ↦ fine
  | inl hit ↦
      let empty : s ≡ "" = ground (arith, hit) in
      let nothing : int_of (codes "") ≡ none = unfold int_of in refl in
      absurd (none-ne-some n (sym nothing ∙ (rw empty at h)))
]

gateway_finds :
    (product col : String) (row : Row) (rate value achieved : ℤ)
    → GatewayMeasures product col row (rate, value, achieved)
    → gateway_point product col row ≡ ok (some (rate, (value, achieved)))
unfolding gateway_point lookup int_cell
gateway_finds product col row rate value achieved (e, (s, es, ns), (t, et, nt), (u, eu, nu)) =
    rw (e, ◌>>=◌, same_cell (some product), et, text_of_int t value nt, es, ns, nt, eu, nu) refl

-- Let `ms` say of each row either that it is skipped, and let it be of another product or have no percentile; or a
-- rate, a latency and an achieved rate, and let the row be of the product and have these ints in the columns rate, `col`
-- and achieved. Then the multi-gateway script's `load` returns, and the entry of a rate is the mean of the latencies and
-- the mean of the achieved rates, both rounded down, of just the rows with that rate; without such a row there is none.
pub load_gateways_means :
    (rows : List Row) (product col : String) (ms : List (Option Measured))
    → Reads (GatewaySkips product col) (GatewayMeasures product col) rows ms
    → (d : Dict ℤ Point) × (load_gateways (some rows) product col ≡ ok d)
      × ((k : ℤ) → IsEntry (points_of k ms) (get k d))
load_gateways_means rows product col ms reads =
    let readable =
      Reads-IsReadable (GatewaySkips product col) (GatewayMeasures product col)
        (gateway_point product col) (gateway_skips product col) (gateway_finds product col) rows ms
        reads in
    let (d, loads, entries) = load_gateways_lem rows product col readable in
    (
      d,
      loads,
      λ k.
          rw
            (
              entries k,
              points_at-points_of (GatewaySkips product col) (GatewayMeasures product col)
                  (gateway_point product col) (gateway_skips product col)
                  (gateway_finds product col) k rows ms reads,
            )
            (mean_of-IsEntry (points_of k ms)),
    )
