-- ===== src/Knee/Rows/Tests.antt =====
-- Runs of the grouping in sweep/mkcharts.py, and its theorems at concrete rows.
use raft_tests.Prelude.{
  All, ◌+ℤ◌, ℕ, ◌≡◌, refl, some, List, [], ◌∷◌, map, arith, String, Result, ok, err, value_error,
  map_result, keep, string_eq, option_eq, pair_eq, nat_eq, int_eq, pos, ◌≤ℤ◌,
}
use raft_tests.Python.Dict.{Dict, get, lookup, insert, append_at, list_at, keys}
use raft_tests.Python.Sort.{insort, sorted}
use raft_tests.Python.Text.{strip}
use raft_tests.Python.Number.{int_of}
use raft_tests.Python.Csv.{Row, dict_reader, int_cell}
use raft_tests.Knee.Rows.{
  Product, Key, Entry, key_of, numbers, add_row, group_rows, round_ℕ, round_div, sum_column,
  average, add_averages, le_rate, sort_entries, sort_products, chart_data,
}
use raft_tests.Knee.Rows.Group.{belongs, group_rows-belongs}
use raft_tests.Knee.Rows.Mean.{average_bounds}
use raft_tests.Knee.Rows.Strict.{IsRising}
use raft_tests.Knee.Rows.Total.{IsMeasured, chart_data-Returns}
use raft_tests.Knee.Rows.Rising.{chart_data-IsRising}

file : List (List String)
file =
    ("product" ∷ "rate" ∷ "p50" ∷ "fleet" ∷ [])
    ∷ ("braft" ∷ "200" ∷ "31" ∷ "c7a" ∷ [])
    ∷ ("aeron" ∷ "100" ∷ "5" ∷ "c7a" ∷ [])
    ∷ []
    ∷ ("braft" ∷ "100" ∷ "20" ∷ "c7a" ∷ [])
    ∷ ("braft" ∷ "200" ∷ "34" ∷ "c6i" ∷ [])
    ∷ []

read : List Row
unfolding dict_reader insert file string_eq
read = dict_reader file

made : Result (Dict Product (List Entry))
unfolding chart_data group_rows add_row key_of numbers lookup get append_at add_averages average
    sum_column round_div round_ℕ keys sort_products sort_entries sorted insort le_rate int_cell
    int_of strip map_result read string_eq option_eq pair_eq int_eq nat_eq ◌+ℤ◌
made = chart_data read

abbrev point : ℕ → ℕ → Entry
point r p = ("rate", pos r) ∷ ("p50", pos p) ∷ []

abbrev expected : Dict Product (List Entry)
expected = (some "braft", point 100 20 ∷ point 200 32 ∷ []) ∷ (some "aeron", point 100 5 ∷ []) ∷ []

averages : made ≡ ok expected
unfolding made
averages = refl

bad_rate :
    chart_data ((("product", some "braft") ∷ ("rate", some "fast") ∷ []) ∷ []) ≡ err value_error
unfolding made
bad_rate = refl

chart_data-IsRising_example : IsRising (point 100 20 ∷ point 200 32 ∷ [])
unfolding made
chart_data-IsRising_example = chart_data-IsRising read {d = expected} refl (some "braft")

grouped : Dict Key (List Entry)
grouped =
    ((some "braft", pos 200), point 200 31 ∷ point 200 34 ∷ [])
    ∷ ((some "aeron", pos 100), point 100 5 ∷ [])
    ∷ ((some "braft", pos 100), point 100 20 ∷ [])
    ∷ []

group_rows-belongs_example :
    list_at (some "braft", pos 200) grouped
    ≡ map numbers (keep (belongs (some "braft", pos 200)) read)
unfolding made grouped
group_rows-belongs_example =
    group_rows-belongs (some "braft", pos 200) [] read {acc' = grouped} refl

average_bounds_example : (pos 31 ≤ℤ pos 32) × (pos 32 ≤ℤ pos 34)
unfolding made
average_bounds_example =
    average_bounds (point 200 31 ∷ point 200 34 ∷ []) "p50" (pos 31) (pos 34) {e = point 200 32}
      {v = pos 32} refl refl ((λ w h. ground arith), ((λ w h. ground arith), tt))

read-IsMeasured : All (IsMeasured ("rate" ∷ "p50" ∷ [])) read
unfolding made
read-IsMeasured = (
  (((some "braft", pos 200), refl), refl),
  (
    (((some "aeron", pos 100), refl), refl),
    ((((some "braft", pos 100), refl), refl), ((((some "braft", pos 200), refl), refl), tt)),
  ),
)

chart_data-Returns_example : (d : Dict Product (List Entry)) × (chart_data read ≡ ok d)
unfolding made
chart_data-Returns_example = chart_data-Returns ("rate" ∷ "p50" ∷ []) read refl read-IsMeasured
