-- ===== src/Knee/Legend/Tests.antt =====
-- Runs of the legend of sweep/mkcharts.py over numbers in millionths, and its theorem at five entries.
use raft_tests.Prelude.{
  ◌+ℤ◌, ◌≡◌, refl, some, List, [], ◌∷◌, map, All, string_eq, option_eq, pair_eq, nat_eq, int_eq, ℤ,
  pos, ◌-ℤ◌,
}
use raft_tests.Python.Float.Millionths.{Millionths, millionths_float}
use raft_tests.Knee.Legend.{
  Item, Place, gt, legend_w, is_past, rows_from, legend_rows, place_items, legend_top,
  legend_places,
}
use raft_tests.Knee.Legend.Laws.{last_y, IsInside, legend_places_lem}

abbrev items : List Item
items =
    ("synchronous ack", "#2a78d6")
    ∷ ("direct to node", "#b5179e")
    ∷ ("relay (gRPC)", "#eb6834")
    ∷ []

places : List (Place Millionths)
unfolding legend_places place_items legend_w is_past gt legend_top legend_rows rows_from
    millionths_float ◌-ℤ◌ ◌+ℤ◌
places = legend_places Millionths (pos 78) (pos 500) items (some (pos 330))

-- Two entries in the first row, and one below.
two_rows : map (λ p. p.y) places ≡ pos 466 ∷ pos 466 ∷ pos 484 ∷ []
unfolding places
two_rows = refl

abbrev top : ℤ
top = legend_top Millionths (pos 78) (pos 500) items (some (pos 330))

abbrev all_places : List (Place Millionths)
all_places = legend_places Millionths (pos 78) (pos 500) items (some (pos 330))

legend_places_lem_example :
    (map (λ p. p.item) all_places ≡ items)
    × (last_y top all_places ≡ pos 500 -ℤ pos 16)
    × All (IsInside (pos 78) (pos 330)) all_places
legend_places_lem_example = legend_places_lem Millionths (pos 78) (pos 500) items (pos 330)
