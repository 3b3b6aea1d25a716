-- ===== src/Knee/Rows.antt =====
-- sweep/mkcharts.py, `_isint` to `sat`: the rows of all input files, grouped by product and rate, averaged
-- over the repeats of a rate and sorted by rate.
pub mod Group
pub mod Rounding
pub mod Mean
pub mod Strict
pub mod Rising
pub mod Total
mod Tests
use raft_tests.Prelude.{
  ℕ, suc, ◌+◌, ◌*◌, ◌/◌, ◌%◌, Bool, true, false, none, some, List, [], ◌∷◌, arith, ◌==◌,
  if◌then◌else◌, String, Result, ok, err, index_error, ◌>>=◌, map_result, ltb, length, string_eq,
  option_eq, pair_eq, nat_eq, int_eq, ℤ, pos, negsuc, sub_ℕ, ◌+ℤ◌, leb_ℤ, int_laws,
}
use raft_tests.Python.Dict.{Dict, get, lookup, append_at, keys}
use raft_tests.Python.Sort.{sorted}
use raft_tests.Python.Csv.{Cell, Row, int_cell}

abbrev pub Product : Type 0
Product = Cell

-- The numeric columns of a row, or their means.
abbrev pub Entry : Type 0
Entry = Dict String ℤ

abbrev pub Key : Type 0
Key = Product × ℤ

-- `_isint`: what raises is no number.
unfoldable pub is_int : Cell → Bool
is_int v = elim (int_cell v) [ ok n ↦ true | err e ↦ false ]

-- `{k: int(v) for k, v in r.items() if k != "product" and _isint(v)}`
unfoldable pub numbers : Row → Entry
numbers [] = []
numbers ((k, v) ∷ r) =
    let rest = numbers r in
    elim (int_cell v) [ err e ↦ rest | ok n ↦ if k == "product" then rest else (k, n) ∷ rest ]

-- `(r["product"], int(r["rate"]))`
unfoldable pub key_of : Row → Result Key
key_of r = do
  prod ← lookup "product" r
  cell ← lookup "rate" r
  rate ← int_cell cell
  ok (prod, rate)

-- one round of the loop over `rows`
unfoldable pub add_row : Dict Key (List Entry) → Row → Result (Dict Key (List Entry))
add_row acc r = do key ← key_of r; ok (append_at key (numbers r) acc)

unfoldable pub group_rows : Dict Key (List Entry) → List Row → Result (Dict Key (List Entry))
group_rows acc [] = ok acc
group_rows acc (r ∷ rows) = do acc' ← add_row acc r; group_rows acc' rows

-- a / n rounded to the nearest int, and to the even one of two
unfoldable pub round_ℕ : ℕ → ℕ → ℕ
round_ℕ a n =
    let q = a / n in
    let r = a % n in if ltb (2 * r) n then q else if ltb n (2 * r) then q + 1 else q + q % 2

-- `round(s / n)` for n above zero. The float quotient is rounded twice, which changes nothing as long as
-- s stays below 2 ^ 52: a tie is a float then, and no other quotient is rounded onto or across one.
unfoldable pub round_div : ℤ → ℕ → ℤ
round_div (pos a) n = pos (round_ℕ a n)
round_div (negsuc a) n = sub_ℕ 0 (round_ℕ (suc a) n)

-- `sum(x[k] for x in reps)`
unfoldable pub sum_column : String → List Entry → Result ℤ
sum_column k [] = ok (pos 0)
sum_column k (x ∷ reps) = do v ← lookup k x; rest ← sum_column k reps; ok (v +ℤ rest)

unfoldable pub means : List String → List Entry → Result Entry
means [] reps = ok []
means (k ∷ ks) reps = do
  s ← sum_column k reps
  rest ← means ks reps
  ok ((k, round_div s (length reps)) ∷ rest)

-- `{k: round(sum(x[k] for x in reps) / len(reps)) for k in reps[0]}`
unfoldable pub average : List Entry → Result Entry
unfolding means
average [] = err index_error
average (first ∷ reps) = means (keys first) (first ∷ reps)

unfoldable pub add_averages :
    Dict Product (List Entry) → Dict Key (List Entry) → Result (Dict Product (List Entry))
add_averages d [] = ok d
add_averages d (((prod, _), reps) ∷ acc) = do
  e ← average reps
  add_averages (append_at prod e d) acc

-- `d["rate"]` where it is there
abbrev pub rate : Entry → ℤ
rate e = elim (get "rate" e) [ none ↦ pos 0 | some n ↦ n ]

unfoldable pub le_rate : Entry → Entry → Bool
le_rate a b = leb_ℤ (rate a) (rate b)

-- `D[p].sort(key=lambda d: d["rate"])`: the keys are computed first.
unfoldable pub sort_entries : List Entry → Result (List Entry)
sort_entries entries = do keyed ← map_result (lookup "rate") entries; ok (sorted le_rate entries)

unfoldable pub sort_products : Dict Product (List Entry) → Result (Dict Product (List Entry))
sort_products [] = ok []
sort_products ((p, entries) ∷ d) = do
  ordered ← sort_entries entries
  rest ← sort_products d
  ok ((p, ordered) ∷ rest)

-- `D`
unfoldable pub chart_data : List Row → Result (Dict Product (List Entry))
chart_data rows = do acc ← group_rows [] rows; d ← add_averages [] acc; sort_products d
