-- ===== src/Knee/Rows/Total.antt =====
-- sweep/mkcharts.py: rows with the same int columns are grouped, averaged and sorted without an exception.
use raft_tests.Prelude.{
  ◌≡◌, refl, inl, inr, true, some, List, [], ◌∷◌, ◌++◌, arith, ◌==◌, contains, String, ok,
  map_result, Bool-cases, length, All, All-append, string_eq, option_eq, pair_eq, list_eq, nat_eq,
  int_eq, ℤ, pos, ◌+ℤ◌,
}
use raft_tests.Python.Dict.{Dict, get, keys, lookup, append_at, append_at-AllLists, AllLists}
use raft_tests.Python.Sort.{sorted}
use raft_tests.Python.Csv.{Row}
use raft_tests.Knee.Rows.{
  Product, Entry, Key, key_of, numbers, add_row, group_rows, sum_column, round_div, means, average,
  add_averages, sort_entries, sort_products, le_rate, chart_data,
}

get-keys : (k : String) (x : Entry) → contains (keys x) k ≡ true → (v : ℤ) × (get k x ≡ some v)
unfolding get keys
get-keys k [] h = absurd (ground arith)
get-keys k ((j, v) ∷ x) h = elim (Bool-cases (j == k)) [
  | inl hit ↦ (v, rw hit refl)
  | inr miss ↦ let (w, found) = get-keys k x (ground (arith, miss)) in (w, rw miss found)
]

abbrev HasColumns : List String → Entry → Type 0
HasColumns ks x = keys x ≡ ks

lookup-Returns :
    (k : String) (ks : List String) (x : Entry)
    → HasColumns ks x
    → contains ks k ≡ true
    → (v : ℤ) × (lookup k x ≡ ok v)
unfolding lookup
lookup-Returns k ks x same h =
    let (v, found) = get-keys k x (rw same h) in (v, rw (found, lookup) refl)

sum_column-Returns :
    (k : String) (ks : List String) (reps : List Entry)
    → All (HasColumns ks) reps
    → contains ks k ≡ true
    → (s : ℤ) × (sum_column k reps ≡ ok s)
unfolding sum_column
sum_column-Returns k ks [] _ _ = (pos 0, refl)
sum_column-Returns k ks (x ∷ reps) (c, cs) h =
    let (v, found) = lookup-Returns k ks x c h in
    let (s, rest) = sum_column-Returns k ks reps cs h in (v +ℤ s, rw (found, rest) refl)

means-Returns :
    (ks wanted : List String) (reps : List Entry)
    → All (HasColumns ks) reps
    → All (λ k. contains ks k ≡ true) wanted
    → (e : Entry) × (means wanted reps ≡ ok e) × HasColumns wanted e
unfolding means keys
means-Returns ks [] reps _ _ = ([], refl, refl)
means-Returns ks (k ∷ wanted) reps cs (h, hs) =
    let (s, summed) = sum_column-Returns k ks reps cs h in
    let (e, rest, same) = means-Returns ks wanted reps cs hs in
    ((k, round_div s (length reps)) ∷ e, rw (summed, rest) refl, rw same refl)

All-weaken :
    (k : String) (ks wanted : List String)
    → All (λ j. contains ks j ≡ true) wanted
    → All (λ j. contains (k ∷ ks) j ≡ true) wanted
All-weaken k ks [] _ = tt
All-weaken k ks (j ∷ wanted) (h, hs) = (ground (arith, h), All-weaken k ks wanted hs)

All-contains : (ks : List String) → All (λ k. contains ks k ≡ true) ks
All-contains [] = tt
All-contains (k ∷ ks) = (ground arith, All-weaken k ks ks (All-contains ks))

average-Returns :
    (ks : List String) (first : Entry) (reps : List Entry)
    → All (HasColumns ks) (first ∷ reps)
    → (e : Entry) × (average (first ∷ reps) ≡ ok e) × HasColumns ks e
unfolding average
average-Returns ks first reps (c, cs) =
    rw c (means-Returns ks ks (first ∷ reps) (c, cs) (All-contains ks))

-- No list of the groups is empty, and all entries have the columns.
abbrev IsGrouped : List String → Dict Key (List Entry) → Type 0
IsGrouped ks [] = Unit
IsGrouped ks ((_, reps) ∷ acc) =
    ((x : Entry) × (more : List Entry) × (reps ≡ x ∷ more))
    × All (HasColumns ks) reps
    × IsGrouped ks acc

append_at-IsGrouped :
    (ks : List String) (key : Key) (x : Entry) (acc : Dict Key (List Entry))
    → HasColumns ks x
    → IsGrouped ks acc
    → IsGrouped ks (append_at key x acc)
unfolding append_at
append_at-IsGrouped ks key x [] c _ = ((x, [], refl), (c, tt), tt)
append_at-IsGrouped ks key x ((j, reps) ∷ acc) c ((y, more, same), cs, rest) =
    elim (Bool-cases (j == key)) [
      | inl hit ↦ rw hit (
        (y, more ++ (x ∷ []), rw same refl),
        All-append (HasColumns ks) reps (x ∷ []) cs (c, tt),
        rest,
      )
      | inr miss ↦ rw miss ((y, more, same), cs, append_at-IsGrouped ks key x acc c rest)
    ]

-- The row has a product and an int as its rate, and just these columns of ints.
abbrev pub IsMeasured : List String → Row → Type 0
IsMeasured ks r = ((key : Key) × (key_of r ≡ ok key)) × (keys (numbers r) ≡ ks)

group_rows-Returns :
    (ks : List String) (acc : Dict Key (List Entry)) (rows : List Row)
    → IsGrouped ks acc
    → All (IsMeasured ks) rows
    → (acc' : Dict Key (List Entry)) × (group_rows acc rows ≡ ok acc') × IsGrouped ks acc'
unfolding group_rows add_row
group_rows-Returns ks acc [] g _ = (acc, refl, g)
group_rows-Returns ks acc (r ∷ rows) g (((key, found), c), rest) = rw found (
    group_rows-Returns ks (append_at key (numbers r) acc) rows
      (append_at-IsGrouped ks key (numbers r) acc c g) rest)

add_averages-Returns :
    (ks : List String) (d : Dict Product (List Entry)) (acc : Dict Key (List Entry))
    → AllLists (λ _ x. HasColumns ks x) d
    → IsGrouped ks acc
    → (d' : Dict Product (List Entry)) × (add_averages d acc ≡ ok d')
      × AllLists (λ _ x. HasColumns ks x) d'
unfolding add_averages
add_averages-Returns ks d [] a _ = (d, refl, a)
add_averages-Returns ks d (((q, n), reps) ∷ acc) a ((x, more, same), cs, rest) =
    let (e, mean, c) = average-Returns ks x more (rw same at cs) in
    let mean' : average reps ≡ ok e = rw same mean in
    rw mean' (
      add_averages-Returns ks (append_at q e d) acc
        (append_at-AllLists (λ _ x. HasColumns ks x) q e d c a) rest)

map_result-Returns :
    (ks : List String) (entries : List Entry)
    → All (HasColumns ks) entries
    → contains ks "rate" ≡ true
    → (rates : List ℤ) × (map_result (lookup "rate") entries ≡ ok rates)
unfolding map_result
map_result-Returns ks [] _ _ = ([], refl)
map_result-Returns ks (x ∷ entries) (c, cs) h =
    let (v, found) = lookup-Returns "rate" ks x c h in
    let (rates, rest) = map_result-Returns ks entries cs h in (v ∷ rates, rw (found, rest) refl)

sort_products-Returns :
    (ks : List String) (d : Dict Product (List Entry))
    → AllLists (λ _ x. HasColumns ks x) d
    → contains ks "rate" ≡ true
    → (d' : Dict Product (List Entry)) × (sort_products d ≡ ok d')
unfolding sort_products sort_entries
sort_products-Returns ks [] _ _ = ([], refl)
sort_products-Returns ks ((p, entries) ∷ d) (c, cs) h =
    let (rates, keyed) = map_result-Returns ks entries c h in
    let (rest, done) = sort_products-Returns ks d cs h in
    ((p, sorted le_rate entries) ∷ rest, rw (keyed, done) refl)

-- If every row has a product, an int as its rate, and the same columns of ints, the rate among them, then the
-- charts' data are computed without an exception.
pub chart_data-Returns :
    (ks : List String) (rows : List Row)
    → contains ks "rate" ≡ true
    → All (IsMeasured ks) rows
    → (d : Dict Product (List Entry)) × (chart_data rows ≡ ok d)
unfolding chart_data
chart_data-Returns ks rows h measured =
    let (acc, grouped, g) = group_rows-Returns ks [] rows tt measured in
    let (d, averaged, a) = add_averages-Returns ks [] acc tt g in
    let (d', ordered) = sort_products-Returns ks d a h in (d', rw (grouped, averaged, ordered) refl)
