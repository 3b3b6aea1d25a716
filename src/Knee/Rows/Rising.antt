-- ===== src/Knee/Rows/Rising.antt =====
-- sweep/mkcharts.py: the charts' data, sorted. No rate comes twice in a product's entries.
use raft_tests.Prelude.{
  ◌≡◌, refl, sym, ◌≢◌, ◌⊎◌, inl, inr, true, List, [], ◌∷◌, arith, ok, Result-cases, Bool-cases, All,
  string_eq, option_eq, pair_eq, nat_eq, int_eq, ℤ, ◌≤ℤ◌, ◌<ℤ◌, leb_ℤ→le, ≤ℤ_antisymm,
}
use raft_tests.Python.Dict.{Dict, get, list_at}
use raft_tests.Python.Sort.{insort, sorted, IsSorted, sorted-IsSorted, All-insort, All-sorted}
use raft_tests.Python.Csv.{Row}
use raft_tests.Knee.Rows.{
  Product, Entry, group_rows, add_averages, rate, le_rate, sort_entries, sort_products, chart_data,
}
use raft_tests.Knee.Rows.Strict.{Distinct, IsRising, group_rows-Grouped, add_averages-Ready}

insort-Distinct :
    (e : Entry) (xs : List Entry)
    → All (λ x. rate e ≢ rate x) xs
    → Distinct xs
    → Distinct (insort le_rate e xs)
unfolding insort
insort-Distinct e [] _ _ = (tt, tt)
insort-Distinct e (x ∷ xs) (f, fs) (d, ds) = elim (Bool-cases (le_rate e x)) [
  | inl before ↦ rw before ((f, fs), (d, ds))
  | inr after ↦ rw after (
    All-insort le_rate (λ y. rate x ≢ rate y) e xs (λ h. f (sym h)) d,
    insort-Distinct e xs fs ds,
  )
]

sorted-Distinct : (xs : List Entry) → Distinct xs → Distinct (sorted le_rate xs)
unfolding sorted
sorted-Distinct [] _ = tt
sorted-Distinct (x ∷ xs) (d, ds) =
    insort-Distinct x (sorted le_rate xs) (All-sorted le_rate _ xs d) (sorted-Distinct xs ds)

lt_of_le_ne : (a b : ℤ) → a ≤ℤ b → a ≢ b → a <ℤ b
lt_of_le_ne a b h ne = ground (arith, ≤ℤ_antisymm a b h)

All-lt :
    (x : Entry) (ys : List Entry)
    → All (λ y. le_rate x y ≡ true) ys
    → All (λ y. rate x ≢ rate y) ys
    → All (λ y. rate x <ℤ rate y) ys
unfolding le_rate
All-lt x [] _ _ = tt
All-lt x (y ∷ ys) (h, hs) (d, ds) =
    (lt_of_le_ne (rate x) (rate y) (leb_ℤ→le (rate x) (rate y) h) d, All-lt x ys hs ds)

Distinct-IsRising : (xs : List Entry) → IsSorted le_rate xs → Distinct xs → IsRising xs
Distinct-IsRising [] _ _ = tt
Distinct-IsRising (x ∷ xs) (h, hs) (d, ds) = (All-lt x xs h d, Distinct-IsRising xs hs ds)

le_rate_total : (x y : Entry) → (le_rate x y ≡ true) ⊎ (le_rate y x ≡ true)
unfolding le_rate
le_rate_total x y = ground arith

le_rate_trans : (x y z : Entry) → le_rate x y ≡ true → le_rate y z ≡ true → le_rate x z ≡ true
unfolding le_rate
le_rate_trans x y z h k = ground arith

sort_products-list_at :
    (p : Product) (d : Dict Product (List Entry)) {d' : Dict Product (List Entry)}
    → sort_products d ≡ ok d'
    → list_at p d' ≡ sorted le_rate (list_at p d)
unfolding sort_products sort_entries get sorted
sort_products-list_at p [] {d'} h = let same : [] ≡ d' = ground arith in rw (← same) refl
sort_products-list_at p ((q, entries) ∷ d) {d'} h = elim (Result-cases (sort_entries entries)) [
  | inr (e, fails) ↦ absurd (ground arith)
  | inl (ordered, this) ↦ elim (Result-cases (sort_products d)) [
    | inr (e, fails) ↦ absurd (ground arith)
    | inl (rest, others) ↦ ground (arith, sort_products-list_at p d others)
  ]
]

-- When the charts' data are computed, each product's entries stand in strictly rising order of their rate, so
-- every rate has one point. A product that is not in the data has no entries.
pub chart_data-IsRising :
    (rows : List Row) {d : Dict Product (List Entry)}
    → chart_data rows ≡ ok d
    → (p : Product) → IsRising (list_at p d)
unfolding chart_data
chart_data-IsRising rows {d} h = elim (Result-cases (group_rows [] rows)) [
  | inr (e, fails) ↦ absurd (ground arith)
  | inl (acc, grouped) ↦ elim (Result-cases (add_averages [] acc)) [
    | inr (e, fails) ↦ absurd (ground arith)
    | inl (means, averaged) ↦ λ p.
        let start = group_rows-Grouped [] rows grouped (tt, tt) in
        let distinct = add_averages-Ready [] acc averaged start (λ q. unfold get in (tt, tt)) p in
        let entries = list_at p means in
        rw (sort_products-list_at p means {d' = d} (ground arith)) (
          Distinct-IsRising (sorted le_rate entries)
            (sorted-IsSorted le_rate le_rate_total le_rate_trans entries)
            (sorted-Distinct entries distinct))
  ]
]
