-- ===== src/Knee/Rows/Mean.antt =====
-- sweep/mkcharts.py: the averages of a rate's repeats.
use raft_tests.Prelude.{
  ◌≡◌, refl, ◌≢◌, inl, inr, true, some, List, [], ◌∷◌, arith, ◌==◌, contains, String, ok,
  Result-cases, Bool-cases, Option-cases, length, All, string_eq, option_eq, pair_eq, nat_eq,
  int_eq, ℤ, ◌≤ℤ◌, ≤ℤ_antisymm,
}
use text.Mathlib.TextEquality.{eq_iff}
use raft_tests.Python.Dict.{get, lookup, keys, get-cons, get-cons_cases, contains-keys}
use raft_tests.Python.Csv.{Cell, Row, int_cell}
use raft_tests.Knee.Rows.{Entry, key_of, numbers, round_div, sum_column, means, average}
use raft_tests.Knee.Rows.Rounding.{round_div_bounds, sum_column_bounds}

numbers-get :
    (k : String) (r : Row) {cell : Cell} {n : ℤ}
    → k ≢ "product"
    → get k r ≡ some cell
    → int_cell cell ≡ ok n
    → get k (numbers r) ≡ some n
unfolding get numbers
numbers-get k [] other h i = cc
numbers-get k ((j, v) ∷ r) {cell = cell} {n = n} other h i =
    ground (arith, numbers-get k r {cell = cell} {n = n} other)

rate≢product : ◌≢◌ {A = String} "rate" "product"
rate≢product = ground (arith, eq_iff "rate" "product")

-- The numbers that are kept of a row hold the rate of its key.
pub numbers-rate :
    (r : Row) {p : Cell} {n : ℤ} → key_of r ≡ ok (p, n) → get "rate" (numbers r) ≡ some n
unfolding key_of lookup
numbers-rate r {n = n} h = elim (Option-cases (get "rate" r)) [
  | inl e ↦ absurd (ground arith)
  | inr (cell, e) ↦ numbers-get "rate" r {cell = cell} {n = n} rate≢product e (ground arith)
]

means-get :
    (k : String) (ks : List String) (reps : List Entry) {e : Entry} {v : ℤ}
    → means ks reps ≡ ok e
    → get k e ≡ some v
    → (s : ℤ) × (sum_column k reps ≡ ok s) × (round_div s (length reps) ≡ v)
unfolding means
means-get k [] reps {e} {v} h g =
    let empty : [] ≡ e = ground arith in absurd (unfold get in ground arith)
means-get k (j ∷ ks) reps {e} {v} h g = elim (Result-cases (sum_column j reps)) [
  | inr (x, fails) ↦ absurd (ground arith)
  | inl (s, summed) ↦ elim (Result-cases (means ks reps)) [
    | inr (x, fails) ↦ absurd (ground arith)
    | inl (e', rest) ↦
        let whole : (j, round_div s (length reps)) ∷ e' ≡ e = ground arith in
        elim (get-cons_cases j k (round_div s (length reps)) e' {w = v} (rw whole g)) [
          | inl (same, value) ↦ (s, rw (← same) summed, value)
          | inr (differ, later) ↦ means-get k ks reps rest later
        ]
  ]
]

means-has :
    (k : String) (ks : List String) (reps : List Entry) {e : Entry}
    → means ks reps ≡ ok e
    → contains ks k ≡ true
    → (v : ℤ) × (get k e ≡ some v)
unfolding means
means-has k [] reps h m = cc
means-has k (j ∷ ks) reps {e} h m = elim (Result-cases (sum_column j reps)) [
  | inr (x, fails) ↦ absurd (ground arith)
  | inl (s, summed) ↦ elim (Result-cases (means ks reps)) [
    | inr (x, fails) ↦ absurd (ground arith)
    | inl (e', rest) ↦
        let mean = round_div s (length reps) in
        let whole : (j, mean) ∷ e' ≡ e = ground arith in
        elim (Bool-cases (j == k)) [
          | inl same ↦ (mean, rw (← whole, get-cons j k mean e', same) refl)
          | inr differ ↦
              let (v, later) = means-has k ks reps rest (ground arith) in
              (v, rw (← whole, get-cons j k mean e', differ) later)
        ]
  ]
]

same_rates :
    (n : ℤ) (reps : List Entry)
    → All (λ x. get "rate" x ≡ some n) reps
    → All (λ x. (w : ℤ) → lookup "rate" x ≡ ok w → (n ≤ℤ w) × (w ≤ℤ n)) reps
unfolding lookup
same_rates n [] _ = tt
same_rates n (x ∷ reps) (b, bs) = ((λ w h. ground arith), same_rates n reps bs)

-- The mean of a column lies between any two bounds that all the repeats keep.
pub average_bounds :
    (reps : List Entry) (k : String) (lo hi : ℤ) {e : Entry} {v : ℤ}
    → average reps ≡ ok e
    → get k e ≡ some v
    → All (λ x. (w : ℤ) → lookup k x ≡ ok w → (lo ≤ℤ w) × (w ≤ℤ hi)) reps
    → (lo ≤ℤ v) × (v ≤ℤ hi)
unfolding average
average_bounds [] k lo hi h g b = cc
average_bounds (x ∷ reps) k lo hi {e} {v} h g b =
    let (s, summed, rounded) = means-get k (keys x) (x ∷ reps) h g in
    let (low, high) = sum_column_bounds k lo hi (x ∷ reps) summed b in
    rw (← rounded) (round_div_bounds s (length (x ∷ reps)) lo hi (omega arith) low high)

-- The mean of one and the same rate is that rate.
pub average-rate :
    (reps : List Entry) (n : ℤ) {e : Entry}
    → average reps ≡ ok e
    → All (λ x. get "rate" x ≡ some n) reps
    → get "rate" e ≡ some n
unfolding average
average-rate [] n h b = cc
average-rate (x ∷ reps) n {e} h (b, bs) =
    let (v, found) = means-has "rate" (keys x) (x ∷ reps) h (contains-keys "rate" x b) in
    let (low, high) =
      average_bounds (x ∷ reps) "rate" n n h found (same_rates n (x ∷ reps) (b, bs)) in
    rw (≤ℤ_antisymm n v low high) found
