-- ===== src/Compare/Means.antt =====
-- sweep/mkcharts-fleets.py and sweep/mkcharts-multi.py: what `load` returns, from the rows' own fields.
-- What a row holds is stated by its fields alone, without the functions that read it.
use raft_tests.Prelude.{
  ℕ, suc, ◌+◌, ◌*◌, ◌/◌, ◌≤◌, ◌<◌, ◌≡◌, refl, ap, Option, none, some, List, [], ◌∷◌, map, arith,
  ◌==◌, if◌then◌else◌, String, Result, ok, length, All, string_eq, option_eq, pair_eq, list_eq,
  nat_eq, int_eq, ℤ, pos, negsuc, ◌+ℤ◌,
}
use raft_tests.Python.Number.{int_of}
use raft_tests.Python.Text.{codes}
use native.Mathlib.Nat.{div-add-mod, mod-lt}
use raft_tests.Compare.{Point, floor_div, sum_by, mean_point}
use raft_tests.Compare.Laws.{mean_of, points_at, IsReadable}

-- `m` is `s / n` rounded down, for n above zero: `negsuc s` is -(s + 1).
abbrev pub IsFloor : ℤ → ℕ → ℤ → Type 0
IsFloor (pos s) n (pos m) = (n * m ≤ s) × (s < n * (m + 1))
IsFloor (negsuc s) n (negsuc m) = (n * m ≤ s) × (s < n * (m + 1))
IsFloor _ n _ = ⊥

abbrev pub total : List ℤ → ℤ
total [] = pos 0
total (n ∷ ns) = n +ℤ total ns

-- The floored means of the latencies and of the achieved rates of some points, and nothing without a point.
abbrev pub IsEntry : List Point → Option Point → Type 0
IsEntry [] entry = entry ≡ none
IsEntry (p ∷ ps) entry =
    (latency achieved : ℤ) × (entry ≡ some (latency, achieved))
    × IsFloor (total (map (λ q. q.0) (p ∷ ps))) (length (p ∷ ps)) latency
    × IsFloor (total (map (λ q. q.1) (p ∷ ps))) (length (p ∷ ps)) achieved

quotient_bounds : (s k : ℕ) → (suc k * (s / suc k) ≤ s) × (s < suc k * (s / suc k + 1))
quotient_bounds s k =
    let whole = div-add-mod s (suc k) in
    let above : 0 < suc k = omega arith in let small = mod-lt s above in grind (arith, whole, small)

floor_div-IsFloor : (s : ℤ) (k : ℕ) → IsFloor s (suc k) (floor_div s (suc k))
unfolding floor_div
floor_div-IsFloor (pos s) k = quotient_bounds s k
floor_div-IsFloor (negsuc s) k = quotient_bounds s k

sum_by-total : (of : Point → ℤ) (ps : List Point) → sum_by of ps ≡ total (map of ps)
unfolding sum_by
sum_by-total of [] = refl
sum_by-total of (p ∷ ps) = ap (λ n. of p +ℤ n) (sum_by-total of ps)

pub mean_of-IsEntry : (ps : List Point) → IsEntry ps (mean_of ps)
mean_of-IsEntry [] = refl
mean_of-IsEntry (p ∷ ps) = (
  floor_div (sum_by (λ q. q.0) (p ∷ ps)) (length (p ∷ ps)),
  floor_div (sum_by (λ q. q.1) (p ∷ ps)) (length (p ∷ ps)),
  unfold mean_point in refl,
  each (λ q. q.0),
  each (λ q. q.1),
)
  where
    each :
        (of : Point → ℤ)
        → IsFloor
            (total (map of (p ∷ ps)))
            (length (p ∷ ps))
            (floor_div (sum_by of (p ∷ ps)) (length (p ∷ ps)))
    each of = rw (← sum_by-total of (p ∷ ps)) (floor_div-IsFloor (sum_by of (p ∷ ps)) (length ps))

-- The field is an int.
abbrev pub Holds : Option String → ℤ → Type 0
Holds field n = (s : String) × (field ≡ some s) × (int_of (codes s) ≡ some n)

-- A rate with its latency and what was achieved.
abbrev pub Measured : Type 0
Measured = ℤ × ℤ × ℤ

module _ {ℓ} {R : Type ℓ} (Skipped : R → Type 0) (Measures : R → Measured → Type 0) where
  -- Each row is skipped, or measures what is said of it.
  abbrev pub Reads : List R → List (Option Measured) → Type 0
  Reads [] [] = Unit
  Reads (row ∷ rows) (none ∷ ms) = Skipped row × Reads rows ms
  Reads (row ∷ rows) (some m ∷ ms) = Measures row m × Reads rows ms
  Reads _ _ = ⊥

-- The points at a rate, in order.
abbrev pub points_of : ℤ → List (Option Measured) → List Point
points_of k [] = []
points_of k (none ∷ ms) = points_of k ms
points_of k (some (rate, latency, achieved) ∷ ms) =
    let more = points_of k ms in if rate == k then (latency, achieved) ∷ more else more

module _ {ℓ} {R : Type ℓ} (Skipped : R → Type 0) (Measures : R → Measured → Type 0)
    (point : R → Result (Option (ℤ × Point)))
    (skips : (row : R) → Skipped row → point row ≡ ok none)
    (finds : (row : R) (rate latency achieved : ℤ)
      → Measures row (rate, latency, achieved)
      → point row ≡ ok (some (rate, (latency, achieved)))) where
  pub Reads-IsReadable :
      (rows : List R) (ms : List (Option Measured))
      → Reads Skipped Measures rows ms
      → All (IsReadable point) rows
  Reads-IsReadable [] [] _ = tt
  Reads-IsReadable [] (_ ∷ _) r = absurd r
  Reads-IsReadable (row ∷ rows) [] r = absurd r
  Reads-IsReadable (row ∷ rows) (none ∷ ms) (s, rest) =
      ((none, skips row s), Reads-IsReadable rows ms rest)
  Reads-IsReadable (row ∷ rows) (some (rate, latency, achieved) ∷ ms) (m, rest) = (
    (some (rate, (latency, achieved)), finds row rate latency achieved m),
    Reads-IsReadable rows ms rest,
  )

  pub points_at-points_of :
      (k : ℤ) (rows : List R) (ms : List (Option Measured))
      → Reads Skipped Measures rows ms
      → points_at point k rows ≡ points_of k ms
  points_at-points_of k [] [] _ = refl
  points_at-points_of k [] (_ ∷ _) r = absurd r
  points_at-points_of k (row ∷ rows) [] r = absurd r
  points_at-points_of k (row ∷ rows) (none ∷ ms) (s, rest) =
      rw (skips row s, points_at) (points_at-points_of k rows ms rest)
  points_at-points_of k (row ∷ rows) (some (rate, latency, achieved) ∷ ms) (m, rest) =
      rw (finds row rate latency achieved m, points_at, points_at-points_of k rows ms rest) refl
