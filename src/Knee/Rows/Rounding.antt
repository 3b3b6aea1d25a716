-- ===== src/Knee/Rows/Rounding.antt =====
-- sweep/mkcharts.py: the mean of a column, rounded to an int.
use raft_tests.Prelude.{
  ℕ, suc, ◌+◌, ◌*◌, ◌/◌, ◌%◌, ◌≤◌, ◌<◌, ◌≡◌, inl, inr, List, [], ◌∷◌, arith, String, ok,
  Result-cases, length, All, string_eq, option_eq, pair_eq, nat_eq, int_eq, ℤ, pos, negsuc,
  pos_part, neg_part, ◌+ℤ◌, ◌≤ℤ◌, +ℤ_parts,
}
use native.Mathlib.Nat.{mul-le-mul, le_refl, div-add-mod, mod-lt, lt_of_mul-lt-mul_right}
use native.Mathlib.Decide.{dec_le}
use raft_tests.Python.Dict.{lookup}
use raft_tests.Knee.Rows.{Entry, round_ℕ, round_div, sum_column}

-- The rounded quotient is an integer nearest to the exact one: it is off by half of the divisor at most.
round_ℕ_nearest :
    (a n : ℕ) → 0 < n → (2 * a ≤ 2 * (round_ℕ a n * n) + n) × (2 * (round_ℕ a n * n) ≤ 2 * a + n)
unfolding round_ℕ
round_ℕ_nearest a n h = grind arith

-- The quotient, if it and the remainder are known.
le_of_mul-lt : (x y n : ℕ) → x * n < (y + 1) * n → x ≤ y
le_of_mul-lt x y n h = elim (dec_le x y) [
  | yes p ↦ p
  | no p ↦
      let more : y + 1 ≤ x = omega arith in
      let scaled : (y + 1) * n ≤ x * n = mul-le-mul more (le_refl n) in absurd (omega arith)
]

-- A quotient lies between the bounds of all the numbers that are added up.
round_ℕ_bounds :
    (a n lo hi : ℕ) → 0 < n → lo * n ≤ a → a ≤ hi * n → (lo ≤ round_ℕ a n) × (round_ℕ a n ≤ hi)
unfolding round_ℕ
round_ℕ_bounds a n lo hi h l u =
    let whole = div-add-mod a n in
    let small = mod-lt a h in
    let low : lo ≤ a / n = le_of_mul-lt lo (a / n) n (omega arith) in
    let high : a / n ≤ hi = le_of_mul-lt (a / n) hi n (omega arith) in
    let rest : 0 < a % n → a / n < hi = λ r. lt_of_mul-lt-mul_right n (omega arith) in
    ground (arith, rest)

-- n times x is at most s, and the other way round.
abbrev pub ScaledLe : ℕ → ℤ → ℤ → Type 0
ScaledLe n x s = pos_part x * n + neg_part s ≤ pos_part s + neg_part x * n

abbrev pub LeScaled : ℤ → ℕ → ℤ → Type 0
LeScaled s n x = pos_part s + neg_part x * n ≤ pos_part x * n + neg_part s

pub round_div_bounds :
    (s : ℤ) (n : ℕ) (lo hi : ℤ)
    → 0 < n
    → ScaledLe n lo s
    → LeScaled s n hi
    → (lo ≤ℤ round_div s n) × (round_div s n ≤ℤ hi)
unfolding round_div
round_div_bounds (pos a) n (pos l) (pos m) h low high = ground (arith, round_ℕ_bounds a n l m h)
round_div_bounds (pos a) n (negsuc l) (pos m) h low high = ground (arith, round_ℕ_bounds a n 0 m h)
round_div_bounds (pos a) n lo (negsuc m) h low high = absurd (grind arith)
round_div_bounds (negsuc a) n (pos l) hi h low high = absurd (omega arith)
round_div_bounds (negsuc a) n (negsuc l) (pos m) h low high =
    ground (arith, round_ℕ_bounds (suc a) n 0 (suc l) h)
round_div_bounds (negsuc a) n (negsuc l) (negsuc m) h low high =
    ground (arith, round_ℕ_bounds (suc a) n (suc m) (suc l) h)

-- The sum of a column whose values lie between two bounds.
pub sum_column_bounds :
    (k : String) (lo hi : ℤ) (reps : List Entry) {s : ℤ}
    → sum_column k reps ≡ ok s
    → All (λ x. (v : ℤ) → lookup k x ≡ ok v → (lo ≤ℤ v) × (v ≤ℤ hi)) reps
    → ScaledLe (length reps) lo s × LeScaled s (length reps) hi
unfolding sum_column
sum_column_bounds k lo hi [] {s} h _ =
    let zero_sum : pos 0 ≡ s = ground arith in rw (← zero_sum) (omega arith)
sum_column_bounds k lo hi (x ∷ reps) {s} h (b, bs) = elim (Result-cases (lookup k x)) [
  | inr (e, fails) ↦ absurd (ground arith)
  | inl (v, found) ↦ elim (Result-cases (sum_column k reps)) [
    | inr (e, fails) ↦ absurd (ground arith)
    | inl (t, summed) ↦
        let total : v +ℤ t ≡ s = ground arith in
        let within = b v found in
        let rest = sum_column_bounds k lo hi reps summed bs in
        let parts = +ℤ_parts v t in rw (← total) (omega arith)
  ]
]
