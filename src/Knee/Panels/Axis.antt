-- ===== src/Knee/Panels/Axis.antt =====
-- sweep/mkcharts.py: how long the x axis is that the panels share.
use raft_tests.Prelude.{
  ℕ, ◌+◌, ◌-◌, ◌*◌, ◌/◌, ◌^◌, ◌<◌, ◌≡◌, refl, ◌∙◌, ◌⊎◌, inl, inr, Bool, true, false, List, [], ◌∷◌,
  arith, if◌then◌else◌, Bool-cases, All, weaken_All, string_eq, option_eq, pair_eq, list_eq, nat_eq,
  int_eq, ℤ, pos, negsuc, ◌+ℤ◌, ◌*ℤ◌, ◌≤ℤ◌, ◌<ℤ◌, ltb_ℤ, ≤ℤ_antisymm, +ℤ_parts, *ℤ-pos,
}
use raft_tests.Python.Float.{Float, IsOrdered}
use raft_tests.Knee.Panels.{max_of, max_rate, axis_end}

-- A rate above zero that the floats hold exactly.
abbrev pub IsRate : ℤ → Type 0
IsRate r = (pos 0 <ℤ r) × (r <ℤ pos (2 ^ 52))

larger_bounds :
    (m r : ℤ)
    → IsRate m
    → IsRate r
    → IsRate (if ltb_ℤ m r then r else m)
      × (m ≤ℤ (if ltb_ℤ m r then r else m))
      × (r ≤ℤ (if ltb_ℤ m r then r else m))
larger_bounds m r h q = elim (Bool-cases (ltb_ℤ m r)) [
  | inl up ↦ rw up (q, ground (arith, up), omega arith)
  | inr stays ↦ rw stays (h, omega arith, ground (arith, stays))
]

max_of-bounds :
    (m : ℤ) (rs : List ℤ)
    → IsRate m
    → All IsRate rs
    → IsRate (max_of m rs) × (m ≤ℤ max_of m rs) × All (λ r. r ≤ℤ max_of m rs) rs
unfolding max_of
max_of-bounds m [] h _ = (h, omega arith, tt)
max_of-bounds m (r ∷ rs) h (q, qs) =
    let (kept, left, right) = larger_bounds m r h q in
    let (is_rate, above, all) = max_of-bounds (if ltb_ℤ m r then r else m) rs kept qs in
    (is_rate, omega (arith, left, above), (omega (arith, right, above), all))

-- The largest of the rates is one of them.
abbrev pub IsOneOf : ℤ → List ℤ → Type 0
IsOneOf m [] = ⊥
IsOneOf m (r ∷ rs) = (m ≡ r) ⊎ IsOneOf m rs

chosen : (t : Bool) (x y : ℤ) → ((if t then x else y) ≡ x) ⊎ ((if t then x else y) ≡ y)
chosen true x y = inl refl
chosen false x y = inr refl

max_of-one : (m : ℤ) (rs : List ℤ) → IsOneOf (max_of m rs) (m ∷ rs)
unfolding max_of
max_of-one m [] = inl refl
max_of-one m (r ∷ rs) = elim (max_of-one (if ltb_ℤ m r then r else m) rs) [
  | inr later ↦ inr (inr later)
  | inl here ↦ elim (chosen (ltb_ℤ m r) r m) [
    | inl up ↦ inr (inl (here ∙ up))
    | inr stays ↦ inl (here ∙ stays)
  ]
]

-- The least multiple of 25000 that is not below the rate.
abbrev pub IsAxisEnd : ℤ → ℤ → Type 0
IsAxisEnd r end = (k : ℕ) × (end ≡ pos (k * 25000)) × (r ≤ℤ end) × (end <ℤ r +ℤ pos 25000)

module _ {ℓ} (F : Type ℓ) ⦃f : Float F⦄ (laws : IsOrdered F) where
  rounded_up :
      (n : ℕ)
      → 0 < n
      → n < 2 ^ 52
      → f.ceil (f.div (f.of_int (pos n)) (f.lit 250000 1)) ≡ pos ((n + 24999) / 25000)
  rounded_up n above small =
      let small_k : (n + 24999) / 25000 < 2 ^ 52 = omega (arith, small) in
      let quotient : F = f.div (f.of_int (pos n)) (f.lit 250000 1) in
      let finite = laws.div_finite n 25000 (omega arith) (omega arith) small in
      let low = laws.lt_ceil ((n + 24999) / 25000 - 1) quotient finite (
        laws.lt_div n ((n + 24999) / 25000 - 1) 25000 (omega arith) (omega arith) small
          (omega (arith, above))) in
      let high = laws.ceil-le ((n + 24999) / 25000) quotient finite (
        laws.div-le n ((n + 24999) / 25000) 25000 (omega arith) (omega arith) small small_k
          (omega arith)) in
      ≤ℤ_antisymm _ _ high (omega (arith, low, above))

  axis_end-IsAxisEnd : (r : ℤ) → IsRate r → IsAxisEnd r (axis_end F r)
  unfolding axis_end
  axis_end-IsAxisEnd (negsuc n) (low, _) = absurd (omega (arith, low))
  axis_end-IsAxisEnd (pos n) (above, small) =
      let k : ℕ = (n + 24999) / 25000 in
      let same : f.ceil (f.div (f.of_int (pos n)) (f.lit 250000 1)) *ℤ pos 25000 ≡ pos (k * 25000) =
        rw (rounded_up n (omega (arith, above)) (omega (arith, small))) (*ℤ-pos k 25000) in
      (k, same, rw same (omega arith), rw same (omega (arith, above, +ℤ_parts (pos n) (pos 25000))))

  -- The end of the x axis is made from the largest of the rates: it is the least multiple of 25000 that this rate
  -- does not exceed, so that no rate lies beyond it. There is a rate, and the rates are above zero and below 2 ^ 52.
  pub axis_end_lem :
      (r : ℤ) (rs : List ℤ)
      → All IsRate (r ∷ rs)
      → (m : ℤ) × IsOneOf m (r ∷ rs)
        × IsAxisEnd m (axis_end F (max_rate (r ∷ rs)))
        × All (λ q. q ≤ℤ axis_end F (max_rate (r ∷ rs))) (r ∷ rs)
  unfolding max_rate
  axis_end_lem r rs (h, hs) =
      let (is_rate, above, all) = max_of-bounds r rs h hs in
      let (k, multiple, covers, near) = axis_end-IsAxisEnd (max_of r rs) is_rate in
      (
        max_of r rs,
        max_of-one r rs,
        (k, multiple, covers, near),
        (
          omega (arith, above, covers),
          weaken_All (λ q. q ≤ℤ max_of r rs) _ rs (λ q below. omega (arith, below, covers)) all,
        ),
      )
