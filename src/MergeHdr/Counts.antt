-- ===== src/MergeHdr/Counts.antt =====
-- sweep/merge-hdr.py: a percentile depends on how many samples lie up to each value, not on the buckets they are in.
use raft_tests.Prelude.{
  ◌≡◌, sym, ap, ◌∙◌, ◌≢◌, inl, inr, false, List, [], ◌∷◌, arith, ok, Bool-cases, All, weaken_All,
  string_eq, option_eq, pair_eq, list_eq, nat_eq, int_eq, ℤ, pos, pos_part, neg_part, ◌≤ℤ◌, ◌<ℤ◌,
  ltb_ℤ, leb_ℤ, ltb_ℤ→lt, ≤ℤ_antisymm, +ℤ_parts,
}
use mathlib.Core.Bool.{true≢false}
use raft_tests.Python.Float.{Float, Num, IsOrdered}
use raft_tests.MergeHdr.{Bucket, le_bucket, total_of, summarise, target, percentile}
use raft_tests.MergeHdr.Buckets.{
  count_upto, NonNegative, count_upto-le_total, count_upto-perm, total_of-perm,
}
use raft_tests.Python.Sort.{sorted, sorted-perm, All-sorted}
use raft_tests.MergeHdr.Percentile.{HasValue, IsLeast, percentile-IsLeast}

-- Each bucket holds a sample.
abbrev pub Positive : List Bucket → Type 0
Positive = All λ (v, c). pos 1 ≤ℤ c

-- Up to each value, and in all, the two histograms count the same.
abbrev pub SameCounts : List Bucket → List Bucket → Type 0
SameCounts a b = (total_of a ≡ total_of b) × ((w : ℤ) → count_upto w a ≡ count_upto w b)

Positive-NonNegative : (bs : List Bucket) → Positive bs → NonNegative bs
Positive-NonNegative bs h =
    weaken_All (λ b. pos 1 ≤ℤ b.1) (λ b. pos 0 ≤ℤ b.1) bs (λ b p. omega (arith, p)) h

-- A sample above `w` is not counted up to `w`.
count_upto-lt_total :
    (w u : ℤ) (bs : List Bucket)
    → Positive bs
    → HasValue u bs
    → w <ℤ u
    → count_upto w bs <ℤ total_of bs
unfolding count_upto total_of
count_upto-lt_total w u [] _ none_there h = absurd none_there
count_upto-lt_total w u ((v, c) ∷ bs) (p, ps) (inl here) h =
    let out : leb_ℤ v w ≡ false = rw here (ground (arith, h)) in
    let most = count_upto-le_total w bs (Positive-NonNegative bs ps) in
    rw out (omega (arith, p, most, +ℤ_parts (pos 0) (count_upto w bs), +ℤ_parts c (total_of bs)))
count_upto-lt_total w u ((v, c) ∷ bs) (p, ps) (inr there) h =
    let less = count_upto-lt_total w u bs ps there h in
    elim (Bool-cases (leb_ℤ v w)) [
      | inl within ↦
          rw within (omega (arith, less, +ℤ_parts c (count_upto w bs), +ℤ_parts c (total_of bs)))
      | inr out ↦
          rw out
            (omega (arith, less, p, +ℤ_parts (pos 0) (count_upto w bs), +ℤ_parts c (total_of bs)))
    ]

-- The same for a value that the sorted buckets have.
sorted-lt_total :
    (w u : ℤ) (raw : List Bucket)
    → Positive raw
    → HasValue u (sorted le_bucket raw)
    → w <ℤ u
    → count_upto w raw <ℤ total_of raw
sorted-lt_total w u raw p among h =
    let less =
      count_upto-lt_total w u (sorted le_bucket raw)
        (All-sorted le_bucket (λ (v, c). pos 1 ≤ℤ c) raw p) among h in
    let same = sorted-perm le_bucket raw in
    omega (
      arith,
      less,
      ap pos_part (count_upto-perm w same),
      ap neg_part (count_upto-perm w same),
      ap pos_part (total_of-perm same),
      ap neg_part (total_of-perm same),
    )

module _ {ℓ} {F : Type ℓ} ⦃f : Float F⦄ (laws : IsOrdered F) (pct : Num F) where
  not_above :
      (a b : List Bucket) (goal : F) (v u : ℤ)
      → Positive b
      → SameCounts a b
      → HasValue u (sorted le_bucket b)
      → IsLeast laws pct a goal v
      → IsLeast laws pct b goal u
      → u ≤ℤ v
  not_above a b goal v u positive (total, counts) among (_, reached) (below, _) =
      elim (Bool-cases (ltb_ℤ v u)) [
        | inr stays ↦ ground (arith, stays)
        | inl higher ↦ absurd (elim reached [
          | inl passes ↦
              let low = below v (ltb_ℤ→lt v u higher) in
              true≢false (sym (rw (counts v) at passes) ∙ low)
          | inr whole ↦
              let less = sorted-lt_total v u b positive among (ltb_ℤ→lt v u higher) in
              let all = sym (counts v) ∙ whole ∙ total in
              omega (arith, less, ap pos_part all, ap neg_part all)
        ])
      ]

  -- Two histograms without empty buckets that count the same samples up to each value, and in all, have the same
  -- percentile, whatever their buckets and the order of these. There is a sample, and Python can compute the rank, which
  -- lies above 0.
  pub percentile-SameCounts :
      (a b : List Bucket) {goal : F}
      → Positive a
      → Positive b
      → SameCounts a b
      → total_of a ≢ pos 0
      → target (total_of a) pct ≡ ok goal
      → f.int_ge (pos 0) goal ≡ false
      → percentile (summarise a).0 (summarise a).1 pct
        ≡ percentile (summarise b).0 (summarise b).1 pct
  unfolding summarise
  percentile-SameCounts a b {goal} pa pb (total, counts) nonzero is_goal low =
      let (v, is_v, has_v, least_v) =
        percentile-IsLeast laws pct a (Positive-NonNegative a pa) nonzero is_goal low in
      let (u, is_u, has_u, least_u) =
        percentile-IsLeast laws pct b (Positive-NonNegative b pb) (rw (sym total) nonzero)
          (rw (sym total) is_goal) low in
      let up = not_above a b goal v u pb (total, counts) has_u least_v least_u in
      let down = not_above b a goal u v pa (sym total, λ w. sym (counts w)) has_v least_u least_v in
      is_v ∙ ap ok (≤ℤ_antisymm v u down up) ∙ sym is_u
