-- ===== src/MergeHdr/Ranks.antt =====
-- sweep/merge-hdr.py: when the ranks of the percentiles can be computed, and what the report prints then.
use raft_tests.Prelude.{
  ℕ, ap, ◌≡◌, refl, ◌≢◌, true, false, none, some, List, [], ◌∷◌, arith, ◌==◌, ok, err,
  overflow_error, ◌>>=◌, string_eq, option_eq, pair_eq, list_eq, nat_eq, int_eq, ℤ, pos, ◌*ℤ◌,
}
use raft_tests.Python.Float.{Float, Num, int}
use raft_tests.MergeHdr.{
  Bucket, is_convertible, rank, target, reach, percentile, last_value, tenths, report, merged_row,
  percentile_of, max_of, merged_count, merged_p50, merged_p90, merged_p99, merged_p99_9, merged_max,
}

-- Python can convert to a float what the report's percentiles multiply: the total with 50, 90 and 99 as ints, and the
-- total itself in front of a float.
abbrev pub HasRanks {ℓ} : (F : Type ℓ) ⦃f : Float F⦄ → ℤ → Type 0
HasRanks F ⦃f⦄ total =
    (f.fits (total *ℤ pos 50) ≡ true)
    × (f.fits (total *ℤ pos 90) ≡ true)
    × (f.fits (total *ℤ pos 99) ≡ true)
    × (f.fits total ≡ true)

some_total : (n : ℤ) → n ≢ pos 0 → (n == pos 0) ≡ false
some_total n h = ground arith

module _ {ℓ} {F : Type ℓ} ⦃f : Float F⦄ (bs : List Bucket) (total : ℤ) (pct : Num F)
    (nonzero : total ≢ pos 0) where
  pub percentile_ranked :
      {last : ℤ}
      → is_convertible total pct ≡ true
      → last_value bs ≡ ok last
      → percentile bs total pct
        ≡ elim (reach bs (pos 0) (rank total pct)) [ some v ↦ ok v | none ↦ ok last ]
  unfolding percentile target
  percentile_ranked fine ends =
      rw (some_total total nonzero, fine, ◌>>=◌)
        (ap (λ l. elim (reach bs (pos 0) (rank total pct)) [ some v ↦ ok v | none ↦ l ]) ends)

  pub percentile_overflow :
      is_convertible total pct ≡ false → percentile bs total pct ≡ err overflow_error
  unfolding percentile target
  percentile_overflow far = rw (some_total total nonzero, far) refl

module _ {ℓ} (F : Type ℓ) ⦃f : Float F⦄ (n : ℕ) (bs : List Bucket) (total : ℤ) where
  pub report_printed :
      {p50 p90 p99 q50 q90 q99 q99_9 top : ℤ}
      → (percentile {F = F} bs total (int (pos 50)) ≡ ok p50)
        × (percentile {F = F} bs total (int (pos 90)) ≡ ok p90)
        × (percentile {F = F} bs total (int (pos 99)) ≡ ok p99)
        × (percentile {F = F} bs total (tenths 500) ≡ ok q50)
        × (percentile {F = F} bs total (tenths 900) ≡ ok q90)
        × (percentile {F = F} bs total (tenths 990) ≡ ok q99)
        × (percentile {F = F} bs total (tenths 999) ≡ ok q99_9)
        × (last_value bs ≡ ok top)
      → report F n bs total
        ≡ ok (
            merged_row n total p50 p99
            ∷ percentile_of 500 q50
            ∷ percentile_of 900 q90
            ∷ percentile_of 990 q99
            ∷ percentile_of 999 q99_9
            ∷ max_of top
            ∷ merged_count total
            ∷ merged_p50 p50
            ∷ merged_p90 p90
            ∷ merged_p99 p99
            ∷ merged_p99_9 q99_9
            ∷ merged_max top
            ∷ [])
  unfolding report
  report_printed (a, b, c, d, e, g, h, i) = rw (a, b, c, d, e, g, h, i) refl
