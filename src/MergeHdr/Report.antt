-- ===== src/MergeHdr/Report.antt =====
-- sweep/merge-hdr.py: the merged report is printed in full, or ends in an OverflowError.
use raft_tests.Prelude.{
  ℕ, ◌≡◌, refl, sym, ◌∙◌, ◌≢◌, ◌⊎◌, inl, inr, true, false, List, [], ◌∷◌, ok, err, overflow_error,
  ◌>>=◌, IsOk, Bool-cases, string_eq, option_eq, pair_eq, list_eq, nat_eq, int_eq, ℤ, pos, ◌*ℤ◌,
}
use mathlib.Core.Bool.{true≢false}
use raft_tests.Python.Float.{Float, Num, int}
use raft_tests.MergeHdr.{
  Bucket, Line, total_of, last_value, percentile, is_convertible, tenths, report, merged_row,
  percentile_of, max_of, merged_count, merged_p50, merged_p90, merged_p99, merged_p99_9, merged_max,
}
use raft_tests.MergeHdr.Ranks.{HasRanks, percentile_overflow, report_printed}
use raft_tests.MergeHdr.Total.{last_value-Returns, percentile-IsOk}

module _ {ℓ} (F : Type ℓ) ⦃f : Float F⦄ where
  -- The lines of a report, each with the percentile of its own rank.
  abbrev pub Prints : ℕ → List Bucket → ℤ → (List Line → Type 0) → Type 0
  Prints n bs total Shown =
      (p50 p90 p99 q50 q90 q99 q99_9 top : ℤ) × (percentile {F = F} bs total (int (pos 50))
        ≡ ok p50)
      × (percentile {F = F} bs total (int (pos 90)) ≡ ok p90)
      × (percentile {F = F} bs total (int (pos 99)) ≡ ok p99)
      × (percentile {F = F} bs total (tenths 500) ≡ ok q50)
      × (percentile {F = F} bs total (tenths 900) ≡ ok q90)
      × (percentile {F = F} bs total (tenths 990) ≡ ok q99)
      × (percentile {F = F} bs total (tenths 999) ≡ ok q99_9)
      × (last_value bs ≡ ok top)
      × Shown (
          merged_row n total p50 p99
          ∷ percentile_of 500 q50
          ∷ percentile_of 900 q90
          ∷ percentile_of 990 q99
          ∷ percentile_of 999 q99_9
          ∷ max_of top
          ∷ merged_count total
          ∷ merged_p50 p50
          ∷ merged_p90 p90
          ∷ merged_p99 p99
          ∷ merged_p99_9 q99_9
          ∷ merged_max top
          ∷ [])

  abbrev pub Reported : ℕ → List Bucket → ℤ → Type 0
  Reported n bs total =
      (HasRanks F total × Prints n bs total (λ lines. report F n bs total ≡ ok lines))
      ⊎ ((HasRanks F total → ⊥) × (report F n bs total ≡ err overflow_error))

  module _ (n : ℕ) (b : Bucket) (bs : List Bucket) (total : ℤ) (same : total_of (b ∷ bs) ≡ total)
      (nonzero : total ≢ pos 0) where
    over :
        (pct : Num F)
        → is_convertible total pct ≡ false
        → percentile (b ∷ bs) total pct ≡ err overflow_error
    over pct far = percentile_overflow (b ∷ bs) total pct nonzero far

    value : (pct : Num F) → is_convertible total pct ≡ true → IsOk (percentile (b ∷ bs) total pct)
    value pct fine = rw same at (percentile-IsOk b bs pct (rw same nonzero) (rw same fine))

    -- Only the product with 90 is left to convert.
    fine-Reported :
        f.fits (total *ℤ pos 50) ≡ true
        → f.fits (total *ℤ pos 99) ≡ true
        → f.fits total ≡ true
        → Reported n (b ∷ bs) total
    unfolding report is_convertible
    fine-Reported fine50 fine99 fine =
        let (p50, e50) = value (int (pos 50)) fine50 in
        let (p99, e99) = value (int (pos 99)) fine99 in
        let (q50, d50) = value (tenths 500) fine in
        let (q90, d90) = value (tenths 900) fine in
        let (q99, d99) = value (tenths 990) fine in
        let (q99_9, d99_9) = value (tenths 999) fine in
        let (top, ends) = last_value-Returns b bs in
        elim (Bool-cases (f.fits (total *ℤ pos 90))) [
          | inr far90 ↦ inr (
            (λ (_, h, _, _). true≢false (sym h ∙ far90)),
            rw (e50, ◌>>=◌, e99, d50, d90, d99, d99_9, ends, over (int (pos 90)) far90) refl,
          )
          | inl fine90 ↦
              let (p90, e90) = value (int (pos 90)) fine90 in
              let shown =
                report_printed F n (b ∷ bs) total (e50, e90, e99, d50, d90, d99, d99_9, ends) in
              inl (
                (fine50, fine90, fine99, fine),
                (
                  p50, p90, p99, q50, q90, q99, q99_9, top, e50, e90, e99, d50, d90, d99, d99_9,
                  ends, shown,
                ),
              )
        ]

    -- A report is printed in full or ends in an OverflowError.
    pub report-Reported : Reported n (b ∷ bs) total
    unfolding report is_convertible
    report-Reported = elim (Bool-cases (f.fits (total *ℤ pos 50))) [
      | inr far50 ↦
          inr ((λ (h, _, _, _). true≢false (sym h ∙ far50)), rw (over (int (pos 50)) far50) refl)
      | inl fine50 ↦
          let (p50, e50) = value (int (pos 50)) fine50 in
          elim (Bool-cases (f.fits (total *ℤ pos 99))) [
            | inr far99 ↦ inr (
              (λ (_, _, h, _). true≢false (sym h ∙ far99)),
              rw (e50, ◌>>=◌, over (int (pos 99)) far99) refl,
            )
            | inl fine99 ↦
                let (p99, e99) = value (int (pos 99)) fine99 in
                elim (Bool-cases (f.fits total)) [
                  | inr far ↦ inr (
                    (λ (_, _, _, h). true≢false (sym h ∙ far)),
                    rw (e50, ◌>>=◌, e99, over (tenths 500) far) refl,
                  )
                  | inl fine ↦ fine-Reported fine50 fine99 fine
                ]
          ]
    ]
