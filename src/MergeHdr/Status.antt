-- ===== src/MergeHdr/Status.antt =====
-- sweep/merge-hdr.py: the exit status.
use raft_tests.Prelude.{
  ℕ, ◌≡◌, refl, sym, ap, ◌∙◌, ◌≢◌, ◌⊎◌, inl, inr, List, [], ◌∷◌, ◌++◌, arith, ◌==◌, if◌then◌else◌,
  Result, ok, err, overflow_error, ◌>>=◌, Bool-cases, length, All, string_eq, option_eq, pair_eq,
  list_eq, nat_eq, int_eq, ℤ, pos,
}
use raft_tests.Python.Text.{Text}
use raft_tests.Python.Sort.{sorted, sorted-perm}
use raft_tests.Python.Float.{Float}
use raft_tests.MergeHdr.{
  Bucket, Line, heading, usage, no_samples, le_bucket, total_of, summarise, add_files, report, main,
}
use raft_tests.MergeHdr.Buckets.{total_of-perm}
use raft_tests.MergeHdr.Ranks.{HasRanks}
use raft_tests.MergeHdr.Total.{HasRow, add_files-IsOk}
use raft_tests.MergeHdr.Report.{Prints, report-Reported}

module _ {ℓ} (F : Type ℓ) ⦃f : Float F⦄ where
  -- what `main` does with the rows and the merged buckets
  ending : ℕ → List Line × List Bucket → Result (ℕ × List Line)
  ending n files =
      let (buckets, total) = summarise (files.1) in
      if total == pos 0
      then ok (1, heading ∷ (files.0 ++ (no_samples ∷ [])))
      else (do lines ← report F n buckets total; ok (0, heading ∷ (files.0 ++ lines)))

  main-ending :
      (read : Text → Result (List Text)) (path : Text) (paths : List Text)
      (files : List Line × List Bucket)
      → add_files F read (path ∷ paths) ≡ ok files
      → main F read (path ∷ paths) ≡ ending (length (path ∷ paths)) files
  unfolding main ending
  main-ending read path paths files added = ap (λ r. r >>= ending (length (path ∷ paths))) added

  ending_empty :
      (n : ℕ) (files : List Line × List Bucket)
      → total_of (files.1) ≡ pos 0
      → ending n files ≡ ok (1, heading ∷ (files.0 ++ (no_samples ∷ [])))
  unfolding ending summarise
  ending_empty n files zero_total =
      if_true _ _ (total_of-perm (sorted-perm le_bucket (files.1)) ∙ zero_total)
    where
      if_true : {A : Type 0} {t : ℤ} (x y : A) → t ≡ pos 0 → (if t == pos 0 then x else y) ≡ x
      if_true x y h = ground (arith, h)

  -- How a run over files ends, from the rows and the merged buckets.
  abbrev pub Ends : ℕ → List Line → List Bucket → Result (ℕ × List Line) → Type 0
  Ends n rows merged r =
      let total = total_of merged in
      ((total ≡ pos 0) × (r ≡ ok (1, heading ∷ (rows ++ (no_samples ∷ [])))))
      ⊎ ((total ≢ pos 0)
          × HasRanks F total
          × Prints F n (summarise merged).0 total (λ lines. r ≡ ok (0, heading ∷ (rows ++ lines))))
      ⊎ ((total ≢ pos 0) × (HasRanks F total → ⊥) × (r ≡ err overflow_error))

  ending_full :
      (n : ℕ) (files : List Line × List Bucket) (bs : List Bucket)
      → sorted le_bucket (files.1) ≡ bs
      → total_of bs ≡ total_of (files.1)
      → total_of (files.1) ≢ pos 0
      → ending n files
        ≡ (do lines ← report F n bs (total_of (files.1)); ok (0, heading ∷ (files.0 ++ lines)))
  unfolding ending summarise
  ending_full n files bs is_sorted same nonzero = rw (is_sorted, same) (if_false _ _ nonzero)
    where
      if_false : {A : Type 0} {t : ℤ} (x y : A) → t ≢ pos 0 → (if t == pos 0 then x else y) ≡ y
      if_false x y h = ground (arith, h)

  ending-Ends :
      (n : ℕ) (rows : List Line) (merged : List Bucket)
      → Ends n rows merged (ending n (rows, merged))
  unfolding summarise
  ending-Ends n rows merged = elim (Bool-cases (total_of merged == pos 0)) [
    | inl hit ↦
        let empty : total_of merged ≡ pos 0 = ground (arith, hit) in
        inl (empty, ending_empty n (rows, merged) empty)
    | inr miss ↦
        let full : total_of merged ≢ pos 0 = ground (arith, miss) in
        go (sorted le_bucket merged) refl (total_of-perm (sorted-perm le_bucket merged)) full
  ]
    where
      go :
          (bs : List Bucket)
          → sorted le_bucket merged ≡ bs
          → total_of bs ≡ total_of merged
          → total_of merged ≢ pos 0
          → Ends n rows merged (ending n (rows, merged))
      go [] is_sorted same full = absurd (full (sym same ∙ unfold total_of in refl))
      go (b ∷ bs) is_sorted same full =
          let ends = ending_full n (rows, merged) (b ∷ bs) is_sorted same full in
          elim (report-Reported F n b bs (total_of merged) same full) [
            | inl
                  (
                    ranks,
                    (p50, p90, p99, q50, q90, q99, q99_9, top, a, b', c, d, e, g, h, i, shown),
                  ) ↦
                inr (
                  inl (
                    full,
                    ranks,
                    rw is_sorted (
                      p50,
                      p90,
                      p99,
                      q50,
                      q90,
                      q99,
                      q99_9,
                      top,
                      a,
                      b',
                      c,
                      d,
                      e,
                      g,
                      h,
                      i,
                      ends ∙ rw shown refl,
                    ),
                  ))
            | inr (far, raised) ↦ inr (inr (full, far, ends ∙ rw raised refl))
          ]

  -- Without paths the script prints its usage and exits with 2. With paths, let every file be read and parsed, with a
  -- row as above: then the loop over the files returns. If the merged counts add up to 0, the script prints the heading,
  -- the files' rows and that there are no samples, and exits with 1. If not, and if Python can convert the total and its
  -- products with 50, 90 and 99 to floats, it prints the heading, the rows, the merged row, the four percentiles, the
  -- maximum and the six merged_ lines, each with its own percentile of the merged buckets, and exits with 0. Else it ends
  -- in an OverflowError.
  pub main-status :
      (read : Text → Result (List Text)) (path : Text) (paths : List Text)
      → All (HasRow F read) (path ∷ paths)
      → (main F read [] ≡ ok (2, usage ∷ []))
        × ((rows : List Line) × (merged : List Bucket) × (add_files F read (path ∷ paths)
              ≡ ok (rows, merged))
            × Ends (length (path ∷ paths)) rows merged (main F read (path ∷ paths)))
  unfolding main
  main-status read path paths has_rows =
      let ((rows, merged), added) = add_files-IsOk F read (path ∷ paths) has_rows in
      let ends = main-ending read path paths (rows, merged) added in
      let n = length (path ∷ paths) in
      (refl, (rows, merged, added, rw ends (ending-Ends n rows merged)))
