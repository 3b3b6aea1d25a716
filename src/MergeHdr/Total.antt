-- ===== src/MergeHdr/Total.antt =====
-- sweep/merge-hdr.py: when the loop over the files returns, for files that can be read and parsed.
use raft_tests.Prelude.{
  true, ◌≢◌, ap, sym, ◌∙◌, ◌⊎◌, Option, some, none, ◌*ℤ◌, weaken_All, overflow_error, Outcome,
  >>=-Outcome, then-Outcome, IsOk, ◌>>=◌, ◌≡◌, refl, inl, inr, List, [], ◌∷◌, arith, ◌==◌, Result,
  ok, Bool-cases, All, string_eq, option_eq, pair_eq, list_eq, nat_eq, int_eq, ℤ, pos,
}
use raft_tests.Python.Text.{Text}
use raft_tests.Python.Sort.{sorted}
use raft_tests.Python.Float.{Float, Num, int}
use raft_tests.MergeHdr.{
  Bucket, Line, load, le_bucket, total_of, summarise, last_value, is_convertible, rank, reach,
  percentile, base_name, row, file_row, add_files,
}
use raft_tests.MergeHdr.Buckets.{total_of-perm}
use raft_tests.MergeHdr.Ranks.{percentile_ranked, percentile_overflow}
use raft_tests.Python.Sort.{sorted-perm}
use mathlib.Core.Bool.{true≢false}

pub last_value-Returns : (b : Bucket) (bs : List Bucket) → (v : ℤ) × (last_value (b ∷ bs) ≡ ok v)
unfolding last_value
last_value-Returns (v, c) [] = (v, refl)
last_value-Returns (v, c) (b ∷ bs) = last_value-Returns b bs

-- The total is 0, for which no rank is computed, or Python can convert its product with the int to a float.
abbrev pub HasRank {ℓ} : (F : Type ℓ) ⦃f : Float F⦄ → ℤ → ℤ → Type 0
HasRank F ⦃f⦄ total p = (total ≡ pos 0) ⊎ (f.fits (total *ℤ p) ≡ true)

module _ {ℓ} {F : Type ℓ} ⦃f : Float F⦄ where
  -- With a rank that can be computed `percentile` returns.
  pub percentile-IsOk :
      (b : Bucket) (bs : List Bucket) (pct : Num F)
      → total_of (b ∷ bs) ≢ pos 0
      → is_convertible (total_of (b ∷ bs)) pct ≡ true
      → IsOk (percentile (b ∷ bs) (total_of (b ∷ bs)) pct)
  percentile-IsOk b bs pct nonzero fine =
      let (last, ends) = last_value-Returns b bs in
      rw (percentile_ranked (b ∷ bs) (total_of (b ∷ bs)) pct nonzero fine ends)
        (either last (reach (b ∷ bs) (pos 0) (rank (total_of (b ∷ bs)) pct)))
    where
      either :
          (last : ℤ) (found : Option ℤ)
          → IsOk (elim found as (λ _. Result ℤ) [ some v ↦ ok v | none ↦ ok last ])
      either last none = (last, refl)
      either last (some v) = (v, refl)

  percentile_zero :
      (bs : List Bucket) (total : ℤ) (pct : Num F)
      → total ≡ pos 0
      → percentile bs total pct ≡ ok (pos 0)
  unfolding percentile
  percentile_zero bs total pct zero_total = ground (arith, zero_total)

module _ {ℓ} (F : Type ℓ) ⦃f : Float F⦄ where
  percentile-Outcome :
      (bs : List Bucket) (p : ℤ)
      → Outcome
          (HasRank F (total_of bs) p)
          overflow_error
          (percentile {F = F} bs (total_of bs) (int p))
  unfolding is_convertible
  percentile-Outcome bs p = elim (Bool-cases (total_of bs == pos 0)) [
    | inl hit ↦
        let empty : total_of bs ≡ pos 0 = ground (arith, hit) in
        inl (inl empty, (pos 0, percentile_zero {F = F} bs (total_of bs) (int p) empty))
    | inr miss ↦
        let full : total_of bs ≢ pos 0 = ground (arith, miss) in
        elim (Bool-cases (f.fits (total_of bs *ℤ p))) [
          | inl fine ↦ inl (inr fine, nonempty bs full fine)
          | inr far ↦ inr (
            (λ has. elim has [ inl empty ↦ full empty | inr fine ↦ true≢false (sym fine ∙ far) ]),
            percentile_overflow {F = F} bs (total_of bs) (int p) full far,
          )
        ]
  ]
    where
      nonempty :
          (bs' : List Bucket)
          → total_of bs' ≢ pos 0
          → f.fits (total_of bs' *ℤ p) ≡ true
          → IsOk (percentile {F = F} bs' (total_of bs') (int p))
      nonempty [] full fine = absurd (full (unfold total_of in refl))
      nonempty (b ∷ bs') full fine = percentile-IsOk {F = F} b bs' (int p) full fine

-- The file can be read, and each of its lines is a bucket or skipped.
abbrev pub IsLoadable : (Text → Result (List Text)) → Text → Type 0
IsLoadable read path =
    (lines : List Text) × (read path ≡ ok lines) × (raw : List Bucket) × (load lines ≡ ok raw)

module _ {ℓ} (F : Type ℓ) ⦃f : Float F⦄ (read : Text → Result (List Text)) where
  -- The total of the file's counts is 0, or Python can convert its products with 50 and with 99 to floats.
  abbrev pub HasRow : Text → Type 0
  HasRow path =
      (lines : List Text) × (read path ≡ ok lines)
      × (raw : List Bucket) × (load lines ≡ ok raw)
      × HasRank F (total_of raw) (pos 50)
      × HasRank F (total_of raw) (pos 99)

  abbrev row_with : Text → List Bucket → ℤ → Result (Line × List Bucket)
  row_with path bs total = do
    p50 ← percentile {F = F} bs total (int (pos 50))
    p99 ← percentile {F = F} bs total (int (pos 99))
    ok (row (base_name path) total p50 p99, bs)

  row-Outcome :
      (path : Text) (bs : List Bucket)
      → Outcome
          (HasRank F (total_of bs) (pos 50) × HasRank F (total_of bs) (pos 99))
          overflow_error
          (row_with path bs (total_of bs))
  row-Outcome path bs =
      >>=-Outcome _ _ overflow_error _ _ (percentile-Outcome F bs (pos 50)) λ _ p50 _.
        then-Outcome _ overflow_error _ _ (percentile-Outcome F bs (pos 99)) (λ _ p99 _. (_, refl))

  file_row-Outcome :
      (path : Text)
      → IsLoadable read path
      → Outcome (HasRow path) overflow_error (file_row F read path)
  unfolding file_row summarise
  file_row-Outcome path (lines, there, raw, loads) =
      elim (row-Outcome path (sorted le_bucket raw)) [
        | inl ((p50, p99), (r, e)) ↦
            inl
              ((lines, there, raw, loads, rw same at p50, rw same at p99), (r, rw (there, loads) e))
        | inr (far, e) ↦ inr (
          (λ (lines', there', raw', loads', p50, p99).
              let one : lines' ≡ lines = ok_injective (sym there' ∙ there) in
              let two : raw' ≡ raw = ok_injective (sym loads' ∙ ap load one ∙ loads) in
              far (rw (same, ← two) p50, rw (same, ← two) p99)),
          rw (there, loads) e,
        )
      ]
    where
      same : total_of (sorted le_bucket raw) ≡ total_of raw
      same = total_of-perm (sorted-perm le_bucket raw)

      ok_injective : {A : Type 0} {a b : A} → ok a ≡ ok b → a ≡ b
      ok_injective h = ground (arith, h)

  -- For files that can be read and parsed, the loop over them returns if each file's total is 0 or Python can convert
  -- its products with 50 and with 99 to floats, and else it raises an OverflowError.
  pub add_files-Outcome :
      (paths : List Text)
      → All (IsLoadable read) paths
      → Outcome (All HasRow paths) overflow_error (add_files F read paths)
  unfolding add_files
  add_files-Outcome [] _ = inl (tt, (([], []), refl))
  add_files-Outcome (path ∷ paths) (l, ls) =
      >>=-Outcome (HasRow path) (All HasRow paths) overflow_error (file_row F read path) _
        (file_row-Outcome path l)
        λ _ first _.
          then-Outcome (All HasRow paths) overflow_error (add_files F read paths) _
            (add_files-Outcome paths ls) (λ _ more _. (_, refl))

  HasRow-IsLoadable : (path : Text) → HasRow path → IsLoadable read path
  HasRow-IsLoadable path (lines, there, raw, loads, _, _) = (lines, there, raw, loads)

  -- Without the overflow the loop returns.
  pub add_files-IsOk : (paths : List Text) → All HasRow paths → IsOk (add_files F read paths)
  add_files-IsOk paths rows =
      elim (add_files-Outcome paths
        (weaken_All HasRow (IsLoadable read) paths HasRow-IsLoadable rows)) [
          | inl (_, returns) ↦ returns
          | inr (far, _) ↦ absurd (far rows)
        ]
