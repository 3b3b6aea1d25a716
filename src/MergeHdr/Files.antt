-- ===== src/MergeHdr/Files.antt =====
-- sweep/merge-hdr.py, `main`: what the merged histogram has of the files, and that their order is no matter.
use raft_tests.Prelude.{
  ap, ◌≡◌, refl, sym, inl, inr, List, [], ◌∷◌, ◌++◌, arith, Result, ok, Result-cases, length,
  string_eq, nat_eq, int_eq, ℤ, pos, ◌+ℤ◌, +ℤ-zero, zero-+ℤ,
}
use mathlib.Core.List.{Perm, Permᴰ, append_assoc, perm_append_comm}
use mathlib.Core.List.Perm
use mathlib.Core.Logic.{∥∥₁_elim}
use raft_tests.Python.Text.{Text}
use raft_tests.Python.Float.{Float}
use raft_tests.Python.Sort.{sorted, sorted-perm}
use raft_tests.MergeHdr.{
  Bucket, Line, row, le_bucket, total_of, load, summarise, add_files, file_row,
}
use raft_tests.MergeHdr.Buckets.{
  total_of-append, total_of-perm, sorted-buckets-perm, buckets-set, ℤ-set,
}

-- The sum of the counts that the rows print.
unfoldable pub row_counts : List Line → ℤ
row_counts [] = pos 0
row_counts (row name count p50 p99 ∷ rows) = count +ℤ row_counts rows
row_counts (_ ∷ rows) = row_counts rows

perm_rotate : (xs ys zs : List Bucket) → Perm (xs ++ (ys ++ zs)) (ys ++ (xs ++ zs))
perm_rotate xs ys zs =
    rw (← append_assoc xs ys zs, ← append_assoc ys xs zs)
      (Perm.append (perm_append_comm xs ys) (Perm.refl zs))

summarise_total : (raw : List Bucket) → (summarise raw).1 ≡ total_of raw
unfolding summarise
summarise_total raw = total_of-perm (sorted-perm le_bucket raw)

module _ {ℓ} (F : Type ℓ) ⦃f : Float F⦄ (read : Text → Result (List Text)) where
  abbrev Parts : Text → List Text → List Line → List Bucket → Type 0
  Parts path paths rows m =
      (line : Line) × (buckets : List Bucket) × (rows' : List Line) × (m' : List Bucket) × (file_row
          F read path
        ≡ ok (line, buckets))
      × (add_files F read paths ≡ ok (rows', m'))
      × (rows ≡ line ∷ rows')
      × (m ≡ buckets ++ m')

  add_files-Parts :
      (path : Text) (paths : List Text) {rows : List Line} {m : List Bucket}
      → add_files F read (path ∷ paths) ≡ ok (rows, m)
      → Parts path paths rows m
  unfolding add_files
  add_files-Parts path paths h = elim (Result-cases (file_row F read path)) [
    | inr (x, e) ↦ absurd (ground arith)
    | inl ((line, buckets), e) ↦ elim (Result-cases (add_files F read paths)) [
      | inr (x, e') ↦ absurd (ground arith)
      | inl ((rows', m'), e') ↦ (line, buckets, rows', m', e, e', ground arith, ground arith)
    ]
  ]

  row_counts-cons :
      (line : Line) (rows : List Line)
      → row_counts (line ∷ rows) ≡ row_counts (line ∷ []) +ℤ row_counts rows
  unfolding row_counts
  row_counts-cons (row name count p50 p99) rows = rw +ℤ-zero
  row_counts-cons _ rows = sym (zero-+ℤ _)

  file_row-total :
      (path : Text) {line : Line} {buckets : List Bucket}
      → file_row F read path ≡ ok (line, buckets)
      → row_counts (line ∷ []) ≡ total_of buckets
  unfolding file_row summarise row_counts
  file_row-total path {line} {buckets} h = elim (Result-cases (read path)) [
    | inr (x, e) ↦ absurd (ground arith)
    | inl (lines, e) ↦ elim (Result-cases (load lines)) [
      | inr (x, e') ↦ absurd (ground arith)
      | inl (raw, e') ↦
          let same = total_of-perm (sorted-perm le_bucket raw) in
          ground (arith, same, +ℤ-zero (total_of raw))
    ]
  ]

  -- If the loop over the files returns, the count of the merged histogram is the sum of the counts in
  -- the files' rows, and there is a row for each file.
  pub add_files-total :
      (paths : List Text) {rows : List Line} {merged : List Bucket}
      → add_files F read paths ≡ ok (rows, merged)
      → (row_counts rows ≡ (summarise merged).1) × (length rows ≡ length paths)
  unfolding add_files
  add_files-total [] {rows} {merged} h = unfold summarise row_counts total_of sorted in ground arith
  add_files-total (path ∷ paths) {rows} {merged} h =
      let (line, buckets, rows', m', e, e', er, em) = add_files-Parts path paths h in
      let (counted, as_many) = add_files-total paths e' in
      (
        rw
            (
              er,
              em,
              row_counts-cons,
              file_row-total path e,
              counted,
              summarise_total m',
              summarise_total (buckets ++ m'),
            )
            (sym (total_of-append buckets m')),
        rw er (omega (arith, as_many)),
      )

  abbrev Shuffled : List Text → List Bucket → Type 0
  Shuffled ys m =
      (rows : List Line) × (m' : List Bucket) × (add_files F read ys ≡ ok (rows, m')) × Perm m m'

  add_files-Permᴰ :
      {xs ys : List Text}
      → Permᴰ xs ys
      → {rows : List Line} {m : List Bucket} → add_files F read xs ≡ ok (rows, m)
      → Shuffled ys m
  unfolding add_files
  add_files-Permᴰ Permᴰ.nil {rows} {m} h = (rows, m, h, Perm.refl m)
  add_files-Permᴰ (Permᴰ.cons {a = a} {b = b} {l₁ = xs} {l₂ = ys} e p) {rows} {m} h =
      let (line, buckets, rows', m', f₁, f₂, er, em) = add_files-Parts a xs h in
      let (others, m'', g, s) = add_files-Permᴰ p f₂ in
      (line ∷ others, buckets ++ m'', rw (← e, f₁, g) refl, rw em (Perm.append_left buckets s))
  add_files-Permᴰ (Permᴰ.swap {a = a} {b = b} {a' = a'} {b' = b'} {l = l} e e') {rows} {m} h =
      let (line, buckets, rows', m', f₁, f₂, er, em) = add_files-Parts a (b ∷ l) h in
      let (line', buckets', rows'', m'', g₁, g₂, er', em') = add_files-Parts b l f₂ in
      (
        line' ∷ line ∷ rows'',
        buckets' ++ (buckets ++ m''),
        rw (← e, ← e', f₁, g₁, g₂) refl,
        rw (em, em') (perm_rotate buckets buckets' m''),
      )
  add_files-Permᴰ (Permᴰ.trans p q) h =
      let (rows, m', h', s) = add_files-Permᴰ p h in
      let (rows', m'', h'', t) = add_files-Permᴰ q h' in (rows', m'', h'', Perm.trans s t)

  -- The order of the files on the command line is no matter: when the loop returns for two orders of the
  -- same files, the merged histograms are equal after the sort, and so are their totals.
  pub add_files-perm :
      {xs ys : List Text} {rows rows' : List Line} {m m' : List Bucket}
      → Perm xs ys
      → add_files F read xs ≡ ok (rows, m)
      → add_files F read ys ≡ ok (rows', m')
      → summarise m ≡ summarise m'
  unfolding summarise
  add_files-perm {xs} {ys} {rows} {rows'} {m} {m'} p h h' =
      ∥∥₁_elim p (hlevel (buckets-set, ℤ-set)) λ d.
        let (others, found, g, same) = add_files-Permᴰ d h in
        let known : found ≡ m' = ground arith in
        let same' : Perm m m' = rw known at same in
        ap (λ bs. (bs, total_of bs)) (sorted-buckets-perm same')
