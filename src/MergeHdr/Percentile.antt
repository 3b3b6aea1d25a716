-- ===== src/MergeHdr/Percentile.antt =====
-- sweep/merge-hdr.py, `percentile`: which value it returns.
use raft_tests.Prelude.{
  ◌≡◌, refl, ◌≢◌, ◌⊎◌, inl, inr, true, false, none, some, List, [], ◌∷◌, arith, ◌==◌, ok,
  Bool-cases, eq-false_of_not, Option-cases, All, ◌>>=◌, string_eq, nat_eq, int_eq, ℤ, pos, ◌+ℤ◌,
  ◌≤ℤ◌, ◌<ℤ◌, leb_ℤ, int_laws, leb_ℤ→le, +ℤ_assoc, +ℤ-zero, zero-+ℤ,
}
use raft_tests.Python.Sort.{IsSorted, sorted, sorted-perm, All-sorted}
use raft_tests.Python.Float.{Float, IsOrdered, Num}
use raft_tests.MergeHdr.{
  Bucket, le_bucket, total_of, summarise, target, reach, percentile, last_value,
}
use raft_tests.MergeHdr.Buckets.{
  le_bucket-value, sorted_buckets, total_of-perm, count_upto, count_upto-perm, NonNegative,
  count_upto-above, count_upto_nonneg, count_upto-total, count_upto-le_total, count_upto-within,
}

above :
    (u c w : ℤ) (bs : List Bucket)
    → All (λ x. le_bucket (u, c) x ≡ true) bs
    → w <ℤ u
    → All (λ (v, d). w <ℤ v) bs
above u c w [] _ h = tt
above u c w (x ∷ bs) (k, ks) h =
    let up = le_bucket-value (u, c) x k in (omega arith, above u c w bs ks h)

pub at_least :
    (u c : ℤ) (bs : List Bucket)
    → All (λ x. le_bucket (u, c) x ≡ true) bs
    → All (λ (v, d). u ≤ℤ v) bs
at_least u c [] _ = tt
at_least u c (x ∷ bs) (k, ks) = (le_bucket-value (u, c) x k, at_least u c bs ks)

-- The value is that of a bucket.
abbrev pub HasValue : ℤ → List Bucket → Type 0
HasValue v [] = ⊥
HasValue v (b ∷ bs) = (b.0 ≡ v) ⊎ HasValue v bs

-- The last bucket of a sorted list has the largest value.
pub last_value_max :
    (b : Bucket) (bs : List Bucket)
    → IsSorted le_bucket (b ∷ bs)
    → (v : ℤ) × (last_value (b ∷ bs) ≡ ok v) × HasValue v (b ∷ bs) × All (λ (u, c). u ≤ℤ v) (b ∷ bs)
unfolding last_value
last_value_max (u, c) [] _ = (u, refl, inl refl, (omega arith, tt))
last_value_max (u, c) (x ∷ bs) ((k, _), rest) =
    let (v, e, among, most) = last_value_max x bs rest in
    let up = le_bucket-value (u, c) x k in (v, e, inr among, (omega arith, most))

module _ {ℓ} {F : Type ℓ} ⦃f : Float F⦄ (laws : IsOrdered F) (goal : F) where
  open laws use {int_ge_mono}

  abbrev Passes : ℤ → Type 0
  Passes n = f.int_ge n goal ≡ true

  -- Where the loop stops at `v`, no count up to a smaller value passes, unless the loop began above.
  reach-below :
      (bs : List Bucket) (seen v w : ℤ)
      → IsSorted le_bucket bs
      → reach bs seen goal ≡ some v
      → w <ℤ v
      → Passes (seen +ℤ count_upto w bs)
      → Passes seen
  unfolding reach
  reach-below [] seen v w s e h p = cc
  reach-below ((u, c) ∷ bs) seen v w (first, rest) e h p = elim (Bool-cases (leb_ℤ u w)) [
    | inr out ↦
        let lower : w <ℤ u = ground arith in
        rw (count_upto-above w ((u, c) ∷ bs) (lower, above u c w bs first lower), +ℤ-zero) at p
    | inl within ↦
        let le = leb_ℤ→le u w within in
        let p' : Passes (seen +ℤ c +ℤ count_upto w bs) =
          rw (+ℤ_assoc, ← count_upto-within w u c bs le) p in
        elim (Bool-cases (f.int_ge (seen +ℤ c) goal)) [
          | inl stop ↦ absurd (ground arith)
          | inr go ↦
              let again : Passes (seen +ℤ c) =
                reach-below bs (seen +ℤ c) v w rest (ground arith) h p' in
              cc
        ]
  ]

  pub reach-ge :
      (u : ℤ) (bs : List Bucket) (seen v : ℤ)
      → All (λ (w, d). u ≤ℤ w) bs
      → reach bs seen goal ≡ some v
      → u ≤ℤ v
  unfolding reach
  reach-ge u [] seen v m e = cc
  reach-ge u ((w, c) ∷ bs) seen v (m, ms) e = ground (arith, reach-ge u bs (seen +ℤ c) v ms)

  -- Where the loop stops, the count up to that value passes, and the value is a bucket's.
  pub reach-at :
      (bs : List Bucket) (seen v : ℤ)
      → IsSorted le_bucket bs
      → NonNegative bs
      → reach bs seen goal ≡ some v
      → Passes (seen +ℤ count_upto v bs) × HasValue v bs
  unfolding reach
  reach-at [] seen v s n e = cc
  reach-at ((u, c) ∷ bs) seen v (first, rest) (n, ns) e =
      elim (Bool-cases (f.int_ge (seen +ℤ c) goal)) [
        | inl stop ↦
            let here : u ≡ v = ground arith in
            let counted = count_upto-within v u c bs (rw here (omega arith)) in
            let more = count_upto_nonneg v bs ns in
            (
              rw counted (
                  int_ge_mono (seen +ℤ c) (seen +ℤ (c +ℤ count_upto v bs)) goal (omega int_laws)
                    stop),
              inl here,
            )
        | inr go ↦
            let e' : reach bs (seen +ℤ c) goal ≡ some v = ground arith in
            let (p, among) = reach-at bs (seen +ℤ c) v rest ns e' in
            let below = reach-ge u bs (seen +ℤ c) v (at_least u c bs first) e' in
            (rw (count_upto-within v u c bs below, ← +ℤ_assoc) p, inr among)
      ]

  reach-none :
      (b : Bucket) (bs : List Bucket) (seen : ℤ)
      → reach (b ∷ bs) seen goal ≡ none
      → f.int_ge (seen +ℤ total_of (b ∷ bs)) goal ≡ false
  unfolding reach total_of
  reach-none (u, c) [] seen e = rw (+ℤ-zero) (ground arith)
  reach-none (u, c) (x ∷ bs) seen e =
      rw (← +ℤ_assoc seen c _) (ground (arith, reach-none x bs (seen +ℤ c)))

module _ {ℓ} {F : Type ℓ} ⦃f : Float F⦄ (laws : IsOrdered F) (pct : Num F) where
  open laws use {int_ge_mono}

  abbrev pub IsLeast : List Bucket → F → ℤ → Type 0
  IsLeast bs goal v =
      ((w : ℤ) → w <ℤ v → f.int_ge (count_upto w bs) goal ≡ false)
      × ((f.int_ge (count_upto v bs) goal ≡ true) ⊎ (count_upto v bs ≡ total_of bs))

  total≢zero : (n : ℤ) → n ≢ pos 0 → (n == pos 0) ≡ false
  total≢zero n h = ground arith

  sorted-IsLeast :
      (bs : List Bucket) (goal : F)
      → IsSorted le_bucket bs
      → NonNegative bs
      → total_of bs ≢ pos 0
      → target (total_of bs) pct ≡ ok goal
      → f.int_ge (pos 0) goal ≡ false
      → (v : ℤ) × (percentile bs (total_of bs) pct ≡ ok v) × HasValue v bs × IsLeast bs goal v
  unfolding percentile
  sorted-IsLeast [] goal s n nonzero is_goal low = absurd (nonzero (unfold total_of in refl))
  sorted-IsLeast (b ∷ bs) goal s n nonzero is_goal low =
      elim (Option-cases (reach (b ∷ bs) (pos 0) goal)) [
        | inl never ↦
            let (v, last, among, most) = last_value_max b bs s in
            let short = rw zero-+ℤ at (reach-none laws goal b bs (pos 0) never) in
            (
              v,
              rw (total≢zero _ nonzero, is_goal, ◌>>=◌, never, last),
              among,
              (
                λ w h. eq-false_of_not _ λ passes.
                    let le = count_upto-le_total w (b ∷ bs) n in
                    let all =
                      int_ge_mono (count_upto w (b ∷ bs)) (total_of (b ∷ bs)) goal le passes in
                    cc,
                inr (count_upto-total v (b ∷ bs) most),
              ),
            )
        | inr (v, e) ↦
            let (passes, among) = reach-at laws goal (b ∷ bs) (pos 0) v s n e in
            (
              v,
              rw (total≢zero _ nonzero, is_goal, ◌>>=◌, e),
              among,
              (
                λ w h. eq-false_of_not _ λ passes.
                    let start =
                      reach-below laws goal (b ∷ bs) (pos 0) v w s e h (rw zero-+ℤ passes) in
                    cc,
                inl (rw zero-+ℤ at passes),
              ),
            )
      ]

  -- For a histogram with no negative count and a total other than 0, and a rank that Python can compute and that
  -- lies above 0, `percentile` returns. The value is one of the histogram's, no count up to a smaller value reaches the rank, and
  -- either the count up to the value itself does, or all counts lie at or below it.
  pub percentile-IsLeast :
      (raw : List Bucket) {goal : F}
      → NonNegative raw
      → total_of raw ≢ pos 0
      → target (total_of raw) pct ≡ ok goal
      → f.int_ge (pos 0) goal ≡ false
      → let (bs, total) = summarise raw in
        (v : ℤ) × (percentile bs total pct ≡ ok v) × HasValue v bs × IsLeast raw goal v
  unfolding summarise
  percentile-IsLeast raw {goal} n nonzero is_goal low =
      let bs = sorted le_bucket raw in
      let p = sorted-perm le_bucket raw in
      let same = total_of-perm p in
      let (v, e, among, least) =
        sorted-IsLeast bs goal (sorted_buckets raw) (All-sorted le_bucket _ raw n) (rw same nonzero)
          (rw same is_goal) low in
      (
        v,
        e,
        among,
        (
          λ w h. rw (count_upto-perm w p) at (least.0 w h),
          elim (least.1) [
            | inl passes ↦ inl (rw (count_upto-perm v p) at passes)
            | inr whole ↦ inr (rw (count_upto-perm v p, same) at whole)
          ],
        ),
      )
