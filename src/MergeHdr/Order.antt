-- ===== src/MergeHdr/Order.antt =====
-- sweep/merge-hdr.py: the percentiles of one histogram rise with the rank, up to its maximum.
use raft_tests.Prelude.{
  true, ℕ, ◌≤◌, ◌<◌, ◌≡◌, refl, sym, ◌∙◌, ◌≢◌, inl, inr, none, some, List, [], ◌∷◌, arith, ok,
  Bool-cases, Option-cases, All, string_eq, nat_eq, int_eq, ℤ, pos, ◌+ℤ◌, ◌*ℤ◌, ◌≤ℤ◌, +ℤ_nonneg,
  Option,
}
use raft_tests.Python.Sort.{IsSorted, sorted, sorted-perm, All-sorted}
use raft_tests.Python.Float.{Float, IsOrdered, Num, ◌≼◌, int}
use raft_tests.MergeHdr.{
  Bucket, le_bucket, total_of, summarise, is_convertible, rank, reach, percentile, tenths, report,
  merged_row, percentile_of, max_of, merged_count, merged_p50, merged_p90, merged_p99, merged_p99_9,
  merged_max,
}
use raft_tests.MergeHdr.RankOrder.{rank_mono, rank_mono_int, rank_int-le}
use raft_tests.MergeHdr.Ranks.{HasRanks, percentile_ranked, report_printed}
use raft_tests.MergeHdr.Buckets.{sorted_buckets, total_of-perm, NonNegative}
use raft_tests.MergeHdr.Percentile.{HasValue, last_value_max, at_least, reach-ge, reach-at}

total_of_nonneg : (bs : List Bucket) → NonNegative bs → pos 0 ≤ℤ total_of bs
unfolding total_of
total_of_nonneg [] _ = omega arith
total_of_nonneg ((v, c) ∷ bs) (h, hs) = +ℤ_nonneg c (total_of bs) h (total_of_nonneg bs hs)

HasValue-le : (v m : ℤ) (bs : List Bucket) → All (λ (u, c). u ≤ℤ m) bs → HasValue v bs → v ≤ℤ m
HasValue-le v m [] _ r = absurd r
HasValue-le v m (b ∷ bs) (h, hs) (inl e) = rw (← e) h
HasValue-le v m (b ∷ bs) (h, hs) (inr r) = HasValue-le v m bs hs r

module _ {ℓ} {F : Type ℓ} ⦃f : Float F⦄ (laws : IsOrdered F) where
  open laws use {int_ge-le}

  -- A lower mark is passed no later.
  reach_mono :
      (bs : List Bucket) (seen : ℤ) (low high : F) {w : ℤ}
      → IsSorted le_bucket bs
      → low ≼ high
      → reach bs seen high ≡ some w
      → (v : ℤ) × (reach bs seen low ≡ some v) × (v ≤ℤ w)
  unfolding reach
  reach_mono [] seen low high s le e = cc
  reach_mono ((u, c) ∷ bs) seen low high {w} (first, rest) le e =
      elim (Bool-cases (f.int_ge (seen +ℤ c) high)) [
        | inl stop ↦
            let sooner = int_ge-le (seen +ℤ c) high low le stop in (u, rw sooner, ground arith)
        | inr go ↦
            let e' : reach bs (seen +ℤ c) high ≡ some w = ground arith in
            elim (Bool-cases (f.int_ge (seen +ℤ c) low)) [
              | inl stop ↦
                  (u, rw stop, reach-ge laws high u bs (seen +ℤ c) w (at_least u c bs first) e')
              | inr go' ↦ rw go' (reach_mono bs (seen +ℤ c) low high rest le e')
            ]
      ]

  module _ (b : Bucket) (bs : List Bucket) (sorted_bs : IsSorted le_bucket (b ∷ bs))
      (n : NonNegative (b ∷ bs)) (nonzero : total_of (b ∷ bs) ≢ pos 0)
      (ranks : HasRanks F (total_of (b ∷ bs))) where
    abbrev total : ℤ
    total = total_of (b ∷ bs)

    abbrev maximum : ℤ
    maximum = (last_value_max b bs sorted_bs).0

    -- Every rank has a value.
    value : Num F → ℤ
    value pct = elim (reach (b ∷ bs) (pos 0) (rank total pct)) [ some v ↦ v | none ↦ maximum ]

    percentile-value :
        (pct : Num F)
        → is_convertible total pct ≡ true
        → percentile (b ∷ bs) total pct ≡ ok (value pct)
    unfolding value
    percentile-value pct fine =
        percentile_ranked (b ∷ bs) total pct nonzero fine ((last_value_max b bs sorted_bs).1)
        ∙ either (reach (b ∷ bs) (pos 0) (rank total pct))
      where
        either :
            (found : Option ℤ)
            → (elim found [ some v ↦ ok v | none ↦ ok maximum ])
              ≡ ok (elim found [ some v ↦ v | none ↦ maximum ])
        either none = refl
        either (some v) = refl

    value-le_max : (pct : Num F) → value pct ≤ℤ maximum
    unfolding value
    value-le_max pct = elim (Option-cases (reach (b ∷ bs) (pos 0) (rank total pct))) [
      | inl e ↦ rw (e, value) (omega arith)
      | inr (v, e) ↦
          let among = (reach-at laws (rank total pct) (b ∷ bs) (pos 0) v sorted_bs n e).1 in
          rw (e, value) (HasValue-le v maximum (b ∷ bs) ((last_value_max b bs sorted_bs).3) among)
    ]

    value_mono : (p q : Num F) → rank total p ≼ rank total q → value p ≤ℤ value q
    unfolding value
    value_mono p q low = elim (Option-cases (reach (b ∷ bs) (pos 0) (rank total q))) [
      | inl e ↦ let top : value q ≡ maximum = rw (e, value) refl in rw top (value-le_max p)
      | inr (w, e) ↦
          let (v, e', h) = reach_mono (b ∷ bs) (pos 0) _ _ sorted_bs low e in
          rw (e, value) (rw (e', value) h)
    ]

    value-tenths :
        (p q : ℕ) → p ≤ q → q < 1000000 → value (tenths {F = F} p) ≤ℤ value (tenths {F = F} q)
    value-tenths p q le small =
        value_mono (tenths p) (tenths q)
          (rank_mono laws total p q (total_of_nonneg (b ∷ bs) n) (ranks.3) le small)

    value-ints :
        (p q : ℕ)
        → p ≤ q
        → f.fits (total *ℤ pos p) ≡ true
        → f.fits (total *ℤ pos q) ≡ true
        → value (int (pos p)) ≤ℤ value (int (pos q))
    value-ints p q le fp fq =
        value_mono (int (pos p)) (int (pos q))
          (rank_mono_int laws total p q (total_of_nonneg (b ∷ bs) n) le fp fq)

    value-int_tenths : value (int (pos 99)) ≤ℤ value (tenths 999)
    value-int_tenths = value_mono (int (pos 99)) (tenths 999) (
        rank_int-le laws total 99 999 (total_of_nonneg (b ∷ bs) n) (omega arith) (omega arith)
          (ranks.3) (ranks.2))

    report-value :
        (clients : ℕ)
        → report F clients (b ∷ bs) total
          ≡ ok (
              merged_row clients total (value (int (pos 50))) (value (int (pos 99)))
              ∷ percentile_of 500 (value (tenths 500))
              ∷ percentile_of 900 (value (tenths 900))
              ∷ percentile_of 990 (value (tenths 990))
              ∷ percentile_of 999 (value (tenths 999))
              ∷ max_of maximum
              ∷ merged_count total
              ∷ merged_p50 (value (int (pos 50)))
              ∷ merged_p90 (value (int (pos 90)))
              ∷ merged_p99 (value (int (pos 99)))
              ∷ merged_p99_9 (value (tenths 999))
              ∷ merged_max maximum
              ∷ [])
    unfolding is_convertible
    report-value clients = report_printed F clients (b ∷ bs) total (
      percentile-value (int (pos 50)) (ranks.0),
      percentile-value (int (pos 90)) (ranks.1),
      percentile-value (int (pos 99)) (ranks.2),
      percentile-value (tenths 500) (ranks.3),
      percentile-value (tenths 900) (ranks.3),
      percentile-value (tenths 990) (ranks.3),
      percentile-value (tenths 999) (ranks.3),
      (last_value_max b bs sorted_bs).1,
    )

  abbrev pub IsRisingReport : ℕ → List Bucket → ℤ → Type 0
  IsRisingReport clients buckets total =
      (p50 p99 q50 q90 q99 q99_9 top p90 : ℤ) × (report F clients buckets total
        ≡ ok (
            merged_row clients total p50 p99
            ∷ percentile_of 500 q50
            ∷ percentile_of 900 q90
            ∷ percentile_of 990 q99
            ∷ percentile_of 999 q99_9
            ∷ max_of top
            ∷ merged_count total
            ∷ merged_p50 p50
            ∷ merged_p90 p90
            ∷ merged_p99 p99
            ∷ merged_p99_9 q99_9
            ∷ merged_max top
            ∷ []))
      × (p50 ≤ℤ p90)
      × (p90 ≤ℤ p99)
      × (p99 ≤ℤ q99_9)
      × (q50 ≤ℤ q90)
      × (q90 ≤ℤ q99)
      × (q99 ≤ℤ q99_9)
      × (q99_9 ≤ℤ top)

  -- For a histogram with no negative count and a total other than 0, where Python can convert the total and its
  -- products with 50, 90 and 99 to floats, the report is printed in full. merged_p50, merged_p90, merged_p99 and
  -- merged_p99_9 do not fall in this order, nor do the four percentiles printed above them; merged_max is at least
  -- merged_p99_9, and the count is the histogram's.
  pub report_ordered :
      (raw : List Bucket) (clients : ℕ)
      → NonNegative raw
      → total_of raw ≢ pos 0
      → HasRanks F (total_of raw)
      → IsRisingReport clients (summarise raw).0 (total_of raw)
  unfolding summarise
  report_ordered raw clients n nonzero ranks =
      go (sorted le_bucket raw) (sorted_buckets raw) (All-sorted le_bucket _ raw n)
        (total_of-perm (sorted-perm le_bucket raw))
    where
      go :
          (bs : List Bucket)
          → IsSorted le_bucket bs
          → NonNegative bs
          → total_of bs ≡ total_of raw
          → IsRisingReport clients bs (total_of raw)
      go [] s m same = absurd (nonzero (sym same ∙ unfold total_of in refl))
      go (b ∷ bs) s m same =
          let some_total : total_of (b ∷ bs) ≢ pos 0 = rw same nonzero in
          let ranks' : HasRanks F (total_of (b ∷ bs)) = rw same ranks in
          let val : Num F → ℤ = value b bs s m some_total ranks' in
          let up = value-tenths b bs s m some_total ranks' in
          let up_int = value-ints b bs s m some_total ranks' in
          (
            val (int (pos 50)),
            val (int (pos 99)),
            val (tenths 500),
            val (tenths 900),
            val (tenths 990),
            val (tenths 999),
            maximum b bs s m some_total ranks',
            val (int (pos 90)),
            rw same at (report-value b bs s m some_total ranks' clients),
            up_int 50 90 (omega arith) (ranks'.0) (ranks'.1),
            up_int 90 99 (omega arith) (ranks'.1) (ranks'.2),
            value-int_tenths b bs s m some_total ranks',
            up 500 900 (omega arith) (omega arith),
            up 900 990 (omega arith) (omega arith),
            up 990 999 (omega arith) (omega arith),
            value-le_max b bs s m some_total ranks' (tenths 999),
          )
