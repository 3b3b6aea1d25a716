-- ===== src/MergeHdr/Tests.antt =====
-- Runs of sweep/merge-hdr.py over numbers in millionths, and its theorems at concrete files.
use raft_tests.Prelude.{
  ℕ, ◌^◌, ◌≡◌, refl, inr, Bool, true, false, List, [], ◌∷◌, arith, ◌==◌, if◌then◌else◌, Result, ok,
  err, value_error, os_error, overflow_error, Outcome, length, All, string_eq, option_eq, pair_eq,
  list_eq, nat_eq, int_eq, ℤ, pos, ◌+ℤ◌, ◌*ℤ◌, leb_ℤ,
}
use mathlib.Core.List.Perm
use raft_tests.Python.Text.{Text, codes, strip, starts_with, split}
use raft_tests.Python.Number.{int_of}
use raft_tests.Python.Sort.{sorted, insort}
use raft_tests.Python.Float.{Num, int}
use raft_tests.Python.Float.Millionths.{Millionths, millionths_float, Millionths-IsOrdered}
use raft_tests.MergeHdr.{
  Bucket, Line, heading, row, merged_row, percentile_of, max_of, merged_count, merged_p50,
  merged_p90, merged_p99, merged_p99_9, merged_max, usage, no_samples, load, le_bucket, total_of,
  summarise, last_value, base_name, is_convertible, rank, target, reach, percentile, file_row,
  add_files, report, main,
}
use raft_tests.MergeHdr.Buckets.{count_upto}
use raft_tests.MergeHdr.Status.{Ends, main-status}
use raft_tests.MergeHdr.Counts.{SameCounts, percentile-SameCounts}
use raft_tests.MergeHdr.Percentile.{HasValue, IsLeast, percentile-IsLeast}
use raft_tests.MergeHdr.Order.{IsRisingReport, report_ordered}
use raft_tests.MergeHdr.Total.{IsLoadable, HasRow, add_files-Outcome}
use raft_tests.MergeHdr.Files.{row_counts, add_files-total, add_files-perm}

abbrev quick : List Text
quick = codes "value,count" ∷ codes "100,5\n" ∷ codes "300,1" ∷ codes "" ∷ codes " 200 , 4" ∷ []

abbrev slow : List Text
slow = codes "900,90" ∷ []

abbrev empty_file : List Text
empty_file = codes "value,count" ∷ []

abbrev disk : Text → Result (List Text)
disk (c ∷ _) =
    if c == b'q'
    then ok quick
    else if c == b's'
    then ok slow
    else if c == b'e'
    then ok empty_file
    else err os_error
disk [] = err os_error

run : List Text → Result (ℕ × List Line)
unfolding main load strip starts_with split int_of summarise total_of le_bucket sorted insort
    percentile reach target rank is_convertible last_value base_name report file_row
    millionths_float nat_eq int_eq ◌+ℤ◌ ◌*ℤ◌
run paths = main Millionths disk paths

one_file :
    run (codes "q.csv" ∷ [])
    ≡ ok (
      0,
      heading
          ∷ row (codes "q.csv") (pos 10) (pos 100) (pos 300)
          ∷ merged_row 1 (pos 10) (pos 100) (pos 300)
          ∷ percentile_of 500 (pos 100)
          ∷ percentile_of 900 (pos 200)
          ∷ percentile_of 990 (pos 300)
          ∷ percentile_of 999 (pos 300)
          ∷ max_of (pos 300)
          ∷ merged_count (pos 10)
          ∷ merged_p50 (pos 100)
          ∷ merged_p90 (pos 200)
          ∷ merged_p99 (pos 300)
          ∷ merged_p99_9 (pos 300)
          ∷ merged_max (pos 300)
          ∷ [],
    )
unfolding run
one_file = refl

failures :
    (run [] ≡ ok (2, usage ∷ []))
    × (run (codes "e" ∷ [])
        ≡ ok (1, heading ∷ row (codes "e") (pos 0) (pos 0) (pos 0) ∷ no_samples ∷ []))
    × (run (codes "gone" ∷ []) ≡ err os_error)
    × (load (codes "1,2,3" ∷ []) ≡ err value_error)
    × (base_name (codes "a/b/c.csv") ≡ codes "c.csv")
unfolding run
failures = (refl, refl, refl, refl, refl)

abbrev histogram : List Bucket
histogram = (pos 300, pos 1) ∷ (pos 100, pos 5) ∷ (pos 200, pos 4) ∷ []

abbrev half : Num Millionths
half = int (pos 50)

percentile-IsLeast_example :
    (v : ℤ) × (percentile (summarise histogram).0 (pos 10) half ≡ ok v)
    × HasValue v (summarise histogram).0
    × IsLeast Millionths-IsOrdered half histogram 5000000 v
unfolding run
percentile-IsLeast_example =
    percentile-IsLeast Millionths-IsOrdered half histogram (omega arith) (λ h. cc) refl refl

report_ordered_example : IsRisingReport Millionths-IsOrdered 3 (summarise histogram).0 (pos 10)
unfolding run
report_ordered_example =
    report_ordered Millionths-IsOrdered histogram 3 (omega arith) (λ h. cc) (refl, refl, refl, refl)

abbrev both : List Text
both = codes "q" ∷ codes "s" ∷ []

abbrev rows : List Line
rows =
    row (codes "q") (pos 10) (pos 100) (pos 300) ∷ row (codes "s") (pos 90) (pos 900) (pos 900) ∷ []

abbrev union : List Bucket
union = (pos 100, pos 5) ∷ (pos 200, pos 4) ∷ (pos 300, pos 1) ∷ (pos 900, pos 90) ∷ []

add_files-total_example : (row_counts rows ≡ (summarise union).1) × (length rows ≡ 2)
unfolding run
add_files-total_example = add_files-total Millionths disk both {rows = rows} {merged = union} refl

add_files-perm_example :
    summarise union
    ≡ summarise ((pos 900, pos 90) ∷ (pos 100, pos 5) ∷ (pos 200, pos 4) ∷ (pos 300, pos 1) ∷ [])
unfolding run
add_files-perm_example =
    add_files-perm Millionths disk {rows = rows} (Perm.swap (codes "s") (codes "q") []) refl refl

both-HasRow : All (HasRow Millionths disk) both
unfolding run
both-HasRow = (
  (
    quick,
    refl,
    (pos 100, pos 5) ∷ (pos 300, pos 1) ∷ (pos 200, pos 4) ∷ [],
    refl,
    inr refl,
    inr refl,
  ),
  ((slow, refl, (pos 900, pos 90) ∷ [], refl, inr refl, inr refl), tt),
)

both-IsLoadable : All (IsLoadable disk) both
unfolding run
both-IsLoadable = (
  (quick, refl, (pos 100, pos 5) ∷ (pos 300, pos 1) ∷ (pos 200, pos 4) ∷ [], refl),
  ((slow, refl, (pos 900, pos 90) ∷ [], refl), tt),
)

add_files-Outcome_example :
    Outcome (All (HasRow Millionths disk) both) overflow_error (add_files Millionths disk both)
add_files-Outcome_example = add_files-Outcome Millionths disk both both-IsLoadable

-- A count beyond the floats: the walk is not reached.
too_many :
    percentile {F = Millionths} ((pos 1, pos (10 ^ 299)) ∷ []) (pos (10 ^ 299)) half
    ≡ err overflow_error
unfolding run
too_many = refl

-- the samples of the histogram, the eight at 100 and 200 in other buckets
abbrev respread : List Bucket
respread = (pos 200, pos 1) ∷ (pos 100, pos 5) ∷ (pos 300, pos 1) ∷ (pos 200, pos 3) ∷ []

recounted :
    (t o u : Bool)
    → (if t then pos 1 else pos 0)
        +ℤ ((if o then pos 5 else pos 0) +ℤ ((if u then pos 4 else pos 0) +ℤ pos 0))
      ≡ (if u then pos 1 else pos 0)
        +ℤ ((if o then pos 5 else pos 0)
            +ℤ ((if t then pos 1 else pos 0) +ℤ ((if u then pos 3 else pos 0) +ℤ pos 0)))
unfolding ◌+ℤ◌
recounted true true true = refl
recounted true true false = refl
recounted true false true = refl
recounted true false false = refl
recounted false true true = refl
recounted false true false = refl
recounted false false true = refl
recounted false false false = refl

respread-SameCounts : SameCounts histogram respread
unfolding total_of ◌+ℤ◌ count_upto
respread-SameCounts =
    (refl, λ w. recounted (leb_ℤ (pos 300) w) (leb_ℤ (pos 100) w) (leb_ℤ (pos 200) w))

percentile-SameCounts_example :
    percentile (summarise histogram).0 (summarise histogram).1 half
    ≡ percentile (summarise respread).0 (summarise respread).1 half
unfolding run
percentile-SameCounts_example =
    percentile-SameCounts Millionths-IsOrdered half histogram respread (omega arith) (omega arith)
      respread-SameCounts (λ h. cc) refl refl

main-status_example :
    (main Millionths disk [] ≡ ok (2, usage ∷ []))
    × ((rows : List Line) × (merged : List Bucket) × (add_files Millionths disk both
          ≡ ok (rows, merged))
        × Ends Millionths 2 rows merged (main Millionths disk both))
main-status_example = main-status Millionths disk (codes "q") (codes "s" ∷ []) both-HasRow
