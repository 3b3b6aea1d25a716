-- ===== src/MergeHdr.antt =====
-- sweep/merge-hdr.py: several load generators' histograms merged into one, and its percentiles.
-- A file is a parameter: the list of its lines, or an OSError. Floats are the interface `Float`. A printed line
-- is the values that its f-string interpolates; the padding and the thousands separators are left out.
pub mod Buckets
pub mod Percentile
pub mod Counts
pub mod Ranks
pub mod RankOrder
pub mod Order
pub mod Files
pub mod Total
pub mod Report
pub mod Status
mod Tests
use raft_tests.Prelude.{
  ℕ, Bool, true, not, ◌&&◌, ◌||◌, Option, none, some, List, [], ◌∷◌, ◌++◌, arith, ◌==◌,
  if◌then◌else◌, Result, ok, err, value_error, index_error, overflow_error, ◌>>=◌, length,
  string_eq, nat_eq, int_eq, ℤ, pos, ◌+ℤ◌, ◌*ℤ◌, ltb_ℤ, leb_ℤ, int_laws,
}
use raft_tests.Python.Text.{Text, codes, strip, starts_with, split}
use raft_tests.Python.Number.{int_of}
use raft_tests.Python.Sort.{sorted}
use raft_tests.Python.Float.{Float, Num, int, float, times, to_float}

-- `(value, count)`
abbrev pub Bucket : Type 0
Bucket = ℤ × ℤ

abbrev as_int : Text → Result ℤ
as_int s = elim (int_of s) [ none ↦ err value_error | some n ↦ ok n ]

-- `value, count = line.split(",")`
bucket_of : List Text → Result Bucket
bucket_of (value ∷ count ∷ []) = do v ← as_int value; c ← as_int count; ok (v, c)
bucket_of _ = err value_error

-- the test of `continue`
is_skipped : Text → Bool
is_skipped [] = true
is_skipped (c ∷ cs) = starts_with (c ∷ cs) (codes "value")

unfoldable pub load : List Text → Result (List Bucket)
unfolding bucket_of is_skipped
load [] = ok []
load (raw ∷ lines) =
    let rest = load lines in
    let line = strip raw in
    if is_skipped line then rest else do b ← bucket_of (split b',' line); bs ← rest; ok (b ∷ bs)

-- Tuples are compared by their first parts, and by the second where those are equal.
unfoldable pub le_bucket : Bucket → Bucket → Bool
le_bucket (v, c) (w, d) = ltb_ℤ v w || (not (ltb_ℤ w v) && leb_ℤ c d)

-- `sum(c for _, c in buckets)`
unfoldable pub total_of : List Bucket → ℤ
total_of [] = pos 0
total_of ((v, c) ∷ bs) = c +ℤ total_of bs

unfoldable pub summarise : List Bucket → List Bucket × ℤ
summarise buckets = let bs = sorted le_bucket buckets in (bs, total_of bs)

-- `sorted_buckets[-1][0]`
unfoldable pub last_value : List Bucket → Result ℤ
last_value [] = err index_error
last_value ((v, c) ∷ []) = ok v
last_value (_ ∷ b ∷ bs) = last_value (b ∷ bs)

-- `path.rsplit("/", 1)[-1]`
abbrev last_part : Text → List Text → Text
last_part whole [] = whole
last_part whole (w ∷ ws) = last_part w ws

unfoldable pub base_name : Text → Text
base_name path = last_part path (split b'/' path)

pub data Line : Type 0 where
  heading : Line
  row : Text → ℤ → ℤ → ℤ → Line
  merged_row : ℕ → ℤ → ℤ → ℤ → Line
  percentile_of : ℕ → ℤ → Line
  max_of merged_count merged_p50 merged_p90 merged_p99 merged_p99_9 merged_max : ℤ → Line
  usage no_samples : Line

module _ {ℓ} {F : Type ℓ} ⦃f : Float F⦄ where
  -- whether Python converts the int in `total * pct / 100.0` to a float: the product of two ints, or the total
  unfoldable pub is_convertible : ℤ → Num F → Bool
  is_convertible total (int p) = f.fits (total *ℤ p)
  is_convertible total (float a) = f.fits total

  -- the value of `total * pct / 100.0`
  unfoldable pub rank : ℤ → Num F → F
  rank total pct = f.div (to_float (times (int total) pct)) (f.lit 1000 1)

  unfoldable pub target : ℤ → Num F → Result F
  target total pct = if is_convertible total pct then ok (rank total pct) else err overflow_error

  -- the loop, with the running total so far
  unfoldable pub reach : List Bucket → ℤ → F → Option ℤ
  reach [] seen goal = none
  reach ((value, count) ∷ bs) seen goal =
      let rest = reach bs (seen +ℤ count) goal in
      if f.int_ge (seen +ℤ count) goal then some value else rest

  unfoldable pub percentile : List Bucket → ℤ → Num F → Result ℤ
  percentile sorted_buckets total pct =
      let last = last_value sorted_buckets in
      if total == pos 0 then ok (pos 0) else (do
        goal ← target total pct
        elim (reach sorted_buckets (pos 0) goal) [ some v ↦ ok v | none ↦ last ])

  -- A float literal among the percentiles asked for: tenths of a percent.
  abbrev pub tenths : ℕ → Num F
  tenths n = float (f.lit n 1)

module _ {ℓ} (F : Type ℓ) ⦃f : Float F⦄ where
  -- one round of the loop over `paths`: the row printed, and the buckets for `merged`
  unfoldable pub file_row : (Text → Result (List Text)) → Text → Result (Line × List Bucket)
  file_row read path = do
    lines ← read path
    raw ← load lines
    let (buckets, total) = summarise raw
    p50 ← percentile {F = F} buckets total (int (pos 50))
    p99 ← percentile {F = F} buckets total (int (pos 99))
    ok (row (base_name path) total p50 p99, buckets)

  -- the loop over `paths`: the rows printed, and `merged`
  unfoldable pub add_files :
      (Text → Result (List Text)) → List Text → Result (List Line × List Bucket)
  add_files read [] = ok ([], [])
  add_files read (path ∷ paths) = do
    first ← file_row read path
    more ← add_files read paths
    ok (first.0 ∷ more.0, first.1 ++ more.1)

  -- the lines from `MERGED` on
  unfoldable pub report : ℕ → List Bucket → ℤ → Result (List Line)
  report clients buckets total = do
    p50 ← percentile {F = F} buckets total (int (pos 50))
    p99 ← percentile {F = F} buckets total (int (pos 99))
    q50 ← percentile {F = F} buckets total (tenths 500)
    q90 ← percentile {F = F} buckets total (tenths 900)
    q99 ← percentile {F = F} buckets total (tenths 990)
    q99_9 ← percentile {F = F} buckets total (tenths 999)
    top ← last_value buckets
    p90 ← percentile {F = F} buckets total (int (pos 90))
    ok (
        merged_row clients total p50 p99
        ∷ percentile_of 500 q50
        ∷ percentile_of 900 q90
        ∷ percentile_of 990 q99
        ∷ percentile_of 999 q99_9
        ∷ max_of top
        ∷ merged_count total
        ∷ merged_p50 p50
        ∷ merged_p90 p90
        ∷ merged_p99 p99
        ∷ merged_p99_9 q99_9
        ∷ merged_max top
        ∷ [])

  -- The status and the lines of both streams.
  unfoldable pub main : (Text → Result (List Text)) → List Text → Result (ℕ × List Line)
  unfolding add_files
  main read [] = ok (2, usage ∷ [])
  main read (path ∷ paths) = do
    files ← add_files read (path ∷ paths)
    let (rows, gathered) = files
    let (buckets, total) = summarise gathered
    let rest = report (length (path ∷ paths)) buckets total
    if total == pos 0
        then ok (1, heading ∷ (rows ++ (no_samples ∷ [])))
        else do lines ← rest; ok (0, heading ∷ (rows ++ lines))
