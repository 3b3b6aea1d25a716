-- ===== src/MergeHdr/Buckets.antt =====
-- sweep/merge-hdr.py: the order of the buckets, and what a sum over them does not depend on.
use raft_tests.Prelude.{
  ◌≡◌, refl, sym, ◌∙◌, ◌⊎◌, true, List, [], ◌∷◌, ◌++◌, arith, if◌then◌else◌, All, string_eq, nat_eq,
  int_eq, ℤ, pos, ◌+ℤ◌, ◌≤ℤ◌, ◌<ℤ◌, leb_ℤ, int_laws, ≤ℤ_antisymm, ℤ_dec, +ℤ_assoc, +ℤ-zero, zero-+ℤ,
  +ℤ_nonneg, +ℤ_mono,
}
use mathlib.Core.List.{Perm, Permᴰ}
use mathlib.Core.Logic.{∥∥₁_elim}
use mathlib.Core.HLevel.{hedberg}
use mathlib.Core.Path.{ap₂}
use raft_tests.Python.Sort.{sorted, IsSorted, sorted-IsSorted, sorted-perm-eq}
use raft_tests.MergeHdr.{Bucket, le_bucket, total_of}

pub le_bucket_total : (x y : Bucket) → (le_bucket x y ≡ true) ⊎ (le_bucket y x ≡ true)
unfolding le_bucket
le_bucket_total (v, c) (w, d) = ground arith

pub le_bucket_trans :
    (x y z : Bucket) → le_bucket x y ≡ true → le_bucket y z ≡ true → le_bucket x z ≡ true
unfolding le_bucket
le_bucket_trans (u, b) (v, c) (w, d) h k = ground arith

pub le_bucket_antisymm : (x y : Bucket) → le_bucket x y ≡ true → le_bucket y x ≡ true → x ≡ y
unfolding le_bucket
le_bucket_antisymm (v, c) (w, d) h k =
    let values : v ≡ w = ≤ℤ_antisymm v w (ground arith) (ground arith) in
    let counts : c ≡ d = ≤ℤ_antisymm c d (ground arith) (ground arith) in cc

pub ℤ-set : IsSet ℤ
ℤ-set = hedberg ℤ_dec

pub buckets-set : IsSet (List Bucket)
buckets-set = hlevel ℤ-set

pub le_bucket-value : (x y : Bucket) → le_bucket x y ≡ true → x.0 ≤ℤ y.0
unfolding le_bucket
le_bucket-value (v, c) (w, d) h = ground arith

pub sorted_buckets : (bs : List Bucket) → IsSorted le_bucket (sorted le_bucket bs)
sorted_buckets = sorted-IsSorted le_bucket le_bucket_total le_bucket_trans

pub sorted-buckets-perm :
    {xs ys : List Bucket} → Perm xs ys → sorted le_bucket xs ≡ sorted le_bucket ys
sorted-buckets-perm =
    sorted-perm-eq le_bucket le_bucket_total le_bucket_trans le_bucket_antisymm buckets-set

pub total_of-append : (xs ys : List Bucket) → total_of (xs ++ ys) ≡ total_of xs +ℤ total_of ys
unfolding total_of
total_of-append [] ys = sym (zero-+ℤ _)
total_of-append ((v, c) ∷ xs) ys = rw (total_of-append xs ys, +ℤ_assoc)

total_of-Permᴰ : {xs ys : List Bucket} → Permᴰ xs ys → total_of xs ≡ total_of ys
unfolding total_of
total_of-Permᴰ Permᴰ.nil = refl
total_of-Permᴰ (Permᴰ.cons {a = a} e p) = cc (e, total_of-Permᴰ p)
total_of-Permᴰ (Permᴰ.swap {a = a} {b = b} {l = l} e f) = rw (← e, ← f) (omega int_laws)
total_of-Permᴰ (Permᴰ.trans p q) = total_of-Permᴰ p ∙ total_of-Permᴰ q

pub total_of-perm : {xs ys : List Bucket} → Perm xs ys → total_of xs ≡ total_of ys
total_of-perm {xs} {ys} p = ∥∥₁_elim p (ℤ-set (total_of xs) (total_of ys)) total_of-Permᴰ

-- The counts of the buckets whose value is at most `w`.
unfoldable pub count_upto : ℤ → List Bucket → ℤ
count_upto w [] = pos 0
count_upto w ((v, c) ∷ bs) = (if leb_ℤ v w then c else pos 0) +ℤ count_upto w bs

abbrev pub NonNegative : List Bucket → Type 0
NonNegative = All λ (v, c). pos 0 ≤ℤ c

pub count_upto-above :
    (w : ℤ) (bs : List Bucket) → All (λ (v, c). w <ℤ v) bs → count_upto w bs ≡ pos 0
unfolding count_upto
count_upto-above w [] _ = refl
count_upto-above w ((v, c) ∷ bs) (h, hs) =
    rw (count_upto-above w bs hs) (ground (arith, +ℤ-zero (pos 0)))

pub count_upto_nonneg : (w : ℤ) (bs : List Bucket) → NonNegative bs → pos 0 ≤ℤ count_upto w bs
unfolding count_upto
count_upto_nonneg w [] _ = omega arith
count_upto_nonneg w ((v, c) ∷ bs) (h, hs) = ground (
  arith,
  count_upto_nonneg w bs hs,
  +ℤ_nonneg c (count_upto w bs),
  +ℤ_nonneg (pos 0) (count_upto w bs),
)

-- Every bucket counts up to a value that none exceeds.
pub count_upto-total :
    (w : ℤ) (bs : List Bucket) → All (λ (v, c). v ≤ℤ w) bs → count_upto w bs ≡ total_of bs
unfolding count_upto total_of
count_upto-total w [] _ = refl
count_upto-total w ((v, c) ∷ bs) (h, hs) = rw (count_upto-total w bs hs) (ground arith)

pub count_upto-le_total :
    (w : ℤ) (bs : List Bucket) → NonNegative bs → count_upto w bs ≤ℤ total_of bs
unfolding count_upto total_of
count_upto-le_total w [] _ = omega arith
count_upto-le_total w ((v, c) ∷ bs) (h, hs) = ground (
  arith,
  +ℤ_mono c c (count_upto w bs) (total_of bs),
  +ℤ_mono (pos 0) c (count_upto w bs) (total_of bs),
  count_upto-le_total w bs hs,
)

count_upto-Permᴰ : (w : ℤ) {xs ys : List Bucket} → Permᴰ xs ys → count_upto w xs ≡ count_upto w ys
unfolding count_upto
count_upto-Permᴰ w Permᴰ.nil = refl
count_upto-Permᴰ w (Permᴰ.cons {a = (v, c)} {b = (u, d)} e p) =
    ap₂ (λ (x : Bucket) r. (if leb_ℤ x.0 w then x.1 else pos 0) +ℤ r) e (count_upto-Permᴰ w p)
count_upto-Permᴰ w (Permᴰ.swap {a = a} {b = b} {l = l} e f) = rw (← e, ← f) (omega int_laws)
count_upto-Permᴰ w (Permᴰ.trans p q) = count_upto-Permᴰ w p ∙ count_upto-Permᴰ w q

pub count_upto-perm : (w : ℤ) {xs ys : List Bucket} → Perm xs ys → count_upto w xs ≡ count_upto w ys
count_upto-perm w {xs} {ys} p =
    ∥∥₁_elim p (ℤ-set (count_upto w xs) (count_upto w ys)) (count_upto-Permᴰ w)

pub count_upto-within :
    (w v c : ℤ) (bs : List Bucket) → v ≤ℤ w → count_upto w ((v, c) ∷ bs) ≡ c +ℤ count_upto w bs
unfolding count_upto
count_upto-within w v c bs h = ground arith
