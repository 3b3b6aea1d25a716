-- ===== src/MergeHdr/RankOrder.antt =====
-- sweep/merge-hdr.py: the ranks of a total rise with the percentage, be it an int or a float.
use raft_tests.Prelude.{
  ℕ, ◌*◌, ◌≤◌, ◌<◌, ◌≡◌, true, arith, string_eq, option_eq, pair_eq, list_eq, nat_eq, int_eq, ℤ,
  pos, negsuc, ◌*ℤ◌, ◌≤ℤ◌, *ℤ-pos,
}
use native.Mathlib.Nat.{mul-le-mul, le_refl}
use raft_tests.Python.Float.{Float, IsOrdered, ◌≼◌, int}
use raft_tests.MergeHdr.{rank, tenths}

*ℤ_mono : (n : ℤ) (p q : ℕ) → pos 0 ≤ℤ n → p ≤ q → n *ℤ pos p ≤ℤ n *ℤ pos q
*ℤ_mono (pos n) p q _ le = rw (*ℤ-pos n p, *ℤ-pos n q) (raised (mul-le-mul (le_refl n) le))
  where
    raised : {a b : ℕ} → a ≤ b → pos a ≤ℤ pos b
    raised h = omega (arith, h)
*ℤ_mono (negsuc n) p q low le = absurd (omega (arith, low))

module _ {ℓ} {F : Type ℓ} ⦃f : Float F⦄ (laws : IsOrdered F) where
  open laws use {int_ge-le, mul_mono, div_mono, of_int_mono, lit_mono, lit_finite, int_mul-le}

  pub rank_mono :
      (total : ℤ) (p q : ℕ)
      → pos 0 ≤ℤ total
      → f.fits total ≡ true
      → p ≤ q
      → q < 1000000
      → rank total (tenths {F = F} p) ≼ rank total (tenths {F = F} q)
  unfolding rank
  rank_mono total p q h fit le small =
      div_mono _ _ 1000 1 (omega arith) (omega arith) (omega arith) (
        mul_mono total (f.lit p 1) (f.lit q 1) h fit (lit_finite p 1 (omega arith))
          (lit_finite q 1 small) (lit_mono p q 1 le))

  pub rank_mono_int :
      (total : ℤ) (p q : ℕ)
      → pos 0 ≤ℤ total
      → p ≤ q
      → f.fits (total *ℤ pos p) ≡ true
      → f.fits (total *ℤ pos q) ≡ true
      → rank {F = F} total (int (pos p)) ≼ rank {F = F} total (int (pos q))
  unfolding rank
  rank_mono_int total p q h le fp fq =
      div_mono _ _ 1000 1 (omega arith) (omega arith) (omega arith)
        (of_int_mono (total *ℤ pos p) (total *ℤ pos q) (*ℤ_mono total p q h le) fp fq)

  pub rank_int-le :
      (total : ℤ) (p q : ℕ)
      → pos 0 ≤ℤ total
      → p * 10 < q
      → q < 1000000
      → f.fits total ≡ true
      → f.fits (total *ℤ pos p) ≡ true
      → rank {F = F} total (int (pos p)) ≼ rank total (tenths {F = F} q)
  unfolding rank
  rank_int-le total p q h less small fit fp =
      div_mono _ _ 1000 1 (omega arith) (omega arith) (omega arith)
        (int_mul-le total p q h less small fit fp)
