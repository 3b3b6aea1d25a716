-- ===== src/Python/Float.antt =====
-- Python's floats: what the scripts do with a `float`, as an interface. The operations are those of IEEE 754
-- doubles; what raises in Python is written out where it is used. `IsOrdered` states the rules of
-- rounding that the proofs need: each holds of correctly rounded operations.
pub mod Millionths
use raft_tests.Prelude.{
  ◌^◌, ◌<ℤ◌, ℕ, ◌≤◌, ◌<◌, ◌≡◌, ◌*◌, Bool, true, arith, String, string_eq, nat_eq, int_eq, ℤ, pos,
  ◌+ℤ◌, ◌*ℤ◌, ◌≤ℤ◌, int_laws,
}

pub record Float {ℓ} (F : Type ℓ) : Type ℓ where
  -- `float(n)`, and whether n is near enough to 0 for it: if not, Python raises an OverflowError
  pub of_int : ℤ → F
  pub fits : ℤ → Bool
  -- the literal of the digits n with k of them behind the point
  pub lit : ℕ → ℕ → F
  pub add : F → F → F
  pub sub : F → F → F
  pub mul : F → F → F
  pub div : F → F → F
  -- `a ** b`, and `math.log10(a)` for an `a` above zero
  pub pow : F → F → F
  pub log10 : F → F
  pub lt : F → F → Bool
  pub le : F → F → Bool
  pub finite : F → Bool
  -- `n >= a`, which Python decides exactly between an int and a float
  pub int_ge : ℤ → F → Bool
  -- `math.ceil(a)`
  pub ceil : F → ℤ
  -- `f"{a:.kf}"` and `f"{a}"`
  pub fixed : ℕ → F → String
  pub repr : F → String

-- A number that is an int or a float, as the scripts' arguments and coordinates are.
pub data Num {ℓ} (F : Type ℓ) : Type ℓ where
  int : ℤ → Num F
  float : F → Num F

module _ {ℓ} {F : Type ℓ} ⦃f : Float F⦄ where
  abbrev pub to_float : Num F → F
  to_float (int n) = f.of_int n
  to_float (float a) = a

  -- `a + b`, `a * b`: of two ints an int, else a float
  abbrev pub plus : Num F → Num F → Num F
  plus (int m) (int n) = int (m +ℤ n)
  plus (int m) (float b) = float (f.add (f.of_int m) b)
  plus (float a) b = float (f.add a (to_float b))

  abbrev pub times : Num F → Num F → Num F
  times (int m) (int n) = int (m *ℤ n)
  times (int m) (float b) = float (f.mul (f.of_int m) b)
  times (float a) b = float (f.mul a (to_float b))

  infix 4 ◌≼◌
  abbrev pub ◌≼◌ : F → F → Type 0
  a ≼ b = f.le a b ≡ true

pub record IsOrdered {ℓ} (F : Type ℓ) ⦃f : Float F⦄ : Type ℓ where
  pub le_trans : (a b c : F) → a ≼ b → b ≼ c → a ≼ c
  pub of_int_mono : (m n : ℤ) → m ≤ℤ n → f.fits m ≡ true → f.fits n ≡ true → f.of_int m ≼ f.of_int n
  pub lit_mono : (m n k : ℕ) → m ≤ n → f.lit m k ≼ f.lit n k
  pub lit_finite : (n k : ℕ) → n < 1000000 → f.finite (f.lit n k) ≡ true
  -- Multiplying and dividing by a finite number that is not negative keeps the order.
  pub mul_mono :
      (n : ℤ) (a b : F)
      → pos 0 ≤ℤ n
      → f.fits n ≡ true
      → f.finite a ≡ true
      → f.finite b ≡ true
      → a ≼ b
      → f.mul (f.of_int n) a ≼ f.mul (f.of_int n) b
  pub div_mono :
      (a b : F) (n k : ℕ)
      → 0 < n
      → n < 1000000
      → k < 20
      → a ≼ b
      → f.div a (f.lit n k) ≼ f.div b (f.lit n k)
  -- A larger int passes what a smaller one passes, and a lower mark is passed by what passes a higher one.
  pub int_ge_mono : (m n : ℤ) (a : F) → m ≤ℤ n → f.int_ge m a ≡ true → f.int_ge n a ≡ true
  pub int_ge-le : (n : ℤ) (a b : F) → b ≼ a → f.int_ge n a ≡ true → f.int_ge n b ≡ true
  -- A product of ints stays at or below the product with a literal that is larger by a tenth: rounding takes less.
  pub int_mul-le :
      (n : ℤ) (p q : ℕ)
      → pos 0 ≤ℤ n
      → p * 10 < q
      → q < 1000000
      → f.fits n ≡ true
      → f.fits (n *ℤ pos p) ≡ true
      → f.of_int (n *ℤ pos p) ≼ f.mul (f.of_int n) (f.lit q 1)
  -- The quotient of two ints whose first is below 2 ^ 52: it is finite, above each int that the exact quotient is
  -- above, and not above one that the exact quotient is not above. The divisor is a literal with the digit 0.
  pub div_finite :
      (n d : ℕ)
      → 0 < d
      → d < 100000
      → n < 2 ^ 52
      → f.finite (f.div (f.of_int (pos n)) (f.lit (d * 10) 1)) ≡ true
  pub lt_div :
      (n k d : ℕ)
      → 0 < d
      → d < 100000
      → n < 2 ^ 52
      → k * d < n
      → f.lt (f.of_int (pos k)) (f.div (f.of_int (pos n)) (f.lit (d * 10) 1)) ≡ true
  pub div-le :
      (n k d : ℕ)
      → 0 < d
      → d < 100000
      → n < 2 ^ 52
      → k < 2 ^ 52
      → n ≤ k * d
      → f.div (f.of_int (pos n)) (f.lit (d * 10) 1) ≼ f.of_int (pos k)
  -- `math.ceil(a)` is the least int that is not below a.
  pub lt_ceil :
      (k : ℕ) (a : F) → f.finite a ≡ true → f.lt (f.of_int (pos k)) a ≡ true → pos k <ℤ f.ceil a
  pub ceil-le : (k : ℕ) (a : F) → f.finite a ≡ true → a ≼ f.of_int (pos k) → f.ceil a ≤ℤ pos k
