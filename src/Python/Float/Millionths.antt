-- ===== src/Python/Float/Millionths.antt =====
-- The laws of `Float.IsOrdered` can be met: numbers that are not negative, in millionths and cut off below.
-- A theorem's witness uses it; `log10` counts digits, and `pow` gives back its base.
use native.Mathlib.Nat.{le-div_iff_mul-le, div-le_of_le-mul}
use raft_tests.Prelude.{
  ltb→lt, ℕ, zero, suc, ◌+◌, ◌-◌, ◌*◌, ◌/◌, ◌^◌, ◌≤◌, ◌<◌, ◌≡◌, ℤ, negsuc, refl, true, ◌&&◌, arith,
  if◌then◌else◌, ltb, leb, leb→le, ◌≤ℤ◌, ◌*ℤ◌, *ℤ-pos, string_eq, nat_eq, int_eq, pos, pos_part,
  neg_part,
}
use raft_tests.Python.Float.{Float, IsOrdered}
use raft_tests.Python.Number.{show_nat}

abbrev pub Millionths : Type 0
Millionths = ℕ

digit_count : ℕ → ℕ → ℕ
digit_count zero n = 0
digit_count (suc f) n = let rest = digit_count f (n / 10) in if ltb n 10 then 0 else rest + 1

-- 10 ^ (6 - k), at most
abbrev scale : ℕ → ℕ
scale k = 10 ^ (6 - k)

instance unfoldable pub millionths_float : Float Millionths
unfolding digit_count
millionths_float = record {
  of_int = λ n. pos_part n * 1000000;
  fits = λ n. ltb (pos_part n) (10 ^ 300) && ltb (neg_part n) (10 ^ 300);
  lit = λ n k. n * scale k;
  add = λ a b. a + b;
  sub = λ a b. a - b;
  mul = λ a b. a * b / 1000000;
  div = λ a b. a * 1000000 / b;
  pow = λ a b. a;
  log10 = λ a. digit_count 20 a * 1000000;
  lt = ltb;
  le = leb;
  finite = λ a. true;
  int_ge = λ n a. leb a (pos_part n * 1000000) && leb (neg_part n) 0;
  ceil = λ a. pos ((a + 999999) / 1000000);
  fixed = λ k a. show_nat (a / 1000000);
  repr = λ a. show_nat (a / 1000000);
}

raise : {a b : ℕ} → leb a b ≡ true → a ≤ b
raise {a} {b} h = leb→le a b h

lower : {a b : ℕ} → a ≤ b → leb a b ≡ true
lower h = ground arith

ltb_of : {a b : ℕ} → a < b → ltb a b ≡ true
ltb_of h = ground (arith, h)

scaled : (n a b : ℕ) → a ≤ b → n * 1000000 * a ≤ n * 1000000 * b
scaled n a b h = grind arith

grown : (d a b : ℕ) → a ≤ b → a * d ≤ b * d
grown d a b h = grind arith

shrunk : (d a b : ℕ) → a ≤ b → a / d ≤ b / d
shrunk zero a b h = omega arith
shrunk (suc d) a b h = grind arith

grown' : (d a b : ℕ) → a ≤ b → d * a ≤ d * b
grown' d a b h = grind arith

above_int : (n p q : ℕ) → p * 10 < q → n * p * 1000000 ≤ n * 1000000 * (q * 100000) / 1000000
above_int n p q h =
    let most : n * (p * 1000000) ≤ n * (q * 100000) =
      grown' n (p * 1000000) (q * 100000) (omega arith) in
    omega arith

above_int_ℤ :
    (n : ℤ) (p q : ℕ)
    → pos 0 ≤ℤ n
    → p * 10 < q
    → leb (pos_part (n *ℤ pos p) * 1000000) (pos_part n * 1000000 * (q * 100000) / 1000000) ≡ true
above_int_ℤ (pos n) p q _ h = rw (*ℤ-pos n p) (lower (above_int n p q h))
above_int_ℤ (negsuc n) p q low h = absurd (omega (arith, low))

quotient_above :
    (n k d : ℕ)
    → 0 < d
    → d < 100000
    → k * d < n
    → k * 1000000 < n * 1000000 * 1000000 / (d * 10 * 100000)
quotient_above n k d above small h =
    let divisor : 0 < d * 10 * 100000 = omega (arith, above) in
    let parts : (k * 1000000 + 1) * (d * 10 * 100000) ≡ k * d * 1000000000000 + d * 1000000 =
      grind arith in
    let fits : (k * 1000000 + 1) * (d * 10 * 100000) ≤ n * 1000000 * 1000000 =
      omega (arith, parts, small, h) in
    let next : k * 1000000 + 1 ≤ n * 1000000 * 1000000 / (d * 10 * 100000) =
      (le-div_iff_mul-le {x = k * 1000000 + 1} {y = n * 1000000 * 1000000} divisor).1 fits in
    omega (arith, next)

quotient_upto : (n k d : ℕ) → n ≤ k * d → n * 1000000 * 1000000 / (d * 10 * 100000) ≤ k * 1000000
quotient_upto n k d h =
    let parts : d * 10 * 100000 * (k * 1000000) ≡ k * d * 1000000000000 = grind arith in
    let fits : n * 1000000 * 1000000 ≤ d * 10 * 100000 * (k * 1000000) = omega (arith, parts, h) in
    div-le_of_le-mul (d * 10 * 100000) fits

pub Millionths-IsOrdered : IsOrdered Millionths
unfolding millionths_float
Millionths-IsOrdered = record {
  le_trans = λ a b c h k. ground arith;
  of_int_mono = λ m n h _ _. ground arith;
  lit_mono = λ m n k h. lower (grown (scale k) m n h);
  lit_finite = λ n k h. refl;
  mul_mono = λ n a b _ _ _ _ h. lower (omega (arith, scaled (pos_part n) a b (raise h)));
  div_mono = λ a b n k _ _ _ h.
      lower (shrunk (n * scale k) (a * 1000000) (b * 1000000) (omega (arith, raise h)));
  int_ge_mono = λ m n a h k. ground arith;
  int_ge-le = λ n a b h k. ground arith;
  int_mul-le = λ n p q le h _ _ _. above_int_ℤ n p q le h;
  div_finite = λ n d _ _ _. refl;
  lt_div = λ n k d pos_d small _ h. ltb_of (quotient_above n k d pos_d small h);
  div-le = λ n k d pos_d _ _ _ h. lower (quotient_upto n k d h);
  lt_ceil = λ k a _ h. omega (arith, ltb→lt (k * 1000000) a h);
  ceil-le = λ k a _ h. omega (arith, raise h);
}
