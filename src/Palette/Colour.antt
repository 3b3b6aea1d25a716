-- ===== src/Palette/Colour.antt =====
-- sweep/validate_palette.py: the colour arithmetic, over the interface `Float`.
use raft_tests.Prelude.{
  ℕ, ◌+◌, ◌-◌, ◌*◌, ◌&&◌, Option, none, some, [], ◌∷◌, ◌==◌, if◌then◌else◌, Result, ok, err,
  value_error, ◌>>=◌, leb, string_eq, option_eq, pair_eq, nat_eq, int_eq, ℤ, pos, sub_ℕ,
}
use raft_tests.Python.Text.{Text, is_space}
use raft_tests.Python.Float.{Float}

-- `r, g, b`, or the three values of a colour in another space
abbrev pub Rgb {ℓ} : Type ℓ → Type ℓ
Rgb F = F × F × F

-- `CVD`'s keys
pub data Kind : Type 0 where
  protan deutan tritan : Kind

hex_digit : ℕ → Option ℕ
hex_digit c =
    if leb b'0' c && leb c b'9'
    then some (c - b'0')
    else if leb b'a' c && leb c b'f'
    then some (c - b'a' + 10)
    else if leb b'A' c && leb c b'F'
    then some (c - b'A' + 10)
    else none

-- `int(h[i:i + 2], 16)` of a slice of a single digit, as at the end of a short text
hex_single : ℕ → Result ℤ
unfolding hex_digit
hex_single a = elim (hex_digit a) [ none ↦ err value_error | some m ↦ ok (pos m) ]

-- ... and of two characters: `int` passes over a space on either side, and takes a sign. Digits of other
-- scripts than ASCII are left out.
hex_pair : ℕ → ℕ → Result ℤ
unfolding hex_digit hex_single
hex_pair a b =
    if is_space a
    then hex_single b
    else if is_space b
    then hex_single a
    else if a == b'+'
    then hex_single b
    else if a == b'-'
    then elim (hex_digit b) [ none ↦ err value_error | some n ↦ ok (sub_ℕ 0 n) ]
    else elim (hex_digit a) [
      | none ↦ err value_error
      | some m ↦ elim (hex_digit b) [ none ↦ err value_error | some n ↦ ok (pos (16 * m + n)) ]
    ]

-- the three slices; an empty slice is no number, and what follows the sixth digit is not read
hex_bytes : Text → Result (ℤ × ℤ × ℤ)
unfolding hex_pair hex_single
hex_bytes (a ∷ b ∷ c ∷ d ∷ e ∷ g ∷ _) = do
  x ← hex_pair a b
  y ← hex_pair c d
  z ← hex_pair e g
  ok (x, y, z)
hex_bytes (a ∷ b ∷ c ∷ d ∷ e ∷ []) = do
  x ← hex_pair a b
  y ← hex_pair c d
  z ← hex_single e
  ok (x, y, z)
hex_bytes _ = err value_error

-- `h.lstrip("#")`
strip_hash : Text → Text
strip_hash [] = []
strip_hash (c ∷ cs) = if c == b'#' then strip_hash cs else c ∷ cs

module _ {ℓ} {F : Type ℓ} ⦃f : Float F⦄ where
  -- one channel, from 0 to 255 for two digits
  unfoldable pub to_linear : ℤ → F
  to_linear n =
      let c = f.div (f.of_int n) (f.lit 2550 1) in
      if f.le c (f.lit 4045 5)
      then f.div c (f.lit 1292 2)
      else f.pow (f.div (f.add c (f.lit 55 3)) (f.lit 1055 3)) (f.lit 24 1)

  unfoldable pub hex_to_linear : Text → Result (Rgb F)
  unfolding strip_hash hex_bytes
  hex_to_linear h = do
    rgb ← hex_bytes (strip_hash h)
    ok (to_linear rgb.0, to_linear rgb.1, to_linear rgb.2)

  -- `a * x + b * y + c * z`, in Python's order
  abbrev combine : F → F → F → Rgb F → F
  combine a b c v = f.add (f.add (f.mul a v.0) (f.mul b v.1)) (f.mul c v.2)

  -- `a * x + b * y - c * z`
  abbrev combine_less : F → F → F → Rgb F → F
  combine_less a b c v = f.sub (f.add (f.mul a v.0) (f.mul b v.1)) (f.mul c v.2)

  -- `max(v, 0.0) ** (1 / 3)`: `max` keeps its first argument unless the second is above it
  abbrev root : F → F
  root v =
      f.pow (if f.lt v (f.lit 0 1) then f.lit 0 1 else v)
        (f.div (f.of_int (pos 1)) (f.of_int (pos 3)))

  unfoldable pub linear_to_oklab : Rgb F → Rgb F
  linear_to_oklab rgb =
      let l = combine (f.lit 4122214708 10) (f.lit 5363325363 10) (f.lit 514459929 10) rgb in
      let m = combine (f.lit 2119034982 10) (f.lit 6806995451 10) (f.lit 1073969566 10) rgb in
      let s = combine (f.lit 883024619 10) (f.lit 2817188376 10) (f.lit 6299787005 10) rgb in
      let lms : Rgb F = (root l, root m, root s) in
      (
        combine_less (f.lit 2104542553 10) (f.lit 7936177850 10) (f.lit 40720468 10) lms,
        f.add (f.sub (f.mul (f.lit 19779984951 10) lms.0) (f.mul (f.lit 24285922050 10) lms.1))
            (f.mul (f.lit 4505937099 10) lms.2),
        combine_less (f.lit 259040371 10) (f.lit 7827717662 10) (f.lit 8086757660 10) lms,
      )

  -- minus a literal
  abbrev minus : F → F
  minus a = f.sub (f.lit 0 1) a

  -- `CVD[kind]`
  unfoldable pub cvd : Kind → Rgb F × Rgb F × Rgb F
  cvd protan = (
    (f.lit 11238 5, f.lit 88762 5, f.lit 0 1),
    (f.lit 11238 5, f.lit 88762 5, f.lit 0 1),
    (f.lit 401 5, minus (f.lit 401 5), f.lit 10 1),
  )
  cvd deutan = (
    (f.lit 29275 5, f.lit 70725 5, f.lit 0 1),
    (f.lit 29275 5, f.lit 70725 5, f.lit 0 1),
    (minus (f.lit 2234 5), f.lit 2234 5, f.lit 10 1),
  )
  cvd tritan = (
    (f.lit 10 1, f.lit 14461 5, minus (f.lit 14461 5)),
    (f.lit 0 1, f.lit 10 1, f.lit 0 1),
    (f.lit 0 1, f.lit 15594 5, f.lit 84406 5),
  )

  -- `sum(m[i][j] * rgb[j] for j in range(3))`: the sum begins at the int 0
  abbrev dot : Rgb F → Rgb F → F
  dot row v =
      f.add (f.add (f.add (f.of_int (pos 0)) (f.mul row.0 v.0)) (f.mul row.1 v.1)) (f.mul row.2 v.2)

  unfoldable pub simulate : Rgb F → Kind → Rgb F
  unfolding cvd
  simulate rgb kind = let m = cvd kind in (dot (m.0) rgb, dot (m.1) rgb, dot (m.2) rgb)

  -- `(x - y) ** 2`
  abbrev square_diff : F → F → F
  square_diff x y = f.pow (f.sub x y) (f.of_int (pos 2))

  unfoldable pub delta_e : Rgb F → Rgb F → F
  delta_e a b =
      let la = linear_to_oklab a in
      let lb = linear_to_oklab b in
      let total =
        f.add
          (f.add (f.add (f.of_int (pos 0)) (square_diff (la.0) (lb.0))) (square_diff (la.1) (lb.1)))
          (square_diff (la.2) (lb.2)) in
      f.mul (f.lit 1000 1) (f.pow total (f.lit 5 1))

  unfoldable pub relative_luminance : Rgb F → F
  relative_luminance rgb = combine (f.lit 2126 4) (f.lit 7152 4) (f.lit 722 4) rgb

  unfoldable pub contrast : Rgb F → Rgb F → F
  contrast a b =
      let la = relative_luminance a in
      let lb = relative_luminance b in
      let hi = if f.lt la lb then lb else la in
      let lo = if f.lt lb la then lb else la in f.div (f.add hi (f.lit 5 2)) (f.add lo (f.lit 5 2))
