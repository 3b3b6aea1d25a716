-- ===== src/Palette/Total.antt =====
-- sweep/validate_palette.py: the check raises nothing on hexadecimal colours.
use raft_tests.Prelude.{
  ℕ, ◌≡◌, refl, inl, inr, Bool, not, some, List, [], ◌∷◌, map, arith, ◌==◌, ok, Bool-cases, All,
  All-append, string_eq, option_eq, pair_eq, list_eq, nat_eq, int_eq,
}
use Prim.Native.Nat.{max}
use raft_tests.Python.Text.{Text}
use raft_tests.Python.Dict.{Dict, get, insert, get-insert}
use raft_tests.Python.Float.{Float}
use raft_tests.Palette.Colour.{Rgb, hex_to_linear, contrast}
use raft_tests.Palette.{
  Named, PairLine, severity, at, judge, combinations, linear, check_pairs, contrast_lines, check,
}

module _ {ℓ} (F : Type ℓ) ⦃f : Float F⦄ where
  -- The text is read as a colour.
  abbrev pub IsColour : Text → Type ℓ
  IsColour h = (c : Rgb F) × (hex_to_linear {F = F} h ≡ ok c)

module _ {ℓ} {F : Type ℓ} ⦃f : Float F⦄ where
  -- The name has a colour.
  abbrev IsKnown : Dict Text (Rgb F) → Named → Type ℓ
  IsKnown lin named = (c : Rgb F) × (get (named.0) lin ≡ some c)

  insert-IsKnown :
      (lin : Dict Text (Rgb F)) (name : Text) (c : Rgb F) (named : Named)
      → IsKnown lin named
      → IsKnown (insert name c lin) named
  insert-IsKnown lin name c named (d, known) = elim (Bool-cases (name == named.0)) [
    | inl hit ↦ (c, rw (get-insert (named.0) name c lin, hit) refl)
    | inr miss ↦ (d, rw (get-insert (named.0) name c lin, miss) known)
  ]

  -- `linear` returns, keeps what was known, and knows every colour's name.
  linear-IsKnown :
      (lin : Dict Text (Rgb F)) (colours : List Named)
      → All (λ named. IsColour F (named.1)) colours
      → (lin' : Dict Text (Rgb F)) × (linear lin colours ≡ ok lin')
        × ((named : Named) → IsKnown lin named → IsKnown lin' named)
        × All (IsKnown lin') colours
  unfolding linear
  linear-IsKnown lin [] _ = (lin, refl, (λ named known. known), tt)
  linear-IsKnown lin ((name, h) ∷ colours) ((c, read), rest) =
      let (lin', done, kept, all) = linear-IsKnown (insert name c lin) colours rest in
      let own : IsKnown (insert name c lin) (name, h) =
        (c, rw (get-insert name name c lin) (ground arith)) in
      (
        lin',
        rw read done,
        (λ named known. kept named (insert-IsKnown lin name c named known)),
        (kept (name, h) own, all),
      )

  at-Returns :
      (lin : Dict Text (Rgb F)) (named : Named)
      → IsKnown lin named
      → (c : Rgb F) × (at lin (named.0) ≡ ok c)
  at-Returns lin named (c, known) = (c, rw (known, at) refl)

  check_pairs-Returns :
      (lin : Dict Text (Rgb F)) (pairs : List (Named × Named)) (start : ℕ)
      → All (λ p. IsKnown lin (p.0) × IsKnown lin (p.1)) pairs
      → (r : List (PairLine F) × ℕ) × (check_pairs lin pairs start ≡ ok r)
  unfolding check_pairs
  check_pairs-Returns lin [] start _ = (([], start), refl)
  check_pairs-Returns lin ((first, second) ∷ pairs) start ((k, l), rest) =
      let (a, found) = at-Returns lin first k in
      let (b, found') = at-Returns lin second l in
      let (r, done) = check_pairs-Returns lin pairs (max start (severity ((judge a b).4))) rest in
      let j = judge a b in
      (((first.0, second.0, j.0, j.1, j.2, j.3, j.4) ∷ r.0, r.1), rw (found, found', done) refl)

  contrast_lines-Returns :
      (lin : Dict Text (Rgb F)) (surf : Rgb F) (colours : List Named)
      → All (IsKnown lin) colours
      → (r : List (Text × Text × F × Bool)) × (contrast_lines lin surf colours ≡ ok r)
  unfolding contrast_lines
  contrast_lines-Returns lin surf [] _ = ([], refl)
  contrast_lines-Returns lin surf (named ∷ colours) (k, rest) =
      let (c, found) = at-Returns lin named k in
      let (r, done) = contrast_lines-Returns lin surf colours rest in
      let ratio = contrast c surf in
      ((named.0, named.1, ratio, not (f.le (f.lit 30 1) ratio)) ∷ r, rw (found, done) refl)

All-map {ℓ κ μ} :
    {A : Type ℓ} {B : Type κ} (P : B → Type μ) (g : A → B) (xs : List A)
    → All (λ x. P (g x)) xs
    → All P (map g xs)
All-map P g [] _ = tt
All-map P g (x ∷ xs) (p, ps) = (p, All-map P g xs ps)

All-with {ℓ κ} :
    {A : Type ℓ} (P : A → Type κ) (x : A) (xs : List A) → P x → All P xs → All (λ y. P x × P y) xs
All-with P x [] _ _ = tt
All-with P x (y ∷ ys) p (q, qs) = ((p, q), All-with P x ys p qs)

All-combinations {ℓ κ} :
    {A : Type ℓ} (P : A → Type κ) (xs : List A)
    → All P xs
    → All (λ p. P (p.0) × P (p.1)) (combinations xs)
unfolding combinations
All-combinations P [] _ = tt
All-combinations P (x ∷ xs) (p, ps) =
    All-append (λ p. P (p.0) × P (p.1)) (map (λ y. (x, y)) xs) (combinations xs)
      (All-map (λ p. P (p.0) × P (p.1)) (λ y. (x, y)) xs (All-with P x xs p ps))
      (All-combinations P xs ps)

module _ {ℓ} {F : Type ℓ} ⦃f : Float F⦄ where
  -- If the surface and every one of the colours is read as a colour, whatever their number and names, then
  -- `check` returns.
  pub check-Returns :
      (colours : List Named) (surface : Text)
      → All (λ named. IsColour F (named.1)) colours
      → IsColour F surface
      → (r : List (PairLine F) × List (Text × Text × F × Bool) × ℕ) × (check colours surface ≡ ok r)
  unfolding check
  check-Returns colours surface all (surf, read) =
      let (lin, done, _, known) = linear-IsKnown [] colours all in
      let ((lines, worst), judged) =
        check_pairs-Returns lin (combinations colours) 0 (All-combinations _ colours known) in
      let (ratios, drawn) = contrast_lines-Returns lin surf colours known in
      ((lines, ratios, worst), rw (done, judged, read, drawn) refl)
