-- ===== src/Palette/Laws.antt =====
-- sweep/validate_palette.py: the exit status is the worst verdict, and every pair is judged.
use raft_tests.Prelude.{
  length-map, leb_false→lt, ℕ, suc, ◌+◌, ◌*◌, ◌≤◌, ◌≡◌, refl, ap, ◌⊎◌, inl, inr, Bool, List, [],
  ◌∷◌, ◌++◌, map, arith, ok, Result-cases, leb, leb→le, Bool-cases, length, length-append, All,
  string_eq, option_eq, pair_eq, list_eq, nat_eq, int_eq,
}
use Prim.Native.Nat.{max}
use std.Path.{transport}
use raft_tests.Python.Text.{Text}
use raft_tests.Python.Dict.{Dict}
use raft_tests.Python.Float.{Float}
use raft_tests.Palette.Colour.{Rgb, hex_to_linear}
use raft_tests.Palette.{
  Named, severity, PairLine, at, judge, combinations, linear, check_pairs, contrast_lines, check,
}

module _ {ℓ} {F : Type ℓ} ⦃f : Float F⦄ where
  abbrev severity_of : PairLine F → ℕ
  severity_of line = severity (line.6)

  abbrev pub HasSeverity : ℕ → List (PairLine F) → Type 0
  HasSeverity s [] = ⊥
  HasSeverity s (line ∷ lines) = (severity (line.6) ≡ s) ⊎ HasSeverity s lines

  -- `worst` is at least the severity at the start and of each line, and it is one of them.
  abbrev pub IsWorst : ℕ → List (PairLine F) → ℕ → Type 0
  IsWorst start lines worst =
      (start ≤ worst)
      × All (λ line. severity (line.6) ≤ worst) lines
      × ((worst ≡ start) ⊎ HasSeverity worst lines)

  IsWorst-cons :
      (line : PairLine F) (start end : ℕ) (lines : List (PairLine F))
      → IsWorst (max start (severity_of line)) lines end
      → IsWorst start (line ∷ lines) end
  IsWorst-cons line start end lines (low, below, inr hit) =
      (omega arith, (omega arith, below), inr (inr hit))
  IsWorst-cons line start end lines (low, below, inl same) = (
    omega arith,
    (omega arith, below),
    elim (Bool-cases (leb (severity_of line) start)) [
      | inl smaller ↦ inl (let low' = leb→le (severity_of line) start smaller in omega arith)
      | inr larger ↦
          inr (inl (let high = leb_false→lt (severity_of line) start larger in omega arith))
    ],
  )

  check_pairs-IsWorst :
      (lin : Dict Text (Rgb F)) (pairs : List (Named × Named)) (start : ℕ)
      {lines : List (PairLine F)} {worst : ℕ}
      → check_pairs lin pairs start ≡ ok (lines, worst)
      → IsWorst start lines worst × (length lines ≡ length pairs)
  unfolding check_pairs
  check_pairs-IsWorst lin [] start {lines} {worst} h =
      let same : ◌≡◌ {A = List (PairLine F) × ℕ} ([], start) (lines, worst) = ground arith in
      transport (ap (λ r. IsWorst start r.0 r.1 × (length r.0 ≡ 0)) same)
        ((omega arith, tt, inl refl), refl)
  check_pairs-IsWorst lin (((na, _), (nb, _)) ∷ pairs) start {lines} {worst} h =
      elim (Result-cases (at lin na)) [
        | inr (x, e) ↦ absurd (ground arith)
        | inl (a, e) ↦ elim (Result-cases (at lin nb)) [
          | inr (x, e') ↦ absurd (ground arith)
          | inl (b, e') ↦
              elim (Result-cases (check_pairs lin pairs (max start (severity ((judge a b).4))))) [
                | inr (x, e'') ↦ absurd (ground arith)
                | inl ((others, end), e'') ↦
                    let j = judge a b in
                    let line : PairLine F = (na, nb, j.0, j.1, j.2, j.3, j.4) in
                    let same : ◌≡◌ {A = List (PairLine F) × ℕ} (line ∷ others, end) (lines, worst) =
                      ground arith in
                    let (ih, n) =
                      check_pairs-IsWorst lin pairs (max start (severity_of line)) e'' in
                    transport
                      (ap (λ r. IsWorst start r.0 r.1 × (length r.0 ≡ suc (length pairs))) same)
                      (IsWorst-cons line start end others ih, ap suc n)
              ]
        ]
      ]

-- n * (n - 1) / 2 pairs
length-combinations {ℓ} :
    {A : Type ℓ} (xs : List A) → 2 * length (combinations xs) + length xs ≡ length xs * length xs
unfolding combinations
length-combinations [] = refl
length-combinations {A} (x ∷ xs) =
    let with_x : List (A × A) = map (λ y. (x, y)) xs in
    let one : length (with_x ++ combinations xs) ≡ length with_x + length (combinations xs) =
      length-append with_x (combinations xs) in
    let two : length with_x ≡ length xs = length-map xs (λ y. (x, y)) in
    let ih = length-combinations xs in
    let square : suc (length xs) * suc (length xs)
        ≡ suc (length xs + length xs + length xs * length xs) =
      grind arith in
    rw (square, one, two) (omega (arith, ih))

module _ {ℓ} {F : Type ℓ} ⦃f : Float F⦄ where
  -- When `check` returns, it has judged as many pairs as there are two-element subsets of the colours
  -- (twice their number is n * n - n), its status is at least the severity of every line, and the status is 0
  -- or the severity of some line.
  pub check-IsWorst :
      (colours : List Named) (surface : Text) {lines : List (PairLine F)}
      {ratios : List (Text × Text × F × Bool)} {status : ℕ}
      → check colours surface ≡ ok (lines, ratios, status)
      → IsWorst 0 lines status
        × (2 * length lines + length colours ≡ length colours * length colours)
  unfolding check
  check-IsWorst colours surface {lines} {ratios} {status} h =
      elim (Result-cases (linear {F = F} [] colours)) [
        | inr (x, e) ↦ absurd (ground arith)
        | inl (lin, e) ↦ elim (Result-cases (check_pairs lin (combinations colours) 0)) [
          | inr (x, e') ↦ absurd (ground arith)
          | inl ((found, worst), e') ↦ elim (Result-cases (hex_to_linear {F = F} surface)) [
            | inr (x, e'') ↦ absurd (ground arith)
            | inl (surf, e'') ↦ elim (Result-cases (contrast_lines lin surf colours)) [
              | inr (x, e₃) ↦ absurd (ground arith)
              | inl (others, e₃) ↦
                  let same : ◌≡◌ {A = List (PairLine F) × ℕ} (found, worst) (lines, status) =
                    ground arith in
                  let (judged, n) = check_pairs-IsWorst lin (combinations colours) 0 e' in
                  let all = length-combinations colours in
                  transport
                    (ap
                      (λ r.
                        IsWorst 0 r.0 r.1
                        × (2 * length r.0 + length colours ≡ length colours * length colours))
                      same)
                    (judged, rw n all)
            ]
          ]
        ]
      ]
