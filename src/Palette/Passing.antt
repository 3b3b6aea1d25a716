-- ===== src/Palette/Passing.antt =====
-- sweep/validate_palette.py: what the exit status 0 says of the distances in every printed line.
use std.Path.{transport}
use Prim.Native.Nat.{max}
use raft_tests.Prelude.{
  ℕ, ◌≤◌, ◌≡◌, refl, sym, ap, ◌∙◌, ◌↔◌, inl, inr, Bool, false, List, [], ◌∷◌, arith, ok,
  Result-cases, All, string_eq, option_eq, pair_eq, list_eq, nat_eq, int_eq,
}
use raft_tests.Python.Text.{Text}
use raft_tests.Python.Dict.{Dict}
use raft_tests.Python.Float.{Float}
use raft_tests.Palette.Colour.{Rgb, hex_to_linear}
use raft_tests.Palette.{
  Named, verdict, severity, PairLine, normal_floor, cvd_floor, cvd_target, least, at, judge,
  combinations, linear, check_pairs, contrast_lines, check,
}
use raft_tests.Palette.Laws.{HasSeverity, check-IsWorst}

module _ {ℓ} {F : Type ℓ} ⦃f : Float F⦄ where
  -- The verdict of the line is the one that its distances give.
  abbrev pub IsJudged : PairLine F → Type 0
  IsJudged line = line.6 ≡ verdict F (line.2) (least (least (line.3) (line.4)) (line.5))

  -- The normal distance is not below its floor, and the least simulated one below neither floor nor target.
  abbrev pub IsClear : PairLine F → Type 0
  IsClear line =
      (f.lt (line.2) (normal_floor F) ≡ false)
      × (f.lt (least (least (line.3) (line.4)) (line.5)) (cvd_floor F) ≡ false)
      × (f.lt (least (least (line.3) (line.4)) (line.5)) (cvd_target F) ≡ false)

  verdict-IsClear : (line : PairLine F) → IsJudged line → severity (line.6) ≤ 0 → IsClear line
  unfolding verdict
  verdict-IsClear line judged low = ground arith

  check_pairs-IsJudged :
      (lin : Dict Text (Rgb F)) (pairs : List (Named × Named)) (start : ℕ)
      {lines : List (PairLine F)} {worst : ℕ}
      → check_pairs lin pairs start ≡ ok (lines, worst)
      → All IsJudged lines
  unfolding check_pairs judge
  check_pairs-IsJudged lin [] start {lines} {worst} h =
      let same : [] ≡ lines = ground arith in transport (ap (All IsJudged) same) tt
  check_pairs-IsJudged lin (((na, _), (nb, _)) ∷ pairs) start {lines} {worst} h =
      elim (Result-cases (at lin na)) [
        | inr (x, e) ↦ absurd (ground arith)
        | inl (a, e) ↦ elim (Result-cases (at lin nb)) [
          | inr (x, e') ↦ absurd (ground arith)
          | inl (b, e') ↦
              let j = judge a b in
              elim (Result-cases (check_pairs lin pairs (max start (severity (j.4))))) [
                | inr (x, e'') ↦ absurd (ground arith)
                | inl ((others, end), e'') ↦
                    let line : PairLine F = (na, nb, j.0, j.1, j.2, j.3, j.4) in
                    let same : ◌≡◌ {A = List (PairLine F)} (line ∷ others) lines = ground arith in
                    transport (ap (All IsJudged) same) (refl, check_pairs-IsJudged lin pairs _ e'')
              ]
        ]
      ]

  All-IsClear :
      (lines : List (PairLine F))
      → All IsJudged lines
      → All (λ line. severity (line.6) ≤ 0) lines
      → All IsClear lines
  All-IsClear [] _ _ = tt
  All-IsClear (line ∷ lines) (j, js) (s, ss) = (verdict-IsClear line j s, All-IsClear lines js ss)

  verdict-pass : (line : PairLine F) → IsJudged line → IsClear line → severity (line.6) ≡ 0
  unfolding verdict
  verdict-pass line judged clear = ground arith

  clear-worst :
      (lines : List (PairLine F)) (worst : ℕ)
      → All IsJudged lines
      → All IsClear lines
      → HasSeverity worst lines
      → worst ≡ 0
  clear-worst [] worst _ _ none_has = elim none_has [ ]
  clear-worst (line ∷ lines) worst (j, js) (c, cs) (inl here) = sym here ∙ verdict-pass line j c
  clear-worst (line ∷ lines) worst (j, js) (c, cs) (inr later) = clear-worst lines worst js cs later

  check-IsJudged :
      (colours : List Named) (surface : Text) {lines : List (PairLine F)}
      {ratios : List (Text × Text × F × Bool)} {status : ℕ}
      → check colours surface ≡ ok (lines, ratios, status)
      → All IsJudged lines
  unfolding check
  check-IsJudged colours surface {lines} {ratios} {status} h =
      elim (Result-cases (linear {F = F} [] colours)) [
        | inr (x, e) ↦ absurd (ground arith)
        | inl (lin, e) ↦ elim (Result-cases (check_pairs lin (combinations colours) 0)) [
          | inr (x, e') ↦ absurd (ground arith)
          | inl ((found, worst), e') ↦ elim (Result-cases (hex_to_linear {F = F} surface)) [
            | inr (x, e'') ↦ absurd (ground arith)
            | inl (surf, e'') ↦ elim (Result-cases (contrast_lines lin surf colours)) [
              | inr (x, e₃) ↦ absurd (ground arith)
              | inl (others, e₃) ↦
                  let same : found ≡ lines = ground arith in
                  transport (ap (All IsJudged) same)
                    (check_pairs-IsJudged lin (combinations colours) 0 e')
            ]
          ]
        ]
      ]

  -- When `check` returns, its status is 0 exactly when every printed pair has a normal distance that is not
  -- below 15 and a least simulated distance that is below neither 6 nor 8.
  pub check-passes_iff :
      (colours : List Named) (surface : Text) {lines : List (PairLine F)}
      {ratios : List (Text × Text × F × Bool)} {status : ℕ}
      → check colours surface ≡ ok (lines, ratios, status)
      → (status ≡ 0) ↔ All IsClear lines
  check-passes_iff colours surface {lines} {ratios} {status} h =
      let judged = check-IsJudged colours surface h in
      let ((low, below, hit), n) = check-IsWorst colours surface h in
      (
        (λ zero_status.
            All-IsClear lines judged
              (transport (ap (λ s. All (λ line. severity (line.6) ≤ s) lines) zero_status) below)),
        (λ clear. elim hit [
          | inl none_worse ↦ none_worse
          | inr has ↦ clear-worst lines status judged clear has
        ]),
      )
