-- ===== src/Palette/Tests.antt =====
-- sweep/validate_palette.py on small inputs, over the floats of Python/Float/Millionths.antt.
use raft_tests.Prelude.{
  ℕ, ◌+◌, ◌*◌, ◌≡◌, refl, ◌↔◌, Bool, false, List, [], ◌∷◌, ok, err, value_error, length, All,
  string_eq, option_eq, pair_eq, list_eq, nat_eq, int_eq,
}
use raft_tests.Python.Text.{Text, codes, is_space, split, strip}
use raft_tests.Python.Dict.{get, insert}
use raft_tests.Python.Float.Millionths.{Millionths, millionths_float}
use raft_tests.Palette.Colour.{
  hex_to_linear, to_linear, linear_to_oklab, simulate, cvd, delta_e, relative_luminance, contrast,
}
use raft_tests.Palette.{
  Named, PairLine, judge, combinations, linear, check_pairs, contrast_lines, check, entries,
  verdict, pass, main,
}
use raft_tests.Palette.Laws.{IsWorst, check-IsWorst}
use raft_tests.Palette.Total.{IsColour, check-Returns}
use raft_tests.Palette.Passing.{IsClear, check-passes_iff}

abbrev two_colours : List Named
two_colours = (codes "red", codes "#ff0000") ∷ (codes "blue", codes "0000ff") ∷ []

abbrev surface : Text
surface = codes "#fcfcfb"

abbrev two_lines : List (PairLine Millionths)
two_lines =
    (
      codes "red",
      codes "blue",
      3228832894289900,
      547083541609600,
      2960260322429100,
      3817285428346900,
      pass,
    )
    ∷ []

abbrev two_ratios : List (Text × Text × Millionths × Bool)
two_ratios =
    (codes "red", codes "#ff0000", 3954984, false)
    ∷ (codes "blue", codes "0000ff", 8499009, false)
    ∷ []

two_run : check {F = Millionths} two_colours surface ≡ ok (two_lines, two_ratios, 0)
unfolding check linear check_pairs combinations judge hex_to_linear to_linear linear_to_oklab
    simulate cvd delta_e relative_luminance contrast verdict contrast_lines nat_eq list_eq is_space
    get insert millionths_float
two_run = refl

-- the same colour under two names fails, and an odd digit is no colour
same_colour : main Millionths (codes "#102030,102030" ∷ []) ≡ ok 2
unfolding main entries split strip check linear check_pairs combinations judge hex_to_linear
    to_linear linear_to_oklab simulate cvd delta_e relative_luminance contrast verdict
    contrast_lines nat_eq list_eq is_space get insert millionths_float
same_colour = refl

bad_digit : main Millionths (codes "#12345g" ∷ []) ≡ err value_error
unfolding main entries check linear hex_to_linear split strip nat_eq
bad_digit = refl

check-IsWorst_example :
    IsWorst 0 two_lines 0
    × (2 * length two_lines + length two_colours ≡ length two_colours * length two_colours)
check-IsWorst_example = check-IsWorst two_colours surface two_run

check-passes_iff_example : (◌≡◌ {A = ℕ} 0 0) ↔ All (IsClear {F = Millionths}) two_lines
check-passes_iff_example = check-passes_iff two_colours surface two_run

two_read : All (λ named. IsColour Millionths (named.1)) two_colours
unfolding hex_to_linear to_linear millionths_float nat_eq is_space
two_read = (((1000000, 0, 0), refl), (((0, 0, 1000000), refl), tt))

surface_read : IsColour Millionths surface
unfolding hex_to_linear to_linear millionths_float nat_eq is_space
surface_read = ((988848, 988848, 985130), refl)

check-Returns_example :
    (r : List (PairLine Millionths) × List (Text × Text × Millionths × Bool) × ℕ) × (check
        two_colours surface
      ≡ ok r)
check-Returns_example = check-Returns two_colours surface two_read surface_read
