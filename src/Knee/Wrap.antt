-- ===== src/Knee/Wrap.antt =====
-- sweep/mkcharts.py, `wrap_sub`: the greedy wrap of a subtitle.
mod Tests
pub mod Laws
use raft_tests.Prelude.{
  ℕ, ◌+◌, Bool, false, List, [], ◌∷◌, ◌++◌, arith, if◌then◌else◌, ltb, length, string_eq, option_eq,
  pair_eq, nat_eq, int_eq, int_laws,
}
use raft_tests.Python.Text.{Text, split}

-- `cur and len(cur) + 1 + len(w) > budget`
is_full : ℕ → Text → Text → Bool
is_full budget [] w = false
is_full budget (c ∷ cur) w = ltb budget (length (c ∷ cur) + 1 + length w)

-- `cur + " " + w if cur else w`
extend : Text → Text → Text
extend [] w = w
extend (c ∷ cur) w = (c ∷ cur) ++ (b' ' ∷ w)

-- the loop over the words, and the last line behind it
wrap_words : ℕ → List Text → Text → List Text
wrap_words budget [] [] = []
wrap_words budget [] (c ∷ cur) = (c ∷ cur) ∷ []
wrap_words budget (w ∷ words) cur =
    let broken = wrap_words budget words w in
    let longer = wrap_words budget words (extend cur w) in
    if is_full budget cur w then cur ∷ broken else longer

unfoldable pub wrap_sub : Text → ℕ → List Text
unfolding wrap_words is_full extend
wrap_sub text budget = wrap_words budget (split b' ' text) []

abbrev pub default_budget : ℕ
default_budget = 118
