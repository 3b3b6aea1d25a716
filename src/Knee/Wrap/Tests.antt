-- ===== src/Knee/Wrap/Tests.antt =====
-- Runs of `wrap_sub` in sweep/mkcharts.py, and its theorems at a subtitle.
use raft_tests.Prelude.{◌≡◌, refl, [], ◌∷◌, All, string_eq, option_eq, pair_eq, nat_eq, int_eq}
use raft_tests.Python.Text.{Text, codes, split, join}
use raft_tests.Knee.Wrap.{wrap_sub}
use raft_tests.Knee.Wrap.Laws.{Fits, wrap_sub-Fits, join-wrap_sub}

abbrev subtitle : Text
subtitle = codes "At 100k: relay 700"

wrapped : wrap_sub subtitle 8 ≡ codes "At 100k:" ∷ codes "relay" ∷ codes "700" ∷ []
unfolding wrap_sub split nat_eq
wrapped = refl

-- A double space at a break is lost.
lost_space : wrap_sub (codes "aa  bb") 3 ≡ codes "aa " ∷ codes "bb" ∷ []
unfolding wrap_sub split nat_eq
lost_space = refl

wrap_sub-Fits_example : All (Fits 8 (split b' ' subtitle)) (wrap_sub subtitle 8)
wrap_sub-Fits_example = wrap_sub-Fits subtitle 8

join-wrap_sub_example : join b' ' (codes "At 100k:" ∷ codes "relay" ∷ codes "700" ∷ []) ≡ subtitle
unfolding wrap_sub split nat_eq join
join-wrap_sub_example = join-wrap_sub subtitle 8 (tt, (tt, (tt, (tt, tt))))
