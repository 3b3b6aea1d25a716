-- ===== src/Knee/Wrap/Laws.antt =====
-- sweep/mkcharts.py, `wrap_sub`: the lines keep the budget and lose nothing.
use raft_tests.Prelude.{
  ℕ, ◌≤◌, ◌≡◌, refl, sym, ap, ◌∙◌, ◌≢◌, ◌⊎◌, inl, inr, false, List, [], ◌∷◌, ◌++◌, arith,
  Bool-cases, length, length-append, All, string_eq, option_eq, pair_eq, nat_eq, int_eq,
}
use mathlib.Core.List.{append_assoc}
use raft_tests.Python.Text.{Text, split, join, join-split}
use raft_tests.Knee.Wrap.{is_full, extend, wrap_words, wrap_sub}

-- The line is one of the words.
abbrev pub IsWord : List Text → Text → Type 0
IsWord [] line = ⊥
IsWord (w ∷ ws) line = (w ≡ line) ⊎ IsWord ws line

abbrev pub Fits : ℕ → List Text → Text → Type 0
Fits budget words line = (length line ≤ budget) ⊎ IsWord words line

IsWord-later :
    (w : Text) (ws lines : List Text) → All (IsWord ws) lines → All (IsWord (w ∷ ws)) lines
IsWord-later w ws [] _ = tt
IsWord-later w ws (l ∷ lines) (h, hs) = (inr h, IsWord-later w ws lines hs)

All-IsWord : (ws : List Text) → All (IsWord ws) ws
All-IsWord [] = tt
All-IsWord (w ∷ ws) = (inl refl, IsWord-later w ws ws (All-IsWord ws))

extend-Fits :
    (budget : ℕ) (all : List Text) (cur w : Text)
    → IsWord all w
    → is_full budget cur w ≡ false
    → Fits budget all (extend cur w)
unfolding is_full extend
extend-Fits budget all [] w h room = inr h
extend-Fits budget all (c ∷ cur) w h room = inl (ground (arith, length-append (c ∷ cur) (b' ' ∷ w)))

wrap_words-Fits :
    (budget : ℕ) (all ws : List Text) (cur : Text)
    → All (IsWord all) ws
    → Fits budget all cur
    → All (Fits budget all) (wrap_words budget ws cur)
unfolding wrap_words
wrap_words-Fits budget all [] [] _ h = tt
wrap_words-Fits budget all [] (c ∷ cur) _ h = (h, tt)
wrap_words-Fits budget all (w ∷ ws) cur (i, is) h = elim (Bool-cases (is_full budget cur w)) [
  | inl full ↦ rw full (h, wrap_words-Fits budget all ws w is (inr i))
  | inr room ↦
      rw room
        (wrap_words-Fits budget all ws (extend cur w) is (extend-Fits budget all cur w i room))
]

-- No line of the subtitle is longer than the budget, unless the line is a single word of the text.
pub wrap_sub-Fits :
    (text : Text) (budget : ℕ) → All (Fits budget (split b' ' text)) (wrap_sub text budget)
unfolding wrap_sub
wrap_sub-Fits text budget =
    let words = split b' ' text in
    wrap_words-Fits budget words words [] (All-IsWord words) (inl (omega arith))

extend-cons : (c : ℕ) (cur w : Text) → extend (c ∷ cur) w ≡ c ∷ (cur ++ (b' ' ∷ w))
unfolding extend
extend-cons c cur w = refl

join-extend :
    (c : ℕ) (cur w : Text) (ws : List Text)
    → join b' ' (extend (c ∷ cur) w ∷ ws) ≡ join b' ' ((c ∷ cur) ∷ w ∷ ws)
unfolding join extend
join-extend c cur w [] = refl
join-extend c cur w (v ∷ vs) =
    ap (λ l. c ∷ l) (append_assoc cur (b' ' ∷ w) (b' ' ∷ join b' ' (v ∷ vs)))

abbrev pub NonEmpty : Text → Type 0
NonEmpty [] = ⊥
NonEmpty (c ∷ cs) = Unit

wrap_words-ne-nil :
    (budget : ℕ) (ws : List Text) (c : ℕ) (cur : Text) → wrap_words budget ws (c ∷ cur) ≢ []
unfolding wrap_words extend
wrap_words-ne-nil budget [] c cur h = cc
wrap_words-ne-nil budget (w ∷ ws) c cur h =
    ground (arith, wrap_words-ne-nil budget ws c (cur ++ (b' ' ∷ w)))

join-cons : (w : Text) (ws : List Text) → ws ≢ [] → join b' ' (w ∷ ws) ≡ w ++ (b' ' ∷ join b' ' ws)
unfolding join
join-cons w [] h = absurd (h refl)
join-cons w (v ∷ vs) h = refl

join-wrap_words :
    (budget : ℕ) (ws : List Text) (c : ℕ) (cur : Text)
    → All NonEmpty ws
    → join b' ' (wrap_words budget ws (c ∷ cur)) ≡ join b' ' ((c ∷ cur) ∷ ws)
unfolding wrap_words
join-wrap_words budget [] c cur _ = refl
join-wrap_words budget ([] ∷ ws) c cur (h, hs) = absurd h
join-wrap_words budget ((d ∷ w) ∷ ws) c cur (h, hs) =
    elim (Bool-cases (is_full budget (c ∷ cur) (d ∷ w))) [
      | inl full ↦ rw full (
          join-cons (c ∷ cur) (wrap_words budget ws (d ∷ w)) (wrap_words-ne-nil budget ws d w)
          ∙ ap (λ l. (c ∷ cur) ++ (b' ' ∷ l)) (join-wrap_words budget ws d w hs)
          ∙ sym (join-cons (c ∷ cur) ((d ∷ w) ∷ ws) (λ e. cc)))
      | inr room ↦
          let longer : join b' ' (wrap_words budget ws (extend (c ∷ cur) (d ∷ w)))
              ≡ join b' ' (extend (c ∷ cur) (d ∷ w) ∷ ws) =
            rw (extend-cons c cur (d ∷ w))
              (join-wrap_words budget ws c (cur ++ (b' ' ∷ d ∷ w)) hs) in
          rw room (longer ∙ join-extend c cur (d ∷ w) ws)
    ]

join-wrap_words_start :
    (budget : ℕ) (ws : List Text)
    → All NonEmpty ws
    → join b' ' (wrap_words budget ws []) ≡ join b' ' ws
unfolding wrap_words is_full extend
join-wrap_words_start budget [] _ = refl
join-wrap_words_start budget ([] ∷ ws) (h, hs) = absurd h
join-wrap_words_start budget ((c ∷ w) ∷ ws) (h, hs) = join-wrap_words budget ws c w hs

-- Joined by spaces again, the lines are the text, if it is not empty and has no two spaces in a row and none
-- at its ends.
pub join-wrap_sub :
    (text : Text) (budget : ℕ)
    → All NonEmpty (split b' ' text)
    → join b' ' (wrap_sub text budget) ≡ text
unfolding wrap_sub
join-wrap_sub text budget h =
    join-wrap_words_start budget (split b' ' text) h ∙ join-split b' ' text
