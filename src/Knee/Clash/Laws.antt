-- ===== src/Knee/Clash/Laws.antt =====
-- sweep/mkcharts.py: the check of the colours finds every clash and nothing else.
use raft_tests.Prelude.{
  suc, ◌≤◌, ◌≡◌, refl, sym, ◌≢◌, ◌↔◌, inl, inr, true, false, List, [], ◌∷◌, ◌++◌, arith, ◌==◌,
  eq_of_test, if◌then◌else◌, String, ok, ltb, Bool-cases, length, All, keep, string_eq, option_eq,
  pair_eq, list_eq, nat_eq, int_eq,
}
use mathlib.Core.List.{append-nil, append_assoc}
use raft_tests.Python.Dict.{
  Dict, get, append_at, list_at, list_at-append_at, NodupKeys, append_at-NodupKeys,
}
use raft_tests.Knee.Rows.{Product, Entry}
use raft_tests.Knee.Clash.{
  Series, by_colour, is_clash, clashes, present, round_trips, check_colours,
}

-- No two of the series have one colour.
abbrev pub ColoursDiffer : List Series → Type 0
ColoursDiffer [] = Unit
ColoursDiffer (s ∷ rest) = All (λ t. s.2 ≢ t.2) rest × ColoursDiffer rest

-- The labels of the series of a colour.
abbrev labels_in : String → List Series → List String
labels_in c [] = []
labels_in c (s ∷ rest) = let more = labels_in c rest in if s.2 == c then s.1 ∷ more else more

by_colour-list_at :
    (c : String) (acc : Dict String (List String)) (rt : List Series)
    → list_at c (by_colour acc rt) ≡ list_at c acc ++ labels_in c rt
unfolding by_colour
by_colour-list_at c acc [] = sym (append-nil (list_at c acc))
by_colour-list_at c acc (s ∷ rest) =
    let later = by_colour-list_at c (append_at (s.2) (s.1) acc) rest in
    let first = list_at-append_at c (s.2) (s.1) acc in
    elim (Bool-cases (s.2 == c)) [
      | inl hit ↦ rw (later, first, hit, append_assoc) refl
      | inr miss ↦ rw (later, first, miss) refl
    ]

by_colour-NodupKeys :
    (acc : Dict String (List String)) (rt : List Series)
    → NodupKeys acc
    → NodupKeys (by_colour acc rt)
unfolding by_colour
by_colour-NodupKeys acc [] u = u
by_colour-NodupKeys acc (s ∷ rest) u =
    by_colour-NodupKeys (append_at (s.2) (s.1) acc) rest (append_at-NodupKeys (s.2) (s.1) acc u)

-- The list under every key has one element at most.
abbrev Short : Dict String (List String) → Type 0
Short d = (c : String) → length (list_at c d) ≤ 1

keep-clash_none : (d : Dict String (List String)) → keep is_clash d ≡ [] → Short d
unfolding get
keep-clash_none [] h c = omega arith
keep-clash_none ((k, labs) ∷ d) h c = elim (Bool-cases (ltb 1 (length labs))) [
  | inl clash ↦ absurd (ground arith)
  | inr fine ↦ ground (arith, keep-clash_none d (rw (fine, keep) at h) c)
]

keep-clash-Short : (d : Dict String (List String)) → NodupKeys d → Short d → keep is_clash d ≡ []
unfolding get
keep-clash-Short [] _ _ = refl
keep-clash-Short ((k, labs) ∷ d) (fresh, u) s =
    let own : length labs ≤ 1 = ground (arith, s k) in
    let rest : Short d = λ c. elim (Bool-cases (k == c)) [
      | inl hit ↦ let same = eq_of_test k c hit in ground arith
      | inr miss ↦ ground (arith, s c)
    ] in
    let fine : ltb 1 (length labs) ≡ false = ground arith in
    rw (fine, keep) (keep-clash-Short d u rest)

same_colour : (s : Series) → (s.2 == s.2) ≡ true
same_colour s = ground arith

labels_in-absent : (c : String) (rt : List Series) → All (λ t. c ≢ t.2) rt → labels_in c rt ≡ []
labels_in-absent c [] _ = refl
labels_in-absent c (s ∷ rest) (d, ds) = elim (Bool-cases (s.2 == c)) [
  | inl hit ↦ absurd (d (sym (eq_of_test (s.2) c hit)))
  | inr miss ↦ rw miss (labels_in-absent c rest ds)
]

absent-labels_in :
    (c : String) (rt : List Series) → length (labels_in c rt) ≡ 0 → All (λ t. c ≢ t.2) rt
absent-labels_in c [] _ = tt
absent-labels_in c (s ∷ rest) h = elim (Bool-cases (s.2 == c)) [
  | inl hit ↦ absurd (ground (arith, hit))
  | inr miss ↦ ((λ same. ground arith), absent-labels_in c rest (ground arith))
]

differ-labels : (rt : List Series) → ColoursDiffer rt → (c : String) → length (labels_in c rt) ≤ 1
differ-labels [] _ c = omega arith
differ-labels (s ∷ rest) (d, ds) c = elim (Bool-cases (s.2 == c)) [
  | inl hit ↦
      let none_more = labels_in-absent (s.2) rest d in
      let same : s.2 ≡ c = eq_of_test (s.2) c hit in
      let none_more' : labels_in c rest ≡ [] = rw same at none_more in
      rw (hit, none_more') (omega arith)
  | inr miss ↦ rw miss (differ-labels rest ds c)
]

labels-differ : (rt : List Series) → ((c : String) → length (labels_in c rt) ≤ 1) → ColoursDiffer rt
labels-differ [] _ = tt
labels-differ (s ∷ rest) short =
    let one : suc (length (labels_in (s.2) rest)) ≤ 1 = rw (same_colour s) at (short (s.2)) in
    (
      absent-labels_in (s.2) rest (omega (arith, one)),
      labels-differ rest (λ c. ground (arith, short c)),
    )

clashes-none : (rt : List Series) → (clashes rt ≡ []) ↔ ColoursDiffer rt
unfolding clashes get
clashes-none rt = (
  (λ h.
      labels-differ rt
        (λ c. rw (by_colour-list_at c [] rt) at (keep-clash_none (by_colour [] rt) h c))),
  (λ d.
      keep-clash-Short (by_colour [] rt) (by_colour-NodupKeys [] rt tt)
        (λ c. rw (by_colour-list_at c [] rt) (differ-labels rt d c))),
)

-- The check of the colours goes through exactly when the round trips that the data has are drawn in different
-- colours, and then it returns these round trips.
pub check_colours_iff :
    (d : Dict Product (List Entry))
    → (check_colours d ≡ ok (present d round_trips)) ↔ ColoursDiffer (present d round_trips)
unfolding check_colours
check_colours_iff d =
    let rt = present d round_trips in
    (
      (λ h. (clashes-none rt).0 (ground arith)),
      (λ differ. rw ((clashes-none rt).1 differ, check_colours) refl),
    )
