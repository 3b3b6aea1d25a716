-- ===== src/Knee/Rows/Group.antt =====
-- sweep/mkcharts.py: what the grouping by product and rate collects.
use raft_tests.Prelude.{
  ◌≡◌, ap, ◌∙◌, inl, inr, Bool, false, List, [], ◌∷◌, ◌++◌, map, arith, ◌==◌, ok, err, Result-cases,
  keep, string_eq, option_eq, pair_eq, nat_eq, int_eq,
}
use mathlib.Core.List.{append-nil, append_assoc}
use raft_tests.Python.Dict.{Dict, append_at, list_at, list_at-append_at}
use raft_tests.Python.Csv.{Row}
use raft_tests.Knee.Rows.{Key, Entry, key_of, numbers, add_row, group_rows}

-- The row carries this product and this rate.
abbrev pub belongs : Key → Row → Bool
belongs key r = elim (key_of r) [ err e ↦ false | ok k ↦ k == key ]

add_row-belongs :
    (key : Key) (acc : Dict Key (List Entry)) (r : Row) {acc' : Dict Key (List Entry)}
    → add_row acc r ≡ ok acc'
    → list_at key acc' ≡ list_at key acc ++ map numbers (keep (belongs key) (r ∷ []))
unfolding add_row
add_row-belongs key acc r {acc'} h = elim (Result-cases (key_of r)) [
  | inr (e, fails) ↦ absurd (ground arith)
  | inl (k, found) ↦
      let added : append_at k (numbers r) acc ≡ acc' = ground arith in
      rw (← added, list_at-append_at key k (numbers r) acc)
        (ground (arith, append-nil (list_at key acc)))
]

-- When the grouping returns, the list under a key holds the numbers of just the rows with that product and
-- that rate, in the order of the files, behind what was there before.
pub group_rows-belongs :
    (key : Key) (acc : Dict Key (List Entry)) (rows : List Row) {acc' : Dict Key (List Entry)}
    → group_rows acc rows ≡ ok acc'
    → list_at key acc' ≡ list_at key acc ++ map numbers (keep (belongs key) rows)
unfolding group_rows
group_rows-belongs key acc [] {acc'} h =
    let same : acc ≡ acc' = ground arith in rw (← same, append-nil)
group_rows-belongs key acc (r ∷ rows) {acc'} h = elim (Result-cases (add_row acc r)) [
  | inr (e, fails) ↦ absurd (ground arith)
  | inl (acc₁, added) ↦
      let later = group_rows-belongs key acc₁ rows (rw added at h) in
      let first = add_row-belongs key acc r added in
      later ∙ rw (first, append_assoc) (ap (λ l. list_at key acc ++ l) (ground arith))
]
