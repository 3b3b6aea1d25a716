-- ===== src/Knee/Args/Laws.antt =====
-- sweep/mkcharts.py: which argument is the output directory.
use raft_tests.Prelude.{
  ◌≡◌, refl, ap, ◌∙◌, ◌⊎◌, inl, inr, true, false, List, [], ◌∷◌, ◌++◌, arith, All, keep-true,
  keep-false, string_eq, option_eq, pair_eq, list_eq, nat_eq, int_eq,
}
use raft_tests.Python.Text.{Text, codes, starts_with}
use raft_tests.Knee.Args.{ends_with, is_csv, is_dir, out}

-- The argument ends in .csv or begins with two dashes.
abbrev pub IsOther : Text → Type 0
IsOther a = (ends_with (codes ".csv") a ≡ true) ⊎ (starts_with a (codes "--") ≡ true)

not_dir : (a : Text) → IsOther a → is_dir a ≡ false
unfolding is_dir is_csv
not_dir a (inl csv) = rw csv refl
not_dir a (inr option) = ground (arith, option)

a_dir :
    (a : Text)
    → ends_with (codes ".csv") a ≡ false
    → starts_with a (codes "--") ≡ false
    → is_dir a ≡ true
unfolding is_dir is_csv
a_dir a no_csv no_option = rw (no_csv, no_option) refl

abbrev first_of : Text → List Text → Text
first_of root dirs = elim dirs [ [] ↦ root | d ∷ _ ↦ d ]

-- Behind any number of arguments that end in .csv or begin with two dashes, the first argument that does neither is
-- the output directory, whatever follows it; where all arguments do one of both, it is the directory above the script's.
pub out_lem :
    (root : Text) (xs : List Text) (a : Text) (ys : List Text)
    → All IsOther xs
    → ends_with (codes ".csv") a ≡ false
    → starts_with a (codes "--") ≡ false
    → (out root xs ≡ root) × (out root (xs ++ (a ∷ ys)) ≡ a)
unfolding out
out_lem root [] a ys _ no_csv no_option =
    (refl, ap (first_of root) (keep-true is_dir a ys (a_dir a no_csv no_option)))
out_lem root (x ∷ xs) a ys (o, os) no_csv no_option =
    let (none_there, there) = out_lem root xs a ys os no_csv no_option in
    let skip = not_dir x o in
    (
      ap (first_of root) (keep-false is_dir x xs skip) ∙ none_there,
      ap (first_of root) (keep-false is_dir x (xs ++ (a ∷ ys)) skip) ∙ there,
    )
