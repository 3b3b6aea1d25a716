-- ===== src/Knee/Args.antt =====
-- sweep/mkcharts.py: what the script reads from its arguments.
pub mod Laws
use raft_tests.Prelude.{
  Bool, not, ◌&&◌, ◌||◌, List, [], ◌∷◌, ◌==◌, contains, keep, string_eq, option_eq, pair_eq,
  list_eq, nat_eq, int_eq,
}
-- `s.endswith(suffix)` and `s.startswith(prefix)`
use raft_tests.Python.Text.{Text, codes, starts_with}

unfoldable pub ends_with : Text → Text → Bool
ends_with suffix [] = suffix == []
ends_with suffix (c ∷ cs) = suffix == (c ∷ cs) || ends_with suffix cs

unfoldable pub is_csv : Text → Bool
unfolding ends_with
is_csv a = ends_with (codes ".csv") a

-- `not a.endswith(".csv") and not a.startswith("--")`
unfoldable pub is_dir : Text → Bool
unfolding is_csv
is_dir a = not (is_csv a) && not (starts_with a (codes "--"))

-- `CSVS`; `knee` is the path of knee-sweep.csv beside the script
unfoldable pub csvs : Text → List Text → List Text
csvs knee args = elim (keep is_csv args) [ [] ↦ knee ∷ [] | a ∷ rest ↦ a ∷ rest ]

-- `COMBINED`
unfoldable pub combined : List Text → Bool
combined args = contains args (codes "--combined")

-- `OUT`; `root` is the directory above the script's
unfoldable pub out : Text → List Text → Text
out root args = elim (keep is_dir args) [ [] ↦ root | a ∷ _ ↦ a ]
