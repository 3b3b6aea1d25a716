-- ===== src/Python/Csv.antt =====
-- The `csv` module's readers. How a file is cut into rows of fields is the module's own: a file is a parameter,
-- the rows that `csv.reader` yields, or an OSError. `csv.DictReader` on top of them is written out.
use raft_tests.Prelude.{
  Option, none, some, List, [], ◌∷◌, String, Result, ok, err, type_error, value_error, string_eq,
  option_eq, pair_eq, nat_eq, int_eq, ℤ,
}
use raft_tests.Python.Dict.{Dict, insert}
use raft_tests.Python.Number.{int_of}
use raft_tests.Python.Text.{codes}

-- A field of a row, or `None` where the row is short.
abbrev pub Cell : Type 0
Cell = Option String

abbrev pub Row : Type 0
Row = Dict String Cell

abbrev pub CsvFile : Type 0
CsvFile = Result (List (List String))

-- `dict(zip(header, row))`, with `None` for the fields that are missing. Fields beyond the header go under
-- the key `None`, which no script reads: they are left out.
fill_row : List String → List String → Row → Row
unfolding insert
fill_row [] _ r = r
fill_row (h ∷ header) [] r = fill_row header [] (insert h none r)
fill_row (h ∷ header) (v ∷ row) r = fill_row header row (insert h (some v) r)

dict_rows : List String → List (List String) → List Row
dict_rows header [] = []
dict_rows header ([] ∷ rows) = dict_rows header rows
dict_rows header ((v ∷ row) ∷ rows) = fill_row header (v ∷ row) [] ∷ dict_rows header rows

-- `csv.DictReader(file)`: the first row names the fields, and blank lines are skipped.
unfoldable pub dict_reader : List (List String) → List Row
unfolding dict_rows fill_row
dict_reader [] = []
dict_reader (header ∷ rows) = dict_rows header rows

-- `int(cell)`
unfoldable pub int_cell : Cell → Result ℤ
int_cell none = err type_error
int_cell (some s) = elim (int_of (codes s)) [ none ↦ err value_error | some n ↦ ok n ]
