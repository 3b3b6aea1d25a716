-- ===== src/Lib.antt =====
-- Models of the Python programs of raft-tests: the guard in front of `terraform apply`, and the tools that turn
-- the measurements of the sweeps into merged percentiles and charts.
--
-- The parts, and the code that each is about:
--   SafePlan    deploy/assert-safe-plan.py. Values is the JSON value with the dict, list and `in` operations that
--               the script applies to it; `add_change` is the loop's body, `finish` the report, `run` the script.
--   MergeHdr    sweep/merge-hdr.py: `load`, `percentile`, `summarise` and `main` under their own names; `add_files`
--               is the loop over the paths and `report` the merged summary.
--   Knee        sweep/mkcharts.py. Rows takes the rows of the CSV files to the sorted entries of each product
--               (`chart_data` is D), Wrap is `wrap_sub`, Legend is `legend_rows` and `legend`, Clash is the table RT
--               with the check of its colours. Args is what the script reads from its arguments, Style its colours,
--               Draw `sat`, `head`, `axes`, `series` and the scales. Curves is knee-curves.svg, Product the loop over
--               CFG with the table in Config and the end labels in Labels, Panels round-trips.svg, Overlay
--               round-trips-p50.svg, and Script puts them together, from the rows to the files and the printed line.
--   Palette     sweep/validate_palette.py: Colour is the colour arithmetic, `check` the two tables and the status.
--   Compare     sweep/mkcharts-fleets.py and sweep/mkcharts-multi.py: `load_fleet` and `load_gateways` are their two
--               `load` functions, Chart and Plot the two `chart` functions as the lines of the SVG file, Fleets and
--               Gateways the two scripts with the charts that they ask for.
--   Svg         the f-strings of an element; a file is a name with lines, which the script joins by newlines.
--   Python      what the programs use of Python: dicts as association lists in the order of insertion, `sorted`, str
--               methods on ASCII text, `int`, csv rows, and the interface of floats.
--   Prelude     shared names, Boolean tests, integers, lists, decidable equality, and results with exceptions.
-- The programs meet in files only: merge-hdr.py's percentiles go into the CSV rows that the charts are drawn from,
-- and validate_palette.py checks the colours that the charts use.
--
-- An exception is an `err` of `Result`, and a loop stops at the first one. Ints are `ℤ`, without a bound, as in
-- Python. Floats are the record `Python.Float.Float` of operations; a theorem that compares them asks for the laws
-- in `IsOrdered`: IEEE operations are monotone, and a product of ints stays below the product with a literal that is
-- larger by a tenth; a quotient of ints, the first below 2 ^ 52, lies on the same side of an int as the exact one.
-- NaN does not enter them. Python raises an OverflowError for an int beyond the largest float: this is written out
-- where merge-hdr.py multiplies a total (`fits`), and the ints that the charts convert are taken to be in range.
-- Python's limit on the digits of an int that is read or printed is left out. Millionths, fixed point numbers, fill
-- the interface in the tests, where they show that the laws can hold; the programs do not use them. `round(s / n)` is
-- computed on ints, which agrees with Python as long as the sum stays below 2 ^ 52.
--
-- Fuel: `show_nat` has a round for each unit of the number, more than it has digits. `ticks` has xmax + 1 rounds,
-- enough for the loop over the x axis with a step above zero. The plot height of a chart is cut off at 0, which
-- matters only with more than twenty lines of subtitle.
--
-- Not modelled: reading and writing files, the text of printed lines where it is fixed, the parsing of JSON and CSV
-- text (parsed values are parameters), digits outside ASCII, and the C++, Rust, Java
-- and shell code. The three functions `run` of the chart scripts keep no files of a run that raises, although the
-- script has written those before the exception.
pub mod Prelude
pub mod Python
pub mod SafePlan
pub mod MergeHdr
pub mod Svg
pub mod Knee
pub mod Palette
pub mod Compare
