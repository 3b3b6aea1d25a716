-- ===== src/Compare/Scripts.antt =====
-- sweep/mkcharts-fleets.py and sweep/mkcharts-multi.py: when the scripts return.
use raft_tests.Prelude.{
  ◌≡◌, refl, ◌⊎◌, inl, inr, true, false, ◌&&◌, Option, none, some, List, [], ◌∷◌, map,
  if◌then◌else◌, String, Result, ok, err, os_error, ◌>>=◌, map_result, IsOk, if_true-IsOk,
  if_false-IsOk, >>=-IsOk, from-IsOk, map_result-IsOk, Bool-cases, Option-cases, All, string_eq,
  option_eq, pair_eq, list_eq, nat_eq, int_eq, ℤ,
}
use raft_tests.Python.Dict.{Dict, lookup, insert}
use raft_tests.Python.Csv.{Cell, Row, dict_reader, int_cell}
use raft_tests.Python.Float.{Float}
use raft_tests.Compare.{fleet_point, gateway_point, load_with, load_fleet, load_gateways}
use raft_tests.Compare.Laws.{IsReadable, load_fleet_lem, load_gateways_lem}
use raft_tests.Compare.Chart.{Curve}
use raft_tests.Compare.Fleets
use raft_tests.Compare.Fleets.{
  Disk, open_rows, is_filled, pair_rows, instance_files, aeron_files, paired_file,
  dissemination_file,
}
use raft_tests.Compare.Gateways
use raft_tests.Compare.Gateways.{gateway_files}

-- If the file exists, each of its rows is read or skipped.
abbrev pub FleetReadable : Disk → String → String → Type 0
FleetReadable disk product path =
    (rows : List (List String))
    → disk path ≡ some rows
    → All (IsReadable (fleet_point product)) rows

abbrev pub GatewayReadable : Disk → String → String × String × String → Type 0
GatewayReadable disk col (label, path, product) =
    (lines : List (List String))
    → disk path ≡ some lines
    → All (IsReadable (gateway_point product col)) (dict_reader lines)

-- The row has both latency columns, and its numbers where both are filled.
abbrev pub IsPairable : Row → Type 0
IsPairable row =
    (ack : Cell) × (lookup "ack_p50" row ≡ ok ack)
    × (diss : Cell) × (lookup "diss_p50" row ≡ ok diss)
    × ((is_filled ack && is_filled diss) ≡ true
        → IsOk (int_cell ack) × IsOk (int_cell diss) × IsOk (lookup "rate" row >>= int_cell))

load_fleet-IsOk :
    (disk : Disk) (product path : String)
    → FleetReadable disk product path
    → IsOk (load_fleet (disk path) product)
unfolding load_fleet load_with
load_fleet-IsOk disk product path readable = go (disk path) refl
  where
    go : (file : Option (List (List String))) → disk path ≡ file → IsOk (load_fleet file product)
    go none e = ([], refl)
    go (some rows) e =
        let (d, loads, _) = load_fleet_lem rows product (readable rows e) in (d, loads)

read_curves-IsOk :
    (disk : Disk) (product : String) (files : List (String × String))
    → All (λ lp. FleetReadable disk product (lp.1)) files
    → IsOk (Fleets.read_curves disk product files)
unfolding Fleets.read_curves Fleets.read_curve
read_curves-IsOk disk product files readable =
    map_result-IsOk (λ lp. FleetReadable disk product (lp.1)) (Fleets.read_curve disk product) files
      (λ (label, path) here.
        >>=-IsOk (load_fleet (disk path) product) _ (load_fleet-IsOk disk product path here)
          (λ _ _. (_, refl)))
      readable

pair_rows-IsOk :
    (paired : Dict ℤ (ℤ × ℤ)) (rows : List Row) → All IsPairable rows → IsOk (pair_rows paired rows)
unfolding pair_rows
pair_rows-IsOk paired [] _ = (paired, refl)
pair_rows-IsOk paired (row ∷ rows) ((ack, has_ack, diss, has_diss, numbers), rest) =
    from-IsOk (lookup "ack_p50" row) _ ack has_ack (elim (Bool-cases (is_filled ack)) [
      | inr empty ↦
          from-IsOk (if is_filled ack then lookup "diss_p50" row else ok none) _ none
            (rw empty refl)
            (if_false-IsOk (is_filled ack && false) _ _ (rw empty refl)
              (pair_rows-IsOk paired rows rest))
      | inl full ↦
          from-IsOk (if is_filled ack then lookup "diss_p50" row else ok none) _ diss
            (rw (full) has_diss)
            (elim (Bool-cases (is_filled ack && is_filled diss)) [
              | inr one_empty ↦
                  if_false-IsOk (is_filled ack && is_filled diss) _ _ one_empty
                    (pair_rows-IsOk paired rows rest)
              | inl both ↦
                  let (is_a, is_d, is_rate) = numbers both in
                  if_true-IsOk (is_filled ack && is_filled diss) _ _ both (
                    >>=-IsOk (int_cell ack) _ is_a λ a _. >>=-IsOk (int_cell diss) _ is_d λ d _.
                      >>=-IsOk (lookup "rate" row >>= int_cell) _ is_rate
                        λ rate _. pair_rows-IsOk (insert rate (a, d) paired) rows rest)
            ])
    ])

-- The script returns files of these names.
abbrev pub Writes : Result (List (String × List String) × String) → List String → Type 0
Writes r names =
    (files : List (String × List String)) × (line : String) × (r ≡ ok (files, line))
    × (map (λ file. file.0) files ≡ names)

from-Writes {ℓ} :
    {A : Type ℓ} (m : Result A) (f : A → Result (List (String × List String) × String))
    (names : List String) (a : A)
    → m ≡ ok a
    → Writes (f a) names
    → Writes (m >>= f) names
from-Writes m f names a e next = rw e next

open_rows_missing :
    (disk : Disk) (path : String) → disk path ≡ none → open_rows disk path ≡ err os_error
unfolding open_rows
open_rows_missing disk path missing = rw (open_rows, missing) refl

open_rows_there :
    (disk : Disk) (path : String) (lines : List (List String))
    → disk path ≡ some lines
    → open_rows disk path ≡ ok (dict_reader lines)
unfolding open_rows
open_rows_there disk path lines there = rw (open_rows, there) refl

module _ {ℓ} (F : Type ℓ) ⦃f : Float F⦄ (disk : Disk) (dir : String) where
  -- If the rows of all files that exist are read or skipped and the rows of the paired runs have their columns, the
  -- fleets script returns its three charts exactly if the file of the paired runs exists, whichever of the other files
  -- do; if not, it ends in an OSError.
  pub fleets-Outcome :
      All (λ lp. FleetReadable disk "sequencer" (lp.1)) instance_files
      → All (λ lp. FleetReadable disk "aeron" (lp.1)) aeron_files
      → FleetReadable disk "sequencer-output-brpc" dissemination_file
      → ((lines : List (List String))
          → disk paired_file ≡ some lines
          → All IsPairable (dict_reader lines))
      → (((lines : List (List String)) × (disk paired_file ≡ some lines))
          × Writes (Fleets.run F disk dir) (
              "fleet-instance-types.svg" ∷ "fleet-ack-vs-dissemination.svg"
              ∷ "fleet-aeron-vendor.svg" ∷ []))
        ⊎ ((disk paired_file ≡ none) × (Fleets.run F disk dir ≡ err os_error))
  unfolding Fleets.run
  fleets-Outcome types aerons ach pairs =
      let (ts, read_ts) = read_curves-IsOk disk "sequencer" instance_files types in
      let (as_, read_as) = read_curves-IsOk disk "aeron" aeron_files aerons in
      let (d, read_d) = load_fleet-IsOk disk "sequencer-output-brpc" dissemination_file ach in
      elim (Option-cases (disk paired_file)) [
        | inl missing ↦ inr (missing, rw (read_ts, open_rows_missing disk paired_file missing) refl)
        | inr (lines, there) ↦
            let (paired, read_p) = pair_rows-IsOk [] (dict_reader lines) (pairs lines there) in
            inl (
              (lines, there),
              from-Writes (Fleets.read_curves disk "sequencer" instance_files) _ names ts read_ts (
                  from-Writes (open_rows disk paired_file) _ names (dict_reader lines)
                    (open_rows_there disk paired_file lines there)
                    (from-Writes (pair_rows [] (dict_reader lines)) _ names paired read_p (
                      from-Writes (load_fleet (disk dissemination_file) "sequencer-output-brpc") _
                        names d read_d
                        (from-Writes (Fleets.read_curves disk "aeron" aeron_files) _ names as_
                          read_as (_, _, refl, refl))))),
            )
      ]
    where
      names : List String
      names =
          "fleet-instance-types.svg" ∷ "fleet-ack-vs-dissemination.svg" ∷ "fleet-aeron-vendor.svg"
          ∷ []

  gateway_curve-IsOk :
      (col : String) (lpp : String × String × String)
      → GatewayReadable disk col lpp
      → IsOk (Gateways.read_curve disk col lpp)
  unfolding Gateways.read_curve load_gateways load_with
  gateway_curve-IsOk col (label, path, product) readable = go (disk path) refl
    where
      go :
          (file : Option (List (List String)))
          → disk path ≡ file
          → IsOk {A = Curve} (do
            points ←
                load_gateways
                  (elim file as (λ _. Option (List Row)) [
                    | none ↦ none
                    | some lines ↦ some (dict_reader lines)
                  ])
                  product
                  col
            ok (label, points))
      go none e = (_, refl)
      go (some lines) e =
          let (d, loads, _) =
            load_gateways_lem (dict_reader lines) product col (readable lines e) in
          from-IsOk (load_gateways (some (dict_reader lines)) product col) _ d loads (_, refl)

  -- If the rows of all files that exist are read or skipped, the multi-gateway script returns its two charts,
  -- whichever of the files exist.
  pub gateways-Writes :
      All (GatewayReadable disk "p50") gateway_files
      → All (GatewayReadable disk "p99") gateway_files
      → Writes (Gateways.run F disk dir) ("multi-gateway-p50.svg" ∷ "multi-gateway-p99.svg" ∷ [])
  unfolding Gateways.run
  gateways-Writes r50 r99 =
      let (p50, read_50) =
        map_result-IsOk (GatewayReadable disk "p50") (Gateways.read_curve disk "p50") gateway_files
          (gateway_curve-IsOk "p50") r50 in
      let (p99, read_99) =
        map_result-IsOk (GatewayReadable disk "p99") (Gateways.read_curve disk "p99") gateway_files
          (gateway_curve-IsOk "p99") r99 in
      from-Writes (map_result (Gateways.read_curve disk "p50") gateway_files) _ names p50 read_50 (
        from-Writes (map_result (Gateways.read_curve disk "p99") gateway_files) _ names p99 read_99
          (_, _, refl, refl))
    where
      names : List String
      names = "multi-gateway-p50.svg" ∷ "multi-gateway-p99.svg" ∷ []
