-- ===== src/Compare/Laws.antt =====
-- sweep/mkcharts-fleets.py and sweep/mkcharts-multi.py: what the loaded points are.
use mathlib.Core.List.{append-nil, append_assoc}
use mathlib.Core.Option.{map as map_option}
use raft_tests.Prelude.{
  All, ◌≡◌, refl, sym, inl, inr, Option, none, some, List, [], ◌∷◌, ◌++◌, arith, ◌==◌,
  if◌then◌else◌, String, Result, ok, err, Result-cases, Bool-cases, string_eq, option_eq, pair_eq,
  list_eq, nat_eq, int_eq, ℤ,
}
use raft_tests.Python.Dict.{Dict, get, append_at, list_at, list_at-append_at}
use raft_tests.Python.Csv.{Row}
use raft_tests.Compare.{
  Point, mean_point, averaged, collect, load_with, fleet_point, gateway_point, load_fleet,
  load_gateways,
}

-- The list under a key, where a missing key stands for the empty list.
abbrev filled : List Point → Option (List Point)
filled [] = none
filled (p ∷ ps) = some (p ∷ ps)

-- The mean of the points, where there are any.
abbrev pub mean_of : List Point → Option Point
mean_of [] = none
mean_of (p ∷ ps) = some (mean_point (p ∷ ps))

-- No key has the empty list.
abbrev Tight : Dict ℤ (List Point) → Type 0
Tight d = (k : ℤ) → get k d ≡ filled (list_at k d)

get-append_at :
    (j k : ℤ) (a : Point) (d : Dict ℤ (List Point))
    → get j (append_at k a d) ≡ (if k == j then some (list_at j d ++ (a ∷ [])) else get j d)
unfolding get append_at
get-append_at j k a [] = ground arith
get-append_at j k a (_ ∷ d) = ground (arith, get-append_at j k a d)

pub get-averaged :
    (k : ℤ) (d : Dict ℤ (List Point)) → get k (averaged d) ≡ map_option mean_point (get k d)
unfolding get averaged
get-averaged k [] = refl
get-averaged k (_ ∷ d) = ground (arith, get-averaged k d)

filled-append : (xs : List Point) (a : Point) → filled (xs ++ (a ∷ [])) ≡ some (xs ++ (a ∷ []))
filled-append [] a = refl
filled-append (x ∷ xs) a = refl

mean_filled : (ps : List Point) → map_option mean_point (filled ps) ≡ mean_of ps
mean_filled [] = refl
mean_filled (p ∷ ps) = refl

append_at-Tight : (k : ℤ) (a : Point) (d : Dict ℤ (List Point)) → Tight d → Tight (append_at k a d)
append_at-Tight k a d t j =
    rw (get-append_at j k a d, list_at-append_at j k a d)
      (elim (Bool-cases (k == j)) [
        | inl hit ↦ rw hit (sym (filled-append (list_at j d) a))
        | inr miss ↦ rw miss (t j)
      ])

module _ {ℓ} {R : Type ℓ} (point : R → Result (Option (ℤ × Point))) where
  -- The points that the rows have at a rate, in the order of the rows.
  abbrev pub points_at : ℤ → List R → List Point
  points_at k [] = []
  points_at k (row ∷ rows) =
      let more = points_at k rows in
      elim (point row) [
        | err e ↦ more
        | ok found ↦ elim found [ none ↦ more | some kp ↦ if kp.0 == k then kp.1 ∷ more else more ]
      ]

  collect-get :
      (acc : Dict ℤ (List Point)) (rows : List R) (k : ℤ) {acc' : Dict ℤ (List Point)}
      → Tight acc
      → collect point acc rows ≡ ok acc'
      → get k acc' ≡ filled (list_at k acc ++ points_at k rows)
  unfolding collect
  collect-get acc [] k {acc'} t h =
      let same : acc ≡ acc' = ground arith in rw (← same, append-nil) (t k)
  collect-get acc (row ∷ rows) k {acc'} t h = elim (Result-cases (point row)) [
    | inr (e, fails) ↦ absurd (ground arith)
    | inl (none, found) ↦ rw (found, points_at) (collect-get acc rows k t (ground arith))
    | inl (some (j, p), found) ↦
        let later =
          collect-get (append_at j p acc) rows k (append_at-Tight j p acc t) (rw found at h) in
        let first = list_at-append_at k j p acc in
        elim (Bool-cases (j == k)) [
          | inl hit ↦ rw (found, hit, points_at) (rw (first, hit, append_assoc) at later)
          | inr miss ↦ rw (found, miss, points_at) (rw (first, miss) at later)
        ]
  ]

  load_with-get :
      (rows : List R) (k : ℤ) {d : Dict ℤ Point}
      → load_with point (some rows) ≡ ok d
      → get k d ≡ mean_of (points_at k rows)
  unfolding load_with get
  load_with-get rows k {d} h = elim (Result-cases (collect point [] rows)) [
    | inr (e, fails) ↦ absurd (ground arith)
    | inl (acc, found) ↦
        let same : averaged acc ≡ d = ground arith in
        let known : get k acc ≡ filled (points_at k rows) =
          collect-get [] rows k (λ j. refl) found in
        rw (← same, get-averaged, known) (mean_filled (points_at k rows))
  ]

  -- The row is read or skipped, without an exception.
  abbrev pub IsReadable : R → Type 0
  IsReadable row = (found : Option (ℤ × Point)) × (point row ≡ ok found)

  collect-Returns :
      (acc : Dict ℤ (List Point)) (rows : List R)
      → All IsReadable rows
      → (acc' : Dict ℤ (List Point)) × (collect point acc rows ≡ ok acc')
  unfolding collect
  collect-Returns acc [] _ = (acc, refl)
  collect-Returns acc (row ∷ rows) ((found, e), rest) = rw e (
      collect-Returns (elim found [ none ↦ acc | some kp ↦ append_at (kp.0) (kp.1) acc ]) rows rest)

  load_with_lem :
      (rows : List R)
      → All IsReadable rows
      → (d : Dict ℤ Point) × (load_with point (some rows) ≡ ok d)
        × ((k : ℤ) → get k d ≡ mean_of (points_at k rows))
  unfolding load_with
  load_with_lem rows readable =
      let (acc, found) = collect-Returns [] rows readable in
      let loads : load_with point (some rows) ≡ ok (averaged acc) = rw found refl in
      (averaged acc, loads, λ k. load_with-get rows k loads)

-- The fleets script's `load`, by the rows that it can read.
pub load_fleet_lem :
    (rows : List (List String)) (product : String)
    → All (IsReadable (fleet_point product)) rows
    → (d : Dict ℤ Point) × (load_fleet (some rows) product ≡ ok d)
      × ((k : ℤ) → get k d ≡ mean_of (points_at (fleet_point product) k rows))
unfolding load_fleet
load_fleet_lem rows product readable = load_with_lem (fleet_point product) rows readable

-- The multi-gateway script's `load`, by the rows that it can read.
pub load_gateways_lem :
    (rows : List Row) (product col : String)
    → All (IsReadable (gateway_point product col)) rows
    → (d : Dict ℤ Point) × (load_gateways (some rows) product col ≡ ok d)
      × ((k : ℤ) → get k d ≡ mean_of (points_at (gateway_point product col) k rows))
unfolding load_gateways
load_gateways_lem rows product col readable =
    load_with_lem (gateway_point product col) rows readable
