-- ===== src/Knee/Script/Files.antt =====
-- sweep/mkcharts.py: the files that the script writes.
use raft_tests.Prelude.{
  ℕ, ◌≡◌, refl, ap, inl, inr, Bool, true, ◌&&◌, some, List, [], ◌∷◌, ◌++◌, map, arith, contains,
  if◌then◌else◌, String, ok, leb, Bool-cases, Option-cases, length, All, All-keep, weaken_All,
  both_All, string_eq, option_eq, pair_eq, list_eq, nat_eq, int_eq,
}
use raft_tests.Python.Dict.{Dict, get, keys, contains-keys_missing}
use raft_tests.Python.Csv.{Row}
use raft_tests.Python.Float.{Float}
use raft_tests.Knee.Rows.{Product, Entry, chart_data}
use raft_tests.Knee.Clash.{Series, round_trips, present}
use raft_tests.Knee.Clash.Laws.{ColoursDiffer, check_colours_iff}
use raft_tests.Knee.Draw.Total.{IsComplete}
use raft_tests.Knee.Product.{Svg}
use raft_tests.Knee.Config.{configs}
use raft_tests.Knee.Curves.{Implementation, implementations, present_in, knee_curves}
use raft_tests.Knee.Curves.Total.{AllShown, AllAnchored, IsShown, grid-IsOk, curves-Outcome}
use raft_tests.Knee.Panels.Total.{IsThere, HasAxis, round_trips_file-IsOk}
use raft_tests.Knee.Overlay.Total.{overlay_file-IsOk}
use raft_tests.Knee.Script.{written, summary, combined_files, run}
use raft_tests.Knee.Script.Charts.{AllDrawn, chart_file, Writes, product_charts-Writes}

-- the file of the implementations, where one of them is in the data
abbrev pub curve_names : List Implementation → List String
curve_names [] = []
curve_names (_ ∷ _) = "knee-curves.svg" ∷ []

-- the files of the round trips, where they are asked for and there are two of them at least
abbrev pub overlay_names : Bool → ℕ → List String
overlay_names combined n =
    if combined && leb 2 n then "round-trips.svg" ∷ "round-trips-p50.svg" ∷ [] else []

-- the names of all files, in the order in which they are written
abbrev pub file_names : Dict Product (List Entry) → Bool → List String
file_names d combined =
    curve_names (present_in d implementations)
    ++ (map chart_file (written d configs)
        ++ overlay_names combined (length (present d round_trips)))

map-append :
    {A : Type 0} {B : Type 0} (g : A → B) (xs ys : List A) → map g (xs ++ ys) ≡ map g xs ++ map g ys
map-append g [] ys = refl
map-append g (x ∷ xs) ys = ap (λ zs. g x ∷ zs) (map-append g xs ys)

pub AllDrawn-AllShown : (d : Dict Product (List Entry)) → AllDrawn d → AllShown d
AllDrawn-AllShown d drawn name es there =
    let (some_entry, complete, above99, above50) = drawn name es there in
    (
      some_entry,
      weaken_All _ IsShown es (λ x ((r, a, l50, l99), above). (r, a, above))
          (both_All IsComplete _ es complete above50),
    )

module _ {ℓ} (F : Type ℓ) ⦃f : Float F⦄ (d : Dict Product (List Entry)) where
  curve-named :
      (here : List Implementation) (lines : List String)
      → Writes
          (ok (elim here as (λ _. List Svg) [ [] ↦ [] | _ ∷ _ ↦ ("knee-curves.svg", lines) ∷ [] ]))
          (curve_names here)
  curve-named [] lines = (_, refl, refl)
  curve-named (_ ∷ _) lines = (_, refl, refl)

  knee_curves-Writes :
      AllShown d
      → AllAnchored F d
      → Writes (knee_curves F d) (curve_names (present_in d implementations))
  unfolding knee_curves
  knee_curves-Writes shown anchored =
      let (grid, gridded) = grid-IsOk F in
      elim (curves-Outcome F d shown) [
        | inr (missing, _) ↦ absurd (missing anchored)
        | inl (_, (curves, drew)) ↦
            rw (gridded, drew) (curve-named (present_in d implementations) _)
      ]

  IsThere-from :
      (rt : List Series)
      → AllDrawn d
      → All (λ s. contains (keys d) (some (s.0)) ≡ true) rt
      → All (IsThere d) rt
  IsThere-from [] drawn _ = tt
  IsThere-from (s ∷ rt) drawn (here, rest) = (
    elim (Option-cases (get (some (s.0)) d)) [
      | inl missing ↦ absurd (ground (arith, contains-keys_missing (some (s.0)) d missing))
      | inr (es, there) ↦ (es, there, (drawn (some (s.0)) es there).1)
    ],
    IsThere-from rt drawn rest,
  )

  combined_files-Writes :
      (combined : Bool) (rt : List Series)
      → All (IsThere d) rt
      → HasAxis F d rt
      → Writes (combined_files F combined d rt) (overlay_names combined (length rt))
  unfolding combined_files
  combined_files-Writes combined rt there axis =
      let (panels, first) = round_trips_file-IsOk F d rt there axis in
      let (overlay, second) = overlay_file-IsOk F d rt there axis in
      elim (Bool-cases (combined && leb 2 (length rt))) [
        | inl both ↦ rw (first, second, both) (_, refl, refl)
        | inr none_asked ↦ rw none_asked ([], refl, refl)
      ]

  -- If all data of the rows can be shown, the implementations in it have the points that their labels stand at, no two
  -- round trips share a colour and the axis of the round trips has a length, the script returns: it writes
  -- knee-curves.svg if an implementation is there, then the products' charts in the order of CFG, then the two files
  -- of the round trips if --combined is given and there are two round trips or more, and it prints the summary.
  pub run-Writes :
      (rows : List Row) (combined : Bool) (dir : String)
      → chart_data rows ≡ ok d
      → AllDrawn d
      → AllAnchored F d
      → ColoursDiffer (present d round_trips)
      → HasAxis F d (present d round_trips)
      → (files : List Svg) × (run F rows combined dir
          ≡ ok (files, summary d combined (length (present d round_trips)) dir))
        × (map (λ file. file.0) files ≡ file_names d combined)
  unfolding run present
  run-Writes rows combined dir read drawn anchored differ axis =
      let rt = present d round_trips in
      let (curves, first, named_1) = knee_curves-Writes (AllDrawn-AllShown d drawn) anchored in
      let (products, second, named_2) = product_charts-Writes F d drawn in
      let there =
        IsThere-from rt drawn (All-keep (λ s. contains (keys d) (some (s.0))) round_trips) in
      let (overlays, third, named_3) = combined_files-Writes combined rt there axis in
      (
        curves ++ (products ++ overlays),
        rw (read, first, second, (check_colours_iff d).1 differ, third) refl,
        rw
            (
              map-append (λ file. file.0) curves (products ++ overlays),
              map-append (λ file. file.0) products overlays,
              named_1,
              named_2,
              named_3,
            )
            refl,
      )
