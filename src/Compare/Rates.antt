-- ===== src/Compare/Rates.antt =====
-- sweep/mkcharts-fleets.py and sweep/mkcharts-multi.py: a curve is drawn from left to right, a point to a rate.
use raft_tests.Prelude.{
  ℕ, ◌≡◌, refl, ◌≢◌, inl, inr, Bool, Option, none, some, List, [], ◌∷◌, arith, String, Result, ok,
  Result-cases, Bool-cases, All, keep, string_eq, option_eq, pair_eq, list_eq, nat_eq, int_eq, ℤ,
  ◌<ℤ◌, leb_ℤ, ≤ℤ_antisymm,
}
use raft_tests.Python.Dict.{Dict, get, keys, NodupKeys, append_at, append_at-NodupKeys}
use raft_tests.Python.Sort.{insort, sorted, All-insort, All-sorted}
use raft_tests.Compare.{Point, averaged, collect, load_with, load_fleet, fleet_point}
use raft_tests.Compare.Laws.{get-averaged}
use raft_tests.Compare.Chart.{shown_rates}

-- Each number is below all that follow it.
abbrev pub IsRising : List ℤ → Type 0
IsRising [] = Unit
IsRising (x ∷ xs) = All (λ y. x <ℤ y) xs × IsRising xs

-- No number comes twice.
abbrev Distinct : List ℤ → Type 0
Distinct [] = Unit
Distinct (x ∷ xs) = All (λ y. x ≢ y) xs × Distinct xs

All-<ℤ_trans : (x y : ℤ) (ys : List ℤ) → x <ℤ y → All (λ z. y <ℤ z) ys → All (λ z. x <ℤ z) ys
All-<ℤ_trans x y [] h _ = tt
All-<ℤ_trans x y (z ∷ zs) h (k, ks) = (omega (arith, h, k), All-<ℤ_trans x y zs h ks)

insort-IsRising :
    (x : ℤ) (xs : List ℤ) → All (λ y. x ≢ y) xs → IsRising xs → IsRising (insort leb_ℤ x xs)
unfolding insort
insort-IsRising x [] _ _ = (tt, tt)
insort-IsRising x (y ∷ ys) (differ, others) (below, rest) = elim (Bool-cases (leb_ℤ x y)) [
  | inl e ↦
      let less : x <ℤ y = elim (Bool-cases (leb_ℤ y x)) [
        | inl back ↦ absurd (differ (≤ℤ_antisymm x y (ground arith) (ground arith)))
        | inr none_back ↦ ground arith
      ] in
      rw e ((less, All-<ℤ_trans x y ys less below), (below, rest))
  | inr e ↦
      let less : y <ℤ x = ground arith in
      rw e (All-insort leb_ℤ (λ z. y <ℤ z) x ys less below, insort-IsRising x ys others rest)
]

sorted-IsRising : (xs : List ℤ) → Distinct xs → IsRising (sorted leb_ℤ xs)
unfolding sorted
sorted-IsRising [] _ = tt
sorted-IsRising (x ∷ xs) (d, ds) =
    insort-IsRising x (sorted leb_ℤ xs) (All-sorted leb_ℤ (λ y. x ≢ y) xs d) (sorted-IsRising xs ds)

All-keep : (P : ℤ → Type 0) (test : ℤ → Bool) (xs : List ℤ) → All P xs → All P (keep test xs)
All-keep P test [] _ = tt
All-keep P test (x ∷ xs) (p, ps) = elim (Bool-cases (test x)) [
  | inl e ↦ rw (e, keep) (p, All-keep P test xs ps)
  | inr e ↦ rw (e, keep) (All-keep P test xs ps)
]

keep-Distinct : (test : ℤ → Bool) (xs : List ℤ) → Distinct xs → Distinct (keep test xs)
keep-Distinct test [] _ = tt
keep-Distinct test (x ∷ xs) (d, ds) = elim (Bool-cases (test x)) [
  | inl e ↦ rw (e, keep) (All-keep (λ y. x ≢ y) test xs d, keep-Distinct test xs ds)
  | inr e ↦ rw (e, keep) (keep-Distinct test xs ds)
]

absent-keys : (k : ℤ) (d : Dict ℤ Point) → get k d ≡ none → All (λ j. k ≢ j) (keys d)
unfolding get keys
absent-keys k [] _ = tt
absent-keys k ((j, _) ∷ d) h = ((λ same. ground arith), absent-keys k d (ground arith))

NodupKeys-Distinct : (d : Dict ℤ Point) → NodupKeys d → Distinct (keys d)
unfolding keys
NodupKeys-Distinct [] _ = tt
NodupKeys-Distinct ((k, _) ∷ d) (fresh, u) = (absent-keys k d fresh, NodupKeys-Distinct d u)

averaged-NodupKeys : (acc : Dict ℤ (List Point)) → NodupKeys acc → NodupKeys (averaged acc)
unfolding averaged
averaged-NodupKeys [] _ = tt
averaged-NodupKeys ((k, _) ∷ acc) (fresh, u) =
    (rw (get-averaged k acc, fresh) refl, averaged-NodupKeys acc u)

module _ {ℓ} {R : Type ℓ} (point : R → Result (Option (ℤ × Point))) where
  collect-NodupKeys :
      (acc : Dict ℤ (List Point)) (rows : List R) {acc' : Dict ℤ (List Point)}
      → NodupKeys acc
      → collect point acc rows ≡ ok acc'
      → NodupKeys acc'
  unfolding collect
  collect-NodupKeys acc [] {acc'} u h = let same : acc ≡ acc' = ground arith in rw (← same) u
  collect-NodupKeys acc (row ∷ rows) u h = elim (Result-cases (point row)) [
    | inr (e, fails) ↦ absurd (ground arith)
    | inl (none, found) ↦ collect-NodupKeys acc rows u (ground arith)
    | inl (some (j, p), found) ↦
        collect-NodupKeys (append_at j p acc) rows (append_at-NodupKeys j p acc u) (rw found at h)
  ]

  load_with-NodupKeys :
      (file : Option (List R)) {d : Dict ℤ Point} → load_with point file ≡ ok d → NodupKeys d
  unfolding load_with
  load_with-NodupKeys none {d} h = let same : [] ≡ d = ground arith in rw (← same) tt
  load_with-NodupKeys (some rows) {d} h = elim (Result-cases (collect point [] rows)) [
    | inr (e, fails) ↦ absurd (ground arith)
    | inl (acc, found) ↦
        let same : averaged acc ≡ d = ground arith in
        rw (← same) (averaged-NodupKeys acc (collect-NodupKeys [] rows tt found))
  ]

  shown_rates-IsRising :
      (file : Option (List R)) (xmax : ℕ) {d : Dict ℤ Point}
      → load_with point file ≡ ok d
      → IsRising (shown_rates xmax d)
  unfolding shown_rates
  shown_rates-IsRising file xmax {d} h =
      sorted-IsRising _
        (keep-Distinct _ (keys d) (NodupKeys-Distinct d (load_with-NodupKeys file h)))

-- The rates at which the fleets script draws a loaded series rise strictly, whatever the order of the rows and
-- however often a rate was measured.
pub load_fleet-IsRising :
    (file : Option (List (List String))) (product : String) (xmax : ℕ) {d : Dict ℤ Point}
    → load_fleet file product ≡ ok d
    → IsRising (shown_rates xmax d)
unfolding load_fleet
load_fleet-IsRising file product xmax h = shown_rates-IsRising (fleet_point product) file xmax h
