-- ===== src/Knee/Script/Charts.antt =====
-- sweep/mkcharts.py: the files that the loop over CFG writes.
use raft_tests.Prelude.{
  ◌≡◌, refl, ap, inl, inr, Bool, true, false, not, ◌&&◌, some, List, [], ◌∷◌, map, arith, ◌==◌,
  contains, String, ◌<>◌, Result, ok, IsOk, ltb, Option-cases, length, All, keep-true, keep-false,
  string_eq, option_eq, pair_eq, list_eq, nat_eq, int_eq, pos, ltb_ℤ,
}
use raft_tests.Python.Dict.{Dict, get, keys, contains-keys, contains-keys_missing}
use raft_tests.Python.Float.{Float}
use raft_tests.Knee.Rows.{Product, Entry}
use raft_tests.Knee.Draw.Total.{IsComplete, IsAbove}
use raft_tests.Knee.Product.{Config, Svg, product_chart, product_charts}
use raft_tests.Knee.Product.Total.{IsValid, product_chart-Outcome}
use raft_tests.Knee.Config.{configs}
use raft_tests.Knee.Script.{written}

-- Data that a product's chart can show: some entries, all complete, and no latency at or below zero.
abbrev pub IsDrawn : List Entry → Type 0
IsDrawn es =
    (ltb 0 (length es) ≡ true) × All IsComplete es × All (IsAbove "p99") es × All (IsAbove "p50") es

-- All products in the data can be shown.
abbrev pub AllDrawn : Dict Product (List Entry) → Type 0
AllDrawn d = (name : Product) (es : List Entry) → get name d ≡ some es → IsDrawn es

-- the name of a product's file
abbrev pub chart_file : String → String
chart_file name = "knee-" <> name <> ".svg"

-- The action returns files with these names, in this order.
abbrev pub Writes : Result (List Svg) → List String → Type 0
Writes r names = (files : List Svg) × (r ≡ ok files) × (map (λ file. file.0) files ≡ names)

all {ℓ} : {A : Type ℓ} → (A → Bool) → List A → Bool
all test [] = true
all test (x ∷ xs) = test x && all test xs

all-All {ℓ κ} :
    {A : Type ℓ} (P : A → Type κ) (test : A → Bool) (xs : List A)
    → ((x : A) → test x ≡ true → P x)
    → all test xs ≡ true
    → All P xs
unfolding all
all-All P test [] sound h = tt
all-All P test (x ∷ xs) sound h = (sound x (ground arith), all-All P test xs sound (ground arith))

has_axes : String × Config → Bool
has_axes (_, cfg) = not (pos cfg.xmax == pos 0) && all (ltb_ℤ (pos 0)) cfg.yticks

has_axes-IsValid : (nc : String × Config) → has_axes nc ≡ true → IsValid (nc.1)
unfolding has_axes
has_axes-IsValid (name, cfg) h = (
  ground arith,
  all-All (λ v. ltb_ℤ (pos 0) v ≡ true) (ltb_ℤ (pos 0)) cfg.yticks (λ v above. above)
      (ground arith),
)

all_have_axes : all has_axes configs ≡ true
unfolding all has_axes configs int_eq
all_have_axes = refl

pub configs-IsValid : All (λ nc. IsValid (nc.1)) configs
configs-IsValid = all-All (λ nc. IsValid (nc.1)) has_axes configs has_axes-IsValid all_have_axes

written_present :
    (d : Dict Product (List Entry)) (name : String) (cfg : Config) (rest : List (String × Config))
    → contains (keys d) (some name) ≡ true
    → written d ((name, cfg) ∷ rest) ≡ name ∷ written d rest
unfolding written
written_present d name cfg rest h =
    ap (map (λ nc. nc.0)) (keep-true (λ nc. contains (keys d) (some (nc.0))) (name, cfg) rest h)

written_missing :
    (d : Dict Product (List Entry)) (name : String) (cfg : Config) (rest : List (String × Config))
    → contains (keys d) (some name) ≡ false
    → written d ((name, cfg) ∷ rest) ≡ written d rest
unfolding written
written_missing d name cfg rest h =
    ap (map (λ nc. nc.0)) (keep-false (λ nc. contains (keys d) (some (nc.0))) (name, cfg) rest h)

module _ {ℓ} (F : Type ℓ) ⦃f : Float F⦄ where
  product_chart-IsOk :
      (cfg : Config) (es : List Entry) → IsValid cfg → IsDrawn es → IsOk (product_chart F cfg es)
  product_chart-IsOk cfg es valid (some_entry, complete, above99, above50) =
      elim (product_chart-Outcome F cfg es valid some_entry complete) [
        | inl (_, drawn) ↦ drawn
        | inr (low, _) ↦ absurd (low (above99, above50))
      ]

  charts_from :
      (d : Dict Product (List Entry)) (cfgs : List (String × Config))
      → AllDrawn d
      → All (λ nc. IsValid (nc.1)) cfgs
      → Writes (product_charts F d cfgs) (map chart_file (written d cfgs))
  unfolding product_charts written
  charts_from d [] drawn _ = ([], refl, refl)
  charts_from d ((name, cfg) ∷ rest) drawn (valid, valids) =
      let (files, wrote, named) = charts_from d rest drawn valids in
      elim (Option-cases (get (some name) d)) [
        | inl missing ↦ (
          files,
          rw (product_charts, missing) wrote,
          rw (written_missing d name cfg rest (contains-keys_missing (some name) d missing)) named,
        )
        | inr (es, there) ↦
            let (lines, drew) = product_chart-IsOk cfg es valid (drawn (some name) es there) in
            (
              (chart_file name, lines) ∷ files,
              rw (product_charts, there, drew, wrote) refl,
              rw (written_present d name cfg rest (contains-keys (some name) d there))
                  (ap (λ names. chart_file name ∷ names) named),
            )
      ]

  -- If all products in the data can be shown, the loop over CFG returns, and the files that it writes are those of
  -- the products that the printed line lists, in this order.
  pub product_charts-Writes :
      (d : Dict Product (List Entry))
      → AllDrawn d
      → Writes (product_charts F d configs) (map chart_file (written d configs))
  product_charts-Writes d drawn = charts_from d configs drawn configs-IsValid
