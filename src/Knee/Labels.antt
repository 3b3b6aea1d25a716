-- ===== src/Knee/Labels.antt =====
-- sweep/mkcharts.py: the labels at the ends of a product's two curves, which are pushed apart.
use raft_tests.Prelude.{if◌then◌else◌, string_eq, option_eq, pair_eq, list_eq, nat_eq, int_eq}
use raft_tests.Python.Float.{Float}

module _ {ℓ} (F : Type ℓ) ⦃f : Float F⦄ where
  abbrev pub min_gap : F
  min_gap = f.lit 140 1

  -- `kMinLabelGap / 2.0`
  abbrev pub half_gap : F
  half_gap = f.div min_gap (f.lit 20 1)

module _ {ℓ} {F : Type ℓ} ⦃f : Float F⦄ where
  -- `min(max(y, top), bottom)`, with the two ints as floats
  unfoldable pub clamp : F → F → F → F
  clamp top bottom y =
      let lower = if f.lt y top then top else y in if f.lt bottom lower then bottom else lower

  -- `abs(a)`
  abbrev pub absolute : F → F
  absolute a = if f.lt a (f.lit 0 1) then f.sub (f.lit 0 1) a else a

  -- `pos["p99"]` and `pos["p50"]` after the separation
  unfoldable pub separate : F → F → F × F
  separate p99 p50 =
      let mid = f.div (f.add p99 p50) (f.lit 20 1) in
      let high = f.sub mid (half_gap F) in
      let low = f.add mid (half_gap F) in
      if f.lt (absolute (f.sub p99 p50)) (min_gap F)
      then (if f.le p99 p50 then (high, low) else (low, high))
      else (p99, p50)
