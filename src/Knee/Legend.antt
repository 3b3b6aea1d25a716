-- ===== src/Knee/Legend.antt =====
-- sweep/mkcharts.py, `legend_rows` and `legend`: the rows of a legend that wraps.
mod Tests
pub mod Laws
use raft_tests.Prelude.{
  ℕ, ◌+◌, ◌-◌, ◌*◌, Bool, false, ◌&&◌, Option, none, some, List, [], ◌∷◌, arith, if◌then◌else◌,
  String, ◌<>◌, length, string_eq, option_eq, pair_eq, nat_eq, int_eq, ℤ, pos, ◌+ℤ◌, ◌-ℤ◌, ltb_ℤ,
  int_laws,
}
use mathlib.Core.List.{flat_map}
use raft_tests.Python.Text.{codes}
use raft_tests.Python.Number.{show_int}
use raft_tests.Python.Float.{Float, Num, int, float, plus, to_float}

-- `(lab, col)`
abbrev pub Item : Type 0
Item = String × String

module _ {ℓ} {F : Type ℓ} ⦃f : Float F⦄ where
  -- `a > b`. The ints that are compared with a float here are far below 2 ^ 53, where they are floats too.
  unfoldable pub gt : Num F → Num F → Bool
  gt (int m) (int n) = ltb_ℤ n m
  gt (int m) (float b) = f.lt b (f.of_int m)
  gt (float a) b = f.lt (to_float b) a

  -- `_legend_w`
  unfoldable pub legend_w : String → Num F
  legend_w lab =
      float (f.add (f.of_int (pos 26)) (f.mul (f.of_int (pos (length (codes lab)))) (f.lit 66 1)))

  -- `lx > L and lx + w > maxx`
  unfoldable pub is_past : ℤ → ℤ → Num F → Num F → Bool
  is_past left maxx lx w = gt lx (int left) && gt (plus lx w) (int maxx)

  -- the rows that the loop of `legend_rows` adds from `lx` on
  unfoldable pub rows_from : ℤ → ℤ → Num F → List Item → ℕ
  rows_from left maxx lx [] = 0
  rows_from left maxx lx ((lab, col) ∷ items) =
      let w = legend_w lab in
      let past = is_past left maxx lx w in
      (if past then 1 else 0) + rows_from left maxx (plus (if past then int left else lx) w) items

module _ {ℓ} (F : Type ℓ) ⦃f : Float F⦄ where
  unfoldable pub legend_rows : List Item → ℤ → ℤ → ℕ
  legend_rows items left maxx = 1 + rows_from {F = F} left maxx (int left) items

-- Where an entry is drawn.
pub record Place {ℓ} (F : Type ℓ) : Type ℓ where
  pub item : Item
  pub lx : Num F
  pub y : ℤ

module _ {ℓ} {F : Type ℓ} ⦃f : Float F⦄ where
  -- the loop of `legend`; `none` stands for `maxx` None or 0, where nothing wraps
  unfoldable pub place_items : ℤ → Option ℤ → Num F → ℤ → List Item → List (Place F)
  place_items left maxx lx y [] = []
  place_items left maxx lx y ((lab, col) ∷ items) =
      let w = legend_w lab in
      let past : Bool = elim maxx [ none ↦ false | some m ↦ is_past left m lx w ] in
      let lx' = if past then int left else lx in
      let y' = if past then y +ℤ pos 18 else y in
      record { item = (lab, col); lx = lx'; y = y' } ∷ place_items left maxx (plus lx' w) y' items

  abbrev pub show_num : Num F → String
  show_num (int n) = show_int n
  show_num (float a) = f.repr a

  -- the two elements of an entry
  unfoldable pub draw_place : String → Place F → List String
  draw_place ink2 p =
      ("<circle cx=\""
        <> show_num (plus p.lx (int (pos 5)))
        <> "\" cy=\""
        <> show_int p.y
        <> "\" r=\"4.5\" fill=\""
        <> (p.item).1
        <> "\"/>")
      ∷ ("<text x=\""
          <> show_num (plus p.lx (int (pos 16)))
          <> "\" y=\""
          <> show_int (p.y +ℤ pos 4)
          <> "\" font-size=\"11\" fill=\""
          <> ink2
          <> "\">"
          <> (p.item).0
          <> "</text>")
      ∷ []

module _ {ℓ} (F : Type ℓ) ⦃f : Float F⦄ where
  -- `rows`, and the first row's `y`
  unfoldable pub legend_top : ℤ → ℤ → List Item → Option ℤ → ℤ
  legend_top left height items maxx =
      let rows : ℕ = elim maxx [ none ↦ 1 | some m ↦ legend_rows F items left m ] in
      height -ℤ pos 16 -ℤ pos ((rows - 1) * 18)

  unfoldable pub legend_places : ℤ → ℤ → List Item → Option ℤ → List (Place F)
  legend_places left height items maxx =
      place_items left maxx (int left) (legend_top left height items maxx) items

  unfoldable pub legend : String → ℤ → ℤ → List Item → Option ℤ → List String
  legend ink2 left height items maxx =
      flat_map (draw_place ink2) (legend_places left height items maxx)
