-- ===== src/Knee/Legend/Laws.antt =====
-- sweep/mkcharts.py: `legend` draws in just the rows that `legend_rows` reserves, and inside the canvas.
use raft_tests.Prelude.{
  ℕ, ◌+◌, ◌*◌, ◌≡◌, refl, ap, ◌∙◌, ◌⊎◌, inl, inr, false, Option, some, List, [], ◌∷◌, map, arith,
  Bool-cases, All, ◌≤ℤ◌, string_eq, option_eq, pair_eq, nat_eq, int_eq, ℤ, pos, ◌+ℤ◌, ◌-ℤ◌,
  int_laws, +ℤ_assoc,
}
use raft_tests.Python.Float.{Float, Num, int, plus}
use raft_tests.Knee.Legend.{
  Item, gt, legend_w, is_past, rows_from, legend_rows, Place, place_items, legend_top,
  legend_places,
}

next_row : (y : ℤ) (k : ℕ) → y +ℤ pos 18 +ℤ pos (k * 18) ≡ y +ℤ pos ((1 + k) * 18)
next_row y k = +ℤ_assoc y (pos 18) (pos (k * 18)) ∙ ap (λ m. y +ℤ m) (unfold ◌+ℤ◌ in ground arith)

same_row : (y : ℤ) (k : ℕ) → y +ℤ pos (k * 18) ≡ y +ℤ pos ((0 + k) * 18)
same_row y k = ap (λ m. y +ℤ pos m) (omega arith)

at_margin {ℓ} : (F : Type ℓ) ⦃f : Float F⦄ (left : ℤ) → gt {F = F} (int left) (int left) ≡ false
unfolding gt
at_margin F left = ground arith

module _ {ℓ} {F : Type ℓ} ⦃f : Float F⦄ where
  -- The last entry's y, or the start's where there is none.
  abbrev pub last_y : ℤ → List (Place F) → ℤ
  last_y y [] = y
  last_y y (p ∷ ps) = last_y p.y ps

  -- The rows that follow one another are 18 apart, so the last of them tells how often the loop wrapped.
  place_items-last :
      (left maxx : ℤ) (lx : Num F) (y : ℤ) (items : List Item)
      → last_y y (place_items left (some maxx) lx y items)
        ≡ y +ℤ pos (rows_from left maxx lx items * 18)
  unfolding place_items rows_from
  place_items-last left maxx lx y [] = omega int_laws
  place_items-last left maxx lx y ((lab, col) ∷ items) =
      let w : Num F = legend_w lab in
      elim (Bool-cases (is_past left maxx lx w)) [
        | inl past ↦ rw past (
            place_items-last left maxx (plus (int left) w) (y +ℤ pos 18) items
            ∙ next_row y (rows_from left maxx (plus (int left) w) items))
        | inr room ↦ rw room (
            place_items-last left maxx (plus lx w) y items
            ∙ same_row y (rows_from left maxx (plus lx w) items))
      ]

  -- The entry ends inside the canvas, or does not start to the right of the margin.
  abbrev pub IsInside : ℤ → ℤ → Place F → Type 0
  IsInside left maxx p =
      (gt (plus p.lx (legend_w (p.item).0)) (int maxx) ≡ false) ⊎ (gt p.lx (int left) ≡ false)

  inside :
      (left maxx : ℤ) (lx w : Num F)
      → is_past left maxx lx w ≡ false
      → (gt (plus lx w) (int maxx) ≡ false) ⊎ (gt lx (int left) ≡ false)
  unfolding is_past
  inside left maxx lx w h = ground arith

  place_items-IsInside :
      (left maxx : ℤ) (lx : Num F) (y : ℤ) (items : List Item)
      → All (IsInside left maxx) (place_items left (some maxx) lx y items)
  unfolding place_items
  place_items-IsInside left maxx lx y [] = tt
  place_items-IsInside left maxx lx y ((lab, col) ∷ items) =
      let w : Num F = legend_w lab in
      elim (Bool-cases (is_past left maxx lx w)) [
        | inl past ↦ rw past (
          inr (at_margin F left),
          place_items-IsInside left maxx (plus (int left) w) (y +ℤ pos 18) items,
        )
        | inr room ↦
            rw room (inside left maxx lx w room, place_items-IsInside left maxx (plus lx w) y items)
      ]

  -- The rows stand between the first and the last.
  abbrev pub IsBetween : ℤ → ℤ → Place F → Type 0
  IsBetween first last p = (first ≤ℤ p.y) × (p.y ≤ℤ last)

  pub place_items-IsBetween :
      (left maxx first last : ℤ) (lx : Num F) (y : ℤ) (items : List Item)
      → first ≤ℤ y
      → y +ℤ pos (rows_from left maxx lx items * 18) ≤ℤ last
      → All (IsBetween first last) (place_items left (some maxx) lx y items)
  unfolding place_items rows_from
  place_items-IsBetween left maxx first last lx y [] above below = tt
  place_items-IsBetween left maxx first last lx y ((lab, col) ∷ items) above below =
      let w : Num F = legend_w lab in
      elim (Bool-cases (is_past left maxx lx w)) [
        | inl past ↦
            let k = rows_from left maxx (plus (int left) w) items in
            let room : y +ℤ pos 18 +ℤ pos (k * 18) ≤ℤ last = rw (next_row y k) (rw past at below) in
            rw past (
              (omega (int_laws, above), omega (int_laws, room)),
              place_items-IsBetween left maxx first last (plus (int left) w) (y +ℤ pos 18) items
                  (omega (int_laws, above)) room,
            )
        | inr stays ↦
            let k = rows_from left maxx (plus lx w) items in
            let room : y +ℤ pos (k * 18) ≤ℤ last = rw (same_row y k) (rw stays at below) in
            rw stays (
              (above, omega (int_laws, room)),
              place_items-IsBetween left maxx first last (plus lx w) y items above room,
            )
      ]

  -- Every entry is drawn, in order.
  place_items-item :
      (left : ℤ) (maxx : Option ℤ) (items : List Item) (lx : Num F) (y : ℤ)
      → map (λ p. p.item) (place_items left maxx lx y items) ≡ items
  unfolding place_items
  place_items-item left maxx [] lx y = refl
  place_items-item left maxx (item ∷ items) lx y =
      ap (λ l. item ∷ l) (place_items-item left maxx items _ _)

module _ {ℓ} (F : Type ℓ) ⦃f : Float F⦄ (left height : ℤ) (items : List Item) (maxx : ℤ) where
  -- A wrapped legend draws all its entries in order, its last row stands 16 above the bottom edge however
  -- many rows `legend_rows` counted, and every entry ends by `maxx` or starts no further right than the margin.
  pub legend_places_lem :
      let places = legend_places F left height items (some maxx) in
      (map (λ p. p.item) places ≡ items)
      × (last_y (legend_top F left height items (some maxx)) places ≡ height -ℤ pos 16)
      × All (IsInside left maxx) places
  unfolding legend_places legend_top legend_rows
  legend_places_lem = (
    place_items-item left (some maxx) items (int left) _,
    (place_items-last left maxx (int left) _ items ∙ bottom),
    place_items-IsInside left maxx (int left) _ items,
  )
    where
      bottom :
          legend_top F left height items (some maxx)
            +ℤ pos (rows_from {F = F} left maxx (int left) items * 18)
          ≡ height -ℤ pos 16
      bottom = omega int_laws

  -- All rows stand between the one that `legend` starts with and the lower edge.
  pub legend_places-IsBetween :
      All
        (IsBetween (legend_top F left height items (some maxx)) (height -ℤ pos 16))
        (legend_places F left height items (some maxx))
  unfolding legend_places legend_top legend_rows
  legend_places-IsBetween =
      place_items-IsBetween left maxx (legend_top F left height items (some maxx))
        (height -ℤ pos 16) (int left) (legend_top F left height items (some maxx)) items
        (omega int_laws) (omega int_laws)
