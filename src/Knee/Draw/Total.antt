-- ===== src/Knee/Draw/Total.antt =====
-- sweep/mkcharts.py: `axes` and `series` raise nothing but for a latency that is not above zero.
use raft_tests.Prelude.{
  ℕ, ◌≡◌, refl, inl, inr, true, false, List, [], ◌∷◌, arith, ◌==◌, String, ok, err, value_error,
  gather, map_result, IsOk, Outcome, if_true-IsOk, if_false-IsOk, >>=-IsOk, gather-IsOk,
  map_result-Outcome, Bool-cases, All, everywhere, string_eq, option_eq, pair_eq, list_eq, nat_eq,
  int_eq, ℤ, pos, ltb_ℤ,
}
use raft_tests.Python.Dict.{lookup}
use raft_tests.Python.Float.{Float}
use raft_tests.Knee.Rows.{Entry}
use raft_tests.Knee.Draw.{
  Plot, ticks_to, sat, log10_of, xm, ym, draw_ytick, draw_xtick, axes, place_point, draw_point,
  series,
}

-- The entry has a value in the column.
abbrev pub Has : String → Entry → Type 0
Has k x = IsOk (lookup k x)

-- The columns that the charts read.
abbrev pub IsComplete : Entry → Type 0
IsComplete x = Has "rate" x × Has "achieved" x × Has "p50" x × Has "p99" x

-- The entry's value in the column is above zero.
abbrev pub IsAbove : String → Entry → Type 0
IsAbove key x = (v : ℤ) × (lookup key x ≡ ok v) × (ltb_ℤ (pos 0) v ≡ true)

-- The columns that a series reads.
abbrev pub IsReadable : String → Entry → Type 0
IsReadable key x = Has "rate" x × Has "achieved" x × Has key x

module _ {ℓ} {F : Type ℓ} ⦃f : Float F⦄ (plot : Plot F) where
  pub xm-IsOk : (v : ℤ) → (plot.xmax == pos 0) ≡ false → IsOk (xm plot v)
  unfolding xm
  xm-IsOk v h = if_false-IsOk _ _ _ h (_, refl)

  pub ym-IsOk : (v : ℤ) → ltb_ℤ (pos 0) v ≡ true → IsOk (ym plot v)
  unfolding ym log10_of
  ym-IsOk v h = >>=-IsOk (log10_of F v) _ (if_true-IsOk _ _ _ h (_, refl)) (λ log _. (_, refl))

  ym-raises : (v : ℤ) → ltb_ℤ (pos 0) v ≡ false → ym plot v ≡ err value_error
  unfolding ym log10_of
  ym-raises v h = rw h refl

  pub draw_ytick-IsOk :
      (fmt : ℤ → String) (v : ℤ) → ltb_ℤ (pos 0) v ≡ true → IsOk (draw_ytick plot fmt v)
  unfolding draw_ytick
  draw_ytick-IsOk fmt v h = >>=-IsOk (ym plot v) _ (ym-IsOk v h) (λ y _. (_, refl))

  pub draw_xtick-IsOk : (v : ℕ) → (plot.xmax == pos 0) ≡ false → IsOk (draw_xtick plot v)
  unfolding draw_xtick
  draw_xtick-IsOk v h = >>=-IsOk (xm plot (pos v)) _ (xm-IsOk (pos v) h) (λ y _. (_, refl))

  pub axes-IsOk :
      (xstep : ℕ) (yticks : List ℤ) (ylab : String) (fmt : ℤ → String)
      → (plot.xmax == pos 0) ≡ false
      → All (λ v. ltb_ℤ (pos 0) v ≡ true) yticks
      → IsOk (axes plot xstep yticks ylab fmt)
  unfolding axes
  axes-IsOk xstep yticks ylab fmt h above =
      >>=-IsOk (gather (draw_ytick plot fmt) yticks) _
        (gather-IsOk (λ v. ltb_ℤ (pos 0) v ≡ true) (draw_ytick plot fmt) yticks
          (draw_ytick-IsOk fmt) above)
        λ ys _.
          >>=-IsOk (gather (draw_xtick plot) (ticks_to plot.xmax xstep)) _
            (gather-IsOk (λ _. Unit {0}) (draw_xtick plot) (ticks_to plot.xmax xstep)
              (λ v _. draw_xtick-IsOk v h) (everywhere (ticks_to plot.xmax xstep)))
            (λ xs _. (_, refl))

  -- A point has its place exactly if its latency is above zero.
  place_point-Outcome :
      (key : String) (x : Entry)
      → (plot.xmax == pos 0) ≡ false
      → Has "rate" x
      → Has key x
      → Outcome (IsAbove key x) value_error (place_point plot key x)
  unfolding place_point
  place_point-Outcome key x h (rate, r) (v, e) =
      let (a, there) = xm-IsOk rate h in
      elim (Bool-cases (ltb_ℤ (pos 0) v)) [
        | inl above ↦
            let (b, here) = ym-IsOk v above in
            inl ((v, e, above), ((a, b), rw (r, there, e, here) refl))
        | inr low ↦ inr ((λ (w, e', above). ground arith), rw (r, there, e, ym-raises v low) refl)
      ]

  draw_point-IsOk :
      (col key : String) (x : Entry)
      → Has "achieved" x
      → Has "rate" x
      → IsOk (place_point plot key x)
      → IsOk (draw_point plot col key x)
  unfolding draw_point sat
  draw_point-IsOk col key x (achieved, a) (rate, r) there =
      >>=-IsOk (place_point plot key x) _ there λ xy _.
        >>=-IsOk (sat F x) _
          (>>=-IsOk (lookup "achieved" x) _ (achieved, a)
            (λ _ _. >>=-IsOk (lookup "rate" x) _ (rate, r) (λ _ _. (_, refl))))
          (λ _ _. (_, refl))

  places :
      (key : String) (pts : List Entry)
      → (plot.xmax == pos 0) ≡ false
      → All (IsReadable key) pts
      → All (λ x. Outcome (IsAbove key x) value_error (place_point plot key x)) pts
  places key [] h _ = tt
  places key (x ∷ pts) h ((r, _, k), rest) =
      (place_point-Outcome key x h r k, places key pts h rest)

  circles :
      (col key : String) (pts : List Entry)
      → (plot.xmax == pos 0) ≡ false
      → All (IsReadable key) pts
      → All (IsAbove key) pts
      → IsOk (map_result (draw_point plot col key) pts)
  unfolding map_result
  circles col key [] h _ _ = ([], refl)
  circles col key (x ∷ pts) h ((r, a, k), rest) (above, aboves) =
      let there : IsOk (place_point plot key x) = elim (place_point-Outcome key x h r k) [
        | inl (_, placed) ↦ placed
        | inr (low, _) ↦ absurd (low above)
      ] in
      let (c, drawn) = draw_point-IsOk col key x a r there in
      let (cs, more) = circles col key pts h rest aboves in (c ∷ cs, rw (drawn, more) refl)

  -- A series is drawn exactly if all its latencies are above zero; if not, it ends in a ValueError.
  pub series-Outcome :
      (pts : List Entry) (col key : String)
      → (plot.xmax == pos 0) ≡ false
      → All (IsReadable key) pts
      → Outcome (All (IsAbove key) pts) value_error (series plot pts col key)
  unfolding series
  series-Outcome pts col key h readable =
      elim (map_result-Outcome (IsAbove key) value_error (place_point plot key) pts
        (places key pts h readable)) [
          | inl (above, placed) ↦ inl (
            above,
            >>=-IsOk (map_result (place_point plot key) pts) _ placed λ xys _.
                >>=-IsOk (map_result (draw_point plot col key) pts) _
                  (circles col key pts h readable above) (λ _ _. (_, refl)),
          )
          | inr (low, raised) ↦ inr (low, rw raised refl)
        ]
