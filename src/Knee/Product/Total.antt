-- ===== src/Knee/Product/Total.antt =====
-- sweep/mkcharts.py: when the chart of a product is drawn, and when it ends in an exception.
use raft_tests.Prelude.{
  ◌≡◌, refl, true, false, List, [], ◌∷◌, arith, ◌==◌, String, ok, value_error, gather, IsOk,
  Outcome, >>=-IsOk, from-IsOk, gather-IsOk, after-Outcome, >>=-Outcome, then-Outcome, ltb, length,
  All, everywhere, weaken_All, both_All, string_eq, option_eq, pair_eq, list_eq, nat_eq, int_eq, ℤ,
  pos, ltb_ℤ,
}
use raft_tests.Python.Dict.{lookup}
use raft_tests.Python.Number.{show_commas}
use raft_tests.Python.Float.{Float}
use raft_tests.Knee.Style.{c1, c2}
use raft_tests.Knee.Rows.{Entry}
use raft_tests.Knee.Draw.{Plot, xm, ym, axes, series}
use raft_tests.Knee.Draw.Total.{
  Has, IsComplete, IsAbove, IsReadable, xm-IsOk, ym-IsOk, axes-IsOk, series-Outcome,
}
use raft_tests.Knee.Product.{
  Config, last_entry, product_plot, draw_comfort, draw_marker, label_heights, end_label,
  draw_labels, product_chart,
}

-- A chart with this table entry has an x axis, and its marks on the y axis are above zero.
abbrev pub IsValid : Config → Type 0
IsValid cfg = ((pos cfg.xmax == pos 0) ≡ false) × All (λ v. ltb_ℤ (pos 0) v ≡ true) cfg.yticks

pub last_entry-All {ℓ} :
    (P : Entry → Type ℓ) (es : List Entry)
    → ltb 0 (length es) ≡ true
    → All P es
    → (e : Entry) × (last_entry es ≡ ok e) × P e
unfolding last_entry
last_entry-All P [] h _ = absurd (ground arith)
last_entry-All P (e ∷ []) h (p, _) = (e, refl, p)
last_entry-All P (_ ∷ e ∷ es) h (_, ps) = last_entry-All P (e ∷ es) (ground arith) ps

module _ {ℓ} {F : Type ℓ} ⦃f : Float F⦄ (plot : Plot F) (h : (plot.xmax == pos 0) ≡ false) where
  draw_comfort-IsOk : (comfort : ℤ) → IsOk (draw_comfort plot comfort)
  unfolding draw_comfort
  draw_comfort-IsOk comfort =
      >>=-IsOk (xm plot comfort) _ (xm-IsOk plot comfort h) (λ x _. (_, refl))

  draw_marker-IsOk : (m : ℤ × String × ℤ) → IsOk (draw_marker plot m)
  unfolding draw_marker
  draw_marker-IsOk (rate, l, dy) =
      >>=-IsOk (xm plot rate) _ (xm-IsOk plot rate h) (λ x _. (_, refl))

  end_label-IsOk : (e : Entry) (y : F) (key : String) → Has "rate" e → IsOk (end_label plot e y key)
  end_label-IsOk e y key (rate, r) =
      >>=-IsOk (lookup "rate" e) _ (rate, r)
        λ v _. >>=-IsOk (xm plot v) _ (xm-IsOk plot v h) (λ _ _. (_, refl))

  label_heights-IsOk : (e : Entry) → IsAbove "p99" e → IsAbove "p50" e → IsOk (label_heights plot e)
  unfolding label_heights
  label_heights-IsOk e (v99, e99, h99) (v50, e50, h50) = from-IsOk (lookup "p99" e) _ v99 e99 (
      >>=-IsOk (ym plot v99) _ (ym-IsOk plot v99 h99) λ _ _.
        from-IsOk (lookup "p50" e) _ v50 e50
          (>>=-IsOk (ym plot v50) _ (ym-IsOk plot v50 h50) (λ _ _. (_, refl))))

  draw_labels-IsOk :
      (es : List Entry)
      → ltb 0 (length es) ≡ true
      → All (λ e. Has "rate" e × (IsAbove "p99" e × IsAbove "p50" e)) es
      → IsOk (draw_labels plot es)
  unfolding draw_labels
  draw_labels-IsOk es some_entry all =
      let (e, last, (rate, (a99, a50))) =
        last_entry-All (λ e. Has "rate" e × (IsAbove "p99" e × IsAbove "p50" e)) es some_entry
          all in
      from-IsOk (last_entry es) _ e last (
        >>=-IsOk (label_heights plot e) _ (label_heights-IsOk e a99 a50) λ ys _.
          >>=-IsOk (end_label plot e (ys.0) "p99") _ (end_label-IsOk e (ys.0) "p99" rate) λ _ _.
            >>=-IsOk (end_label plot e (ys.1) "p50") _ (end_label-IsOk e (ys.1) "p50" rate)
              (λ _ _. (_, refl)))

module _ {ℓ} (F : Type ℓ) ⦃f : Float F⦄ where
  -- The chart of a product with data and complete entries is drawn exactly if all its p50 and p99 are above zero;
  -- if not, it ends in a ValueError. The table entry has an x axis and marks above zero.
  pub product_chart-Outcome :
      (cfg : Config) (es : List Entry)
      → IsValid cfg
      → ltb 0 (length es) ≡ true
      → All IsComplete es
      → Outcome
          (All (IsAbove "p99") es × All (IsAbove "p50") es)
          value_error
          (product_chart F cfg es)
  unfolding product_chart product_plot
  product_chart-Outcome cfg es (h, marks) some_entry complete =
      let plot = product_plot F cfg in
      let readable : (key : String)
          → ((x : Entry) → IsComplete x → Has key x)
          → All (IsReadable key) es =
        λ key has.
          weaken_All IsComplete (IsReadable key) es
            (λ x (r, a, l50, l99). (r, a, has x (r, a, l50, l99))) complete in
      after-Outcome _ value_error (draw_comfort plot cfg.comfort) _
        (draw_comfort-IsOk plot h cfg.comfort)
        λ _ _.
          after-Outcome _ value_error (gather (draw_marker plot) cfg.markers) _
            (gather-IsOk (λ _. Unit {0}) (draw_marker plot) cfg.markers
              (λ m _. draw_marker-IsOk plot h m) (everywhere cfg.markers))
            λ _ _.
              after-Outcome _ value_error
                (axes plot cfg.xstep cfg.yticks "latency (µs), log scale" show_commas) _
                (axes-IsOk plot cfg.xstep cfg.yticks "latency (µs), log scale" show_commas h marks)
                λ _ _.
                  >>=-Outcome (All (IsAbove "p99") es) (All (IsAbove "p50") es) value_error
                    (series plot es c2 "p99") _
                    (series-Outcome plot es c2 "p99" h (readable "p99" (λ x (r, a, l50, l99). l99)))
                    λ above99 _ _.
                      then-Outcome (All (IsAbove "p50") es) value_error (series plot es c1 "p50") _
                        (series-Outcome plot es c1 "p50" h
                          (readable "p50" (λ x (r, a, l50, l99). l50)))
                        λ above50 _ _.
                          >>=-IsOk (draw_labels plot es) _
                            (draw_labels-IsOk plot h es some_entry (
                              both_All (Has "rate") (λ e. IsAbove "p99" e × IsAbove "p50" e) es
                                (weaken_All IsComplete (Has "rate") es (λ x (r, a, l50, l99). r)
                                  complete)
                                (both_All (IsAbove "p99") (IsAbove "p50") es above99 above50)))
                            (λ _ _. (_, refl))
