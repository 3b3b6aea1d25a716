-- ===== src/Knee/Overlay/Total.antt =====
-- sweep/mkcharts.py: the overlay of the round trips is drawn whatever the latencies are.
use raft_tests.Prelude.{
  ◌≡◌, refl, ◌⊎◌, inl, inr, false, none, some, List, [], ◌∷◌, ◌==◌, String, ok, gather, IsOk,
  from-IsOk, gather-IsOk, Bool-cases, All, weaken_All, string_eq, option_eq, pair_eq, list_eq,
  nat_eq, int_eq, ℤ, pos, ltb_ℤ,
}
use raft_tests.Python.Dict.{Dict, lookup}
use raft_tests.Python.Float.{Float}
use raft_tests.Knee.Rows.{Product, Entry}
use raft_tests.Knee.Clash.{Series}
use raft_tests.Knee.Draw.{Plot, show_latency, axes}
use raft_tests.Knee.Draw.Total.{IsComplete, IsReadable, axes-IsOk}
use raft_tests.Knee.Product.{entries_of}
use raft_tests.Knee.Panels.{rates_of, max_rate, axis_end, axis_step}
use raft_tests.Knee.Panels.Picture.{draw_band_ms}
use raft_tests.Knee.Panels.Total.{
  IsThere, HasAxis, Gives, from-Gives, entries_of_there, rates_of-IsOk, positive_series-IsOk,
  draw_band_ms-IsOk,
}
use raft_tests.Knee.Overlay.{
  entry_at_100k, at_100k, sub_lines, overlay_margin, overlay_plot, overlay_curve, overlay_file,
}

-- The search for the point at 100k returns, and what it finds has the columns.
entry_at_100k-IsOk :
    (es : List Entry)
    → All IsComplete es
    → (entry_at_100k es ≡ ok none) ⊎ ((q : Entry) × (entry_at_100k es ≡ ok (some q)) × IsComplete q)
unfolding entry_at_100k
entry_at_100k-IsOk [] _ = inl refl
entry_at_100k-IsOk (e ∷ es) (((r, eq), a, (v, eq50), l99), rest) =
    elim (Bool-cases (r == pos 100000)) [
      | inr other ↦ elim (entry_at_100k-IsOk es rest) [
        | inl nothing ↦ inl (rw (eq, other) nothing)
        | inr (q, found, has) ↦ inr (q, rw (eq, other) found, has)
      ]
      | inl at ↦ elim (Bool-cases (ltb_ℤ (pos 0) v)) [
        | inl high ↦ inr (e, rw (eq, at, eq50, high) refl, ((r, eq), a, (v, eq50), l99))
        | inr low ↦ elim (entry_at_100k-IsOk es rest) [
          | inl nothing ↦ inl (rw (eq, at, eq50, low) nothing)
          | inr (q, found, has) ↦ inr (q, rw (eq, at, eq50, low) found, has)
        ]
      ]
    ]

at_100k-IsOk : (d : Dict Product (List Entry)) (s : Series) → IsThere d s → IsOk (at_100k d s)
unfolding at_100k
at_100k-IsOk d (name, lab, col) (es, there, complete) =
    from-IsOk (entries_of d name) _ es (entries_of_there d name es there)
      (elim (entry_at_100k-IsOk es complete) [
        | inl nothing ↦ from-IsOk (entry_at_100k es) _ none nothing (_, refl)
        | inr (q, found, (r, a, (v, eq), l99)) ↦
            from-IsOk (entry_at_100k es) _ (some q) found
              (from-IsOk (lookup "p50" q) _ v eq (_, refl))
      ])

curve-IsOk {ℓ} :
    {F : Type ℓ} ⦃f : Float F⦄ (plot : Plot F) (d : Dict Product (List Entry))
    → (plot.xmax == pos 0) ≡ false
    → (s : Series) → IsThere d s
    → IsOk (overlay_curve F plot d s)
unfolding overlay_curve
curve-IsOk plot d h (name, lab, col) (es, there, complete) =
    from-IsOk (entries_of d name) _ es (entries_of_there d name es there) (
      positive_series-IsOk plot h es col "p50"
        (weaken_All IsComplete (IsReadable "p50") es (λ x (r, a, l50, l99). (r, a, l50)) complete))

module _ {ℓ} (F : Type ℓ) ⦃f : Float F⦄ where
  pub overlay_file-IsOk :
      (d : Dict Product (List Entry)) (rt : List Series)
      → All (IsThere d) rt
      → HasAxis F d rt
      → Gives (overlay_file F d rt) "round-trips-p50.svg"
  unfolding overlay_file overlay_plot
  overlay_file-IsOk d rt there axis =
      let (rates, read) = rates_of-IsOk d rt there in
      let (at, found) = gather-IsOk (IsThere d) (at_100k d) rt (at_100k-IsOk d) there in
      let plot =
        overlay_plot F (axis_end F (max_rate rates)) (sub_lines at) (overlay_margin F rt) in
      let (shade, shaded) = draw_band_ms-IsOk plot (axis rates read) in
      let (grid, gridded) =
        axes-IsOk plot (axis_step (axis_end F (max_rate rates))) marks "p50 latency, log scale"
          show_latency (axis rates read) (refl, (refl, (refl, (refl, (refl, (refl, tt)))))) in
      let (curves, curved) =
        gather-IsOk (IsThere d) (overlay_curve F plot d) rt (curve-IsOk plot d (axis rates read))
          there in
      from-Gives (rates_of d rt) _ name rates read (
        from-Gives (gather (at_100k d) rt) _ name at found (
          from-Gives (draw_band_ms plot) _ name shade shaded (
            from-Gives
              (axes plot (axis_step (axis_end F (max_rate rates))) marks "p50 latency, log scale"
                show_latency)
              _ name grid gridded
              (from-Gives (gather (overlay_curve F plot d) rt) _ name curves curved (_, refl)))))
    where
      name : String
      name = "round-trips-p50.svg"

      marks : List ℤ
      marks = pos 1000 ∷ pos 2000 ∷ pos 5000 ∷ pos 10000 ∷ pos 50000 ∷ pos 200000 ∷ []
