-- ===== src/Knee/Panels/Total.antt =====
-- sweep/mkcharts.py: the two charts of the round trips are drawn whatever the latencies are.
use raft_tests.Prelude.{
  ℕ, ◌+◌, ◌%◌, ◌≡◌, refl, sym, ap, ◌∙◌, inl, inr, true, false, some, List, [], ◌∷◌, ◌==◌, String,
  Result, ok, err, gather, ◌>>=◌, map_result, IsOk, >>=-IsOk, from-IsOk, map_result-IsOk,
  gather-IsOk, Bool-cases, All, everywhere, weaken_All, string_eq, option_eq, pair_eq, list_eq,
  nat_eq, int_eq, ℤ, pos, ltb_ℤ,
}
use mathlib.Core.Path.{subst}
use raft_tests.Python.Dict.{Dict, get, lookup}
use raft_tests.Python.Float.{Float}
use raft_tests.Knee.Style.{c1, c2}
use raft_tests.Knee.Rows.{Product, Entry}
use raft_tests.Knee.Clash.{Series}
use raft_tests.Knee.Draw.{Plot, ticks_to, xm, ym, series}
use raft_tests.Knee.Draw.Total.{
  Has, IsComplete, IsAbove, IsReadable, xm-IsOk, ym-IsOk, series-Outcome,
}
use raft_tests.Knee.Product.{Svg, entries_of}
use raft_tests.Knee.Panels.{columns, rates_of, max_rate, axis_end, axis_step, panel_plot, positive}
use raft_tests.Knee.Panels.Picture.{
  panel_ytick, panel_xtick, draw_band_ms, positive_series, draw_panel, draw_panels,
  round_trips_file,
}

-- What is kept is above zero, and keeps what holds of all entries.
pub positive-keeps {ℓ} :
    (P : Entry → Type ℓ) (key : String) (es : List Entry)
    → All (Has key) es
    → All P es
    → (ps : List Entry) × (positive key es ≡ ok ps) × All (IsAbove key) ps × All P ps
unfolding positive
positive-keeps P key [] _ _ = ([], refl, tt, tt)
positive-keeps P key (e ∷ es) ((v, eq), has) (p, holds) =
    let (ps, kept, above, all) = positive-keeps P key es has holds in
    elim (Bool-cases (ltb_ℤ (pos 0) v)) [
      | inl high ↦ (e ∷ ps, rw (eq, kept, high) refl, ((v, eq, high), above), (p, all))
      | inr low ↦ (ps, rw (eq, kept, low) refl, above, all)
    ]

module _ {ℓ} {F : Type ℓ} ⦃f : Float F⦄ (plot : Plot F) (h : (plot.xmax == pos 0) ≡ false) where
  pub positive_series-IsOk :
      (es : List Entry) (col key : String)
      → All (IsReadable key) es
      → IsOk (positive_series plot es col key)
  unfolding positive_series
  positive_series-IsOk es col key readable =
      let (ps, kept, above, all) =
        positive-keeps (IsReadable key) key es
          (weaken_All (IsReadable key) (Has key) es (λ x (r, a, l). l) readable) readable in
      from-IsOk (positive key es) _ ps kept (drawn ps above all)
    where
      drawn :
          (ps : List Entry)
          → All (IsAbove key) ps
          → All (IsReadable key) ps
          → IsOk (elim ps as (λ _. Result (List String)) [
            | [] ↦ ok []
            | p ∷ ps' ↦ series plot (p ∷ ps') col key
          ])
      drawn [] _ _ = (_, refl)
      drawn (p ∷ ps) above all = elim (series-Outcome plot (p ∷ ps) col key h all) [
        | inl (_, fine) ↦ fine
        | inr (low, _) ↦ absurd (low above)
      ]

  pub draw_band_ms-IsOk : IsOk (draw_band_ms plot)
  unfolding draw_band_ms
  draw_band_ms-IsOk =
      >>=-IsOk (ym plot (pos 1000)) _ (ym-IsOk plot (pos 1000) refl) (λ _ _. (_, refl))

  panel_ytick-IsOk : (c : ℕ) (v : ℤ) → ltb_ℤ (pos 0) v ≡ true → IsOk (panel_ytick plot c v)
  unfolding panel_ytick
  panel_ytick-IsOk c v high = >>=-IsOk (ym plot v) _ (ym-IsOk plot v high) (λ _ _. (_, refl))

  panel_xtick-IsOk : (v : ℕ) → IsOk (panel_xtick plot v)
  unfolding panel_xtick
  panel_xtick-IsOk v = >>=-IsOk (xm plot (pos v)) _ (xm-IsOk plot (pos v) h) (λ _ _. (_, refl))

  readable :
      (key : String) (es : List Entry)
      → ((x : Entry) → IsComplete x → Has key x)
      → All IsComplete es
      → All (IsReadable key) es
  readable key es has complete =
      weaken_All IsComplete (IsReadable key) es
        (λ x (r, a, l50, l99). (r, a, has x (r, a, l50, l99))) complete

  -- A panel with an x axis is drawn for any complete entries, whatever their latencies, zero and below included.
  pub draw_panel-IsOk :
      (i xstep : ℕ) (label : String) (es : List Entry)
      → All IsComplete es
      → IsOk (draw_panel plot i xstep label es)
  unfolding draw_panel
  draw_panel-IsOk i xstep label es complete =
      >>=-IsOk (draw_band_ms plot) _ draw_band_ms-IsOk λ _ _.
        >>=-IsOk (gather (panel_ytick plot (i % columns)) marks) _
          (gather-IsOk (λ v. ltb_ℤ (pos 0) v ≡ true) (panel_ytick plot (i % columns)) marks
            (panel_ytick-IsOk (i % columns)) (refl, (refl, (refl, tt))))
          λ _ _.
            >>=-IsOk (gather (panel_xtick plot) (ticks_to plot.xmax xstep)) _
              (gather-IsOk (λ _. Unit {0}) (panel_xtick plot) (ticks_to plot.xmax xstep)
                (λ v _. panel_xtick-IsOk v) (everywhere (ticks_to plot.xmax xstep)))
              λ _ _.
                >>=-IsOk (positive_series plot es c2 "p99") _
                  (positive_series-IsOk es c2 "p99"
                    (readable "p99" es (λ x (r, a, l50, l99). l99) complete))
                  λ _ _.
                    >>=-IsOk (positive_series plot es c1 "p50") _
                      (positive_series-IsOk es c1 "p50"
                        (readable "p50" es (λ x (r, a, l50, l99). l50) complete))
                      (λ _ _. (_, refl))
    where
      marks : List ℤ
      marks = pos 1000 ∷ pos 10000 ∷ pos 100000 ∷ []

-- The data have the round trip, with complete entries.
abbrev pub IsThere : Dict Product (List Entry) → Series → Type 0
IsThere d s = (es : List Entry) × (get (some (s.0)) d ≡ some es) × All IsComplete es

pub entries_of_there :
    (d : Dict Product (List Entry)) (name : String) (es : List Entry)
    → get (some name) d ≡ some es
    → entries_of d name ≡ ok es
unfolding entries_of
entries_of_there d name es there = rw (entries_of, there) refl

pub rates_of-IsOk :
    (d : Dict Product (List Entry)) (rt : List Series) → All (IsThere d) rt → IsOk (rates_of d rt)
unfolding rates_of
rates_of-IsOk d [] _ = ([], refl)
rates_of-IsOk d ((name, lab, col) ∷ rt) ((es, there, complete), rest) =
    from-IsOk (entries_of d name) _ es (entries_of_there d name es there) (
      >>=-IsOk (map_result (lookup "rate") es) _
        (map_result-IsOk IsComplete (lookup "rate") es (λ x (r, a, l50, l99). r) complete)
        λ _ _. >>=-IsOk (rates_of d rt) _ (rates_of-IsOk d rt rest) (λ _ _. (_, refl)))

value_or {ℓ} : {A : Type ℓ} → A → Result A → A
value_or a (ok b) = b
value_or a (err _) = a

-- The action returns a file of the name.
abbrev pub Gives : Result Svg → String → Type 0
Gives r name = (lines : List String) × (r ≡ ok (name, lines))

pub from-Gives {ℓ} :
    {A : Type ℓ} (m : Result A) (f : A → Result Svg) (name : String) (a : A)
    → m ≡ ok a
    → Gives (f a) name
    → Gives (m >>= f) name
from-Gives m f name a e next = rw e next

module _ {ℓ} (F : Type ℓ) ⦃f : Float F⦄ where
  draw_panels-IsOk :
      (d : Dict Product (List Entry)) (xmax : ℤ) (i : ℕ) (rt : List Series)
      → (xmax == pos 0) ≡ false
      → All (IsThere d) rt
      → IsOk (draw_panels F d xmax i rt)
  unfolding draw_panels panel_plot
  draw_panels-IsOk d xmax i [] h _ = ([], refl)
  draw_panels-IsOk d xmax i ((name, lab, col) ∷ rt) h ((es, there, complete), rest) =
      from-IsOk (entries_of d name) _ es (entries_of_there d name es there) (
        >>=-IsOk (draw_panel (panel_plot F xmax i) i (axis_step xmax) lab es) _
          (draw_panel-IsOk (panel_plot F xmax i) h i (axis_step xmax) lab es complete)
          λ _ _.
            >>=-IsOk (draw_panels F d xmax (i + 1) rt) _ (draw_panels-IsOk d xmax (i + 1) rt h rest)
              (λ _ _. (_, refl)))

  -- The axis of the two charts has a length.
  abbrev pub HasAxis : Dict Product (List Entry) → List Series → Type 0
  HasAxis d rt =
      (rates : List ℤ) → rates_of d rt ≡ ok rates → (axis_end F (max_rate rates) == pos 0) ≡ false

  pub HasAxis-of :
      (d : Dict Product (List Entry)) (rt : List Series) (rates : List ℤ)
      → rates_of d rt ≡ ok rates
      → (axis_end F (max_rate rates) == pos 0) ≡ false
      → HasAxis d rt
  unfolding value_or
  HasAxis-of d rt rates read h rates' read' =
      subst (λ rs. (axis_end F (max_rate rs) == pos 0) ≡ false)
        (ap (value_or rates) (sym read ∙ read')) h

  pub round_trips_file-IsOk :
      (d : Dict Product (List Entry)) (rt : List Series)
      → All (IsThere d) rt
      → HasAxis d rt
      → Gives (round_trips_file F d rt) "round-trips.svg"
  unfolding round_trips_file
  round_trips_file-IsOk d rt there axis =
      let (rates, read) = rates_of-IsOk d rt there in
      let (panels, drawn) =
        draw_panels-IsOk d (axis_end F (max_rate rates)) 0 rt (axis rates read) there in
      from-Gives (rates_of d rt) _ "round-trips.svg" rates read (
        from-Gives (draw_panels F d (axis_end F (max_rate rates)) 0 rt) _ "round-trips.svg" panels
          drawn (_, refl))
