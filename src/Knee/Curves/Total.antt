-- ===== src/Knee/Curves/Total.antt =====
-- sweep/mkcharts.py: when the combined chart is drawn, and when it ends in an exception.
use raft_tests.Prelude.{
  ◌≡◌, refl, sym, ap, ◌∙◌, ◌⊎◌, inl, inr, true, false, some, List, [], ◌∷◌, arith, ◌==◌, eq_of_test,
  contains, Result, ok, err, stop_iteration, gather, IsOk, Outcome, >>=-IsOk, from-IsOk,
  after-Outcome, from-Outcome, then-Outcome, gather-Outcome, ltb, Bool-cases, Option-cases, length,
  All, All-keep, weaken_All, string_eq, option_eq, pair_eq, list_eq, nat_eq, int_eq, ℤ, pos,
}
use mathlib.Core.Path.{subst}
use mathlib.Core.Option.{some-injective}
use raft_tests.Python.Dict.{Dict, get, keys, lookup, contains-keys_missing}
use raft_tests.Python.Float.{Float}
use raft_tests.Knee.Rows.{Product, Entry}
use raft_tests.Knee.Draw.{Plot, show_latency, axes, xm, ym, series}
use raft_tests.Knee.Draw.Total.{
  Has, IsAbove, IsReadable, xm-IsOk, ym-IsOk, axes-IsOk, series-Outcome,
}
use raft_tests.Knee.Product.{entries_of}
use raft_tests.Knee.Product.Total.{last_entry-All}
use raft_tests.Knee.Curves.{
  Anchor, last, at_rate, Implementation, implementations, present_in, entry_at, labelled_entry,
  curves_plot, draw_implementation, knee_curves,
}

-- One of the entries stands at the rate.
abbrev pub HasRate : ℤ → List Entry → Type 0
HasRate n [] = ⊥
HasRate n (e ∷ es) = (lookup "rate" e ≡ ok n) ⊎ HasRate n es

differs : {m : Result ℤ} {n : ℤ} (r : ℤ) → m ≡ ok r → (r == n) ≡ false → m ≡ ok n → ⊥
differs r eq other here = ground arith

-- The search finds an entry at the rate, with what holds of all entries, or there is none and it ends in a
-- StopIteration.
entry_at-finds {ℓ} :
    (P : Entry → Type ℓ) (n : ℤ) (es : List Entry)
    → All (Has "rate") es
    → All P es
    → ((p : Entry) × (entry_at n es ≡ ok p) × P p × HasRate n es)
      ⊎ ((HasRate n es → ⊥) × (entry_at n es ≡ err stop_iteration))
unfolding entry_at
entry_at-finds P n [] _ _ = inr ((λ none_there. none_there), refl)
entry_at-finds P n (e ∷ es) ((r, eq), rates) (this, those) = elim (Bool-cases (r == n)) [
  | inl same ↦ inl (e, rw (eq, same) refl, this, inl (eq ∙ ap ok (eq_of_test r n same)))
  | inr other ↦ elim (entry_at-finds P n es rates those) [
    | inl (p, found, holds, there) ↦ inl (p, rw (eq, other) found, holds, inr there)
    | inr (not_there, raised) ↦ inr (
      (λ w. elim w [ inl here ↦ differs r eq other here | inr there ↦ not_there there ]),
      rw (eq, other) raised,
    )
  ]
]

-- The entries have the point at which the chart labels them.
abbrev pub HasAnchor : Anchor → List Entry → Type 0
HasAnchor last es = Unit
HasAnchor (at_rate n) es = HasRate n es

-- What the chart reads of an entry.
abbrev pub IsShown : Entry → Type 0
IsShown e = Has "rate" e × Has "achieved" e × IsAbove "p50" e

-- Each product in the data has entries, and all can be shown.
abbrev pub AllShown : Dict Product (List Entry) → Type 0
AllShown d =
    (name : Product) (es : List Entry)
    → get name d ≡ some es
    → (ltb 0 (length es) ≡ true) × All IsShown es

labelled_entry-finds :
    (a : Anchor) (es : List Entry)
    → ltb 0 (length es) ≡ true
    → All IsShown es
    → ((p : Entry) × (labelled_entry a es ≡ ok p) × IsShown p × HasAnchor a es)
      ⊎ ((HasAnchor a es → ⊥) × (labelled_entry a es ≡ err stop_iteration))
unfolding labelled_entry
labelled_entry-finds last es some_entry shown =
    let (e, found, holds) = last_entry-All IsShown es some_entry shown in inl (e, found, holds, tt)
labelled_entry-finds (at_rate n) es some_entry shown =
    entry_at-finds IsShown n es (weaken_All IsShown (Has "rate") es (λ x (r, a, l). r) shown) shown

module _ {ℓ} (F : Type ℓ) ⦃f : Float F⦄ where
  draw-Outcome :
      (d : Dict Product (List Entry)) (i : Implementation) (es : List Entry)
      → get (some i.name) d ≡ some es
      → ltb 0 (length es) ≡ true
      → All IsShown es
      → Outcome (HasAnchor i.anchor es) stop_iteration (draw_implementation F d i)
  unfolding draw_implementation entries_of curves_plot int_eq
  draw-Outcome d i es there some_entry shown =
      from-Outcome _ stop_iteration (entries_of d i.name) _ es (rw (entries_of, there) refl) (
        after-Outcome _ stop_iteration (series plot es i.col "p50") _ curve λ _ _.
          elim (labelled_entry-finds i.anchor es some_entry shown) [
            | inl (p, found, ((rate, r), achieved, (v, eq, above)), anchored) ↦ inl (
              anchored,
              from-IsOk (labelled_entry i.anchor es) _ p found (
                  from-IsOk (lookup "rate" p) _ rate r (
                    >>=-IsOk (xm plot rate) _ (xm-IsOk plot rate refl) λ _ _.
                      from-IsOk (lookup "p50" p) _ v eq
                        (>>=-IsOk (ym plot v) _ (ym-IsOk plot v above) (λ _ _. (_, refl))))),
            )
            | inr (missing, raised) ↦ inr (missing, rw raised refl)
          ])
    where
      plot : Plot F
      plot = curves_plot F

      curve : IsOk (series plot es i.col "p50")
      curve =
          elim (series-Outcome plot es i.col "p50" refl (
            weaken_All IsShown (IsReadable "p50") es (λ x (r, a, (v, eq, h)). (r, a, (v, eq)))
              shown)) [
                | inl (_, drawn) ↦ drawn
                | inr (low, _) ↦
                    absurd (low (weaken_All IsShown (IsAbove "p50") es (λ x (r, a, h). h) shown))
              ]

  -- The chart has the label point of each of the three implementations that the data hold.
  abbrev pub AllAnchored : Dict Product (List Entry) → Type 0
  AllAnchored d =
      All (λ i. (es : List Entry) → get (some i.name) d ≡ some es → HasAnchor i.anchor es)
        (present_in d implementations)

  draws :
      (d : Dict Product (List Entry)) (them : List Implementation)
      → AllShown d
      → All (λ i. contains (keys d) (some i.name) ≡ true) them
      → All
          (λ i.
            Outcome
              ((es : List Entry) → get (some i.name) d ≡ some es → HasAnchor i.anchor es)
              stop_iteration
              (draw_implementation F d i))
          them
  draws d [] good _ = tt
  draws d (i ∷ them) good (here, rest) = (
    elim (Option-cases (get (some i.name) d)) [
      | inl missing ↦ absurd (ground (arith, contains-keys_missing (some i.name) d missing))
      | inr (es, there) ↦
          elim (draw-Outcome d i es there (good (some i.name) es there).0
            (good (some i.name) es there).1) [
              | inl (anchored, drawn) ↦ inl (
                (λ es' there'.
                    subst (HasAnchor i.anchor) (some-injective es es' (sym there ∙ there'))
                      anchored),
                drawn,
              )
              | inr (missing, raised) ↦ inr ((λ all. missing (all es there)), raised)
            ]
    ],
    draws d them good rest,
  )

  abbrev marks : List ℤ
  marks = pos 500 ∷ pos 1000 ∷ pos 2000 ∷ pos 5000 ∷ pos 10000 ∷ []

  pub grid-IsOk : IsOk (axes (curves_plot F) 100000 marks "p50 latency (log scale)" show_latency)
  unfolding curves_plot int_eq
  grid-IsOk =
      axes-IsOk (curves_plot F) 100000 marks "p50 latency (log scale)" show_latency refl
        (refl, (refl, (refl, (refl, (refl, tt)))))

  pub curves-Outcome :
      (d : Dict Product (List Entry))
      → AllShown d
      → Outcome
          (AllAnchored d)
          stop_iteration
          (gather (draw_implementation F d) (present_in d implementations))
  unfolding present_in
  curves-Outcome d shown =
      gather-Outcome _ stop_iteration (draw_implementation F d) (present_in d implementations) (
        draws d (present_in d implementations) shown
          (All-keep (λ i. contains (keys d) (some i.name)) implementations))

  -- If the data of each product can be shown, the chart of the implementations is drawn exactly if each of the
  -- implementations in the data has the point that its label stands at; if not, the script ends in a StopIteration.
  pub knee_curves-Outcome :
      (d : Dict Product (List Entry))
      → AllShown d
      → Outcome (AllAnchored d) stop_iteration (knee_curves F d)
  unfolding knee_curves
  knee_curves-Outcome d shown =
      after-Outcome _ stop_iteration
        (axes (curves_plot F) 100000 marks "p50 latency (log scale)" show_latency) _ grid-IsOk
        λ _ _.
          then-Outcome (AllAnchored d) stop_iteration
            (gather (draw_implementation F d) (present_in d implementations)) _
            (curves-Outcome d shown) (λ _ _ _. (_, refl))
