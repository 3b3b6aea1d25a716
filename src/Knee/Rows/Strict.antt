-- ===== src/Knee/Rows/Strict.antt =====
-- sweep/mkcharts.py: in the charts' data every product's entries have rates of their own, in rising order.
use raft_tests.Prelude.{
  ◌≡◌, refl, sym, ◌∙◌, ◌≢◌, inl, inr, none, some, List, [], ◌∷◌, ◌++◌, arith, ◌==◌, eq_of_test, ok,
  Result-cases, Bool-cases, All, All-append, string_eq, option_eq, pair_eq, nat_eq, int_eq, ℤ, ◌<ℤ◌,
}
use raft_tests.Python.Dict.{
  Dict, get, append_at, list_at, list_at-append_at, NodupKeys, append_at-NodupKeys, get-cons_none,
  AllLists, append_at-AllLists,
}
use raft_tests.Python.Csv.{Row}
use raft_tests.Knee.Rows.{
  Product, Key, Entry, key_of, numbers, add_row, group_rows, average, add_averages, rate,
}
use raft_tests.Knee.Rows.Mean.{numbers-rate, average-rate}

-- The entry's rate is that of the key.
abbrev pub HasRate : Key → Entry → Type 0
HasRate key x = get "rate" x ≡ some key.1

abbrev pub Grouped : Dict Key (List Entry) → Type 0
Grouped acc = AllLists HasRate acc × NodupKeys acc

pub group_rows-Grouped :
    (acc : Dict Key (List Entry)) (rows : List Row) {acc' : Dict Key (List Entry)}
    → group_rows acc rows ≡ ok acc'
    → Grouped acc
    → Grouped acc'
unfolding group_rows add_row
group_rows-Grouped acc [] {acc'} h g = let same : acc ≡ acc' = ground arith in rw (← same) g
group_rows-Grouped acc (r ∷ rows) {acc'} h (g, u) = elim (Result-cases (key_of r)) [
  | inr (e, fails) ↦ absurd (ground arith)
  | inl (key, found) ↦ group_rows-Grouped (append_at key (numbers r) acc) rows (ground arith) (
    append_at-AllLists HasRate key (numbers r) acc (numbers-rate r found) g,
    append_at-NodupKeys key (numbers r) acc u,
  )
]

-- No two entries have one rate.
abbrev pub Distinct : List Entry → Type 0
Distinct [] = Unit
Distinct (x ∷ xs) = All (λ y. rate x ≢ rate y) xs × Distinct xs

-- The entries made so far have rates for which no group is left.
abbrev pub Used : Product → Dict Key (List Entry) → List Entry → Type 0
Used p acc = All λ x. get (p, rate x) acc ≡ none

-- Rates rise strictly.
abbrev pub IsRising : List Entry → Type 0
IsRising [] = Unit
IsRising (x ∷ xs) = All (λ y. rate x <ℤ rate y) xs × IsRising xs

Distinct-append :
    (xs : List Entry) (e : Entry)
    → Distinct xs
    → All (λ x. rate x ≢ rate e) xs
    → Distinct (xs ++ (e ∷ []))
Distinct-append [] e _ _ = (tt, tt)
Distinct-append (x ∷ xs) e (d, ds) (f, fs) =
    (All-append (λ y. rate x ≢ rate y) xs (e ∷ []) d (f, tt), Distinct-append xs e ds fs)

Used-rest :
    (p : Product) (key : Key) (reps : List Entry) (acc : Dict Key (List Entry)) (xs : List Entry)
    → Used p ((key, reps) ∷ acc) xs
    → Used p acc xs × All (λ x. key ≢ (p, rate x)) xs
Used-rest p key reps acc [] _ = (tt, tt)
Used-rest p key reps acc (x ∷ xs) (u, us) =
    let (rest, fresh) = Used-rest p key reps acc xs us in
    let (differ, later) = get-cons_none key (p, rate x) reps acc u in
    ((later, rest), (differ, fresh))

-- Each product's entries so far are distinct, and their groups are used up.
abbrev pub Ready : Dict Product (List Entry) → Dict Key (List Entry) → Type 0
Ready d acc = (p : Product) → Distinct (list_at p d) × Used p acc (list_at p d)

other_rates :
    (p q : Product) (n : ℤ) (e : Entry) (xs : List Entry)
    → q ≡ p
    → rate e ≡ n
    → All (λ x. ◌≢◌ {A = Key} (q, n) (p, rate x)) xs
    → All (λ x. rate x ≢ rate e) xs
other_rates p q n e [] _ _ _ = tt
other_rates p q n e (x ∷ xs) same r (f, fs) =
    ((λ h. f λ i. (same i, (sym (h ∙ r)) i)), other_rates p q n e xs same r fs)

add_average-Ready :
    (d : Dict Product (List Entry)) (q : Product) (n : ℤ) (e : Entry) (reps : List Entry)
    (acc : Dict Key (List Entry))
    → get (q, n) acc ≡ none
    → get "rate" e ≡ some n
    → Ready d (((q, n), reps) ∷ acc)
    → Ready (append_at q e d) acc
add_average-Ready d q n e reps acc fresh found r p =
    let (distinct, used) = r p in
    let (rest, others) = Used-rest p (q, n) reps acc (list_at p d) used in
    let this : rate e ≡ n = ground arith in
    elim (Bool-cases (q == p)) [
      | inr differ ↦ rw (list_at-append_at p q e d, differ) (distinct, rest)
      | inl hit ↦
          let same = eq_of_test q p hit in
          let longer : list_at p (append_at q e d) ≡ list_at p d ++ (e ∷ []) =
            rw (list_at-append_at p q e d, hit) refl in
          let free : get (p, rate e) acc ≡ none = rw (this, ← same) fresh in
          rw longer (
            Distinct-append (list_at p d) e distinct
                (other_rates p q n e (list_at p d) same this others),
            All-append (λ x. get (p, rate x) acc ≡ none) (list_at p d) (e ∷ []) rest (free, tt),
          )
    ]

pub add_averages-Ready :
    (d : Dict Product (List Entry)) (acc : Dict Key (List Entry)) {d' : Dict Product (List Entry)}
    → add_averages d acc ≡ ok d'
    → Grouped acc
    → Ready d acc
    → (p : Product) → Distinct (list_at p d')
unfolding add_averages
add_averages-Ready d [] {d'} h g r = λ p. let same : d ≡ d' = ground arith in rw (← same) ((r p).0)
add_averages-Ready d (((q, n), reps) ∷ acc) {d'} h ((k, ks), (fresh, u)) r =
    elim (Result-cases (average reps)) [
      | inr (e, fails) ↦ absurd (ground arith)
      | inl (e, mean) ↦
          add_averages-Ready (append_at q e d) acc (rw mean at h) (ks, u)
            (add_average-Ready d q n e reps acc fresh (average-rate reps n mean k) r)
    ]
