-- ===== src/Python/Dict.antt =====
-- Python's dicts, as lists of entries in the order of insertion.
use mathlib.Core.Logic.{if_pos, if_neg}
use mathlib.Core.Path.{subst}
use raft_tests.Prelude.{
  ◌≡◌, refl, ◌≢◌, ◌⊎◌, true, false, Option, none, some, List, [], ◌∷◌, ◌++◌, arith, Eq, ◌==◌,
  contains, string_eq, if◌then◌else◌, String, Result, ok, err, key_error, All, All-append, sym,
}

abbrev pub Dict {ℓ κ} : Type ℓ → Type κ → Type (ℓ ⊔ κ)
Dict K V = List (K × V)

unfoldable pub keys {ℓ κ} : {K : Type ℓ} {V : Type κ} → Dict K V → List K
keys [] = []
keys ((k, _) ∷ d) = k ∷ keys d

unfoldable pub values {ℓ κ} : {K : Type ℓ} {V : Type κ} → Dict K V → List V
values [] = []
values ((_, v) ∷ d) = v ∷ values d

module _ {ℓ κ} {K : Type ℓ} {V : Type κ} ⦃e : Eq K⦄ where
  -- `d.get(k)`
  unfoldable pub get : K → Dict K V → Option V
  get k [] = none
  get k ((j, v) ∷ d) = if j == k then some v else get k d

  -- `d[k] = v`: an old key keeps its place.
  unfoldable pub insert : K → V → Dict K V → Dict K V
  insert k v [] = (k, v) ∷ []
  insert k v ((j, w) ∷ d) = if j == k then (j, v) ∷ d else (j, w) ∷ insert k v d

  pub get-insert :
      (j k : K) (v : V) (d : Dict K V) → get j (insert k v d) ≡ (if k == j then some v else get j d)
  unfolding get insert
  get-insert j k v [] = refl
  get-insert j k v (_ ∷ d) = ground (arith, get-insert j k v d)

  pub get-cons :
      (j k : K) (v : V) (d : Dict K V) → get k ((j, v) ∷ d) ≡ (if j == k then some v else get k d)
  unfolding get
  get-cons j k v d = refl

  -- A value that is found is the first entry's or comes from the rest.
  pub get-cons_cases :
      (j k : K) (v : V) (d : Dict K V) {w : V}
      → get k ((j, v) ∷ d) ≡ some w
      → ((j ≡ k) × (v ≡ w)) ⊎ ((j ≢ k) × (get k d ≡ some w))
  unfolding get
  get-cons_cases j k v d h = ground arith

  pub contains-keys : (k : K) (d : Dict K V) {v : V} → get k d ≡ some v → contains (keys d) k ≡ true
  unfolding get keys
  contains-keys k [] h = cc
  contains-keys k (_ ∷ d) {v} h = ground (arith, contains-keys k d {v = v})

  pub contains-keys_missing : (k : K) (d : Dict K V) → get k d ≡ none → contains (keys d) k ≡ false
  unfolding get keys
  contains-keys_missing k [] h = refl
  contains-keys_missing k ((j, v) ∷ d) h = ground (arith, contains-keys_missing k d)

  pub get-cons_none :
      (j k : K) (v : V) (d : Dict K V) → get k ((j, v) ∷ d) ≡ none → (j ≢ k) × (get k d ≡ none)
  unfolding get
  get-cons_none j k v d h = ground arith

  abbrev pub NodupKeys : Dict K V → Type κ
  NodupKeys [] = Unit
  NodupKeys ((k, _) ∷ d) = (get k d ≡ none) × NodupKeys d

  pub insert-NodupKeys : (k : K) (v : V) (d : Dict K V) → NodupKeys d → NodupKeys (insert k v d)
  unfolding insert get
  insert-NodupKeys k v [] _ = (refl, tt)
  insert-NodupKeys k v ((j, _) ∷ d) (fresh, u) =
      ground (arith, insert-NodupKeys k v d u, get-insert j k v d)

-- `d[k]` for a text key
unfoldable pub lookup {ℓ} : {V : Type ℓ} → String → Dict String V → Result V
lookup k d = elim (get k d) [ none ↦ err (key_error k) | some v ↦ ok v ]

module _ {ℓ κ} {K : Type ℓ} {A : Type κ} ⦃e : Eq K⦄ where
  -- `d.setdefault(k, []).append(a)`
  unfoldable pub append_at : K → A → Dict K (List A) → Dict K (List A)
  append_at k a [] = (k, a ∷ []) ∷ []
  append_at k a ((j, l) ∷ d) = if j == k then (j, l ++ (a ∷ [])) ∷ d else (j, l) ∷ append_at k a d

  -- The list under a key, empty where there is none.
  abbrev pub list_at : K → Dict K (List A) → List A
  list_at k d = elim (get k d) [ none ↦ [] | some l ↦ l ]

  pub list_at-append_at :
      (j k : K) (a : A) (d : Dict K (List A))
      → list_at j (append_at k a d) ≡ (if k == j then list_at j d ++ (a ∷ []) else list_at j d)
  unfolding append_at get
  list_at-append_at j k a [] = ground arith
  list_at-append_at j k a (_ ∷ d) = ground (arith, list_at-append_at j k a d)

  pub get-append_at-none :
      (j k : K) (a : A) (d : Dict K (List A))
      → get j (append_at k a d) ≡ none
      → (get j d ≡ none) × (k ≢ j)
  unfolding append_at get
  get-append_at-none j k a [] h = ground arith
  get-append_at-none j k a (_ ∷ d) h = ground (arith, get-append_at-none j k a d)

  pub get-append_at-ne :
      (j k : K) (a : A) (d : Dict K (List A)) → k ≢ j → get j (append_at k a d) ≡ get j d
  unfolding append_at get
  get-append_at-ne j k a [] h = ground arith
  get-append_at-ne j k a (_ ∷ d) h = ground (arith, get-append_at-ne j k a d)

  -- The new element stands at the end of its key's list, and no key comes twice.
  pub append_at-NodupKeys :
      (k : K) (a : A) (d : Dict K (List A)) → NodupKeys d → NodupKeys (append_at k a d)
  unfolding append_at get
  append_at-NodupKeys k a [] _ = (refl, tt)
  append_at-NodupKeys k a ((j, _) ∷ d) (fresh, u) =
      ground (arith, append_at-NodupKeys k a d u, get-append_at-ne j k a d)

module _ {ℓ κ} {K : Type ℓ} {A : Type κ} ⦃e : Eq K⦄ (P : K → A → Type 0) where
  -- Each list's elements fit the key of the list.
  abbrev pub AllLists : Dict K (List A) → Type 0
  AllLists [] = Unit
  AllLists ((k, l) ∷ d) = All (P k) l × AllLists d

  pub append_at-AllLists :
      (k : K) (a : A) (d : Dict K (List A)) → P k a → AllLists d → AllLists (append_at k a d)
  unfolding append_at
  append_at-AllLists k a [] p _ = ((p, tt), tt)
  append_at-AllLists k a ((j, l) ∷ d) p (q, qs) = elim (e.dec j k) [
    | yes same ↦
        let p' : P j a = subst (λ i. P i a) (sym same) p in
        rw (if_pos _ same) (All-append (P j) l (a ∷ []) q (p', tt), qs)
    | no differ ↦ rw (if_neg _ differ) (q, append_at-AllLists k a d p qs)
  ]
