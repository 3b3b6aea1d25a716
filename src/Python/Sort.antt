-- ===== src/Python/Sort.antt =====
-- `sorted(xs)` and `xs.sort(key=…)`: a stable sort, given by insertion from the right. Python's result is
-- determined by stability and order, whatever its algorithm.
use raft_tests.Prelude.{
  ◌≡◌, refl, ◌∙◌, ◌⊎◌, inl, inr, Bool, true, List, [], ◌∷◌, arith, if◌then◌else◌, Bool-cases, All,
  string_eq, nat_eq, int_eq,
}
use mathlib.Core.List.{Perm, Permᴰ}
use mathlib.Core.List.Perm
use mathlib.Core.Logic.{∥∥₁_elim}

module _ {ℓ} {A : Type ℓ} (le : A → A → Bool) where
  -- before the first element that is not smaller
  unfoldable pub insort : A → List A → List A
  insort x [] = x ∷ []
  insort x (y ∷ ys) = if le x y then x ∷ y ∷ ys else y ∷ insort x ys

  unfoldable pub sorted : List A → List A
  sorted [] = []
  sorted (x ∷ xs) = insort x (sorted xs)

  pub insort-perm : (x : A) (xs : List A) → Perm (insort x xs) (x ∷ xs)
  unfolding insort
  insort-perm x [] = Perm.refl _
  insort-perm x (y ∷ ys) = elim (Bool-cases (le x y)) [
    | inl e ↦ rw e (Perm.refl _)
    | inr e ↦ rw e (Perm.trans (Perm.cons y (insort-perm x ys)) (Perm.swap x y ys))
  ]

  pub sorted-perm : (xs : List A) → Perm (sorted xs) xs
  unfolding sorted
  sorted-perm [] = Perm.refl _
  sorted-perm (x ∷ xs) = Perm.trans (insort-perm x (sorted xs)) (Perm.cons x (sorted-perm xs))

  -- Each element is below all that follow it.
  abbrev pub IsSorted : List A → Type 0
  IsSorted [] = Unit
  IsSorted (x ∷ xs) = All (λ y. le x y ≡ true) xs × IsSorted xs

  -- What a predicate says of all elements survives the sort.
  pub All-insort : (P : A → Type 0) (x : A) (xs : List A) → P x → All P xs → All P (insort x xs)
  unfolding insort
  All-insort P x [] p _ = (p, tt)
  All-insort P x (y ∷ ys) p (q, qs) = ground (arith, All-insort P x ys p qs)

  pub All-sorted : (P : A → Type 0) (xs : List A) → All P xs → All P (sorted xs)
  unfolding sorted
  All-sorted P [] _ = tt
  All-sorted P (x ∷ xs) (p, ps) = All-insort P x (sorted xs) p (All-sorted P xs ps)

  module _ (total : (x y : A) → (le x y ≡ true) ⊎ (le y x ≡ true))
      (trans : (x y z : A) → le x y ≡ true → le y z ≡ true → le x z ≡ true) where
    All-le_trans :
        (x y : A) (ys : List A)
        → le x y ≡ true
        → All (λ z. le y z ≡ true) ys
        → All (λ z. le x z ≡ true) ys
    All-le_trans x y [] h _ = tt
    All-le_trans x y (z ∷ zs) h (k, ks) = (trans x y z h k, All-le_trans x y zs h ks)

    insort-IsSorted : (x : A) (xs : List A) → IsSorted xs → IsSorted (insort x xs)
    unfolding insort
    insort-IsSorted x [] _ = (tt, tt)
    insort-IsSorted x (y ∷ ys) (below, rest) = elim (Bool-cases (le x y)) [
      | inl e ↦ rw e ((e, All-le_trans x y ys e below), (below, rest))
      | inr e ↦ rw e (
        All-insort (λ z. le y z ≡ true) x ys (ground (arith, total x y)) below,
        insort-IsSorted x ys rest,
      )
    ]

    pub sorted-IsSorted : (xs : List A) → IsSorted (sorted xs)
    unfolding sorted
    sorted-IsSorted [] = tt
    sorted-IsSorted (x ∷ xs) = insort-IsSorted x (sorted xs) (sorted-IsSorted xs)

    module _ (antisymm : (x y : A) → le x y ≡ true → le y x ≡ true → x ≡ y) where
      insort_comm : (x y : A) (zs : List A) → insort x (insort y zs) ≡ insort y (insort x zs)
      unfolding insort
      insort_comm x y [] = ground (arith, total x y, antisymm x y)
      insort_comm x y (z ∷ zs) =
          ground (arith, total x y, antisymm x y, trans x y z, trans y x z, insort_comm x y zs)

      sorted-Permᴰ : {xs ys : List A} → Permᴰ xs ys → sorted xs ≡ sorted ys
      unfolding sorted
      sorted-Permᴰ Permᴰ.nil = refl
      sorted-Permᴰ (Permᴰ.cons {a = a} e p) = rw (e, sorted-Permᴰ p)
      sorted-Permᴰ (Permᴰ.swap {a = a} {b = b} {l = l} e f) =
          rw (← e, ← f) (insort_comm a b (sorted l))
      sorted-Permᴰ (Permᴰ.trans p q) = sorted-Permᴰ p ∙ sorted-Permᴰ q

      -- Under a total order the sorted list depends on the elements alone, not on their order.
      pub sorted-perm-eq : IsSet (List A) → {xs ys : List A} → Perm xs ys → sorted xs ≡ sorted ys
      sorted-perm-eq is_set {xs} {ys} p = ∥∥₁_elim p (is_set (sorted xs) (sorted ys)) sorted-Permᴰ
