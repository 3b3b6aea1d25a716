-- ===== src/Prelude/Results.antt =====
-- Python's exceptions as values. An exception that nothing catches ends the script.
use Prim.Native.String.{String}
use mathlib.Core.Path.{◌≡◌, refl}
use mathlib.Core.Logic.{◌⊎◌, inl, inr}
use raft_tests.Prelude.Lists.{All}
use raft_tests.Prelude.Tests.{if◌then◌else◌}
use mathlib.Core.Bool.{Bool, true, false}
use mathlib.Core.List.{List, [], ◌∷◌, ◌++◌}

pub data Exc : Type 0 where
  key_error : String → Exc
  attribute_error type_error value_error index_error stop_iteration os_error zero_division_error
        overflow_error :
      Exc
  system_exit : String → Exc

pub data Result {ℓ} (T : Type ℓ) : Type ℓ where
  err : Exc → Result T
  ok : T → Result T

-- What follows a statement runs unless the statement raises.
infixl 5 ◌>>=◌
abbrev pub ◌>>=◌ {ℓ κ} : {T : Type ℓ} {U : Type κ} → Result T → (T → Result U) → Result U
(err raised) >>= next = err raised
(ok value) >>= next = next value

-- A comprehension whose body may raise: elements are computed from left to right.
unfoldable pub map_result {ℓ κ} :
    {A : Type ℓ} {B : Type κ} → (A → Result B) → List A → Result (List B)
map_result f [] = ok []
map_result f (x ∷ xs) = do y ← f x; ys ← map_result f xs; ok (y ∷ ys)

-- `extend` in a loop whose body may raise.
unfoldable pub gather {ℓ κ} :
    {A : Type ℓ} {B : Type κ} → (A → Result (List B)) → List A → Result (List B)
gather f [] = ok []
gather f (x ∷ xs) = do ys ← f x; more ← gather f xs; ok (ys ++ more)

-- The action returns, and its result satisfies the predicate.
abbrev pub Returns {ℓ} : {A : Type ℓ} → Result A → (A → Type 0) → Type 0
Returns (ok a) P = P a
Returns (err e) P = ⊥

pub Result-cases {ℓ} :
    {A : Type ℓ} (r : Result A) → ((a : A) × (r ≡ ok a)) ⊎ ((e : Exc) × (r ≡ err e))
Result-cases (ok a) = inl (a, refl)
Result-cases (err e) = inr (e, refl)

-- The action returns some value.
abbrev pub IsOk {ℓ} : {A : Type ℓ} → Result A → Type ℓ
IsOk {A = A} r = (a : A) × (r ≡ ok a)

pub >>=-IsOk {ℓ κ} :
    {A : Type ℓ} {B : Type κ} (m : Result A) (f : A → Result B)
    → IsOk m
    → ((a : A) → m ≡ ok a → IsOk (f a))
    → IsOk (m >>= f)
>>=-IsOk m f (a, e) next = rw e (next a e)

-- The same with the value that the statement returns.
pub from-IsOk {ℓ κ} :
    {A : Type ℓ} {B : Type κ} (m : Result A) (f : A → Result B) (a : A)
    → m ≡ ok a
    → IsOk (f a)
    → IsOk (m >>= f)
from-IsOk m f a e o = rw e o

pub if_true-IsOk {ℓ} :
    {A : Type ℓ} (b : Bool) (x y : Result A) → b ≡ true → IsOk x → IsOk (if b then x else y)
if_true-IsOk b x y h o = rw h o

pub if_false-IsOk {ℓ} :
    {A : Type ℓ} (b : Bool) (x y : Result A) → b ≡ false → IsOk y → IsOk (if b then x else y)
if_false-IsOk b x y h o = rw h o

module _ {ℓ κ μ} {A : Type ℓ} {B : Type κ} (P : A → Type μ) where
  pub map_result-IsOk :
      (f : A → Result B) (xs : List A)
      → ((x : A) → P x → IsOk (f x))
      → All P xs
      → IsOk (map_result f xs)
  unfolding map_result
  map_result-IsOk f [] each _ = ([], refl)
  map_result-IsOk f (x ∷ xs) each (p, ps) =
      let (y, e) = each x p in
      let (ys, es) = map_result-IsOk f xs each ps in (y ∷ ys, rw (e, es) refl)

  pub gather-IsOk :
      (f : A → Result (List B)) (xs : List A)
      → ((x : A) → P x → IsOk (f x))
      → All P xs
      → IsOk (gather f xs)
  unfolding gather
  gather-IsOk f [] each _ = ([], refl)
  gather-IsOk f (x ∷ xs) each (p, ps) =
      let (y, e) = each x p in let (ys, es) = gather-IsOk f xs each ps in (y ++ ys, rw (e, es) refl)

-- The action returns if the proposition holds, and raises the exception if it does not.
abbrev pub Outcome {ℓ κ} : {A : Type ℓ} → Type κ → Exc → Result A → Type (ℓ ⊔ κ)
Outcome Q e r = (Q × IsOk r) ⊎ ((Q → ⊥) × (r ≡ err e))

pub map_result-Outcome {ℓ κ μ} :
    {A : Type ℓ} {B : Type κ} (P : A → Type μ) (e : Exc) (f : A → Result B) (xs : List A)
    → All (λ x. Outcome (P x) e (f x)) xs
    → Outcome (All P xs) e (map_result f xs)
unfolding map_result
map_result-Outcome P e f [] _ = inl (tt, ([], refl))
map_result-Outcome P e f (x ∷ xs) (inr (no_p, raised), _) =
    inr ((λ (p, ps). no_p p), rw raised refl)
map_result-Outcome P e f (x ∷ xs) (inl (p, (y, this)), rest) =
    elim (map_result-Outcome P e f xs rest) [
      | inl (ps, (ys, more)) ↦ inl ((p, ps), (y ∷ ys, rw (this, more) refl))
      | inr (no_ps, raised) ↦ inr ((λ (q, qs). no_ps qs), rw (this, raised) refl)
    ]

-- A statement that returns leaves the outcome to what follows it.
pub after-Outcome {ℓ κ μ} :
    {A : Type ℓ} {B : Type κ} (Q : Type μ) (e : Exc) (m : Result A) (f : A → Result B)
    → IsOk m
    → ((a : A) → m ≡ ok a → Outcome Q e (f a))
    → Outcome Q e (m >>= f)
after-Outcome Q e m f (a, eq) next = rw eq (next a eq)

pub from-Outcome {ℓ κ μ} :
    {A : Type ℓ} {B : Type κ} (Q : Type μ) (e : Exc) (m : Result A) (f : A → Result B) (a : A)
    → m ≡ ok a
    → Outcome Q e (f a)
    → Outcome Q e (m >>= f)
from-Outcome Q e m f a eq next = rw eq next

pub >>=-Outcome {ℓ κ μ ν} :
    {A : Type ℓ} {B : Type κ} (Q : Type μ) (R : Type ν) (e : Exc) (m : Result A) (f : A → Result B)
    → Outcome Q e m
    → (Q → (a : A) → m ≡ ok a → Outcome R e (f a))
    → Outcome (Q × R) e (m >>= f)
>>=-Outcome Q R e m f (inr (no_q, raised)) next = inr ((λ (q, r). no_q q), rw raised refl)
>>=-Outcome Q R e m f (inl (q, (a, eq))) next = elim (next q a eq) [
  | inl (r, (b, fine)) ↦ inl ((q, r), (b, rw eq fine))
  | inr (no_r, raised) ↦ inr ((λ (q', r). no_r r), rw eq raised)
]

-- An action that returns whenever it is reached adds nothing to the condition.
pub then-Outcome {ℓ κ μ} :
    {A : Type ℓ} {B : Type κ} (Q : Type μ) (e : Exc) (m : Result A) (f : A → Result B)
    → Outcome Q e m
    → (Q → (a : A) → m ≡ ok a → IsOk (f a))
    → Outcome Q e (m >>= f)
then-Outcome Q e m f (inr (no_q, raised)) next = inr (no_q, rw raised refl)
then-Outcome Q e m f (inl (q, (a, eq))) next = inl (q, rw eq (next q a eq))

pub gather-Outcome {ℓ κ μ} :
    {A : Type ℓ} {B : Type κ} (P : A → Type μ) (e : Exc) (f : A → Result (List B)) (xs : List A)
    → All (λ x. Outcome (P x) e (f x)) xs
    → Outcome (All P xs) e (gather f xs)
unfolding gather
gather-Outcome P e f [] _ = inl (tt, ([], refl))
gather-Outcome P e f (x ∷ xs) (first, rest) = >>=-Outcome (P x) (All P xs) e (f x) _ first λ _ ys _.
    then-Outcome (All P xs) e (gather f xs) _ (gather-Outcome P e f xs rest) (λ _ more _. (_, refl))
