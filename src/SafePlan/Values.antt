-- ===== src/SafePlan/Values.antt =====
-- What `json.load` yields, and the operations of deploy/assert-safe-plan.py on it: `.get`, `in` and `for`.
-- A value of another type than the plan's makes them raise, as in Python.
use raft_tests.Prelude.{
  ℕ, ◌≡◌, refl, Bool, true, false, ◌||◌, Option, none, some, List, [], ◌∷◌, ◌==◌, if◌then◌else◌,
  String, Result, ok, err, attribute_error, type_error, string_eq, nat_eq, int_eq,
}
use text.Mathlib.Text.{find?}

mutual
  -- A number is kept as its text: the script only ever prints one.
  pub data Json : Type 0 where
    null : Json
    bool : Bool → Json
    num : String → Json
    str : String → Json
    arr : Items → Json
    obj : Fields → Json

  pub data Items : Type 0 where
    nil : Items
    cons : Json → Items → Items

  pub data Fields : Type 0 where
    end : Fields
    field : String → Json → Fields → Fields

unfoldable pub find : String → Fields → Option Json
find k end = none
find k (field j v fs) = if j == k then some v else find k fs

-- `value.get(k, default)`
unfoldable pub get_or : String → Json → Json → Result Json
unfolding find
get_or k default (obj fs) = elim (find k fs) [ none ↦ ok default | some v ↦ ok v ]
get_or k default _ = err attribute_error

-- `item == text`: a value of another type is never equal to a text.
abbrev pub is_text : String → Json → Bool
is_text k (str s) = s == k
is_text k _ = false

unfoldable pub among : String → Items → Bool
among k nil = false
among k (cons v vs) = is_text k v || among k vs

unfoldable pub is_field : String → Fields → Bool
is_field k end = false
is_field k (field j v fs) = j == k || is_field k fs

abbrev some_place : Option ℕ → Bool
some_place none = false
some_place (some i) = true

-- `text in value`: membership in a list, a substring of a text, a key of an object.
unfoldable pub is_in : String → Json → Result Bool
unfolding among is_field
is_in k (arr vs) = ok (among k vs)
is_in k (str s) = ok (some_place (find? s k))
is_in k (obj fs) = ok (is_field k fs)
is_in k _ = err type_error

unfoldable pub listed : Items → List Json
listed nil = []
listed (cons v vs) = v ∷ listed vs

characters : String → List Json
characters String.[] = []
characters (String.◌∷◌ c s) = str (String.◌∷◌ c String.[]) ∷ characters s

field_names : Fields → List Json
field_names end = []
field_names (field j v fs) = str j ∷ field_names fs

-- What `for x in value` runs through.
unfoldable pub iterate : Json → Result (List Json)
unfolding listed characters field_names
iterate (arr vs) = ok (listed vs)
iterate (str s) = ok (characters s)
iterate (obj fs) = ok (field_names fs)
iterate _ = err type_error

-- Whether `in` raises depends on the container alone.
pub is_in_same :
    (j k : String) (v : Json) {b : Bool} → is_in j v ≡ ok b → (c : Bool) × (is_in k v ≡ ok c)
unfolding is_in
is_in_same j k (arr vs) h = (_, refl)
is_in_same j k (str s) h = (_, refl)
is_in_same j k (obj fs) h = (_, refl)
is_in_same j k _ h = cc

substring : (is_in "delete" (str "undeleted") ≡ ok true) × (is_in "delete" (str "del") ≡ ok false)
unfolding is_in
substring = (refl, refl)
