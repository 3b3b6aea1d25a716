-- ===== src/SafePlan/Sound.antt =====
-- deploy/assert-safe-plan.py: when it lets a plan pass, and what its three lists hold.
use raft_tests.Prelude.{
  ◌+◌, ◌≤◌, ◌≡◌, refl, ◌∙◌, ◌↔◌, ◌⊎◌, inl, inr, Bool, false, List, [], ◌∷◌, ◌++◌, arith, contains,
  if◌then◌else◌, String, ok, map_result, Returns, Result-cases, Option-cases, length, length-append,
  All, string_eq, nat_eq, int_eq,
}
use raft_tests.SafePlan.Values.{Json, str, obj, get_or, find, is_in, is_in_same}
use raft_tests.SafePlan.{
  Sets, empty, actions_of, address_of, add_change, add_kept, add_updated, add_changes, changes_of,
  finish, kind_line, run, exit_status,
}

-- The change's actions can be read, and they do not delete.
abbrev pub IsSafe : Json → Type 0
IsSafe c = Returns (actions_of c) λ actions. is_in "delete" actions ≡ ok false

pub address_of_ok :
    (c : Json) {a : Json} → actions_of c ≡ ok a → (addr : Json) × (address_of c ≡ ok addr)
unfolding actions_of address_of get_or
address_of_ok (obj fs) h = elim (Option-cases (find "address" fs)) [
  | inl e ↦ (str "?", rw (e, get_or))
  | inr (v, e) ↦ (v, rw (e, get_or))
]
address_of_ok _ h = cc

-- A change with one effect on the two lists that no deletion enters.
abbrev sort_kept : Sets → Json → Bool → Bool → Sets
sort_kept s addr creates updates =
    if creates
    then record s { created = s.created ++ (addr ∷ []) }
    else if updates
    then record s { updated = s.updated ++ (addr ∷ []) }
    else s

-- A safe change is sorted by its actions, and no deletion is added.
add_change-safe :
    (s : Sets) (c : Json)
    → IsSafe c
    → (t : Sets) × (add_change s c ≡ ok t) × (t.destroyed ≡ s.destroyed)
unfolding add_change add_kept add_updated
add_change-safe s c safe = elim (Result-cases (actions_of c)) [
  | inr (e, fails) ↦ ground arith
  | inl (a, read) ↦
      let keeps : is_in "delete" a ≡ ok false = rw read at safe in
      let (addr, named) = address_of_ok c read in
      let (creates, in_create) = is_in_same "delete" "create" a keeps in
      let (updates, in_update) = is_in_same "delete" "update" a keeps in
      (sort_kept s addr creates updates, ground arith, ground arith)
]

add_change-cases :
    (s : Sets) (c : Json) {t : Sets}
    → add_change s c ≡ ok t
    → (IsSafe c × (t.destroyed ≡ s.destroyed)) ⊎ (length t.destroyed ≡ length s.destroyed + 1)
unfolding add_change add_kept add_updated
add_change-cases s c {t} h = grind (arith, length-append)

add_changes-safe :
    (s : Sets) (cs : List Json)
    → All IsSafe cs
    → (t : Sets) × (add_changes s cs ≡ ok t) × (t.destroyed ≡ s.destroyed)
unfolding add_changes
add_changes-safe s [] _ = (s, refl, refl)
add_changes-safe s (c ∷ cs) (safe, rest) =
    let (s', added, same) = add_change-safe s c safe in
    let (t, done, same') = add_changes-safe s' cs rest in (t, ground arith, same' ∙ same)

add_changes-grows :
    (s : Sets) (cs : List Json) {t : Sets}
    → add_changes s cs ≡ ok t
    → length s.destroyed ≤ length t.destroyed
unfolding add_changes
add_changes-grows s [] h = ground arith
add_changes-grows s (c ∷ cs) {t} h = elim (Result-cases (add_change s c)) [
  | inl (s', added) ↦ ground (arith, add_change-cases s c added, add_changes-grows s' cs {t = t})
  | inr (e, fails) ↦ ground arith
]

add_changes-none_destroyed :
    (s : Sets) (cs : List Json) {t : Sets}
    → add_changes s cs ≡ ok t
    → length t.destroyed ≤ length s.destroyed
    → All IsSafe cs
unfolding add_changes
add_changes-none_destroyed s [] h _ = tt
add_changes-none_destroyed s (c ∷ cs) {t} h few = elim (Result-cases (add_change s c)) [
  | inl (s', added) ↦
      let later : add_changes s' cs ≡ ok t = rw added at h in
      let up = add_changes-grows s' cs later in
      elim (add_change-cases s c added) [
        | inl (safe, same) ↦ (safe, add_changes-none_destroyed s' cs later (rw same few))
        | inr more ↦ absurd (omega arith)
      ]
  | inr (e, fails) ↦ absurd (ground arith)
]

map_result_nil :
    (str_of : Json → String) (ds : List (Json × Json))
    → length ds ≤ 0
    → map_result (kind_line str_of) ds ≡ ok []
unfolding map_result
map_result_nil str_of [] h = refl
map_result_nil str_of (d ∷ ds) h = absurd (omega arith)

finish-status :
    (str_of : Json → String) (t : Sets)
    → (exit_status (finish str_of false t) ≡ 0) ↔ (length t.destroyed ≤ 0)
unfolding finish
finish-status str_of t = ground (arith, map_result_nil str_of t.destroyed)

module _ (str_of : Json → String) (argv : List String) (plan : Json) where
  -- Without `--allow-destroy`, a plan that parses exits with 0 exactly when its changes can be iterated
  -- and each of them is an object whose actions do not contain "delete".
  pub run-IsSafe_iff :
      contains argv "--allow-destroy" ≡ false
      → (exit_status (run str_of argv (inr plan)) ≡ 0) ↔ Returns (changes_of plan) (All IsSafe)
  unfolding run
  run-IsSafe_iff refusing = elim (Result-cases (changes_of plan)) [
    | inr (x, e) ↦ ground arith
    | inl (cs, e) ↦ (λ h. rw e (passes_safe cs e h), λ safe. safe_passes cs e (rw e at safe))
  ]
    where
      safe_passes :
          (cs : List Json)
          → changes_of plan ≡ ok cs
          → All IsSafe cs
          → exit_status (run str_of argv (inr plan)) ≡ 0
      safe_passes cs e safe =
          let (t, done, none_destroyed) = add_changes-safe empty cs safe in
          ground (arith, (finish-status str_of t).1 (rw none_destroyed (omega arith)))

      passes_safe :
          (cs : List Json)
          → changes_of plan ≡ ok cs
          → exit_status (run str_of argv (inr plan)) ≡ 0
          → All IsSafe cs
      passes_safe cs e h = elim (Result-cases (add_changes empty cs)) [
        | inl (t, done) ↦
            add_changes-none_destroyed empty cs done (ground (arith, finish-status str_of t))
        | inr (x, fails) ↦ absurd (ground arith)
      ]
