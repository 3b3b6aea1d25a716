-- ===== src/SafePlan/Tests.antt =====
-- Runs of deploy/assert-safe-plan.py, and its theorems at concrete plans.
use raft_tests.Prelude.{
  ℕ, contains, ok, ◌≡◌, refl, ◌↔◌, ◌⊎◌, inl, inr, List, [], ◌∷◌, map, String, map_result, Returns,
  All, string_eq, nat_eq, int_eq,
}
use raft_tests.SafePlan.Values.{
  Json, str, arr, obj, nil, cons, end, field, null, is_in, get_or, iterate,
}
use raft_tests.SafePlan.{
  Sets, Exit, empty, run, exit_status, changes_of, actions_of, address_of, add_change, add_kept,
  add_updated, add_changes,
}
use raft_tests.SafePlan.Lists.{addresses, creates, updates, destroys, add_changes-lists}
use raft_tests.SafePlan.Status.{Reports, run-Reports}
use raft_tests.SafePlan.Sound.{IsSafe, run-IsSafe_iff}

abbrev change : String → Json → Json
change addr actions =
    obj (field "address" (str addr) (field "change" (obj (field "actions" actions end)) end))

abbrev replacement : Json
replacement = change "aws_instance.a" (arr (cons (str "delete") (cons (str "create") nil)))

abbrev addition : Json
addition = change "aws_eip.b" (arr (cons (str "create") nil))

abbrev edit : Json
edit = change "aws_eip.c" (arr (cons (str "update") nil))

abbrev plan_of : Json → Json
plan_of c = obj (field "resource_changes" (arr (cons c (cons edit nil))) end)

abbrev text : Json → String
text (str s) = s
text _ = ""

status : List String → String ⊎ Json → ℕ
unfolding run changes_of add_changes add_change add_kept add_updated actions_of address_of get_or
    iterate is_in map_result string_eq
status argv plan = exit_status (run text argv plan)

statuses :
    (status [] (inr (plan_of replacement)) ≡ 1)
    × (status ("--allow-destroy" ∷ []) (inr (plan_of replacement)) ≡ 0)
    × (status [] (inr (plan_of addition)) ≡ 0)
    × (status [] (inr null) ≡ 1)
    × (status [] (inl "line 1") ≡ 2)
unfolding status
statuses = (refl, refl, refl, refl, refl)

run-IsSafe_iff_example :
    (exit_status (run text [] (inr (plan_of replacement))) ≡ 0)
    ↔ Returns (changes_of (plan_of replacement)) (All IsSafe)
run-IsSafe_iff_example = run-IsSafe_iff text [] (plan_of replacement) refl

abbrev sorted_sets : Sets
sorted_sets = record {
  created = str "aws_eip.b" ∷ [];
  updated = str "aws_eip.c" ∷ [];
  destroyed = (str "aws_instance.a", arr (cons (str "delete") (cons (str "create") nil))) ∷ [];
}

abbrev three : List Json
three = replacement ∷ addition ∷ edit ∷ []

add_changes-lists_example :
    (sorted_sets.created ≡ addresses creates three)
    × (sorted_sets.updated ≡ addresses updates three)
    × (map (λ (addr, actions). addr) sorted_sets.destroyed ≡ addresses destroys three)
unfolding status
add_changes-lists_example = add_changes-lists three {t = sorted_sets} refl

run-Reports_example :
    (t : Sets) × (add_changes empty (replacement ∷ edit ∷ []) ≡ ok t)
    × (e : Exit) × (run text ("--json" ∷ []) (inr (plan_of replacement)) ≡ ok e)
    × Reports text (contains {A = String} ("--json" ∷ []) "--allow-destroy") t e
unfolding status
run-Reports_example =
    run-Reports text ("--json" ∷ []) (plan_of replacement) (replacement ∷ edit ∷ []) refl
      ((_, refl), ((_, refl), tt))
