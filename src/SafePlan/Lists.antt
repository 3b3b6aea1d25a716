-- ===== src/SafePlan/Lists.antt =====
-- deploy/assert-safe-plan.py: the three lists of a plan whose changes can all be read.
use raft_tests.Prelude.{
  ◌≡◌, inl, inr, Bool, false, not, ◌&&◌, List, [], ◌∷◌, ◌++◌, map, arith, String, ok, err,
  Result-cases, keep, string_eq, nat_eq, int_eq,
}
use mathlib.Core.List.{append-nil, append_assoc, map-append}
use raft_tests.SafePlan.Values.{Json, str, is_in, is_in_same}
use raft_tests.SafePlan.{
  Sets, empty, actions_of, address_of, add_change, add_kept, add_updated, add_changes,
}

-- The word stands among the change's actions.
abbrev pub mentions : String → Json → Bool
mentions k c = elim (actions_of c) [
  | ok a ↦ elim (is_in k a) [ ok b ↦ b | err e ↦ false ]
  | err e ↦ false
]

abbrev pub address : Json → Json
address c = elim (address_of c) [ ok a ↦ a | err e ↦ str "?" ]

abbrev pub destroys : Json → Bool
destroys c = mentions "delete" c

abbrev pub creates : Json → Bool
creates c = not (mentions "delete" c) && mentions "create" c

abbrev pub updates : Json → Bool
updates c = not (mentions "delete" c) && not (mentions "create" c) && mentions "update" c

abbrev pub addresses : (Json → Bool) → List Json → List Json
addresses test cs = map address (keep test cs)

abbrev Extends : Sets → List Json → Sets → Type 0
Extends s cs t =
    (t.created ≡ s.created ++ addresses creates cs)
    × (t.updated ≡ s.updated ++ addresses updates cs)
    × (map (λ (addr, actions). addr) t.destroyed
        ≡ map (λ (addr, actions). addr) s.destroyed ++ addresses destroys cs)

add_change-Extends : (s : Sets) (c : Json) {t : Sets} → add_change s c ≡ ok t → Extends s (c ∷ []) t
unfolding add_change add_kept add_updated
add_change-Extends s c {t} h = grind (arith, append-nil, map-append, is_in_same)

keep-cons :
    (test : Json → Bool) (c : Json) (cs : List Json)
    → addresses test (c ∷ cs) ≡ addresses test (c ∷ []) ++ addresses test cs
keep-cons test c cs = ground arith

add_changes-Extends :
    (s : Sets) (cs : List Json) {t : Sets} → add_changes s cs ≡ ok t → Extends s cs t
unfolding add_changes
add_changes-Extends s [] h = grind (arith, append-nil)
add_changes-Extends s (c ∷ cs) {t} h = elim (Result-cases (add_change s c)) [
  | inr (e, fails) ↦ absurd (ground arith)
  | inl (s', added) ↦
      let (created, updated, destroyed) = add_change-Extends s c added in
      let (created', updated', destroyed') = add_changes-Extends s' cs (rw added at h) in
      (
        rw (keep-cons creates c cs, ← append_assoc, ← created) created',
        rw (keep-cons updates c cs, ← append_assoc, ← updated) updated',
        rw (keep-cons destroys c cs, ← append_assoc, ← destroyed) destroyed',
      )
]

-- If no change of the plan makes the loop raise, the three lists hold the addresses of the changes, in the
-- plan's order: `destroyed` those whose actions contain "delete", a replacement among them; `created`
-- those with "create" and no "delete"; `updated` those with "update" and neither of the two.
pub add_changes-lists :
    (cs : List Json) {t : Sets}
    → add_changes empty cs ≡ ok t
    → (t.created ≡ addresses creates cs)
      × (t.updated ≡ addresses updates cs)
      × (map (λ (addr, actions). addr) t.destroyed ≡ addresses destroys cs)
add_changes-lists cs h = add_changes-Extends empty cs h
