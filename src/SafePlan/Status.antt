-- ===== src/SafePlan/Status.antt =====
-- deploy/assert-safe-plan.py: a plan that can be read is reported in full, and the exit status says what it destroys.
use raft_tests.Prelude.{
  ◌+◌, ◌-◌, ◌≡◌, refl, inl, inr, Bool, true, false, not, ◌&&◌, List, [], ◌∷◌, ◌++◌, map, arith,
  contains, if◌then◌else◌, String, ◌<>◌, Result, ok, ◌>>=◌, map_result, Returns, IsOk, >>=-IsOk,
  Result-cases, ltb, Bool-cases, length, length-append, length-map, All, All-append, string_eq,
  option_eq, pair_eq, list_eq, nat_eq, int_eq,
}
use raft_tests.SafePlan.Values.{Json, is_in, is_in_same}
use raft_tests.SafePlan.{
  Sets, empty, actions_of, add_change, add_kept, add_updated, add_changes, changes_of, Exit,
  refused, passed, finish, kind_line, run,
}
use raft_tests.SafePlan.Sound.{address_of_ok}

-- The change's actions can be read and searched.
abbrev pub IsReadable : Json → Type 0
IsReadable c = Returns (actions_of c) λ actions. IsOk (is_in "delete" actions)

-- The report can tell what happens to each resource that is destroyed.
abbrev IsReportable : Sets → Type 0
IsReportable s = All (λ d. IsOk (is_in "create" (d.1))) s.destroyed

add_change-IsOk :
    (s : Sets) (c : Json)
    → IsReadable c
    → IsReportable s
    → (t : Sets) × (add_change s c ≡ ok t) × IsReportable t
unfolding add_change add_kept add_updated
add_change-IsOk s c readable reportable = elim (Result-cases (actions_of c)) [
  | inr (e, fails) ↦ absurd (rw fails at readable)
  | inl (a, read) ↦
      let (deletes, in_delete) = rw read at readable in
      let (addr, named) = address_of_ok c read in
      let (creates, in_create) = is_in_same "delete" "create" a in_delete in
      let (updates, in_update) = is_in_same "delete" "update" a in_delete in
      elim (Bool-cases deletes) [
        | inl del ↦ (
          record s { destroyed = s.destroyed ++ ((addr, a) ∷ []) },
          rw (read, named, in_delete, del) refl,
          All-append _ s.destroyed ((addr, a) ∷ []) reportable ((creates, in_create), tt),
        )
        | inr keeps ↦ elim (Bool-cases creates) [
          | inl new ↦ (
            record s { created = s.created ++ (addr ∷ []) },
            rw (read, named, in_delete, keeps, in_create, new) refl,
            reportable,
          )
          | inr old ↦ elim (Bool-cases updates) [
            | inl up ↦ (
              record s { updated = s.updated ++ (addr ∷ []) },
              rw (read, named, in_delete, keeps, in_create, old, in_update, up) refl,
              reportable,
            )
            | inr same ↦ (
              s,
              rw (read, named, in_delete, keeps, in_create, old, in_update, same) refl,
              reportable,
            )
          ]
        ]
      ]
]

add_changes-IsOk :
    (s : Sets) (cs : List Json)
    → All IsReadable cs
    → IsReportable s
    → (t : Sets) × (add_changes s cs ≡ ok t) × IsReportable t
unfolding add_changes
add_changes-IsOk s [] _ reportable = (s, refl, reportable)
add_changes-IsOk s (c ∷ cs) (readable, rest) reportable =
    let (s', added, reportable') = add_change-IsOk s c readable reportable in
    let (t, done, last) = add_changes-IsOk s' cs rest reportable' in (t, rw (added) done, last)

kind_line-IsOk :
    (str_of : Json → String) (d : Json × Json)
    → IsOk (is_in "create" (d.1))
    → IsOk (kind_line str_of d)
unfolding kind_line
kind_line-IsOk str_of (addr, actions) found =
    >>=-IsOk (is_in "create" actions) _ found (λ _ _. (_, refl))

kind_lines :
    (str_of : Json → String) (ds : List (Json × Json))
    → All (λ d. IsOk (is_in "create" (d.1))) ds
    → (kinds : List String) × (map_result (kind_line str_of) ds ≡ ok kinds)
      × (length kinds ≡ length ds)
unfolding map_result
kind_lines str_of [] _ = ([], refl, refl)
kind_lines str_of (d ∷ ds) (found, rest) =
    let (line, said) = kind_line-IsOk str_of d found in
    let (kinds, all, same) = kind_lines str_of ds rest in
    (line ∷ kinds, rw (said, all) refl, omega (arith, same))

module _ (str_of : Json → String) where
  -- The exit of a run over the sets: a line for each resource, and one more where it passes.
  abbrev pub Reports : Bool → Sets → Exit → Type 0
  Reports allow s e =
      (e.status ≡ (if ltb 0 (length s.destroyed) && not allow then 1 else 0))
      × (length e.out ≡ length s.created + (length s.updated + length s.destroyed) + (1 - e.status))

  printed : Sets → List String → List String
  printed s kinds =
      map (λ addr. "  create  " <> str_of addr) s.created
      ++ (map (λ addr. "  update  " <> str_of addr) s.updated ++ kinds)

  length-printed :
      (s : Sets) (kinds : List String)
      → length kinds ≡ length s.destroyed
      → length (printed s kinds) ≡ length s.created + (length s.updated + length s.destroyed)
  unfolding printed
  length-printed s kinds same = rw (length-append, length-append, length-map, length-map, same) refl

  ends :
      (allow : Bool) (s : Sets) (lines : List String) (refuse : Bool)
      → (ltb 0 (length s.destroyed) && not allow) ≡ refuse
      → length lines ≡ length s.created + (length s.updated + length s.destroyed)
      → Reports allow s (if refuse then refused s lines else passed s lines)
  ends allow s lines true h counted = (rw h refl, omega (arith, counted))
  ends allow s lines false h counted = (rw h refl, rw length-append (omega (arith, counted)))

  finish-Reports :
      (allow : Bool) (s : Sets)
      → IsReportable s
      → (e : Exit) × (finish str_of allow s ≡ ok e) × Reports allow s e
  unfolding finish printed
  finish-Reports allow s reportable =
      let (kinds, all, same) = kind_lines str_of s.destroyed reportable in
      (
        _,
        from_known (map_result (kind_line str_of) s.destroyed) kinds all,
        ends allow s (printed s kinds) (ltb 0 (length s.destroyed) && not allow) refl
            (length-printed s kinds same),
      )
    where
      from_known :
          (m : Result (List String)) (kinds : List String)
          → m ≡ ok kinds
          → (do
            found ← m
            ok (
                if ltb 0 (length s.destroyed) && not allow
                then refused s (printed s found)
                else passed s (printed s found)))
            ≡ ok (
                if ltb 0 (length s.destroyed) && not allow
                then refused s (printed s kinds)
                else passed s (printed s kinds))
      from_known m kinds all = rw all refl

  -- If the plan's changes can be iterated and the actions of each can be read and searched, the script returns. It
  -- prints as many lines as its three lists have entries, and one more where it passes. It exits with 1 where it
  -- destroys a resource without --allow-destroy, and with 0 otherwise.
  pub run-Reports :
      (argv : List String) (plan : Json) (cs : List Json)
      → changes_of plan ≡ ok cs
      → All IsReadable cs
      → (t : Sets) × (add_changes empty cs ≡ ok t)
        × (e : Exit) × (run str_of argv (inr plan) ≡ ok e)
        × Reports (contains argv "--allow-destroy") t e
  unfolding run
  run-Reports argv plan cs listed readable =
      let (t, sorted, reportable) = add_changes-IsOk empty cs readable tt in
      let (e, done, reports) = finish-Reports (contains argv "--allow-destroy") t reportable in
      (t, sorted, e, rw (listed, sorted) done, reports)
