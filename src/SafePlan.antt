-- ===== src/SafePlan.antt =====
-- deploy/assert-safe-plan.py: the plan's changes are sorted into three lists, printed, and refused if one
-- would delete anything. The JSON parser is a parameter: its result enters as a message, for
-- a text that does not parse, or a value. So is `str_of`, Python's text of a value inside an f-string.
pub mod Values
mod Tests
pub mod Lists
pub mod Sound
pub mod Status
use raft_tests.Prelude.{
  ℕ, ◌⊎◌, inl, inr, Bool, not, ◌&&◌, List, [], ◌∷◌, ◌++◌, map, arith, contains, if◌then◌else◌,
  String, ◌<>◌, Result, ok, err, ◌>>=◌, map_result, ltb, length, string_eq, nat_eq, int_eq,
  int_laws,
}
use raft_tests.Python.Number.{show_nat}
use raft_tests.SafePlan.Values.{
  Json, Items, Fields, nil, end, str, arr, obj, get_or, is_in, iterate,
}

-- `created, updated, destroyed`
pub record Sets : Type 0 where
  pub created : List Json
  pub updated : List Json
  pub destroyed : List (Json × Json)

abbrev pub empty : Sets
empty = record { created = []; updated = []; destroyed = [] }

-- `change.get("change", {}).get("actions", [])`
unfoldable pub actions_of : Json → Result Json
actions_of change = do inner ← get_or "change" (obj end) change; get_or "actions" (arr nil) inner

-- `change.get("address", "?")`
unfoldable pub address_of : Json → Result Json
address_of = get_or "address" (str "?")

-- the second `elif` branch
unfoldable pub add_updated : Sets → Json → Json → Result Sets
add_updated s addr actions = do
  updates ← is_in "update" actions
  ok (if updates then record s { updated = s.updated ++ (addr ∷ []) } else s)

-- the first `elif` branch
unfoldable pub add_kept : Sets → Json → Json → Result Sets
add_kept s addr actions = do
  creates ← is_in "create" actions
  let create = ok (record s { created = s.created ++ (addr ∷ []) })
  if creates then create else add_updated s addr actions

unfoldable pub add_change : Sets → Json → Result Sets
add_change s change = do
  actions ← actions_of change
  addr ← address_of change
  deletes ← is_in "delete" actions
  let destroy = ok (record s { destroyed = s.destroyed ++ ((addr, actions) ∷ []) })
  if deletes then destroy else add_kept s addr actions

-- the loop over the changes
unfoldable pub add_changes : Sets → List Json → Result Sets
add_changes s [] = ok s
add_changes s (change ∷ rest) = do s' ← add_change s change; add_changes s' rest

unfoldable pub changes_of : Json → Result (List Json)
changes_of plan = do found ← get_or "resource_changes" (arr nil) plan; iterate found

-- The script's end: its status and what it printed on each stream.
pub record Exit : Type 0 where
  pub status : ℕ
  pub out : List String
  pub complaint : List String

abbrev refused : Sets → List String → Exit
refused s printed = record {
  status = 1;
  out = printed;
  complaint =
      ("\nassert-safe-plan: REFUSING -- "
        <> show_nat (length s.destroyed)
        <> " resource(s) would be "
        <> "destroyed or replaced.\nRun the apply interactively and read the plan "
        <> "yourself, or pass --allow-destroy if this is a deliberate teardown.")
      ∷ [];
}

abbrev passed : Sets → List String → Exit
passed s printed = record {
  status = 0;
  out =
      printed
      ++ (("\nassert-safe-plan: OK -- "
            <> show_nat (length s.created)
            <> " to add, "
            <> show_nat (length s.updated)
            <> " to change, "
            <> show_nat (length s.destroyed)
            <> " to destroy.")
          ∷ []);
  complaint = [];
}

module _ (str_of : Json → String) where
  unfoldable pub kind_line : Json × Json → Result String
  kind_line (addr, actions) = do
    creates ← is_in "create" actions
    ok ("  " <> (if creates then "replace" else "destroy") <> " " <> str_of addr)

  unfoldable pub finish : Bool → Sets → Result Exit
  unfolding kind_line
  finish allow_destroy s = do
    kinds ← map_result kind_line s.destroyed
    let printed =
        map (λ addr. "  create  " <> str_of addr) s.created
        ++ (map (λ addr. "  update  " <> str_of addr) s.updated ++ kinds)
    let refuse = ltb 0 (length s.destroyed) && not allow_destroy
    ok (if refuse then refused s printed else passed s printed)

  unfoldable pub run : List String → String ⊎ Json → Result Exit
  unfolding finish
  run argv (inl exc) = ok (record {
    status = 2;
    out = [];
    complaint = ("assert-safe-plan: could not parse the plan JSON: " <> exc) ∷ [];
  })
  run argv (inr plan) = do
    changes ← changes_of plan
    s ← add_changes empty changes
    finish (contains argv "--allow-destroy") s

-- The process's exit status; Python exits with 1 on an exception that nothing catches.
abbrev pub exit_status : Result Exit → ℕ
exit_status (ok e) = e.status
exit_status (err _) = 1
