-- ===== src/Knee/Clash.antt =====
-- sweep/mkcharts.py: the table of round trips and the check that no two of those present share a colour.
pub mod Laws
mod Tests
use raft_tests.Prelude.{
  Bool, some, List, [], ◌∷◌, map, arith, contains, String, ◌<>◌, Result, ok, err, system_exit, ltb,
  length, keep, string_eq, option_eq, pair_eq, list_eq, nat_eq, int_eq, int_laws,
}
use raft_tests.Python.Dict.{Dict, append_at, keys}
use raft_tests.Knee.Style.{c1, c2, c3, c4, c5, c6, ink2}
use raft_tests.Knee.Rows.{Product, Entry}

-- `(product, label, colour)`
abbrev pub Series : Type 0
Series = String × String × String

-- `RT`
unfoldable pub round_trips : List Series
round_trips =
    ("sequencer", "synchronous ack", c1)
    ∷ ("sequencer-direct", "direct to node", c4)
    ∷ ("sequencer-relay", "relay (gRPC)", c2)
    ∷ ("sequencer-output-brpc", "output: brpc", c3)
    ∷ ("sequencer-output-grpc", "output: gRPC", c4)
    ∷ ("sequencer-output-websocket", "output: WebSocket", c5)
    ∷ ("sequencer-fix", "FIX (journal)", c1)
    ∷ ("sequencer-fix-inline", "FIX (inline)", c2)
    ∷ ("sequencer-quickfix", "FIX (QuickFIX)", c6)
    ∷ ("braft-multi", "braft (raw ops)", ink2)
    ∷ []

-- `[(n, lab, c) for n, lab, c in RT if n in D]`
unfoldable pub present : Dict Product (List Entry) → List Series → List Series
present d rt = keep (λ s. contains (keys d) (some (s.0))) rt

-- `_by_colour`
unfoldable pub by_colour : Dict String (List String) → List Series → Dict String (List String)
by_colour acc [] = acc
by_colour acc ((_, lab, c) ∷ rest) = by_colour (append_at c lab acc) rest

abbrev pub is_clash : String × List String → Bool
is_clash (_, labs) = ltb 1 (length labs)

-- `_clashes`
unfoldable pub clashes : List Series → Dict String (List String)
clashes rt_present = keep is_clash (by_colour [] rt_present)

-- `sep.join(parts)`
joined : String → List String → String
joined sep [] = ""
joined sep (s ∷ []) = s
joined sep (s ∷ t ∷ rest) = let more = joined sep (t ∷ rest) in s <> sep <> more

-- the text that the script exits with
unfoldable pub clash_text : Dict String (List String) → String
unfolding joined
clash_text found =
    "palette clash: these series would be drawn in one colour -- "
    <> joined "; " (map (λ cl. cl.0 <> ": " <> joined ", " (cl.1)) found)
    <> "\nGive one of them a new hue and re-run validate_palette.py."

-- `rt_present`, where nothing clashes
unfoldable pub check_colours : Dict Product (List Entry) → Result (List Series)
check_colours d =
    let rt_present = present d round_trips in
    elim (clashes rt_present) [
      | [] ↦ ok rt_present
      | cl ∷ found ↦ err (system_exit (clash_text (cl ∷ found)))
    ]
