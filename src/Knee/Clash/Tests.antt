-- ===== src/Knee/Clash/Tests.antt =====
-- sweep/mkcharts.py: the check of the colours on small inputs.
use raft_tests.Prelude.{
  ◌≡◌, refl, ◌↔◌, some, List, [], ◌∷◌, map, String, ok, err, system_exit, string_dec, string_eq,
  option_dec, option_eq, pair_eq, list_eq, nat_eq, int_eq,
}
use raft_tests.Python.Dict.{Dict, keys, append_at}
use raft_tests.Knee.Rows.{Product, Entry}
use raft_tests.Knee.Clash.{round_trips, present, check_colours, clashes, by_colour, clash_text}
use raft_tests.Knee.Clash.Laws.{ColoursDiffer, check_colours_iff}

abbrev with_products : List String → Dict Product (List Entry)
with_products names = map (λ p. (some p, [])) names

abbrev gateways : Dict Product (List Entry)
gateways = with_products ("sequencer-quickfix" ∷ "sequencer-relay" ∷ "aeron" ∷ "sequencer" ∷ [])

-- the ack path and the FIX journal are both drawn in the first blue
shared_blue :
    check_colours (with_products ("sequencer-fix" ∷ "sequencer" ∷ []))
    ≡ err (
        system_exit
          "palette clash: these series would be drawn in one colour -- #2a78d6: synchronous ack, FIX (journal)\nGive one of them a new hue and re-run validate_palette.py.")
unfolding check_colours clashes by_colour clash_text present round_trips keys append_at string_eq
    string_dec option_eq option_dec
shared_blue = refl

check_colours_iff_example :
    (check_colours gateways ≡ ok (present gateways round_trips))
    ↔ ColoursDiffer (present gateways round_trips)
check_colours_iff_example = check_colours_iff gateways
