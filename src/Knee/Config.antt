-- ===== src/Knee/Config.antt =====
-- sweep/mkcharts.py: the table of the products' charts.
use raft_tests.Prelude.{String, List, [], ◌∷◌, pos}
use raft_tests.Knee.Product.{Config}

abbrev braft_config : Config
braft_config = record {
  xmax = 320000;
  xstep = 50000;
  yrange = (400, 1000000);
  yticks =
      pos 500 ∷ pos 700 ∷ pos 1000 ∷ pos 2000 ∷ pos 5000 ∷ pos 20000 ∷ pos 100000 ∷ pos 500000 ∷ [];
  comfort = pos 250000;
  markers = (pos 265000, "knee", pos 16) ∷ [];
  title = "braft — flat to 250k on c7a, then a cliff";
  line2 = "p50 641us at 10k to 1291us at 250k; 280k collapses. Earlier c6i fleet turned at ~160k.";
}

abbrev openraft_config : Config
openraft_config = record {
  xmax = 150000;
  xstep = 25000;
  yrange = (700, 9000);
  yticks = pos 800 ∷ pos 1000 ∷ pos 1500 ∷ pos 2000 ∷ pos 3000 ∷ pos 5000 ∷ pos 8000 ∷ [];
  comfort = pos 100000;
  markers = (pos 110000, "drops climb", pos 16) ∷ [];
  title = "openraft — still no cliff, but a much lower slope on c7a";
  line2 = "Latency never cliffs; the dashed line is where the rig's own drops start climbing.";
}

abbrev aeron_config : Config
aeron_config = record {
  xmax = 650000;
  xstep = 100000;
  yrange = (450, 4000);
  yticks = pos 500 ∷ pos 600 ∷ pos 800 ∷ pos 1000 ∷ pos 1500 ∷ pos 2000 ∷ pos 3000 ∷ [];
  comfort = pos 250000;
  markers = (pos 270000, "knee", pos 16) ∷ [];
  title = "aeron — still the flattest curve, but the ceiling moved down on c7a";
  line2 = "A 10x change in offered rate, 25k to 250k, moves p50 by 16 µs; 290k steps to 2.1 ms.";
}

abbrev sequencer_config : Config
sequencer_config = record {
  xmax = 170000;
  xstep = 25000;
  yrange = (400, 3000000);
  yticks = pos 500 ∷ pos 1000 ∷ pos 2000 ∷ pos 5000 ∷ pos 50000 ∷ pos 500000 ∷ pos 2000000 ∷ [];
  comfort = pos 130000;
  markers = (pos 137000, "knee", pos 16) ∷ [];
  title = "sequencer — flat to ~130k once the gateway batches proposals";
  line2 = "p50 572us at 10k to 1430us at 130k; 145k is the first rate that breaks.";
}

abbrev sequencer_relay_config : Config
sequencer_relay_config = record {
  xmax = 200000;
  xstep = 25000;
  yrange = (500, 20000000);
  yticks =
      pos 1000 ∷ pos 5000 ∷ pos 50000 ∷ pos 200000 ∷ pos 1000000 ∷ pos 5000000 ∷ pos 20000000 ∷ [];
  comfort = pos 100000;
  markers = (pos 112000, "ceiling", pos 16) ∷ [];
  title = "sequencer-relay — sub-2ms through 100k, but a lower ceiling than the old design";
  line2 =
      "p50 649us-1.3ms from 10k to 100k, beating phase 1's own ack latency; cliff moved from 130k to 115k.";
}

abbrev sequencer_direct_config : Config
sequencer_direct_config = record {
  xmax = 260000;
  xstep = 50000;
  yrange = (400, 12000);
  yticks = pos 500 ∷ pos 700 ∷ pos 1000 ∷ pos 2000 ∷ pos 3000 ∷ pos 5000 ∷ pos 10000 ∷ [];
  comfort = pos 250000;
  markers = [];
  title = "sequencer-direct — submitting straight to the node, no input gateway";
  line2 =
      "p50 508us at 10k to 727us at 100k, still 1.6ms at 250k; the gateway arm knees at ~55-70k.";
}

abbrev sequencer_output_brpc_config : Config
sequencer_output_brpc_config = record {
  xmax = 520000;
  xstep = 100000;
  yrange = (500, 200000);
  yticks = pos 500 ∷ pos 1000 ∷ pos 2000 ∷ pos 5000 ∷ pos 10000 ∷ pos 50000 ∷ pos 200000 ∷ [];
  comfort = pos 150000;
  markers = (pos 312000, "knee", pos 16) ∷ [];
  title = "sequencer-output-brpc — brpc Streaming RPC, clean to 300k";
  line2 =
      "Five client boxes, one gateway, per-client topics. 300k at 1484us with zero drops; collapses by 325k.";
}

abbrev sequencer_output_grpc_config : Config
sequencer_output_grpc_config = record {
  xmax = 520000;
  xstep = 100000;
  yrange = (500, 200000);
  yticks = pos 500 ∷ pos 1000 ∷ pos 2000 ∷ pos 5000 ∷ pos 10000 ∷ pos 50000 ∷ pos 200000 ∷ [];
  comfort = pos 175000;
  markers = (pos 312000, "knee", pos 16) ∷ [];
  title = "sequencer-output-grpc — real gRPC streaming, clean to 300k";
  line2 =
      "Carries 300k with zero drops at 1489us; by 325k it has gone. Achieved plateaus near 320k however much more is offered.";
}

abbrev exchange_fix_config : Config
exchange_fix_config = record {
  xmax = 520000;
  xstep = 100000;
  yrange = (700, 5000000);
  yticks = pos 1000 ∷ pos 3000 ∷ pos 10000 ∷ pos 40000 ∷ pos 150000 ∷ pos 600000 ∷ pos 4000000 ∷ [];
  comfort = pos 150000;
  markers = (pos 150000, "last clean", pos 150) ∷ (pos 195000, "ceiling", pos 40) ∷ [];
  title = "exchange-fix - a CLOB on sequencer, over FIX 4.4";
  line2 =
      "Full rate to 150k with zero drops, p50 1.4ms / p99 4.5ms. Hollow = offered rate not met.";
}

abbrev sequencer_fix_gen_config : Config
sequencer_fix_gen_config = record {
  xmax = 520000;
  xstep = 100000;
  yrange = (600, 200000);
  yticks = pos 700 ∷ pos 1000 ∷ pos 2000 ∷ pos 5000 ∷ pos 15000 ∷ pos 50000 ∷ pos 150000 ∷ [];
  comfort = pos 300000;
  markers = (pos 300000, "last clean", pos 150) ∷ [];
  title = "sequencer-fix-gen - the counter, 20 sessions across 2 gateways";
  line2 = "A deployment variant, not a comparable arm. Full rate to 300k; past it the rig drops.";
}

abbrev sequencer_fix_config : Config
sequencer_fix_config = record {
  xmax = 520000;
  xstep = 100000;
  yrange = (500, 200000);
  yticks = pos 500 ∷ pos 1000 ∷ pos 2000 ∷ pos 5000 ∷ pos 10000 ∷ pos 50000 ∷ pos 200000 ∷ [];
  comfort = pos 25000;
  markers = (pos 450000, "knee", pos 16) ∷ [];
  title = "sequencer-fix - FIX 4.4 from the journal, the furthest-reaching arm";
  line2 =
      "ONE gateway, five sessions, both directions. Zero drops through 400k -- further than any other arm -- and collapses by 500k.";
}

abbrev sequencer_quickfix_config : Config
sequencer_quickfix_config = record {
  xmax = 520000;
  xstep = 100000;
  yrange = (500, 200000);
  yticks = pos 500 ∷ pos 1000 ∷ pos 2000 ∷ pos 5000 ∷ pos 10000 ∷ pos 50000 ∷ pos 200000 ∷ [];
  comfort = pos 100000;
  markers = (pos 162000, "knee", pos 16) ∷ [];
  title = "sequencer-quickfix - FIX 4.4 on QuickFIX's session layer";
  line2 =
      "Carries 125k at 1127us, collapses by 175k, plateaus near 158k -- against 250k+ on the hffix arm.";
}

abbrev braft_multi_config : Config
braft_multi_config = record {
  xmax = 520000;
  xstep = 100000;
  yrange = (500, 200000);
  yticks = pos 500 ∷ pos 1000 ∷ pos 2000 ∷ pos 5000 ∷ pos 10000 ∷ pos 50000 ∷ pos 200000 ∷ [];
  comfort = pos 125000;
  markers = (pos 212000, "knee", pos 16) ∷ [];
  title = "braft-multi - bare braft, no sequencer, five client boxes";
  line2 =
      "One raft op per request, unbatched: 200k at 1.7ms, collapsing by 225k. The gateways pass it because they batch.";
}

abbrev sequencer_fix_inline_config : Config
sequencer_fix_inline_config = record {
  xmax = 520000;
  xstep = 100000;
  yrange = (500, 200000);
  yticks = pos 500 ∷ pos 1000 ∷ pos 2000 ∷ pos 5000 ∷ pos 10000 ∷ pos 50000 ∷ pos 200000 ∷ [];
  comfort = pos 75000;
  markers = (pos 312000, "knee", pos 16) ∷ [];
  title = "sequencer-fix-inline - FIX 4.4, answered from the propose receipt";
  line2 =
      "Faster below ~100k and worse above, and it knees at 300k where the journal path runs to 400k: one send per reply, uncoalesced.";
}

abbrev sequencer_output_websocket_config : Config
sequencer_output_websocket_config = record {
  xmax = 520000;
  xstep = 100000;
  yrange = (500, 200000);
  yticks = pos 500 ∷ pos 1000 ∷ pos 2000 ∷ pos 5000 ∷ pos 10000 ∷ pos 50000 ∷ pos 200000 ∷ [];
  comfort = pos 150000;
  markers = (pos 312000, "knee", pos 16) ∷ [];
  title = "sequencer-output-websocket — Boost.Beast WebSocket, clean to 300k";
  line2 =
      "Nagle off (Beast does not set it; brpc and gRPC do). The p90 that used to leave the other two above 150k was that, not the writer thread.";
}

-- `CFG`, in its order
unfoldable pub configs : List (String × Config)
configs =
    ("braft", braft_config)
    ∷ ("openraft", openraft_config)
    ∷ ("aeron", aeron_config)
    ∷ ("sequencer", sequencer_config)
    ∷ ("sequencer-relay", sequencer_relay_config)
    ∷ ("sequencer-direct", sequencer_direct_config)
    ∷ ("sequencer-output-brpc", sequencer_output_brpc_config)
    ∷ ("sequencer-output-grpc", sequencer_output_grpc_config)
    ∷ ("exchange-fix", exchange_fix_config)
    ∷ ("sequencer-fix-gen", sequencer_fix_gen_config)
    ∷ ("sequencer-fix", sequencer_fix_config)
    ∷ ("sequencer-quickfix", sequencer_quickfix_config)
    ∷ ("braft-multi", braft_multi_config)
    ∷ ("sequencer-fix-inline", sequencer_fix_inline_config)
    ∷ ("sequencer-output-websocket", sequencer_output_websocket_config)
    ∷ []
