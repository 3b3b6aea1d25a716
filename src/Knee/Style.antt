-- ===== src/Knee/Style.antt =====
-- sweep/mkcharts.py: the colours and the font.
use raft_tests.Prelude.{String}

abbrev pub surf : String
surf = "#fcfcfb"

abbrev pub ink : String
ink = "#0b0b0b"

abbrev pub ink2 : String
ink2 = "#52514e"

abbrev pub muted : String
muted = "#898781"

abbrev pub grid : String
grid = "#e1e0d9"

abbrev pub axis : String
axis = "#c3c2b7"

abbrev pub band : String
band = "#f0efec"

abbrev pub c1 : String
c1 = "#2a78d6"

abbrev pub c2 : String
c2 = "#eb6834"

abbrev pub c3 : String
c3 = "#1baf7a"

abbrev pub c4 : String
c4 = "#b5179e"

abbrev pub c5 : String
c5 = "#6d28d9"

abbrev pub c6 : String
c6 = "#991b1b"

abbrev pub font : String
font = "system-ui,-apple-system,\"Segoe UI\",sans-serif"
