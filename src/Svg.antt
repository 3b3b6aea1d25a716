-- ===== src/Svg.antt =====
-- The f-strings of the chart scripts that build SVG elements.
use raft_tests.Prelude.{String, ◌<>◌, List, [], ◌∷◌}

-- name="value" for each attribute, in order, with a space before each
abbrev pub attributes : List (String × String) → String
attributes [] = ""
attributes ((name, value) ∷ rest) = " " <> name <> "=\"" <> value <> "\"" <> attributes rest

-- an element with nothing inside
abbrev pub element : String → List (String × String) → String
element name values = "<" <> name <> attributes values <> "/>"

abbrev pub text : List (String × String) → String → String
text values body = "<text" <> attributes values <> ">" <> body <> "</text>"
