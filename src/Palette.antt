-- ===== src/Palette.antt =====
-- sweep/validate_palette.py: colours compared in pairs, as seen with normal vision and by three kinds of
-- dichromats. Floats are the interface `Float`; a printed line is the values that its f-string interpolates.
pub mod Colour
pub mod Laws
pub mod Passing
pub mod Total
mod Tests
use Prim.Native.Nat.{max}
use raft_tests.Prelude.{
  ℕ, Bool, not, none, some, List, [], ◌∷◌, ◌++◌, map, arith, if◌then◌else◌, Result, ok, err,
  key_error, ◌>>=◌, string_eq, option_eq, pair_eq, list_eq, nat_eq, int_eq, int_laws,
}
use raft_tests.Python.Text.{Text, codes, split, strip}
use raft_tests.Python.Dict.{Dict, get, insert, lookup}
use raft_tests.Python.Float.{Float}
use raft_tests.Palette.Colour.{
  Rgb, hex_to_linear, delta_e, simulate, contrast, Kind, protan, deutan, tritan,
}

-- `(name, colour)`
abbrev pub Named : Type 0
Named = Text × Text

-- `(verdict, sev)`
pub data Verdict : Type 0 where
  fail_normal fail_cvd warn_labels pass : Verdict

abbrev pub severity : Verdict → ℕ
severity fail_normal = 2
severity fail_cvd = 2
severity warn_labels = 1
severity pass = 0

-- `itertools.combinations(colours, 2)`
unfoldable pub combinations {ℓ} : {A : Type ℓ} → List A → List (A × A)
combinations [] = []
combinations (x ∷ xs) = map (λ y. (x, y)) xs ++ combinations xs

module _ {ℓ} (F : Type ℓ) ⦃f : Float F⦄ where
  abbrev pub normal_floor : F
  normal_floor = f.lit 150 1

  abbrev pub cvd_target : F
  cvd_target = f.lit 80 1

  abbrev pub cvd_floor : F
  cvd_floor = f.lit 60 1

  -- the chain of tests on `normal` and `worst_cvd`
  unfoldable pub verdict : F → F → Verdict
  verdict normal worst_cvd =
      if f.lt normal normal_floor
      then fail_normal
      else if f.lt worst_cvd cvd_floor
      then fail_cvd
      else if f.lt worst_cvd cvd_target
      then warn_labels
      else pass

-- A printed line of the first table: the pair's names, the four distances and the verdict.
abbrev pub PairLine {ℓ} : Type ℓ → Type ℓ
PairLine F = Text × Text × F × F × F × F × Verdict

module _ {ℓ} {F : Type ℓ} ⦃f : Float F⦄ where
  -- `min` of two: the first unless the second is below it
  abbrev pub least : F → F → F
  least a b = if f.lt b a then b else a

  -- `normal`, the three entries of `sims` and the verdict of a pair
  unfoldable pub judge : Rgb F → Rgb F → F × F × F × F × Verdict
  judge a b =
      let normal = delta_e a b in
      let p = delta_e (simulate a protan) (simulate b protan) in
      let d = delta_e (simulate a deutan) (simulate b deutan) in
      let t = delta_e (simulate a tritan) (simulate b tritan) in
      (normal, p, d, t, verdict F normal (least (least p d) t))

  -- `{name: hex_to_linear(h) for name, h in colours}`: of two equal names the later colour counts.
  unfoldable pub linear : Dict Text (Rgb F) → List Named → Result (Dict Text (Rgb F))
  linear lin [] = ok lin
  linear lin ((name, h) ∷ colours) = do c ← hex_to_linear h; linear (insert name c lin) colours

  -- `lin[name]`; every name of a pair has its entry
  abbrev pub at : Dict Text (Rgb F) → Text → Result (Rgb F)
  at lin name = elim (get name lin) [ none ↦ err (key_error "") | some c ↦ ok c ]

  -- the loop over the pairs: the lines, and `worst_fail` at its end
  unfoldable pub check_pairs :
      Dict Text (Rgb F) → List (Named × Named) → ℕ → Result (List (PairLine F) × ℕ)
  check_pairs lin [] worst = ok ([], worst)
  check_pairs lin (((na, _), (nb, _)) ∷ pairs) worst = do
    a ← at lin na
    b ← at lin nb
    let (normal, p, d, t, v) = judge a b
    rest ← check_pairs lin pairs (max worst (severity v))
    ok ((na, nb, normal, p, d, t, v) ∷ rest.0, rest.1)

  -- A line of the second table: the contrast, and whether it is marked.
  unfoldable pub contrast_lines :
      Dict Text (Rgb F) → Rgb F → List Named → Result (List (Text × Text × F × Bool))
  contrast_lines lin surf [] = ok []
  contrast_lines lin surf ((name, h) ∷ colours) = do
    c ← at lin name
    let ratio = contrast c surf
    rest ← contrast_lines lin surf colours
    ok ((name, h, ratio, not (f.le (f.lit 30 1) ratio)) ∷ rest)

  -- The lines of both tables and `worst_fail`, which is the exit status.
  unfoldable pub check :
      List Named → Text → Result (List (PairLine F) × List (Text × Text × F × Bool) × ℕ)
  check colours surface = do
    lin ← linear [] colours
    pairs ← check_pairs lin (combinations colours) 0
    surf ← hex_to_linear surface
    ratios ← contrast_lines lin surf colours
    ok (pairs.0, ratios, pairs.1)

-- the palette that is checked without an argument
unfoldable pub own_palette : List Named
own_palette =
    (codes "C1 ack/fix-journal", codes "#2a78d6")
    ∷ (codes "C2 relay/fix-inline", codes "#eb6834")
    ∷ (codes "C3 output-brpc", codes "#1baf7a")
    ∷ (codes "C4 direct/output-grpc", codes "#b5179e")
    ∷ (codes "C5 output-websocket", codes "#6d28d9")
    ∷ (codes "quickfix (7th)", codes "#a16207")
    ∷ (codes "INK2 braft floor", codes "#52514e")
    ∷ []

-- `entries`, from `sys.argv[1:]`
unfoldable pub entries : List Text → List Named
unfolding own_palette
entries [] = own_palette
entries (arg ∷ _) = map (λ h. (strip h, strip h)) (split b',' arg)

unfoldable pub main {ℓ} : (F : Type ℓ) ⦃f : Float F⦄ → List Text → Result ℕ
main F argv = do done ← check {F = F} (entries argv) (codes "#fcfcfb"); ok done.2
