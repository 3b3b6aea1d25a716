-- ===== src/Python/Text.antt =====
-- Texts that the scripts walk, as lists of code points: `str.strip`, `str.split` and `str.startswith`.
use raft_tests.Prelude.{
  ℕ, ◌≡◌, refl, ◌≢◌, Bool, true, false, ◌&&◌, ◌||◌, List, [], ◌∷◌, ◌++◌, arith, ◌==◌, if◌then◌else◌,
  String, leb, string_eq, nat_eq, int_eq,
}
use Prim.Native.Char.{Char, code, char, nul}
use Prim.Native.Nat.{Ordering, lt, compare}

abbrev pub Text : Type 0
Text = List ℕ

-- The code points of a native text. `String` has its own `[]` and `∷`.
abbrev pub codes : String → Text
codes String.[] = []
codes (String.◌∷◌ c s) = code c ∷ codes s

below_surrogates : (n : ℕ) (o : Ordering) → compare n 55296 ≡ o → Char
below_surrogates n lt e = char n (rw e tt)
below_surrogates n _ e = nul

-- A code point below the surrogates as a character; the scripts' texts hold no other.
char_of : ℕ → Char
unfolding below_surrogates
char_of n = below_surrogates n (compare n 55296) refl

-- The native text of code points.
unfoldable pub string_of : Text → String
unfolding char_of
string_of [] = String.[]
string_of (c ∷ cs) = String.◌∷◌ (char_of c) (string_of cs)

-- ASCII white space, as `str.strip` and `int` skip it.
unfoldable pub is_space : ℕ → Bool
is_space c = (leb 9 c && leb c 13) || (leb 28 c && leb c 32)

unfoldable pub lstrip : Text → Text
unfolding is_space
lstrip [] = []
lstrip (c ∷ cs) = if is_space c then lstrip cs else c ∷ cs

-- Drops white space at the end: a character stays if it or one behind it is not white space.
unfoldable pub rstrip : Text → Text
unfolding is_space
rstrip [] = []
rstrip (c ∷ cs) = elim (rstrip cs) [ [] ↦ if is_space c then [] else c ∷ [] | d ∷ ds ↦ c ∷ d ∷ ds ]

unfoldable pub strip : Text → Text
unfolding lstrip rstrip
strip s = lstrip (rstrip s)

-- The word that is being read, put in front of the first of the words behind it.
abbrev pub push : ℕ → List Text → List Text
push c [] = (c ∷ []) ∷ []
push c (w ∷ ws) = (c ∷ w) ∷ ws

-- `s.split(sep)` for a separator of one character; `"".split(sep)` is `[""]`.
unfoldable pub split : ℕ → Text → List Text
split sep [] = [] ∷ []
split sep (c ∷ cs) = let rest = split sep cs in if c == sep then [] ∷ rest else push c rest

-- `sep.join(words)`
unfoldable pub join : ℕ → List Text → Text
join sep [] = []
join sep (w ∷ []) = w
join sep (w ∷ v ∷ vs) = w ++ (sep ∷ join sep (v ∷ vs))

unfoldable pub starts_with : Text → Text → Bool
starts_with s [] = true
starts_with [] (_ ∷ _) = false
starts_with (c ∷ s) (p ∷ ps) = c == p && starts_with s ps

pub split-ne-nil : (sep : ℕ) (s : Text) → split sep s ≢ []
unfolding split
split-ne-nil sep [] h = cc
split-ne-nil sep (c ∷ cs) h = ground (arith, split-ne-nil sep cs)

join-nil-cons : (sep : ℕ) (ws : List Text) → ws ≢ [] → join sep ([] ∷ ws) ≡ sep ∷ join sep ws
unfolding join
join-nil-cons sep [] h = absurd (h refl)
join-nil-cons sep (w ∷ ws) h = refl

join-push : (sep c : ℕ) (ws : List Text) → ws ≢ [] → join sep (push c ws) ≡ c ∷ join sep ws
unfolding join
join-push sep c [] h = absurd (h refl)
join-push sep c (w ∷ []) h = refl
join-push sep c (w ∷ v ∷ vs) h = refl

-- Splitting loses nothing.
pub join-split : (sep : ℕ) (s : Text) → join sep (split sep s) ≡ s
unfolding split
join-split sep [] = unfold join in refl
join-split sep (c ∷ cs) =
    let some_word = split-ne-nil sep cs in
    ground (
      arith,
      join-split sep cs,
      join-nil-cons sep (split sep cs) some_word,
      join-push sep c (split sep cs) some_word,
    )
