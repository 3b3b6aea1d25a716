-- ===== src/Python/Number.antt =====
-- `int(text)` and the decimal notation of numbers.
use raft_tests.Prelude.{
  ℕ, zero, suc, ◌+◌, ◌-◌, ◌*◌, ◌/◌, ◌%◌, ◌≡◌, refl, Bool, true, false, not, ◌&&◌, Option, none,
  some, [], ◌∷◌, ◌==◌, if◌then◌else◌, String, ◌<>◌, ltb, leb, string_eq, nat_eq, int_eq, ℤ, pos,
  negsuc, sub_ℕ,
}
use raft_tests.Python.Text.{Text, strip, codes}

is_digit : ℕ → Bool
is_digit c = leb b'0' c && leb c b'9'

-- Decimal digits, with single underscores between them. The flag says that a digit has to come.
digits_value : Bool → ℕ → Text → Option ℕ
unfolding is_digit
digits_value true acc [] = none
digits_value false acc [] = some acc
digits_value wanted acc (c ∷ cs) =
    let more = digits_value false (acc * 10 + (c - b'0')) cs in
    let next = digits_value true acc cs in
    if is_digit c then more else if c == b'_' && not wanted then next else none

abbrev signed : Bool → Option ℕ → Option ℤ
signed negative none = none
signed false (some n) = some (pos n)
signed true (some n) = some (sub_ℕ 0 n)

with_sign : Text → Option ℤ
unfolding digits_value
with_sign [] = none
with_sign (c ∷ cs) =
    if c == b'-'
    then signed true (digits_value true 0 cs)
    else if c == b'+'
    then signed false (digits_value true 0 cs)
    else signed false (digits_value true 0 (c ∷ cs))

-- `int(s)`, for ASCII text; `none` is the ValueError.
unfoldable pub int_of : Text → Option ℤ
unfolding with_sign strip
int_of s = with_sign (strip s)

abbrev digit : ℕ → String
digit zero = "0"
digit (suc zero) = "1"
digit (suc (suc zero)) = "2"
digit (suc (suc (suc zero))) = "3"
digit (suc (suc (suc (suc zero)))) = "4"
digit (suc (suc (suc (suc (suc zero))))) = "5"
digit (suc (suc (suc (suc (suc (suc zero)))))) = "6"
digit (suc (suc (suc (suc (suc (suc (suc zero))))))) = "7"
digit (suc (suc (suc (suc (suc (suc (suc (suc zero)))))))) = "8"
digit _ = "9"

-- Each round takes one digit, so a number is fuel enough for itself.
show_rounds : ℕ → ℕ → String
show_rounds zero n = digit n
show_rounds (suc f) n =
    let front = show_rounds f (n / 10) in if ltb n 10 then digit n else front <> digit (n % 10)

unfoldable pub show_nat : ℕ → String
unfolding show_rounds
show_nat n = show_rounds n n

unfoldable pub show_int : ℤ → String
unfolding show_nat
show_int (pos n) = show_nat n
show_int (negsuc n) = "-" <> show_nat (n + 1)

-- Groups of three digits behind the first; each round takes one group, so a number is fuel enough.
comma_rounds : ℕ → ℕ → String
unfolding show_nat
comma_rounds zero n = show_nat n
comma_rounds (suc f) n =
    let front = comma_rounds f (n / 1000) in
    let rest = n % 1000 in
    let padding : String = if ltb rest 10 then "00" else if ltb rest 100 then "0" else "" in
    if ltb n 1000 then show_nat n else front <> "," <> padding <> show_nat rest

-- `f"{n:,}"`
unfoldable pub show_commas : ℤ → String
unfolding comma_rounds
show_commas (pos n) = comma_rounds n n
show_commas (negsuc n) = "-" <> comma_rounds (n + 1) (n + 1)

commas :
    (show_commas (pos 1000000) ≡ "1,000,000")
    × (show_commas (negsuc 12004) ≡ "-12,005")
    × (show_commas (pos 999) ≡ "999")
unfolding show_commas show_nat
commas = (refl, refl, refl)

parses :
    (int_of (codes " 12_5\t") ≡ some (pos 125))
    × (int_of (codes "-7") ≡ some (negsuc 6))
    × (int_of (codes "1.5") ≡ none)
    × (int_of (codes "") ≡ none)
    × (int_of (codes "1__2") ≡ none)
    × (show_nat 10234 ≡ "10234")
unfolding int_of show_nat nat_eq
parses = (refl, refl, refl, refl, refl, refl)
