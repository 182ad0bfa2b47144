-- ===== src/Common/Decimal.antt =====
-- Decimal text, as strconv.Itoa and the verb %d print it, and as strconv.ParseInt reads it.
use Prim.Native.Nat.{ℕ, zero, suc, ◌+◌, ◌-◌, ◌*◌, ◌/◌, ◌%◌, ◌^◌}
use mathlib.Core.Bool.{Bool, true, false, ◌&&◌}
use mathlib.Core.Option.{Option, none, some}
use mathlib.Core.List.{[], ◌∷◌, ◌++◌}
use yex_judge.Common.Tests.{ltb, leb, ◌==◌, if◌then◌else◌}
use yex_judge.Common.Texts.{Text}
use yex_judge.Common.Int.{ℤ, pos, negsuc}

-- Fuel `n + 1` is enough for `n`, since each round divides by ten.
digits : ℕ → ℕ → Text
digits zero n = []
digits (suc f) n =
    let front = digits f (n / 10) in
    if ltb n 10 then (b'0' + n) ∷ [] else front ++ (b'0' + n % 10) ∷ []

unfoldable pub decimal : ℕ → Text
unfolding digits
decimal n = digits (suc n) n

unfoldable pub itoa : ℤ → Text
unfolding decimal
itoa (pos n) = decimal n
itoa (negsuc n) = b'-' ∷ decimal (n + 1)

abbrev digit_of : ℕ → Option ℕ
digit_of c = if leb b'0' c && leb c b'9' then some (c - b'0') else none

-- The value of decimal digits behind `n`.
unfoldable pub read_digits : ℕ → Text → Option ℕ
read_digits n [] = some n
read_digits n (c ∷ s) = elim (digit_of c) [ none ↦ none | some d ↦ read_digits (n * 10 + d) s ]

-- The sign and the digits: a negative number is at most 2 ^ (bits - 1), another below it.
abbrev pub signed : ℕ → Bool → ℕ → Option ℤ
signed bits true n =
    if ltb (2 ^ (bits - 1)) n then none else if n == 0 then some (pos 0) else some (negsuc (n - 1))
signed bits false n = if ltb n (2 ^ (bits - 1)) then some (pos n) else none

abbrev pub unsigned_text : Text → Option ℕ
unsigned_text [] = none
unsigned_text (c ∷ s) = read_digits 0 (c ∷ s)

-- strconv.ParseInt in base 10.
unfoldable pub parse_int : ℕ → Text → Option ℤ
unfolding read_digits
parse_int bits [] = none
parse_int bits (c ∷ s) =
    if c == b'-'
    then elim (unsigned_text s) [ none ↦ none | some n ↦ signed bits true n ]
    else if c == b'+'
    then elim (unsigned_text s) [ none ↦ none | some n ↦ signed bits false n ]
    else elim (unsigned_text (c ∷ s)) [ none ↦ none | some n ↦ signed bits false n ]
