-- ===== src/Site/Numbers.antt =====
-- The numbers that extension/lib/site-scope.js reads from text: `Number(part)` for a label with no
-- dot in it, and `Number.parseInt(text, 16)`. The values are exact. Binary64 rounds the numerals of
-- more than 15 digits, which then stay above all that the callers compare with, unless a negative
-- exponent follows: of such a label, as in 1000000000000000000000001e-22, the two may differ.
use Prim.Native.Nat.{◌^◌}
use passwort_manager_yurr.Common.{
  ℕ, zero, suc, ◌+◌, ◌-◌, ◌*◌, ◌/◌, ◌%◌, Bool, true, false, ◌&&◌, ◌||◌, [], ◌∷◌, Option, none, some,
  Text, leb, ltb, ◌==◌, if◌then◌else◌, trim, trim_start,
}

-- The value of a digit, up to base 36.
abbrev pub digit : ℕ → Option ℕ
digit c =
    if leb b'0' c && leb c b'9'
    then some (c - b'0')
    else if leb b'a' c && leb c b'z'
    then some (c - b'a' + 10)
    else if leb b'A' c && leb c b'Z'
    then some (c - b'A' + 10)
    else none

abbrev pub digit_in : ℕ → ℕ → Option ℕ
digit_in base c = elim (digit c) [ none ↦ none | some d ↦ if ltb d base then some d else none ]

-- The longest run of digits in front, as a value, and what follows it.
unfoldable pub digits_from : ℕ → ℕ → Text → ℕ × Text
digits_from base acc [] = (acc, [])
digits_from base acc (c ∷ s) = elim (digit_in base c) [
  | none ↦ (acc, c ∷ s)
  | some d ↦ digits_from base (acc * base + d) s
]

-- At least one digit, then the rest.
unfoldable pub digits : ℕ → Text → Option (ℕ × Text)
unfolding digits_from
digits base [] = none
digits base (c ∷ s) = elim (digit_in base c) [ none ↦ none | some d ↦ some (digits_from base d s) ]

-- Digits to the end of the text.
abbrev pub whole : Option (ℕ × Text) → Option ℕ
whole none = none
whole (some (n, [])) = some n
whole (some (n, _ ∷ _)) = none

abbrev scale_down : ℕ → ℕ → Option ℕ
scale_down m k = if m % 10 ^ k == 0 then some (m / 10 ^ k) else none

exponent : ℕ → Text → Option ℕ
unfolding digits
exponent m [] = none
exponent m (c ∷ s) =
    if c == b'-'
    then elim (whole (digits 10 s)) [ none ↦ none | some k ↦ scale_down m k ]
    else if c == b'+'
    then elim (whole (digits 10 s)) [ none ↦ none | some k ↦ some (m * 10 ^ k) ]
    else elim (whole (digits 10 (c ∷ s))) [ none ↦ none | some k ↦ some (m * 10 ^ k) ]

abbrev after_mantissa : ℕ → Text → Option ℕ
after_mantissa m [] = some m
after_mantissa m (c ∷ s) = if c == b'e' || c == b'E' then exponent m s else none

decimal : Text → Option ℕ
unfolding exponent
decimal s = elim (digits 10 s) [ none ↦ none | some (m, rest) ↦ after_mantissa m rest ]

abbrev only_zero : Option ℕ → Option ℕ
only_zero none = none
only_zero (some n) = if n == 0 then some 0 else none

signed : Text → Option ℕ
unfolding decimal
signed [] = none
signed (c ∷ s) =
    if c == b'-' then only_zero (decimal s) else if c == b'+' then decimal s else decimal (c ∷ s)

prefixed : ℕ → Text → Text → Option ℕ
unfolding signed
prefixed x s all =
    if x == b'x' || x == b'X'
    then whole (digits 16 s)
    else if x == b'o' || x == b'O'
    then whole (digits 8 s)
    else if x == b'b' || x == b'B'
    then whole (digits 2 s)
    else signed all

number_trimmed : Text → Option ℕ
unfolding prefixed
number_trimmed [] = some 0
number_trimmed (c ∷ []) = signed (c ∷ [])
number_trimmed (c ∷ x ∷ s) = if c == b'0' then prefixed x s (c ∷ x ∷ s) else signed (c ∷ x ∷ s)

-- `Number(part)`, where that is an integer and not negative.
unfoldable pub number : Text → Option ℕ
unfolding number_trimmed trim
number s = number_trimmed (trim s)

abbrev skip_hex_prefix : Text → Text
skip_hex_prefix [] = []
skip_hex_prefix (c ∷ []) = c ∷ []
skip_hex_prefix (c ∷ x ∷ s) = if c == b'0' && (x == b'x' || x == b'X') then s else c ∷ x ∷ s

abbrev two_32 : ℕ
two_32 = 2 ^ 32

abbrev low_word : Bool → Option (ℕ × Text) → ℕ
low_word negative none = 0
low_word negative (some (n, _)) = if negative then (two_32 - n % two_32) % two_32 else n % two_32

hex_signed : Text → ℕ
unfolding digits
hex_signed [] = 0
hex_signed (c ∷ s) =
    if c == b'-'
    then low_word true (digits 16 (skip_hex_prefix s))
    else if c == b'+'
    then low_word false (digits 16 (skip_hex_prefix s))
    else low_word false (digits 16 (skip_hex_prefix (c ∷ s)))

-- The 32 bits on which `Number.parseInt(s, 16) & mask` works: those of 0 where it is not a number.
unfoldable pub parse_hex : Text → ℕ
unfolding hex_signed trim_start
parse_hex s = hex_signed (trim_start s)

-- `String(n)` for a natural number; the fuel is more than the digits.
unfoldable pub decimal_from : ℕ → ℕ → Text → Text
decimal_from zero n acc = acc
decimal_from (suc f) n acc =
    let rest = decimal_from f (n / 10) ((b'0' + n % 10) ∷ acc) in
    if ltb n 10 then (b'0' + n) ∷ acc else rest

unfoldable pub show_number : ℕ → Text
unfolding decimal_from
show_number n = decimal_from (suc n) n []
