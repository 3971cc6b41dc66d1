-- ===== src/Site/Local.antt =====
-- extension/lib/site-scope.js: `isLocalHost`.
use Prim.Native.Nat.{bit_and, ◌^◌}
use passwort_manager_yurr.Common.{
  ℕ, zero, suc, ◌/◌, Bool, true, false, ◌&&◌, ◌||◌, List, [], ◌∷◌, ◌++◌, Option, none, some, Text,
  codes, leb, ltb, ◌==◌, if◌then◌else◌, text_eq, starts_with, ends_with, has_char, strip_first,
  strip_last, split, split_first, drop, all, ◌-◌, ◌+◌, ◌%◌,
}
use passwort_manager_yurr.Platform.{Platform}
use passwort_manager_yurr.Site.Numbers.{number, parse_hex, show_number}

-- The address ranges of the last lines, over the four numbers.
unfoldable pub is_local_range : ℕ → ℕ → Bool
is_local_range a b =
    a == 10
    || a == 127
    || a == 172 && leb 16 b && leb b 31
    || a == 192 && b == 168
    || a == 169 && b == 254
    || a == 100 && leb 64 b && leb b 127

-- An integer from 0 to 255.
abbrev pub octet : Text → Option ℕ
octet part = elim (number part) [ none ↦ none | some n ↦ if leb n 255 then some n else none ]

abbrev pub is_local_octets : Option ℕ → Option ℕ → Option ℕ → Option ℕ → Bool
is_local_octets (some a) (some b) (some c) (some d) = is_local_range a b
is_local_octets _ _ _ _ = false

abbrev pub is_local_parts : List Text → Bool
is_local_parts (p ∷ q ∷ r ∷ s ∷ []) = is_local_octets (octet p) (octet q) (octet r) (octet s)
is_local_parts _ = false

-- `host === 'localhost' || host.endsWith('.localhost') || host === '::1'`
abbrev pub is_local_name : Text → Bool
is_local_name host =
    text_eq host (codes "localhost")
    || ends_with host (codes ".localhost")
    || text_eq host (codes "::1")

abbrev is_hex_lower : ℕ → Bool
is_hex_lower c = leb b'0' c && leb c b'9' || leb b'a' c && leb c b'f'

abbrev hex_groups : List Text → Option (Text × Text)
hex_groups ((c ∷ s) ∷ (d ∷ t) ∷ []) =
    if all is_hex_lower (c ∷ s) && all is_hex_lower (d ∷ t) then some (c ∷ s, d ∷ t) else none
hex_groups _ = none

-- The two groups of `/^::ffff:([0-9a-f]+):([0-9a-f]+)$/`.
unfoldable pub mapped_groups : Text → Option (Text × Text)
mapped_groups host =
    if starts_with host (codes "::ffff:") then hex_groups (split b':' (drop 7 host)) else none

-- `String(word >> 8)`, on the 32 bits of a word as a signed integer.
abbrev pub show_high_byte : ℕ → Text
show_high_byte w =
    if ltb w (2 ^ 31) then show_number (w / 256) else b'-' ∷ show_number ((2 ^ 32 - w + 255) / 256)

abbrev pub join_dots : Text → Text → Text → Text → Text
join_dots p q r s = p ++ b'.' ∷ (q ++ b'.' ∷ (r ++ b'.' ∷ s))

-- `[high >> 8, high & 255, low >> 8, low & 255].join('.')`
unfoldable pub dotted_words : ℕ → ℕ → Text
dotted_words high low =
    join_dots (show_high_byte high) (show_number (high % 256)) (show_high_byte low)
      (show_number (low % 256))

-- `(first & 0xfe00) === 0xfc00 || (first & 0xffc0) === 0xfe80`
unfoldable pub is_local_prefix : ℕ → Bool
is_local_prefix first = bit_and first 0xfe00 == 0xfc00 || bit_and first 0xffc0 == 0xfe80

abbrev local_v6 : (Text → Bool) → Text → Bool
local_v6 again host = elim (mapped_groups host) [
  | none ↦ is_local_prefix (parse_hex (split_first b':' host).0)
  | some (high, low) ↦ again (dotted_words (parse_hex high) (parse_hex low))
]

module _ (platform : Platform) where
  abbrev pub host_of : Text → Text
  host_of value =
      platform.to_lower_case (strip_last b'.' (strip_last b']' (strip_first b'[' value)))

  -- The body, over the function that its one recursive call is of.
  unfoldable pub is_local_step : (Text → Bool) → Text → Bool
  is_local_step again value =
      let host = host_of value in
      if is_local_name host
      then true
      else if has_char b':' host
      then local_v6 again host
      else is_local_parts (split b'.' host)

  unfoldable pub is_local_from : ℕ → Text → Bool
  is_local_from zero value = false
  is_local_from (suc f) value = is_local_step (λ t. is_local_from f t) value

  -- The call for the address in a mapped IPv6 address makes no further call.
  unfoldable pub is_local_host : Text → Bool
  unfolding is_local_from is_local_step mapped_groups dotted_words is_local_prefix is_local_range
  is_local_host value = is_local_from 2 value
