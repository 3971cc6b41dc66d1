-- ===== src/Views/Strength.antt =====
-- extension/popup/components/password-generator.js: the strength that the popup shows of a password.
use passwort_manager_yurr.Common.{
  ℕ, ◌+◌, ◌≤◌, ◌≡◌, refl, Bool, true, not, ◌&&◌, ◌||◌, [], ◌∷◌, ◌++◌, Text, leb, ltb, any, min,
  if◌then◌else◌, Bool-cases, inl, inr, arith,
}

pub data Label : Type 0 where
  no_password weak fair good strong : Label

abbrev pub is_small : ℕ → Bool
is_small c = leb b'a' c && leb c b'z'

abbrev pub is_capital : ℕ → Bool
is_capital c = leb b'A' c && leb c b'Z'

abbrev pub is_digit : ℕ → Bool
is_digit c = leb b'0' c && leb c b'9'

abbrev pub is_other : ℕ → Bool
is_other c = not (is_small c || is_capital c || is_digit c)

abbrev pub point : Bool → ℕ
point b = if b then 1 else 0

-- `score`, of the length and of the kinds of characters
abbrev pub points : ℕ → Bool → Bool → Bool → Bool → ℕ
points n small capital digit other =
    point (leb 8 n)
    + point (leb 12 n)
    + point (leb 16 n)
    + point (small && capital)
    + point digit
    + point other

-- `password.length`, in code units
unfoldable pub units : Text → ℕ
units [] = 0
units (c ∷ t) = (if ltb c 0x10000 then 1 else 2) + units t

-- `calculateStrength`
unfoldable pub calculate_strength : Text → ℕ
unfolding units
calculate_strength password =
    min
      (points (units password) (any is_small password) (any is_capital password)
        (any is_digit password) (any is_other password))
      5

-- The label of `updateStrength`
unfoldable pub label_of : Text → Label
unfolding calculate_strength
label_of [] = no_password
label_of (c ∷ t) =
    let score = calculate_strength (c ∷ t) in
    if ltb score 2 then weak else if ltb score 3 then fair else if ltb score 4 then good else strong

any-append : (p : ℕ → Bool) (s t : Text) → any p s ≡ true → any p (s ++ t) ≡ true
any-append p [] t h = cc
any-append p (c ∷ s) t h = elim (Bool-cases (p c)) [
  | inl found ↦ rw found refl
  | inr rest ↦ rw rest (any-append p s t (rw rest at h))
]

units-append : (s t : Text) → units s ≤ units (s ++ t)
unfolding units
units-append [] t = omega arith
units-append (c ∷ s) t = omega (arith, units-append s t)

-- More characters never take a point away.
points_mono :
    (m n : ℕ) (a b c d a2 b2 c2 d2 : Bool)
    → m ≤ n
    → (a ≡ true → a2 ≡ true)
    → (b ≡ true → b2 ≡ true)
    → (c ≡ true → c2 ≡ true)
    → (d ≡ true → d2 ≡ true)
    → min (points m a b c d) 5 ≤ min (points n a2 b2 c2 d2) 5
points_mono m n a b c d a2 b2 c2 d2 h ha hb hc hd = ground arith

-- A password that is typed on does not become weaker.
calculate_strength-append : (s t : Text) → calculate_strength s ≤ calculate_strength (s ++ t)
unfolding calculate_strength
calculate_strength-append s t =
    points_mono (units s) (units (s ++ t)) (any is_small s) (any is_capital s) (any is_digit s)
      (any is_other s) (any is_small (s ++ t)) (any is_capital (s ++ t)) (any is_digit (s ++ t))
      (any is_other (s ++ t)) (units-append s t) (any-append is_small s t)
      (any-append is_capital s t) (any-append is_digit s t) (any-append is_other s t)
