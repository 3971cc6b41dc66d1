-- ===== src/Site/Addresses.antt =====
-- extension/lib/site-scope.js: `isLocalHost` on dotted addresses, and the depth of its recursion.
use passwort_manager_yurr.Common.{
  ℕ, zero, suc, ◌+◌, ◌%◌, ◌/◌, ◌<◌, ◌≤◌, ◌≡◌, refl, ap, ◌∙◌, Bool, true, false, ◌&&◌, [], ◌∷◌, ◌++◌,
  none, some, Text, codes, ltb, ◌==◌, text_eq, starts_with, has_char, strip_first, strip_last,
  split, split_first, All, All-append, Bool-cases, inl, inr, ◌⊎◌, ◌↔◌, append_assoc, arith, reverse,
  reverse_aux,
}
use passwort_manager_yurr.Platform.{Platform, IsUncased}
use passwort_manager_yurr.Site.Numbers.{number, show_number, decimal_from}
use passwort_manager_yurr.Site.Local.{
  join_dots, octet, is_local_name, is_local_octets, is_local_parts, is_local_range, is_local_step,
  is_local_from, is_local_host, host_of,
}

abbrev pub IsDigit : ℕ → Type 0
IsDigit c = (b'0' ≤ c) × (c ≤ b'9')

decimal_from-IsDigit : (f n : ℕ) (acc : Text) → All IsDigit acc → All IsDigit (decimal_from f n acc)
unfolding decimal_from
decimal_from-IsDigit zero n acc h = h
decimal_from-IsDigit (suc f) n acc h =
    ground (arith, decimal_from-IsDigit f (n / 10) ((b'0' + n % 10) ∷ acc))

-- `some` of the octets that a text shows.
shows : ℕ → Bool
shows n = elim (octet (show_number n)) [ none ↦ false | some m ↦ m == n ]

-- The test of every octet below a bound.
shows_below : ℕ → Bool
unfolding shows
shows_below zero = true
shows_below (suc bound) = shows_below bound && shows bound

shows_of_below : (n bound : ℕ) → n < bound → shows_below bound ≡ true → shows n ≡ true
unfolding shows_below
shows_of_below n zero below h = absurd (omega arith)
shows_of_below n (suc bound) below h = ground (arith, shows_of_below n bound)

shows_table : shows_below 256 ≡ true
unfolding shows_below number show_number
shows_table = refl

octet-show_number : (n : ℕ) → n < 256 → octet (show_number n) ≡ some n
unfolding shows
octet-show_number n h = ground (arith, shows_of_below n 256 h shows_table)

pub show_number-IsDigit : (n : ℕ) → All IsDigit (show_number n)
unfolding show_number
show_number-IsDigit n = decimal_from-IsDigit (suc n) n [] tt

split_first-append :
    (k : ℕ) (s t : Text) → All IsDigit s → k < b'0' → split_first k (s ++ k ∷ t) ≡ (s, split k t)
split_first-append k [] t h lt = ground arith
split_first-append k (c ∷ s) t (p, h) lt = ground (arith, split_first-append k s t h lt)

split_first-digits : (k : ℕ) (s : Text) → All IsDigit s → k < b'0' → split_first k s ≡ (s, [])
split_first-digits k [] h lt = refl
split_first-digits k (c ∷ s) (p, h) lt = ground (arith, split_first-digits k s h lt)

split-join_dots :
    (p q r s : Text)
    → All IsDigit p
    → All IsDigit q
    → All IsDigit r
    → All IsDigit s
    → split b'.' (join_dots p q r s) ≡ p ∷ q ∷ r ∷ s ∷ []
split-join_dots p q r s hp hq hr hs = ground (
  arith,
  split_first-append b'.' p (q ++ b'.' ∷ (r ++ b'.' ∷ s)) hp,
  split_first-append b'.' q (r ++ b'.' ∷ s) hq,
  split_first-append b'.' r s hr,
  split_first-digits b'.' s hs,
)

-- Digits, dots and signs, as `String(n)` and `join('.')` write them.
abbrev pub IsDotted : Text → Type 0
IsDotted = All (λ c. (b'-' ≤ c) × (c ≤ b'9'))

pub IsDigit-IsDotted : (s : Text) → All IsDigit s → IsDotted s
IsDigit-IsDotted [] h = tt
IsDigit-IsDotted (c ∷ s) (p, h) = ((omega arith, omega arith), IsDigit-IsDotted s h)

pub dotted-IsUncased : (s : Text) → IsDotted s → IsUncased s
dotted-IsUncased [] h = tt
dotted-IsUncased (c ∷ s) (p, h) = (omega arith, dotted-IsUncased s h)

pub has_char-dotted : (k : ℕ) (s : Text) → IsDotted s → b'9' < k → has_char k s ≡ false
has_char-dotted k [] h lt = refl
has_char-dotted k (c ∷ s) (p, h) lt = ground (arith, has_char-dotted k s h lt)

pub strip_first-dotted : (k : ℕ) (s : Text) → IsDotted s → b'9' < k → strip_first k s ≡ s
strip_first-dotted k [] h lt = refl
strip_first-dotted k (c ∷ s) (p, h) lt = ground arith

pub strip_last-dotted : (k : ℕ) (s : Text) → IsDotted s → b'9' < k → strip_last k s ≡ s
strip_last-dotted k [] h lt = refl
strip_last-dotted k (c ∷ []) (p, h) lt = ground arith
strip_last-dotted k (c ∷ d ∷ s) (p, h) lt = ground (arith, strip_last-dotted k (d ∷ s) h lt)

strip_last-digits : (s : Text) → All IsDigit s → strip_last b'.' s ≡ s
strip_last-digits [] h = refl
strip_last-digits (c ∷ []) (p, h) = ground arith
strip_last-digits (c ∷ d ∷ s) (p, h) = ground (arith, strip_last-digits (d ∷ s) h)

strip_last-append :
    (k : ℕ) (s : Text) (c : ℕ) (t : Text) → strip_last k (s ++ c ∷ t) ≡ s ++ strip_last k (c ∷ t)
strip_last-append k [] c t = refl
strip_last-append k (d ∷ []) c t = refl
strip_last-append k (d ∷ e ∷ s) c t = rw (← strip_last-append k (e ∷ s) c t)

reverse_aux-IsDotted : (s t : Text) → IsDotted s → IsDotted t → IsDotted (reverse_aux s t)
reverse_aux-IsDotted [] t h k = k
reverse_aux-IsDotted (c ∷ s) t (p, h) k = reverse_aux-IsDotted s (c ∷ t) h (p, k)

-- A dotted text has no name in front of a letter.
starts_with-dotted :
    (s : Text) (k : ℕ) (p : Text) → IsDotted s → b'9' < k → starts_with s (k ∷ p) ≡ false
starts_with-dotted [] k p h lt = refl
starts_with-dotted (c ∷ s) k p (q, h) lt = ground arith

text_eq-dotted : (s : Text) (k : ℕ) (p : Text) → IsDotted s → b'9' < k → text_eq s (k ∷ p) ≡ false
text_eq-dotted [] k p h lt = refl
text_eq-dotted (c ∷ s) k p (q, h) lt = ground arith

is_local_name-dotted : (s : Text) → IsDotted s → is_local_name s ≡ false
is_local_name-dotted s h = rw (
  text_eq-dotted s b'l' (codes "ocalhost") h (omega arith),
  text_eq-dotted s b':' (codes ":1") h (omega arith),
  starts_with-dotted (reverse s) b't' (codes "sohlacol.") (reverse_aux-IsDotted s [] h tt)
      (omega arith),
)

module _ (platform : Platform) where
  host_of-dotted : (s : Text) → IsDotted s → strip_last b'.' s ≡ s → host_of platform s ≡ s
  host_of-dotted s h stable =
      ap (λ t. platform.to_lower_case (strip_last b'.' (strip_last b']' t)))
        (strip_first-dotted b'[' s h (omega arith))
      ∙ ap (λ t. platform.to_lower_case (strip_last b'.' t))
          (strip_last-dotted b']' s h (omega arith))
      ∙ ap platform.to_lower_case stable
      ∙ platform.lower_uncased s (dotted-IsUncased s h)

  is_local_step-dotted :
      (again : Text → Bool) (s : Text)
      → IsDotted s
      → strip_last b'.' s ≡ s
      → is_local_step platform again s ≡ is_local_parts (split b'.' s)
  unfolding is_local_step
  is_local_step-dotted again s h stable =
      rw (
        host_of-dotted s h stable,
        is_local_name-dotted s h,
        has_char-dotted b':' s h (omega arith),
      )

decimal_from-ne-nil :
    (f n c : ℕ) (acc : Text) → (d : ℕ) × (s : Text) × (decimal_from f n (c ∷ acc) ≡ d ∷ s)
unfolding decimal_from
decimal_from-ne-nil zero n c acc = (c, acc, refl)
decimal_from-ne-nil (suc f) n c acc = elim (Bool-cases (ltb n 10)) [
  | inl short ↦ (b'0' + n, c ∷ acc, rw short)
  | inr long ↦
      let (d, s, e) = decimal_from-ne-nil f (n / 10) (b'0' + n % 10) (c ∷ acc) in (d, s, rw long e)
]

show_number-ne-nil : (n : ℕ) → (d : ℕ) × (s : Text) × (show_number n ≡ d ∷ s)
unfolding show_number
show_number-ne-nil n = elim (Bool-cases (ltb n 10)) [
  | inl short ↦ (b'0' + n, [], rw short)
  | inr long ↦
      let (d, s, e) = decimal_from-ne-nil n (n / 10) (b'0' + n % 10) [] in (d, s, rw long e)
]

pub join_dots-IsDotted :
    (p q r s : Text)
    → IsDotted p
    → IsDotted q
    → IsDotted r
    → IsDotted s
    → IsDotted (join_dots p q r s)
join_dots-IsDotted p q r s hp hq hr hs =
    let dot : (b'-' ≤ b'.') × (b'.' ≤ b'9') = omega arith in
    All-append _ p _ hp (dot, All-append _ q _ hq (dot, All-append _ r _ hr (dot, hs)))

join_dots-append :
    (p q r s : Text) → join_dots p q r s ≡ (p ++ b'.' ∷ (q ++ b'.' ∷ (r ++ b'.' ∷ []))) ++ s
join_dots-append p q r s = simp append_assoc

strip_last-join_dots :
    (p q r s : Text) (d : ℕ) (t : Text)
    → s ≡ d ∷ t
    → All IsDigit s
    → strip_last b'.' (join_dots p q r s) ≡ join_dots p q r s
strip_last-join_dots p q r s d t e h =
    let front : Text = p ++ b'.' ∷ (q ++ b'.' ∷ (r ++ b'.' ∷ [])) in
    rw (join_dots-append p q r s, e, strip_last-append b'.' front d t)
      (ap (λ u. front ++ u) (strip_last-digits (d ∷ t) (rw e at h)))

abbrev pub show_address : ℕ → ℕ → ℕ → ℕ → Text
show_address a b c d = join_dots (show_number a) (show_number b) (show_number c) (show_number d)

-- The private, loopback, link-local and shared ranges of RFC 1918, 1122, 3927 and 6598.
abbrev pub IsLocalRange : ℕ → ℕ → Type 0
IsLocalRange a b =
    (a ≡ 10)
    ⊎ (a ≡ 127)
    ⊎ ((a ≡ 172) × (b / 16 ≡ 1))
    ⊎ ((a ≡ 192) × (b ≡ 168))
    ⊎ ((a ≡ 169) × (b ≡ 254))
    ⊎ ((a ≡ 100) × (b / 64 ≡ 1))

is_local_range_iff : (a b : ℕ) → (is_local_range a b ≡ true) ↔ IsLocalRange a b
unfolding is_local_range
is_local_range_iff a b = ground arith

module _ (platform : Platform) where
  is_local_step-address :
      (again : Text → Bool) (a b c d : ℕ)
      → is_local_step platform again (show_address a b c d)
        ≡ is_local_octets
            (octet (show_number a))
            (octet (show_number b))
            (octet (show_number c))
            (octet (show_number d))
  is_local_step-address again a b c d =
      let dotted = λ (n : ℕ). IsDigit-IsDotted (show_number n) (show_number-IsDigit n) in
      let (e, t, shown) = show_number-ne-nil d in
      rw (
        is_local_step-dotted platform again (show_address a b c d)
            (join_dots-IsDotted _ _ _ _ (dotted a) (dotted b) (dotted c) (dotted d))
            (strip_last-join_dots _ _ _ _ e t shown (show_number-IsDigit d)),
        split-join_dots _ _ _ _ (show_number-IsDigit a) (show_number-IsDigit b)
            (show_number-IsDigit c) (show_number-IsDigit d),
      )

  -- An address of four numbers below 256 in dotted decimal is local exactly if it lies in 10/8, 127/8, 172.16/12,
  -- 192.168/16, 169.254/16 or 100.64/10.
  pub is_local_host-address :
      (a b c d : ℕ)
      → a < 256
      → b < 256
      → c < 256
      → d < 256
      → (is_local_host platform (show_address a b c d) ≡ true) ↔ IsLocalRange a b
  unfolding is_local_host is_local_from
  is_local_host-address a b c d ha hb hc hd =
      rw
        (
          is_local_step-address,
          octet-show_number a ha,
          octet-show_number b hb,
          octet-show_number c hc,
          octet-show_number d hd,
        )
        (is_local_range_iff a b)
