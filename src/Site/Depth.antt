-- ===== src/Site/Depth.antt =====
-- extension/lib/site-scope.js: `isLocalHost` calls itself at most once.
use passwort_manager_yurr.Common.{
  ℕ, suc, ◌+◌, ◌-◌, ◌/◌, ◌%◌, ◌≡◌, Bool, false, [], ◌∷◌, Text, ltb, ◌==◌, ap, ◌∙◌, has_char,
  strip_last, Bool-cases, Option-cases, inl, inr, arith,
}
use Prim.Native.Nat.{◌^◌}
use passwort_manager_yurr.Platform.{Platform}
use passwort_manager_yurr.Site.Numbers.{show_number, parse_hex}
use passwort_manager_yurr.Site.Local.{
  dotted_words, show_high_byte, host_of, is_local_step, is_local_from, mapped_groups,
}
use passwort_manager_yurr.Site.Addresses.{
  IsDotted, IsDigit-IsDotted, show_number-IsDigit, join_dots-IsDotted, dotted-IsUncased,
  strip_first-dotted, has_char-dotted,
}

show_number-IsDotted : (n : ℕ) → IsDotted (show_number n)
show_number-IsDotted n = IsDigit-IsDotted (show_number n) (show_number-IsDigit n)

show_high_byte-IsDotted : (w : ℕ) → IsDotted (show_high_byte w)
show_high_byte-IsDotted w = elim (Bool-cases (ltb w (2 ^ 31))) [
  | inl positive ↦ rw positive (show_number-IsDotted (w / 256))
  | inr negative ↦
      rw negative ((omega arith, omega arith), show_number-IsDotted ((2 ^ 32 - w + 255) / 256))
]

dotted_words-IsDotted : (high low : ℕ) → IsDotted (dotted_words high low)
unfolding dotted_words
dotted_words-IsDotted high low =
    join_dots-IsDotted _ _ _ _ (show_high_byte-IsDotted high) (show_number-IsDotted (high % 256))
      (show_high_byte-IsDotted low) (show_number-IsDotted (low % 256))

strip_last_keeps : (k : ℕ) (s : Text) → IsDotted s → IsDotted (strip_last k s)
strip_last_keeps k [] h = tt
strip_last_keeps k (c ∷ []) (p, h) = elim (Bool-cases (c == k)) [
  | inl same ↦ rw same tt
  | inr other ↦ rw other (p, h)
]
strip_last_keeps k (c ∷ d ∷ s) (p, h) = (p, strip_last_keeps k (d ∷ s) h)

module _ (platform : Platform) where
  has_char-host_of : (s : Text) → IsDotted s → has_char b':' (host_of platform s) ≡ false
  has_char-host_of s h =
      let bare : Text = strip_last b'.' (strip_last b']' s) in
      let bare-dotted : IsDotted bare = strip_last_keeps b'.' _ (strip_last_keeps b']' s h) in
      ap (λ t. has_char b':' (platform.to_lower_case (strip_last b'.' (strip_last b']' t))))
        (strip_first-dotted b'[' s h (omega arith))
      ∙ ap (has_char b':') (platform.lower_uncased bare (dotted-IsUncased bare bare-dotted))
      ∙ has_char-dotted b':' bare bare-dotted (omega arith)

  is_local_step-again :
      (again more : Text → Bool) (s : Text)
      → IsDotted s
      → is_local_step platform again s ≡ is_local_step platform more s
  unfolding is_local_step
  is_local_step-again again more s h = rw (has_char-host_of s h)

  is_local_step-agree :
      (again more : Text → Bool) (value : Text)
      → ((high low : ℕ) → again (dotted_words high low) ≡ more (dotted_words high low))
      → is_local_step platform again value ≡ is_local_step platform more value
  unfolding is_local_step
  is_local_step-agree again more value agree =
      elim (Option-cases (mapped_groups (host_of platform value))) [
        | inl plain ↦ ground arith
        | inr (groups, mapped) ↦ ground (arith, agree (parse_hex groups.0) (parse_hex groups.1))
      ]

  -- Two rounds are enough for the recursion of `isLocalHost`: further ones change nothing, since the
  -- address that a mapped IPv6 address holds has no colon.
  pub is_local_from_enough :
      (f : ℕ) (value : Text)
      → is_local_from platform (suc (suc f)) value ≡ is_local_from platform 2 value
  unfolding is_local_from
  is_local_from_enough f value =
      is_local_step-agree _ _ value (λ high low.
        is_local_step-again _ _ (dotted_words high low) (dotted_words-IsDotted high low))
