-- ===== src/Fields/Addresses.antt =====
-- extension/content/heuristics.js: which part of an address a field takes.
use passwort_manager_yurr.Common.{
  ◌≡◌, Bool, true, false, not, ◌&&◌, ◌||◌, List, [], ◌∷◌, Option, none, some, Text, codes, text_eq,
  any, filter, if◌then◌else◌, All, All-filter, Bool-cases, inl, inr,
}
use passwort_manager_yurr.Platform.{Platform}
use passwort_manager_yurr.Fields.{
  Regex, char, many, beginning, ending, boundary, seq, alt, literal, any_of, is_gap, test,
}
use passwort_manager_yurr.Fields.Inputs.{
  Field, is_among, words_from, tokens_of, lower, meta_of, is_password_field, is_search_field,
  is_likely_email,
}

pub data Part : Type 0 where
  given_name family_name full_name street_address line1 line2 city postal_code country : Part

-- `[\s_-]*`, `(^|[\s_-])` and `([\s_-]|$)`
abbrev pub gaps : Regex
gaps = many is_gap

abbrev pub opening_gap : Regex
opening_gap = alt beginning (char is_gap)

abbrev pub closing_gap : Regex
closing_gap = alt (char is_gap) ending

abbrev pub address_words : Regex
address_words = any_of (codes "address" ∷ codes "adresse" ∷ codes "addr" ∷ [])

abbrev pub line2_words : Regex
line2_words =
    alt (seq address_words (seq gaps (any_of (codes "2" ∷ codes "two" ∷ codes "second" ∷ [])))) (
      alt
        (seq opening_gap (
          seq
            (any_of (
              codes "apt"
              ∷ codes "apartment"
              ∷ codes "suite"
              ∷ codes "unit"
              ∷ codes "wohnung"
              ∷ codes "zusatz"
              ∷ []))
            boundary))
        (seq (literal (codes "line")) (seq gaps (literal (codes "2")))))

abbrev pub postal_words : Regex
postal_words = alt (literal (codes "postal")) (
    alt (seq (literal (codes "post")) (seq gaps (literal (codes "code"))))
      (any_of (codes "postcode" ∷ codes "zip" ∷ codes "plz" ∷ [])))

abbrev pub city_words : Regex
city_words =
    seq (any_of (codes "city" ∷ codes "town" ∷ codes "locality" ∷ codes "stadt" ∷ codes "ort" ∷ []))
      boundary

abbrev pub country_words : Regex
country_words = seq (any_of (codes "country" ∷ codes "land" ∷ [])) boundary

abbrev pub between_gaps : Regex → Regex
between_gaps r = seq opening_gap (seq r closing_gap)

abbrev pub given_words : Regex
given_words = between_gaps (any_of (codes "first" ∷ codes "given" ∷ codes "vorname" ∷ []))

abbrev pub family_words : Regex
family_words =
    between_gaps (any_of (codes "last" ∷ codes "family" ∷ codes "surname" ∷ codes "nachname" ∷ []))

abbrev pub full_words : Regex
full_words = between_gaps (
    alt (seq (literal (codes "full")) (seq gaps (literal (codes "name")))) (
      alt
        (seq (literal (codes "vollst")) (
          seq (any_of (codes "a" ∷ codes "ä" ∷ []))
            (seq (literal (codes "ndiger")) (seq gaps (literal (codes "name"))))))
        (literal (codes "name"))))

abbrev pub line1_words : Regex
line1_words =
    alt
      (any_of (
        codes "street"
        ∷ codes "strasse"
        ∷ codes "straße"
        ∷ codes "address"
        ∷ codes "adresse"
        ∷ codes "addr"
        ∷ []))
      (seq (literal (codes "line")) (seq gaps (literal (codes "1"))))

-- The first of the answers whose test holds.
abbrev pub first_part : List (Bool × Part) → Option Part
first_part [] = none
first_part ((b, part) ∷ rest) = if b then some part else first_part rest

unfoldable pub part_by_words : Text → Option Part
unfolding test
part_by_words meta = first_part (
    (test line2_words meta, line2)
    ∷ (test postal_words meta, postal_code)
    ∷ (test city_words meta, city)
    ∷ (test country_words meta, country)
    ∷ (test given_words meta, given_name)
    ∷ (test family_words meta, family_name)
    ∷ (test full_words meta, full_name)
    ∷ (test line1_words meta, line1)
    ∷ [])

abbrev pub part_by_tokens : List Text → Option Part
part_by_tokens tokens = first_part (
    (is_among tokens (codes "given-name"), given_name)
    ∷ (is_among tokens (codes "family-name"), family_name)
    ∷ (is_among tokens (codes "name"), full_name)
    ∷ (is_among tokens (codes "street-address"), street_address)
    ∷ (is_among tokens (codes "address-line1"), line1)
    ∷ (is_among tokens (codes "address-line2"), line2)
    ∷ (is_among tokens (codes "address-level2"), city)
    ∷ (is_among tokens (codes "postal-code"), postal_code)
    ∷ (is_among tokens (codes "country") || is_among tokens (codes "country-name"), country)
    ∷ [])

abbrev pub or_words : Option Part → Text → Option Part
or_words none meta = part_by_words meta
or_words (some part) meta = some part

abbrev pub secret_tokens : List Text
secret_tokens =
    codes "email"
    ∷ codes "username"
    ∷ codes "current-password"
    ∷ codes "new-password"
    ∷ codes "one-time-code"
    ∷ codes "tel"
    ∷ []

abbrev pub other_types : List Text
other_types =
    codes "hidden"
    ∷ codes "password"
    ∷ codes "checkbox"
    ∷ codes "radio"
    ∷ codes "submit"
    ∷ codes "button"
    ∷ codes "reset"
    ∷ codes "file"
    ∷ codes "image"
    ∷ codes "search"
    ∷ []

-- `isStrongAddressKind`
abbrev pub is_strong : Option Part → Bool
is_strong none = false
is_strong (some given_name) = false
is_strong (some family_name) = false
is_strong (some full_name) = false
is_strong (some _) = true

abbrev pub is_part : Option Part → Bool
is_part none = false
is_part (some _) = true

module _ (platform : Platform) where
  -- `isEligibleAddressField`
  unfoldable pub is_eligible_address : Field → Bool
  unfolding is_password_field
  is_eligible_address f =
      not f.hidden
      && not (f.disabled || f.read_only || is_password_field platform f)
      && (is_among (codes "textarea" ∷ codes "select" ∷ []) (lower platform f.tag)
          || (text_eq (lower platform f.tag) (codes "input")
              && not (is_among other_types (lower platform f.type))))

  abbrev pub is_refused : Field → Bool
  is_refused f =
      not (is_eligible_address f)
      || is_search_field platform f
      || any (is_among secret_tokens) (tokens_of platform f)
      || is_likely_email platform f

  -- `getAddressFieldKind`
  unfoldable pub part_of : Field → Option Part
  unfolding is_eligible_address is_likely_email is_search_field words_from meta_of part_by_words
  part_of f =
      if is_refused f then none else or_words (part_by_tokens (tokens_of platform f)) (meta_of f)

  -- `findAddressFields`, of the fields of the scope
  unfoldable pub find_address_fields : List Field → List Field
  unfolding part_of
  find_address_fields fs =
      let found = filter (λ f. is_part (part_of f)) fs in
      if not (any (λ f. is_strong (part_of f)) found) then [] else found

  part_of-accepted : (f : Field) → is_part (part_of f) ≡ true → is_refused f ≡ false
  unfolding part_of
  part_of-accepted f h = elim (Bool-cases (is_refused f)) [
    | inr accepted ↦ accepted
    | inl refused ↦ cc (rw refused at h)
  ]

  All-accepted :
      (fs : List Field)
      → All (λ f. is_part (part_of f) ≡ true) fs
      → All (λ f. is_refused f ≡ false) fs
  All-accepted [] h = tt
  All-accepted (f ∷ fs) h = (part_of-accepted f h.0, All-accepted fs h.1)

  -- The fields of an address that are found are visible and enabled, take no password, and are not
  -- for a search, an e-mail address, a user name or a code.
  find_address_fields-accepted :
      (fs : List Field) → All (λ f. is_refused f ≡ false) (find_address_fields fs)
  unfolding find_address_fields
  find_address_fields-accepted fs =
      elim (Bool-cases (any (λ f. is_strong (part_of f)) (filter (λ f. is_part (part_of f)) fs))) [
        | inl strong ↦ rw strong (
            All-accepted (filter (λ f. is_part (part_of f)) fs)
              (All-filter (λ f. is_part (part_of f)) fs))
        | inr weak ↦ rw weak tt
      ]
