-- ===== src/Fields/Inputs.antt =====
-- extension/content/heuristics.js: which inputs of a page take a user name. What the document says of
-- an input is a record; `knownPasswordFields`, which an input may be in, is one of its fields.
use passwort_manager_yurr.Common.{
  ℕ, ◌+◌, Bool, true, false, not, ◌&&◌, ◌||◌, List, [], ◌∷◌, ◌++◌, Option, none, some, Text, codes,
  text_eq, is_empty, any, leb, if◌then◌else◌, is_space, trim, starts_with, ◌≡◌, arith,
}
use passwort_manager_yurr.Platform.{Platform}
use passwort_manager_yurr.Fields.{test}
use passwort_manager_yurr.Fields.Words.{
  username_keywords, negative_keywords, search_keywords, phone_words, email_words,
}

pub record Field : Type 0 where
  pub number : ℕ
  pub tag : Text
  pub type_attribute : Option Text
  pub type : Text
  pub autocomplete : Text
  pub autocomplete_attribute : Text
  pub input_mode : Text
  pub input_mode_attribute : Text
  pub name : Text
  pub id : Text
  pub placeholder : Text
  pub aria_label : Text
  pub role : Text
  pub labels : List Text
  pub parent_label : Option Text
  pub disabled : Bool
  pub read_only : Bool
  pub hidden : Bool
  pub known : Bool
  pub in_search : Bool
  pub form : Option ℕ
  pub form_role : Text

-- A score, which may be negative: what was added and what was taken off.
pub record Score : Type 0 where
  pub plus : ℕ
  pub minus : ℕ

abbrev pub at_least : ℕ → Score → Bool
at_least n s = leb (n + s.minus) s.plus

-- The first is no less than the second.
abbrev pub no_less : Score → Score → Bool
no_less a b = leb (b.plus + a.minus) (a.plus + b.minus)

abbrev pub add_if : Bool → ℕ → Score → Score
add_if b n s = if b then record s { plus = s.plus + n } else s

abbrev pub take_if : Bool → ℕ → Score → Score
take_if b n s = if b then record s { minus = s.minus + n } else s

pub record Candidate : Type 0 where
  pub field : Field
  pub score : Score

abbrev pub by_score : Candidate → Candidate → Bool
by_score a b = no_less a.score b.score

-- `text.includes(part)`
unfoldable pub includes : Text → Text → Bool
includes [] part = is_empty part
includes (c ∷ t) part = starts_with (c ∷ t) part || includes t part

-- `.split(/\s+/).filter(Boolean)`, with the word that has begun
unfoldable pub words_from : Text → Text → List Text
words_from word [] = if is_empty word then [] else word ∷ []
words_from word (c ∷ t) =
    let after = words_from [] t in
    let within = words_from (word ++ c ∷ []) t in
    if is_space c then (if is_empty word then after else word ∷ after) else within

abbrev pub join : List Text → Text
join [] = []
join (t ∷ []) = t
join (t ∷ u ∷ ts) = t ++ codes " " ++ join (u ∷ ts)

abbrev pub is_among : List Text → Text → Bool
is_among ts t = any (text_eq t) ts

abbrev pub parent_texts : Option Text → List Text
parent_texts none = []
parent_texts (some t) = t ∷ []

-- `getAssociatedLabelText`
abbrev pub label_text : Field → Text
label_text f = join (f.labels ++ parent_texts f.parent_label)

-- `getFieldMeta`
unfoldable pub meta_of : Field → Text
unfolding trim
meta_of f = trim (
    join (
      f.name
      ∷ f.id
      ∷ f.placeholder
      ∷ f.aria_label
      ∷ f.autocomplete_attribute
      ∷ f.input_mode_attribute
      ∷ label_text f
      ∷ []))

module _ (platform : Platform) where
  abbrev pub lower : Text → Text
  lower t = platform.to_lower_case t

  -- `getAutocompleteTokens`
  abbrev pub tokens_of : Field → List Text
  tokens_of f = words_from [] (lower f.autocomplete_attribute)

  abbrev pub other_tokens : List Text
  other_tokens =
      codes "username"
      ∷ codes "email"
      ∷ codes "one-time-code"
      ∷ codes "cc-csc"
      ∷ codes "cc-number"
      ∷ []

  abbrev pub password_tokens : List Text
  password_tokens = codes "new-password" ∷ codes "current-password" ∷ []

  -- `isPasswordField`, and what it does to `knownPasswordFields`
  unfoldable pub is_password_field : Field → Bool
  unfolding words_from
  is_password_field f =
      if not (text_eq (lower f.tag) (codes "input"))
      then false
      else if not (is_among (codes "password" ∷ codes "text" ∷ [] ∷ []) (lower f.type))
      then false
      else if any (is_among other_tokens) (tokens_of f)
      then false
      else text_eq (lower f.type) (codes "password")
        || any (is_among password_tokens) (tokens_of f)
        || f.known

  abbrev pub is_known_after : Field → Bool
  is_known_after f =
      if not (text_eq (lower f.tag) (codes "input"))
      then f.known
      else if not (is_among (codes "password" ∷ codes "text" ∷ [] ∷ []) (lower f.type))
      then f.known
      else if any (is_among other_tokens) (tokens_of f)
      then false
      else text_eq (lower f.type) (codes "password")
        || any (is_among password_tokens) (tokens_of f)
        || f.known

  unfoldable pub noted : Field → Field
  unfolding words_from
  noted f = record f { known = is_known_after f }

  -- Asking again gives the same answer.
  pub is_password_field-noted : (f : Field) → is_password_field (noted f) ≡ is_password_field f
  unfolding is_password_field noted
  is_password_field-noted f = ground arith

  -- `isEligibleInput`
  unfoldable pub is_eligible : Field → Bool
  unfolding is_password_field
  is_eligible f =
      not f.hidden
      && not f.disabled
      && not f.read_only
      && not (text_eq (lower f.type) (codes "hidden"))
      && not (is_password_field f)

  -- `isSearchField`
  unfoldable pub is_search_field : Field → Bool
  unfolding meta_of test
  is_search_field f =
      text_eq (lower f.type) (codes "search")
      || text_eq (lower f.role) (codes "searchbox")
      || text_eq (lower f.form_role) (codes "search")
      || f.in_search
      || test search_keywords (meta_of f)

  -- `isLikelyEmailField`
  unfoldable pub is_likely_email : Field → Bool
  unfolding is_search_field includes
  is_likely_email f =
      if is_search_field f
      then false
      else text_eq (lower f.type) (codes "email")
        || text_eq (lower f.input_mode) (codes "email")
        || includes (lower f.autocomplete) (codes "email")
        || test email_words (meta_of f)

  -- `scoreUsernameCandidate`
  unfoldable pub score_of : Field → Score
  unfolding is_search_field includes
  score_of f =
      let meta = meta_of f in
      take_if (test negative_keywords meta) 8 (
        take_if (is_search_field f) 20 (
          add_if (test phone_words meta) 2 (
            add_if (test username_keywords meta) 8 (
              add_if (text_eq (lower f.input_mode) (codes "email")) 8 (
                add_if (text_eq (lower f.type) (codes "email")) 12 (
                  add_if (includes (lower f.autocomplete) (codes "email")) 13 (
                    add_if (includes (lower f.autocomplete) (codes "username")) 14
                      (record { plus = 0; minus = 0 }))))))))

  -- `matches(inputSelector)`
  abbrev pub is_text_input : Field → Bool
  is_text_input f = elim f.type_attribute [
    | none ↦ true
    | some t ↦ is_among (codes "text" ∷ codes "email" ∷ codes "tel" ∷ []) (lower t)
  ]
