-- ===== src/Fields/Found.antt =====
-- extension/content/heuristics.js: the input for the user name that belongs to a password, or stands
-- alone.
use passwort_manager_yurr.Common.{
  ℕ, ◌+◌, ◌≡◌, ◌≢◌, ◌⊎◌, ap, Text, codes, text_eq_iff, refl, Bool, true, false, not, ◌&&◌, List, [],
  ◌∷◌, map, Option, none, some, ltb, ◌==◌, if◌then◌else◌, filter, sort_by, All, All-filter,
  All-sort_by, Bool-cases, inl, inr, arith,
}
use passwort_manager_yurr.Platform.{Platform}
use passwort_manager_yurr.Fields.Inputs.{
  Field, Score, Candidate, at_least, add_if, take_if, by_score, is_eligible, is_password_field,
  is_text_input, is_among, score_of,
}

-- `indexOf`, from an index on
unfoldable pub index_from : ℕ → ℕ → List Field → Option ℕ
index_from number i [] = none
index_from number i (f ∷ fs) =
    let later = index_from number (i + 1) fs in if f.number == number then some i else later

abbrev pub index_of : Field → List Field → Option ℕ
index_of f fs = index_from f.number 0 fs

abbrev pub same_form : Option ℕ → Option ℕ → Bool
same_form none none = true
same_form (some a) (some b) = a == b
same_form _ _ = false

-- Nearer before the password is better, and after it is worse.
abbrev pub place_score : Option ℕ → Option ℕ → Score → Score
place_score (some password) (some i) s =
    if ltb i password then add_if (i + 1 == password) 2 (add_if true 4 s) else take_if true 4 s
place_score _ _ s = s

abbrev pub first_field : List Candidate → Option Field
first_field [] = none
first_field (c ∷ cs) = some c.field

module _ (platform : Platform) where
  abbrev pub belongs : Field → Field → Bool
  belongs password f =
      is_text_input platform f
      && is_eligible platform f
      && same_form f.form password.form
      && not (f.number == password.number)

  abbrev pub placed : Field → List Field → Field → Candidate
  placed password fs f = record {
    field = f;
    score = place_score (index_of password fs) (index_of f fs) (score_of platform f);
  }

  abbrev pub scores_six : Candidate → Bool
  scores_six c = at_least 6 c.score

  abbrev pub candidates_for : Field → List Field → List Candidate
  candidates_for password fs =
      filter scores_six (map (placed password fs) (filter (belongs password) fs))

  -- `findUsernameField(passwordField, scope)`, of the inputs of the scope
  unfoldable pub find_username_field : Field → List Field → Option Field
  unfolding index_from is_eligible score_of
  find_username_field password fs = first_field (sort_by by_score (candidates_for password fs))

  abbrev pub alone : Field → Candidate
  alone f = record { field = f; score = score_of platform f }

  abbrev pub stands_alone : (Field → Bool) → Field → Bool
  stands_alone excluded f = not (excluded f) && is_text_input platform f && is_eligible platform f

  abbrev pub fields_of : List Candidate → List Field
  fields_of [] = []
  fields_of (c ∷ cs) = c.field ∷ fields_of cs

  -- `findStandaloneUsernameFields(scope, excluded)`
  unfoldable pub find_standalone : (Field → Bool) → List Field → List Field
  unfolding is_eligible score_of
  find_standalone excluded fs =
      fields_of
        (sort_by by_score (filter scores_six (map alone (filter (stands_alone excluded) fs))))

  -- An input without a type, or of one of the types that take text.
  abbrev pub IsTextInput : Option Text → Type 0
  IsTextInput none = Unit
  IsTextInput (some t) =
      (platform.to_lower_case t ≡ codes "text")
      ⊎ (platform.to_lower_case t ≡ codes "email")
      ⊎ (platform.to_lower_case t ≡ codes "tel")

  -- What an input that takes the user name of a password is.
  pub record IsUsername (password : Field) (fs : List Field) (f : Field) : Type 0 where
    pub text : IsTextInput f.type_attribute
    pub shown : f.hidden ≡ false
    pub enabled : f.disabled ≡ false
    pub writable : f.read_only ≡ false
    pub no_password : is_password_field platform f ≡ false
    pub same_form : f.form ≡ password.form
    pub other : f.number ≢ password.number
    pub score : at_least 6 (placed password fs f).score ≡ true

  abbrev pub IsChosen : Field → List Field → Candidate → Type 0
  IsChosen password fs c = IsUsername password fs c.field × (c ≡ placed password fs c.field)

  same_form_lem : (a b : Option ℕ) → same_form a b ≡ true → a ≡ b
  same_form_lem none none h = refl
  same_form_lem none (some n) h = cc
  same_form_lem (some m) none h = cc
  same_form_lem (some m) (some n) h = let e : m ≡ n = ground arith in ap some e

  is_text_input-IsTextInput :
      (f : Field) → is_text_input platform f ≡ true → IsTextInput f.type_attribute
  is_text_input-IsTextInput f h = go f.type_attribute h
    where
      go :
          (o : Option Text)
          → (elim o [
            | none ↦ true
            | some t ↦
                is_among
                  (codes "text" ∷ codes "email" ∷ codes "tel" ∷ [])
                  (platform.to_lower_case t)
          ])
            ≡ true
          → IsTextInput o
      go none e = tt
      go (some t) e =
          let low = platform.to_lower_case t in
          let a = text_eq_iff low (codes "text") in
          let b = text_eq_iff low (codes "email") in
          let c = text_eq_iff low (codes "tel") in ground (arith, a, b, c)

  belongs-IsUsername :
      (password : Field) (fs : List Field) (f : Field)
      → belongs password f ≡ true
      → at_least 6 (placed password fs f).score ≡ true
      → IsUsername password fs f
  unfolding is_eligible
  belongs-IsUsername password fs f h enough = record {
    text = is_text_input-IsTextInput f (ground arith);
    shown = ground arith;
    enabled = ground arith;
    writable = ground arith;
    no_password = ground arith;
    same_form = same_form_lem f.form password.form (ground arith);
    other = ground arith;
    score = enough;
  }

  map-IsChosen :
      (password : Field) (fs gs : List Field)
      → All (λ g. belongs password g ≡ true) gs
      → All (IsChosen password fs) (filter scores_six (map (placed password fs) gs))
  map-IsChosen password fs [] h = tt
  map-IsChosen password fs (g ∷ gs) h = elim (Bool-cases (scores_six (placed password fs g))) [
    | inl enough ↦
        rw enough
          ((belongs-IsUsername password fs g h.0 enough, refl), map-IsChosen password fs gs h.1)
    | inr low ↦ rw low (map-IsChosen password fs gs h.1)
  ]

  pub sorted-IsChosen :
      (password : Field) (fs : List Field)
      → All (IsChosen password fs) (sort_by by_score (candidates_for password fs))
  sorted-IsChosen password fs =
      All-sort_by (IsChosen password fs) by_score (candidates_for password fs)
        (map-IsChosen password fs (filter (belongs password) fs) (All-filter (belongs password) fs))
