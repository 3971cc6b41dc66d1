-- ===== src/Fields/Registration.antt =====
-- extension/content/heuristics.js: the input for the e-mail address of a registration.
use passwort_manager_yurr.Common.{
  ℕ, ◌≡◌, Bool, true, false, ◌&&◌, List, [], ◌∷◌, Option, none, some, ltb, if◌then◌else◌,
  Bool-cases, inl, inr, arith,
}
use passwort_manager_yurr.Platform.{Platform}
use passwort_manager_yurr.Fields.Inputs.{
  Field, Score, at_least, no_less, add_if, is_eligible, is_text_input, is_likely_email, score_of,
}
use passwort_manager_yurr.Fields.Found.{index_of}

-- The best input so far, with its score.
pub record Best : Type 0 where
  pub field : Option Field
  pub score : Score

abbrev pub is_before : Option ℕ → Option ℕ → Bool
is_before (some i) (some password) = ltb i password
is_before _ _ = false

abbrev pub before_password : Option Field → List Field → Field → Bool
before_password none fs f = false
before_password (some password) fs f = is_before (index_of f fs) (index_of password fs)

module _ (platform : Platform) where
  -- The score of an input; `in_form` is the password, if there is a form.
  abbrev pub weigh : Option Field → List Field → Field → Score
  weigh in_form fs f =
      add_if (before_password in_form fs f) 2
        (add_if (is_likely_email platform f) 5 (score_of platform f))

  abbrev pub better : Field → Score → Best → Best
  better f s best = if no_less best.score s then best else record { field = some f; score = s }

  -- The loop, over inputs of the scope
  unfoldable pub best_from : Option Field → List Field → List Field → Best → Best
  best_from in_form fs [] best = best
  best_from in_form fs (f ∷ rest) best =
      let with_this = best_from in_form fs rest (better f (weigh in_form fs f) best) in
      let without = best_from in_form fs rest best in
      if is_text_input platform f && is_eligible platform f then with_this else without

  abbrev pub enough : Best → Option Field
  enough best = if at_least 7 best.score then best.field else none

  -- `findRegistrationEmailField`, of the inputs of the scope
  unfoldable pub find_registration_email : Option Field → List Field → Option Field
  unfolding best_from is_eligible is_likely_email score_of
  find_registration_email in_form fs =
      enough
        (best_from in_form fs fs (record { field = none; score = record { plus = 0; minus = 1 } }))

  -- What the loop keeps of the best input.
  abbrev IsKept : Option Field → Type 0
  IsKept none = Unit
  IsKept (some f) = (is_text_input platform f ≡ true) × (is_eligible platform f ≡ true)

  better-IsKept :
      (f : Field) (s : Score) (best : Best)
      → (is_text_input platform f && is_eligible platform f) ≡ true
      → IsKept best.field
      → IsKept (better f s best).field
  better-IsKept f s best h k = elim (Bool-cases (no_less best.score s)) [
    | inl old ↦ rw old k
    | inr new ↦ rw new (ground arith, ground arith)
  ]

  best_from-IsKept :
      (in_form : Option Field) (fs rest : List Field) (best : Best)
      → IsKept best.field
      → IsKept (best_from in_form fs rest best).field
  unfolding best_from
  best_from-IsKept in_form fs [] best k = k
  best_from-IsKept in_form fs (f ∷ rest) best k =
      elim (Bool-cases (is_text_input platform f && is_eligible platform f)) [
        | inl fit ↦ rw fit (
            best_from-IsKept in_form fs rest (better f (weigh in_form fs f) best)
              (better-IsKept f (weigh in_form fs f) best fit k))
        | inr unfit ↦ rw unfit (best_from-IsKept in_form fs rest best k)
      ]

  enough-IsKept :
      (best : Best) (f : Field) → IsKept best.field → enough best ≡ some f → IsKept (some f)
  enough-IsKept best f k h = elim (Bool-cases (at_least 7 best.score)) [
    | inr low ↦ cc (rw low at h)
    | inl high ↦ (let e : best.field ≡ some f = rw high at h in rw e at k)
  ]

  -- The input that is found for the address of a registration is a text input that may be filled in.
  find_registration_email-IsKept :
      (in_form : Option Field) (fs : List Field) (f : Field)
      → find_registration_email in_form fs ≡ some f
      → IsKept (some f)
  unfolding find_registration_email
  find_registration_email-IsKept in_form fs f h =
      let start : Best = record { field = none; score = record { plus = 0; minus = 1 } } in
      enough-IsKept (best_from in_form fs fs start) f (best_from-IsKept in_form fs fs start tt) h
