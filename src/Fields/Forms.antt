-- ===== src/Fields/Forms.antt =====
-- extension/content/heuristics.js: which passwords a form asks for, and what kind of form it is.
use passwort_manager_yurr.Common.{
  ℕ, ◌≡◌, ◌≤◌, ◌⊎◌, refl, Bool, true, false, not, ◌&&◌, ◌||◌, List, [], ◌∷◌, Option, Text, codes,
  any, find, leb, ltb, ◌==◌, if◌then◌else◌, filter, length, Bool-cases, inl, inr, arith, is_space,
}
use passwort_manager_yurr.Platform.{Platform}
use passwort_manager_yurr.Fields.{Regex, many, alt, seq, literal, any_of, maybe, test}
use passwort_manager_yurr.Fields.Inputs.{Field, is_among, words_from, meta_of, is_password_field}

abbrev pub spaces : Regex
spaces = many is_space

abbrev pub secret_words : Regex
secret_words =
    any_of
      (codes "password" ∷ codes "passwort" ∷ codes "passcode" ∷ codes "pass" ∷ codes "pwd" ∷ [])

abbrev pub ending_es : Text → Regex
ending_es t = seq (literal t) (maybe (literal (codes "es")))

-- The two patterns of `isCurrentPasswordField`
abbrev pub current_before : Regex
current_before =
    seq
      (alt (any_of (codes "current" ∷ codes "old" ∷ codes "existing" ∷ [])) (
        alt (ending_es (codes "aktuell"))
          (alt (ending_es (codes "alt")) (ending_es (codes "bisherig")))))
      (seq spaces secret_words)

abbrev pub current_after : Regex
current_after = seq secret_words (
    seq spaces (
      any_of (
        codes "current"
        ∷ codes "old"
        ∷ codes "existing"
        ∷ codes "aktuell"
        ∷ codes "alt"
        ∷ codes "bisherig"
        ∷ [])))

abbrev pub confirming : List Text
confirming =
    codes "confirm" ∷ codes "confirmation" ∷ codes "repeat" ∷ codes "retype" ∷ codes "verify" ∷ []

-- `best[aä]tig…`
abbrev pub best_a : Text → Regex
best_a rest =
    seq (literal (codes "best")) (seq (any_of (codes "a" ∷ codes "ä" ∷ [])) (literal rest))

-- The two patterns of `isNewPasswordField`
abbrev pub new_before : Regex
new_before =
    seq (alt (literal (codes "new")) (alt (ending_es (codes "neu")) (any_of confirming)))
      (seq spaces secret_words)

abbrev pub new_after : Regex
new_after = seq secret_words (
    seq spaces (
      alt (any_of (codes "new" ∷ codes "neu" ∷ confirming))
        (alt (literal (codes "wiederholen")) (best_a (codes "tigen")))))

abbrev pub confirmation : Regex
confirmation = alt (any_of confirming) (alt (literal (codes "wiederhol")) (best_a (codes "tig")))

abbrev pub registering : Regex
registering = any_of (
    codes "register"
    ∷ codes "signup"
    ∷ codes "sign-up"
    ∷ codes "create"
    ∷ codes "join"
    ∷ codes "enroll"
    ∷ [])

abbrev pub gapped : Text → Text → Regex
gapped a b = seq (literal a) (seq spaces (literal b))

abbrev pub register_button : Regex
register_button = alt (literal (codes "register")) (
    alt (gapped (codes "sign") (codes "up")) (
      alt (gapped (codes "create") (codes "account"))
        (alt (literal (codes "join")) (gapped (codes "get") (codes "started")))))

abbrev pub is_small : ℕ → Bool
is_small c = leb b'a' c && leb c b'z'

abbrev pub is_capital : ℕ → Bool
is_capital c = leb b'A' c && leb c b'Z'

-- `.replace(/([a-z])([A-Z])/g, '$1 $2')`; a capital never begins another match.
unfoldable pub split_capitals : Text → Text
split_capitals [] = []
split_capitals (c ∷ []) = c ∷ []
split_capitals (c ∷ d ∷ t) =
    let rest = split_capitals (d ∷ t) in
    if is_small c && is_capital d then c ∷ b' ' ∷ rest else c ∷ rest

-- `.replace(/[_-]+/g, ' ')`; `in_run` tells that a run has begun before.
unfoldable pub space_runs : (in_run : Bool) → Text → Text
space_runs in_run [] = []
space_runs in_run (c ∷ t) =
    let after = space_runs true t in
    let rest = space_runs false t in
    if c == b'_' || c == b'-' then (if in_run then after else b' ' ∷ after) else c ∷ rest

-- A form: its address, the texts of its buttons, and its inputs.
pub record Form : Type 0 where
  pub action : Text
  pub buttons : List Text
  pub inputs : List Field

-- `getPasswordFieldMeta`
unfoldable pub password_meta : Field → Text
unfolding meta_of split_capitals space_runs
password_meta f = space_runs false (split_capitals (meta_of f))

module _ (platform : Platform) where
  abbrev pub is_visible_password : Field → Bool
  is_visible_password f =
      is_password_field platform f && not f.hidden && not f.disabled && not f.read_only

  -- `getVisiblePasswordFields`
  abbrev pub visible_passwords : Form → List Field
  visible_passwords form = filter is_visible_password form.inputs

  -- `autocomplete.split(/\s+/).includes(token)`
  abbrev pub has_token : Text → Field → Bool
  has_token token f = is_among (words_from [] (platform.to_lower_case f.autocomplete)) token

  -- `isCurrentPasswordField`
  unfoldable pub is_current_password : Field → Bool
  unfolding is_password_field words_from password_meta test
  is_current_password f =
      is_password_field platform f
      && (has_token (codes "current-password") f
          || test current_before (password_meta f)
          || test current_after (password_meta f))

  -- `isNewPasswordField`
  unfoldable pub is_new_password : Field → Bool
  unfolding is_password_field words_from password_meta test
  is_new_password f =
      is_password_field platform f
      && (has_token (codes "new-password") f
          || test new_before (password_meta f)
          || test new_after (password_meta f))

  -- `isConfirmationPasswordField`
  unfoldable pub is_confirmation_password : Field → Bool
  unfolding is_password_field password_meta test
  is_confirmation_password f = is_password_field platform f && test confirmation (password_meta f)

  -- `findCurrentPasswordField`
  abbrev pub find_current_password : Form → Option Field
  find_current_password form = find is_current_password (visible_passwords form)

  -- `isPasswordChangeForm`
  unfoldable pub is_change_form : Form → Bool
  unfolding is_current_password is_new_password
  is_change_form form =
      let passwords = visible_passwords form in
      if ltb (length passwords) 2
      then false
      else if not (any is_current_password passwords)
      then false
      else any is_new_password passwords || leb 3 (length passwords)

  -- `isRegistrationForm`
  unfoldable pub is_registration_form : Form → Bool
  unfolding is_change_form is_new_password test
  is_registration_form form =
      let passwords = visible_passwords form in
      if is_change_form form
      then false
      else leb 2 (length passwords)
        || any is_new_password passwords
        || test registering (platform.to_lower_case form.action)
        || any (λ t. test register_button (platform.to_lower_case t)) form.buttons

  -- A form with several passwords to fill in is one for a registration or for a change, and never
  -- both.
  pub several_passwords :
      (form : Form)
      → 2 ≤ length (visible_passwords form)
      → ((is_registration_form form ≡ true) × (is_change_form form ≡ false))
        ⊎ ((is_registration_form form ≡ false) × (is_change_form form ≡ true))
  unfolding is_registration_form
  several_passwords form h = elim (Bool-cases (is_change_form form)) [
    | inl change ↦ inr (rw change refl, change)
    | inr other ↦ inl (ground arith, other)
  ]
