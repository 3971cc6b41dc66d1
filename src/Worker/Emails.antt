-- ===== src/Worker/Emails.antt =====
-- extension/background/service-worker.js: the e-mail addresses that a page without saved credentials
-- is offered.
use passwort_manager_yurr.Common.{
  ℕ, Bool, true, false, not, ◌&&◌, ◌||◌, List, [], ◌∷◌, ◌++◌, map, Text, text_eq, is_empty,
  is_space, trim, split, ◌==◌, if◌then◌else◌, any, all, take,
}
use passwort_manager_yurr.Platform.{Platform}
use passwort_manager_yurr.Site.Scope.{key}
use passwort_manager_yurr.World.{Suggestions, emails, emails_text, no_emails, Item}
use passwort_manager_yurr.Credential.{Metadata, is_page_allowed, is_allowed}
use passwort_manager_yurr.Session.Api.{Code, ok, M, ◌>>=◌, return, auth_error}
use passwort_manager_yurr.Worker.{
  Runtime, gets, wait, is_unlocked, entries_for, try_catch, end_session,
}

abbrev pub max_visible : ℕ
max_visible = 8

-- A dot that is followed by something, behind the first character.
abbrev dot_inside : Text → Bool
dot_inside [] = false
dot_inside (c ∷ []) = false
dot_inside (c ∷ d ∷ t) = c == b'.' || dot_inside (d ∷ t)

abbrev is_email_domain : Text → Bool
is_email_domain [] = false
is_email_domain (c ∷ t) = dot_inside t && all (λ d. not (is_space d)) (c ∷ t)

abbrev is_email_parts : List Text → Bool
is_email_parts (user ∷ domain ∷ []) =
    not (is_empty user) && all (λ c. not (is_space c)) user && is_email_domain domain
is_email_parts _ = false

-- `isValidEmail`
unfoldable pub is_valid_email : Text → Bool
unfolding trim is_space
is_valid_email value = is_email_parts (split b'@' (trim value))

abbrev is_separator : ℕ → Bool
is_separator c = c == 10 || c == b',' || c == b';'

-- The parts between separators. Runs of separators give empty parts, which are skipped below.
abbrev pub split_list : Text → Text → List Text
split_list part [] = part ∷ []
split_list part (c ∷ t) =
    if is_separator c then part ∷ split_list [] t else split_list (part ++ c ∷ []) t

-- A failed request tells of a lost session.
abbrev pub lost : {A : Type 0} → A → Code → M A
lost a auth_error w = (ok a, end_session w)
lost a _ w = (ok a, w)

module _ (platform : Platform) where
  -- `normalizeEmail`
  abbrev pub normalize_email : Text → Text
  normalize_email value = platform.to_lower_case (trim value)

  -- The body of the loops of `parseEmailSuggestions` and `mergeEmailLists`
  unfoldable pub add_email : List Text → Text → List Text
  unfolding is_valid_email
  add_email seen item =
      let email = normalize_email item in
      if is_empty email || not (is_valid_email email) || any (text_eq email) seen
      then seen
      else seen ++ email ∷ []

  unfoldable pub add_emails : List Text → List Text → List Text
  unfolding add_email
  add_emails seen [] = seen
  add_emails seen (item ∷ items) = add_emails (add_email seen item) items

  -- `parseEmailSuggestions`
  unfoldable pub parse_suggestions : Suggestions → List Text
  unfolding add_emails
  parse_suggestions (emails items) = add_emails [] items
  parse_suggestions (emails_text t) = add_emails [] (split_list [] t)
  parse_suggestions no_emails = []

  -- `mergeEmailLists`, of two lists
  unfoldable pub merge_lists : List Text → List Text → List Text
  unfolding add_emails
  merge_lists manual vault = add_emails (add_emails [] manual) vault

module _ (r : Runtime) where
  abbrev usernames : List Metadata → List Text
  usernames entries = add_emails r.platform [] (map (λ (e : Metadata). e.username) entries)

  abbrev known_entries : Bool → M (List Text)
  known_entries false = return []
  known_entries true =
      try_catch (r.server.list_entries [] >>= λ entries. return (usernames entries)) (lost [])

  -- `getKnownEmailUsernamesFromVault`
  unfoldable pub known_emails : M (List Text)
  unfolding end_session add_emails
  known_emails = do unlocked ← is_unlocked r; known_entries unlocked

  abbrev any_allowed : Text → List Item → Bool
  any_allowed page_url items = any (λ (i : Item). is_allowed r.platform i.metadata page_url) items

  abbrev saved_for : Text → M Bool
  saved_for page_url =
      try_catch
        (entries_for r (key r.platform page_url) >>= λ items. return (any_allowed page_url items))
        (lost true)

  abbrev saved_when : Text → Bool → M Bool
  saved_when page_url unlocked =
      if not unlocked
      then return true
      else if is_empty (key r.platform page_url)
      then return false
      else saved_for page_url

  -- `hasSavedCredentialsForPage`
  unfoldable pub has_saved : Text → M Bool
  unfolding is_allowed end_session
  has_saved page_url =
      if not (is_page_allowed r.platform page_url)
      then return false
      else do unlocked ← is_unlocked r; saved_when page_url unlocked

  abbrev pub offered : List Text → List Text → List Text
  offered manual vault = take max_visible (merge_lists r.platform manual vault)

  abbrev pub offer_known : Suggestions → M (List Text)
  offer_known stored = do
    vault ← known_emails
    return (offered (parse_suggestions r.platform stored) vault)

  abbrev pub offer_emails : M (List Text)
  offer_emails = do _ ← wait r 50; stored ← gets (λ w. w.email_suggestions); offer_known stored

  abbrev pub emails_unless : Bool → M (List Text)
  emails_unless true = return []
  emails_unless false = offer_emails

  -- `getEmailSuggestionsForPage`
  unfoldable pub suggestions_for : Text → M (List Text)
  unfolding known_emails has_saved parse_suggestions merge_lists is_page_allowed
  suggestions_for page_url =
      if not (is_page_allowed r.platform page_url)
      then return []
      else do saved ← has_saved page_url; emails_unless saved
