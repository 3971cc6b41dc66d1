-- ===== src/Credential/Save.antt =====
-- extension/background/service-worker.js: filling a credential by its id, and the decision to save
-- a submitted one. A call of the vault may throw, and other handlers may run during it.
use passwort_manager_yurr.Common.{
  Bool, true, false, not, List, [], ◌∷◌, Option, none, some, Text, if◌then◌else◌, text_eq, is_empty,
  filter, find, trim,
}
use passwort_manager_yurr.Platform.{Platform}
use passwort_manager_yurr.Site.Scope.{key}
use passwort_manager_yurr.Credential.{Metadata, is_allowed}
use passwort_manager_yurr.Session.Api.{M, ◌>>=◌, return}

pub record Detail : Type 0 where
  pub metadata : Metadata
  pub open metadata use *
  pub password : Text

pub record Filled : Type 0 where
  pub id : Text
  pub username : Text
  pub password : Text
  pub website_url : Text

-- The answers of `getCredentialsForDomain` and of `getEntry`.
pub record Vault : Type 0 where
  pub entries_for : Text → M (List Metadata)
  pub get_entry : Text → M Detail

pub data Decision : Type 0 where
  create missing_username ambiguous_username : Decision
  unchanged : (entry_id username : Text) → Decision
  update : (entry_id username : Text) → (requires_confirmation : Bool) → Decision

abbrev pub or_else : Text → Text → Text
or_else [] t = t
or_else (c ∷ s) t = c ∷ s

module _ (platform : Platform) (vault : Vault) where
  -- `normalizeUsername`
  abbrev pub normalize_username : Text → Text
  normalize_username name = platform.to_lower_case (trim name)

  -- The fetched entry, unless it is not allowed on the page.
  abbrev pub filled_from : Detail → Text → Option Filled
  filled_from detail page_url =
      if is_allowed platform detail.metadata page_url
      then some (record {
        id = detail.id;
        username = detail.username;
        password = detail.password;
        website_url = detail.website_url;
      })
      else none

  unfoldable pub fill_detail : Metadata → Text → M (Option Filled)
  fill_detail entry page_url = do
    detail ← vault.get_entry entry.id
    return (filled_from detail page_url)

  unfoldable pub fill_entry : Option Metadata → Text → M (Option Filled)
  unfolding fill_detail
  fill_entry none page_url = return none
  fill_entry (some entry) page_url =
      if is_allowed platform entry page_url then fill_detail entry page_url else return none

  -- `getCredentialForPageById`
  unfoldable pub get_credential_by_id : Text → Text → M (Option Filled)
  unfolding fill_entry
  get_credential_by_id id page_url =
      if is_empty (key platform page_url)
      then return none
      else if is_empty id
      then return none
      else do
        entries ← vault.entries_for (key platform page_url)
        fill_entry (find (λ item. text_eq item.id id) entries) page_url

  abbrev pub compare_detail : Metadata → Text → Text → Detail → Decision
  compare_detail entry page_url password detail =
      let name = or_else detail.username entry.username in
      if not (is_allowed platform detail.metadata page_url)
      then missing_username
      else if text_eq detail.password password
      then unchanged detail.id name
      else update detail.id name false

  -- `compareExistingCredentialPassword`
  unfoldable pub compare_existing : Metadata → Text → Text → M Decision
  compare_existing entry page_url password = do
    detail ← vault.get_entry entry.id
    return (compare_detail entry page_url password detail)

  abbrev pub confirmed : Decision → Decision
  confirmed (update id name _) = update id name true
  confirmed d = d

  -- `exactMatch || (normalizedMatches.length === 1 ? normalizedMatches[0] : null)`
  abbrev pub chosen : Option Metadata → List Metadata → Option Metadata
  chosen (some e) matches = some e
  chosen none (m ∷ []) = some m
  chosen none _ = none

  abbrev pub candidates : List Metadata → Text → List Metadata
  candidates existing page_url = filter (λ entry. is_allowed platform entry page_url) existing

  abbrev pub same_username : Text → Metadata → Bool
  same_username username entry =
      text_eq (normalize_username entry.username) (normalize_username username)

  -- The only candidate, whose update is to be confirmed.
  abbrev pub compare_only : Metadata → Text → Text → M Decision
  compare_only only page_url password = do
    d ← compare_existing only page_url password
    return (confirmed d)

  -- No entry was chosen by its user name.
  abbrev pub decide_unmatched : Bool → List Metadata → List Metadata → Text → Text → M Decision
  decide_unmatched prefer_single (_ ∷ _ ∷ _) found page_url password = return ambiguous_username
  decide_unmatched true _ (only ∷ []) page_url password = compare_only only page_url password
  decide_unmatched _ _ _ page_url password = return create

  abbrev pub decide_named :
      Bool → Option Metadata → List Metadata → List Metadata → Text → Text → M Decision
  decide_named prefer_single (some match) matches found page_url password =
      compare_existing match page_url password
  decide_named prefer_single none matches found page_url password =
      decide_unmatched prefer_single matches found page_url password

  abbrev pub decide_unnamed : List Metadata → Text → Text → M Decision
  decide_unnamed (only ∷ []) page_url password = compare_existing only page_url password
  decide_unnamed _ page_url password = return missing_username

  -- `getCredentialSaveDecision`
  unfoldable pub save_decision : Bool → List Metadata → Text → Text → Text → M Decision
  unfolding compare_existing trim
  save_decision prefer_single existing page_url username password =
      let found = candidates existing page_url in
      let exact = find (λ entry. text_eq (trim entry.username) (trim username)) found in
      let matches = filter (same_username username) found in
      if is_empty (normalize_username username)
      then decide_unnamed found page_url password
      else decide_named prefer_single (chosen exact matches) matches found page_url password
