-- ===== src/Worker/Prompt.antt =====
-- extension/background/service-worker.js: the prompt to save a submitted credential.
use passwort_manager_yurr.Common.{
  ℕ, Bool, true, false, not, ◌&&◌, List, [], ◌++◌, map, Option, none, some, Text, codes, text_eq,
  truthy, is_empty, if◌then◌else◌,
}
use passwort_manager_yurr.Site.Scope.{key}
use passwort_manager_yurr.World.{PendingCredential}
use passwort_manager_yurr.Credential.{Metadata, is_page_allowed, is_allowed}
use passwort_manager_yurr.Credential.Save.{
  Decision, missing_username, ambiguous_username, unchanged, update, or_else, candidates,
  save_decision,
}
use passwort_manager_yurr.Pending.{get_username, clear_username, get_credentials, clear_credentials}
use passwort_manager_yurr.Session.Api.{M, ◌>>=◌, return}
use passwort_manager_yurr.Worker.{Runtime, Sender, Payload, is_unlocked, reset_auto_lock, vault}
use passwort_manager_yurr.Worker.Pages.{page_of}
use passwort_manager_yurr.Worker.Held.{
  is_submission, get_pending, username_or_pending, clear_pending,
}

-- What a prompt asks, and what it shows.
pub data Question : Type 0 where
  choose_account update_saved save_new : Question

-- An account that the user may choose.
pub record Account : Type 0 where
  pub id : Text
  pub username : Text

pub record Prompt : Type 0 where
  pub reason : Decision
  pub url : Text
  pub domain : Text
  pub username : Text
  pub password : Text
  pub submission_id : Text
  pub expires_at : ℕ
  pub action : Question
  pub accounts : List Account
  pub entry_id : Option Text
  pub message : Text

pub data Waiting : Type 0 where
  locked no_pending settled : Waiting
  available : (submission_id : Text) → (expires_at : ℕ) → Waiting
  prompt : Prompt → Waiting

-- `buildSavePromptMessage`
abbrev pub prompt_message : Decision → Text → Text → Text
prompt_message (update id name confirm) domain username =
    codes "Update saved password for " ++ or_else username domain ++ codes "?"
prompt_message decision domain username = codes "Save password for " ++ domain ++ codes "?"

abbrev pub is_unchanged : Decision → Bool
is_unchanged (unchanged id name) = true
is_unchanged decision = false

abbrev pub question_of : Decision → Question
question_of missing_username = choose_account
question_of ambiguous_username = choose_account
question_of (update id name confirm) = update_saved
question_of decision = save_new

abbrev pub entry_id_of : Decision → Option Text
entry_id_of (update id name confirm) = truthy (some id)
entry_id_of decision = none

abbrev pub username_of : Decision → Text
username_of (update id name confirm) = name
username_of decision = []

-- The entry that `isCredentialAllowedForPage({ website_url })` is asked about.
abbrev pub entry_at : Text → Metadata
entry_at url = record { id = []; website_url = url; website_domain = []; username = [] }

module _ (r : Runtime) where
  abbrev pub account_of : Metadata → Account
  account_of m = record { id = m.id; username = m.username }

  abbrev pub accounts_on : List Metadata → Text → List Account
  accounts_on existing page = map account_of (candidates r.platform (vault r) existing page)

  abbrev pub accounts_for : Decision → List Metadata → Text → List Account
  accounts_for missing_username existing page = accounts_on existing page
  accounts_for ambiguous_username existing page = accounts_on existing page
  accounts_for decision existing page = []

  abbrev pub prompt_for : PendingCredential → Text → Text → List Metadata → Decision → Prompt
  prompt_for c page name existing decision = record {
    reason = decision;
    url = c.url;
    domain = c.domain;
    username = name;
    password = c.password;
    submission_id = c.submission_id;
    expires_at = c.expires_at;
    action = question_of decision;
    accounts = accounts_for decision existing page;
    entry_id = entry_id_of decision;
    message =
        prompt_message decision (or_else c.domain (key r.platform page))
          (or_else (username_of decision) name);
  }

  abbrev pub settle_pending : Text → Sender → Text → M Waiting
  settle_pending domain s submission_id = do
    _ ← clear_pending r domain s submission_id
    return settled

  abbrev pub prompt_still :
      PendingCredential → Sender → Text → Text → List Metadata → Decision → M Waiting
  prompt_still c s page name existing decision =
      if is_unchanged decision
      then settle_pending (key r.platform page) s c.submission_id
      else return (prompt (prompt_for c page name existing decision))

  abbrev pub prompt_when :
      PendingCredential
      → Sender
      → Text
      → Text
      → List Metadata
      → Decision
      → Option PendingCredential
      → M Waiting
  prompt_when c s page name existing decision current =
      if not (is_submission current c.submission_id)
      then return no_pending
      else prompt_still c s page name existing decision

  abbrev pub prompt_decided :
      PendingCredential → Sender → Text → Text → List Metadata → Decision → M Waiting
  prompt_decided c s page name existing decision = do
    current ← get_pending r (key r.platform page) s
    prompt_when c s page name existing decision current

  abbrev pub prompt_listed : PendingCredential → Sender → Text → Text → List Metadata → M Waiting
  prompt_listed c s page name existing = do
    decision ← save_decision r.platform (vault r) c.is_password_change existing page name c.password
    prompt_decided c s page name existing decision

  abbrev pub prompt_named : PendingCredential → Sender → Text → Text → M Waiting
  prompt_named c s page name = do
    existing ← r.server.list_entries (key r.platform page)
    prompt_listed c s page name existing

  abbrev pub prompt_pending : PendingCredential → Sender → Text → M Waiting
  prompt_pending c s page = do
    _ ← reset_auto_lock r
    name ← username_or_pending r c.username (key r.platform page) s
    prompt_named c s page name

  abbrev pub is_asked : Payload → PendingCredential → Bool
  is_asked p c = if is_empty p.submission_id then true else text_eq p.submission_id c.submission_id

  abbrev pub is_early : Payload → PendingCredential → Text → Bool
  is_early p c page = not c.prompt_ready && text_eq c.page_url page && not p.manual

  abbrev pub check_timely : Payload → Sender → Text → PendingCredential → M Waiting
  check_timely p s page c =
      if is_early p c page
      then return (available c.submission_id c.expires_at)
      else prompt_pending c s page

  abbrev pub check_asked : Payload → Sender → Text → PendingCredential → M Waiting
  check_asked p s page c = if not (is_asked p c) then return no_pending else check_timely p s page c

  abbrev pub check_found : Payload → Sender → Text → Option PendingCredential → M Waiting
  check_found p s page none = return no_pending
  check_found p s page (some c) =
      if not (is_allowed r.platform (entry_at c.url) page)
      then return no_pending
      else check_asked p s page c

  abbrev pub check_page : Payload → Sender → Text → M Waiting
  check_page p s page = do
    pending ← get_pending r (key r.platform page) s
    check_found p s page pending

  abbrev pub check_allowed : Payload → Sender → Text → M Waiting
  check_allowed p s page =
      if not (is_page_allowed r.platform page) then return no_pending else check_page p s page

  abbrev pub check_when : Payload → Sender → Text → Bool → M Waiting
  check_when p s page unlocked = if not unlocked then return locked else check_allowed p s page

  -- `CHECK_PENDING_CREDENTIALS`
  unfoldable pub check_pending : Payload → Sender → M Waiting
  unfolding is_page_allowed is_allowed get_credentials get_username save_decision clear_username
      clear_credentials page_of
  check_pending p s = do unlocked ← is_unlocked r; check_when p s (page_of r p s) unlocked
