-- ===== src/Worker/Submit.antt =====
-- extension/background/service-worker.js: the handler that saves a submitted credential. What it is
-- going to do is decided first, as a plan, and then done.
use passwort_manager_yurr.Common.{
  Bool, false, not, ◌&&◌, List, [], ◌∷◌, ◌++◌, Option, none, some, Text, codes, text_eq, is_empty,
  if◌then◌else◌, trim, find,
}
use passwort_manager_yurr.Site.Scope.{key}
use passwort_manager_yurr.World.{PendingCredential}
use passwort_manager_yurr.Credential.{Metadata, is_page_allowed}
use passwort_manager_yurr.Credential.SafeUrl.{safe_url}
use passwort_manager_yurr.Credential.Save.{
  Decision, ambiguous_username, unchanged, update, or_else, candidates, compare_existing,
  save_decision,
}
use passwort_manager_yurr.Pending.{
  get_username, clear_username, get_credentials, clear_credentials, matches_submission,
}
use passwort_manager_yurr.Session.Api.{M, ◌>>=◌, return}
use passwort_manager_yurr.Worker.{
  Runtime, Sender, Payload, is_unlocked, reset_auto_lock, vault, mutate_entries,
}
use passwort_manager_yurr.Worker.Pages.{page_of, from_content_script}
use passwort_manager_yurr.Worker.Prompt.{prompt_message, is_unchanged}
use passwort_manager_yurr.Worker.Held.{
  is_submission, submission_of, get_pending, get_pending_username, clear_pending,
}

-- Why nothing is saved.
pub data Reason : Type 0 where
  not_possible missing_password missing_pending_credential entry_not_found : Reason
  ambiguous no_username several_logins : Reason
  confirm_update : (entry_id username message : Text) → Reason

pub data Answer : Type 0 where
  saved_unchanged saved_updated saved_created : Answer
  not_saved : Reason → Answer

-- What is to be done, once the entries were looked at.
pub data Plan : Type 0 where
  refuse : Reason → Plan
  settle : Plan
  update_entry : (id : Text) → Plan
  create_entry : (username : Text) → Plan

-- A submission that may be saved: the page it is from, the entries that are allowed on the page, and
-- the credential that waits for a prompt.
pub record Submitted : Type 0 where
  pub page : Text
  pub password : Text
  pub existing : List Metadata
  pub pending : Option PendingCredential

abbrev pub is_password_change : Option PendingCredential → Bool
is_password_change none = false
is_password_change (some c) = c.is_password_change

-- A password that is not what the entry has, of the entry that the user has chosen.
abbrev pub plan_compared : Text → Decision → Plan
plan_compared id decision = if is_unchanged decision then settle else update_entry id

-- What is asked without a user name.
abbrev pub plan_listed : List Metadata → Plan
plan_listed [] = refuse no_username
plan_listed (e ∷ []) = refuse (
    confirm_update e.id e.username
      (codes "Update saved password for " ++ or_else e.username e.website_domain ++ codes "?"))
plan_listed (_ ∷ _ ∷ _) = refuse several_logins

abbrev pub ask_update : Text → Text → Decision → Text → Plan
ask_update id name decision domain =
    refuse (confirm_update id name (prompt_message decision domain name))

-- A decision with an entry to update, a new user name, or neither.
abbrev pub plan_decided : List Metadata → Text → Text → Bool → Decision → Plan
plan_decided existing domain username confirm ambiguous_username = refuse ambiguous
plan_decided existing domain username confirm (unchanged id name) = settle
plan_decided existing domain username confirm (update id name asks) =
    if is_empty id
    then (if is_empty username then plan_listed existing else create_entry username)
    else if is_empty username
    then ask_update id name (update id name asks) domain
    else if asks && not confirm
    then ask_update id name (update id name asks) domain
    else update_entry id
plan_decided existing domain username confirm decision =
    if is_empty username then plan_listed existing else create_entry username

module _ (r : Runtime) where
  abbrev pub plan_found : Submitted → Option Metadata → M Plan
  plan_found x none = return (refuse entry_not_found)
  plan_found x (some e) = do
    decision ← compare_existing r.platform (vault r) e x.page x.password
    return (plan_compared e.id decision)

  -- The entry that the user has chosen, and an update that is confirmed.
  abbrev pub plan_chosen : Submitted → Text → M Plan
  plan_chosen x entry_id = plan_found x (find (λ e. text_eq e.id entry_id) x.existing)

  abbrev pub plan_saved : Submitted → Text → Bool → M Plan
  plan_saved x username confirm = do
    decision ←
        save_decision r.platform (vault r) (is_password_change x.pending) x.existing x.page username
          x.password
    return (plan_decided x.existing (key r.platform x.page) username confirm decision)

  abbrev pub plan_named : Payload → Submitted → Text → M Plan
  plan_named p x username =
      if p.confirm_update && not (is_empty p.entry_id)
      then plan_chosen x p.entry_id
      else plan_saved x username p.confirm_update

  abbrev pub plan_remembered : Payload → Submitted → Text → M Plan
  plan_remembered p x remembered = plan_named p x (trim (or_else p.username remembered))

  abbrev pub plan_submitted : Payload → Sender → Submitted → M Plan
  plan_submitted p s x = do
    remembered ← get_pending_username r (key r.platform x.page) s
    plan_remembered p x remembered

  -- A page may save only what waits for a prompt.
  abbrev pub is_matching : Payload → Submitted → Bool
  is_matching p x =
      is_submission x.pending p.submission_id
      && matches_submission r.platform r.env x.pending x.page x.password

  abbrev pub plan_pending : Payload → Sender → Submitted → M Plan
  plan_pending p s x =
      if from_content_script r s && not (is_matching p x)
      then return (refuse missing_pending_credential)
      else plan_submitted p s x

  abbrev pub finish : Text → Sender → Submitted → Answer → M Answer
  finish domain s x answer = do
    _ ← clear_pending r domain s (submission_of x.pending)
    return answer

  abbrev pub update_then : Sender → Submitted → Text → M Answer
  update_then s x id = do
    _ ← mutate_entries r (r.server.update_password id x.password)
    finish (key r.platform x.page) s x saved_updated

  abbrev pub create_then : Payload → Sender → Submitted → Text → M Answer
  create_then p s x name = do
    _ ← mutate_entries r (r.server.create_entry (safe_url r.platform p.url x.page) name x.password)
    finish (key r.platform x.page) s x saved_created

  abbrev pub perform : Payload → Sender → Submitted → Plan → M Answer
  perform p s x (refuse reason) = return (not_saved reason)
  perform p s x settle = finish (key r.platform x.page) s x saved_unchanged
  perform p s x (update_entry id) = update_then s x id
  perform p s x (create_entry name) = create_then p s x name

  abbrev pub submit_pending : Payload → Sender → Submitted → M Answer
  submit_pending p s x = do plan ← plan_pending p s x; perform p s x plan

  abbrev pub submit_listed :
      Payload → Sender → Text → List Metadata → Option PendingCredential → M Answer
  submit_listed p s page existing pending =
      submit_pending p s
        (record { page = page; password = p.password; existing = existing; pending = pending })

  abbrev pub pending_of : Text → Sender → M (Option PendingCredential)
  pending_of domain s = if from_content_script r s then get_pending r domain s else return none

  abbrev pub submit_allowed : Payload → Sender → Text → List Metadata → M Answer
  submit_allowed p s page listed = do
    pending ← pending_of (key r.platform page) s
    submit_listed p s page (candidates r.platform (vault r) listed page) pending

  abbrev pub submit_on : Payload → Sender → Text → M Answer
  submit_on p s page = do
    listed ← r.server.list_entries (key r.platform page)
    submit_allowed p s page listed

  abbrev pub submit_keyed : Payload → Sender → Text → M Answer
  submit_keyed p s page =
      if is_empty (key r.platform page) then return (not_saved not_possible) else submit_on p s page

  abbrev pub submit_counted : Payload → Sender → Text → M Answer
  submit_counted p s page = do _ ← reset_auto_lock r; submit_keyed p s page

  abbrev pub submit_given : Payload → Sender → Text → M Answer
  submit_given p s page =
      if is_empty p.password then return (not_saved missing_password) else submit_counted p s page

  abbrev pub submit_from : Payload → Sender → Text → M Answer
  submit_from p s page =
      if not (is_page_allowed r.platform page)
      then return (not_saved not_possible)
      else submit_given p s page

  abbrev pub submit_when : Payload → Sender → Text → Bool → M Answer
  submit_when p s page unlocked =
      if not unlocked then return (not_saved not_possible) else submit_from p s page

  -- `FORM_SUBMITTED`
  unfoldable pub form_submitted : Payload → Sender → M Answer
  unfolding is_page_allowed get_credentials get_username save_decision compare_existing
      clear_username clear_credentials matches_submission page_of trim mutate_entries safe_url
  form_submitted p s = do unlocked ← is_unlocked r; submit_when p s (page_of r p s) unlocked
