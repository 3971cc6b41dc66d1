-- ===== src/Worker/Held.antt =====
-- extension/background/service-worker.js: the handlers of the user names and credentials that wait
-- for a prompt.
use passwort_manager_yurr.Common.{
  ℕ, Bool, true, false, not, [], Option, none, some, Text, text_eq, is_empty, ◌==◌, if◌then◌else◌,
  trim,
}
use passwort_manager_yurr.Site.Scope.{key}
use passwort_manager_yurr.World.{PendingCredential}
use passwort_manager_yurr.Credential.{is_page_allowed}
use passwort_manager_yurr.Credential.SafeUrl.{safe_url}
use passwort_manager_yurr.Pending.{
  set_username, get_username, clear_username, set_credentials, get_credentials, mark_ready,
  clear_credentials, normalize_domain,
}
use passwort_manager_yurr.Session.Api.{M, ◌>>=◌, return}
use passwort_manager_yurr.Worker.{Runtime, Sender, Payload, total, gets, modify, is_unlocked}
use passwort_manager_yurr.Worker.Pages.{page_of, from_content_script, frame_of}

abbrev pub is_submission : Option PendingCredential → Text → Bool
is_submission none submission_id = false
is_submission (some c) submission_id = text_eq c.submission_id submission_id

-- `pending?.submissionId`; a pending credential always has one.
abbrev pub submission_of : Option PendingCredential → Text
submission_of none = []
submission_of (some c) = c.submission_id

module _ (r : Runtime) where
  abbrev pub get_pending_username : Text → Sender → M Text
  get_pending_username domain s = total (get_username r.platform r.env domain (frame_of r s))

  abbrev pub get_pending : Text → Sender → M (Option PendingCredential)
  get_pending domain s = total (get_credentials r.platform r.env domain (frame_of r s))

  -- `username || await getPendingUsername(domain, sender) || ''`
  abbrev pub username_or_pending : Text → Text → Sender → M Text
  username_or_pending name domain s =
      if is_empty name then get_pending_username domain s else return name

  -- `clearPendingUsername` and `clearPendingCredentials`
  abbrev pub clear_pending : Text → Sender → Text → M (Unit {0})
  clear_pending domain s submission_id = do
    _ ← modify (clear_username r.platform r.env domain (frame_of r s))
    modify (clear_credentials r.platform r.env domain (frame_of r s) submission_id)

  -- `PENDING_USERNAME`
  unfoldable pub pending_username : Payload → Sender → M Bool
  unfolding is_page_allowed safe_url set_username page_of
  pending_username p s =
      let page = page_of r p s in
      if not (is_page_allowed r.platform page)
      then return false
      else total (
          set_username r.platform r.env (key r.platform page)
            (some (safe_url r.platform p.url page)) p.username (frame_of r s))

  -- `GET_PENDING_USERNAME`
  unfoldable pub pending_username_for : Payload → Sender → M Text
  unfolding is_page_allowed get_username page_of
  pending_username_for p s =
      if not (is_page_allowed r.platform (page_of r p s))
      then return []
      else get_pending_username (key r.platform (page_of r p s)) s

  abbrev pub clear_username_of : Text → Sender → M Bool
  clear_username_of domain s = do
    _ ← modify (clear_username r.platform r.env domain (frame_of r s))
    return true

  -- `CLEAR_PENDING_USERNAME`
  unfoldable pub clear_pending_username : Payload → Sender → M Bool
  unfolding is_page_allowed clear_username page_of trim
  clear_pending_username p s =
      if not (from_content_script r s)
      then clear_username_of (normalize_domain r.platform r.env p.domain) s
      else if not (is_page_allowed r.platform (page_of r p s))
      then return false
      else clear_username_of (key r.platform (page_of r p s)) s

  abbrev pub store_pending : ℕ → Payload → Sender → Text → Text → M Bool
  store_pending generation p s page name w =
      if generation == w.token_generation
      then total
          (set_credentials r.platform r.env
            (record {
              url = safe_url r.platform p.url page;
              page_url = page;
              username = name;
              password = p.password;
              submission_id = p.submission_id;
              is_password_change = p.is_password_change;
            })
            (frame_of r s))
          w
      else return false w

  abbrev pub pending_when : ℕ → Payload → Sender → Text → Bool → M Bool
  pending_when generation p s page unlocked =
      if not unlocked
      then return false
      else if not (is_page_allowed r.platform page)
      then return false
      else do
        name ← username_or_pending p.username (key r.platform page) s
        store_pending generation p s page name

  -- `PENDING_CREDENTIALS`
  unfoldable pub pending_credentials : Payload → Sender → M Bool
  unfolding is_page_allowed safe_url set_credentials get_username page_of
  pending_credentials p s = do
    generation ← gets (λ w. w.token_generation)
    unlocked ← is_unlocked r
    pending_when generation p s (page_of r p s) unlocked

  -- `MARK_PENDING_CREDENTIALS_READY`
  unfoldable pub mark_pending_ready : Payload → Sender → M Bool
  unfolding is_page_allowed mark_ready page_of
  mark_pending_ready p s =
      let page = page_of r p s in
      if not (is_page_allowed r.platform page)
      then return false
      else total (mark_ready r.platform r.env (key r.platform page) (frame_of r s) p.submission_id)

  -- `CLEAR_PENDING_CREDENTIALS`
  unfoldable pub clear_pending_credentials : Payload → Sender → M Bool
  unfolding is_page_allowed clear_credentials page_of
  clear_pending_credentials p s =
      let page = page_of r p s in
      if not (is_page_allowed r.platform page) then return false else do
        _ ← modify (
            clear_credentials r.platform r.env (key r.platform page) (frame_of r s) p.submission_id)
        return true
