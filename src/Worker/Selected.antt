-- ===== src/Worker/Selected.antt =====
-- extension/background/service-worker.js: the credential that was selected last on a domain.
use passwort_manager_yurr.Common.{
  ℕ, Bool, true, false, not, ◌&&◌, List, [], ◌∷◌, ◌++◌, map, Option, none, some, Text, codes,
  text_eq, is_empty, trim, leb, if◌then◌else◌, any, filter, find, take, drop, sort_by, starts_with,
}
use passwort_manager_yurr.Platform.{Platform}
use passwort_manager_yurr.Site.Scope.{key}
use passwort_manager_yurr.World.{World, Selected, Item}
use passwort_manager_yurr.Credential.{is_page_allowed, is_allowed}
use passwort_manager_yurr.Session.Api.{M, ◌>>=◌, return}
use passwort_manager_yurr.Worker.{
  Runtime, Sender, Payload, gets, modify, wait, is_unlocked, entries_for,
}
use passwort_manager_yurr.Worker.Pages.{page_of}

abbrev pub max_records : ℕ
max_records = 100

module _ (platform : Platform) where
  -- `normalizeDomain`
  abbrev pub normalize_domain : Text → Text
  normalize_domain value = platform.to_lower_case (trim value)

  -- `normalizeDomain(domain).replace(/^www\./, '')`
  unfoldable pub selection_domain : Text → Text
  unfolding trim
  selection_domain domain =
      let clean = normalize_domain domain in
      if starts_with clean (codes "www.") then drop 4 clean else clean

  abbrev pub is_kept : Selected → Bool
  is_kept s = not (is_empty (normalize_domain s.domain)) && not (is_empty (trim s.id))

  -- What `writeLastSelectedCredentials` writes
  unfoldable pub kept_records : List Selected → List Selected
  unfolding trim
  kept_records records =
      take max_records (sort_by (λ a b. leb b.selected_at a.selected_at) (filter is_kept records))

  abbrev pub set_record : Selected → List Selected → List Selected
  set_record s records =
      if any (λ old. text_eq old.domain s.domain) records
      then map (λ old. if text_eq old.domain s.domain then s else old) records
      else records ++ s ∷ []

  abbrev pub with_id : Option Selected → Option Selected
  with_id none = none
  with_id (some s) = if is_empty (trim s.id) then none else some s

  abbrev pub record_for : Text → List Selected → Option Selected
  record_for domain records = with_id (find (λ s. text_eq s.domain domain) records)

module _ (r : Runtime) where
  -- `getLastSelectedCredential`
  unfoldable pub last_selected : Text → M (Option Selected)
  unfolding selection_domain trim
  last_selected domain =
      let clean = selection_domain r.platform domain in
      if is_empty clean
      then return none
      else do _ ← wait r 51; gets (λ w. record_for r.platform clean w.last_selected)

  abbrev pub record_of : Text → Item → World → Selected
  record_of domain entry w = record {
    domain = domain;
    id = entry.metadata.id;
    username = entry.metadata.username;
    website_url = entry.metadata.website_url;
    selected_at = w.now;
  }

  abbrev pub store_selected : Text → Item → World → World
  store_selected domain entry w =
      let records = set_record r.platform (record_of domain entry w) w.last_selected in
      record w { last_selected = kept_records r.platform records }

  abbrev pub remember_entry : Text → Text → Option Item → M Bool
  remember_entry page domain none = return false
  remember_entry page domain (some entry) =
      if not (is_allowed r.platform entry.metadata page)
      then return false
      else do _ ← wait r 52; _ ← modify (store_selected domain entry); _ ← wait r 53; return true

  abbrev pub remember_listed : Text → Text → Text → List Item → M Bool
  remember_listed page domain id items =
      remember_entry page domain (find (λ (i : Item). text_eq i.metadata.id id) items)

  abbrev pub remember_from : Text → Text → M Bool
  remember_from page id =
      let domain = key r.platform page in
      let clean = selection_domain r.platform domain in
      if is_empty domain
      then return false
      else if is_empty clean
      then return false
      else if is_empty id
      then return false
      else do items ← entries_for r domain; remember_listed page clean id items

  abbrev pub remember_when : Text → Text → Bool → M Bool
  remember_when page id unlocked =
      if not unlocked
      then return false
      else if not (is_page_allowed r.platform page)
      then return false
      else remember_from page id

  -- `rememberSelectedCredentialForPage`
  unfoldable pub remember_selected : Payload → Sender → M Bool
  unfolding is_allowed is_page_allowed page_of selection_domain kept_records trim
  remember_selected p s = do
    unlocked ← is_unlocked r
    remember_when (page_of r p s) (trim p.id) unlocked
