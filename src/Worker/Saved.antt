-- ===== src/Worker/Saved.antt =====
-- extension/background/service-worker.js: what the handler of a submitted credential writes.
use passwort_manager_yurr.Common.{
  ◌≡◌, ◌⊎◌, refl, ap, Bool, true, not, All, All-filtered, Among, All-Among, List, Text, is_empty,
  All-filter, inl, inr,
}
use passwort_manager_yurr.Site.Scope.{key}
use passwort_manager_yurr.World.{World}
use passwort_manager_yurr.Credential.{Metadata, is_allowed, is_page_allowed}
use passwort_manager_yurr.Credential.SafeUrl.{safe_url}
use passwort_manager_yurr.Credential.Save.{candidates}
use passwort_manager_yurr.Session.Api.{Result, ok, return, then_run-eq-ok, return-eq, if-eq}
use passwort_manager_yurr.Worker.{
  Runtime, Sender, Payload, is_unlocked, reset_auto_lock, vault, mutate_entries,
}
use passwort_manager_yurr.Worker.Pages.{page_of}
use passwort_manager_yurr.Worker.Named.{IsPermitted, backed-IsPermitted}
use passwort_manager_yurr.Worker.Plans.{
  IsChosen, IsOther, IsBacked, IsGrounded, AllAllowed, plan_pending-IsGrounded,
}
use passwort_manager_yurr.Worker.Submit.{
  Answer, not_saved, saved_unchanged, saved_updated, saved_created, missing_password, not_possible,
  Plan, refuse, settle, update_entry, create_entry, Submitted, plan_pending, finish, perform,
  submit_pending, submit_listed, pending_of, submit_allowed, submit_on, submit_keyed,
  submit_counted, submit_given, submit_from, submit_when, form_submitted,
}

module _ (r : Runtime) (p : Payload) (s : Sender) where
  -- An update that the server has accepted, of an entry that the user has chosen or that the code
  -- has compared.
  pub record IsUpdated (x : Submitted) : Type 0 where
    pub id : Text
    pub before : World
    pub after : World
    pub written : mutate_entries r (r.server.update_password id x.password) before ≡ (ok tt, after)
    pub reason : IsChosen r p x id ⊎ IsOther r x.page x.password id
    pub backed : IsBacked r p s x

  pub record IsCreated (x : Submitted) : Type 0 where
    pub name : Text
    pub before : World
    pub after : World
    pub written :
        mutate_entries r
          (r.server.create_entry (safe_url r.platform p.url x.page) name x.password)
          before
        ≡ (ok tt, after)
    pub backed : IsBacked r p s x

  abbrev pub IsAnswered : Submitted → Answer → Type 0
  IsAnswered x saved_unchanged = IsBacked r p s x
  IsAnswered x saved_updated = IsUpdated x
  IsAnswered x saved_created = IsCreated x
  IsAnswered x (not_saved reason) = Unit

  returned-IsAnswered :
      (x : Submitted) (a b : Answer) (w v : World)
      → return a w ≡ (ok b, v)
      → IsAnswered x a
      → IsAnswered x b
  returned-IsAnswered x a b w v h j = rw (return-eq h) at j

  finish-IsAnswered :
      (domain : Text) (x : Submitted) (a b : Answer) (w v : World)
      → finish r domain s x a w ≡ (ok b, v)
      → IsAnswered x a
      → IsAnswered x b
  finish-IsAnswered domain x a b w v h j = returned-IsAnswered x a b _ v h j

  perform-IsAnswered :
      (x : Submitted) (plan : Plan) (b : Answer) (w v : World)
      → IsGrounded r p s x plan
      → perform r p s x plan w ≡ (ok b, v)
      → IsAnswered x b
  perform-IsAnswered x (refuse reason) b w v j h =
      returned-IsAnswered x (not_saved reason) b w v h tt
  perform-IsAnswered x settle b w v j h =
      finish-IsAnswered (key r.platform x.page) x saved_unchanged b w v h j.1
  perform-IsAnswered x (update_entry id) b w v j h =
      let got =
        then_run-eq-ok (mutate_entries r (r.server.update_password id x.password) w)
          (λ (_ : Unit {0}). finish r (key r.platform x.page) s x saved_updated) h in
      finish-IsAnswered (key r.platform x.page) x saved_updated b got.1 v got.3
        (record { id = id; before = w; after = got.1; written = got.2; reason = j.0; backed = j.1 })
  perform-IsAnswered x (create_entry name) b w v j h =
      let url = safe_url r.platform p.url x.page in
      let got =
        then_run-eq-ok (mutate_entries r (r.server.create_entry url name x.password) w)
          (λ (_ : Unit {0}). finish r (key r.platform x.page) s x saved_created) h in
      finish-IsAnswered (key r.platform x.page) x saved_created b got.1 v got.3
        (record { name = name; before = w; after = got.1; written = got.2; backed = j.1 })

  submit_pending-IsAnswered :
      (x : Submitted) (b : Answer) (w v : World)
      → AllAllowed r x
      → submit_pending r p s x w ≡ (ok b, v)
      → IsAnswered x b
  submit_pending-IsAnswered x b w v j h =
      let got = then_run-eq-ok (plan_pending r p s x w) (perform r p s x) h in
      perform-IsAnswered x got.0 b got.1 v (plan_pending-IsGrounded r p s x got.0 w got.1 j got.2)
        got.3

  -- The submission that an answer is about: the entries that were listed for the site of the page at
  -- first, those of them that are allowed on the page, and what waited for a prompt after that.
  pub record IsSaved (page : Text) (start : World) (b : Answer) : Type 0 where
    pub submitted : Submitted
    pub listed : List Metadata
    pub before : World
    pub listing : r.server.list_entries (key r.platform page) start ≡ (ok listed, before)
    pub same_page : submitted.page ≡ page
    pub same_password : submitted.password ≡ p.password
    pub allowed :
        All (λ m. Among m listed × (is_allowed r.platform m page ≡ true)) submitted.existing
    pub permitted : IsPermitted r p s submitted before
    pub answered : IsAnswered submitted b

  abbrev pub IsSound : Text → World → Answer → Type 0
  IsSound page start (not_saved reason) = Unit
  IsSound page start b = IsSaved page start b

  returned-IsSound :
      (page : Text) (start : World) (a b : Answer) (w v : World)
      → return a w ≡ (ok b, v)
      → IsSound page start a
      → IsSound page start b
  returned-IsSound page start a b w v h j = rw (return-eq h) at j

  submit_allowed-IsSound :
      (page : Text) (start : World) (listed : List Metadata) (b : Answer) (w v : World)
      → r.server.list_entries (key r.platform page) start ≡ (ok listed, w)
      → submit_allowed r p s page listed w ≡ (ok b, v)
      → IsSound page start b
  submit_allowed-IsSound page start listed b w v listing h =
      let existing = candidates r.platform (vault r) listed page in
      let got =
        then_run-eq-ok (pending_of r (key r.platform page) s w) (submit_listed r p s page existing)
          h in
      let x : Submitted = record {
        page = page;
        password = p.password;
        existing = existing;
        pending = got.0;
      } in
      let all : AllAllowed r x = All-filter (λ m. is_allowed r.platform m page) listed in
      sound b x w got.1 got.2 (submit_pending-IsAnswered x b got.1 v all got.3) refl refl (
        All-filtered (λ m. Among m listed) (λ m. is_allowed r.platform m page) listed
          (All-Among listed))
    where
      saved :
          (b : Answer) (x : Submitted) (u : World)
          → pending_of r (key r.platform x.page) s w ≡ (ok x.pending, u)
          → IsAnswered x b
          → IsBacked r p s x
          → x.page ≡ page
          → x.password ≡ p.password
          → All (λ m. Among m listed × (is_allowed r.platform m page ≡ true)) x.existing
          → IsSaved page start b
      saved b x u read answered backed same_page same_password allowed = record {
        submitted = x;
        listed = listed;
        before = w;
        listing = listing;
        same_page = same_page;
        same_password = same_password;
        allowed = allowed;
        permitted = backed-IsPermitted r p s x w u read backed;
        answered = answered;
      }

      sound :
          (b : Answer) (x : Submitted) (first u : World)
          → pending_of r (key r.platform x.page) s w ≡ (ok x.pending, u)
          → IsAnswered x b
          → x.page ≡ page
          → x.password ≡ p.password
          → All (λ m. Among m listed × (is_allowed r.platform m page ≡ true)) x.existing
          → IsSound page start b
      sound (not_saved reason) x first u read answered e k l = tt
      sound saved_unchanged x first u read answered e k l =
          saved saved_unchanged x u read answered answered e k l
      sound saved_updated x first u read answered e k l =
          saved saved_updated x u read answered answered.backed e k l
      sound saved_created x first u read answered e k l =
          saved saved_created x u read answered answered.backed e k l

  submit_keyed-IsSound :
      (page : Text) (b : Answer) (w v : World)
      → submit_keyed r p s page w ≡ (ok b, v)
      → IsSound page w b
  submit_keyed-IsSound page b w v h =
      elim (if-eq (is_empty (key r.platform page)) (return (not_saved not_possible))
        (submit_on r p s page) w h) [
          | inl nowhere ↦ returned-IsSound page w (not_saved not_possible) b w v nowhere.1 tt
          | inr site ↦
              let got =
                then_run-eq-ok (r.server.list_entries (key r.platform page) w)
                  (submit_allowed r p s page) site.1 in
              submit_allowed-IsSound page w got.0 b got.1 v got.2 got.3
        ]

  -- The state in which the entries are listed: the user has been active.
  abbrev pub noted : World → World
  noted w = (reset_auto_lock r w).1

  with_password-IsSound :
      (page : Text) (b : Answer) (w v : World)
      → submit_given r p s page w ≡ (ok b, v)
      → IsSound page (noted w) b
  with_password-IsSound page b w v h =
      elim (if-eq (is_empty p.password) (return (not_saved missing_password))
        (submit_counted r p s page) w h) [
          | inl missing ↦
              returned-IsSound page (noted w) (not_saved missing_password) b w v missing.1 tt
          | inr given ↦ submit_keyed-IsSound page b _ v given.1
        ]

  on_page-IsSound :
      (page : Text) (b : Answer) (w v : World)
      → submit_from r p s page w ≡ (ok b, v)
      → IsSound page (noted w) b
  on_page-IsSound page b w v h =
      elim (if-eq (not (is_page_allowed r.platform page)) (return (not_saved not_possible))
        (submit_given r p s page) w h) [
          | inl refused ↦
              returned-IsSound page (noted w) (not_saved not_possible) b w v refused.1 tt
          | inr accepted ↦ with_password-IsSound page b w v accepted.1
        ]

  submit_when-IsSound :
      (page : Text) (unlocked : Bool) (b : Answer) (w v : World)
      → submit_when r p s page unlocked w ≡ (ok b, v)
      → IsSound page (noted w) b
  submit_when-IsSound page unlocked b w v h =
      elim (if-eq (not unlocked) (return (not_saved not_possible)) (submit_from r p s page) w h) [
        | inl locked ↦ returned-IsSound page (noted w) (not_saved not_possible) b w v locked.1 tt
        | inr open_vault ↦ on_page-IsSound page b w v open_vault.1
      ]

  -- When `FORM_SUBMITTED` answers that something was saved and a content script has asked, it has
  -- named the credential that waits for a prompt in the frame and on the site of the message's page,
  -- in the session and not expired: with its number and its password, and it is allowed on the page.
  -- After an update the server had accepted it, and the entry was either chosen by the user, who had
  -- confirmed it, is one of those listed for the site and is allowed on the page, or was fetched, is
  -- allowed on the page and had another password. After a creation the server had accepted a new
  -- entry for an address that is safe for the page.
  pub form_submitted-IsSound :
      (b : Answer) (w v : World)
      → form_submitted r p s w ≡ (ok b, v)
      → IsSound (page_of r p s) (noted (is_unlocked r w).1) b
  unfolding form_submitted
  form_submitted-IsSound b w v h =
      let got = then_run-eq-ok (is_unlocked r w) (submit_when r p s (page_of r p s)) h in
      rw (ap (λ (x : Result Bool × World). x.1) got.2)
        (submit_when-IsSound (page_of r p s) got.0 b got.1 v got.3)
