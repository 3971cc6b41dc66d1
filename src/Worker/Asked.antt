-- ===== src/Worker/Asked.antt =====
-- extension/background/service-worker.js: the checks before a page is asked about a credential.
use passwort_manager_yurr.Common.{
  ◌≡◌, refl, ap, Text, Bool, true, false, not, Option, none, some, inl, inr,
}
use passwort_manager_yurr.Site.Scope.{key}
use passwort_manager_yurr.World.{World, PendingCredential}
use passwort_manager_yurr.Credential.{is_allowed, is_page_allowed}
use passwort_manager_yurr.Session.Api.{Result, ok, return, then_run-eq-ok, if-eq}
use passwort_manager_yurr.Worker.{Runtime, Sender, Payload, is_unlocked}
use passwort_manager_yurr.Worker.Pages.{page_of}
use passwort_manager_yurr.Worker.Held.{get_pending}
use passwort_manager_yurr.Worker.Prompt.{
  Waiting, locked, no_pending, available, entry_at, is_asked, is_early, prompt_pending,
  check_timely, check_asked, check_found, check_page, check_allowed, check_when, check_pending,
}
use passwort_manager_yurr.Worker.Prompted.{
  IsFound, get_pending-IsFound, IsAsked, returned-IsAsked, prompt_pending-IsAsked, waiting_of,
}

module _ (r : Runtime) (p : Payload) (s : Sender) where
  opposite : (b : Bool) → not b ≡ false → b ≡ true
  opposite true h = refl
  opposite false h = cc

  check_timely-IsAsked :
      (page : Text) (before : World) (c : PendingCredential) (b : Waiting) (w v : World)
      → IsFound r p s page before c
      → is_allowed r.platform (entry_at c.url) page ≡ true
      → is_asked r p c ≡ true
      → check_timely r p s page c w ≡ (ok b, v)
      → IsAsked r p s page before b
  check_timely-IsAsked page before c b w v f a i h =
      elim (if-eq (is_early r p c page) (return (available c.submission_id c.expires_at))
        (prompt_pending r c s page) w h) [
          | inl early ↦
              returned-IsAsked r p s page before (available c.submission_id c.expires_at) b w v
                early.1 tt
          | inr timely ↦
              prompt_pending-IsAsked r p s page before c b w v
                (waiting_of r p s page before c f a i timely.0) timely.1
        ]

  check_asked-IsAsked :
      (page : Text) (before : World) (c : PendingCredential) (b : Waiting) (w v : World)
      → IsFound r p s page before c
      → is_allowed r.platform (entry_at c.url) page ≡ true
      → check_asked r p s page c w ≡ (ok b, v)
      → IsAsked r p s page before b
  check_asked-IsAsked page before c b w v f a h =
      elim (if-eq (not (is_asked r p c)) (return no_pending) (check_timely r p s page c) w h) [
        | inl other ↦ returned-IsAsked r p s page before no_pending b w v other.1 tt
        | inr asked ↦
            check_timely-IsAsked page before c b w v f a (opposite (is_asked r p c) asked.0) asked.1
      ]

  check_found-IsAsked :
      (page : Text) (before : World) (c : Option PendingCredential) (b : Waiting) (w v : World)
      → ((found : PendingCredential) → c ≡ some found → IsFound r p s page before found)
      → check_found r p s page c w ≡ (ok b, v)
      → IsAsked r p s page before b
  check_found-IsAsked page before none b w v f h =
      returned-IsAsked r p s page before no_pending b w v h tt
  check_found-IsAsked page before (some c) b w v f h =
      elim (if-eq (not (is_allowed r.platform (entry_at c.url) page)) (return no_pending)
        (check_asked r p s page c) w h) [
          | inl refused ↦ returned-IsAsked r p s page before no_pending b w v refused.1 tt
          | inr allowed ↦
              check_asked-IsAsked page before c b w v (f c refl)
                (opposite (is_allowed r.platform (entry_at c.url) page) allowed.0) allowed.1
        ]

  check_page-IsAsked :
      (page : Text) (b : Waiting) (w v : World)
      → check_page r p s page w ≡ (ok b, v)
      → IsAsked r p s page w b
  check_page-IsAsked page b w v h =
      let got =
        then_run-eq-ok (get_pending r (key r.platform page) s w) (check_found r p s page) h in
      check_found-IsAsked page w got.0 b got.1 v
        (λ c e. get_pending-IsFound r p s page w got.0 got.1 c got.2 e) got.3

  check_when-IsAsked :
      (page : Text) (unlocked : Bool) (b : Waiting) (w v : World)
      → check_when r p s page unlocked w ≡ (ok b, v)
      → IsAsked r p s page w b
  check_when-IsAsked page unlocked b w v h =
      elim (if-eq (not unlocked) (return locked) (check_allowed r p s page) w h) [
        | inl closed ↦ returned-IsAsked r p s page w locked b w v closed.1 tt
        | inr unlocked_vault ↦
            elim (if-eq (not (is_page_allowed r.platform page)) (return no_pending)
              (check_page r p s page) w unlocked_vault.1) [
                | inl refused ↦ returned-IsAsked r p s page w no_pending b w v refused.1 tt
                | inr accepted ↦ check_page-IsAsked page b w v accepted.1
              ]
      ]

  -- When `CHECK_PENDING_CREDENTIALS` answers with a prompt, it shows the password and the number of
  -- the credential that waits for the frame and the site of the message's page, in the session and
  -- not expired, when the session was found unlocked. That is allowed on the page and is the one
  -- asked for, if one is, and its time has come: its page has ended, has changed, or the user asks.
  -- The accounts to choose from are those of entries that the server has listed for the site and
  -- that are allowed on the page, and an entry to update was fetched and is allowed on it.
  pub check_pending-IsAsked :
      (b : Waiting) (w v : World)
      → check_pending r p s w ≡ (ok b, v)
      → IsAsked r p s (page_of r p s) (is_unlocked r w).1 b
  unfolding check_pending
  check_pending-IsAsked b w v h =
      let got = then_run-eq-ok (is_unlocked r w) (check_when r p s (page_of r p s)) h in
      rw (ap (λ (x : Result Bool × World). x.1) got.2)
        (check_when-IsAsked (page_of r p s) got.0 b got.1 v got.3)
