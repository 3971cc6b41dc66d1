-- ===== src/Worker/Named.antt =====
-- extension/background/service-worker.js: which credential that waits a submission has named.
use passwort_manager_yurr.Common.{
  ◌≡◌, ◌⊎◌, refl, true, false, ◌&&◌, Option, none, some, Text, text_eq_iff, Bool-cases, inl, inr,
  arith,
}
use passwort_manager_yurr.Site.Scope.{key}
use passwort_manager_yurr.World.{World, PendingCredential}
use passwort_manager_yurr.Credential.Allowed.{IsAllowed, is_allowed_iff}
use passwort_manager_yurr.Pending.{matches_submission}
use passwort_manager_yurr.Pending.Owned.{IsOwned}
use passwort_manager_yurr.Session.Api.{ok}
use passwort_manager_yurr.Worker.{Runtime, Sender, Payload}
use passwort_manager_yurr.Worker.Pages.{from_content_script, frame_of}
use passwort_manager_yurr.Worker.Held.{is_submission, get_pending}
use passwort_manager_yurr.Worker.Prompt.{entry_at}
use passwort_manager_yurr.Worker.Prompted.{get_pending-IsFound}
use passwort_manager_yurr.Worker.Plans.{IsBacked}
use passwort_manager_yurr.Worker.Submit.{Submitted, is_matching, pending_of}

module _ (r : Runtime) (p : Payload) (s : Sender) where
  -- A credential that waits for a prompt, as a state has it, and that a submission has named: it waits
  -- for the frame and the site of the page, in the session and not expired, and has the number and
  -- the password of the message and an address that is allowed on the page.
  pub record IsNamed (x : Submitted) (before : World) : Type 0 where
    pub credential : PendingCredential
    pub after : World
    pub pending : x.pending ≡ some credential
    pub owned :
        IsOwned r.platform r.env (key r.platform x.page) (frame_of r s) before credential after
    pub submission_id : credential.submission_id ≡ p.submission_id
    pub password : credential.password ≡ x.password
    pub allowed : IsAllowed r.platform (entry_at credential.url) x.page

  matching-eq :
      (page password : Text) (o : Option PendingCredential)
      → (is_submission o p.submission_id && matches_submission r.platform r.env o page password)
        ≡ true
      → (c : PendingCredential) × (o ≡ some c)
        × (c.submission_id ≡ p.submission_id)
        × (c.password ≡ password)
        × IsAllowed r.platform (entry_at c.url) page
  unfolding matches_submission
  matching-eq page password none h = cc
  matching-eq page password (some c) h = (
    c,
    refl,
    (text_eq_iff c.submission_id p.submission_id).0 (ground arith),
    (text_eq_iff c.password password).0 (ground arith),
    (is_allowed_iff r.platform (entry_at c.url) page).0 (ground arith),
  )

  named-IsOwned :
      (domain : Text) (before : World) (o : Option PendingCredential) (v : World)
      → from_content_script r s ≡ true
      → pending_of r domain s before ≡ (ok o, v)
      → get_pending r domain s before ≡ (ok o, v)
  named-IsOwned domain before o v script h = rw script at h

  matching-IsNamed :
      (x : Submitted) (before v : World)
      → pending_of r (key r.platform x.page) s before ≡ (ok x.pending, v)
      → from_content_script r s ≡ true
      → is_matching r p x ≡ true
      → IsNamed x before
  matching-IsNamed x before v read script h =
      let found = matching-eq x.page x.password x.pending h in
      let owned =
        get_pending-IsFound r p s x.page before x.pending v found.0
          (named-IsOwned (key r.platform x.page) before x.pending v script read) found.1 in
      record {
        credential = found.0;
        after = owned.0;
        pending = found.1;
        owned = owned.1;
        submission_id = found.2;
        password = found.3;
        allowed = found.4;
      }

  abbrev pub IsPermitted : Submitted → World → Type 0
  IsPermitted x before = (from_content_script r s ≡ false) ⊎ IsNamed x before

  pub backed-IsPermitted :
      (x : Submitted) (before v : World)
      → pending_of r (key r.platform x.page) s before ≡ (ok x.pending, v)
      → IsBacked r p s x
      → IsPermitted x before
  backed-IsPermitted x before v read (inl other) = inl other
  backed-IsPermitted x before v read (inr matching) = elim (Bool-cases (from_content_script r s)) [
    | inr other ↦ inl other
    | inl script ↦ inr (matching-IsNamed x before v read script matching)
  ]
