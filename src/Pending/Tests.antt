-- ===== src/Pending/Tests.antt =====
-- extension/background/service-worker.js: pending records at a concrete state.
use passwort_manager_yurr.Common.{
  ℕ, ◌≡◌, refl, true, false, Bool, List, [], ◌∷◌, Option, none, some, codes, All, ◌<◌,
}
use mathlib.Core.Path.{subst}
use passwort_manager_yurr.Samples.{sample_platform, server, stored}
use passwort_manager_yurr.World.{World, Owner, PendingCredential}
use passwort_manager_yurr.Pending.{
  Submission, credentials, update_records, set_credentials, get_credentials, mark_ready,
  clear_credentials, set_username, get_username,
}
use passwort_manager_yurr.Pending.Owned.{
  IsOwned, get_credentials-IsOwned, IsStored, update_records-IsStored,
}
use passwort_manager_yurr.Session.Stored.{quiet}

-- All that a run computes with.
program : Unit {0}
unfolding set_credentials get_credentials mark_ready clear_credentials set_username get_username
program = tt

abbrev unlocked : World
unlocked = record stored { token = some (codes "tok") }

abbrev submitted : Submission
submitted = record {
  url = codes "https://a.org/login";
  page_url = [];
  username = codes " ann ";
  password = codes "pw";
  submission_id = codes "s1";
  is_password_change = false;
}

abbrev frame : Option (ℕ × ℕ)
frame = some (7, 0)

abbrev waiting : PendingCredential
waiting = record {
  key = codes "7:0:a.org";
  url = codes "https://a.org/login";
  domain = codes "a.org";
  username = codes "ann";
  password = codes "pw";
  submission_id = codes "s1";
  page_url = codes "https://a.org/login";
  is_password_change = false;
  prompt_ready = false;
  expires_at = 301_000;
}

abbrev held : World
held = record unlocked {
  pending_credentials =
      some (record { token = some (codes "tok"); server_url = some server }, waiting ∷ []);
  pending_alarm = some 301_000;
}

set_run : set_credentials sample_platform quiet submitted frame unlocked ≡ (true, held)
unfolding program
set_run = refl

get_run : get_credentials sample_platform quiet (codes "a.org") frame held ≡ (some waiting, held)
unfolding program
get_run = refl

-- Another frame gets nothing, and neither does a session with another token.
other_frame : (get_credentials sample_platform quiet (codes "a.org") none held).0 ≡ none
unfolding program
other_frame = refl

other_token :
    (get_credentials sample_platform quiet
      (codes "a.org")
      frame
      (record held { token = some (codes "new") })).0
    ≡ none
unfolding program
other_token = refl

get_credentials-IsOwned_example :
    IsOwned sample_platform quiet (codes "a.org") frame held waiting held
get_credentials-IsOwned_example =
    get_credentials-IsOwned sample_platform quiet (codes "a.org") frame held waiting held get_run

abbrev adding : ℕ → List PendingCredential → Bool × List PendingCredential
adding now records = (true, waiting ∷ records)

-- The property that the test keeps: the credentials are of one site.
abbrev IsOfSite : PendingCredential → Type 0
IsOfSite r = r.domain ≡ codes "a.org"

held_of_site :
    (o : Owner) (rs : List PendingCredential)
    → held.pending_credentials ≡ some (o, rs)
    → All IsOfSite rs
held_of_site o rs h =
    let same : waiting ∷ [] ≡ rs = cc in
    let here : All IsOfSite (waiting ∷ []) = (refl, tt) in
    subst (λ (l : List PendingCredential). All IsOfSite l) (same) here

only :
    (rs : List PendingCredential)
    → All (λ r. IsOfSite r × (1000 < r.expires_at)) rs
    → All IsOfSite rs
only [] h = tt
only (r ∷ rs) h = (h.0.0, only rs h.1)

update_records-IsStored_example :
    IsStored IsOfSite
      (record { token = some (codes "tok"); server_url = some server })
      (update_records credentials quiet adding held).1
update_records-IsStored_example =
    update_records-IsStored IsOfSite adding held (λ o rs h a b. held_of_site o rs h)
      (λ rs h. (refl, only rs h))
