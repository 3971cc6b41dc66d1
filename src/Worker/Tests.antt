-- ===== src/Worker/Tests.antt =====
-- Tests of the handlers that answer pages, and runs of their theorems on concrete messages.
use passwort_manager_yurr.Common.{
  Option, ◌≡◌, ◌≢◌, ◌⊎◌, inl, inr, refl, true, false, [], ◌∷◌, none, some, Text, codes, All,
}
use passwort_manager_yurr.Samples.{sample_platform, sample_origin, bare_href, stored, server}
use passwort_manager_yurr.Site.Scope.{key}
use passwort_manager_yurr.World.{World, Item, Cached, PendingCredential, emails}
use passwort_manager_yurr.Credential.{Metadata, is_allowed}
use passwort_manager_yurr.Credential.Save.{Detail, Filled, update}
use passwort_manager_yurr.Session.Api.{
  M, Result, forbidden, auth_error, session_lost, ok, thrown, http_error, return,
}
use passwort_manager_yurr.Worker.{Sender, Server, Runtime, Payload, is_unlocked}
use passwort_manager_yurr.Session.{reset_auto_lock}
use passwort_manager_yurr.Session.Tokens.{load_token}
use passwort_manager_yurr.Session.Metadata.{get_for_domain}
use passwort_manager_yurr.Session.Locking.{IsLocked}
use passwort_manager_yurr.Worker.Senders
use passwort_manager_yurr.Worker.Senders.{Kind, needs_auth, is_extension_page}
use passwort_manager_yurr.Worker.Errors.{Reply, on_message, failed}
use passwort_manager_yurr.Worker.Replies.{
  IsAccepted, IsInTurn, waited, on_message-refused, on_message-thrown, on_message-IsAccepted,
}
use passwort_manager_yurr.Worker.Pages.{page_of, from_content_script}
use passwort_manager_yurr.Worker.Emails.{suggestions_for}
use passwort_manager_yurr.Worker.Suggested.{IsOffered, suggestions_for-IsOffered}
use passwort_manager_yurr.Worker.Offers.{Offers, check_credentials, credential_for_autofill}
use passwort_manager_yurr.Worker.Offered.{
  IsTold, check_credentials-IsTold, IsPassed, IsInFront, credential_for_autofill-IsPassed,
}
use passwort_manager_yurr.Worker.Prompt.{prompt, Prompt, update_saved, check_pending}
use passwort_manager_yurr.Worker.Prompted.{IsAsked}
use passwort_manager_yurr.Worker.Asked.{check_pending-IsAsked}
use passwort_manager_yurr.Worker.Submit.{saved_updated, form_submitted}
use passwort_manager_yurr.Worker.Saved.{IsSound, noted, form_submitted-IsSound}

abbrev entry : Metadata
entry = record {
  id = codes "7";
  website_url = codes "https://a.org/";
  website_domain = codes "a.org";
  username = codes "Ann";
}

abbrev detail : Detail
detail = record { metadata = entry; password = codes "old" }

abbrev item : Item
item = record {
  metadata = entry;
  favorite = false;
  has_favicon = false;
  created_at = [];
  updated_at = [];
}

abbrev sample_server : Server
sample_server = record {
  list_entries = λ domain. return (entry ∷ []);
  get_entry = λ id. return detail;
  create_entry = λ url username password. return tt;
  update_password = λ id password. return tt;
}

abbrev runtime : Runtime
runtime = record {
  platform = sample_platform;
  bare_href = bare_href;
  origin = sample_origin;
  extension_origin = codes "chrome-extension://yurr";
  server = sample_server;
  ask = λ domain w. (thrown (http_error 500), w);
  join_load = return tt;
  join_fetch = λ k w. (thrown (http_error 500), w);
  join_request = λ k. return [];
  env = λ i w. w;
}

abbrev page : Text
page = codes "https://a.org/"

abbrev from_tab : Text → Sender
from_tab url = record {
  is_own = true;
  tab = some (record { id = some 3; active = true; url = url });
  url = url;
  origin = url;
  frame_id = some 0;
}

abbrev payload : Payload
payload = record {
  id = codes "7";
  url = page;
  page_url = [];
  domain = [];
  username = codes "Ann";
  password = codes "new";
  submission_id = codes "s1";
  entry_id = [];
  preferred_username = [];
  user_gesture = true;
  manual = false;
  confirm_update = false;
  is_password_change = false;
}

abbrev cached : Cached
cached = record {
  cached_at = 1000;
  server_url = server;
  token = some (codes "tok");
  entries = item ∷ [];
}

abbrev waiting : PendingCredential
waiting = record {
  key = codes "3:0:a.org";
  url = page;
  domain = codes "a.org";
  username = codes "Ann";
  password = codes "new";
  submission_id = codes "s1";
  page_url = page;
  is_password_change = false;
  prompt_ready = true;
  expires_at = 9000;
}

-- The vault is open, the entries of the page are in memory, and a submission waits for a prompt.
abbrev opened : World
opened = record stored {
  token = some (codes "tok");
  token_server_url = some server;
  expires_at = some 9000;
  autofill_enabled = true;
  email_suggestions = emails (codes "Ann@a.org" ∷ codes "ann" ∷ codes "ann@a.org" ∷ []);
  credential_cache = (codes "a.org", cached) ∷ (codes "b.org", cached) ∷ [];
  pending_credentials =
      some (record { token = some (codes "tok"); server_url = some server }, waiting ∷ []);
}

abbrev offered : Offers
offered = record {
  credentials = record entry { website_domain = [] } ∷ [];
  last_selected_id = none;
}

offers_run :
    check_credentials runtime payload (from_tab page) opened
    ≡ (ok offered, (check_credentials runtime payload (from_tab page) opened).1)
unfolding check_credentials load_token key get_for_domain
offers_run = refl

check_credentials-IsTold_example :
    All (IsTold runtime (page_of runtime payload (from_tab page))) offered.credentials
check_credentials-IsTold_example =
    check_credentials-IsTold runtime payload (from_tab page) opened offers_run

suggestions_run :
    suggestions_for runtime (codes "https://b.org/") opened
    ≡ (ok (codes "ann@a.org" ∷ []), (suggestions_for runtime (codes "https://b.org/") opened).1)
unfolding suggestions_for load_token key get_for_domain is_allowed
suggestions_run = refl

suggestions_for-IsOffered_example : IsOffered (codes "ann@a.org" ∷ [])
suggestions_for-IsOffered_example =
    suggestions_for-IsOffered runtime (codes "https://b.org/") (codes "ann@a.org" ∷ []) opened
      (suggestions_for runtime (codes "https://b.org/") opened).1 suggestions_run

abbrev filled : Filled
filled = record {
  id = codes "7";
  username = codes "Ann";
  password = codes "old";
  website_url = page;
}

autofill_run :
    credential_for_autofill runtime payload (from_tab page) opened
    ≡ (ok (some filled), (credential_for_autofill runtime payload (from_tab page) opened).1)
unfolding credential_for_autofill load_token key get_for_domain is_allowed
autofill_run = refl

credential_for_autofill-IsPassed_example :
    IsPassed runtime
      (runtime.env 54 (is_unlocked runtime opened).1)
      payload.id
      (page_of runtime payload (from_tab page))
      filled
      (credential_for_autofill runtime payload (from_tab page) opened).1
    × ((from_content_script runtime (from_tab page) ≡ false) ⊎ IsInFront runtime (from_tab page))
credential_for_autofill-IsPassed_example =
    credential_for_autofill-IsPassed runtime payload (from_tab page) opened filled
      (credential_for_autofill runtime payload (from_tab page) opened).1 autofill_run

abbrev asked : Prompt
asked = record {
  reason = update (codes "7") (codes "Ann") false;
  url = page;
  domain = codes "a.org";
  username = codes "Ann";
  password = codes "new";
  submission_id = codes "s1";
  expires_at = 9000;
  action = update_saved;
  accounts = [];
  entry_id = some (codes "7");
  message = codes "Update saved password for Ann?";
}

prompt_run :
    check_pending runtime payload (from_tab page) opened
    ≡ (ok (prompt asked), (check_pending runtime payload (from_tab page) opened).1)
unfolding check_pending load_token key get_for_domain reset_auto_lock
prompt_run = refl

check_pending-IsAsked_example :
    IsAsked runtime payload
      (from_tab page)
      (page_of runtime payload (from_tab page))
      (is_unlocked runtime opened).1
      (prompt asked)
check_pending-IsAsked_example =
    check_pending-IsAsked runtime payload (from_tab page) (prompt asked) opened
      (check_pending runtime payload (from_tab page) opened).1 prompt_run

submit_run :
    form_submitted runtime payload (from_tab page) opened
    ≡ (ok saved_updated, (form_submitted runtime payload (from_tab page) opened).1)
unfolding form_submitted load_token key get_for_domain reset_auto_lock
submit_run = refl

form_submitted-IsSound_example :
    IsSound runtime payload
      (from_tab page)
      (page_of runtime payload (from_tab page))
      (noted runtime payload (from_tab page) (is_unlocked runtime opened).1)
      saved_updated
form_submitted-IsSound_example =
    form_submitted-IsSound runtime payload (from_tab page) saved_updated opened
      (form_submitted runtime payload (from_tab page) opened).1 submit_run

-- A handler that tells of a lost session, and one that answers at once.
abbrev losing : Option Kind → Sender → M Text
losing kind s w = (thrown auth_error, w)

abbrev prompt_answer : Option Kind → Sender → M Text
prompt_answer kind s w = (ok (codes "fine"), w)

abbrev answered : Kind → Result (Reply Text) × World
answered kind = on_message runtime (codes "stopped") losing (some kind) (from_tab page) opened

checked-IsAccepted : IsAccepted runtime (codes "stopped") Senders.check_credentials (from_tab page)
unfolding is_extension_page
checked-IsAccepted = inr (refl, refl, refl)

on_message-thrown_example :
    ((needs_auth Senders.check_credentials ≡ true)
      × (auth_error ≡ auth_error)
      × ((answered Senders.check_credentials).0 ≡ ok (failed session_lost))
      × IsLocked (answered Senders.check_credentials).1)
    ⊎ (((needs_auth Senders.check_credentials ≡ false) ⊎ (auth_error ≢ auth_error))
        × (answered Senders.check_credentials ≡ (ok (failed auth_error), opened)))
on_message-thrown_example =
    on_message-thrown runtime (codes "stopped") losing Senders.check_credentials (from_tab page)
      opened auth_error opened checked-IsAccepted (inl refl) refl

entry_refused : ¬ IsAccepted runtime (codes "stopped") Senders.get_entry (from_tab page)
unfolding is_extension_page
entry_refused = λ h. elim h [ inl own ↦ cc | inr web ↦ cc web.2 ]

on_message-refused_example :
    answered Senders.get_entry
    ≡ (ok (failed forbidden), waited runtime (codes "stopped") Senders.get_entry opened)
on_message-refused_example =
    on_message-refused runtime (codes "stopped") losing Senders.get_entry (from_tab page) opened
      entry_refused (inl refl)

on_message-IsAccepted_example :
    (on_message runtime (codes "stopped") losing (some Senders.get_entry) (from_tab page) opened
      ≡ on_message runtime
          (codes "stopped")
          prompt_answer
          (some Senders.get_entry)
          (from_tab page)
          opened)
    ⊎ (IsAccepted runtime (codes "stopped") Senders.get_entry (from_tab page)
        × IsInTurn runtime (codes "stopped") Senders.get_entry opened)
on_message-IsAccepted_example =
    on_message-IsAccepted runtime (codes "stopped") losing prompt_answer Senders.get_entry
      (from_tab page) opened
