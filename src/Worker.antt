-- ===== src/Worker.antt =====
-- extension/background/service-worker.js: who may send a message, and what the handlers share.
pub mod Senders
pub mod Pages
pub mod Emails
pub mod Suggested
pub mod Selected
pub mod Accounts
pub mod Startup
pub mod Errors
pub mod Replies
pub mod Offers
pub mod Offered
pub mod Held
pub mod Prompt
pub mod Prompted
pub mod Asked
pub mod Submit
pub mod Plans
pub mod Named
pub mod Saved
mod Tests
use passwort_manager_yurr.Common.{ℕ, ◌≡◌, Bool, List, Option, none, some, Text, map}
use passwort_manager_yurr.Platform.{Platform, Url}
use passwort_manager_yurr.Credential.{Metadata}
use passwort_manager_yurr.Credential.Save.{Detail, Vault}
use passwort_manager_yurr.World.{World, Item, Kept}
use passwort_manager_yurr.Popup.Sanitize.{Answer}
use passwort_manager_yurr.Popup
use passwort_manager_yurr.Session
use passwort_manager_yurr.Session.{on_lock}
use passwort_manager_yurr.Session.Events.{force_local_lock}
use passwort_manager_yurr.Session.Api.{Code, Result, ok, thrown, M, ◌>>=◌, return}

-- The tab that a message comes from.
pub record Tab : Type 0 where
  pub id : Option ℕ
  pub active : Bool
  pub url : Text

-- The sender of a message; `is_own` tells that its `id` is that of the extension.
pub record Sender : Type 0 where
  pub is_own : Bool
  pub tab : Option Tab
  pub url : Text
  pub origin : Text
  pub frame_id : Option ℕ

-- The endpoints of the API client that the handlers call.
pub record Server : Type 0 where
  pub list_entries : Text → M (List Metadata)
  pub get_entry : Text → M Detail
  pub create_entry : (website_url username password : Text) → M (Unit {0})
  pub update_password : (id password : Text) → M (Unit {0})

-- What the handlers run in: the browser, the server, the promises of other calls, and what other
-- handlers do at a wait.
pub record Runtime : Type 0 where
  pub platform : Platform
  pub bare_href : Url → Text
  pub origin : Text → Option Text
  pub extension_origin : Text
  pub server : Server
  pub ask : Text → M Answer
  pub join_load : M (Unit {0})
  pub join_fetch : Text → M Kept
  pub join_request : Text → M (List Item)
  pub env : ℕ → World → World

-- The payload of a message from a page; a field that is missing is empty or false.
pub record Payload : Type 0 where
  pub id : Text
  pub url : Text
  pub page_url : Text
  pub domain : Text
  pub username : Text
  pub password : Text
  pub submission_id : Text
  pub entry_id : Text
  pub preferred_username : Text
  pub user_gesture : Bool
  pub manual : Bool
  pub confirm_update : Bool
  pub is_password_change : Bool

-- A call that does not throw, a read of the state, a write, and a test that throws.
abbrev pub total : {A : Type 0} → (World → A × World) → M A
total f w = let (a, v) = f w in (ok a, v)

abbrev pub gets : {A : Type 0} → (World → A) → M A
gets f w = (ok (f w), w)

abbrev pub modify : (World → World) → M (Unit {0})
modify f w = (ok tt, f w)

-- `try { m } catch (err) { handler(err) }`
abbrev pub caught : {A : Type 0} → Result A × World → (Code → M A) → Result A × World
caught (ok a, w) handler = (ok a, w)
caught (thrown c, w) handler = handler c w

abbrev pub try_catch : {A : Type 0} → M A → (Code → M A) → M A
try_catch m handler w = caught (m w) handler

-- `forceLocalLock`, and what the handlers clear with it
unfoldable pub end_session : World → World
unfolding force_local_lock on_lock
end_session w = on_lock (force_local_lock w)

module _ (r : Runtime) where
  -- A wait for browser storage.
  abbrev pub wait : ℕ → M (Unit {0})
  wait i = modify (r.env i)

  abbrev pub is_unlocked : M Bool
  is_unlocked = Session.Tokens.is_unlocked r.platform r.bare_href r.origin r.env

  abbrev pub reset_auto_lock : M (Unit {0})
  reset_auto_lock = modify Session.reset_auto_lock

  abbrev pub entries_for : Text → M (List Item)
  entries_for = Session.Metadata.get_for_domain r.platform r.bare_href r.ask r.join_request r.env

  abbrev pub vault : Vault
  vault = record {
    entries_for = λ domain. do
      items ← entries_for domain
      return (map (λ (i : Item). i.metadata) items);
    get_entry = r.server.get_entry;
  }

  -- `session.mutateEntries`
  unfoldable pub mutate_entries : {A : Type 0} → M A → M A
  unfolding Popup.Read.mutate Session.clear_credential_cache
  mutate_entries operation =
      Popup.Read.mutate r.platform r.bare_href r.origin r.ask r.join_load r.join_fetch r.env (λ w.
        let (result, v) = operation (Session.clear_credential_cache w) in
        (result, Session.clear_credential_cache v))
