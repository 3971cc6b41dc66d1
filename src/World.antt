-- ===== src/World.antt =====
-- The state of the extension's background page: the fields of `VaultAPI`
-- (extension/background/api.js), `SessionManager` (extension/background/session.js) and
-- `PopupCache` (extension/background/popup-cache.js), the values under their keys in
-- `chrome.storage`, their alarms, the clock, and what extension/background/service-worker.js keeps. A storage value that is absent is `none`.
use passwort_manager_yurr.Common.{ℕ, Bool, List, Option, Text}
use passwort_manager_yurr.Credential.{Metadata}

pub data Mode : Type 0 where
  ephemeral persistent inactivity never : Mode

-- What `_sanitizeCredentialMetadata` keeps of an entry.
pub record Item : Type 0 where
  pub metadata : Metadata
  pub open metadata use *
  pub favorite : Bool
  pub has_favicon : Bool
  pub created_at : Text
  pub updated_at : Text

-- A record of the credential metadata cache.
pub record Cached : Type 0 where
  pub cached_at : ℕ
  pub server_url : Text
  pub token : Option Text
  pub entries : List Item

pub data Payload : Type 0 where
  listing : List Item → Payload
  detail : Option Item → (password : Text) → (notes : Option Text) → Payload

-- A record of the popup cache.
pub record Kept : Type 0 where
  pub key : Text
  pub payload : Payload
  pub cached_at : ℕ
  pub last_used_at : ℕ

-- `{ token, serverUrl }` of the popup cache and of the pending records.
pub record Owner : Type 0 where
  pub token : Option Text
  pub server_url : Option Text

-- The popup cache: its records in the order of the map, and its copy in session storage.
pub record Popup : Type 0 where
  pub records : List Kept
  pub generation : ℕ
  pub loaded : Bool
  pub owner : Option Owner
  pub offline : Bool
  pub pending : List Text
  pub mutation : Option ℕ
  pub mutations : ℕ
  pub stored : Option (Owner × List Kept)
  pub alarm : Option ℕ

-- A credential that a page has submitted and that waits for the prompt to save it.
pub record PendingCredential : Type 0 where
  pub key : Text
  pub url : Text
  pub domain : Text
  pub username : Text
  pub password : Text
  pub submission_id : Text
  pub page_url : Text
  pub is_password_change : Bool
  pub prompt_ready : Bool
  pub expires_at : ℕ

-- A user name that the first page of a login has submitted.
pub record PendingUsername : Type 0 where
  pub key : Text
  pub username : Text
  pub url : Option Text
  pub expires_at : ℕ

-- The e-mail addresses that the options page has stored: a list, or a text with separators.
pub data Suggestions : Type 0 where
  emails : List Text → Suggestions
  emails_text : Text → Suggestions
  no_emails : Suggestions

-- The credential that was selected last on a domain.
pub record Selected : Type 0 where
  pub domain : Text
  pub id : Text
  pub username : Text
  pub website_url : Text
  pub selected_at : ℕ

pub record World : Type 0 where
  pub now : ℕ
  pub token : Option Text
  pub server_url : Option Text
  pub token_server_url : Option Text
  pub token_generation : ℕ
  pub session_token : Option Text
  pub session_token_url : Option Text
  pub session_metadata : Option (List (Text × Cached))
  pub local_token : Option Text
  pub local_token_url : Option Text
  pub local_server_url : Option Text
  pub local_mode : Option Text
  pub local_minutes : Option ℕ
  pub last_active : Option ℕ
  pub expires_at : Option ℕ
  pub lock_alarm : Option ℕ
  pub cached_mode : Option Mode
  pub autofill_enabled : Bool
  pub email_suggestions : Suggestions
  pub last_selected : List Selected
  pub clearing : Bool
  pub generation : ℕ
  pub unlocked_badge : Bool
  pub credential_cache : List (Text × Cached)
  pub credential_requests : List Text
  pub credential_generation : ℕ
  pub popup : Popup
  pub favicons : List (Text × Text)
  pub pending_credentials : Option (Owner × List PendingCredential)
  pub pending_usernames : Option (Owner × List PendingUsername)
  pub pending_alarm : Option ℕ
