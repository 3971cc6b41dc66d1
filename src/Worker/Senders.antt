-- ===== src/Worker/Senders.antt =====
-- extension/background/service-worker.js: which messages are accepted from whom.
use passwort_manager_yurr.Common.{
  ◌≡◌, ◌↔◌, ◌⊎◌, refl, Bool, true, false, not, ◌&&◌, ◌||◌, [], ◌∷◌, Option, none, some, Text, codes,
  text_eq, same_text, if◌then◌else◌, Option-cases, inl, inr, arith,
}
use passwort_manager_yurr.Platform.{Platform}
use passwort_manager_yurr.Site.Scope.{key}
use passwort_manager_yurr.Worker.{Sender}

-- The types of messages.
pub data Kind : Type 0 where
  get_status setup login logout is_unlocked popup_bootstrap popup_list popup_entry : Kind
  refresh_active_tab list_entries get_entry create_entry update_entry delete_entry : Kind
  list_vault_items create_vault_item update_vault_item delete_vault_item export_vault : Kind
  generate_password check_credentials get_credential_for_fill : Kind
  get_credential_for_autofill list_addresses_for_fill get_email_suggestions : Kind
  remember_selected_credential pending_username get_pending_username : Kind
  clear_pending_username pending_credentials mark_pending_credentials_ready : Kind
  check_pending_credentials clear_pending_credentials form_submitted get_favicon : Kind
  bulk_import change_password unknown_type : Kind

-- `CONTENT_SAFE_MESSAGE_TYPES`
abbrev pub is_content_safe : Kind → Bool
is_content_safe check_credentials = true
is_content_safe get_credential_for_fill = true
is_content_safe get_credential_for_autofill = true
is_content_safe list_addresses_for_fill = true
is_content_safe get_email_suggestions = true
is_content_safe pending_username = true
is_content_safe get_pending_username = true
is_content_safe clear_pending_username = true
is_content_safe remember_selected_credential = true
is_content_safe pending_credentials = true
is_content_safe mark_pending_credentials_ready = true
is_content_safe check_pending_credentials = true
is_content_safe clear_pending_credentials = true
is_content_safe form_submitted = true
is_content_safe generate_password = true
is_content_safe _ = false

-- `AUTH_REQUIRED_TYPES`
abbrev pub needs_auth : Kind → Bool
needs_auth popup_bootstrap = true
needs_auth popup_list = true
needs_auth popup_entry = true
needs_auth list_entries = true
needs_auth get_entry = true
needs_auth create_entry = true
needs_auth update_entry = true
needs_auth delete_entry = true
needs_auth list_vault_items = true
needs_auth create_vault_item = true
needs_auth update_vault_item = true
needs_auth delete_vault_item = true
needs_auth export_vault = true
needs_auth generate_password = true
needs_auth check_credentials = true
needs_auth get_credential_for_fill = true
needs_auth get_credential_for_autofill = true
needs_auth list_addresses_for_fill = true
needs_auth remember_selected_credential = true
needs_auth form_submitted = true
needs_auth check_pending_credentials = true
needs_auth get_favicon = true
needs_auth bulk_import = true
needs_auth change_password = true
needs_auth _ = false

-- `PENDING_WRITE_TYPES`
abbrev pub is_pending_write : Kind → Bool
is_pending_write pending_username = true
is_pending_write clear_pending_username = true
is_pending_write pending_credentials = true
is_pending_write mark_pending_credentials_ready = true
is_pending_write clear_pending_credentials = true
is_pending_write _ = false

-- What a handler refuses a message with.
pub data Refusal : Type 0 where
  missing_type forbidden : Refusal

abbrev pub or_text : Text → Text → Text
or_text [] t = t
or_text (c ∷ s) t = c ∷ s

abbrev pub has_tab : Sender → Bool
has_tab s = elim s.tab [ none ↦ false | some _ ↦ true ]

abbrev pub tab_url : Sender → Text
tab_url s = elim s.tab [ none ↦ [] | some tab ↦ tab.url ]

module _ (platform : Platform) (origin : Text → Option Text) (extension_origin : Text) where
  -- `isExtensionPageSender`
  unfoldable pub is_extension_page : Sender → Bool
  is_extension_page s =
      if s.is_own && not (has_tab s)
      then true
      else same_text (origin (or_text s.url s.origin)) (some extension_origin)

  abbrev pub is_web_page : Text → Bool
  is_web_page url = elim (platform.parse_url url) [
    | none ↦ false
    | some u ↦ text_eq u.protocol (codes "http:") || text_eq u.protocol (codes "https:")
  ]

  -- `isContentScriptSender`
  unfoldable pub is_content_script : Sender → Bool
  unfolding is_extension_page
  is_content_script s = if is_extension_page s then false else has_tab s && is_web_page s.url

  -- `assertMessageAllowed`: the error that it throws.
  unfoldable pub refusal : Option Kind → Sender → Option Refusal
  unfolding is_extension_page is_content_script
  refusal none s = some missing_type
  refusal (some kind) s =
      if is_extension_page s
      then none
      else if is_content_script s && is_content_safe kind
      then none
      else some forbidden

  -- `getMessagePageUrl`, of the page that the payload names
  unfoldable pub page_url : Text → Text → Sender → Text
  unfolding is_content_script
  page_url payload_page payload_url s =
      if is_content_script s
      then s.url
      else or_text s.url (or_text (tab_url s) (or_text payload_page payload_url))

  -- `getDomainFromUrl`, with nothing to fall back on
  abbrev pub domain_of : Text → Text
  domain_of url = key platform url

  -- A message with a type is accepted exactly if it comes from a page of the extension, or is of one
  -- of the types that a page may send and comes from a tab that shows an http or https page.
  pub refusal_iff :
      (kind : Kind) (s : Sender)
      → (refusal (some kind) s ≡ none) ↔ (
          (is_extension_page s ≡ true)
          ⊎ ((has_tab s ≡ true) × (is_web_page s.url ≡ true) × (is_content_safe kind ≡ true)))
  unfolding refusal
  refusal_iff kind s = (to, from)
    where
      accepted : Type 0
      accepted =
          (is_extension_page s ≡ true)
          ⊎ ((has_tab s ≡ true) × (is_web_page s.url ≡ true) × (is_content_safe kind ≡ true))

      to : refusal (some kind) s ≡ none → accepted
      to h = ground arith

      from : accepted → refusal (some kind) s ≡ none
      from h = ground arith

  -- A message with a type that is not accepted is forbidden.
  pub refusal-forbidden :
      (kind : Kind) (s : Sender)
      → ¬ (
          (is_extension_page s ≡ true)
          ⊎ ((has_tab s ≡ true) × (is_web_page s.url ≡ true) × (is_content_safe kind ≡ true)))
      → refusal (some kind) s ≡ some forbidden
  unfolding refusal
  refusal-forbidden kind s h = elim (Option-cases (refusal (some kind) s)) [
    | inl accepted ↦ absurd (h ((refusal_iff kind s).0 accepted))
    | inr (reason, e) ↦ ground arith
  ]

  -- What a page in a tab says of its own address is not believed: a content script speaks for the
  -- address that the browser reports.
  page_url-content_script :
      (payload_page payload_url : Text) (s : Sender)
      → is_content_script s ≡ true
      → page_url payload_page payload_url s ≡ s.url
  unfolding page_url
  page_url-content_script payload_page payload_url s h = rw h refl
