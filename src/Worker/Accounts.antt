-- ===== src/Worker/Accounts.antt =====
-- extension/background/service-worker.js: the handlers of the popup and of the options page that log
-- in and out and that read and write the vault.
use passwort_manager_yurr.Common.{
  Bool, true, false, ◌||◌, [], ◌∷◌, ◌++◌, Option, none, some, Text, codes, text_eq, is_empty, trim,
  find, if◌then◌else◌,
}
use passwort_manager_yurr.World.{World, Mode, never}
use passwort_manager_yurr.Session.{get_mode, lock, clear_token, on_lock}
use passwort_manager_yurr.Session.Tokens.{save_token}
use passwort_manager_yurr.Session.Api.{
  Code, auth_error, network_error, unknown_error, ok, thrown, M, ◌>>=◌, return, get_server_url,
}
use passwort_manager_yurr.Session.Endpoints.{
  Call, Content, Endpoint, Options, call_of, login, get_status, validate_session, setup,
  list_entries, get_entry, create_entry, update_entry, delete_entry, list_vault_items,
  create_vault_item, update_vault_item, delete_vault_item, export_vault, generate_password,
  bulk_import, change_password,
}
use passwort_manager_yurr.Worker.{
  Runtime, total, gets, modify, try_catch, is_unlocked, reset_auto_lock, mutate_entries,
  end_session,
}

-- What `IS_UNLOCKED` answers.
pub data Access : Type 0 where
  no_access session_invalid reachable unreachable : Access

abbrev pub is_never : Mode → Bool
is_never never = true
is_never _ = false

-- `clearAllPendingState`
unfoldable pub clear_all_pending : World → World
clear_all_pending w = record w {
  pending_credentials = none;
  pending_usernames = none;
  pending_alarm = none;
}

abbrev pub fail : {A : Type 0} → M A
fail w = (thrown unknown_error, w)

-- What becomes of an error of `validateSession`.
abbrev pub access_lost : Code → M Access
access_lost auth_error w = (ok session_invalid, end_session w)
access_lost network_error w = (ok unreachable, w)
access_lost c w = (thrown c, w)

abbrev pub value_of : Option (Text × Text) → Option Text
value_of none = none
value_of (some (domain, url)) = some url

abbrev pub cached_favicon : Text → World → Option Text
cached_favicon domain w = value_of (find (λ f. text_eq f.0 domain) w.favicons)

abbrev pub remember_favicon : Text → Option Text → M (Option Text)
remember_favicon domain none w = (ok none, w)
remember_favicon domain (some []) w = (ok (some []), w)
remember_favicon domain (some (c ∷ url)) w =
    (ok (some (c ∷ url)), record w { favicons = w.favicons ++ (domain, c ∷ url) ∷ [] })

module _ (r : Runtime) where
  -- `normalizeVaultItemType`
  unfoldable pub item_type_of : Text → M Text
  unfolding trim
  item_type_of value =
      let clean = r.platform.to_lower_case (trim value) in
      if text_eq clean (codes "card")
        || text_eq clean (codes "address")
        || text_eq clean (codes "passkey")
      then return clean
      else fail

  -- `LOGOUT`, with the token that is revoked
  unfoldable pub log_out : World → Option (Text × Text) × World
  unfolding lock on_lock
  log_out w = let (revoked, v) = lock w in (revoked, on_lock v)

  -- `request`, the token of an answer, and `getFavicon`.
  module _ {D : Type 0} (request : Call D → M D) (token_of : D → Text)
      (favicon : Text → M (Option Text)) where
    abbrev pub send : Endpoint D → M D
    send endpoint = request (call_of endpoint)

    -- With the deadline moved
    abbrev pub active : {A : Type 0} → M A → M A
    active operation = do _ ← reset_auto_lock r; operation

    abbrev pub entered : D → M (Unit {0})
    entered answer = do
      _ ← save_token r.platform r.bare_href r.origin (token_of answer)
      reset_auto_lock r

    abbrev pub log_in_mode : Text → Mode → M (Unit {0})
    log_in_mode master mode =
        login (get_server_url r.platform r.bare_href) request token_of master (is_never mode)
        >>= entered

    -- `LOGIN`
    unfoldable pub log_in : Text → M (Unit {0})
    unfolding login get_server_url save_token
    log_in master = total get_mode >>= log_in_mode master

    abbrev pub validate : M Access
    validate = do _ ← send validate_session; active (return reachable)

    abbrev pub access_when : Bool → M Access
    access_when false = do _ ← modify clear_all_pending; return no_access
    access_when true = try_catch validate access_lost

    -- `IS_UNLOCKED`
    unfoldable pub access : M Access
    unfolding clear_all_pending end_session call_of
    access = is_unlocked r >>= access_when

    abbrev pub favicon_for : Text → Option Text → M (Option Text)
    favicon_for domain (some url) = return (some url)
    favicon_for domain none = favicon domain >>= remember_favicon domain

    -- `GET_FAVICON`
    unfoldable pub get_favicon : Text → M (Option Text)
    get_favicon domain = gets (cached_favicon domain) >>= favicon_for domain

    abbrev pub of_type : Text → (Text → Endpoint D) → M D
    of_type value endpoint = do item_type ← item_type_of value; send (endpoint item_type)

    -- The requests that the other messages make, in the order of the code.
    pub data Request : Type 0 where
      for_status : Request
      for_setup : (master_password : Text) → Request
      for_entries : (domain : Text) → Request
      for_entry : (id : Text) → Request
      to_create_entry : D → Request
      to_update_entry : (id : Text) → Content D → Request
      to_delete_entry : (id : Text) → Request
      for_items : (item_type : Text) → Request
      to_create_item : (item_type : Text) → D → Request
      to_update_item : (id : Text) → D → Request
      to_delete_item : (id : Text) → Request
      to_export : (master_password : Text) → Request
      to_generate : Options → Request
      to_import : D → (skip_duplicates : Bool) → Request
      to_change_password : (current new : Text) → Request

    abbrev pub clear_after : D → M D
    clear_after answer = do _ ← modify clear_token; return answer

    -- `GET_STATUS` to `GENERATE_PASSWORD`, `BULK_IMPORT` and `CHANGE_PASSWORD`
    unfoldable pub answer : Request → M D
    unfolding item_type_of call_of mutate_entries clear_token
    answer for_status = send get_status
    answer (for_setup master) = send (setup master)
    answer (for_entries domain) = active (send (list_entries domain))
    answer (for_entry id) = active (send (get_entry id))
    answer (to_create_entry entry) = active (mutate_entries r (send (create_entry entry)))
    answer (to_update_entry id entry) = active (mutate_entries r (send (update_entry id entry)))
    answer (to_delete_entry id) = active (mutate_entries r (send (delete_entry id)))
    answer (for_items item_type) = active (of_type item_type list_vault_items)
    answer (to_create_item item_type payload) =
        active (of_type item_type (λ t. create_vault_item t payload))
    answer (to_update_item id payload) =
        if is_empty id then fail else active (send (update_vault_item id payload))
    answer (to_delete_item id) = if is_empty id then fail else active (send (delete_vault_item id))
    answer (to_export master) =
        if is_empty master then fail else active (send (export_vault master))
    answer (to_generate options) = active (send (generate_password options))
    answer (to_import entries skip) = active (mutate_entries r (send (bulk_import entries skip)))
    answer (to_change_password current new) =
        active (send (change_password current new) >>= clear_after)
