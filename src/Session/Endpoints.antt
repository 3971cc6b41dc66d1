-- ===== src/Session/Endpoints.antt =====
-- extension/background/api.js: the endpoints, each a call of `request`, and `login`.
mod Tests
use passwort_manager_yurr.Common.{
  ℕ, ◌+◌, ◌*◌, ◌/◌, ◌%◌, ◌≡◌, refl, Bool, true, false, not, ◌&&◌, ◌||◌, List, [], ◌∷◌, ◌++◌, Option,
  none, some, Text, codes, text_eq, is_empty, any, leb, ltb, ◌==◌, if◌then◌else◌,
}
use passwort_manager_yurr.World.{World}
use passwort_manager_yurr.Session.Api.{
  Code, session_changed, Result, ok, thrown, M, ◌>>=◌, return, set_token,
}

-- The characters that `encodeURIComponent` leaves as they are.
abbrev pub is_unreserved : ℕ → Bool
is_unreserved c =
    (leb b'A' c && leb c b'Z')
    || (leb b'a' c && leb c b'z')
    || (leb b'0' c && leb c b'9')
    || any (λ d. c == d) (codes "-_.!~*'()")

abbrev pub hex_digit : ℕ → ℕ
hex_digit n = if ltb n 10 then 48 + n else 55 + n

-- A byte, as `%` and two digits
abbrev pub escape : ℕ → Text
escape b = b'%' ∷ hex_digit (b / 16 % 16) ∷ hex_digit (b % 16) ∷ []

-- A code point in UTF-8, each byte escaped
abbrev pub escape_point : ℕ → Text
escape_point c =
    if ltb c 128
    then escape c
    else if ltb c 2048
    then escape (192 + c / 64) ++ escape (128 + c % 64)
    else if ltb c 65536
    then escape (224 + c / 4096) ++ escape (128 + c / 64 % 64) ++ escape (128 + c % 64)
    else escape (240 + c / 262144)
      ++ escape (128 + c / 4096 % 64)
      ++ escape (128 + c / 64 % 64)
      ++ escape (128 + c % 64)

-- `encodeURIComponent`, of a text without lone halves of a surrogate pair, on which it throws
unfoldable pub encode : Text → Text
encode [] = []
encode (c ∷ t) = (if is_unreserved c then c ∷ [] else escape_point c) ++ encode t

-- What a call sends as its body: nothing, data as it is, or an object with fields.
pub data Value (D : Type 0) : Type 0 where
  value : D → Value D
  string : Text → Value D
  bool : Bool → Value D
  number : ℕ → Value D

pub data Content (D : Type 0) : Type 0 where
  nothing : Content D
  whole : D → Content D
  object : List (Text × Value D) → Content D

pub record Call (D : Type 0) : Type 0 where
  pub method : Text
  pub path : Text
  pub body : Content D
  pub requires_auth : Bool

-- The options of the password generator; `length` is zero if it is missing.
pub record Options : Type 0 where
  pub length : ℕ
  pub uppercase : Bool
  pub lowercase : Bool
  pub digits : Bool
  pub symbols : Bool

-- The endpoints of `VaultAPI` that only call `request`.
pub data Endpoint (D : Type 0) : Type 0 where
  get_status logout validate_session : Endpoint D
  setup : (master_password : Text) → Endpoint D
  list_entries : (domain : Text) → Endpoint D
  get_entry delete_entry delete_vault_item : (id : Text) → Endpoint D
  create_entry : (entry : D) → Endpoint D
  update_entry : (id : Text) → (entry : Content D) → Endpoint D
  list_vault_items : (item_type : Text) → Endpoint D
  create_vault_item : (item_type : Text) → (payload : D) → Endpoint D
  update_vault_item : (id : Text) → (payload : D) → Endpoint D
  export_vault : (master_password : Text) → Endpoint D
  generate_password : Options → Endpoint D
  bulk_import : (entries : D) → (skip_duplicates : Bool) → Endpoint D
  change_password : (current new : Text) → Endpoint D

abbrev pub entry_path : Text → Text
entry_path id = codes "/entries/" ++ encode id

abbrev pub item_path : Text → Text
item_path id = codes "/vault-items/" ++ encode id

abbrev pub entries_path : Text → Text
entries_path domain =
    if is_empty domain then codes "/entries" else codes "/entries?domain=" ++ encode domain

abbrev pub items_path : Text → Text
items_path item_type =
    if is_empty item_type
    then codes "/vault-items"
    else codes "/vault-items?type=" ++ encode item_type

module _ {D : Type 0} where
  abbrev pub get : Text → Call D
  get path = record { method = codes "GET"; path = path; body = nothing; requires_auth = true }

  abbrev pub send_body : Text → Text → Content D → Call D
  send_body method path body = record {
    method = method;
    path = path;
    body = body;
    requires_auth = true;
  }

  abbrev pub generator_options : Options → Content D
  generator_options o = object (
      (codes "length", number (if o.length == 0 then 20 else o.length))
      ∷ (codes "uppercase", bool o.uppercase)
      ∷ (codes "lowercase", bool o.lowercase)
      ∷ (codes "digits", bool o.digits)
      ∷ (codes "symbols", bool o.symbols)
      ∷ [])

  -- The call that an endpoint makes.
  unfoldable pub call_of : Endpoint D → Call D
  unfolding encode
  call_of get_status = record (get (codes "/auth/status")) { requires_auth = false }
  call_of logout = send_body (codes "POST") (codes "/auth/logout") nothing
  call_of validate_session = get (codes "/auth/session")
  call_of (setup master) =
      record (send_body (codes "POST") (codes "/auth/setup")
        (object ((codes "master_password", string master) ∷ []))) { requires_auth = false }
  call_of (list_entries domain) = get (entries_path domain)
  call_of (get_entry id) = get (entry_path id)
  call_of (delete_entry id) = send_body (codes "DELETE") (entry_path id) nothing
  call_of (delete_vault_item id) = send_body (codes "DELETE") (item_path id) nothing
  call_of (create_entry entry) = send_body (codes "POST") (codes "/entries") (whole entry)
  call_of (update_entry id entry) = send_body (codes "PUT") (entry_path id) entry
  call_of (list_vault_items item_type) = get (items_path item_type)
  call_of (create_vault_item item_type payload) =
      send_body (codes "POST") (codes "/vault-items")
        (object ((codes "item_type", string item_type) ∷ (codes "payload", value payload) ∷ []))
  call_of (update_vault_item id payload) =
      send_body (codes "PUT") (item_path id) (object ((codes "payload", value payload) ∷ []))
  call_of (export_vault master) =
      send_body (codes "POST") (codes "/vault/export")
        (object ((codes "master_password", string master) ∷ []))
  call_of (generate_password options) =
      send_body (codes "POST") (codes "/generate") (generator_options options)
  call_of (bulk_import entries skip) =
      send_body (codes "POST") (codes "/entries/import")
        (object ((codes "entries", value entries) ∷ (codes "skip_duplicates", bool skip) ∷ []))
  call_of (change_password current new) = send_body (codes "PUT") (codes "/auth/change-password") (
      object ((codes "current_password", string current) ∷ (codes "new_password", string new) ∷ []))

  -- `getServerUrl`, `request`, and the token of an answer.
  module _ (server_url : M Text) (request : Call D → M D) (token_of : D → Text) where
    abbrev pub login_call : Text → Bool → Call D
    login_call master never =
        record (send_body (codes "POST") (codes "/auth/login") (
          object (
            (codes "master_password", string master)
            ∷ (codes "never_auto_lock", bool never)
            ∷ []))) { requires_auth = false }

    abbrev pub keep_token : Text → D → M D
    keep_token url data_ w = (ok data_, set_token (some (token_of data_)) (some url) w)

    abbrev pub login_moved : Text → D → Text → M D
    login_moved url answer url_now =
        if not (text_eq url url_now)
        then (λ w. (thrown session_changed, w))
        else keep_token url answer

    abbrev pub login_asked : Text → D → M D
    login_asked url answer = server_url >>= login_moved url answer

    abbrev pub login_checked : ℕ → Text → D → M D
    login_checked generation url answer w =
        (if not (generation == w.token_generation)
            then (λ v. (thrown session_changed, v))
            else login_asked url answer)
          w

    abbrev pub login_sent : Text → Bool → Text → M D
    login_sent master never url w =
        (request (login_call master never) >>= login_checked w.token_generation url) w

    -- `login(masterPassword, { neverAutoLock })`
    unfoldable pub login : Text → Bool → M D
    unfolding set_token
    login master never = server_url >>= login_sent master never
