-- ===== src/Popup/Sanitize.antt =====
-- extension/background/session.js: `_sanitizeCredentialMetadata`, and
-- extension/background/popup-cache.js: `sanitize`.
use passwort_manager_yurr.Common.{
  Bool, true, false, List, [], Option, none, some, Text, codes, text_eq, is_empty, trim, drop,
  filter_map, if◌then◌else◌,
}
use passwort_manager_yurr.World.{Item, Payload, listing, detail}
use passwort_manager_yurr.Session.Api.{Result, ok, thrown, invalid_data}

-- The value of a field of an answer. The text of `falsy` and `other` is that of `String(value)`.
pub data Raw : Type 0 where
  text : Text → Raw
  yes : Raw
  falsy other : Text → Raw

-- An object of an answer: its fields, `undefined` included.
abbrev pub Object : Type 0
Object = Text → Raw

-- An answer of the server: an array, whose members need not be objects, an object, or neither.
pub data Answer : Type 0 where
  array : List (Option Object) → Answer
  object : Object → Answer
  neither : Answer

-- `String(value || '')`
abbrev pub text_of : Raw → Text
text_of (text t) = t
text_of yes = codes "true"
text_of (falsy t) = []
text_of (other t) = t

-- `String(value)`
abbrev pub string_of : Raw → Text
string_of (falsy t) = t
string_of (text t) = t
string_of yes = codes "true"
string_of (other t) = t

-- `value === true`
abbrev pub is_true : Raw → Bool
is_true yes = true
is_true _ = false

unfoldable pub sanitize_entry : Option Object → Option Item
unfolding trim
sanitize_entry none = none
sanitize_entry (some o) =
    let id = trim (text_of (o (codes "id"))) in
    if is_empty id
    then none
    else some (record {
      metadata = record {
        id = id;
        website_url = text_of (o (codes "website_url"));
        website_domain = text_of (o (codes "website_domain"));
        username = text_of (o (codes "username"));
      };
      favorite = is_true (o (codes "favorite"));
      has_favicon = is_true (o (codes "has_favicon"));
      created_at = text_of (o (codes "created_at"));
      updated_at = text_of (o (codes "updated_at"));
    })

-- `_sanitizeCredentialMetadata`
unfoldable pub sanitize_metadata : Answer → List Item
unfolding sanitize_entry
sanitize_metadata (array entries) = filter_map sanitize_entry entries
sanitize_metadata _ = []

-- `typeof data.notes === 'string' ? data.notes : null`
abbrev pub optional_text : Raw → Option Text
optional_text (text t) = some t
optional_text _ = none

abbrev pub sanitize_detail : Text → Object → Raw → Result Payload
sanitize_detail id o (text password) =
    if text_eq (string_of (o (codes "id"))) id
    then ok (detail (sanitize_entry (some o)) password (optional_text (o (codes "notes"))))
    else thrown invalid_data
sanitize_detail id o _ = thrown invalid_data

abbrev pub sanitize_list : Answer → Result Payload
sanitize_list (array entries) = ok (listing (sanitize_metadata (array entries)))
sanitize_list _ = thrown invalid_data

abbrev pub sanitize_one : Text → Answer → Result Payload
sanitize_one id (object o) = sanitize_detail id o (o (codes "password"))
sanitize_one id _ = thrown invalid_data

-- `sanitize(key, data)`
unfoldable pub sanitize : Text → Answer → Result Payload
unfolding sanitize_metadata
sanitize key answer =
    if text_eq key (codes "list") then sanitize_list answer else sanitize_one (drop 6 key) answer
