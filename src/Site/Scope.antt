-- ===== src/Site/Scope.antt =====
-- extension/lib/site-scope.js: `parse`, `key` and `label`.
use passwort_manager_yurr.Common.{
  Bool, false, ◌&&◌, ◌||◌, not, [], ◌∷◌, ◌++◌, Option, none, some, Text, codes, ◌==◌, if◌then◌else◌,
  text_eq, is_empty, starts_with, strip_last, drop, trim,
}
use passwort_manager_yurr.Platform.{Platform, Url}
use passwort_manager_yurr.Site.Local.{is_local_host}

-- What stands behind the first `://`.
unfoldable pub after_separator : Text → Option Text
after_separator [] = none
after_separator (c ∷ s) =
    if starts_with (c ∷ s) (codes "://") then some (drop 3 (c ∷ s)) else after_separator s

-- `raw.split('://')[1]?.match(/^[^/]/)`, for that rest: the piece up to the next `://` begins with
-- a character that is no slash.
abbrev pub starts_part : Text → Bool
starts_part [] = false
starts_part (c ∷ s) = not (c == b'/') && not (starts_with (c ∷ s) (codes "://"))

abbrev pub is_web_protocol : Text → Bool
is_web_protocol p = text_eq p (codes "http:") || text_eq p (codes "https:")

abbrev pub web_url : Option Url → Option Url
web_url none = none
web_url (some u) =
    if is_web_protocol u.protocol && is_empty u.username && is_empty u.password
    then some u
    else none

module _ (platform : Platform) where
  abbrev parse_raw : Text → Option Url
  parse_raw raw = elim (after_separator raw) [
    | none ↦ web_url (platform.parse_url (codes "https://" ++ raw))
    | some rest ↦ if starts_part rest then web_url (platform.parse_url raw) else none
  ]

  unfoldable pub parse : Text → Option Url
  unfolding after_separator trim
  parse value = if is_empty (trim value) then none else parse_raw (trim value)

  abbrev pub port_of : Url → Text
  port_of u =
      if is_empty u.port
      then if text_eq u.protocol (codes "https:") then codes "443" else codes "80"
      else u.port

  abbrev pub key_of : Url → Text
  key_of u =
      let host = strip_last b'.' (platform.to_lower_case u.hostname) in
      if is_local_host platform host then host ++ b':' ∷ port_of u else host

  unfoldable pub key : Text → Text
  unfolding parse is_local_host
  key value = elim (parse value) [ none ↦ [] | some u ↦ key_of u ]

  -- `label(entry)`
  unfoldable pub label : Text → Text → Text
  unfolding key
  label website_url website_domain =
      if is_empty (key website_url) then website_domain else key website_url
