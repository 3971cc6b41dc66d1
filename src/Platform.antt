-- ===== src/Platform.antt =====
-- What the extension takes from the browser and does not implement: URL parsing (`new URL`, which
-- throws on a bad text, and has here no value) and `String.prototype.toLowerCase`, of which the
-- code relies on its leaving digits and punctuation alone. Parsing the `href` of a parsed URL gives
-- that URL again.
use passwort_manager_yurr.Common.{◌<◌, ◌≡◌, Option, some, Text, All}

pub record Url : Type 0 where
  pub href : Text
  pub protocol : Text
  pub hostname : Text
  pub port : Text
  pub username : Text
  pub password : Text

-- Code units below `A`.
abbrev pub IsUncased : Text → Type 0
IsUncased = All (λ c. c < b'A')

pub record Platform : Type 0 where
  pub parse_url : Text → Option Url
  pub to_lower_case : Text → Text
  pub lower_uncased : (t : Text) → IsUncased t → to_lower_case t ≡ t
  pub parse_href : (t : Text) (u : Url) → parse_url t ≡ some u → parse_url u.href ≡ some u
