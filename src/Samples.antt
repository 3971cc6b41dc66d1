-- ===== src/Samples.antt =====
-- A concrete platform for tests: URLs of the form `https://HOST/…` and `http://HOST/…`, with no port
-- or user, and lower case on ASCII letters; and a state with a token in local storage.
use passwort_manager_yurr.Common.{
  ◌+◌, ◌≡◌, refl, [], ◌∷◌, ◌++◌, map, Option, none, some, Text, codes, starts_with, drop, false,
  split_first, leb, ◌&&◌, if◌then◌else◌, ℕ, arith,
}
use passwort_manager_yurr.Platform.{Platform, Url, IsUncased}
use passwort_manager_yurr.World.{World, Popup, inactivity, no_emails}

abbrev pub page_url : Text → Text → Url
page_url protocol host = record {
  href = protocol ++ codes "//" ++ host ++ codes "/";
  protocol = protocol;
  hostname = host;
  port = [];
  username = [];
  password = [];
}

abbrev lower : ℕ → ℕ
lower c = if leb b'A' c && leb c b'Z' then c + 32 else c

abbrev sample_parse : Text → Option Url
sample_parse t =
    if starts_with t (codes "https://")
    then some (page_url (codes "https:") (split_first b'/' (drop 8 t)).0)
    else if starts_with t (codes "http://")
    then some (page_url (codes "http:") (split_first b'/' (drop 7 t)).0)
    else none

pub lower_uncased : (t : Text) → IsUncased t → map lower t ≡ t
lower_uncased [] h = refl
lower_uncased (c ∷ t) (p, h) = ground (arith, lower_uncased t h)

split_first_again :
    (k : ℕ) (t rest : Text)
    → (split_first k ((split_first k t).0 ++ k ∷ rest)).0 ≡ (split_first k t).0
split_first_again k [] rest = ground arith
split_first_again k (c ∷ t) rest = ground (arith, split_first_again k t rest)

pub parse_href : (t : Text) (u : Url) → sample_parse t ≡ some u → sample_parse u.href ≡ some u
parse_href t u h =
    ground (arith, split_first_again b'/' (drop 8 t) [], split_first_again b'/' (drop 7 t) [])

abbrev pub sample_platform : Platform
sample_platform = record {
  parse_url = sample_parse;
  to_lower_case = map lower;
  lower_uncased = lower_uncased;
  parse_href = parse_href;
}

-- `new URL(text).origin`, and `url.href` with no query and no fragment, which these URLs lack.
abbrev pub sample_origin : Text → Option Text
sample_origin t = elim (sample_parse t) [
  | none ↦ none
  | some u ↦ some (u.protocol ++ codes "//" ++ u.hostname)
]

abbrev pub bare_href : Url → Text
bare_href u = u.href

abbrev pub server : Text
server = codes "https://a.org/"

abbrev pub no_popup : Popup
no_popup = record {
  records = [];
  generation = 0;
  loaded = false;
  owner = none;
  offline = false;
  pending = [];
  mutation = none;
  mutations = 0;
  stored = none;
  alarm = none;
}

-- Nothing is stored but a token for the server in use, in the inactivity mode.
abbrev pub stored : World
stored = record {
  now = 1000;
  token = none;
  server_url = some server;
  token_server_url = none;
  token_generation = 0;
  session_token = none;
  session_token_url = none;
  session_metadata = none;
  local_token = some (codes "tok");
  local_token_url = some server;
  local_server_url = none;
  local_mode = some (codes "inactivity");
  local_minutes = some 5;
  last_active = some 700;
  expires_at = some 900;
  lock_alarm = none;
  cached_mode = some inactivity;
  autofill_enabled = false;
  email_suggestions = no_emails;
  last_selected = [];
  clearing = false;
  generation = 3;
  unlocked_badge = false;
  credential_cache = [];
  credential_requests = [];
  credential_generation = 0;
  popup = no_popup;
  favicons = (codes "a.org", []) ∷ [];
  pending_credentials = none;
  pending_usernames = none;
  pending_alarm = none;
}
