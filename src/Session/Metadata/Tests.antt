-- ===== src/Session/Metadata/Tests.antt =====
-- extension/background/session.js: `getCredentialsForDomain` at a concrete state.
use passwort_manager_yurr.Common.{
  ◌≡◌, ◌⊎◌, refl, false, List, [], ◌∷◌, none, some, Text, codes, text_eq, if◌then◌else◌,
}
use passwort_manager_yurr.Samples.{sample_platform, bare_href, server, stored}
use passwort_manager_yurr.World.{World, Item, Cached}
use passwort_manager_yurr.Popup.Sanitize.{Answer, Object, array, text, falsy}
use passwort_manager_yurr.Session.Api.{ok, thrown, M, session_changed, network_error}
use passwort_manager_yurr.Session.Metadata.{
  Start, fresh_cached, remember, request_entries, get_for_domain,
}
use passwort_manager_yurr.Session.Current.{
  IsUnchanged, IsStoredFor, IsAnswered, request_entries-IsUnchanged,
}
use passwort_manager_yurr.Session.Stored.{quiet}

-- All that a run computes with.
program : Unit {0}
unfolding get_for_domain request_entries remember fresh_cached
program = tt

abbrev unlocked : World
unlocked = record stored { token = some (codes "tok") }

abbrev an_entry : Object
an_entry field = if text_eq field (codes "id") then text (codes "1") else falsy (codes "undefined")

abbrev ask : Text → M Answer
ask domain w = (ok (array (some an_entry ∷ none ∷ [])), w)

abbrev join_request : Text → M (List Item)
join_request k w = (thrown network_error, w)

abbrev item : Item
item = record {
  metadata = record { id = codes "1"; website_url = []; website_domain = []; username = [] };
  favorite = false;
  has_favicon = false;
  created_at = [];
  updated_at = [];
}

abbrev cached : Cached
cached = record {
  cached_at = 1000;
  server_url = server;
  token = some (codes "tok");
  entries = item ∷ [];
}

abbrev answered : World
answered = record unlocked {
  credential_cache = (codes "a.org", cached) ∷ [];
  session_metadata = some ((codes "a.org", cached) ∷ []);
}

abbrev start : Start
start = record { generation = 0; token_generation = 0; server_url = server }

request_run :
    request_entries sample_platform bare_href ask join_request quiet start (codes "a.org") unlocked
    ≡ (ok (item ∷ []), answered)
unfolding program
request_run = refl

-- The second call is answered from memory.
memory_run :
    get_for_domain sample_platform bare_href ask join_request quiet (codes " A.org ") answered
    ≡ (ok (item ∷ []), answered)
unfolding program
memory_run = refl

-- The vault changes while the request is under way.
changed_run :
    (get_for_domain sample_platform bare_href
      (λ domain w. (ok (array []), record w { credential_generation = 1 }))
      join_request
      quiet
      (codes "a.org")
      unlocked).0
    ≡ thrown session_changed
unfolding program
changed_run = refl

request_entries-IsUnchanged_example :
    IsUnchanged start answered
    × (IsStoredFor start (codes "a.org") (item ∷ []) answered
        ⊎ IsAnswered sample_platform bare_href ask join_request quiet
            (codes "a.org")
            (item ∷ [])
            unlocked)
request_entries-IsUnchanged_example =
    request_entries-IsUnchanged sample_platform bare_href ask join_request quiet start
      (codes "a.org") unlocked (item ∷ []) answered request_run
