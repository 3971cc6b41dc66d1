-- ===== src/Session/Metadata.antt =====
-- extension/background/session.js: `getCredentialsForDomain` and its cache of entries without
-- passwords. `ask` is the request to the server, `join_request` the wait for a request of another
-- call, and other handlers may run at each wait (`env`).
mod Tests
use passwort_manager_yurr.Common.{
  ℕ, ◌+◌, ◌-◌, ◌*◌, Bool, true, false, ◌&&◌, not, List, [], ◌∷◌, ◌++◌, map, Option, none, some,
  Text, codes, text_eq, same_text, truthy, leb, ltb, ◌==◌, if◌then◌else◌, is_empty, trim, filter,
  any, find, take, drop, length, sort_by,
}
use passwort_manager_yurr.Platform.{Platform, Url}
use passwort_manager_yurr.Site.Numbers.{show_number}
use passwort_manager_yurr.World.{World, Item, Cached}
use passwort_manager_yurr.Popup.Sanitize.{Answer, sanitize_metadata}
use passwort_manager_yurr.Session.Api.{Result, ok, thrown, M, session_changed, get_server_url}

abbrev pub metadata_ttl_ms : ℕ
metadata_ttl_ms = 5 * 60 * 1000

abbrev pub max_domains : ℕ
max_domains = 50

-- `_isFreshCredentialCacheRecord`
unfoldable pub fresh_cached : Text → World → Cached → Bool
fresh_cached server_url w c =
    leb c.cached_at w.now
    && ltb (w.now - c.cached_at) metadata_ttl_ms
    && text_eq c.server_url server_url
    && same_text c.token w.token

abbrev pub Cache : Type 0
Cache = List (Text × Cached)

abbrev pub value_of : Option (Text × Cached) → Option Cached
value_of none = none
value_of (some (k, c)) = some c

abbrev pub cached_for : Text → Cache → Option Cached
cached_for domain cache = value_of (find (λ e. text_eq e.0 domain) cache)

abbrev pub set_cached : Text → Cached → Cache → Cache
set_cached domain c cache =
    if any (λ e. text_eq e.0 domain) cache
    then map (λ e. if text_eq e.0 domain then (domain, c) else e) cache
    else cache ++ (domain, c) ∷ []

abbrev pub fresh_only : Text → World → Cache → Cache
fresh_only server_url w cache = filter (λ e. fresh_cached server_url w e.1) cache

-- The cache in memory with a new record: the oldest domains give way.
unfoldable pub remember : Text → Text → Cached → World → Cache
unfolding fresh_cached
remember domain server_url c w =
    let cache = fresh_only server_url w (set_cached domain c w.credential_cache) in
    drop (length cache - max_domains) cache

abbrev pub cache_or_empty : Option Cache → Cache
cache_or_empty none = []
cache_or_empty (some cache) = cache

-- The copy in session storage: the latest domains are kept.
unfoldable pub trimmed : Text → Text → Cached → World → Cache
unfolding fresh_cached
trimmed domain server_url c w = take max_domains (
    sort_by (λ a b. leb b.1.cached_at a.1.cached_at)
      (fresh_only server_url w (set_cached domain c (cache_or_empty w.session_metadata))))

-- What a call has noted of the session at its start.
pub record Start : Type 0 where
  pub generation : ℕ
  pub token_generation : ℕ
  pub server_url : Text

abbrev pub has_token : Option Text → Bool
has_token t = elim (truthy t) [ none ↦ false | some _ ↦ true ]

-- `assertCurrent()`: true if it does not throw.
unfoldable pub is_current : Start → World → Bool
is_current start w =
    (start.generation == w.credential_generation)
    && (start.token_generation == w.token_generation)
    && same_text (some start.server_url) w.server_url
    && has_token w.token

-- `_readCredentialMetadataCache`
unfoldable pub read_metadata : Text → Text → World → Option Cached
unfolding fresh_cached
read_metadata domain server_url w = elim (cached_for domain (cache_or_empty w.session_metadata)) [
  | none ↦ none
  | some c ↦ if fresh_cached server_url w c then some c else none
]

module _ (platform : Platform) (bare_href : Url → Text) (ask : Text → M Answer)
    (join_request : Text → M (List Item)) (env : ℕ → World → World) where
  -- The write to session storage, in its turn.
  abbrev pub write_stored : Start → Text → Cached → World → Result (Unit {0}) × World
  write_stored start domain c w =
      if not (is_current start w)
      then (thrown session_changed, w)
      else let v = env 34 w in
        (if is_current start v
          then (
            ok tt,
            env 35 (record v { session_metadata = some (trimmed domain start.server_url c v) }),
          )
          else (thrown session_changed, v))

  -- `_writeCredentialMetadataCache`
  unfoldable pub write_metadata : Start → Text → List Item → World → Result (Unit {0}) × World
  unfolding remember trimmed is_current
  write_metadata start domain entries w =
      let c : Cached = record {
        cached_at = w.now;
        server_url = start.server_url;
        token = w.token;
        entries = entries;
      } in
      write_stored start domain c
        (env 33 (record w { credential_cache = remember domain start.server_url c w }))

  abbrev pub answer_entries :
      Start → List Item → Result (Unit {0}) × World → Result (List Item) × World
  answer_entries start entries (thrown c, w) = (thrown c, w)
  answer_entries start entries (ok _, w) =
      if is_current start w then (ok entries, w) else (thrown session_changed, w)

  abbrev pub receive_entries : Start → Text → Result Answer × World → Result (List Item) × World
  receive_entries start domain (thrown c, w) = (thrown c, w)
  receive_entries start domain (ok answer, w) =
      let entries = sanitize_metadata answer in
      if is_current start w
      then answer_entries start entries (write_metadata start domain entries w)
      else (thrown session_changed, w)

  abbrev pub use_stored : Start → Text → Option Cached → World → Result (List Item) × World
  use_stored start domain found w =
      if not (is_current start w) then (thrown session_changed, w) else elim found [
        | none ↦ receive_entries start domain (ask domain w)
        | some c ↦
            (ok c.entries, record w { credential_cache = set_cached domain c w.credential_cache })
      ]

  -- The request that a call makes.
  unfoldable pub request_entries : Start → Text → M (List Item)
  unfolding is_current write_metadata read_metadata sanitize_metadata
  request_entries start domain w =
      let v = env 32 (env 31 w) in
      use_stored start domain (read_metadata domain start.server_url v) v

  abbrev request_key : Start → Text → Text
  request_key start domain =
      show_number start.token_generation
      ++ codes ":"
      ++ show_number start.generation
      ++ codes ":"
      ++ start.server_url
      ++ codes ":"
      ++ domain

  -- The generation is part of the key, so that no later request has the same.
  abbrev end_request : Text → Result (List Item) × World → Result (List Item) × World
  end_request k (result, w) = (
    result,
    record w { credential_requests = filter (λ r. not (text_eq r k)) w.credential_requests },
  )

  abbrev share_request : Start → Text → World → Result (List Item) × World
  share_request start domain w =
      let k = request_key start domain in
      if any (text_eq k) w.credential_requests
      then join_request k w
      else end_request k (
          request_entries start domain
            (record w { credential_requests = w.credential_requests ++ k ∷ [] }))

  abbrev use_memory : Start → Text → Option Cached → World → Result (List Item) × World
  use_memory start domain none w = share_request start domain w
  use_memory start domain (some c) w =
      if fresh_cached start.server_url w c then (ok c.entries, w) else share_request start domain w

  abbrev with_server : ℕ → ℕ → Text → Result Text × World → Result (List Item) × World
  with_server generation token_generation domain (thrown c, w) = (thrown c, w)
  with_server generation token_generation domain (ok url, w) =
      let start : Start = record {
        generation = generation;
        token_generation = token_generation;
        server_url = url;
      } in
      if is_current start w
      then use_memory start domain (cached_for domain w.credential_cache) w
      else (thrown session_changed, w)

  abbrev after_server : Result Text × World → Result Text × World
  after_server (result, w) = (result, env 30 w)

  -- `getCredentialsForDomain`
  unfoldable pub get_for_domain : Text → M (List Item)
  unfolding request_entries is_current fresh_cached get_server_url trim show_number
  get_for_domain domain w =
      let name = platform.to_lower_case (trim domain) in
      if is_empty name
      then (ok [], w)
      else with_server w.credential_generation w.token_generation name
          (after_server (get_server_url platform bare_href w))
