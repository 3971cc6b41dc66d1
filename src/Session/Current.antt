-- ===== src/Session/Current.antt =====
-- extension/background/session.js: what `getCredentialsForDomain` may return.
use passwort_manager_yurr.Common.{
  ℕ, ◌+◌, ◌≤◌, ◌<◌, ◌≡◌, ◌⊎◌, refl, sym, ap, true, List, [], ◌∷◌, Option, none, some, Text, text_eq,
  text_eq_iff, same_text, same_text-eq, ◌==◌, Among, if◌then◌else◌, Bool-cases, inl, inr, arith,
}
use passwort_manager_yurr.Platform.{Platform, Url}
use passwort_manager_yurr.World.{World, Item, Cached}
use passwort_manager_yurr.Popup.Sanitize.{Answer, sanitize_metadata}
use passwort_manager_yurr.Session.Api.{Result, ok, thrown, M}
use passwort_manager_yurr.Session.Metadata.{
  Start, Cache, metadata_ttl_ms, fresh_cached, cached_for, cache_or_empty, set_cached, is_current,
  has_token, use_stored, receive_entries, answer_entries, write_metadata, read_metadata,
  request_entries,
}

-- The session and the credentials are as a call has noted them.
pub record IsUnchanged (start : Start) (v : World) : Type 0 where
  pub credentials : v.credential_generation ≡ start.generation
  pub session : v.token_generation ≡ start.token_generation
  pub server : v.server_url ≡ some start.server_url
  pub unlocked : has_token v.token ≡ true

-- A record of session storage that may be returned: it is stored for the domain, was kept for the token
-- and the server in use, and is less than five minutes old.
pub record IsStoredFor (start : Start) (domain : Text) (items : List Item) (v : World)
    : Type 0 where
  pub kept : Cached
  pub stored : Among (domain, kept) (cache_or_empty v.session_metadata)
  pub entries : items ≡ kept.entries
  pub token : kept.token ≡ v.token
  pub server : kept.server_url ≡ start.server_url
  pub past : kept.cached_at ≤ v.now
  pub young : v.now < kept.cached_at + metadata_ttl_ms

eq_of_test : {m n : ℕ} → (m == n) ≡ true → n ≡ m
eq_of_test h = ground arith

same_text-some : (t : Text) (o : Option Text) → same_text (some t) o ≡ true → o ≡ some t
same_text-some t none h = cc
same_text-some t (some s) h = ap some (sym ((text_eq_iff t s).0 h))

cached_for-Among :
    (domain : Text) (cache : Cache) (c : Cached)
    → cached_for domain cache ≡ some c
    → Among (domain, c) cache
cached_for-Among domain [] c h = cc
cached_for-Among domain ((k, d) ∷ rest) c h = elim (Bool-cases (text_eq k domain)) [
  | inl here ↦ found here (rw here at h)
  | inr there ↦ inr (cached_for-Among domain rest c (rw there at h))
]
  where
    found : text_eq k domain ≡ true → some d ≡ some c → Among (domain, c) ((k, d) ∷ rest)
    found here e =
        let name : k ≡ domain = (text_eq_iff k domain).0 here in
        let same : d ≡ c = cc in inl (λ i. (sym name i, sym same i))

fresh_cached-IsStoredFor :
    (start : Start) (domain : Text) (c : Cached) (v : World)
    → Among (domain, c) (cache_or_empty v.session_metadata)
    → fresh_cached start.server_url v c ≡ true
    → IsStoredFor start domain c.entries v
unfolding fresh_cached
fresh_cached-IsStoredFor start domain c v stored h = record {
  kept = c;
  stored = stored;
  entries = refl;
  token = same_text-eq c.token v.token (ground arith);
  server = (text_eq_iff c.server_url start.server_url).0 (ground arith);
  past = ground arith;
  young = ground arith;
}

read_metadata-IsStoredFor :
    (start : Start) (domain : Text) (w : World) (c : Cached)
    → read_metadata domain start.server_url w ≡ some c
    → IsStoredFor start domain c.entries w
unfolding read_metadata
read_metadata-IsStoredFor start domain w c h =
    go (cached_for domain (cache_or_empty w.session_metadata)) refl h
  where
    go :
        (o : Option Cached)
        → cached_for domain (cache_or_empty w.session_metadata) ≡ o
        → (elim o [
          | none ↦ none
          | some d ↦ if fresh_cached start.server_url w d then some d else none
        ])
          ≡ some c
        → IsStoredFor start domain c.entries w
    go none e k = cc
    go (some d) e k = elim (Bool-cases (fresh_cached start.server_url w d)) [
      | inr stale ↦ cc (rw stale at k)
      | inl fresh ↦
          let k2 : some d ≡ some c = rw fresh at k in
          let same : d ≡ c = cc in
          rw same at (
            fresh_cached-IsStoredFor start domain d w
              (cached_for-Among domain (cache_or_empty w.session_metadata) d e) fresh)
    ]

is_current-IsUnchanged :
    (start : Start) (v : World) → is_current start v ≡ true → IsUnchanged start v
unfolding is_current
is_current-IsUnchanged start v h = record {
  credentials = eq_of_test (ground arith);
  session = eq_of_test (ground arith);
  server = same_text-some start.server_url v.server_url (ground arith);
  unlocked = ground arith;
}

module _ (platform : Platform) (bare_href : Url → Text) (ask : Text → M Answer)
    (join_request : Text → M (List Item)) (env : ℕ → World → World) where
  answer_entries-IsUnchanged :
      (start : Start) (entries items : List Item) (out : Result (Unit {0}) × World) (v : World)
      → answer_entries platform bare_href ask join_request env start entries out ≡ (ok items, v)
      → IsUnchanged start v
  answer_entries-IsUnchanged start entries items (thrown c, w) v h = cc
  answer_entries-IsUnchanged start entries items (ok _, w) v h =
      elim (Bool-cases (is_current start w)) [
        | inr changed ↦ cc (rw changed at h)
        | inl current ↦
            let e : (ok entries, w) ≡ (ok items, v) = rw current at h in
            let there : w ≡ v = cc in rw (sym there) (is_current-IsUnchanged start w current)
      ]

  receive_entries-IsUnchanged :
      (start : Start) (domain : Text) (items : List Item) (out : Result Answer × World) (v : World)
      → receive_entries platform bare_href ask join_request env start domain out ≡ (ok items, v)
      → IsUnchanged start v
  receive_entries-IsUnchanged start domain items (thrown c, w) v h = cc
  receive_entries-IsUnchanged start domain items (ok answer, w) v h =
      elim (Bool-cases (is_current start w)) [
        | inr changed ↦ cc (rw changed at h)
        | inl current ↦
            answer_entries-IsUnchanged start (sanitize_metadata answer) items
              (write_metadata platform bare_href ask join_request env start domain
                (sanitize_metadata answer) w)
              v (rw current at h)
      ]

  use_stored-IsUnchanged :
      (start : Start) (domain : Text) (items : List Item) (found : Option Cached) (w v : World)
      → use_stored platform bare_href ask join_request env start domain found w ≡ (ok items, v)
      → IsUnchanged start v
  unfolding is_current
  use_stored-IsUnchanged start domain items none w v h = elim (Bool-cases (is_current start w)) [
    | inr changed ↦ cc (rw changed at h)
    | inl current ↦
        receive_entries-IsUnchanged start domain items (ask domain w) v (rw current at h)
  ]
  use_stored-IsUnchanged start domain items (some c) w v h =
      elim (Bool-cases (is_current start w)) [
        | inr changed ↦ cc (rw changed at h)
        | inl current ↦
            let u = record w { credential_cache = set_cached domain c w.credential_cache } in
            let e : (ok c.entries, u) ≡ (ok items, v) = rw current at h in
            let there : u ≡ v = cc in rw (sym there) (is_current-IsUnchanged start u current)
      ]

  answer_entries-eq :
      (start : Start) (entries items : List Item) (out : Result (Unit {0}) × World) (v : World)
      → answer_entries platform bare_href ask join_request env start entries out ≡ (ok items, v)
      → items ≡ entries
  answer_entries-eq start entries items (thrown c, w) v h = cc
  answer_entries-eq start entries items (ok _, w) v h = elim (Bool-cases (is_current start w)) [
    | inr changed ↦ cc (rw changed at h)
    | inl current ↦ let e : (ok entries, w) ≡ (ok items, v) = rw current at h in cc
  ]

  -- What the server has answered, without what `_sanitizeCredentialMetadata` leaves out.
  abbrev pub IsAnswered : Text → List Item → World → Type 0
  IsAnswered domain items u =
      (answer : Answer) × (after : World) × (ask domain u ≡ (ok answer, after))
      × (items ≡ sanitize_metadata answer)

  receive_entries-eq :
      (start : Start) (domain : Text) (items : List Item) (out : Result Answer × World) (v : World)
      → receive_entries platform bare_href ask join_request env start domain out ≡ (ok items, v)
      → (answer : Answer) × (after : World) × (out ≡ (ok answer, after))
        × (items ≡ sanitize_metadata answer)
  receive_entries-eq start domain items (thrown c, w) v h = cc
  receive_entries-eq start domain items (ok answer, w) v h =
      elim (Bool-cases (is_current start w)) [
        | inr changed ↦ cc (rw changed at h)
        | inl current ↦ (
          answer,
          w,
          refl,
          answer_entries-eq start (sanitize_metadata answer) items
              (write_metadata platform bare_href ask join_request env start domain
                (sanitize_metadata answer) w)
              v (rw current at h),
        )
      ]

  use_stored-source :
      (start : Start) (domain : Text) (items : List Item) (found : Option Cached) (w v : World)
      → ((c : Cached) → found ≡ some c → IsStoredFor start domain c.entries w)
      → use_stored platform bare_href ask join_request env start domain found w ≡ (ok items, v)
      → IsStoredFor start domain items v ⊎ IsAnswered domain items w
  use_stored-source start domain items none w v j h = elim (Bool-cases (is_current start w)) [
    | inr changed ↦ cc (rw changed at h)
    | inl current ↦ inr (receive_entries-eq start domain items (ask domain w) v (rw current at h))
  ]
  use_stored-source start domain items (some c) w v j h = elim (Bool-cases (is_current start w)) [
    | inr changed ↦ cc (rw changed at h)
    | inl current ↦
        let u = record w { credential_cache = set_cached domain c w.credential_cache } in
        let e : (ok c.entries, u) ≡ (ok items, v) = rw current at h in
        let there : u ≡ v = cc in
        let same : c.entries ≡ items = cc in
        let k = j c refl in
        inl (
          rw (sym there, sym same)
            (record {
              kept = k.kept;
              stored = k.stored;
              entries = k.entries;
              token = k.token;
              server = k.server;
              past = k.past;
              young = k.young;
            }))
  ]

  -- The entries that a request for a domain returns are those of a record in session storage that was
  -- kept for the domain, the token and the server and is less than five minutes old, or what the
  -- server has answered, sanitized. The session, the credentials and the server are at the return as
  -- the call has noted them at its start and a token is held, whatever other handlers did.
  pub request_entries-IsUnchanged :
      (start : Start) (domain : Text) (w : World) (items : List Item) (v : World)
      → request_entries platform bare_href ask join_request env start domain w ≡ (ok items, v)
      → IsUnchanged start v
        × (IsStoredFor start domain items v ⊎ IsAnswered domain items (env 32 (env 31 w)))
  unfolding request_entries
  request_entries-IsUnchanged start domain w items v h =
      let u = env 32 (env 31 w) in
      let found = read_metadata domain start.server_url u in
      (
        use_stored-IsUnchanged start domain items found u v h,
        use_stored-source start domain items found u v
            (λ c e. read_metadata-IsStoredFor start domain u c e) h,
      )
