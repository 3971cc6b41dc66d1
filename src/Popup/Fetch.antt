-- ===== src/Popup/Fetch.antt =====
-- extension/background/popup-cache.js: `context`, `assertSession`, `assertCurrent` and `fetch`.
-- `ask` is the request to the server and `join_fetch` the wait for a request that another call has
-- made; other handlers may run during both, and at `env` while a write to storage is waited for.
-- The events that tell the popup of a change are left out.
use passwort_manager_yurr.Common.{
  ℕ, Bool, true, false, ◌&&◌, not, List, [], ◌∷◌, ◌++◌, reverse, map, Option, none, some, Text,
  codes, text_eq, same_text, truthy, ◌==◌, if◌then◌else◌, filter, any, find, drop,
}
use passwort_manager_yurr.World.{World, Item, Payload, listing, detail, Kept}
use passwort_manager_yurr.Popup.{is_detail, has_key, prune, persist}
use passwort_manager_yurr.Popup.Sanitize.{Answer, sanitize}
use passwort_manager_yurr.Session.{clear_token}
use passwort_manager_yurr.Session.Api.{
  Code, Result, ok, thrown, M, session_changed, cache_changed, session_lost, auth_error,
  network_error, http_error,
}

-- `context()`
pub record Context : Type 0 where
  pub token : Option Text
  pub server_url : Option Text
  pub token_generation : ℕ
  pub generation : ℕ

abbrev pub context_of : World → Context
context_of w = record {
  token = w.token;
  server_url = w.server_url;
  token_generation = w.token_generation;
  generation = w.popup.generation;
}

abbrev pub holds_token : Context → Bool
holds_token context = elim (truthy context.token) [ none ↦ false | some t ↦ true ]

-- `assertSession(context)`: true if it does not throw.
unfoldable pub same_session : Context → World → Bool
same_session context w =
    holds_token context
    && same_text context.token w.token
    && same_text context.server_url w.server_url
    && (context.token_generation == w.token_generation)

-- `assertCurrent(context)`
unfoldable pub check_current : Context → World → Result (Unit {0})
unfolding same_session
check_current context w =
    if not (same_session context w)
    then thrown session_changed
    else if context.generation == w.popup.generation
    then ok tt
    else thrown cache_changed

-- `records.get(key)`, `records.delete(key)` and `records.set(key, record)`
abbrev pub lookup : Text → List Kept → Option Kept
lookup key records = find (has_key key) records

abbrev pub delete : Text → List Kept → List Kept
delete key records = filter (λ r. not (has_key key r)) records

abbrev pub put : Kept → List Kept → List Kept
put r records =
    if any (has_key r.key) records
    then map (λ old. if has_key r.key old then r else old) records
    else records ++ r ∷ []

-- The entry of a list that agrees with a detail; of two with one id the last counts.
abbrev same_version : List Item → Payload → Bool
same_version items (detail (some item) _ _) =
    elim (find (λ other. text_eq other.id item.id) (reverse items)) [
      | none ↦ false
      | some other ↦ text_eq other.updated_at item.updated_at
    ]
same_version items _ = false

-- The records that a new list leaves.
abbrev pub unchanged : Payload → List Kept → List Kept
unchanged (listing items) records =
    filter (λ r. not (is_detail r && not (same_version items r.payload))) records
unchanged (detail _ _ _) records = records

abbrev pub with_records : List Kept → World → World
with_records records w = record w { popup = record (w.popup) { records = records } }

abbrev pub with_offline : Bool → World → World
with_offline offline w = record w { popup = record (w.popup) { offline = offline } }

abbrev lists : Text → Option Kept → Bool
lists id none = false
lists id (some r) = elim r.payload [
  | listing items ↦ any (λ item. text_eq item.id id) items
  | detail _ _ _ ↦ false
]

-- The records without an entry that the server no longer has.
abbrev pub without_missing : Text → List Kept → List Kept
without_missing key records =
    let rest = delete key records in
    if lists (drop 6 key) (lookup (codes "list") rest) then delete (codes "list") rest else rest

module _ (ask : Text → M Answer) (join_fetch : Text → M Kept) (env : ℕ → World → World) where
  -- After a write that is waited for.
  abbrev settle : Context → Result Kept → World → Result Kept × World
  settle context result w = elim (check_current context w) [
    | ok _ ↦ (result, w)
    | thrown c ↦ (thrown c, w)
  ]

  abbrev pub recover : Text → Context → Code → World → Result Kept × World
  recover key context auth_error w = (thrown session_lost, clear_token w)
  recover key context network_error w = (thrown network_error, with_offline true w)
  recover key context (http_error status) w =
      if status == 404
      then settle context (thrown (http_error status))
          (env 8 (persist (with_records (without_missing key w.popup.records) w)))
      else (thrown (http_error status), w)
  recover key context c w = (thrown c, w)

  -- The handler of what the task throws.
  unfoldable pub fail : Text → Context → Code → World → Result Kept × World
  unfolding check_current persist clear_token
  fail key context c w = elim (check_current context w) [
    | thrown d ↦ (thrown d, w)
    | ok _ ↦ recover key context c w
  ]

  -- A record goes into the cache.
  unfoldable pub keep : Kept → World → World
  unfolding persist prune
  keep r w =
      let records = put r (unchanged r.payload w.popup.records) in
      persist (with_records (prune w.now records) (with_offline false w))

  abbrev pub kept_from : Text → Context → Kept → World → Result Kept × World
  kept_from key context r w = elim (check_current context w) [
    | ok _ ↦ (ok r, w)
    | thrown c ↦ fail key context c w
  ]

  abbrev pub receive : Text → Context → Result Payload → World → Result Kept × World
  receive key context (thrown c) w = fail key context c w
  receive key context (ok payload) w =
      let r : Kept = record {
        key = key;
        payload = payload;
        cached_at = w.now;
        last_used_at = w.now;
      } in
      kept_from key context r (env 9 (keep r w))

  abbrev pub handle : Text → Context → Result Answer × World → Result Kept × World
  handle key context (thrown c, w) = fail key context c w
  handle key context (ok answer, w) = elim (check_current context w) [
    | thrown c ↦ fail key context c w
    | ok _ ↦ receive key context (sanitize key answer) w
  ]

  -- The task of `fetch(key, context)`
  unfoldable pub fetch_task : Text → Context → M Kept
  unfolding fail keep sanitize
  fetch_task key context w = handle key context (ask key w)

  abbrev begin_fetch : Text → World → World
  begin_fetch key w = record w {
    popup = record (w.popup) { pending = w.popup.pending ++ key ∷ [] };
  }

  -- The task is this one as long as the generation is.
  abbrev without_pending : Text → World → World
  without_pending key w = record w {
    popup = record (w.popup) { pending = filter (λ k. not (text_eq k key)) w.popup.pending };
  }

  abbrev end_fetch : Text → ℕ → Result Kept × World → Result Kept × World
  end_fetch key generation (result, w) =
      (result, if generation == w.popup.generation then without_pending key w else w)

  -- `fetch(key, context)`
  unfoldable pub fetch : Text → Context → M Kept
  unfolding fetch_task
  fetch key context w =
      if any (text_eq key) w.popup.pending
      then join_fetch key w
      else end_fetch key w.popup.generation (fetch_task key context (begin_fetch key w))
