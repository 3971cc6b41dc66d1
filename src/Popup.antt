-- ===== src/Popup.antt =====
-- extension/background/popup-cache.js: freshness, pruning, persisting and clearing. A queued
-- write runs to its end, and browser storage accepts it.
pub mod Pruning
pub mod Sanitize
pub mod Fetch
pub mod Read
pub mod Current
pub mod Answered
pub mod Mutation
mod Tests
use passwort_manager_yurr.Common.{
  ℕ, ◌+◌, ◌-◌, ◌*◌, Bool, false, ◌&&◌, not, List, [], ◌∷◌, ◌++◌, map, reverse, Option, none, some,
  Text, codes, text_eq, same_text, leb, ltb, if◌then◌else◌, filter, any, drop, sort_by, min,
}
use passwort_manager_yurr.World.{World, Kept, Owner}

-- `POPUP_CACHE_TTL_MS`, `POPUP_CACHE_REFRESH_MS`, `POPUP_CACHE_MAX_DETAILS`
abbrev pub ttl_ms : ℕ
ttl_ms = 5 * 60 * 1000

abbrev pub refresh_ms : ℕ
refresh_ms = 30 * 1000

abbrev pub max_details : ℕ
max_details = 20

-- `fresh(record)`
unfoldable pub fresh : ℕ → Kept → Bool
fresh now r = leb r.cached_at now && ltb (now - r.cached_at) ttl_ms

abbrev pub is_detail : Kept → Bool
is_detail r = not (text_eq r.key (codes "list"))

abbrev pub has_key : Text → Kept → Bool
has_key k r = text_eq r.key k

-- The details in the order in which `prune` keeps them.
abbrev pub by_use : List Kept → List Kept
by_use records =
    sort_by (λ a b. leb b.last_used_at a.last_used_at) (filter is_detail (reverse records))

-- The details that are too many.
abbrev pub surplus : List Kept → List Kept
surplus records = drop max_details (by_use records)

abbrev pub without : List Kept → List Kept → List Kept
without gone records = filter (λ r. not (any (has_key r.key) gone)) records

unfoldable pub prune : ℕ → List Kept → List Kept
unfolding fresh
prune now records = let kept = filter (fresh now) records in without (surplus kept) kept

-- The keys that `prune` reports.
unfoldable pub pruned_keys : ℕ → List Kept → List Text
pruned_keys now records =
    map (λ r. r.key) (filter (λ r. not (fresh now r)) records)
    ++ map (λ r. r.key) (surplus (filter (fresh now) records))

-- The earliest expiry, of one record or more.
abbrev pub earliest : Kept → List Kept → ℕ
earliest r [] = r.cached_at + ttl_ms
earliest r (s ∷ rest) = min (r.cached_at + ttl_ms) (earliest s rest)

abbrev pub next_alarm : List Kept → Option ℕ
next_alarm [] = none
next_alarm (r ∷ rest) = some (earliest r rest)

abbrev pub owns : World → Owner → Bool
owns w o = same_text o.token w.token && same_text o.server_url w.server_url

abbrev stored_copy : World → Option Owner → List Kept → Option (Owner × List Kept)
stored_copy w owner [] = none
stored_copy w none (r ∷ rest) = none
stored_copy w (some o) (r ∷ rest) = if owns w o then some (o, r ∷ rest) else none

-- `persist()`
unfoldable pub persist : World → World
unfolding prune
persist w =
    let records = prune w.now w.popup.records in
    record w {
      popup = record (w.popup) {
        records = records;
        stored = stored_copy w w.popup.owner records;
        alarm = next_alarm records;
      };
    }

-- `clear()`
unfoldable pub clear : World → World
unfolding persist
clear w = persist (record w {
  popup = record (w.popup) {
    generation = w.popup.generation + 1;
    records = [];
    pending = [];
    loaded = false;
    owner = none;
    offline = false;
  };
})
