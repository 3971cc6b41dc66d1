-- ===== src/Popup/Read.antt =====
-- extension/background/popup-cache.js: `load`, `expire`, `mutate` and `read`. Other handlers may run
-- at each wait, which `env` tells apart by numbers, and while a load of another call is waited for
-- (`join_load`). A refresh that a read starts in the background is one of those other handlers.
use passwort_manager_yurr.Common.{
  ℕ, zero, suc, ◌+◌, Bool, true, false, ◌&&◌, ◌||◌, not, List, [], ◌∷◌, ◌++◌, Option, none, some,
  Text, codes, text_eq, ◌==◌, if◌then◌else◌, starts_with, min, drop,
}
use passwort_manager_yurr.Platform.{Platform, Url}
use passwort_manager_yurr.World.{World, Payload, listing, detail, Kept, Owner}
use passwort_manager_yurr.Popup.{ttl_ms, fresh, prune, persist, clear, owns}
use passwort_manager_yurr.Popup.Sanitize.{Answer}
use passwort_manager_yurr.Popup.Fetch.{
  Context, context_of, same_session, check_current, lookup, delete, put, with_records, fetch,
}
use passwort_manager_yurr.Session.{auto_lock_deadline, reset_auto_lock}
use passwort_manager_yurr.Session.Api.{
  Result, ok, thrown, M, session_lost, session_changed, cache_changed,
}
use passwort_manager_yurr.Session.Tokens.{load_token, is_unlocked}

-- What a read returns.
pub record View : Type 0 where
  pub payload : Payload
  pub expires_at : ℕ
  pub offline : Bool

-- A read returns, or begins again since a change of the vault is under way.
pub data Outcome : Type 0 where
  again : Outcome
  done : Option View → Outcome

abbrev pub is_fresh : ℕ → Option Kept → Bool
is_fresh now none = false
is_fresh now (some r) = fresh now r

-- The data of a stored record passes `sanitize`, which leaves what it once gave as it is.
abbrev pub is_sane : Text → Payload → Bool
is_sane key (listing items) = text_eq key (codes "list")
is_sane key (detail none _ _) = false
is_sane key (detail (some item) _ _) =
    not (text_eq key (codes "list")) && text_eq item.id (drop 6 key)

-- A stored record that may enter the cache.
abbrev pub may_restore : ℕ → Kept → Bool
may_restore now r =
    (text_eq r.key (codes "list") || starts_with r.key (codes "entry:"))
    && fresh now r
    && is_sane r.key r.payload

abbrev pub restore : ℕ → List Kept → List Kept → List Kept
restore now [] records = records
restore now (r ∷ rest) records =
    restore now rest (if may_restore now r then put r records else records)

-- `Math.min(record.cachedAt + POPUP_CACHE_TTL_MS, localDeadline || Infinity)`
abbrev pub view_expiry : Kept → Option ℕ → ℕ
view_expiry r none = r.cached_at + ttl_ms
view_expiry r (some deadline) =
    if deadline == 0 then r.cached_at + ttl_ms else min (r.cached_at + ttl_ms) deadline

module _ (platform : Platform) (bare_href : Url → Text) (origin : Text → Option Text)
    (ask : Text → M Answer) (join_load : M (Unit {0})) (join_fetch : Text → M Kept)
    (env : ℕ → World → World) where
  abbrev disown : World → World
  disown w = elim w.popup.owner [ none ↦ w | some o ↦ if owns w o then w else env 10 (clear w) ]

  abbrev restored : Option (Owner × List Kept) → World → List Kept
  restored none w = w.popup.records
  restored (some (o, records)) w =
      if owns w o then restore w.now records w.popup.records else w.popup.records

  -- The end of the load that this call has begun.
  abbrev finish_load : Context → World → Result (Unit {0}) × World
  finish_load context w = elim (check_current context w) [
    | thrown c ↦ (thrown c, w)
    | ok _ ↦ (ok tt, env 13 (with_records (prune w.now (restored w.popup.stored w)) w))
  ]

  abbrev begin_load : World → World
  begin_load w =
      let owner : Owner = record { token = w.token; server_url = w.server_url } in
      record w { popup = record (w.popup) { owner = some owner; loaded = true } }

  abbrev load_from : World → Result (Unit {0}) × World
  load_from w =
      if w.popup.loaded
      then join_load w
      else finish_load (context_of w) (env 12 (env 11 (begin_load w)))

  -- `load()`
  unfoldable pub load : M (Unit {0})
  unfolding clear prune check_current
  load w = load_from (disown w)

  abbrev expire_loaded : Result (Unit {0}) × World → Result (Unit {0}) × World
  expire_loaded (thrown c, w) = (thrown c, w)
  expire_loaded (ok _, w) = (ok tt, persist (with_records (prune w.now w.popup.records) w))

  abbrev expire_unlocked : Result Bool × World → Result (Unit {0}) × World
  expire_unlocked (thrown c, w) = (thrown c, w)
  expire_unlocked (ok false, w) = (ok tt, clear w)
  expire_unlocked (ok true, w) = expire_loaded (load w)

  -- `expire()`
  unfoldable pub expire : M (Unit {0})
  unfolding load persist prune clear load_token
  expire w = expire_unlocked (is_unlocked platform bare_href origin env w)

  abbrev pub cleared : {A : Type 0} → Result A × World → Result A × World
  cleared (result, w) = (result, env 16 (clear w))

  abbrev pub run_mutation : {A : Type 0} → Context → M A → World → Result A × World
  run_mutation context operation w =
      if same_session context w then cleared (operation w) else cleared (thrown session_changed, w)

  abbrev pub clear_first : {A : Type 0} → Context → M A → World → Result A × World
  clear_first context operation w =
      if same_session context w
      then run_mutation context operation (env 15 (clear w))
      else (thrown session_changed, w)

  -- The task is this one as long as no later one has begun.
  abbrev pub end_mutation : {A : Type 0} → ℕ → Result A × World → Result A × World
  end_mutation ticket (result, w) = elim w.popup.mutation [
    | none ↦ (result, w)
    | some latest ↦ (
      result,
      if latest == ticket then record w { popup = record (w.popup) { mutation = none } } else w,
    )
  ]

  -- The wait for the mutation that is under way.
  abbrev pub wait_for : ℕ → Option ℕ → World → World
  wait_for i none w = w
  wait_for i (some ticket) w = env i w

  -- `mutate(operation)`
  unfoldable pub mutate : {A : Type 0} → M A → M A
  unfolding same_session clear
  mutate operation w =
      let ticket = w.popup.mutations + 1 in
      let begun = record w {
        popup = record (w.popup) { mutation = some ticket; mutations = ticket };
      } in
      end_mutation ticket
        (clear_first (context_of w) operation (wait_for 14 w.popup.mutation begun))

  -- The last tests of `read`, once the deadline is known.
  abbrev pub view : Option ℕ → Option Kept → World → Result Outcome × World
  view deadline none w = (thrown cache_changed, w)
  view deadline (some r) w = elim w.popup.mutation [
    | some ticket ↦ (thrown cache_changed, w)
    | none ↦
        if fresh w.now r
        then (
          ok (
              done (
                some (record {
                  payload = r.payload;
                  expires_at = view_expiry r deadline;
                  offline = w.popup.offline;
                }))),
          w,
        )
        else (thrown cache_changed, w)
  ]

  abbrev pub show : Text → Context → Option ℕ → World → Result Outcome × World
  show key context deadline w = elim (check_current context w) [
    | thrown c ↦ (thrown c, w)
    | ok _ ↦ view deadline (lookup key w.popup.records) w
  ]

  abbrev pub recheck : Text → Context → Result Bool × World → Result Outcome × World
  recheck key context (thrown c, w) = (thrown c, w)
  recheck key context (ok false, w) = (thrown session_lost, w)
  recheck key context (ok true, w) = elim (check_current context w) [
    | thrown c ↦ (thrown c, w)
    | ok _ ↦ let v = env 17 w in show key context (auto_lock_deadline v) (env 18 v)
  ]

  abbrev pub finish_read : Text → Context → World → Result Outcome × World
  finish_read key context w =
      recheck key context (is_unlocked platform bare_href origin env (env 19 w))

  abbrev pub after_fetch : Text → Context → Result Kept × World → Result Outcome × World
  after_fetch key context (thrown c, w) = (thrown c, w)
  after_fetch key context (ok r, w) = finish_read key context w

  -- A record that is used goes to the end of the map.
  abbrev pub use_record : Kept → World → World
  use_record r w =
      let used = record r { last_used_at = w.now } in
      persist (with_records (delete r.key w.popup.records ++ used ∷ []) w)

  abbrev pub read_record : Text → Bool → Option Kept → World → Result Outcome × World
  read_record key cache_only found w =
      let stale = with_records (delete key w.popup.records) w in
      if is_fresh w.now found
      then elim found [
        | none ↦ (thrown cache_changed, w)
        | some r ↦ finish_read key (context_of w) (use_record r w)
      ]
      else if cache_only
      then (ok (done none), stale)
      else after_fetch key (context_of w) (fetch ask join_fetch env key (context_of w) stale)

  abbrev pub read_loaded : Text → Bool → Result (Unit {0}) × World → Result Outcome × World
  read_loaded key cache_only (thrown c, w) = (thrown c, w)
  read_loaded key cache_only (ok _, w) = elim w.popup.mutation [
    | some ticket ↦ (ok again, w)
    | none ↦ read_record key cache_only (lookup key w.popup.records) w
  ]

  abbrev pub read_unlocked : Text → Bool → Bool → Result Bool × World → Result Outcome × World
  read_unlocked key activity cache_only (thrown c, w) = (thrown c, w)
  read_unlocked key activity cache_only (ok false, w) = (thrown session_lost, w)
  read_unlocked key activity cache_only (ok true, w) =
      read_loaded key cache_only (load (env 20 (if activity then reset_auto_lock w else w)))

  -- One round of `read(key, { activity, cacheOnly })`
  unfoldable pub read_once : Text → Bool → Bool → M Outcome
  unfolding load fetch persist auto_lock_deadline reset_auto_lock load_token
  read_once key activity cache_only w =
      read_unlocked key activity cache_only
        (is_unlocked platform bare_href origin env (wait_for 21 w.popup.mutation w))

  -- `read`, in so many rounds at most: `none` if the vault changes throughout.
  abbrev pub read_again :
      (World → Option (Result (Option View) × World))
      → Result Outcome × World
      → Option (Result (Option View) × World)
  read_again next (thrown c, w) = some (thrown c, w)
  read_again next (ok again, w) = next w
  read_again next (ok (done found), w) = some (ok found, w)

  unfoldable pub read : ℕ → Text → Bool → Bool → World → Option (Result (Option View) × World)
  unfolding read_once
  read zero key activity cache_only w = none
  read (suc rounds) key activity cache_only w =
      read_again (read rounds key activity cache_only) (read_once key activity cache_only w)
