-- ===== src/Session/Tokens.antt =====
-- extension/background/session.js: `saveToken` and `loadToken`. The environment is what other
-- handlers do while `loadToken` waits: one change of the state for each of its waits.
use passwort_manager_yurr.Common.{
  ℕ, Bool, true, false, ◌||◌, not, Option, none, some, Text, ◌==◌, truthy, if◌then◌else◌,
}
use passwort_manager_yurr.Platform.{Platform, Url}
use passwort_manager_yurr.World.{World, Mode, ephemeral}
use passwort_manager_yurr.Session.{
  mode_of, get_mode, is_inactivity, clear_auto_lock_state, clear_cache, clear_token,
  lock_if_expired, reset_auto_lock,
}
use passwort_manager_yurr.Session.Api.{
  Result, ok, thrown, M, get_server_url, set_token, same_server_origin,
}

pub data Area : Type 0 where
  session_area local_area : Area

pub record Found : Type 0 where
  pub token : Text
  pub url : Option Text
  pub area : Area

abbrev pub is_durable : Mode → Bool
is_durable ephemeral = false
is_durable _ = true

-- `chrome.storage.….set({ token, serverUrl })`
abbrev pub store_token : Mode → Text → Text → World → World
store_token mode token url w =
    if is_durable mode
    then record w { local_token = some token; local_token_url = some url }
    else record w { session_token = some token; session_token_url = some url }

module _ (platform : Platform) (bare_href : Url → Text) (origin : Text → Option Text) where
  abbrev pub after_save : Mode → World → World
  after_save mode w = if is_inactivity mode then reset_auto_lock w else clear_auto_lock_state w

  abbrev pub save_to : Mode → Text → Result Text × World → Result (Unit {0}) × World
  save_to mode token (thrown c, w) = (thrown c, w)
  save_to mode token (ok url, w) =
      let kept = set_token (some token) (some url) (store_token mode token url w) in
      (ok tt, after_save mode (record kept { unlocked_badge = true }))

  -- `saveToken`
  unfoldable pub save_token : Text → M (Unit {0})
  unfolding clear_cache mode_of get_server_url set_token reset_auto_lock clear_auto_lock_state
  save_token token w =
      let (mode, v) = get_mode (clear_cache w) in
      save_to mode token (get_server_url platform bare_href v)

  module _ (env : ℕ → World → World) where
    abbrev pub found_in : Area → Option Text → Option Text → Option Found
    found_in area none url = none
    found_in area (some t) url = some (record { token = t; url = truthy url; area = area })

    -- The reads of both storage areas, with a wait before each.
    abbrev pub read_local : World → Option Found × World
    read_local w = (found_in local_area (truthy w.local_token) w.local_token_url, w)

    abbrev pub read_stored : World → Option Found × World
    read_stored w = elim (found_in session_area (truthy w.session_token) w.session_token_url) [
      | some f ↦ (some f, w)
      | none ↦ read_local (env 1 w)
    ]

    abbrev pub remember_server : Found → Text → World → Found × World
    remember_server f url w = elim f.url [
      | some u ↦ (f, w)
      | none ↦ elim f.area [
        | session_area ↦
            (record f { url = some url }, env 3 (record w { session_token_url = some url }))
        | local_area ↦
            (record f { url = some url }, env 3 (record w { local_token_url = some url }))
      ]
    ]

    abbrev pub is_stale : ℕ → World → Bool
    is_stale generation w = w.clearing || not (generation == w.generation)

    abbrev pub finish_load : ℕ → Option Found → World → Result (Option Text) × World
    finish_load generation found w = if is_stale generation w then (ok none, w) else elim found [
      | none ↦ (ok none, record w { unlocked_badge = false })
      | some f ↦
          (ok (some f.token), record (set_token (some f.token) f.url w) { unlocked_badge = true })
    ]

    abbrev pub after_expiry : ℕ → Found → Bool × World → Result (Option Text) × World
    after_expiry generation f (true, w) = (ok none, w)
    after_expiry generation f (false, w) = finish_load generation (some f) (env 4 w)

    abbrev pub check_expiry : ℕ → Mode → Option Found → World → Result (Option Text) × World
    check_expiry generation mode none w =
        if is_stale generation w
        then (ok none, w)
        else finish_load generation none (env 4 (clear_auto_lock_state w))
    check_expiry generation mode (some f) w =
        if is_stale generation w
        then (ok none, w)
        else if is_inactivity mode
        then after_expiry generation f (lock_if_expired w)
        else finish_load generation (some f) (env 4 (clear_auto_lock_state w))

    abbrev pub check_origin : ℕ → Mode → Text → Found × World → Result (Option Text) × World
    check_origin generation mode url (f, w) =
        if same_server_origin origin f.url (some url)
        then check_expiry generation mode (some f) w
        else (ok none, clear_token w)

    abbrev pub check_server : ℕ → Mode → Found → Result Text × World → Result (Option Text) × World
    check_server generation mode f (thrown c, w) = (thrown c, w)
    check_server generation mode f (ok url, w) =
        check_origin generation mode url (remember_server f url (env 2 w))

    abbrev pub check_found : ℕ → Mode → Option Found × World → Result (Option Text) × World
    check_found generation mode (none, w) = check_expiry generation mode none w
    check_found generation mode (some f, w) =
        check_server generation mode f (get_server_url platform bare_href w)

    -- `loadToken`
    unfoldable pub load_token : M (Option Text)
    unfolding clear_token lock_if_expired set_token same_server_origin get_server_url
        clear_auto_lock_state mode_of
    load_token w =
        if w.clearing
        then (ok none, w)
        else let (mode, v) = get_mode w in check_found w.generation mode (read_stored (env 0 v))

    abbrev pub unlocked_of : Result (Option Text) × World → Result Bool × World
    unlocked_of (ok none, v) = (ok false, v)
    unlocked_of (ok (some t), v) = (ok true, v)
    unlocked_of (thrown c, v) = (thrown c, v)

    -- `isUnlocked`
    abbrev pub is_unlocked : M Bool
    is_unlocked w = unlocked_of (load_token w)
