-- ===== src/Session/Events.antt =====
-- The events that change the session: the listeners of extension/background/session.js
-- (`setupIdleDetection`) and of extension/background/service-worker.js, and what the user does. Each
-- event runs to its end.
use passwort_manager_yurr.Common.{
  ℕ, ◌+◌, ◌*◌, Bool, true, false, ◌&&◌, List, [], ◌∷◌, Option, none, some, Text, truthy, ◌==◌,
  if◌then◌else◌,
}
use passwort_manager_yurr.Platform.{Platform, Url}
use passwort_manager_yurr.World.{World, Mode, persistent}
use passwort_manager_yurr.Session.{
  normalize_mode, mode_of, get_mode, is_inactivity, clear_cache, on_lock, clear_token, lock,
  schedule_auto_lock, reset_auto_lock,
}
use passwort_manager_yurr.Session.Tokens.{save_token}

abbrev is_persistent : Mode → Bool
is_persistent persistent = true
is_persistent _ = false

-- The listener of `chrome.idle.onStateChanged`; the flag tells that the screen is locked.
unfoldable pub on_idle : Bool → World → World
unfolding mode_of lock
on_idle locked w =
    let (mode, v) = get_mode w in if is_persistent mode && locked then (lock v).1 else v

-- The listener of `chrome.storage.onChanged`, when the mode has changed.
unfoldable pub on_mode_changed : Option Text → World → World
unfolding normalize_mode lock
on_mode_changed mode w =
    (lock (record w { local_mode = mode; cached_mode = some (normalize_mode mode) })).1

-- `changes[…].newValue || AUTO_LOCK_MINUTES`
abbrev pub new_minutes : Option ℕ → ℕ
new_minutes none = 15
new_minutes (some n) = if n == 0 then 15 else n

abbrev pub base_time : World → ℕ
base_time w = elim w.last_active [ none ↦ w.now | some t ↦ t ]

abbrev pub apply_minutes : ℕ → World → World
apply_minutes minutes w =
    let deadline = base_time w + minutes * 60 * 1000 in
    (schedule_auto_lock deadline (record w { expires_at = some deadline })).1

-- The same listener, when the number of minutes has changed.
unfoldable pub on_minutes_changed : Option ℕ → World → World
unfolding mode_of schedule_auto_lock
on_minutes_changed minutes w =
    let (mode, v) = get_mode (record w { local_minutes = minutes }) in
    if is_inactivity mode
    then elim (truthy v.local_token) [ none ↦ v | some t ↦ apply_minutes (new_minutes minutes) v ]
    else v

-- `handleServerUrlChange`, when storage holds the new address.
unfoldable pub on_server_changed : Option Text → World → World
unfolding clear_cache clear_token on_lock
on_server_changed url w =
    let v = record w { local_server_url = url; server_url = none; favicons = [] } in
    on_lock (clear_token (clear_cache v))

-- The listener of the alarm `auto-lock`
unfoldable pub on_alarm : World → World
unfolding lock on_lock
on_alarm w = on_lock (lock w).1

-- `forceLocalLock`
unfoldable pub force_local_lock : World → World
unfolding clear_token
force_local_lock w = clear_token w

pub data Event : Type 0 where
  idle : (locked : Bool) → Event
  mode_changed : Option Text → Event
  minutes_changed : Option ℕ → Event
  server_changed : Option Text → Event
  alarm activity locked_by_user auth_failed : Event
  logged_in : Text → Event
  time_passed : ℕ → Event

module _ (platform : Platform) (bare_href : Url → Text) (origin : Text → Option Text) where
  unfoldable pub apply : Event → World → World
  unfolding on_idle on_mode_changed on_minutes_changed on_server_changed on_alarm force_local_lock
      reset_auto_lock save_token lock
  apply (idle locked) w = on_idle locked w
  apply (mode_changed mode) w = on_mode_changed mode w
  apply (minutes_changed minutes) w = on_minutes_changed minutes w
  apply (server_changed url) w = on_server_changed url w
  apply alarm w = on_alarm w
  apply activity w = reset_auto_lock w
  apply locked_by_user w = (lock w).1
  apply auth_failed w = force_local_lock w
  apply (logged_in token) w = (save_token platform bare_href origin token w).1
  apply (time_passed ms) w = record w { now = w.now + ms }

  -- The events in their order.
  unfoldable pub run : List Event → World → World
  unfolding apply
  run [] w = w
  run (e ∷ events) w = run events (apply e w)

  -- An event that ends the session whatever the state is.
  abbrev pub ends_session : Event → Bool
  ends_session (mode_changed _) = true
  ends_session (server_changed _) = true
  ends_session alarm = true
  ends_session locked_by_user = true
  ends_session auth_failed = true
  ends_session _ = false
