-- ===== src/Session.antt =====
-- extension/background/session.js: modes, tokens, automatic locking and the clearing of caches.
-- Each call runs to its end, and browser storage accepts each write.
pub mod Api
pub mod Endpoints
pub mod Paths
pub mod Favicon
pub mod Entering
pub mod Tokens
pub mod Locking
pub mod Loading
pub mod Stored
pub mod Saving
pub mod Events
pub mod Metadata
pub mod Request
pub mod Sent
pub mod Current
pub mod Running
mod Tests
use passwort_manager_yurr.Common.{
  ℕ, ◌+◌, ◌*◌, Bool, true, false, ◌&&◌, ◌||◌, not, List, [], ◌∷◌, Option, none, some, Text, codes,
  text_eq, truthy, leb, ◌==◌, if◌then◌else◌, min, max,
}
use passwort_manager_yurr.World.{World, Mode, ephemeral, persistent, inactivity, never}
use passwort_manager_yurr.Popup
use passwort_manager_yurr.Session.Api.{api_clear_token}

abbrev pub mode_name : Mode → Text
mode_name ephemeral = codes "ephemeral"
mode_name persistent = codes "persistent"
mode_name inactivity = codes "inactivity"
mode_name never = codes "never"

-- `_normalizeMode`
unfoldable pub normalize_mode : Option Text → Mode
normalize_mode none = ephemeral
normalize_mode (some name) =
    if text_eq name (mode_name persistent)
    then persistent
    else if text_eq name (mode_name inactivity)
    then inactivity
    else if text_eq name (mode_name never)
    then never
    else ephemeral

-- `_getMode`
unfoldable pub mode_of : World → Mode
mode_of w = elim w.cached_mode [ none ↦ normalize_mode w.local_mode | some m ↦ m ]

abbrev pub get_mode : World → Mode × World
get_mode w = (mode_of w, record w { cached_mode = some (mode_of w) })

abbrev pub is_inactivity : Mode → Bool
is_inactivity inactivity = true
is_inactivity _ = false

-- `_getAutoLockMinutes`, over the number that storage holds.
unfoldable pub auto_lock_minutes : World → ℕ
auto_lock_minutes w = elim w.local_minutes [ none ↦ 15 | some m ↦ max 1 (min 1440 m) ]

-- `clearAutoLockState`
unfoldable pub clear_auto_lock_state : World → World
clear_auto_lock_state w = record w { last_active = none; expires_at = none; lock_alarm = none }

-- `clearCredentialMetadataCache`
unfoldable pub clear_credential_cache : World → World
clear_credential_cache w = record w {
  credential_generation = w.credential_generation + 1;
  credential_cache = [];
  credential_requests = [];
  session_metadata = none;
}

-- `clearCache`
unfoldable pub clear_cache : World → World
unfolding clear_credential_cache Popup.clear
clear_cache w = clear_credential_cache (Popup.clear w)

abbrev first_text : Option Text → Option Text → Option Text
first_text none other = other
first_text (some s) other = some s

-- The token and the server of the separate client that `lock` logs out, if it has both.
abbrev pub revocation : World → Option (Text × Text)
revocation w = elim (truthy w.token) [
  | none ↦ none
  | some t ↦ elim (first_text (truthy w.token_server_url) (truthy w.server_url)) [
    | none ↦ none
    | some url ↦ some (t, url)
  ]
]

-- `onLock` of extension/background/service-worker.js: the favicons, and `clearAllPendingState`.
unfoldable pub on_lock : World → World
on_lock w = record w {
  favicons = [];
  pending_credentials = none;
  pending_usernames = none;
  pending_alarm = none;
}

-- `clearToken`
abbrev begin_clearing : World → World
begin_clearing w = api_clear_token (record w { clearing = true; generation = w.generation + 1 })

abbrev end_clearing : World → World
end_clearing w =
    let erased = record w {
      unlocked_badge = false;
      session_token = none;
      session_token_url = none;
      local_token = none;
      local_token_url = none;
    } in
    record (clear_auto_lock_state erased) { clearing = false }

unfoldable pub clear_token : World → World
unfolding api_clear_token clear_cache clear_auto_lock_state on_lock
clear_token w = end_clearing (on_lock (clear_cache (begin_clearing w)))

-- `lock`: the local state, and what is sent to revoke the session on its server.
unfoldable pub lock : World → Option (Text × Text) × World
unfolding clear_token
lock w = (revocation w, clear_token w)

-- `_scheduleAutoLock`: true if the alarm is set, and false if it locks at once.
unfoldable pub schedule_auto_lock : ℕ → World → Bool × World
unfolding lock
schedule_auto_lock deadline w =
    if leb deadline w.now
    then (false, (lock (record w { lock_alarm = none })).1)
    else (true, record w { lock_alarm = some deadline })

-- `_getAutoLockDeadline`
unfoldable pub auto_lock_deadline : World → Option ℕ
unfolding auto_lock_minutes
auto_lock_deadline w = elim w.expires_at [
  | some t ↦ some t
  | none ↦ elim w.last_active [ none ↦ none | some t ↦ some (t + auto_lock_minutes w * 60 * 1000) ]
]

abbrev lock_if_expired_at : Option ℕ → World → Bool × World
lock_if_expired_at none w = (false, w)
lock_if_expired_at (some deadline) w =
    if deadline == 0
    then (false, w)
    else if leb deadline w.now
    then (true, (lock w).1)
    else (false, (schedule_auto_lock deadline w).1)

-- `_lockIfAutoLockExpired`
unfoldable pub lock_if_expired : World → Bool × World
unfolding schedule_auto_lock auto_lock_deadline
lock_if_expired w = lock_if_expired_at (auto_lock_deadline w) w

-- `resetAutoLock`
unfoldable pub reset_auto_lock : World → World
unfolding schedule_auto_lock auto_lock_minutes clear_auto_lock_state mode_of
reset_auto_lock w =
    let (mode, v) = get_mode w in
    let deadline = v.now + auto_lock_minutes v * 60 * 1000 in
    if is_inactivity mode
    then (schedule_auto_lock deadline
        (record v { last_active = some v.now; expires_at = some deadline })).1
    else clear_auto_lock_state v
