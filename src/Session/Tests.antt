-- ===== src/Session/Tests.antt =====
-- extension/background/session.js: runs, and the theorems at a concrete state.
use passwort_manager_yurr.Common.{
  ℕ, ◌+◌, ◌*◌, ◌≤◌, ◌<◌, ◌≡◌, ◌⊎◌, refl, true, false, List, [], ◌∷◌, Option, none, some, Text,
  codes, trim, arith,
}
use passwort_manager_yurr.Samples.{sample_platform, sample_origin, bare_href, server, stored}
use passwort_manager_yurr.World.{World, inactivity}
use passwort_manager_yurr.Session.{
  clear_token, lock, auto_lock_deadline, reset_auto_lock, auto_lock_minutes, mode_of, is_inactivity,
}
use passwort_manager_yurr.Session.Api.{
  Result, ok, thrown, config_error, normalize_server_url, strip_slashes,
}
use passwort_manager_yurr.Session.Tokens.{Found, local_area, load_token, save_token}
use passwort_manager_yurr.Session.Locking.{IsLocked, clear_token-IsLocked, reset_auto_lock_bounds}
use passwort_manager_yurr.Session.Events.{
  Event, logged_in, time_passed, activity, minutes_changed, idle, alarm, server_changed, apply, run,
  on_minutes_changed,
}
use passwort_manager_yurr.Session.Running.{apply-IsLocked, run-generation}
use passwort_manager_yurr.Session.Loading.{IsLoaded, load_token-IsLoaded}
use passwort_manager_yurr.Session.Stored.{quiet, IsStored, load_token-foreign, load_token-expired}
use passwort_manager_yurr.Session.Saving.{load_token-save_token}

-- All that a run computes with.
program : Unit {0}
unfolding load_token save_token lock normalize_server_url strip_slashes trim
program = tt

abbrev early : World
early = record stored { now = 800 }

abbrev moved : World
moved = record stored { server_url = some (codes "https://b.org/") }

abbrev found : Found
found = record { token = codes "tok"; url = some server; area = local_area }

refused_http :
    normalize_server_url sample_platform bare_href (codes "http://a.org") ≡ thrown config_error
unfolding program
refused_http = refl

loopback_http :
    normalize_server_url sample_platform bare_href (codes " http://localhost/ ")
    ≡ ok (codes "http://localhost")
unfolding program
loopback_http = refl

clear_token-IsLocked_example :
    IsLocked (clear_token stored)
    × ((clear_token stored).generation ≡ 3 + 1)
    × ((clear_token stored).token_generation ≡ 0 + 1)
    × ((clear_token stored).credential_generation ≡ 0 + 1)
    × ((clear_token stored).popup.generation ≡ 0 + 1)
clear_token-IsLocked_example = clear_token-IsLocked stored

reset_auto_lock_bounds_example :
    ((mode_of stored ≡ inactivity)
      × ((minutes : ℕ) × (1 ≤ minutes)
          × (minutes ≤ 1440)
          × ((reset_auto_lock stored).lock_alarm ≡ some (1000 + minutes * 60 * 1000))
          × (auto_lock_deadline (reset_auto_lock stored) ≡ some (1000 + minutes * 60 * 1000))
          × ((reset_auto_lock stored).token ≡ none)))
    ⊎ ((is_inactivity (mode_of stored) ≡ false)
        × (auto_lock_deadline (reset_auto_lock stored) ≡ none)
        × ((reset_auto_lock stored).lock_alarm ≡ none)
        × ((reset_auto_lock stored).token ≡ none))
reset_auto_lock_bounds_example = reset_auto_lock_bounds stored

abbrev loaded : World → Result (Option Text) × World
loaded w = load_token sample_platform bare_href sample_origin quiet w

load_token-IsLoaded_example :
    IsLoaded sample_platform bare_href sample_origin quiet 3 (codes "tok") (loaded early).1
unfolding program
load_token-IsLoaded_example =
    load_token-IsLoaded sample_platform bare_href sample_origin quiet early (codes "tok")
      (loaded early).1 refl

moved-IsStored :
    IsStored sample_platform bare_href sample_origin moved found server (codes "https://b.org/")
moved-IsStored = record { settled = refl; known = refl; read = refl; owned = refl }

load_token-foreign_example : ((loaded moved).0 ≡ ok none) × IsLocked (loaded moved).1
unfolding program
load_token-foreign_example =
    load_token-foreign sample_platform bare_href sample_origin moved found server
      (codes "https://b.org/") moved-IsStored refl

stored-IsStored : IsStored sample_platform bare_href sample_origin stored found server server
stored-IsStored = record { settled = refl; known = refl; read = refl; owned = refl }

load_token-expired_example : ((loaded stored).0 ≡ ok none) × IsLocked (loaded stored).1
unfolding program
load_token-expired_example =
    load_token-expired sample_platform bare_href sample_origin stored found server server 900
      stored-IsStored refl refl (omega arith) (omega arith)

load_token-save_token_example :
    (loaded (save_token sample_platform bare_href sample_origin (codes "new") stored).1).0
    ≡ ok (some (codes "new"))
load_token-save_token_example =
    load_token-save_token sample_platform bare_href sample_origin stored b'n' b'h' (codes "ew")
      (codes "ttps://a.org/") refl refl refl

-- A day in which the vault is opened, used and locked with the screen.
abbrev day : List Event
day =
    logged_in (codes "new")
    ∷ time_passed 60_000
    ∷ activity
    ∷ minutes_changed (some 10)
    ∷ idle true
    ∷ alarm
    ∷ []

apply-IsLocked_example :
    IsLocked (apply sample_platform bare_href sample_origin (server_changed none) stored)
    × (3 < (apply sample_platform bare_href sample_origin (server_changed none) stored).generation)
apply-IsLocked_example =
    apply-IsLocked sample_platform bare_href sample_origin (server_changed none) stored refl

run-generation_example : 3 < (run sample_platform bare_href sample_origin day stored).generation
run-generation_example = run-generation sample_platform bare_href sample_origin day stored refl

-- The minutes that are set are taken as they are here, and as a day at most where they are read.
long_minutes :
    ((on_minutes_changed (some 5000) stored).expires_at ≡ some (700 + 5000 * 60 * 1000))
    × (auto_lock_minutes (on_minutes_changed (some 5000) stored) ≡ 1440)
unfolding on_minutes_changed auto_lock_minutes
long_minutes = (refl, refl)
