-- ===== src/Session/Running.antt =====
-- extension/background/session.js: the generation that tells a handler that the session has ended,
-- along sequences of events.
use passwort_manager_yurr.Common.{
  ℕ, ◌≤◌, ◌<◌, ◌≡◌, refl, Bool, true, List, [], ◌∷◌, Option, some, Text, any, truthy, Bool-cases,
  Option-cases, inl, inr, arith,
}
use passwort_manager_yurr.Platform.{Platform, Url}
use passwort_manager_yurr.World.{World, Mode}
use passwort_manager_yurr.Session.{
  is_inactivity, get_mode, clear_cache, lock, schedule_auto_lock, reset_auto_lock,
  clear_auto_lock_state,
}
use passwort_manager_yurr.Session.Api.{
  Result, ok, thrown, get_server_url, learn_server, or_default, normalize_server_url, set_token,
}
use passwort_manager_yurr.Session.Locking.{IsLocked}
use passwort_manager_yurr.Session.Tokens.{save_token, save_to, after_save, store_token, is_durable}
use passwort_manager_yurr.Session.Events.{
  Event, idle, mode_changed, minutes_changed, server_changed, alarm, activity, locked_by_user,
  auth_failed, logged_in, time_passed, apply, run, ends_session, on_idle, on_mode_changed,
  on_minutes_changed, on_server_changed, on_alarm, force_local_lock,
}

schedule-le :
    (deadline : ℕ) (w : World) → w.generation ≤ (schedule_auto_lock deadline w).1.generation
unfolding schedule_auto_lock
schedule-le deadline w = ground arith

reset-le : (w : World) → w.generation ≤ (reset_auto_lock w).generation
unfolding reset_auto_lock
reset-le w = ground arith

idle-le : (locked : Bool) (w : World) → w.generation ≤ (on_idle locked w).generation
unfolding on_idle
idle-le locked w = ground arith

minutes-le :
    (minutes : Option ℕ) (w : World) → w.generation ≤ (on_minutes_changed minutes w).generation
unfolding on_minutes_changed
minutes-le minutes w = ground arith

mode_changed-lem :
    (mode : Option Text) (w : World)
    → IsLocked (on_mode_changed mode w) × (w.generation < (on_mode_changed mode w).generation)
unfolding on_mode_changed
mode_changed-lem mode w = ground arith

server_changed-lem :
    (url : Option Text) (w : World)
    → IsLocked (on_server_changed url w) × (w.generation < (on_server_changed url w).generation)
unfolding on_server_changed
server_changed-lem url w = ground arith

alarm-lem : (w : World) → IsLocked (on_alarm w) × (w.generation < (on_alarm w).generation)
unfolding on_alarm
alarm-lem w = ground arith

lock-lem : (w : World) → IsLocked (lock w).1 × (w.generation < (lock w).1.generation)
unfolding lock
lock-lem w = ground arith

module _ (platform : Platform) (bare_href : Url → Text) (origin : Text → Option Text) where
  learn-generation :
      (r : Result Text) (w : World)
      → (learn_server platform bare_href r w).1.generation ≡ w.generation
  learn-generation (ok url) w = refl
  learn-generation (thrown c) w = refl

  get_server_url-generation :
      (w : World) → (get_server_url platform bare_href w).1.generation ≡ w.generation
  unfolding get_server_url
  get_server_url-generation w = elim (Option-cases (truthy w.server_url)) [
    | inr (url, known) ↦ rw known refl
    | inl missing ↦ rw missing (
        learn-generation
          (normalize_server_url platform bare_href
            (or_default platform bare_href (truthy w.local_server_url)))
          w)
  ]

  store-generation :
      (mode : Mode) (token url : Text) (w : World)
      → (store_token mode token url w).generation ≡ w.generation
  store-generation mode token url w = elim (Bool-cases (is_durable mode)) [
    | inl durable ↦ rw durable refl
    | inr brief ↦ rw brief refl
  ]

  after_save-le :
      (mode : Mode) (w : World)
      → w.generation ≤ (after_save platform bare_href origin mode w).generation
  unfolding clear_auto_lock_state
  after_save-le mode w = elim (Bool-cases (is_inactivity mode)) [
    | inl lazy ↦ rw lazy (reset-le w)
    | inr other ↦ rw other (omega arith)
  ]

  save_to-le :
      (mode : Mode) (token : Text) (out : Result Text × World)
      → out.1.generation ≤ (save_to platform bare_href origin mode token out).1.generation
  unfolding set_token
  save_to-le mode token (thrown c, w) = omega arith
  save_to-le mode token (ok url, w) =
      let kept = set_token (some token) (some url) (store_token mode token url w) in
      omega (
        arith,
        store-generation mode token url w,
        after_save-le mode (record kept { unlocked_badge = true }),
      )

  save_token-le :
      (token : Text) (w : World)
      → w.generation ≤ (save_token platform bare_href origin token w).1.generation
  unfolding save_token clear_cache
  save_token-le token w =
      let (mode, v) = get_mode (clear_cache w) in
      omega (
        arith,
        get_server_url-generation v,
        save_to-le mode token (get_server_url platform bare_href v),
      )

  apply-le :
      (e : Event) (w : World) → w.generation ≤ (apply platform bare_href origin e w).generation
  unfolding apply force_local_lock
  apply-le (idle locked) w = idle-le locked w
  apply-le (mode_changed mode) w = omega (arith, (mode_changed-lem mode w).1)
  apply-le (minutes_changed minutes) w = minutes-le minutes w
  apply-le (server_changed url) w = omega (arith, (server_changed-lem url w).1)
  apply-le alarm w = omega (arith, (alarm-lem w).1)
  apply-le activity w = reset-le w
  apply-le locked_by_user w = omega (arith, (lock-lem w).1)
  apply-le auth_failed w = omega (arith, (lock-lem w).1)
  apply-le (logged_in token) w = save_token-le token w
  apply-le (time_passed ms) w = omega arith

  -- An event that ends the session leaves no secret and a newer generation, whatever the state was:
  -- a changed mode or server, the alarm, a lock by the user and a refused token.
  pub apply-IsLocked :
      (e : Event) (w : World)
      → ends_session platform bare_href origin e ≡ true
      → IsLocked (apply platform bare_href origin e w)
        × (w.generation < (apply platform bare_href origin e w).generation)
  unfolding apply force_local_lock lock
  apply-IsLocked (mode_changed mode) w h = mode_changed-lem mode w
  apply-IsLocked (server_changed url) w h = server_changed-lem url w
  apply-IsLocked alarm w h = alarm-lem w
  apply-IsLocked locked_by_user w h = lock-lem w
  apply-IsLocked auth_failed w h = lock-lem w
  apply-IsLocked _ w h = cc

  run-le :
      (es : List Event) (w : World) → w.generation ≤ (run platform bare_href origin es w).generation
  unfolding run
  run-le [] w = omega arith
  run-le (e ∷ es) w = omega (arith, apply-le e w, run-le es (apply platform bare_href origin e w))

  -- After any sequence of events, one of which ends the session, the generation is greater than
  -- before, so that a handler that has noted it can tell.
  pub run-generation :
      (es : List Event) (w : World)
      → any (ends_session platform bare_href origin) es ≡ true
      → w.generation < (run platform bare_href origin es w).generation
  unfolding run
  run-generation [] w h = cc
  run-generation (e ∷ es) w h =
      let next = apply platform bare_href origin e w in
      elim (Bool-cases (ends_session platform bare_href origin e)) [
        | inl ends ↦ omega (arith, (apply-IsLocked e w ends).1, run-le es next)
        | inr goes_on ↦ omega (arith, apply-le e w, run-generation es next (rw goes_on at h))
      ]
