-- ===== src/Session/Locking.antt =====
-- extension/background/session.js: what is left after a lock, and when the session locks itself.
use passwort_manager_yurr.Common.{
  ℕ, ◌+◌, ◌*◌, ◌≤◌, ◌<◌, ◌≡◌, ◌⊎◌, refl, true, false, [], none, some, leb, Bool-cases, inl, inr,
  arith,
}
use passwort_manager_yurr.World.{World, Mode, ephemeral, persistent, never, inactivity}
use passwort_manager_yurr.Session.{
  clear_token, auto_lock_minutes, auto_lock_deadline, lock_if_expired, reset_auto_lock, mode_of,
  is_inactivity,
}

-- No secret is left: not in the API, in browser storage, in a cache or in a pending record.
pub record IsLocked (w : World) : Type 0 where
  pub token : w.token ≡ none
  pub token_server : w.token_server_url ≡ none
  pub session_token : w.session_token ≡ none
  pub local_token : w.local_token ≡ none
  pub credentials : w.credential_cache ≡ []
  pub stored_credentials : w.session_metadata ≡ none
  pub popup : w.popup.records ≡ []
  pub stored_popup : w.popup.stored ≡ none
  pub pending : w.pending_credentials ≡ none
  pub pending_names : w.pending_usernames ≡ none
  pub favicons : w.favicons ≡ []
  pub alarm : w.lock_alarm ≡ none
  pub deadline : w.expires_at ≡ none
  pub active : w.last_active ≡ none
  pub badge : w.unlocked_badge ≡ false
  pub settled : w.clearing ≡ false

-- Clearing the token leaves no secret, whatever the state was, and tells every handler that waits:
-- each of the four generations has grown by one.
pub clear_token-IsLocked :
    (w : World)
    → IsLocked (clear_token w)
      × ((clear_token w).generation ≡ w.generation + 1)
      × ((clear_token w).token_generation ≡ w.token_generation + 1)
      × ((clear_token w).credential_generation ≡ w.credential_generation + 1)
      × ((clear_token w).popup.generation ≡ w.popup.generation + 1)
unfolding clear_token
clear_token-IsLocked w = ground arith

-- With a positive deadline that has passed the session is locked, and with one that has not passed
-- the alarm is set for it and nothing else changes.
pub lock_if_expired-deadline :
    (w : World) (deadline : ℕ)
    → auto_lock_deadline w ≡ some deadline
    → 0 < deadline
    → ((deadline ≤ w.now) × ((lock_if_expired w).0 ≡ true) × IsLocked (lock_if_expired w).1)
      ⊎ ((w.now < deadline)
          × ((lock_if_expired w).0 ≡ false)
          × ((lock_if_expired w).1 ≡ record w { lock_alarm = some deadline }))
unfolding lock_if_expired
lock_if_expired-deadline w deadline set positive = elim (Bool-cases (leb deadline w.now)) [
  | inl late ↦ inl (
    ground arith,
    ground arith,
    let same : (lock_if_expired w).1 ≡ clear_token w = ground arith in
        rw same (clear_token-IsLocked w).0,
  )
  | inr early ↦ inr (ground arith, ground arith, ground arith)
]

pub auto_lock_minutes_bounds :
    (w : World) → (1 ≤ auto_lock_minutes w) × (auto_lock_minutes w ≤ 1440)
unfolding auto_lock_minutes
auto_lock_minutes_bounds w = ground arith

-- Activity in the inactivity mode.
reset_auto_lock-inactivity :
    (w : World)
    → mode_of w ≡ inactivity
    → (minutes : ℕ) × (1 ≤ minutes)
      × (minutes ≤ 1440)
      × ((reset_auto_lock w).lock_alarm ≡ some (w.now + minutes * 60 * 1000))
      × (auto_lock_deadline (reset_auto_lock w) ≡ some (w.now + minutes * 60 * 1000))
      × ((reset_auto_lock w).token ≡ w.token)
unfolding reset_auto_lock auto_lock_deadline
reset_auto_lock-inactivity w m =
    let v = record w { cached_mode = some (mode_of w) } in
    let bounds = auto_lock_minutes_bounds v in
    (auto_lock_minutes v, bounds.0, bounds.1, ground arith, ground arith, ground arith)

-- Activity in another mode.
reset_auto_lock-other :
    (w : World)
    → is_inactivity (mode_of w) ≡ false
    → (auto_lock_deadline (reset_auto_lock w) ≡ none)
      × ((reset_auto_lock w).lock_alarm ≡ none)
      × ((reset_auto_lock w).token ≡ w.token)
unfolding reset_auto_lock auto_lock_deadline
reset_auto_lock-other w other = ground arith

-- Activity keeps the token. In the inactivity mode it moves the deadline, in storage and in the alarm,
-- to between one minute and one day from now; in another mode it removes both.
pub reset_auto_lock_bounds :
    (w : World)
    → ((mode_of w ≡ inactivity)
        × ((minutes : ℕ) × (1 ≤ minutes)
            × (minutes ≤ 1440)
            × ((reset_auto_lock w).lock_alarm ≡ some (w.now + minutes * 60 * 1000))
            × (auto_lock_deadline (reset_auto_lock w) ≡ some (w.now + minutes * 60 * 1000))
            × ((reset_auto_lock w).token ≡ w.token)))
      ⊎ ((is_inactivity (mode_of w) ≡ false)
          × (auto_lock_deadline (reset_auto_lock w) ≡ none)
          × ((reset_auto_lock w).lock_alarm ≡ none)
          × ((reset_auto_lock w).token ≡ w.token))
reset_auto_lock_bounds w = elim (Bool-cases (is_inactivity (mode_of w))) [
  | inr other ↦
      let removed = reset_auto_lock-other w other in inr (other, removed.0, removed.1, removed.2)
  | inl on ↦
      inl
        (inactivity_of (mode_of w) on, reset_auto_lock-inactivity w (inactivity_of (mode_of w) on))
]
  where
    inactivity_of : (m : Mode) → is_inactivity m ≡ true → m ≡ inactivity
    inactivity_of inactivity h = refl
    inactivity_of ephemeral h = cc
    inactivity_of persistent h = cc
    inactivity_of never h = cc

-- The state that activity leaves in the inactivity mode.
abbrev pub extended : World → World
extended w = record w {
  cached_mode = some inactivity;
  last_active = some w.now;
  expires_at = some (w.now + auto_lock_minutes w * 60 * 1000);
  lock_alarm = some (w.now + auto_lock_minutes w * 60 * 1000);
}

pub reset_auto_lock-extended : (w : World) → mode_of w ≡ inactivity → reset_auto_lock w ≡ extended w
unfolding reset_auto_lock
reset_auto_lock-extended w m =
    ground (arith, auto_lock_minutes_bounds (record w { cached_mode = some inactivity }))
