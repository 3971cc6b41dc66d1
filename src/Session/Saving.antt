-- ===== src/Session/Saving.antt =====
-- extension/background/session.js: a saved token is loaded again.
use passwort_manager_yurr.Common.{
  ℕ, ◌+◌, ◌*◌, ◌<◌, ◌≡◌, refl, ap, ◌∙◌, true, false, ◌∷◌, Option, none, some, Text, truthy, arith,
}
use passwort_manager_yurr.Platform.{Platform, Url}
use passwort_manager_yurr.World.{World, Mode, ephemeral, persistent, inactivity, never}
use passwort_manager_yurr.Session.{
  mode_of, is_inactivity, clear_auto_lock_state, clear_cache, auto_lock_minutes, auto_lock_deadline,
  lock_if_expired,
}
use passwort_manager_yurr.Session.Locking.{
  auto_lock_minutes_bounds, extended, reset_auto_lock-extended,
}
use passwort_manager_yurr.Session.Api.{Result, ok, set_token}
use passwort_manager_yurr.Session.Tokens.{
  Found, session_area, local_area, save_to, store_token, save_token, load_token, check_expiry,
}
use passwort_manager_yurr.Session.Stored.{
  quiet, entered, IsStored, get_server_known, load_token-check, same_server_origin_refl,
  deadline-entered,
}

module _ (platform : Platform) (bare_href : Url → Text) (origin : Text → Option Text) where
  abbrev stored_as : Mode → Text → Text → Found
  stored_as ephemeral t server = record { token = t; url = some server; area = session_area }
  stored_as _ t server = record { token = t; url = some server; area = local_area }

  -- The state in which `saveToken` comes to the automatic lock.
  abbrev kept_in : Mode → Text → Text → World → World
  kept_in mode t server u =
      record (set_token (some t) (some server) (store_token mode t server u)) {
        unlocked_badge = true;
      }

  -- Neither the mode's cache, nor the deadline and its alarm, nor the badge plays a role.
  kept-IsStored :
      (mode : Mode) (c d : ℕ) (t server : Text) (u : World) (cached : Option Mode)
      (active expires alarm : Option ℕ)
      → u.clearing ≡ false
      → u.session_token ≡ none
      → truthy u.server_url ≡ some (d ∷ server)
      → IsStored platform bare_href origin
          (record (kept_in mode (c ∷ t) (d ∷ server) u) {
            cached_mode = cached;
            last_active = active;
            expires_at = expires;
            lock_alarm = alarm;
          })
          (stored_as mode (c ∷ t) (d ∷ server))
          (d ∷ server)
          (d ∷ server)
  unfolding set_token
  kept-IsStored ephemeral c d t server u cached active expires alarm settled empty known = record {
    settled = settled;
    known = known;
    read = refl;
    owned = refl;
  }
  kept-IsStored _ c d t server u cached active expires alarm settled empty known = record {
    settled = settled;
    known = known;
    read = ground arith;
    owned = refl;
  }

  check_expiry-other :
      (w : World) (f : Found)
      → w.clearing ≡ false
      → (mode : Mode) → is_inactivity mode ≡ false
      → (check_expiry platform bare_href origin quiet w.generation mode (some f) w).0
        ≡ ok (some f.token)
  unfolding clear_auto_lock_state
  check_expiry-other w f settled mode other = ground arith

  check_expiry-early :
      (w : World) (f : Found) (deadline : ℕ)
      → w.clearing ≡ false
      → auto_lock_deadline w ≡ some deadline
      → w.now < deadline
      → (check_expiry platform bare_href origin quiet w.generation inactivity (some f) w).0
        ≡ ok (some f.token)
  unfolding lock_if_expired
  check_expiry-early w f deadline settled set early = ground arith

  load_token-home :
      (v : World) (f : Found) (url : Text) (mode : Mode)
      → IsStored platform bare_href origin v f url url
      → mode_of v ≡ mode
      → load_token platform bare_href origin quiet v
        ≡ check_expiry platform bare_href origin quiet v.generation mode
            (some f)
            (entered platform bare_href origin v)
  load_token-home v f url mode s m =
      let expire = λ (mode : Mode).
        check_expiry platform bare_href origin quiet v.generation mode (some f)
          (entered platform bare_href origin v) in
      let checked : load_token platform bare_href origin quiet v ≡ expire (mode_of v) = rw (
        load_token-check platform bare_href origin v f url url s,
        same_server_origin_refl platform bare_href origin url,
      ) in
      checked ∙ ap expire m

  load_stored-other :
      (v : World) (f : Found) (url : Text) (mode : Mode)
      → IsStored platform bare_href origin v f url url
      → mode_of v ≡ mode
      → is_inactivity mode ≡ false
      → (load_token platform bare_href origin quiet v).0 ≡ ok (some f.token)
  load_stored-other v f url mode s m other =
      ap (λ out. out.0) (load_token-home v f url mode s m)
      ∙ check_expiry-other (entered platform bare_href origin v) f s.settled mode other

  load_stored-early :
      (v : World) (f : Found) (url : Text) (deadline : ℕ)
      → IsStored platform bare_href origin v f url url
      → mode_of v ≡ inactivity
      → auto_lock_deadline v ≡ some deadline
      → v.now < deadline
      → (load_token platform bare_href origin quiet v).0 ≡ ok (some f.token)
  load_stored-early v f url deadline s m set early =
      ap (λ out. out.0) (load_token-home v f url inactivity s m)
      ∙ check_expiry-early (entered platform bare_href origin v) f deadline s.settled
          (deadline-entered platform bare_href origin v ∙ set) early

  module _ (c d : ℕ) (t server : Text) (u : World) (settled : u.clearing ≡ false)
      (empty : u.session_token ≡ none) (known : truthy u.server_url ≡ some (d ∷ server)) where
    abbrev saved_in : Mode → World
    saved_in mode = (save_to platform bare_href origin mode (c ∷ t) (ok (d ∷ server), u)).1

    abbrev kept : Mode → World
    kept mode = kept_in mode (c ∷ t) (d ∷ server) u

    load_saved :
        (mode : Mode)
        → mode_of u ≡ mode
        → (load_token platform bare_href origin quiet (saved_in mode)).0 ≡ ok (some (c ∷ t))
    unfolding clear_auto_lock_state mode_of set_token auto_lock_deadline
    load_saved ephemeral m =
        load_stored-other (clear_auto_lock_state (kept ephemeral)) _ (d ∷ server) ephemeral
          (kept-IsStored ephemeral c d t server u u.cached_mode none none none settled empty known)
          m refl
    load_saved persistent m =
        load_stored-other (clear_auto_lock_state (kept persistent)) _ (d ∷ server) persistent
          (kept-IsStored persistent c d t server u u.cached_mode none none none settled empty known)
          m refl
    load_saved never m =
        load_stored-other (clear_auto_lock_state (kept never)) _ (d ∷ server) never
          (kept-IsStored never c d t server u u.cached_mode none none none settled empty known) m
          refl
    load_saved inactivity m =
        let v = kept inactivity in
        let deadline = v.now + auto_lock_minutes v * 60 * 1000 in
        let bounds = auto_lock_minutes_bounds v in
        ap (λ (w : World). (load_token platform bare_href origin quiet w).0)
          (reset_auto_lock-extended v m)
        ∙ load_stored-early (extended v) (stored_as inactivity (c ∷ t) (d ∷ server)) (d ∷ server)
            deadline
            (kept-IsStored inactivity c d t server u (some inactivity) (some v.now) (some deadline)
              (some deadline) settled empty known)
            refl refl (omega arith)

  save_token-known :
      (w : World) (t server : Text)
      → truthy w.server_url ≡ some server
      → save_token platform bare_href origin t w
        ≡ save_to platform bare_href origin
            (mode_of (clear_cache w))
            t
            (ok server, entered platform bare_href origin (clear_cache w))
  unfolding save_token
  save_token-known w t server known =
      ap (save_to platform bare_href origin (mode_of (clear_cache w)) t) (
        get_server_known platform bare_href origin
          (entered platform bare_href origin (clear_cache w)) server known)

  -- A token that is not empty is loaded again after it was saved, in each mode, if a server is known,
  -- no lock is in progress, session storage holds no token of another session, and no other handler
  -- runs in between.
  pub load_token-save_token :
      (w : World) (c d : ℕ) (t server : Text)
      → w.clearing ≡ false
      → w.session_token ≡ none
      → truthy w.server_url ≡ some (d ∷ server)
      → (load_token platform bare_href origin quiet
          (save_token platform bare_href origin (c ∷ t) w).1).0
        ≡ ok (some (c ∷ t))
  unfolding clear_cache
  load_token-save_token w c d t server settled empty known =
      let u = entered platform bare_href origin (clear_cache w) in
      let same_mode : mode_of u ≡ mode_of (clear_cache w) = unfold mode_of in refl in
      ap (λ (out : Result (Unit {0}) × World). (load_token platform bare_href origin quiet out.1).0)
        (save_token-known w (c ∷ t) (d ∷ server) known)
      ∙ load_saved c d t server u settled empty known (mode_of (clear_cache w)) same_mode
