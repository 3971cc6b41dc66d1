-- ===== src/Session/Loading.antt =====
-- extension/background/session.js: when `loadToken` hands out a token, whatever runs while it waits.
use passwort_manager_yurr.Common.{ℕ, ◌≡◌, Bool, true, false, Option, none, some, Text, arith}
use passwort_manager_yurr.Platform.{Platform, Url}
use passwort_manager_yurr.World.{World, Mode}
use passwort_manager_yurr.Session.{mode_of, get_mode, clear_auto_lock_state, lock_if_expired}
use passwort_manager_yurr.Session.Api.{Result, ok, thrown, set_token}
use passwort_manager_yurr.Session.Tokens.{
  Found, finish_load, after_expiry, check_expiry, check_server, check_found, read_stored,
  remember_server, load_token,
}

module _ (platform : Platform) (bare_href : Url → Text) (origin : Text → Option Text)
    (env : ℕ → World → World) where
  -- The API holds the token, and no lock has begun since the generation.
  pub record IsLoaded (generation : ℕ) (t : Text) (v : World) : Type 0 where
    pub held : v.token ≡ some t
    pub current : v.generation ≡ generation
    pub settled : v.clearing ≡ false
    pub badge : v.unlocked_badge ≡ true

  finish_load-IsLoaded :
      (generation : ℕ) (found : Option Found) (w : World) (t : Text) (v : World)
      → finish_load platform bare_href origin env generation found w ≡ (ok (some t), v)
      → IsLoaded generation t v
  unfolding set_token
  finish_load-IsLoaded generation none w t v h = ground arith
  finish_load-IsLoaded generation (some f) w t v h = ground arith

  after_expiry-IsLoaded :
      (generation : ℕ) (f : Found) (out : Bool × World) (t : Text) (v : World)
      → after_expiry platform bare_href origin env generation f out ≡ (ok (some t), v)
      → IsLoaded generation t v
  after_expiry-IsLoaded generation f (true, w) t v h = ground arith
  after_expiry-IsLoaded generation f (false, w) t v h =
      finish_load-IsLoaded generation (some f) (env 4 w) t v h

  check_expiry-IsLoaded :
      (generation : ℕ) (mode : Mode) (found : Option Found) (w : World) (t : Text) (v : World)
      → check_expiry platform bare_href origin env generation mode found w ≡ (ok (some t), v)
      → IsLoaded generation t v
  check_expiry-IsLoaded generation mode none w t v h =
      ground (arith, finish_load-IsLoaded generation none (env 4 (clear_auto_lock_state w)) t v)
  check_expiry-IsLoaded generation mode (some f) w t v h = ground (
    arith,
    finish_load-IsLoaded generation (some f) (env 4 (clear_auto_lock_state w)) t v,
    after_expiry-IsLoaded generation f (lock_if_expired w) t v,
  )

  check_server-IsLoaded :
      (generation : ℕ) (mode : Mode) (f : Found) (out : Result Text × World) (t : Text) (v : World)
      → check_server platform bare_href origin env generation mode f out ≡ (ok (some t), v)
      → IsLoaded generation t v
  check_server-IsLoaded generation mode f (thrown c, w) t v h = ground arith
  check_server-IsLoaded generation mode f (ok url, w) t v h =
      let (g, u) = remember_server platform bare_href origin env f url (env 2 w) in
      ground (arith, check_expiry-IsLoaded generation mode (some g) u t v)

  check_found-IsLoaded :
      (generation : ℕ) (mode : Mode) (out : Option Found × World) (t : Text) (v : World)
      → check_found platform bare_href origin env generation mode out ≡ (ok (some t), v)
      → IsLoaded generation t v
  check_found-IsLoaded generation mode (none, w) t v h =
      check_expiry-IsLoaded generation mode none w t v h
  check_found-IsLoaded generation mode (some f, w) t v h =
      check_server-IsLoaded generation mode f _ t v h

  -- A token that `loadToken` returns is the one that the API holds, and no lock is in progress or
  -- has begun since the call, whatever other handlers did while it waited.
  pub load_token-IsLoaded :
      (w : World) (t : Text) (v : World)
      → load_token platform bare_href origin env w ≡ (ok (some t), v)
      → IsLoaded w.generation t v
  unfolding load_token
  load_token-IsLoaded w t v h =
      let start = (get_mode w).1 in
      let out = read_stored platform bare_href origin env (env 0 start) in
      ground (arith, check_found-IsLoaded w.generation (mode_of w) out t v)
