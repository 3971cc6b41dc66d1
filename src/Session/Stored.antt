-- ===== src/Session/Stored.antt =====
-- extension/background/session.js: `loadToken` undisturbed, up to its comparison of the servers, and
-- the tokens that it refuses.
use passwort_manager_yurr.Common.{
  ℕ, ◌≤◌, ◌<◌, ◌≡◌, refl, ap, ◌∙◌, true, false, [], ◌∷◌, Option, none, some, Text, truthy,
  text_eq_refl, if◌then◌else◌, Bool-cases, Option-cases, inl, inr, arith,
}
use passwort_manager_yurr.Platform.{Platform, Url}
use passwort_manager_yurr.World.{World, Mode, inactivity}
use passwort_manager_yurr.Session.{
  mode_of, get_mode, clear_token, auto_lock_deadline, lock_if_expired,
}
use passwort_manager_yurr.Session.Locking.{IsLocked, clear_token-IsLocked}
use passwort_manager_yurr.Session.Api.{ok, get_server_url, same_server_origin}
use passwort_manager_yurr.Session.Tokens.{
  Found, load_token, read_stored, check_found, check_server, check_expiry,
}

-- No other handler runs.
abbrev pub quiet : ℕ → World → World
quiet i w = w

module _ (platform : Platform) (bare_href : Url → Text) (origin : Text → Option Text) where
  pub same_server_origin_refl :
      (url : Text) → same_server_origin origin (some url) (some url) ≡ true
  unfolding same_server_origin
  same_server_origin_refl [] = refl
  same_server_origin_refl (c ∷ s) = elim (Option-cases (origin (c ∷ s))) [
    | inl missing ↦ rw missing (text_eq_refl (c ∷ s))
    | inr (o, found) ↦ rw found (text_eq_refl o)
  ]

  abbrev pub entered : World → World
  entered w = (get_mode w).1

  -- What storage says of a token, once read: where it was found, and the server that it is for.
  pub record IsStored (w : World) (f : Found) (url server : Text) : Type 0 where
    pub settled : w.clearing ≡ false
    pub known : truthy w.server_url ≡ some server
    pub read : read_stored platform bare_href origin quiet (entered w) ≡ (some f, entered w)
    pub owned : f.url ≡ some url

  pub get_server_known :
      (w : World) (server : Text)
      → truthy w.server_url ≡ some server
      → get_server_url platform bare_href w ≡ (ok server, w)
  unfolding get_server_url
  get_server_known w server known = rw known

  load_token-start :
      (w : World)
      → w.clearing ≡ false
      → load_token platform bare_href origin quiet w
        ≡ check_found platform bare_href origin quiet w.generation
            (mode_of w)
            (read_stored platform bare_href origin quiet (entered w))
  unfolding load_token
  load_token-start w settled = ground arith

  check_origin-owned :
      (generation : ℕ) (mode : Mode) (f : Found) (url server : Text) (v : World)
      → f.url ≡ some url
      → check_server platform bare_href origin quiet generation mode f (ok server, v) ≡ (
          if same_server_origin origin (some url) (some server)
          then check_expiry platform bare_href origin quiet generation mode (some f) v
          else (ok none, clear_token v))
  check_origin-owned generation mode f url server v owned = ground arith

  -- Undisturbed, `loadToken` comes to the comparison of the two servers.
  pub load_token-check :
      (w : World) (f : Found) (url server : Text)
      → IsStored w f url server
      → load_token platform bare_href origin quiet w ≡ (
          if same_server_origin origin (some url) (some server)
          then check_expiry platform bare_href origin quiet w.generation
              (mode_of w)
              (some f)
              (entered w)
          else (ok none, clear_token (entered w)))
  load_token-check w f url server s =
      let check = check_found platform bare_href origin quiet w.generation (mode_of w) in
      let serve = check_server platform bare_href origin quiet w.generation (mode_of w) f in
      load_token-start w s.settled
      ∙ ap check s.read
      ∙ ap serve (get_server_known (entered w) server s.known)
      ∙ check_origin-owned w.generation (mode_of w) f url server (entered w) s.owned

  -- When no other handler runs while it waits, a stored token that is recorded for another origin
  -- than that of the server in use is not loaded: it and every other secret is erased.
  pub load_token-foreign :
      (w : World) (f : Found) (url server : Text)
      → IsStored w f url server
      → same_server_origin origin (some url) (some server) ≡ false
      → ((load_token platform bare_href origin quiet w).0 ≡ ok none)
        × IsLocked (load_token platform bare_href origin quiet w).1
  load_token-foreign w f url server s foreign =
      rw (load_token-check w f url server s, foreign) (refl, (clear_token-IsLocked (entered w)).0)

  check_expiry-late :
      (w : World) (f : Found) (deadline : ℕ)
      → w.clearing ≡ false
      → auto_lock_deadline w ≡ some deadline
      → 0 < deadline
      → deadline ≤ w.now
      → check_expiry platform bare_href origin quiet w.generation inactivity (some f) w
        ≡ (ok none, clear_token w)
  unfolding lock_if_expired
  check_expiry-late w f deadline settled set positive late = ground arith

  pub deadline-entered : (w : World) → auto_lock_deadline (entered w) ≡ auto_lock_deadline w
  unfolding auto_lock_deadline
  deadline-entered w = refl

  -- In the inactivity mode, when no other handler runs while it waits, a stored token whose positive
  -- deadline has passed is not loaded: it and every other secret is erased.
  pub load_token-expired :
      (w : World) (f : Found) (url server : Text) (deadline : ℕ)
      → IsStored w f url server
      → mode_of w ≡ inactivity
      → auto_lock_deadline w ≡ some deadline
      → 0 < deadline
      → deadline ≤ w.now
      → ((load_token platform bare_href origin quiet w).0 ≡ ok none)
        × IsLocked (load_token platform bare_href origin quiet w).1
  load_token-expired w f url server deadline s m set positive late =
      elim (Bool-cases (same_server_origin origin (some url) (some server))) [
        | inr foreign ↦ load_token-foreign w f url server s foreign
        | inl home ↦
            let same : auto_lock_deadline (entered w) ≡ some deadline = deadline-entered w ∙ set in
            let expire = λ (mode : Mode).
              check_expiry platform bare_href origin quiet w.generation mode (some f) (entered w) in
            let checked : load_token platform bare_href origin quiet w ≡ expire (mode_of w) =
              rw (load_token-check w f url server s, home) in
            let gone : load_token platform bare_href origin quiet w
                ≡ (ok none, clear_token (entered w)) =
              checked
              ∙ ap expire m
              ∙ check_expiry-late (entered w) f deadline s.settled same positive late in
            rw gone (refl, (clear_token-IsLocked (entered w)).0)
      ]
