-- ===== src/Worker/Startup.antt =====
-- extension/background/service-worker.js: the start of the service worker, the listener of changes in
-- browser storage, and the handlers that read the popup cache.
use passwort_manager_yurr.Common.{
  ℕ, ◌≡◌, Bool, true, false, ◌++◌, [], ◌∷◌, Option, none, some, Text, codes, same_text, truthy,
  is_empty, if◌then◌else◌, arith,
}
use passwort_manager_yurr.World.{World}
use passwort_manager_yurr.Popup.Read.{View, read}
use passwort_manager_yurr.Session.{clear_cache}
use passwort_manager_yurr.Session.Tokens.{load_token}
use passwort_manager_yurr.Session.Api.{Result, ok, thrown, M, ◌>>=◌, api_clear_token, unknown_error}
use passwort_manager_yurr.Worker.{Runtime}
use passwort_manager_yurr.Worker.Accounts.{clear_all_pending}

-- What a session that has ended leaves to be cleared.
unfoldable pub clear_caches : World → World
unfolding clear_cache clear_all_pending
clear_caches w = clear_all_pending (clear_cache w)

abbrev pub clear_unless : Option Text → World → Result (Unit {0}) × World
clear_unless none w = (ok tt, clear_caches w)
clear_unless (some []) w = (ok tt, clear_caches w)
clear_unless (some (c ∷ t)) w = (ok tt, w)

-- A token that browser storage had is another, or is gone.
unfoldable pub on_token_changed : (old new : Option Text) → World → World
unfolding clear_caches api_clear_token
on_token_changed old new w = elim (truthy old) [
  | none ↦ w
  | some t ↦
      if same_text old new
      then w
      else clear_caches (if same_text w.token old then api_clear_token w else w)
]

module _ (r : Runtime) where
  -- `initializeServiceWorker`, up to the listeners that it sets
  unfoldable pub initialize : M (Unit {0})
  unfolding load_token clear_caches
  initialize = load_token r.platform r.bare_href r.origin r.env >>= clear_unless

  -- What `popupCache.read` gives in so many rounds.
  abbrev pub read_view : ℕ → Text → Bool → Bool → World → Option (Result (Option View) × World)
  read_view = read r.platform r.bare_href r.origin r.ask r.join_load r.join_fetch r.env

  -- `POPUP_LIST`
  unfoldable pub popup_list : ℕ → Bool → Bool → World → Option (Result (Option View) × World)
  unfolding read
  popup_list rounds activity cache_only w = read_view rounds (codes "list") activity cache_only w

  -- `POPUP_ENTRY`
  unfoldable pub popup_entry :
      ℕ → Text → Bool → Bool → World → Option (Result (Option View) × World)
  unfolding read
  popup_entry rounds id activity cache_only w =
      if is_empty id
      then some (thrown unknown_error, w)
      else read_view rounds (codes "entry:" ++ id) activity cache_only w

-- After a change of the token in use the API holds no token, and nothing that was read with it is
-- left in the caches or waits for a prompt.
on_token_changed-cleared :
    (old new : Option Text) (w : World) (t : Text)
    → truthy old ≡ some t
    → same_text old new ≡ false
    → same_text w.token old ≡ true
    → ((on_token_changed old new w).token ≡ none)
      × ((on_token_changed old new w).credential_cache ≡ [])
      × ((on_token_changed old new w).popup.records ≡ [])
      × ((on_token_changed old new w).pending_credentials ≡ none)
      × ((on_token_changed old new w).pending_usernames ≡ none)
unfolding on_token_changed
on_token_changed-cleared none new w t h k e = cc
on_token_changed-cleared (some []) new w t h k e = cc
on_token_changed-cleared (some (c ∷ s)) new w t h k e =
    rw (k, e) (ground arith, ground arith, ground arith, ground arith, ground arith)
