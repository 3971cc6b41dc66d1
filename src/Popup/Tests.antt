-- ===== src/Popup/Tests.antt =====
-- extension/background/popup-cache.js: pruning at concrete records.
use passwort_manager_yurr.Common.{
  ℕ, ◌+◌, ◌≤◌, ◌≡◌, ◌≢◌, ◌⊎◌, inr, arith, Option, refl, true, false, [], ◌∷◌, List, none, some,
  Text, codes, text_eq, trim, if◌then◌else◌, filter, length, All,
}
use passwort_manager_yurr.Samples.{
  sample_platform, sample_origin, bare_href, server, stored, no_popup,
}
use passwort_manager_yurr.World.{World, Kept, listing, never}
use passwort_manager_yurr.Popup.{is_detail, max_details, prune, pruned_keys, clear}
use passwort_manager_yurr.Popup.Pruning.{IsFresh, prune_bounds}
use passwort_manager_yurr.Popup.Sanitize.{Object, Answer, array, text, falsy}
use passwort_manager_yurr.Popup.Fetch.{context_of, fetch_task}
use passwort_manager_yurr.Popup.Read.{View, Outcome, done, read_once, read, mutate}
use passwort_manager_yurr.Popup.Current.{IsCurrent, read-IsCurrent, IsLateCode, fetch_task-late}
use passwort_manager_yurr.Popup.Answered.{IsContended, read-answered}
use passwort_manager_yurr.Popup.Mutation.{mutate-lem}
use passwort_manager_yurr.Session.Tokens.{is_unlocked}
use passwort_manager_yurr.Session.Api.{Code, Result, ok, thrown, M, network_error}
use passwort_manager_yurr.Session.Stored.{quiet}

abbrev kept : Text → ℕ → Kept
kept k at = record { key = k; payload = listing []; cached_at = at; last_used_at = at }

abbrev records : List Kept
records =
    kept (codes "list") 400_000 ∷ kept (codes "entry:1") 0 ∷ kept (codes "entry:2") 500_000 ∷ []

prune_run :
    (prune 600_000 records ≡ kept (codes "list") 400_000 ∷ kept (codes "entry:2") 500_000 ∷ [])
    × (pruned_keys 600_000 records ≡ codes "entry:1" ∷ [])
unfolding prune pruned_keys
prune_run = (refl, refl)

prune_bounds_example :
    All (IsFresh 600_000) (prune 600_000 records)
    × (length (filter is_detail (prune 600_000 records)) ≤ max_details)
prune_bounds_example = prune_bounds 600_000 records

-- All that a read computes with.
program : Unit {0}
unfolding read trim fetch_task mutate prune
program = tt

abbrev an_item : Object
an_item field = if text_eq field (codes "id") then text (codes "1") else falsy (codes "undefined")

abbrev answers : Text → M Answer
answers key w = (ok (array (some an_item ∷ none ∷ [])), w)

abbrev joined : M (Unit {0})
joined w = (ok tt, w)

abbrev joined_fetch : Text → M Kept
joined_fetch key w = (thrown network_error, w)

-- An unlocked session at the time 800, with a list in its cache.
abbrev unlocked : World
unlocked = record stored {
  now = 800;
  token = some (codes "tok");
  token_server_url = some server;
  cached_mode = some never;
  unlocked_badge = true;
  last_active = none;
  expires_at = none;
  popup = record no_popup {
    records = kept (codes "list") 700 ∷ [];
    loaded = true;
    owner = some (record { token = some (codes "tok"); server_url = some server });
  };
}

abbrev reading : World → Result Outcome × World
reading w =
    read_once sample_platform bare_href sample_origin answers joined joined_fetch quiet
      (codes "list") false true w

abbrev seen : View
seen = record { payload = listing []; expires_at = 300_700; offline = false }

abbrev used : Kept
used = record (kept (codes "list") 700) { last_used_at = 800 }

abbrev after_reading : World
after_reading = record unlocked {
  popup = record (unlocked.popup) {
    records = used ∷ [];
    stored = some (record { token = some (codes "tok"); server_url = some server }, used ∷ []);
    alarm = some 300_700;
  };
}

still_unlocked :
    is_unlocked sample_platform bare_href sample_origin quiet unlocked ≡ (ok true, unlocked)
unfolding program
still_unlocked = refl

read_run : reading unlocked ≡ (ok (done (some seen)), after_reading)
unfolding program
read_run = refl

read_whole :
    read sample_platform bare_href sample_origin answers joined joined_fetch quiet 1
      (codes "list")
      false
      true
      unlocked
    ≡ some (ok (some seen), after_reading)
unfolding program
read_whole = refl

read-IsCurrent_example : IsCurrent (codes "list") seen after_reading
read-IsCurrent_example =
    read-IsCurrent sample_platform bare_href sample_origin answers joined joined_fetch quiet 1
      (codes "list") false true unlocked seen after_reading read_whole

read-answered_example :
    ((found : Result (Option View) × World) × (read sample_platform bare_href sample_origin answers
          joined joined_fetch quiet 1
          (codes "list")
          false
          true
          unlocked
        ≡ some found))
    ⊎ IsContended sample_platform bare_href sample_origin answers joined joined_fetch quiet 1
        (codes "list")
        false
        true
        unlocked
read-answered_example =
    read-answered sample_platform bare_href sample_origin answers joined joined_fetch quiet 1
      (codes "list") false true unlocked

-- The cache is cleared while the request is under way.
abbrev slow : Text → M Answer
slow key w = (ok (array []), clear w)

slow_clears : unlocked.popup.generation ≢ (slow (codes "list") unlocked).1.popup.generation
unfolding program
slow_clears = λ h. omega (arith, h)

fetch_task-late_example :
    (d : Code) × IsLateCode slow joined_fetch quiet d
    × (fetch_task slow joined_fetch quiet (codes "list") (context_of unlocked) unlocked
        ≡ (thrown d, (slow (codes "list") unlocked).1))
fetch_task-late_example =
    fetch_task-late slow joined_fetch quiet (codes "list") unlocked unlocked
      (inr (inr (inr slow_clears)))

abbrev change : M ℕ
change w = (ok 5, record w { popup = record (w.popup) { records = kept (codes "list") 800 ∷ [] } })

abbrev changed : World → Result ℕ × World
changed w =
    mutate sample_platform bare_href sample_origin answers joined joined_fetch quiet change w

mutate-lem_example :
    ((changed unlocked).0 ≡ ok 5)
    × ((changed unlocked).1.popup.records ≡ [])
    × ((changed unlocked).1.popup.stored ≡ none)
    × ((changed unlocked).1.popup.generation ≡ 1 + 1)
unfolding program
mutate-lem_example =
    mutate-lem sample_platform bare_href sample_origin answers joined joined_fetch change unlocked
      b't' (codes "ok") refl
