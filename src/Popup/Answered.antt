-- ===== src/Popup/Answered.antt =====
-- extension/background/popup-cache.js: when a read answers.
use passwort_manager_yurr.Common.{
  ℕ, zero, suc, ◌≡◌, ◌⊎◌, refl, Bool, true, false, Option, none, some, Text, if◌then◌else◌,
  Bool-cases, Option-cases, inl, inr,
}
use passwort_manager_yurr.Platform.{Platform, Url}
use passwort_manager_yurr.World.{World, Kept}
use passwort_manager_yurr.Popup.{fresh}
use passwort_manager_yurr.Popup.Sanitize.{Answer}
use passwort_manager_yurr.Popup.Fetch.{
  Context, context_of, check_current, lookup, delete, with_records, fetch,
}
use passwort_manager_yurr.Popup.Read.{
  View, Outcome, again, done, view, load, use_record, wait_for, show, recheck, after_fetch,
  read_record, read_loaded, read_unlocked, read_once, read,
}
use passwort_manager_yurr.Session.{reset_auto_lock, auto_lock_deadline}
use passwort_manager_yurr.Session.Api.{Result, ok, thrown, M}
use passwort_manager_yurr.Session.Tokens.{is_unlocked}

abbrev is_again : Result Outcome → Bool
is_again (ok again) = true
is_again _ = false

-- A change of the vault is under way.
abbrev pub IsBusy : World → Type 0
IsBusy w = (ticket : ℕ) × (w.popup.mutation ≡ some ticket)

module _ (platform : Platform) (bare_href : Url → Text) (origin : Text → Option Text)
    (ask : Text → M Answer) (join_load : M (Unit {0})) (join_fetch : Text → M Kept)
    (env : ℕ → World → World) where
  view-again :
      (deadline : Option ℕ) (found : Option Kept) (w : World)
      → is_again (view platform bare_href origin ask join_load join_fetch env deadline found w).0
        ≡ false
  view-again deadline none w = refl
  view-again deadline (some r) w = elim (Option-cases w.popup.mutation) [
    | inr (ticket, busy) ↦ rw busy refl
    | inl settled ↦ elim (Bool-cases (fresh w.now r)) [
      | inl young ↦ rw (settled, young) refl
      | inr old ↦ rw (settled, old) refl
    ]
  ]

  show-again :
      (key : Text) (context : Context) (deadline : Option ℕ) (w : World)
      → is_again
          (show platform bare_href origin ask join_load join_fetch env key context deadline w).0
        ≡ false
  show-again key context deadline w = go (check_current context w) refl
    where
      go :
          (o : Result (Unit {0}))
          → check_current context w ≡ o
          → is_again
              (show platform bare_href origin ask join_load join_fetch env key context deadline w).0
            ≡ false
      go (ok tt) e = rw (e, show) (view-again deadline (lookup key w.popup.records) w)
      go (thrown c) e = rw (e, show) refl

  recheck-again :
      (key : Text) (context : Context) (out : Result Bool × World)
      → is_again (recheck platform bare_href origin ask join_load join_fetch env key context out).0
        ≡ false
  recheck-again key context (thrown c, w) = refl
  recheck-again key context (ok false, w) = refl
  recheck-again key context (ok true, w) = go (check_current context w) refl
    where
      go :
          (o : Result (Unit {0}))
          → check_current context w ≡ o
          → is_again
              (recheck platform bare_href origin ask join_load join_fetch env key context
                (ok true, w)).0
            ≡ false
      go (ok tt) e =
          rw (e, recheck)
            (show-again key context (auto_lock_deadline (env 17 w)) (env 18 (env 17 w)))
      go (thrown c) e = rw (e, recheck) refl

  after_fetch-again :
      (key : Text) (context : Context) (out : Result Kept × World)
      → is_again
          (after_fetch platform bare_href origin ask join_load join_fetch env key context out).0
        ≡ false
  after_fetch-again key context (thrown c, w) = refl
  after_fetch-again key context (ok r, w) =
      recheck-again key context (is_unlocked platform bare_href origin env (env 19 w))

  missed-again :
      (key : Text) (cache_only : Bool) (w : World)
      → is_again
          (read_record platform bare_href origin ask join_load join_fetch env key cache_only none
            w).0
        ≡ false
  missed-again key true w = refl
  missed-again key false w =
      let stale = with_records (delete key w.popup.records) w in
      after_fetch-again key (context_of w) (fetch ask join_fetch env key (context_of w) stale)

  read_record-again :
      (key : Text) (cache_only : Bool) (found : Option Kept) (w : World)
      → is_again
          (read_record platform bare_href origin ask join_load join_fetch env key cache_only found
            w).0
        ≡ false
  read_record-again key cache_only none w = missed-again key cache_only w
  read_record-again key cache_only (some r) w = elim (Bool-cases (fresh w.now r)) [
    | inl young ↦ rw young (
        recheck-again key (context_of w) (
          is_unlocked platform bare_href origin env
            (env 19 (use_record platform bare_href origin ask join_load join_fetch env r w))))
    | inr old ↦ rw old (missed-again key cache_only w)
  ]

  no_again :
      (out : Result Outcome × World) (v : World)
      → is_again out.0 ≡ false
      → out ≡ (ok again, v)
      → IsBusy v
  no_again out v h e = cc (rw e at h)

  read_loaded-IsBusy :
      (key : Text) (cache_only : Bool) (out : Result (Unit {0}) × World) (v : World)
      → read_loaded platform bare_href origin ask join_load join_fetch env key cache_only out
        ≡ (ok again, v)
      → IsBusy v
  read_loaded-IsBusy key cache_only (thrown c, w) v h = cc
  read_loaded-IsBusy key cache_only (ok tt, w) v h = elim (Option-cases w.popup.mutation) [
    | inr (ticket, busy) ↦
        let e = rw busy at h in let same : w ≡ v = cc in (ticket, rw same at busy)
    | inl settled ↦
        no_again
          (read_record platform bare_href origin ask join_load join_fetch env key cache_only
            (lookup key w.popup.records) w)
          v (read_record-again key cache_only (lookup key w.popup.records) w) (rw settled at h)
  ]

  read_unlocked-IsBusy :
      (key : Text) (activity cache_only : Bool) (out : Result Bool × World) (v : World)
      → read_unlocked platform bare_href origin ask join_load join_fetch env key activity cache_only
          out
        ≡ (ok again, v)
      → IsBusy v
  read_unlocked-IsBusy key activity cache_only (thrown c, w) v h = cc
  read_unlocked-IsBusy key activity cache_only (ok false, w) v h = cc
  read_unlocked-IsBusy key activity cache_only (ok true, w) v h =
      let start = env 20 (if activity then reset_auto_lock w else w) in
      read_loaded-IsBusy key cache_only
        (load platform bare_href origin ask join_load join_fetch env start) v h

  read_once-IsBusy :
      (key : Text) (activity cache_only : Bool) (w v : World)
      → read_once platform bare_href origin ask join_load join_fetch env key activity cache_only w
        ≡ (ok again, v)
      → IsBusy v
  unfolding read_once
  read_once-IsBusy key activity cache_only w v h =
      let start =
        wait_for platform bare_href origin ask join_load join_fetch env 21 w.popup.mutation w in
      read_unlocked-IsBusy key activity cache_only (is_unlocked platform bare_href origin env start)
        v h

  -- So many rounds in a row end since a change of the vault is under way once the cache is loaded.
  pub IsContended : ℕ → Text → Bool → Bool → World → Type 0
  IsContended zero key activity cache_only w = Unit
  IsContended (suc rounds) key activity cache_only w =
      (v : World) × (read_once platform bare_href origin ask join_load join_fetch env key activity
          cache_only w
        ≡ (ok again, v))
      × IsBusy v
      × IsContended rounds key activity cache_only v

  -- The outcome of a round, and what follows on it.
  round_of :
      (rounds : ℕ) (key : Text) (activity cache_only : Bool) (w : World)
      (out : Result Outcome × World)
      → read_once platform bare_href origin ask join_load join_fetch env key activity cache_only w
        ≡ out
      → ((v : World)
          → ((found : Result (Option View) × World) × (read platform bare_href origin ask join_load
                  join_fetch env rounds key activity cache_only v
                ≡ some found))
            ⊎ IsContended rounds key activity cache_only v)
      → ((found : Result (Option View) × World) × (read platform bare_href origin ask join_load
              join_fetch env
              (suc rounds)
              key
              activity
              cache_only
              w
            ≡ some found))
        ⊎ IsContended (suc rounds) key activity cache_only w
  unfolding read IsContended
  round_of rounds key activity cache_only w (thrown c, v) e later = inl ((thrown c, v), rw e refl)
  round_of rounds key activity cache_only w (ok (done found), v) e later =
      inl ((ok found, v), rw e refl)
  round_of rounds key activity cache_only w (ok again, v) e later = elim (later v) [
    | inl (found, answered) ↦ inl (found, rw e answered)
    | inr contended ↦ inr (v, e, read_once-IsBusy key activity cache_only w v e, contended)
  ]

  -- A read answers, with a value or an error, within the rounds that it is given, unless each of
  -- them ends since a change of the vault is under way once the cache is loaded. One round without a
  -- change is enough, whatever other handlers do and the server answers.
  pub read-answered :
      (rounds : ℕ) (key : Text) (activity cache_only : Bool) (w : World)
      → ((found : Result (Option View) × World) × (read platform bare_href origin ask join_load
              join_fetch env rounds key activity cache_only w
            ≡ some found))
        ⊎ IsContended rounds key activity cache_only w
  unfolding IsContended
  read-answered zero key activity cache_only w = inr tt
  read-answered (suc rounds) key activity cache_only w =
      round_of rounds key activity cache_only w
        (read_once platform bare_href origin ask join_load join_fetch env key activity cache_only w)
        refl (λ v. read-answered rounds key activity cache_only v)
