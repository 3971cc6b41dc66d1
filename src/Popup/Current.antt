-- ===== src/Popup/Current.antt =====
-- extension/background/popup-cache.js: what a read may return, and answers that come too late,
-- whatever runs during the waits.
use passwort_manager_yurr.Common.{
  ℕ, zero, suc, ◌+◌, ◌≤◌, ◌≡◌, ◌≢◌, ◌⊎◌, ◌==◌, refl, sym, ap, ◌∙◌, [], ◌∷◌, same_text, same_text-eq,
  text_eq_iff, Bool, true, false, Option, none, some, Text, truthy, if◌then◌else◌, Bool-cases,
  Option-cases, inl, inr, arith,
}
use passwort_manager_yurr.Platform.{Platform, Url}
use passwort_manager_yurr.World.{World, Kept}
use passwort_manager_yurr.Popup.{ttl_ms, fresh}
use passwort_manager_yurr.Popup.Pruning.{IsFresh, fresh_iff}
use passwort_manager_yurr.Popup.Sanitize.{Answer}
use passwort_manager_yurr.Popup.Fetch.{
  Context, context_of, same_session, check_current, lookup, delete, with_records, fetch, fetch_task,
  fail, handle,
}
use passwort_manager_yurr.Popup.Read.{
  View, Outcome, again, done, view_expiry, view, load, use_record, wait_for, show, recheck,
  after_fetch, read_record, read_loaded, read_unlocked, read_once, read_again, read,
}
use passwort_manager_yurr.Session.{reset_auto_lock, auto_lock_deadline}
use passwort_manager_yurr.Session.Api.{Code, Result, ok, thrown, M, session_changed, cache_changed}
use passwort_manager_yurr.Session.Tokens.{is_unlocked}

-- What is returned for a key is in the cache, young enough, of the vault as it is, and of a session
-- with a token.
pub record IsCurrent (key : Text) (f : View) (v : World) : Type 0 where
  pub kept : Kept
  pub found : lookup key v.popup.records ≡ some kept
  pub payload : f.payload ≡ kept.payload
  pub young : IsFresh v.now kept
  pub expiry : f.expires_at ≤ kept.cached_at + ttl_ms
  pub settled : v.popup.mutation ≡ none
  pub token : Text
  pub unlocked : truthy v.token ≡ some token

view_expiry_le : (r : Kept) (deadline : Option ℕ) → view_expiry r deadline ≤ r.cached_at + ttl_ms
view_expiry_le r none = ground arith
view_expiry_le r (some deadline) = ground arith

abbrev holds : Option Text → Bool
holds a = elim (truthy a) [ none ↦ false | some t ↦ true ]

token-same_text :
    (a b : Option Text) → holds a ≡ true → same_text a b ≡ true → (t : Text) × (truthy b ≡ some t)
token-same_text none b h k = cc
token-same_text (some []) b h k = cc
token-same_text (some (c ∷ s)) none h k = cc
token-same_text (some (c ∷ s)) (some t) h k =
    (c ∷ s, ap (λ (u : Text). truthy (some u)) (sym ((text_eq_iff (c ∷ s) t).0 k)))

check_current-token :
    (context : Context) (w : World)
    → check_current context w ≡ ok tt
    → (t : Text) × (truthy w.token ≡ some t)
unfolding check_current same_session
check_current-token context w h =
    token-same_text context.token w.token (ground arith) (ground arith)

module _ (platform : Platform) (bare_href : Url → Text) (origin : Text → Option Text)
    (ask : Text → M Answer) (join_load : M (Unit {0})) (join_fetch : Text → M Kept)
    (env : ℕ → World → World) where
  view-IsCurrent :
      (key : Text) (deadline : Option ℕ) (w : World) (f : View) (v : World)
      → (t : Text) × (truthy w.token ≡ some t)
      → view platform bare_href origin ask join_load join_fetch env deadline
          (lookup key w.popup.records)
          w
        ≡ (ok (done (some f)), v)
      → IsCurrent key f v
  view-IsCurrent key deadline w f v (t, unlocked) h =
      elim (Option-cases (lookup key w.popup.records)) [
        | inl missing ↦ cc (rw missing at h)
        | inr (r, found) ↦ elim (Option-cases w.popup.mutation) [
          | inr (ticket, busy) ↦ cc (rw (found, busy) at h)
          | inl settled ↦ elim (Bool-cases (fresh w.now r)) [
            | inr stale ↦ cc (rw (found, settled, stale) at h)
            | inl young ↦
                let e = rw (found, settled, young) at h in
                let same : w ≡ v = cc in
                let expiry : f.expires_at ≡ view_expiry r deadline = cc in
                record {
                  kept = r;
                  found = ap (λ (u : World). lookup key u.popup.records) (sym same) ∙ found;
                  payload = cc;
                  young = rw (sym same) ((fresh_iff w.now r).0 young);
                  expiry = rw expiry (view_expiry_le r deadline);
                  settled = ap (λ (u : World). u.popup.mutation) (sym same) ∙ settled;
                  token = t;
                  unlocked = ap (λ (u : World). truthy u.token) (sym same) ∙ unlocked;
                }
          ]
        ]
      ]

  show-IsCurrent :
      (key : Text) (context : Context) (deadline : Option ℕ) (w : World) (f : View) (v : World)
      → show platform bare_href origin ask join_load join_fetch env key context deadline w
        ≡ (ok (done (some f)), v)
      → IsCurrent key f v
  show-IsCurrent key context deadline w f v h = go (check_current context w) refl
    where
      go : (o : Result (Unit {0})) → check_current context w ≡ o → IsCurrent key f v
      go (ok tt) e =
          view-IsCurrent key deadline w f v (check_current-token context w e) (rw (e, show) at h)
      go (thrown c) e = cc (rw (e, show) at h)

  recheck-IsCurrent :
      (key : Text) (context : Context) (out : Result Bool × World) (f : View) (v : World)
      → recheck platform bare_href origin ask join_load join_fetch env key context out
        ≡ (ok (done (some f)), v)
      → IsCurrent key f v
  recheck-IsCurrent key context (thrown c, w) f v h = cc
  recheck-IsCurrent key context (ok false, w) f v h = cc
  recheck-IsCurrent key context (ok true, w) f v h = go (check_current context w) refl
    where
      go : (o : Result (Unit {0})) → check_current context w ≡ o → IsCurrent key f v
      go (ok tt) e =
          show-IsCurrent key context (auto_lock_deadline (env 17 w)) (env 18 (env 17 w)) f v
            (rw (e, recheck) at h)
      go (thrown c) e = cc (rw (e, recheck) at h)

  after_fetch-IsCurrent :
      (key : Text) (context : Context) (out : Result Kept × World) (f : View) (v : World)
      → after_fetch platform bare_href origin ask join_load join_fetch env key context out
        ≡ (ok (done (some f)), v)
      → IsCurrent key f v
  after_fetch-IsCurrent key context (thrown c, w) f v h = cc
  after_fetch-IsCurrent key context (ok r, w) f v h =
      recheck-IsCurrent key context (is_unlocked platform bare_href origin env (env 19 w)) f v h

  -- A record that is missing or too old.
  missed-IsCurrent :
      (key : Text) (cache_only : Bool) (w : World) (f : View) (v : World)
      → read_record platform bare_href origin ask join_load join_fetch env key cache_only none w
        ≡ (ok (done (some f)), v)
      → IsCurrent key f v
  missed-IsCurrent key true w f v h = cc
  missed-IsCurrent key false w f v h =
      let stale = with_records (delete key w.popup.records) w in
      after_fetch-IsCurrent key (context_of w) (fetch ask join_fetch env key (context_of w) stale) f
        v h

  read_record-IsCurrent :
      (key : Text) (cache_only : Bool) (found : Option Kept) (w : World) (f : View) (v : World)
      → read_record platform bare_href origin ask join_load join_fetch env key cache_only found w
        ≡ (ok (done (some f)), v)
      → IsCurrent key f v
  read_record-IsCurrent key cache_only none w f v h = missed-IsCurrent key cache_only w f v h
  read_record-IsCurrent key cache_only (some r) w f v h = elim (Bool-cases (fresh w.now r)) [
    | inl young ↦
        recheck-IsCurrent key (context_of w)
          (is_unlocked platform bare_href origin env
            (env 19 (use_record platform bare_href origin ask join_load join_fetch env r w)))
          f v (rw young at h)
    | inr stale ↦ missed-IsCurrent key cache_only w f v (rw stale at h)
  ]

  read_loaded-IsCurrent :
      (key : Text) (cache_only : Bool) (out : Result (Unit {0}) × World) (f : View) (v : World)
      → read_loaded platform bare_href origin ask join_load join_fetch env key cache_only out
        ≡ (ok (done (some f)), v)
      → IsCurrent key f v
  read_loaded-IsCurrent key cache_only (thrown c, w) f v h = cc
  read_loaded-IsCurrent key cache_only (ok tt, w) f v h = elim (Option-cases w.popup.mutation) [
    | inl settled ↦ read_record-IsCurrent key cache_only _ w f v (rw settled at h)
    | inr (ticket, busy) ↦ cc (rw busy at h)
  ]

  read_unlocked-IsCurrent :
      (key : Text) (activity cache_only : Bool) (out : Result Bool × World) (f : View) (v : World)
      → read_unlocked platform bare_href origin ask join_load join_fetch env key activity cache_only
          out
        ≡ (ok (done (some f)), v)
      → IsCurrent key f v
  read_unlocked-IsCurrent key activity cache_only (thrown c, w) f v h = cc
  read_unlocked-IsCurrent key activity cache_only (ok false, w) f v h = cc
  read_unlocked-IsCurrent key activity cache_only (ok true, w) f v h =
      let start = env 20 (if activity then reset_auto_lock w else w) in
      read_loaded-IsCurrent key cache_only
        (load platform bare_href origin ask join_load join_fetch env start) f v h

  read_again-IsCurrent :
      (key : Text) (next : World → Option (Result (Option View) × World))
      (out : Result Outcome × World) (f : View) (v : World)
      → (out ≡ (ok (done (some f)), v) → IsCurrent key f v)
      → ((w : World) → next w ≡ some (ok (some f), v) → IsCurrent key f v)
      → read_again platform bare_href origin ask join_load join_fetch env next out
        ≡ some (ok (some f), v)
      → IsCurrent key f v
  read_again-IsCurrent key next (thrown c, w) f v now later h = cc
  read_again-IsCurrent key next (ok again, w) f v now later h = later w h
  read_again-IsCurrent key next (ok (done none), w) f v now later h = cc
  read_again-IsCurrent key next (ok (done (some g)), w) f v now later h = now cc

  -- What a read returns was in the cache when it returned, at most five minutes old and not to be
  -- shown longer than that, with a token held and no change of the vault under way, whatever other
  -- handlers did and the server answered meanwhile.
  pub read-IsCurrent :
      (rounds : ℕ) (key : Text) (activity cache_only : Bool) (w : World) (f : View) (v : World)
      → read platform bare_href origin ask join_load join_fetch env rounds key activity cache_only w
        ≡ some (ok (some f), v)
      → IsCurrent key f v
  unfolding read read_once
  read-IsCurrent zero key activity cache_only w f v h = cc
  read-IsCurrent (suc rounds) key activity cache_only w f v h =
      let start =
        wait_for platform bare_href origin ask join_load join_fetch env 21 w.popup.mutation w in
      read_again-IsCurrent key
        (read platform bare_href origin ask join_load join_fetch env rounds key activity cache_only)
        (read_once platform bare_href origin ask join_load join_fetch env key activity cache_only w)
        f v
        (λ e.
          read_unlocked-IsCurrent key activity cache_only
            (is_unlocked platform bare_href origin env start) f v e)
        (λ u k. read-IsCurrent rounds key activity cache_only u f v k) h

eq_of_test : {m n : ℕ} → (m == n) ≡ true → m ≡ n
eq_of_test h = ground arith

same_session-eq :
    (context : Context) (v : World)
    → same_session context v ≡ true
    → (context.token ≡ v.token)
      × (context.server_url ≡ v.server_url)
      × (context.token_generation ≡ v.token_generation)
unfolding same_session
same_session-eq context v h = (
  same_text-eq context.token v.token (ground arith),
  same_text-eq context.server_url v.server_url (ground arith),
  eq_of_test (ground arith),
)

module _ (ask : Text → M Answer) (join_fetch : Text → M Kept) (env : ℕ → World → World) where
  fail-late :
      (key : Text) (context : Context) (c d : Code) (w : World)
      → check_current context w ≡ thrown d
      → fail ask join_fetch env key context c w ≡ (thrown d, w)
  unfolding fail
  fail-late key context c d w late = rw (late, fail) refl

  -- What a request noted is not so any more: the session, the server, or the cache.
  abbrev pub IsChanged : World → World → Type 0
  IsChanged start v =
      (start.token ≢ v.token)
      ⊎ (start.server_url ≢ v.server_url)
      ⊎ (start.token_generation ≢ v.token_generation)
      ⊎ (start.popup.generation ≢ v.popup.generation)

  abbrev pub IsLateCode : Code → Type 0
  IsLateCode d = (d ≡ session_changed) ⊎ (d ≡ cache_changed)

  changed-eq :
      (start v : World)
      → IsChanged start v
      → (d : Code) × IsLateCode d × (check_current (context_of start) v ≡ thrown d)
  unfolding check_current
  changed-eq start v h = elim (Bool-cases (same_session (context_of start) v)) [
    | inr other ↦ (session_changed, inl refl, rw other refl)
    | inl same ↦ elim (Bool-cases (start.popup.generation == v.popup.generation)) [
      | inr moved ↦ (cache_changed, inr refl, rw (same, moved) refl)
      | inl still ↦ absurd (kept same still h)
    ]
  ]
    where
      kept :
          same_session (context_of start) v ≡ true
          → (start.popup.generation == v.popup.generation) ≡ true
          → IsChanged start v
          → ⊥
      kept same still change =
          let e = same_session-eq (context_of start) v same in
          let g : start.popup.generation ≡ v.popup.generation = eq_of_test still in
          elim change [
            | inl token ↦ token e.0
            | inr (inl server) ↦ server e.1
            | inr (inr (inl session)) ↦ session e.2
            | inr (inr (inr cache)) ↦ cache g
          ]

  -- An answer that comes when the token, the server, the session or the cache has changed since the
  -- request changes nothing and is not returned: neither what the server sent nor its error, but a
  -- notice that the session or the cache has changed.
  pub fetch_task-late :
      (key : Text) (start w : World)
      → IsChanged start (ask key w).1
      → (d : Code) × IsLateCode d
        × (fetch_task ask join_fetch env key (context_of start) w ≡ (thrown d, (ask key w).1))
  unfolding fetch_task
  fetch_task-late key start w change =
      let late = changed-eq start (ask key w).1 change in
      (late.0, late.1, go late.0 (ask key w) late.2)
    where
      go :
          (d : Code) (out : Result Answer × World)
          → check_current (context_of start) out.1 ≡ thrown d
          → handle ask join_fetch env key (context_of start) out ≡ (thrown d, out.1)
      go d (thrown c, v) h = fail-late key (context_of start) c d v h
      go d (ok answer, v) h = rw (h, handle) (fail-late key (context_of start) d d v h)
