-- ===== src/Session/Entering.antt =====
-- extension/background/api.js: what `login` keeps.
use passwort_manager_yurr.Common.{
  ℕ, ◌≡◌, sym, Bool, false, not, some, Text, text_eq, text_eq_iff, ◌==◌, inl, inr, arith,
}
use passwort_manager_yurr.World.{World}
use passwort_manager_yurr.Session.Api.{
  M, ok, thrown, session_changed, set_token, then_run-eq-ok, if-eq,
}
use passwort_manager_yurr.Session.Endpoints.{
  Call, login_call, login_asked, keep_token, login_moved, login_checked, login_sent, login,
}

module _ {D : Type 0} (server_url : M Text) (request : Call D → M D) (token_of : D → Text) where
  -- An answer of the server that a login keeps: the address of the server when the login began, the
  -- request that was sent then and had the answer, and the address after it, which is the same.
  pub record IsEntered (master : Text) (never : Bool) (w : World) (answer : D) (v : World)
      : Type 0 where
    pub url : Text
    pub before : World
    pub began : server_url w ≡ (ok url, before)
    pub received : World
    pub after : World
    pub sent :
        request (login_call server_url request token_of master never) before ≡ (ok answer, received)
    pub same_session : received.token_generation ≡ before.token_generation
    pub same_server : server_url received ≡ (ok url, after)
    pub kept : v ≡ set_token (some (token_of answer)) (some url) after

  moved_of :
      (url : Text) (a : D) (now : Text) (w : World) (answer : D) (v : World)
      → login_moved server_url request token_of url a now w ≡ (ok answer, v)
      → (url ≡ now) × (a ≡ answer) × (v ≡ set_token (some (token_of a)) (some url) w)
  moved_of url a now w answer v h =
      elim (if-eq (not (text_eq url now)) (λ (u : World). (thrown session_changed, u))
        (keep_token server_url request token_of url a) w h) [
          | inl moved ↦ cc moved.1
          | inr same ↦ (
            (let e = text_eq_iff url now in
                let k : not (text_eq url now) ≡ false = same.0 in ground (arith, e)),
            cc same.1,
            cc same.1,
          )
        ]

  checked-IsEntered :
      (master : Text) (never : Bool) (first : World) (url : Text) (before : World) (a : D)
      (w : World) (answer : D) (v : World)
      → server_url first ≡ (ok url, before)
      → request (login_call server_url request token_of master never) before ≡ (ok a, w)
      → login_checked server_url request token_of before.token_generation url a w ≡ (ok answer, v)
      → IsEntered master never first answer v
  checked-IsEntered master never first url before a w answer v began sent h =
      elim (if-eq (not (before.token_generation == w.token_generation))
        (λ (u : World). (thrown session_changed, u)) (login_asked server_url request token_of url a)
        w h) [
          | inl moved ↦ cc moved.1
          | inr same ↦
              let got =
                then_run-eq-ok (server_url w) (login_moved server_url request token_of url a)
                  same.1 in
              let there = moved_of url a got.0 got.1 answer v got.3 in
              record {
                url = url;
                before = before;
                began = began;
                received = w;
                after = got.1;
                sent = rw there.1 at sent;
                same_session = generation_of before.token_generation w.token_generation same.0;
                same_server = rw (sym there.0) at got.2;
                kept = rw there.1 at there.2;
              }
        ]
    where
      generation_of : (m n : ℕ) → not (m == n) ≡ false → n ≡ m
      generation_of m n h = ground arith

  -- A login that succeeds keeps the token of the answer, together with the address that the server
  -- had when the login began and still has after the answer, and the session has not changed since
  -- the request was sent.
  pub login-IsEntered :
      (master : Text) (never : Bool) (w : World) (answer : D) (v : World)
      → login server_url request token_of master never w ≡ (ok answer, v)
      → IsEntered master never w answer v
  unfolding login
  login-IsEntered master never w answer v h =
      let at_server =
        then_run-eq-ok (server_url w) (login_sent server_url request token_of master never) h in
      let call = login_call server_url request token_of master never in
      let before = at_server.1 in
      let got =
        then_run-eq-ok (request call before)
          (login_checked server_url request token_of before.token_generation at_server.0)
          at_server.3 in
      checked-IsEntered master never w at_server.0 before got.0 got.1 answer v at_server.2 got.2
        got.3
