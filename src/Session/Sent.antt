-- ===== src/Session/Sent.antt =====
-- extension/background/api.js: to whom a request sends the token, and for which session its answer is.
use passwort_manager_yurr.Common.{
  ℕ, zero, suc, ◌≤◌, ◌⊎◌, ◌&&◌, ◌||◌, leb, refl, ◌≡◌, sym, ap, ◌∙◌, true, ◌==◌, Option, some, Text,
  codes, ◌++◌, truthy, if◌then◌else◌, Bool-cases, Option-cases, inl, inr, arith,
}
use mathlib.Core.Path.{subst}
use passwort_manager_yurr.Platform.{Platform, Url}
use passwort_manager_yurr.World.{World}
use passwort_manager_yurr.Session.Api.{Result, ok, thrown, get_server_url, same_server_origin}
use passwort_manager_yurr.Session.Request.{
  Sent, received, interrupted, broken, Attempt, unreachable, failed, response, judge, data_of,
  check_generation, after_attempt, authorize, send_authorized, request_at, after_address,
  is_idempotent, request,
}

eq_of_test : {m n : ℕ} → (m == n) ≡ true → n ≡ m
eq_of_test h = ground arith

module _ {D : Type 0} (json : Text → Option D) (text_object : Text → D) (empty_object : D)
    (platform : Platform) (bare_href : Url → Text) (origin : Text → Option Text)
    (send : Sent → World → Attempt × World) (env : ℕ → World → World) where
  check_generation-current :
      (generation : ℕ) (result : Result D) (w v : World) (d : D)
      → check_generation json text_object empty_object platform bare_href origin send env true
          generation result w
        ≡ (ok d, v)
      → v.token_generation ≡ generation
  check_generation-current generation result w v d h =
      elim (Bool-cases (generation == w.token_generation)) [
        | inr changed ↦ cc (rw changed at h)
        | inl same ↦
            let e : (result, w) ≡ (ok d, v) = rw same at h in
            let there : w ≡ v = cc in
            ap (λ (u : World). u.token_generation) (sym there) ∙ eq_of_test same
      ]

  after_attempt-current :
      (generation : ℕ) (sent : Sent) (left : ℕ) (out : Attempt × World) (v : World) (d : D)
      → after_attempt json text_object empty_object platform bare_href origin send env true
          generation sent left out
        ≡ (ok d, v)
      → v.token_generation ≡ generation
  unfolding after_attempt
  after_attempt-current generation sent left (failed, w) v d h = cc
  after_attempt-current generation sent left (response status (received raw), w) v d h =
      check_generation-current generation (judge json text_object empty_object true status raw)
        (env 42 w) v d h
  after_attempt-current generation sent left (response status interrupted, w) v d h = cc
  after_attempt-current generation sent left (response status broken, w) v d h = cc
  after_attempt-current generation sent zero (unreachable, w) v d h = cc
  after_attempt-current generation sent (suc n) (unreachable, w) v d h =
      after_attempt-current generation sent n (send sent (env 41 w)) v d h

  -- The state in which an attempt is made: the first, or after one that did not reach the server.
  abbrev pub IsTried : Sent → ℕ → World → World → Type 0
  IsTried sent zero u at = at ≡ u
  IsTried sent (suc n) u at =
      (at ≡ u) ⊎ ((x : World) × (send sent u ≡ (unreachable, x)) × IsTried sent n (env 41 x) at)

  IsTried-now : (sent : Sent) (left : ℕ) (u : World) → IsTried sent left u u
  IsTried-now sent zero u = refl
  IsTried-now sent (suc n) u = inl refl

  -- What an attempt was answered with.
  pub record IsReceived (sent : Sent) (left : ℕ) (u : World) (d : D) : Type 0 where
    pub at : World
    pub after : World
    pub status : ℕ
    pub raw : Text
    pub tried : IsTried sent left u at
    pub received_raw : send sent at ≡ (response status (received raw), after)
    pub success : (200 ≤ status) × (status ≤ 299)
    pub answer : d ≡ data_of json text_object empty_object raw

  judge-eq :
      (status : ℕ) (raw : Text) (d : D)
      → judge json text_object empty_object true status raw ≡ ok d
      → (200 ≤ status) × (status ≤ 299) × (d ≡ data_of json text_object empty_object raw)
  judge-eq status raw d h = elim (Bool-cases (leb 200 status && leb status 299)) [
    | inl good ↦
        let e : ok (data_of json text_object empty_object raw) ≡ ok d = rw good at h in
        (ground arith, ground arith, cc)
    | inr bad ↦ elim (Bool-cases (status == 401 || status == 403)) [
      | inl refused ↦ cc (rw (bad, refused) at h)
      | inr other ↦ cc (rw (bad, other) at h)
    ]
  ]

  check_generation-eq :
      (generation : ℕ) (result : Result D) (w v : World) (d : D)
      → check_generation json text_object empty_object platform bare_href origin send env true
          generation result w
        ≡ (ok d, v)
      → result ≡ ok d
  check_generation-eq generation result w v d h =
      elim (Bool-cases (generation == w.token_generation)) [
        | inr changed ↦ cc (rw changed at h)
        | inl same ↦ let e : (result, w) ≡ (ok d, v) = rw same at h in ap (λ x. x.0) e
      ]

  received-IsReceived :
      (generation : ℕ) (sent : Sent) (left : ℕ) (u : World) (status : ℕ) (raw : Text) (w v : World)
      (d : D)
      → send sent u ≡ (response status (received raw), w)
      → check_generation json text_object empty_object platform bare_href origin send env true
          generation
          (judge json text_object empty_object true status raw)
          (env 42 w)
        ≡ (ok d, v)
      → IsReceived sent left u d
  received-IsReceived generation sent left u status raw w v d e h =
      let result = judge json text_object empty_object true status raw in
      let got = judge-eq status raw d (check_generation-eq generation result (env 42 w) v d h) in
      record {
        at = u;
        after = w;
        status = status;
        raw = raw;
        tried = IsTried-now sent left u;
        received_raw = e;
        success = (got.0, got.1);
        answer = got.2;
      }

  retried-IsReceived :
      (sent : Sent) (n : ℕ) (u w : World) (d : D)
      → send sent u ≡ (unreachable, w)
      → IsReceived sent n (env 41 w) d
      → IsReceived sent (suc n) u d
  retried-IsReceived sent n u w d e k = record {
    at = k.at;
    after = k.after;
    status = k.status;
    raw = k.raw;
    tried = inr (w, e, k.tried);
    received_raw = k.received_raw;
    success = k.success;
    answer = k.answer;
  }

  after_attempt-IsReceived :
      (generation : ℕ) (sent : Sent) (left : ℕ) (u : World) (out : Attempt × World) (v : World)
      (d : D)
      → send sent u ≡ out
      → after_attempt json text_object empty_object platform bare_href origin send env true
          generation sent left out
        ≡ (ok d, v)
      → IsReceived sent left u d
  unfolding after_attempt
  after_attempt-IsReceived generation sent left u (failed, w) v d e h = cc
  after_attempt-IsReceived generation sent left u (response status (received raw), w) v d e h =
      received-IsReceived generation sent left u status raw w v d e h
  after_attempt-IsReceived generation sent left u (response status interrupted, w) v d e h = cc
  after_attempt-IsReceived generation sent left u (response status broken, w) v d e h = cc
  after_attempt-IsReceived generation sent zero u (unreachable, w) v d e h = cc
  after_attempt-IsReceived generation sent (suc n) u (unreachable, w) v d e h =
      retried-IsReceived sent n u w d e
        (after_attempt-IsReceived generation sent n (env 41 w) (send sent (env 41 w)) v d refl h)

  abbrev pub sent_with : Text → Text → Text → Text → Sent
  sent_with method server path token = record {
    method = method;
    url = server ++ codes "/api/v1" ++ path;
    token = some token;
  }

  -- A request that has sent the token: to the server it is for, and answered while it is the token.
  pub record IsSent (method path server : Text) (left : ℕ) (u : World) (d : D) (v : World)
      : Type 0 where
    pub token : Text
    pub held : truthy u.token ≡ some token
    pub home : same_server_origin origin u.token_server_url (some server) ≡ true
    pub attempt : IsReceived (sent_with method server path token) left u d
    pub current : v.token_generation ≡ u.token_generation

  attempted-IsSent :
      (method path : Text) (left : ℕ) (server token : Text) (u v : World) (d : D)
      → truthy u.token ≡ some token
      → same_server_origin origin u.token_server_url (some server) ≡ true
      → after_attempt json text_object empty_object platform bare_href origin send env true
          u.token_generation
          (sent_with method server path token)
          left
          (send (sent_with method server path token) u)
        ≡ (ok d, v)
      → IsSent method path server left u d v
  attempted-IsSent method path left server token u v d held home h =
      let sent = sent_with method server path token in
      record {
        token = token;
        held = held;
        home = home;
        attempt = after_attempt-IsReceived u.token_generation sent left u (send sent u) v d refl h;
        current = after_attempt-current u.token_generation sent left (send sent u) v d h;
      }

  -- What a request does once it may have the token.
  sent_authorized-eq :
      (method url : Text) (left : ℕ) (u : World) (out : Result (Option Text) × World) (d : D)
      (v : World)
      → send_authorized json text_object empty_object platform bare_href origin send env true method
          url u.token_generation left out
        ≡ (ok d, v)
      → (token : Option Text) × (w : World) × (out ≡ (ok token, w))
        × (after_attempt json text_object empty_object platform bare_href origin send env true
              u.token_generation
              (record { method = method; url = url; token = token })
              left
              (send (record { method = method; url = url; token = token }) w)
            ≡ (ok d, v))
  sent_authorized-eq method url left u (thrown c, w) d v h = cc
  sent_authorized-eq method url left u (ok token, w) d v h = (token, w, refl, h)

  authorize-eq :
      (server : Text) (u w : World) (token : Option Text)
      → authorize json text_object empty_object platform bare_href origin send env true server u
        ≡ (ok token, w)
      → (t : Text) × (truthy u.token ≡ some t)
        × (same_server_origin origin u.token_server_url (some server) ≡ true)
        × (some t ≡ token)
        × (u ≡ w)
  unfolding authorize
  authorize-eq server u w token h = elim (Option-cases (truthy u.token)) [
    | inl missing ↦ cc (rw (missing, authorize) at h)
    | inr (t, held) ↦
        elim (Bool-cases (same_server_origin origin u.token_server_url (some server))) [
          | inr foreign ↦ cc (rw (held, foreign, authorize) at h)
          | inl home ↦
              let e : ◌≡◌ {A = Result (Option Text) × World} (ok (some t), u) (ok token, w) =
                rw (held, home, authorize) at h in
              (t, held, home, cc, cc)
        ]
  ]

  request_at-IsSent :
      (method path : Text) (left : ℕ) (server : Text) (u v : World) (d : D)
      → request_at json text_object empty_object platform bare_href origin send env method path true
          left
          (ok server, u)
        ≡ (ok d, v)
      → IsSent method path server left u d v
  request_at-IsSent method path left server u v d h =
      let url = server ++ codes "/api/v1" ++ path in
      let asked =
        authorize json text_object empty_object platform bare_href origin send env true server u in
      let got = sent_authorized-eq method url left u asked d v h in
      let may = authorize-eq server u got.1 got.0 got.2 in
      attempted-IsSent method path left server may.0 u v d may.1 may.2 (
        subst
          (λ (x : Option Text × World).
            after_attempt json text_object empty_object platform bare_href origin send env true
              u.token_generation (record { method = method; url = url; token = x.0 }) left
              (send (record { method = method; url = url; token = x.0 }) x.1)
            ≡ (ok d, v))
          (λ i. (sym may.3 i, sym may.4 i)) got.3)

  -- A request with authentication that succeeds has sent its method, its path at the server's
  -- address and a token that is held for the origin of that address, as they are once the address
  -- is known. It was answered with a status from 200 to 299 and returns the answer's data: at the
  -- first attempt, or for GET, HEAD and OPTIONS at the second if the first did not reach the server.
  -- The token has not changed until its answer came, whatever the network and the other handlers
  -- did.
  pub request-IsSent :
      (method path server : Text) (w u v : World) (d : D)
      → after_address json text_object empty_object platform bare_href origin send env
          (get_server_url platform bare_href w)
        ≡ (ok server, u)
      → request json text_object empty_object platform bare_href origin send env method path true w
        ≡ (ok d, v)
      → IsSent method path server (if is_idempotent method then 1 else 0) u d v
  unfolding request
  request-IsSent method path server w u v d address h =
      request_at-IsSent method path (if is_idempotent method then 1 else 0) server u v d
        (rw address at h)
