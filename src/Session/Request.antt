-- ===== src/Session/Request.antt =====
-- extension/background/api.js: `request`. The network (`send`), the JSON parser and whatever other
-- handlers do at the other waits (`env`) are parameters.
mod Tests
use passwort_manager_yurr.Common.{
  ℕ, zero, suc, Bool, true, false, ◌&&◌, ◌||◌, not, ◌++◌, Option, none, some, Text, codes, truthy,
  leb, text_eq, ◌==◌, if◌then◌else◌, is_empty,
}
use passwort_manager_yurr.Platform.{Platform, Url}
use passwort_manager_yurr.World.{World}
use passwort_manager_yurr.Session.Api.{
  Result, ok, thrown, M, auth_error, network_error, session_changed, http_error, unknown_error,
  get_server_url, api_clear_token, same_server_origin,
}

-- What is sent: the address, and the token of the `Authorization` header.
pub record Sent : Type 0 where
  pub method : Text
  pub url : Text
  pub token : Option Text

-- The body of a response, which may break off.
pub data Body : Type 0 where
  received : Text → Body
  interrupted broken : Body

pub data Attempt : Type 0 where
  unreachable failed : Attempt
  response : (status : ℕ) → Body → Attempt

-- `isIdempotentMethod`, of a method in upper case
abbrev pub is_idempotent : Text → Bool
is_idempotent method =
    text_eq method (codes "GET")
    || text_eq method (codes "HEAD")
    || text_eq method (codes "OPTIONS")

module _ {D : Type 0} (json : Text → Option D) (text_object : Text → D) (empty_object : D) where
  -- `rawText ? JSON.parse(rawText) : {}`, or the text as an error
  abbrev pub data_of : Text → D
  data_of raw =
      if is_empty raw then empty_object else elim (json raw) [ none ↦ text_object raw | some d ↦ d ]

  -- The outcome of a response whose body has come.
  abbrev pub judge : Bool → ℕ → Text → Result D
  judge requires_auth status raw =
      if leb 200 status && leb status 299
      then ok (data_of raw)
      else if requires_auth && (status == 401 || status == 403)
      then thrown auth_error
      else thrown (http_error status)

  module _ (platform : Platform) (bare_href : Url → Text) (origin : Text → Option Text)
      (send : Sent → World → Attempt × World) (env : ℕ → World → World) where
    -- The token that a request takes along, if the server may have it.
    unfoldable pub authorize : Bool → Text → World → Result (Option Text) × World
    unfolding same_server_origin api_clear_token
    authorize false url w = (ok none, w)
    authorize true url w = elim (truthy w.token) [
      | none ↦ (thrown auth_error, w)
      | some t ↦
          if same_server_origin origin w.token_server_url (some url)
          then (ok (some t), w)
          else (thrown auth_error, api_clear_token w)
    ]

    abbrev pub check_generation : Bool → ℕ → Result D → World → Result D × World
    check_generation requires_auth generation result w =
        if requires_auth && not (generation == w.token_generation)
        then (thrown session_changed, w)
        else (result, w)

    abbrev pub read_body : Bool → ℕ → ℕ → Body → World → Result D × World
    read_body requires_auth generation status (received raw) w =
        check_generation requires_auth generation (judge requires_auth status raw) w
    read_body requires_auth generation status interrupted w = (thrown network_error, w)
    read_body requires_auth generation status broken w = (thrown unknown_error, w)

    -- The loop over the attempts, with the number of those that are left.
    unfoldable pub after_attempt : Bool → ℕ → Sent → ℕ → Attempt × World → Result D × World
    after_attempt requires_auth generation sent left (failed, w) = (thrown unknown_error, w)
    after_attempt requires_auth generation sent left (response status body, w) =
        read_body requires_auth generation status body (env 42 w)
    after_attempt requires_auth generation sent zero (unreachable, w) = (thrown network_error, w)
    after_attempt requires_auth generation sent (suc n) (unreachable, w) =
        after_attempt requires_auth generation sent n (send sent (env 41 w))

    abbrev pub send_attempts : Bool → ℕ → ℕ → Sent → M D
    send_attempts requires_auth generation left sent w =
        after_attempt requires_auth generation sent left (send sent w)

    abbrev pub send_authorized :
        Bool → Text → Text → ℕ → ℕ → Result (Option Text) × World → Result D × World
    send_authorized requires_auth method url generation left (thrown c, w) = (thrown c, w)
    send_authorized requires_auth method url generation left (ok token, w) =
        send_attempts requires_auth generation left
          (record { method = method; url = url; token = token }) w

    abbrev pub request_at : Text → Text → Bool → ℕ → Result Text × World → Result D × World
    request_at method path requires_auth left (thrown c, w) = (thrown c, w)
    request_at method path requires_auth left (ok server, w) =
        send_authorized requires_auth method (server ++ codes "/api/v1" ++ path) w.token_generation
          left (authorize requires_auth server w)

    abbrev pub after_address : Result Text × World → Result Text × World
    after_address (result, w) = (result, env 40 w)

    -- `request(method, path, body, requiresAuth)`; the body goes along unchanged.
    unfoldable pub request : Text → Text → Bool → M D
    unfolding after_attempt authorize get_server_url
    request method path requires_auth w =
        request_at method path requires_auth (if is_idempotent method then 1 else 0)
          (after_address (get_server_url platform bare_href w))
