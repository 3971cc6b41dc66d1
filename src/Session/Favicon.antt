-- ===== src/Session/Favicon.antt =====
-- extension/background/api.js: `getFavicon`. The network (`fetch`), `btoa` and whatever other handlers
-- do at the other waits (`env`) are parameters.
use passwort_manager_yurr.Common.{
  ℕ, zero, suc, ◌&&◌, ◌||◌, not, List, ◌++◌, Option, none, some, Text, codes, truthy, leb, ◌==◌,
  if◌then◌else◌,
}
use passwort_manager_yurr.Platform.{Platform, Url}
use passwort_manager_yurr.World.{World}
use passwort_manager_yurr.Session.Api.{
  Result, ok, thrown, M, auth_error, network_error, unknown_error, get_server_url, api_clear_token,
  same_server_origin,
}
use passwort_manager_yurr.Session.Endpoints.{encode}

-- An image, with its type.
pub record Blob : Type 0 where
  pub kind : Text
  pub bytes : List ℕ

-- The outcome of an attempt; the image may break off.
pub data Fetched : Type 0 where
  unreachable failed : Fetched
  response : (status : ℕ) → Option Blob → Fetched

-- What is asked: the address, and the token of the `Authorization` header.
pub record Asked : Type 0 where
  pub url : Text
  pub token : Option Text

module _ (platform : Platform) (bare_href : Url → Text) (origin : Text → Option Text)
    (fetch : Asked → World → Fetched × World) (btoa : List ℕ → Text) (env : ℕ → World → World) where
  -- The token that goes along, if the server may have it.
  unfoldable pub icon_token : Text → World → Result (Option Text) × World
  unfolding same_server_origin api_clear_token
  icon_token url w = elim (truthy w.token) [
    | none ↦ (ok none, w)
    | some t ↦
        if same_server_origin origin w.token_server_url (some url)
        then (ok (some t), w)
        else (thrown auth_error, api_clear_token w)
  ]

  abbrev pub data_url : Blob → Text
  data_url blob = codes "data:" ++ blob.kind ++ codes ";base64," ++ btoa blob.bytes

  -- An image that has come in the session in which it was asked for.
  abbrev pub icon_read : ℕ → Option Blob → World → Result (Option Text) × World
  icon_read generation none w = (thrown unknown_error, w)
  icon_read generation (some blob) w =
      if generation == w.token_generation then (ok (some (data_url blob)), w) else (ok none, w)

  abbrev pub icon_of : ℕ → ℕ → Option Blob → World → Result (Option Text) × World
  icon_of generation status blob w =
      if status == 401 || status == 403
      then (thrown auth_error, w)
      else if not (leb 200 status && leb status 299)
      then (ok none, w)
      else icon_read generation blob (env 71 w)

  -- The loop over the attempts, with the number of those that are left.
  unfoldable pub icon_after : ℕ → Asked → ℕ → Fetched × World → Result (Option Text) × World
  icon_after generation asked left (failed, w) = (thrown unknown_error, w)
  icon_after generation asked left (response status blob, w) = icon_of generation status blob w
  icon_after generation asked zero (unreachable, w) = (thrown network_error, w)
  icon_after generation asked (suc n) (unreachable, w) =
      icon_after generation asked n (fetch asked (env 72 w))

  abbrev pub icon_asked : ℕ → Text → Result (Option Text) × World → Result (Option Text) × World
  icon_asked generation url (thrown c, w) = (thrown c, w)
  icon_asked generation url (ok token, w) =
      let asked : Asked = record { url = url; token = token } in
      icon_after generation asked 1 (fetch asked w)

  abbrev pub icon_at : Text → Result Text × World → Result (Option Text) × World
  icon_at domain (thrown c, w) = (thrown c, w)
  icon_at domain (ok server, w) =
      icon_asked w.token_generation
        (server ++ codes "/api/v1" ++ codes "/favicons/" ++ encode domain) (icon_token server w)

  abbrev pub icon_address : Result Text × World → Result Text × World
  icon_address (result, w) = (result, env 70 w)

  -- `getFavicon`
  unfoldable pub favicon : Text → M (Option Text)
  unfolding icon_after icon_token get_server_url encode
  favicon domain w = icon_at domain (icon_address (get_server_url platform bare_href w))
