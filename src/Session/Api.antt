-- ===== src/Session/Api.antt =====
-- extension/background/api.js: the server's URL and the token that `VaultAPI` holds.
use passwort_manager_yurr.Common.{
  ℕ, ◌+◌, ◌≡◌, refl, ◌⊎◌, inl, inr, Bool, true, false, ◌&&◌, ◌||◌, not, List, [], ◌∷◌, Option, none,
  some, Text, codes, text_eq, same_text, truthy, leb, ◌==◌, if◌then◌else◌, is_empty, trim,
  strip_first, strip_last, split, ends_with, reverse,
}
use passwort_manager_yurr.Platform.{Platform, Url}
use passwort_manager_yurr.Site.Numbers.{digits, show_number}
use passwort_manager_yurr.World.{World}

-- The codes of the errors that the background page raises.
pub data Code : Type 0 where
  config_error session_changed cache_changed session_lost auth_error network_error : Code
  invalid_data forbidden unknown_error : Code
  http_error : (status : ℕ) → Code

pub data Result {ℓ} (A : Type ℓ) : Type ℓ where
  ok : A → Result A
  thrown : Code → Result A

-- A call that may throw, with the state that it leaves in either case.
abbrev pub M : Type 0 → Type 0
M A = World → Result A × World

abbrev pub then_run : {A B : Type 0} → Result A × World → (A → M B) → Result B × World
then_run (ok a, w) f = f a w
then_run (thrown c, w) f = (thrown c, w)

infixl 5 ◌>>=◌
abbrev pub ◌>>=◌ : {A B : Type 0} → M A → (A → M B) → M B
◌>>=◌ m f w = then_run (m w) f

abbrev pub return : {A : Type 0} → A → M A
return a w = (ok a, w)

-- Inversion of a call that went on, and of a test.
pub then_run-eq-ok :
    {A B : Type 0} (out : Result A × World) (f : A → M B) {b : B} {v : World}
    → then_run out f ≡ (ok b, v)
    → (a : A) × (u : World) × (out ≡ (ok a, u)) × (f a u ≡ (ok b, v))
then_run-eq-ok (ok a, u) f h = (a, u, refl, h)
then_run-eq-ok (thrown c, u) f h = cc

pub return-eq : {A : Type 0} {a b : A} {w v : World} → return a w ≡ (ok b, v) → a ≡ b
return-eq h = cc

pub if-eq :
    {A : Type 0} (b : Bool) (m n : World → A) (w : World) {out : A}
    → (if b then m else n) w ≡ out
    → ((b ≡ true) × (m w ≡ out)) ⊎ ((b ≡ false) × (n w ≡ out))
if-eq true m n w h = inl (refl, h)
if-eq false m n w h = inr (refl, h)

-- Canonical decimal from 0 to 255, as the tests of `isLoopbackHost` require of a label.
abbrev pub loopback_label : Text → Option ℕ
loopback_label part = elim (digits 10 part) [
  | none ↦ none
  | some (n, _) ↦ if text_eq (show_number n) part && leb n 255 then some n else none
]

abbrev all_labels : Option ℕ → Option ℕ → Option ℕ → Option ℕ → Bool
all_labels (some a) (some b) (some c) (some d) = a == 127
all_labels _ _ _ _ = false

abbrev is_loopback_parts : List Text → Bool
is_loopback_parts (p ∷ q ∷ r ∷ s ∷ []) =
    all_labels (loopback_label p) (loopback_label q) (loopback_label r) (loopback_label s)
is_loopback_parts _ = false

-- `.replace(/\/+$/, '')`
strip_slashes_from : Text → Text
strip_slashes_from [] = []
strip_slashes_from (c ∷ s) = if c == b'/' then strip_slashes_from s else c ∷ s

unfoldable pub strip_slashes : Text → Text
unfolding strip_slashes_from
strip_slashes s = reverse (strip_slashes_from (reverse s))

abbrev pub default_server_url : Text
default_server_url = codes "https://localhost:8443"

-- The platform, and `url.href` once `url.hash` and `url.search` are empty.
module _ (platform : Platform) (bare_href : Url → Text) where
  -- `isLoopbackHost`
  unfoldable pub is_loopback_host : Text → Bool
  is_loopback_host hostname =
      let host = platform.to_lower_case (strip_last b']' (strip_first b'[' hostname)) in
      text_eq host (codes "localhost")
      || ends_with host (codes ".localhost")
      || text_eq host (codes "::1")
      || is_loopback_parts (split b'.' host)

  abbrev accept_server : Option Url → Result Text
  accept_server none = thrown config_error
  accept_server (some u) =
      if not (is_empty u.username) || not (is_empty u.password)
      then thrown config_error
      else if not (text_eq u.protocol (codes "https:")) && not (text_eq u.protocol (codes "http:"))
      then thrown config_error
      else if text_eq u.protocol (codes "http:") && not (is_loopback_host u.hostname)
      then thrown config_error
      else ok (strip_slashes (bare_href u))

  -- `normalizeServerUrl`
  unfoldable pub normalize_server_url : Text → Result Text
  unfolding is_loopback_host trim
  normalize_server_url value = accept_server (platform.parse_url (trim value))

  abbrev pub or_default : Option Text → Text
  or_default none = default_server_url
  or_default (some url) = url

  abbrev pub learn_server : Result Text → M Text
  learn_server (ok url) w = (ok url, record w { server_url = some url })
  learn_server (thrown c) w = (thrown c, w)

  abbrev get_server_from : Option Text → M Text
  get_server_from (some url) w = (ok url, w)
  get_server_from none w =
      learn_server (normalize_server_url (or_default (truthy w.local_server_url))) w

  -- `getServerUrl`
  unfoldable pub get_server_url : M Text
  get_server_url w = get_server_from (truthy w.server_url) w

-- `setToken(token, serverUrl)`
unfoldable pub set_token : Option Text → Option Text → World → World
set_token token url w = record w {
  token = token;
  token_generation = if same_text w.token token then w.token_generation else w.token_generation + 1;
  token_server_url = elim (truthy url) [ none ↦ truthy w.server_url | some u ↦ some u ];
}

-- `clearToken()` of the API
unfoldable pub api_clear_token : World → World
api_clear_token w = record w {
  token = none;
  token_server_url = none;
  token_generation = w.token_generation + 1;
}

abbrev origins_agree : (Text → Option Text) → Text → Text → Option Text → Option Text → Bool
origins_agree origin a b (some o) (some p) = text_eq o p
origins_agree origin a b _ _ = text_eq a b

-- `sameServerOrigin(a, b)`, over the browser's `new URL(text).origin`, which throws on a bad text.
unfoldable pub same_server_origin : (Text → Option Text) → Option Text → Option Text → Bool
same_server_origin origin a b = elim (truthy a) [
  | none ↦ true
  | some s ↦ elim (truthy b) [
    | none ↦ true
    | some t ↦ origins_agree origin s t (origin s) (origin t)
  ]
]
