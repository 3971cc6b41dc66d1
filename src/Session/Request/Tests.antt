-- ===== src/Session/Request/Tests.antt =====
-- extension/background/api.js: requests at a concrete state.
use passwort_manager_yurr.Common.{ℕ, ◌≡◌, refl, true, [], Option, none, some, Text, codes}
use passwort_manager_yurr.Samples.{sample_platform, sample_origin, bare_href, server, stored}
use passwort_manager_yurr.World.{World}
use passwort_manager_yurr.Session.Api.{
  Result, ok, thrown, auth_error, network_error, session_changed, http_error, same_server_origin,
}
use passwort_manager_yurr.Session.Request.{Sent, Attempt, unreachable, response, received, request}
use passwort_manager_yurr.Session.Sent.{IsSent, request-IsSent}
use passwort_manager_yurr.Session.Stored.{quiet}

-- All that a run computes with.
program : Unit {0}
unfolding request same_server_origin
program = tt

-- A parser that takes each body for itself.
abbrev json : Text → Option Text
json raw = some raw

abbrev text_object : Text → Text
text_object raw = raw

abbrev unlocked : World
unlocked = record stored { token = some (codes "tok"); token_server_url = some server }

abbrev get : (Sent → World → Attempt × World) → World → Result Text × World
get send w =
    request json text_object [] sample_platform bare_href sample_origin send quiet (codes "GET")
      (codes "/entries") true w

abbrev answering : ℕ → Sent → World → Attempt × World
answering status sent w = (response status (received (codes "[]")), w)

get_run : get (answering 200) unlocked ≡ (ok (codes "[]"), unlocked)
unfolding program
get_run = refl

refused_run : get (answering 401) unlocked ≡ (thrown auth_error, unlocked)
unfolding program
refused_run = refl

missing_run : get (answering 404) unlocked ≡ (thrown (http_error 404), unlocked)
unfolding program
missing_run = refl

unreachable_run : (get (λ sent w. (unreachable, w)) unlocked).0 ≡ thrown network_error
unfolding program
unreachable_run = refl

-- The token is for another server: it is dropped, and nothing is sent.
foreign_run :
    (get (answering 200) (record unlocked { server_url = some (codes "https://b.org/") })).1.token
    ≡ none
unfolding program
foreign_run = refl

-- The session is locked while the request is under way.
locked_run :
    (get (λ sent w. (response 200 (received []), record w { token_generation = 1 })) unlocked).0
    ≡ thrown session_changed
unfolding program
locked_run = refl

request-IsSent_example :
    IsSent json text_object [] sample_platform bare_href sample_origin
      (answering 200)
      quiet
      (codes "GET")
      (codes "/entries")
      server
      1
      unlocked
      (codes "[]")
      unlocked
unfolding program
request-IsSent_example =
    request-IsSent json text_object [] sample_platform bare_href sample_origin (answering 200) quiet
      (codes "GET") (codes "/entries") server unlocked unlocked unlocked (codes "[]") refl get_run
