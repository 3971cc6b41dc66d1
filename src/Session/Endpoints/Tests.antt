-- ===== src/Session/Endpoints/Tests.antt =====
-- Tests of the endpoints and of `login`.
use passwort_manager_yurr.Common.{◌≡◌, refl, some, false, Text, codes}
use passwort_manager_yurr.Samples.{stored, server}
use passwort_manager_yurr.Session.Api.{M, ok, return, set_token}
use passwort_manager_yurr.Session.Endpoints.{Endpoint, Call, get_entry, call_of, login}
use passwort_manager_yurr.Session.Paths.{IsPath, call_of-IsPath}
use passwort_manager_yurr.Session.Entering.{IsEntered, login-IsEntered}

abbrev odd_entry : Endpoint Text
odd_entry = get_entry (codes "7/../é?x")

encoded : (call_of odd_entry).path ≡ codes "/entries/7%2F..%2F%C3%A9%3Fx"
unfolding call_of
encoded = refl

call_of-IsPath_example : IsPath (call_of odd_entry).path
call_of-IsPath_example = call_of-IsPath odd_entry

abbrev sample_url : M Text
sample_url = return server

abbrev sample_request : Call Text → M Text
sample_request call = return (codes "tok2")

abbrev sample_token : Text → Text
sample_token t = t

login_run :
    login sample_url sample_request sample_token (codes "master") false stored
    ≡ (ok (codes "tok2"), set_token (some (codes "tok2")) (some server) stored)
unfolding login
login_run = refl

login-IsEntered_example :
    IsEntered sample_url sample_request sample_token
      (codes "master")
      false
      stored
      (codes "tok2")
      (set_token (some (codes "tok2")) (some server) stored)
login-IsEntered_example =
    login-IsEntered sample_url sample_request sample_token (codes "master") false stored
      (codes "tok2") (set_token (some (codes "tok2")) (some server) stored) login_run
